-- ===== src/Bng/Defs.antt =====
-- The operations on numbers, otherlibs/num/bng.c.
use Prim.Native.Nat.{bit_or}
use ocaml.Common.{
  ℕ, zero, suc, ◌+◌, ◌-◌, ◌*◌, ◌/◌, ◌%◌, ◌^◌, not, ◌||◌, List, [], ◌∷◌, ltb, ◌==◌, if◌then◌else◌,
  get_or, length,
}
use ocaml.Common.Int.{ℤ, pos, negsuc}
use ocaml.Bng.Digit.{base, add2, add2_carry, add3, sub2, sub2_carry, sub3, mult, minus}

-- bng_complement: `~d` is base - 1 - d.
unfoldable pub complement : List ℕ → List ℕ
complement [] = []
complement (d ∷ a) = (base - 1 - d) ∷ complement a

-- bng_num_digits.
unfoldable pub num_digits_loop : List ℕ → ℕ → ℕ
num_digits_loop a zero = 1
num_digits_loop a (suc alen) =
    let rest = num_digits_loop a alen in if not (get_or a alen 0 == 0) then suc alen else rest

unfoldable pub num_digits : List ℕ → ℕ
unfolding num_digits_loop
num_digits a = num_digits_loop a (length a)

-- bng_compare: `while (alen > 0 && a[alen-1] == 0) alen--`.
unfoldable pub trim : List ℕ → ℕ → ℕ
trim a zero = 0
trim a (suc alen) = let rest = trim a alen in if get_or a alen 0 == 0 then rest else suc alen

-- The loop over the digits from the most significant on.
unfoldable pub compare_loop : List ℕ → List ℕ → ℕ → ℤ
compare_loop a b zero = pos 0
compare_loop a b (suc alen) =
    let da = get_or a alen 0 in
    let db = get_or b alen 0 in
    let rest = compare_loop a b alen in
    if ltb db da then pos 1 else if ltb da db then negsuc 0 else rest

unfoldable pub compare_digits : List ℕ → List ℕ → ℤ
unfolding trim compare_loop
compare_digits a b =
    let alen = trim a (length a) in
    let blen = trim b (length b) in
    if ltb blen alen then pos 1 else if ltb alen blen then negsuc 0 else compare_loop a b alen

-- The loop `do { if (++(*a) != 0) return 0; a++; } while (--alen); return 1`, of a number that may have no digits.
unfoldable pub increment : List ℕ → List ℕ × ℕ
increment [] = ([], 1)
increment (d ∷ a) =
    let d' = (d + 1) % base in
    let (a', out) = increment a in if not (d' == 0) then (d' ∷ a, 0) else (d' ∷ a', out)

-- The loop `do { if ((*a)-- != 0) return 0; a++; } while (--alen); return 1`.
unfoldable pub decrement : List ℕ → List ℕ × ℕ
decrement [] = ([], 1)
decrement (d ∷ a) =
    let d' = minus d 1 in
    let (a', out) = decrement a in if not (d == 0) then (d' ∷ a, 0) else (d' ∷ a', out)

-- bng_generic_add_carry and bng_generic_sub_carry.
unfoldable pub add_carry : List ℕ → ℕ → List ℕ × ℕ
unfolding increment
add_carry a carry = if carry == 0 || length a == 0 then (a, carry) else increment a

unfoldable pub sub_carry : List ℕ → ℕ → List ℕ × ℕ
unfolding decrement
sub_carry a carry = if carry == 0 || length a == 0 then (a, carry) else decrement a

-- bng_generic_add and bng_generic_sub. The second number is required to be no longer than the first:
-- C runs past the end otherwise, and here the digits left over are dropped.
unfoldable pub add : List ℕ → List ℕ → ℕ → List ℕ × ℕ
unfolding add_carry add2_carry
add a [] carry = add_carry a carry
add [] (y ∷ b) carry = ([], carry)
add (x ∷ a) (y ∷ b) carry =
    let (r, carry') = add2_carry x y carry in let (a', out) = add a b carry' in (r ∷ a', out)

unfoldable pub sub : List ℕ → List ℕ → ℕ → List ℕ × ℕ
unfolding sub_carry sub2_carry
sub a [] carry = sub_carry a carry
sub [] (y ∷ b) carry = ([], carry)
sub (x ∷ a) (y ∷ b) carry =
    let (r, carry') = sub2_carry x y carry in let (a', out) = sub a b carry' in (r ∷ a', out)

-- bng_generic_mult_add_digit: the loop over the digits of b, with `out` from the digit before, and
-- what follows it.
unfoldable pub mult_add_tail : List ℕ → ℕ → List ℕ × ℕ
unfolding add2 add_carry
mult_add_tail [] out = ([], out)
mult_add_tail (x ∷ a) out =
    let (r, carry) = add2 x out in let (a', out') = add_carry a carry in (r ∷ a', out')

unfoldable pub mult_add_loop : List ℕ → List ℕ → ℕ → ℕ → List ℕ × ℕ
unfolding mult_add_tail mult add3
mult_add_loop a [] d out = mult_add_tail a out
mult_add_loop [] (y ∷ b) d out = ([], out)
mult_add_loop (x ∷ a) (y ∷ b) d out =
    let (ph, pl) = mult y d in
    let (r, ph') = add3 ph x pl out in let (a', out') = mult_add_loop a b d ph' in (r ∷ a', out')

unfoldable pub mult_add_digit : List ℕ → List ℕ → ℕ → List ℕ × ℕ
unfolding mult_add_loop
mult_add_digit a b d = mult_add_loop a b d 0

-- bng_generic_mult_sub_digit.
unfoldable pub mult_sub_tail : List ℕ → ℕ → List ℕ × ℕ
unfolding sub2 sub_carry
mult_sub_tail [] out = ([], out)
mult_sub_tail (x ∷ a) out =
    let (r, carry) = sub2 x out in let (a', out') = sub_carry a carry in (r ∷ a', out')

unfoldable pub mult_sub_loop : List ℕ → List ℕ → ℕ → ℕ → List ℕ × ℕ
unfolding mult_sub_tail mult sub3
mult_sub_loop a [] d out = mult_sub_tail a out
mult_sub_loop [] (y ∷ b) d out = ([], out)
mult_sub_loop (x ∷ a) (y ∷ b) d out =
    let (ph, pl) = mult y d in
    let (r, ph') = sub3 ph x pl out in let (a', out') = mult_sub_loop a b d ph' in (r ∷ a', out')

unfoldable pub mult_sub_digit : List ℕ → List ℕ → ℕ → List ℕ × ℕ
unfolding mult_sub_loop
mult_sub_digit a b d = mult_sub_loop a b d 0

-- The loop of bng_generic_mult_add goes on one place further, `a++, alen--`: the first digit stays.
unfoldable pub next_place : List ℕ → (List ℕ → List ℕ × ℕ) → ℕ → List ℕ × ℕ
next_place [] loop carry = ([], carry)
next_place (x ∷ a) loop carry = let (a', carry') = loop a in (x ∷ a', carry')

-- The loop: the product with a digit of c at a time. The carries, all of the same weight, are added
-- up as an `unsigned int`.
unfoldable pub mult_add_from : List ℕ → List ℕ → List ℕ → ℕ → List ℕ × ℕ
unfolding next_place
mult_add_from a b [] carry = (a, carry)
mult_add_from a b (d ∷ c) carry =
    let (a', out) = mult_add_digit a b d in
    let carry' = (carry + out) % 2 ^ 32 in
    next_place a' (λ rest. mult_add_from rest b c carry') carry'

-- bng_generic_mult_add.
unfoldable pub mult_add : List ℕ → List ℕ → List ℕ → List ℕ × ℕ
unfolding mult_add_from
mult_add a b c = mult_add_from a b c 0

-- bng_generic_shift_left: from the least significant digit on, with the bits from the digit before.
-- A shift of 0 leaves the digits alone.
unfoldable pub shift_left_loop : ℕ → List ℕ → ℕ → List ℕ × ℕ
shift_left_loop shift [] carry = ([], carry)
shift_left_loop shift (d ∷ a) carry =
    let (a', out) = shift_left_loop shift a (d / 2 ^ (64 - shift)) in
    (bit_or (d * 2 ^ shift % base) carry ∷ a', out)

unfoldable pub shift_left : List ℕ → ℕ → List ℕ × ℕ
unfolding shift_left_loop
shift_left a shift = if ltb 0 shift then shift_left_loop shift a 0 else (a, 0)

-- bng_generic_shift_right: from the most significant digit on, so that the carry comes from the digits
-- behind. A shift of 0 leaves the digits alone.
unfoldable pub shift_right_loop : ℕ → List ℕ → List ℕ × ℕ
shift_right_loop shift [] = ([], 0)
shift_right_loop shift (d ∷ a) =
    let (a', carry) = shift_right_loop shift a in
    (bit_or (d / 2 ^ shift) carry ∷ a', d * 2 ^ (64 - shift) % base)

unfoldable pub shift_right : List ℕ → ℕ → List ℕ × ℕ
unfolding shift_right_loop
shift_right a shift = if ltb 0 shift then shift_right_loop shift a else (a, 0)

-- bng_leading_zero_bits, on 64 bits: a test of the upper half of what is left, six times.
unfoldable pub zero_bits_step : ℕ → ℕ × ℕ → ℕ × ℕ
zero_bits_step width (n, d) =
    if not (d / 2 ^ width == 0) then (n - width, d / 2 ^ width) else (n, d)

unfoldable pub leading_zero_bits : ℕ → ℕ
unfolding zero_bits_step
leading_zero_bits d =
    let (n, d') = zero_bits_step 1 (
      zero_bits_step 2
        (zero_bits_step 4 (zero_bits_step 8 (zero_bits_step 16 (zero_bits_step 32 (64, d)))))) in
    n - d'
