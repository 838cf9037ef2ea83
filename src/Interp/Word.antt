-- ===== src/Interp/Word.antt =====
-- Machine words of 64 bits and the tagging of integers, byterun/mlvalues.h: a word is a number
-- below `modulus`, an OCaml integer n is the word 2 n + 1.
use Prim.Native.Nat.{bit_and, bit_or, bit_xor}
use ocaml.Common.{ℕ, ◌+◌, ◌-◌, ◌*◌, ◌/◌, ◌%◌, ◌^◌, ◌≡◌, refl, Bool, true, false, ltb, if◌then◌else◌}
use ocaml.Common.Int.{ℤ, pos, negsuc, pos_part, neg_part, sub_ℕ, ltb_ℤ}

abbrev pub modulus : ℕ
modulus = 2 ^ 64

-- A signed number as a word: two's complement.
unfoldable pub to_word : ℤ → ℕ
to_word (pos n) = n % modulus
to_word (negsuc n) = modulus - 1 - n % modulus

-- The signed number that a word stands for, `(intnat) w`.
unfoldable pub signed : ℕ → ℤ
signed w = if ltb w (2 ^ 63) then pos w else negsuc (modulus - 1 - w)

-- `Val_long(x)`: ((intnat)(x) << 1) + 1.
unfoldable pub val_long : ℤ → ℕ
val_long (pos n) = (2 * n + 1) % modulus
val_long (negsuc n) = modulus - (2 * n + 1) % modulus

-- `Long_val(v)`: v >> 1, the shift of a signed number.
unfoldable pub long_val : ℕ → ℤ
long_val w = if ltb w (2 ^ 63) then pos (w / 2) else negsuc ((modulus - 1 - w) / 2)

-- `x << n` and `x >> n` on unsigned words, and `x >> n` on signed ones.
unfoldable pub shift_left : ℕ → ℕ → ℕ
shift_left x n = x * 2 ^ n % modulus

unfoldable pub shift_right : ℕ → ℕ → ℕ
shift_right x n = x / 2 ^ n

unfoldable pub shift_right_signed : ℕ → ℕ → ℕ
shift_right_signed x n =
    if ltb x (2 ^ 63) then x / 2 ^ n else modulus - 1 - (modulus - 1 - x) / 2 ^ n

-- `Val_int(b)` for the result of a C comparison.
unfoldable pub val_bool : Bool → ℕ
val_bool true = 3
val_bool false = 1

abbrev pub val_unit : ℕ
val_unit = 1

abbrev pub val_false : ℕ
val_false = 1

-- NEGINT, ADDINT, SUBINT and MULINT on words.
unfoldable pub neg_int : ℕ → ℕ
neg_int a = (2 + modulus - a) % modulus

unfoldable pub add_int : ℕ → ℕ → ℕ
add_int a b = (a + b + (modulus - 1)) % modulus

unfoldable pub sub_int : ℕ → ℕ → ℕ
sub_int a b = (a + (modulus - b) + 1) % modulus

-- ANDINT, ORINT, XORINT, LSLINT, LSRINT, ASRINT on words; the shifts take the untagged count.
unfoldable pub and_int : ℕ → ℕ → ℕ
and_int a b = bit_and a b

unfoldable pub or_int : ℕ → ℕ → ℕ
or_int a b = bit_or a b

unfoldable pub xor_int : ℕ → ℕ → ℕ
xor_int a b = bit_or (bit_xor a b) 1

unfoldable pub lsl_int : ℕ → ℕ → ℕ
unfolding shift_left
lsl_int a n = (shift_left ((a + (modulus - 1)) % modulus) n + 1) % modulus

unfoldable pub lsr_int : ℕ → ℕ → ℕ
unfolding shift_right
lsr_int a n = bit_or (shift_right ((a + (modulus - 1)) % modulus) n) 1

unfoldable pub asr_int : ℕ → ℕ → ℕ
unfolding shift_right_signed
asr_int a n = bit_or (shift_right_signed ((a + (modulus - 1)) % modulus) n) 1

-- C division and remainder, which round towards zero, on signed numbers.
unfoldable pub quotient : ℤ → ℤ → ℤ
quotient a b =
    let q = (pos_part a + neg_part a) / (pos_part b + neg_part b) in
    if ltb_ℤ a (pos 0)
    then (if ltb_ℤ b (pos 0) then pos q else sub_ℕ 0 q)
    else if ltb_ℤ b (pos 0)
    then sub_ℕ 0 q
    else pos q

unfoldable pub remainder : ℤ → ℤ → ℤ
remainder a b =
    let r = (pos_part a + neg_part a) % (pos_part b + neg_part b) in
    if ltb_ℤ a (pos 0) then sub_ℕ 0 r else pos r

-- Tests on words as the comparisons read them.
unfoldable pub signed_lt : ℕ → ℕ → Bool
unfolding signed
signed_lt a b = ltb_ℤ (signed a) (signed b)

tagged : val_long (negsuc 4) ≡ modulus - 9
unfolding val_long
tagged = refl

untagged : long_val (modulus - 9) ≡ negsuc 4
unfolding long_val
untagged = refl

shifted : asr_int (modulus - 9) 1 ≡ modulus - 5
unfolding asr_int
shifted = refl

divided : quotient (negsuc 6) (pos 2) ≡ negsuc 2
unfolding quotient
divided = refl
