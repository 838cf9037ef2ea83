-- ===== src/Bng/Shifts.antt =====
-- Shifts of otherlibs/num/bng.c against the numbers that the digits stand for.
use Prim.Native.Nat.{bit_or}
use ocaml.Common.{
  ℕ, zero, suc, ◌+◌, ◌-◌, ◌*◌, ◌/◌, ◌%◌, ◌^◌, ◌≤◌, ◌<◌, ◌≡◌, refl, List, [], ◌∷◌, arith, length,
  ltb, true, if◌then◌else◌, ap, sym, ◌∙◌,
}
use native.Mathlib.Nat.{one-le-pow}
use ocaml.Common.Bits.{bit_or_disjoint, bit_or_disjoint_right, pow-add}
use ocaml.Bng.Digit.{base}
use ocaml.Bng.Defs.{shift_left_loop, shift_left, shift_right_loop, shift_right}
use ocaml.Bng.Value.{value, scale, IsDigits}

-- The two powers that a shift splits the base into.
base_split : (s : ℕ) → s < 64 → 2 ^ (64 - s) * 2 ^ s ≡ base
base_split s h = sym (pow-add (64 - s) s) ∙ ap (λ k. 2 ^ k) (whole s h)
  where
    whole : (s : ℕ) → s < 64 → 64 - s + s ≡ 64
    whole s h = omega arith

below_product : (r q k : ℕ) → r < q → r * k + k ≤ q * k
below_product r q k h = grind arith

-- Quotients of digits by a factor of the base.
quotient_lt : (d k q : ℕ) → 0 < q → q * k ≡ base → d < base → d / q < k
quotient_lt d k q hq e h = grind arith

-- A digit times a factor of the base, by quotient and remainder.
split_product :
    (d k q : ℕ)
    → 0 < k
    → 0 < q
    → q * k ≡ base
    → (d * k ≡ d % q * k + base * (d / q)) × (d % q * k + k ≤ base) × (d * k % base ≡ d % q * k)
split_product d k q hk hq e =
    let whole : d ≡ q * (d / q) + d % q = omega arith in
    let product : d * k ≡ d % q * k + base * (d / q) =
      omega (arith, ap (λ t. t * k) whole, ap (λ t. t * (d / q)) e) in
    let bound = below_product (d % q) q k (omega arith) in
    (product, omega (arith, bound), omega (arith, product, bound))

two_pow_pos : (s : ℕ) → 0 < 2 ^ s
two_pow_pos s = one-le-pow s 2 (omega arith)

module _ (s : ℕ) (positive : 0 < s) (small : s < 64) where
  shift_left_loop-value :
      (a : List ℕ) (carry : ℕ)
      → IsDigits a
      → carry < 2 ^ s
      → (value (shift_left_loop s a carry).0 + (shift_left_loop s a carry).1 * scale a
          ≡ value a * 2 ^ s + carry)
        × IsDigits (shift_left_loop s a carry).0
        × (length (shift_left_loop s a carry).0 ≡ length a)
        × ((shift_left_loop s a carry).1 < 2 ^ s)
  unfolding shift_left_loop
  shift_left_loop-value [] carry h hc = (omega arith, tt, refl, hc)
  shift_left_loop-value (d ∷ a) carry h hc =
      let k = 2 ^ s in
      let q = 2 ^ (64 - s) in
      let parts = split_product d k q (two_pow_pos s) (two_pow_pos (64 - s)) (base_split s small) in
      let rest =
        shift_left_loop-value a (d / q) h.1
          (quotient_lt d k q (two_pow_pos (64 - s)) (base_split s small) h.0) in
      let digit : bit_or (d * k % base) carry ≡ d % q * k + carry =
        ap (λ n. bit_or n carry) parts.2 ∙ bit_or_disjoint s (d % q) carry hc in
      (
        omega (arith, parts, rest, digit),
        (omega (arith, parts, digit), rest.1),
        omega (arith, rest.2),
        rest.3,
      )

  -- The carry holds the bits shifted out of a digit at the top of a digit.
  shift_right_loop-value :
      (a : List ℕ)
      → IsDigits a
      → (out : ℕ) × ((shift_right_loop s a).1 ≡ out * 2 ^ (64 - s))
        × (out < 2 ^ s)
        × (value (shift_right_loop s a).0 * 2 ^ s + out ≡ value a)
        × IsDigits (shift_right_loop s a).0
        × (length (shift_right_loop s a).0 ≡ length a)
  unfolding shift_right_loop
  shift_right_loop-value [] h = (0, omega arith, two_pow_pos s, omega arith, tt, refl)
  shift_right_loop-value (d ∷ a) h =
      let k = 2 ^ s in
      let q = 2 ^ (64 - s) in
      let swapped : k * q ≡ base = omega (arith, base_split s small) in
      let parts = split_product d q k (two_pow_pos (64 - s)) (two_pow_pos s) swapped in
      let (out, carry, few, shifted, digits, long) = shift_right_loop-value a h.1 in
      let digit : bit_or (d / k) (shift_right_loop s a).1 ≡ out * q + d / k =
        ap (λ n. bit_or (d / k) n) carry
        ∙ bit_or_disjoint_right (64 - s) out (d / k)
            (quotient_lt d q k (two_pow_pos s) swapped h.0) in
      let whole : d ≡ k * (d / k) + d % k = omega (arith, two_pow_pos s) in
      let room = below_product out k q few in
      (
        d % k,
        parts.2,
        omega (arith, two_pow_pos s),
        omega (arith, whole, ap (λ n. n * k) digit, shifted, ap (λ n. out * n) swapped),
        (
          omega (arith, digit, room, swapped, quotient_lt d q k (two_pow_pos s) swapped h.0),
          digits,
        ),
        omega (arith, long),
      )

shift_left_positive : (a : List ℕ) (s : ℕ) → 0 < s → shift_left a s ≡ shift_left_loop s a 0
unfolding shift_left
shift_left_positive a s h =
    let positive : ltb 0 s ≡ true = ground arith in
    ap (λ b. if b then shift_left_loop s a 0 else (a, 0)) positive

shift_right_positive : (a : List ℕ) (s : ℕ) → 0 < s → shift_right a s ≡ shift_right_loop s a
unfolding shift_right
shift_right_positive a s h =
    let positive : ltb 0 s ≡ true = ground arith in
    ap (λ b. if b then shift_right_loop s a else (a, 0)) positive

quotient_remainder :
    (v k out n : ℕ) → 0 < k → v * k + out ≡ n → out < k → (v ≡ n / k) × (out ≡ n % k)
quotient_remainder v k out n hk e h = (grind arith, grind arith)

-- bng_shift_left by fewer bits than a digit has: the digits left, with what is shifted out above them,
-- are the number times that power of two. They are digits, as many as before, and what is shifted out
-- has as many bits as the shift.
pub shift_left-value :
    (a : List ℕ) (s : ℕ)
    → IsDigits a
    → s < 64
    → (value (shift_left a s).0 + (shift_left a s).1 * scale a ≡ value a * 2 ^ s)
      × IsDigits (shift_left a s).0
      × (length (shift_left a s).0 ≡ length a)
      × ((shift_left a s).1 < 2 ^ s)
unfolding shift_left
shift_left-value a zero h small = (omega arith, h, refl, omega arith)
shift_left-value a (suc s) h small =
    let r = shift_left_loop-value (suc s) (omega arith) small a 0 h (two_pow_pos (suc s)) in
    rw (shift_left_positive a (suc s) (omega arith)) (omega (arith, r), r.1, r.2, r.3)

-- bng_shift_right by fewer bits than a digit has: the digits left are the number divided by that power
-- of two, as many as before, and what is returned holds the remainder in the top bits of a digit.
pub shift_right-value :
    (a : List ℕ) (s : ℕ)
    → IsDigits a
    → s < 64
    → (value (shift_right a s).0 ≡ value a / 2 ^ s)
      × IsDigits (shift_right a s).0
      × (length (shift_right a s).0 ≡ length a)
      × ((shift_right a s).1 ≡ value a % 2 ^ s * 2 ^ (64 - s))
unfolding shift_right
shift_right-value a zero h small = (omega arith, h, refl, omega arith)
shift_right-value a (suc s) h small =
    let (out, carry, few, shifted, digits, long) =
      shift_right_loop-value (suc s) (omega arith) small a h in
    let (quotient, remainder) =
      quotient_remainder (value (shift_right_loop (suc s) a).0) (2 ^ suc s) out (value a)
        (two_pow_pos (suc s)) shifted few in
    rw (shift_right_positive a (suc s) (omega arith))
      (quotient, digits, long, carry ∙ ap (λ n. n * 2 ^ (64 - suc s)) remainder)
