-- ===== src/Common/Bits.antt =====
-- Bitwise or and and: or of numbers whose bits do not meet is their sum, at every width, and single
-- bits of the results.
use Prim.Native.Nat.{max, bit_or, digits, bit_or-bitwise, bit_and, bit_and-bitwise}
use native.Mathlib.Nat.{pow-suc, zero-add, suc-add}
use ocaml.Common.{
  ℕ, zero, suc, ◌+◌, ◌*◌, ◌/◌, ◌%◌, ◌^◌, ◌≤◌, ◌<◌, ◌≡◌, refl, ap, ◌∙◌, Bool, false, not, ◌||◌, ◌==◌,
  min, arith,
}

-- Any fuel from the first number on gives the same.
digits_enough :
    (rest : ℕ → ℕ) (op : ℕ → ℕ → ℕ) (m a b : ℕ)
    → a ≤ m
    → digits rest op m a b ≡ digits rest op a a b
digits_enough rest op m a b h = both m a a b h (omega arith)
  where
    both : (m n a b : ℕ) → a ≤ m → a ≤ n → digits rest op m a b ≡ digits rest op n a b
    both zero zero a b p q = refl
    both zero (suc n) zero b p q = refl
    both zero (suc n) (suc a) b p q = absurd (omega arith)
    both (suc m) zero zero b p q = refl
    both (suc m) zero (suc a) b p q = absurd (omega arith)
    both (suc m) (suc n) zero b p q = refl
    both (suc m) (suc n) (suc a) b p q =
        omega (arith, both m n (suc a / 2) (b / 2) (omega arith) (omega arith))

or_zero_left : (b : ℕ) → bit_or 0 b ≡ b
or_zero_left b = bit_or-bitwise 0 b

-- The lowest bit, and the others.
or_unfold : (a b : ℕ) → bit_or a b ≡ 2 * bit_or (a / 2) (b / 2) + max (a % 2) (b % 2)
or_unfold zero b = omega (arith, or_zero_left b, or_zero_left (b / 2))
or_unfold (suc a) b = omega (
  arith,
  bit_or-bitwise (suc a) b,
  bit_or-bitwise (suc a / 2) (b / 2),
  digits_enough (λ x. x) max a (suc a / 2) (b / 2) (omega arith),
)

or_zero_right : (n a : ℕ) → a ≤ n → bit_or a 0 ≡ a
or_zero_right n zero h = refl
or_zero_right zero (suc a) h = absurd (omega arith)
or_zero_right (suc n) (suc a) h =
    omega (arith, or_unfold (suc a) 0, or_zero_right n (suc a / 2) (omega arith))

-- No bit is lost.
pub bit_or-le : (n a b : ℕ) → a ≤ n → b ≤ n → (a ≤ bit_or a b) × (b ≤ bit_or a b)
bit_or-le zero a b p q =
    let none_a : a ≡ 0 = omega arith in
    let none_b : b ≡ 0 = omega arith in (omega (arith, none_a), omega (arith, none_b))
bit_or-le (suc n) a b p q =
    let halves = bit_or-le n (a / 2) (b / 2) (omega arith) (omega arith) in
    (omega (arith, or_unfold a b, halves), omega (arith, or_unfold a b, halves))

times_two_pow : (x s : ℕ) → x * 2 ^ suc s ≡ 2 * (x * 2 ^ s)
times_two_pow x s = omega (arith, ap (λ (p : ℕ). x * p) (pow-suc 2 s))

-- A number shifted left by s, or a number of s bits.
pub bit_or_disjoint : (s x y : ℕ) → y < 2 ^ s → bit_or (x * 2 ^ s) y ≡ x * 2 ^ s + y
bit_or_disjoint zero x y small = ground (arith, or_zero_right x x)
bit_or_disjoint (suc s) x y small = omega (
  arith,
  or_unfold (x * 2 ^ suc s) y,
  times_two_pow x s,
  ap (λ (n : ℕ). bit_or n (y / 2)) (half_shifted x s),
  bit_or_disjoint s x (y / 2) (half_small s y small),
)
  where
    half_shifted : (x s : ℕ) → x * 2 ^ suc s / 2 ≡ x * 2 ^ s
    half_shifted x s = omega (arith, times_two_pow x s)

    half_small : (s y : ℕ) → y < 2 ^ suc s → y / 2 < 2 ^ s
    half_small s y h = omega (arith, pow-suc 2 s)

-- The same with the low bits first.
pub bit_or_disjoint_right : (s x y : ℕ) → y < 2 ^ s → bit_or y (x * 2 ^ s) ≡ x * 2 ^ s + y
bit_or_disjoint_right zero x y small = ground (arith, or_zero_left x)
bit_or_disjoint_right (suc s) x y small = omega (
  arith,
  or_unfold y (x * 2 ^ suc s),
  times_two_pow x s,
  ap (λ (n : ℕ). bit_or (y / 2) n) (half_shifted x s),
  bit_or_disjoint_right s x (y / 2) (half_small s y small),
)
  where
    half_shifted : (x s : ℕ) → x * 2 ^ suc s / 2 ≡ x * 2 ^ s
    half_shifted x s = omega (arith, times_two_pow x s)

    half_small : (s y : ℕ) → y < 2 ^ suc s → y / 2 < 2 ^ s
    half_small s y h = omega (arith, pow-suc 2 s)

pub pow-add : (m n : ℕ) → 2 ^ (m + n) ≡ 2 ^ m * 2 ^ n
pow-add zero n = omega (arith, ap (λ k. 2 ^ k) (zero-add n))
pow-add (suc m) n = omega (
  arith,
  ap (λ k. 2 ^ k) (suc-add m n),
  pow-suc 2 (m + n),
  ap (λ (p : ℕ). p * 2 ^ n) (pow-suc 2 m),
  pow-add m n,
)

-- The bit of weight 2 ^ k.
abbrev pub testbit : ℕ → ℕ → Bool
testbit zero a = a % 2 == 1
testbit (suc k) a = testbit k (a / 2)

pub testbit-or : (k a b : ℕ) → testbit k (bit_or a b) ≡ (testbit k a || testbit k b)
testbit-or zero a b = ground (arith, or_unfold a b)
testbit-or (suc k) a b =
    let half : bit_or a b / 2 ≡ bit_or (a / 2) (b / 2) = omega (arith, or_unfold a b) in
    ap (λ n. testbit k n) half ∙ testbit-or k (a / 2) (b / 2)

and_zero_left : (b : ℕ) → bit_and 0 b ≡ 0
and_zero_left b = bit_and-bitwise 0 b

and_unfold : (a b : ℕ) → bit_and a b ≡ 2 * bit_and (a / 2) (b / 2) + min (a % 2) (b % 2)
and_unfold zero b = omega (arith, and_zero_left b, and_zero_left (b / 2))
and_unfold (suc a) b = omega (
  arith,
  bit_and-bitwise (suc a) b,
  bit_and-bitwise (suc a / 2) (b / 2),
  digits_enough (λ x. zero) min a (suc a / 2) (b / 2) (omega arith),
)

and_zero_right : (n a : ℕ) → a ≤ n → bit_and a 0 ≡ 0
and_zero_right n zero h = refl
and_zero_right zero (suc a) h = absurd (omega arith)
and_zero_right (suc n) (suc a) h =
    omega (arith, and_unfold (suc a) 0, and_zero_right n (suc a / 2) (omega arith))

-- A mask with one bit.
pub testbit-and : (k a : ℕ) → not (bit_and a (2 ^ k) == 0) ≡ testbit k a
testbit-and zero a = ground (arith, and_unfold a 1, and_zero_right (a / 2) (a / 2) (omega arith))
testbit-and (suc k) a =
    let even : bit_and a (2 ^ suc k) ≡ 2 * bit_and (a / 2) (2 ^ k) =
      omega
        (arith, and_unfold a (2 ^ suc k), pow-suc 2 k, ap (λ n. bit_and (a / 2) n) (half_pow k)) in
    let same : not (bit_and a (2 ^ suc k) == 0) ≡ not (bit_and (a / 2) (2 ^ k) == 0) =
      ground (arith, even) in
    same ∙ testbit-and k (a / 2)
  where
    half_pow : (k : ℕ) → 2 ^ suc k / 2 ≡ 2 ^ k
    half_pow k = omega (arith, pow-suc 2 k)

pub testbit-pow : (k l : ℕ) → testbit k (2 ^ l) ≡ (k == l)
testbit-pow zero zero = refl
testbit-pow zero (suc l) = ground (arith, pow-suc 2 l)
testbit-pow (suc k) zero = testbit_zero k ∙ ground arith
  where
    testbit_zero : (k : ℕ) → testbit k 0 ≡ false
    testbit_zero zero = refl
    testbit_zero (suc k) = testbit_zero k
testbit-pow (suc k) (suc l) =
    let half : 2 ^ suc l / 2 ≡ 2 ^ l = omega (arith, pow-suc 2 l) in
    let same : (k == l) ≡ (suc k == suc l) = ground arith in
    ap (λ n. testbit k n) half ∙ testbit-pow k l ∙ same
