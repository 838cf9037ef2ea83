-- ===== src/Bng/Order.antt =====
-- Comparison of numbers, bng_compare and bng_num_digits of otherlibs/num/bng.c.
use ocaml.Common.{
  ℕ, zero, suc, ◌+◌, ◌*◌, ◌≤◌, ◌<◌, ◌≡◌, ◌≢◌, refl, List, [], ◌∷◌, arith, length, get_or, ap, sym,
  ◌∙◌, ◌⊎◌, inl, inr,
}
use ocaml.Common.Int.{ℤ, pos, negsuc}
use ocaml.Bng.Digit.{base}
use ocaml.Bng.Defs.{trim, compare_loop, compare_digits}
use ocaml.Bng.Value.{value, IsDigits}

-- base to a power, and the number that the first digits stand for.
abbrev weight : ℕ → ℕ
weight zero = 1
weight (suc n) = base * weight n

abbrev low : List ℕ → ℕ → ℕ
low a zero = 0
low a (suc n) = low a n + get_or a n 0 * weight n

low-cons : (d : ℕ) (a : List ℕ) (n : ℕ) → low (d ∷ a) (suc n) ≡ d + base * low a n
low-cons d a zero = omega arith
low-cons d a (suc n) = omega (arith, low-cons d a n)

low-length : (a : List ℕ) → low a (length a) ≡ value a
low-length [] = refl
low-length (d ∷ a) = omega (arith, low-cons d a (length a), low-length a)

digit_bound : (a : List ℕ) (i : ℕ) → IsDigits a → get_or a i 0 < base
digit_bound [] i h = omega arith
digit_bound (d ∷ a) zero h = h.0
digit_bound (d ∷ a) (suc i) h = digit_bound a i h.1

digit_below : (d w : ℕ) → d < base → d * w + w ≤ base * w
digit_below d w h = grind arith

low-lt-weight : (a : List ℕ) (n : ℕ) → IsDigits a → low a n < weight n
low-lt-weight a zero h = omega arith
low-lt-weight a (suc n) h =
    omega (arith, low-lt-weight a n h, digit_below (get_or a n 0) (weight n) (digit_bound a n h))

weight_mono : (m n : ℕ) → m ≤ n → weight m ≤ weight n
weight_mono zero zero h = omega arith
weight_mono zero (suc n) h = omega (arith, weight_mono zero n (omega arith))
weight_mono (suc m) zero h = absurd (omega arith)
weight_mono (suc m) (suc n) h = omega (arith, weight_mono m n (omega arith))

-- Leading zeros do not count, and what is left starts with a digit that is not zero.
trim-low : (a : List ℕ) (n : ℕ) → low a (trim a n) ≡ low a n
unfolding trim
trim-low a zero = refl
trim-low a (suc n) = ground (arith, trim-low a n)

le_of_nonzero : (d w x : ℕ) → d ≢ 0 → w ≤ x + d * w
le_of_nonzero zero w x h = absurd (h refl)
le_of_nonzero (suc d) w x h = omega arith

weight_of_trim : (a : List ℕ) (n k : ℕ) → trim a n ≡ suc k → weight k ≤ low a (suc k)
unfolding trim
weight_of_trim a zero k e = ground arith
weight_of_trim a (suc n) k e = ground (
  arith,
  weight_of_trim a n k,
  ap weight {x = n} {y = k},
  ap (λ i. low a (suc i)) {x = n} {y = k},
  le_of_nonzero (get_or a n 0) (weight n) (low a n),
)

-- The sign of a comparison.
abbrev pub Orders : ℤ → ℕ → ℕ → Type 0
Orders s x y = ((s ≡ pos 1) × (y < x)) ⊎ ((s ≡ pos 0) × (x ≡ y)) ⊎ ((s ≡ negsuc 0) × (x < y))

digit_lt : (d e w : ℕ) → d < e → d * w + w ≤ e * w
digit_lt d e w h = grind arith

compare_loop-Orders :
    (a b : List ℕ) (n : ℕ)
    → IsDigits a
    → IsDigits b
    → Orders (compare_loop a b n) (low a n) (low b n)
unfolding compare_loop
compare_loop-Orders a b zero ha hb = inr (inl (refl, refl))
compare_loop-Orders a b (suc n) ha hb = ground (
  arith,
  compare_loop-Orders a b n ha hb,
  low-lt-weight a n ha,
  low-lt-weight b n hb,
  digit_lt (get_or a n 0) (get_or b n 0) (weight n),
  digit_lt (get_or b n 0) (get_or a n 0) (weight n),
  ap (λ d. d * weight n) {x = get_or a n 0} {y = get_or b n 0},
)

-- More digits after trimming make a greater number.
longer_is_greater : (a b : List ℕ) (m n : ℕ) → IsDigits b → trim b n < trim a m → low b n < low a m
longer_is_greater a b m n hb h = go (trim a m) refl
  where
    go : (k : ℕ) → trim a m ≡ k → low b n < low a m
    go zero e = absurd (omega arith)
    go (suc k) e =
        let same : low a (suc k) ≡ low a m = ap (low a) (sym e) ∙ trim-low a m in
        omega (
          arith,
          weight_of_trim a m k e,
          trim-low b n,
          low-lt-weight b (trim b n) hb,
          weight_mono (trim b n) k (omega arith),
          same,
        )

-- bng_compare is 1, 0 or -1 as the first number is greater than, equal to or less than the second,
-- whatever leading zeros the two have and however long they are.
pub compare_digits-Orders :
    (a b : List ℕ) → IsDigits a → IsDigits b → Orders (compare_digits a b) (value a) (value b)
unfolding compare_digits
compare_digits-Orders a b ha hb = ground (
  arith,
  longer_is_greater a b (length a) (length b) hb,
  longer_is_greater b a (length b) (length a) ha,
  compare_loop-Orders a b (trim a (length a)) ha hb,
  low-length a,
  low-length b,
  trim-low a (length a),
  trim-low b (length b),
  ap (low b) {x = trim a (length a)} {y = trim b (length b)},
)
