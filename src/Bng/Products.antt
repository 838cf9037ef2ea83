-- ===== src/Bng/Products.antt =====
-- Products of otherlibs/num/bng.c against the numbers that the digits stand for.
use ocaml.Common.{
  ℕ, ◌+◌, ◌-◌, ◌*◌, ◌/◌, ◌%◌, ◌≤◌, ◌<◌, ◌≡◌, refl, List, [], ◌∷◌, arith, length, ◌∙◌,
}
use native.Mathlib.Nat.{mul-le-mul, mod-eq_of_lt}
use mathlib.Core.Path.{ap₂}
use ocaml.Bng.Digit.{base, half, add2, add3, mult}
use ocaml.Bng.Defs.{mult_add_tail, mult_add_loop, mult_add_digit}
use ocaml.Bng.Value.{value, scale, IsDigits}
use ocaml.Bng.Sums.{add_carry-value}

add2-value :
    (x y : ℕ)
    → x < base
    → y < base
    → ((add2 x y).0 + base * (add2 x y).1 ≡ x + y) × ((add2 x y).0 < base) × ((add2 x y).1 ≤ 1)
unfolding add2
add2-value x y hx hy = ground arith

-- The sum of three digits, with the carries on top of a digit that has room for them.
add3-value :
    (acc x y z : ℕ)
    → x < base
    → y < base
    → z < base
    → x + y + z + base * acc < base * base
    → ((add3 acc x y z).0 + base * (add3 acc x y z).1 ≡ x + y + z + base * acc)
      × ((add3 acc x y z).0 < base)
      × ((add3 acc x y z).1 < base)
unfolding add3
add3-value acc x y z hx hy hz room = ground arith

halves_product :
    (al ah bl bh : ℕ)
    → (al + half * ah) * (bl + half * bh)
      ≡ al * bl + half * (al * bh) + half * (ah * bl) + half * half * (ah * bh)
halves_product al ah bl bh = omega arith

half_product_bound : (a b : ℕ) → a < half → b < half → a * b ≤ (half - 1) * (half - 1)
half_product_bound a b ha hb =
    mul-le-mul {n₁ = a} {m₁ = b} {n₂ = half - 1} {m₂ = half - 1} (omega arith) (omega arith)

pub digit_product_bound : (a b : ℕ) → a < base → b < base → a * b ≤ (base - 1) * (base - 1)
digit_product_bound a b ha hb =
    mul-le-mul {n₁ = a} {m₁ = b} {n₂ = base - 1} {m₂ = base - 1} (omega arith) (omega arith)

-- The four products of half digits, put together.
halves_sum :
    (p11 p12 p21 p22 : ℕ)
    → p11 ≤ (half - 1) * (half - 1)
    → p12 ≤ (half - 1) * (half - 1)
    → p21 ≤ (half - 1) * (half - 1)
    → p11 + half * p12 + half * p21 + half * half * p22 ≤ (base - 1) * (base - 1)
    → (p11 + p12 * half % base + p21 * half % base + base * (p22 + p12 / half + p21 / half)
        ≡ p11 + half * p12 + half * p21 + half * half * p22)
      × (p22 + p12 / half + p21 / half < base)
halves_sum p11 p12 p21 p22 h11 h12 h21 total = omega arith

abbrev combined : ℕ → ℕ → ℕ → ℕ → ℕ × ℕ
combined p11 p12 p21 p22 =
    add3 ((p22 % base + p12 % base / half + p21 % base / half) % base) (p11 % base)
      (p12 % base * half % base) (p21 % base * half % base)

-- The last step of BngMult, on the four products.
combine_halves :
    (p11 p12 p21 p22 n : ℕ)
    → p11 ≤ (half - 1) * (half - 1)
    → p12 ≤ (half - 1) * (half - 1)
    → p21 ≤ (half - 1) * (half - 1)
    → p22 ≤ (half - 1) * (half - 1)
    → n ≤ (base - 1) * (base - 1)
    → n ≡ p11 + half * p12 + half * p21 + half * half * p22
    → ((combined p11 p12 p21 p22).0 + base * (combined p11 p12 p21 p22).1 ≡ n)
      × ((combined p11 p12 p21 p22).1 < base)
      × ((combined p11 p12 p21 p22).0 < base)
combine_halves p11 p12 p21 p22 n h11 h12 h21 h22 bound total =
    let sum = halves_sum p11 p12 p21 p22 h11 h12 h21 (omega arith) in
    let r =
      add3-value (p22 + p12 / half + p21 / half) p11 (p12 * half % base) (p21 * half % base)
        (omega arith) (omega arith) (omega arith) (omega arith) in
    rw
      (
        mod-eq_of_lt {n = p11} {m = base} (omega arith),
        mod-eq_of_lt {n = p12} {m = base} (omega arith),
        mod-eq_of_lt {n = p21} {m = base} (omega arith),
        mod-eq_of_lt {n = p22} {m = base} (omega arith),
        mod-eq_of_lt {n = p22 + p12 / half + p21 / half} {m = base} sum.1,
      )
      (omega (arith, r), r.2, r.1)

-- BngMult gives the two digits of the product.
pub mult-value :
    (a b : ℕ)
    → a < base
    → b < base
    → ((mult a b).1 + base * (mult a b).0 ≡ a * b) × ((mult a b).0 < base) × ((mult a b).1 < base)
unfolding mult
mult-value a b ha hb =
    let al = a % half in
    let ah = a / half in
    let bl = b % half in
    let bh = b / half in
    let b11 = half_product_bound al bl (omega arith) (omega arith) in
    let b12 = half_product_bound al bh (omega arith) (omega arith) in
    let b21 = half_product_bound ah bl (omega arith) (omega arith) in
    let b22 = half_product_bound ah bh (omega arith) (omega arith) in
    let split_a : a ≡ al + half * ah = omega arith in
    let split_b : b ≡ bl + half * bh = omega arith in
    let product : a * b ≡ al * bl + half * (al * bh) + half * (ah * bl) + half * half * (ah * bh) =
      ap₂ ◌*◌ split_a split_b ∙ halves_product al ah bl bh in
    let bound = digit_product_bound a b ha hb in
    combine_halves (al * bl) (al * bh) (ah * bl) (ah * bh) (a * b) b11 b12 b21 b22 bound product

mult_add_tail-value :
    (a : List ℕ) (out : ℕ)
    → IsDigits a
    → out < base
    → (value (mult_add_tail a out).0 + (mult_add_tail a out).1 * scale a ≡ value a + out)
      × IsDigits (mult_add_tail a out).0
      × (length (mult_add_tail a out).0 ≡ length a)
      × ((mult_add_tail a out).1 < base)
unfolding mult_add_tail
mult_add_tail-value [] out h small = (omega arith, tt, refl, small)
mult_add_tail-value (x ∷ a) out h small =
    let low = add2-value x out h.0 small in
    let high = add_carry-value a (add2 x out).1 h.1 low.2 in
    (omega (arith, low, high), (low.1, high.1), omega (arith, high.2), omega (arith, high.3))

-- One digit of the loop: the sum of a digit, a product and the digit carried fits two digits.
mult_add_step :
    (x y d out : ℕ)
    → x < base
    → y < base
    → d < base
    → out < base
    → ((add3 (mult y d).0 x (mult y d).1 out).0 + base * (add3 (mult y d).0 x (mult y d).1 out).1
        ≡ x + out + y * d)
      × ((add3 (mult y d).0 x (mult y d).1 out).0 < base)
      × ((add3 (mult y d).0 x (mult y d).1 out).1 < base)
mult_add_step x y d out hx hy hd ho =
    let p = mult-value y d hy hd in
    let bound = digit_product_bound y d hy hd in
    let r = add3-value (mult y d).0 x (mult y d).1 out hx p.2 ho (omega (arith, p, bound)) in
    (omega (arith, r, p), r.1, r.2)

mult_add_loop-value :
    (a b : List ℕ) (d out : ℕ)
    → IsDigits a
    → IsDigits b
    → d < base
    → out < base
    → length b ≤ length a
    → (value (mult_add_loop a b d out).0 + (mult_add_loop a b d out).1 * scale a
        ≡ value a + out + value b * d)
      × IsDigits (mult_add_loop a b d out).0
      × (length (mult_add_loop a b d out).0 ≡ length a)
      × ((mult_add_loop a b d out).1 < base)
unfolding mult_add_loop
mult_add_loop-value a [] d out ha hb hd ho fits =
    let r = mult_add_tail-value a out ha ho in (omega (arith, r), r.1, r.2, r.3)
mult_add_loop-value [] (y ∷ b) d out ha hb hd ho fits = absurd (omega arith)
mult_add_loop-value (x ∷ a) (y ∷ b) d out ha hb hd ho fits =
    let low = mult_add_step x y d out ha.0 hb.0 hd ho in
    let high =
      mult_add_loop-value a b d (add3 (mult y d).0 x (mult y d).1 out).1 ha.1 hb.1 hd low.2
        (omega arith) in
    (omega (arith, low, high), (low.1, high.1), omega (arith, high.2), high.3)

-- bng_mult_add_digit with a first number no shorter than the second: the digits left in the first,
-- with the digit carried out above them, are the first number plus the product of the second and the
-- digit. They are digits, as many as before.
pub mult_add_digit-value :
    (a b : List ℕ) (d : ℕ)
    → IsDigits a
    → IsDigits b
    → d < base
    → length b ≤ length a
    → (value (mult_add_digit a b d).0 + (mult_add_digit a b d).1 * scale a ≡ value a + value b * d)
      × IsDigits (mult_add_digit a b d).0
      × (length (mult_add_digit a b d).0 ≡ length a)
      × ((mult_add_digit a b d).1 < base)
unfolding mult_add_digit
mult_add_digit-value a b d ha hb hd fits =
    let r = mult_add_loop-value a b d 0 ha hb hd (omega arith) fits in
    (omega (arith, r), r.1, r.2, r.3)
