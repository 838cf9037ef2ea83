-- ===== src/Bng/Borrow.antt =====
-- The product subtracted from a number, bng_generic_mult_sub_digit of otherlibs/num/bng.c.
use ocaml.Common.{ℕ, ◌+◌, ◌-◌, ◌*◌, ◌≤◌, ◌<◌, ◌≡◌, refl, List, [], ◌∷◌, arith, length}
use ocaml.Bng.Digit.{base, sub2, sub3, mult}
use ocaml.Bng.Defs.{mult_sub_tail, mult_sub_loop, mult_sub_digit}
use ocaml.Bng.Value.{value, scale, IsDigits}
use ocaml.Bng.Sums.{sub_carry-value}
use ocaml.Bng.Products.{mult-value, digit_product_bound}

sub2-value :
    (x y : ℕ)
    → x < base
    → y < base
    → ((sub2 x y).0 + y ≡ x + base * (sub2 x y).1) × ((sub2 x y).0 < base) × ((sub2 x y).1 ≤ 1)
unfolding sub2
sub2-value x y hx hy = ground arith

sub3-value :
    (acc x y z : ℕ)
    → x < base
    → y < base
    → z < base
    → y + z + base * acc ≤ base * (base - 1)
    → ((sub3 acc x y z).0 + (y + z + base * acc) ≡ x + base * (sub3 acc x y z).1)
      × ((sub3 acc x y z).0 < base)
      × ((sub3 acc x y z).1 < base)
unfolding sub3
sub3-value acc x y z hx hy hz room = ground arith

mult_sub_tail-value :
    (a : List ℕ) (out : ℕ)
    → IsDigits a
    → out < base
    → (value (mult_sub_tail a out).0 + out ≡ value a + (mult_sub_tail a out).1 * scale a)
      × IsDigits (mult_sub_tail a out).0
      × (length (mult_sub_tail a out).0 ≡ length a)
      × ((mult_sub_tail a out).1 < base)
unfolding mult_sub_tail
mult_sub_tail-value [] out h small = (omega arith, tt, refl, small)
mult_sub_tail-value (x ∷ a) out h small =
    let low = sub2-value x out h.0 small in
    let high = sub_carry-value a (sub2 x out).1 h.1 low.2 in
    (omega (arith, low, high), (low.1, high.1), omega (arith, high.2), omega (arith, high.3))

mult_sub_step :
    (x y d out : ℕ)
    → x < base
    → y < base
    → d < base
    → out < base
    → ((sub3 (mult y d).0 x (mult y d).1 out).0 + out + y * d
        ≡ x + base * (sub3 (mult y d).0 x (mult y d).1 out).1)
      × ((sub3 (mult y d).0 x (mult y d).1 out).0 < base)
      × ((sub3 (mult y d).0 x (mult y d).1 out).1 < base)
mult_sub_step x y d out hx hy hd ho =
    let p = mult-value y d hy hd in
    let bound = digit_product_bound y d hy hd in
    let r = sub3-value (mult y d).0 x (mult y d).1 out hx p.2 ho (omega (arith, p, bound)) in
    (omega (arith, r, p), r.1, r.2)

mult_sub_loop-value :
    (a b : List ℕ) (d out : ℕ)
    → IsDigits a
    → IsDigits b
    → d < base
    → out < base
    → length b ≤ length a
    → (value (mult_sub_loop a b d out).0 + out + value b * d
        ≡ value a + (mult_sub_loop a b d out).1 * scale a)
      × IsDigits (mult_sub_loop a b d out).0
      × (length (mult_sub_loop a b d out).0 ≡ length a)
      × ((mult_sub_loop a b d out).1 < base)
unfolding mult_sub_loop
mult_sub_loop-value a [] d out ha hb hd ho fits =
    let r = mult_sub_tail-value a out ha ho in (omega (arith, r), r.1, r.2, r.3)
mult_sub_loop-value [] (y ∷ b) d out ha hb hd ho fits = absurd (omega arith)
mult_sub_loop-value (x ∷ a) (y ∷ b) d out ha hb hd ho fits =
    let low = mult_sub_step x y d out ha.0 hb.0 hd ho in
    let high =
      mult_sub_loop-value a b d (sub3 (mult y d).0 x (mult y d).1 out).1 ha.1 hb.1 hd low.2
        (omega arith) in
    (omega (arith, low, high), (low.1, high.1), omega (arith, high.2), high.3)

-- bng_mult_sub_digit with a first number no shorter than the second: the digits left in the first,
-- with the product of the second and the digit added, are the first number with the digit carried out
-- above it. They are digits, as many as before.
pub mult_sub_digit-value :
    (a b : List ℕ) (d : ℕ)
    → IsDigits a
    → IsDigits b
    → d < base
    → length b ≤ length a
    → (value (mult_sub_digit a b d).0 + value b * d ≡ value a + (mult_sub_digit a b d).1 * scale a)
      × IsDigits (mult_sub_digit a b d).0
      × (length (mult_sub_digit a b d).0 ≡ length a)
      × ((mult_sub_digit a b d).1 < base)
unfolding mult_sub_digit
mult_sub_digit-value a b d ha hb hd fits =
    let r = mult_sub_loop-value a b d 0 ha hb hd (omega arith) fits in
    (omega (arith, r), r.1, r.2, r.3)
