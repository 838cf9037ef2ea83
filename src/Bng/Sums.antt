-- ===== src/Bng/Sums.antt =====
-- Sums and differences of otherlibs/num/bng.c against the numbers that the digits stand for.
use ocaml.Common.{ℕ, ◌+◌, ◌*◌, ◌≤◌, ◌<◌, ◌≡◌, refl, List, [], ◌∷◌, arith, length}
use ocaml.Bng.Digit.{base, add2_carry, sub2_carry}
use ocaml.Bng.Defs.{increment, decrement, add_carry, sub_carry, add, sub, complement}
use ocaml.Bng.Value.{value, scale, IsDigits}

increment-value :
    (a : List ℕ)
    → IsDigits a
    → (value (increment a).0 + (increment a).1 * scale a ≡ value a + 1)
      × IsDigits (increment a).0
      × (length (increment a).0 ≡ length a)
      × ((increment a).1 ≤ 1)
unfolding increment
increment-value [] h = (omega arith, tt, refl, omega arith)
increment-value (d ∷ a) h = ground (arith, increment-value a h.1)

decrement-value :
    (a : List ℕ)
    → IsDigits a
    → (value (decrement a).0 + 1 ≡ value a + (decrement a).1 * scale a)
      × IsDigits (decrement a).0
      × (length (decrement a).0 ≡ length a)
      × ((decrement a).1 ≤ 1)
unfolding decrement
decrement-value [] h = (omega arith, tt, refl, omega arith)
decrement-value (d ∷ a) h = ground (arith, decrement-value a h.1)

add2_carry-value :
    (x y c : ℕ)
    → x < base
    → y < base
    → c ≤ 1
    → ((add2_carry x y c).0 + base * (add2_carry x y c).1 ≡ x + y + c)
      × ((add2_carry x y c).0 < base)
      × ((add2_carry x y c).1 ≤ 1)
unfolding add2_carry
add2_carry-value x y c hx hy hc = ground arith

sub2_carry-value :
    (x y c : ℕ)
    → x < base
    → y < base
    → c ≤ 1
    → ((sub2_carry x y c).0 + y + c ≡ x + base * (sub2_carry x y c).1)
      × ((sub2_carry x y c).0 < base)
      × ((sub2_carry x y c).1 ≤ 1)
unfolding sub2_carry
sub2_carry-value x y c hx hy hc = ground arith

pub add_carry-value :
    (a : List ℕ) (c : ℕ)
    → IsDigits a
    → c ≤ 1
    → (value (add_carry a c).0 + (add_carry a c).1 * scale a ≡ value a + c)
      × IsDigits (add_carry a c).0
      × (length (add_carry a c).0 ≡ length a)
      × ((add_carry a c).1 ≤ 1)
unfolding add_carry
add_carry-value [] c h hc = ground (arith, increment-value [] tt)
add_carry-value (d ∷ a) c h hc = ground (arith, increment-value (d ∷ a) h)

pub sub_carry-value :
    (a : List ℕ) (c : ℕ)
    → IsDigits a
    → c ≤ 1
    → (value (sub_carry a c).0 + c ≡ value a + (sub_carry a c).1 * scale a)
      × IsDigits (sub_carry a c).0
      × (length (sub_carry a c).0 ≡ length a)
      × ((sub_carry a c).1 ≤ 1)
unfolding sub_carry
sub_carry-value [] c h hc = ground (arith, decrement-value [] tt)
sub_carry-value (d ∷ a) c h hc = ground (arith, decrement-value (d ∷ a) h)

-- bng_add on numbers of which the second is no longer than the first: the digits left in the first,
-- with the carry out above them, are the sum with the carry in. They are digits, as many as before,
-- and the carry is 0 or 1.
pub add-value :
    (a b : List ℕ) (carry : ℕ)
    → IsDigits a
    → IsDigits b
    → length b ≤ length a
    → carry ≤ 1
    → (value (add a b carry).0 + (add a b carry).1 * scale a ≡ value a + value b + carry)
      × IsDigits (add a b carry).0
      × (length (add a b carry).0 ≡ length a)
      × ((add a b carry).1 ≤ 1)
unfolding add
add-value a [] c ha hb fits hc =
    let r = add_carry-value a c ha hc in (omega (arith, r), r.1, r.2, r.3)
add-value [] (y ∷ b) c ha hb fits hc = absurd (omega arith)
add-value (x ∷ a) (y ∷ b) c ha hb fits hc =
    let low = add2_carry-value x y c ha.0 hb.0 hc in
    let high = add-value a b (add2_carry x y c).1 ha.1 hb.1 (omega arith) low.2 in
    (omega (arith, low, high), (low.1, high.1), omega (arith, high.2), high.3)

-- bng_sub on numbers of which the second is no longer than the first: the digits left in the first,
-- with the second number and the carry in added, are the first number with the borrow above it. They
-- are digits, as many as before, and the borrow is 0 or 1.
pub sub-value :
    (a b : List ℕ) (carry : ℕ)
    → IsDigits a
    → IsDigits b
    → length b ≤ length a
    → carry ≤ 1
    → (value (sub a b carry).0 + value b + carry ≡ value a + (sub a b carry).1 * scale a)
      × IsDigits (sub a b carry).0
      × (length (sub a b carry).0 ≡ length a)
      × ((sub a b carry).1 ≤ 1)
unfolding sub
sub-value a [] c ha hb fits hc =
    let r = sub_carry-value a c ha hc in (omega (arith, r), r.1, r.2, r.3)
sub-value [] (y ∷ b) c ha hb fits hc = absurd (omega arith)
sub-value (x ∷ a) (y ∷ b) c ha hb fits hc =
    let low = sub2_carry-value x y c ha.0 hb.0 hc in
    let high = sub-value a b (sub2_carry x y c).1 ha.1 hb.1 (omega arith) low.2 in
    (omega (arith, low, high), (low.1, high.1), omega (arith, high.2), high.3)

-- bng_complement: the number and its complement add up to the greatest number of their length, so
-- that adding 1 to the complement negates modulo the base to that length.
complement-value :
    (a : List ℕ)
    → IsDigits a
    → (value (complement a) + value a + 1 ≡ scale a)
      × IsDigits (complement a)
      × (length (complement a) ≡ length a)
unfolding complement
complement-value [] h = (omega arith, tt, refl)
complement-value (d ∷ a) h =
    let rest = complement-value a h.1 in
    (omega (arith, rest), (omega arith, rest.1), omega (arith, rest.2))
