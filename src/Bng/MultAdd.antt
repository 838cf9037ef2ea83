-- ===== src/Bng/MultAdd.antt =====
-- The product of two numbers added to a third, bng_generic_mult_add of otherlibs/num/bng.c.
use ocaml.Common.{
  ℕ, zero, suc, ◌+◌, ◌*◌, ◌%◌, ◌^◌, ◌≤◌, ◌<◌, ◌≡◌, refl, List, [], ◌∷◌, arith, length,
  length-append, ap, sym, ◌++◌,
}
use native.Mathlib.Nat.{mul-le-mul}
use ocaml.Bng.Digit.{base}
use ocaml.Bng.Defs.{mult_add_digit, next_place, mult_add_from, mult_add}
use ocaml.Bng.Value.{value, scale, IsDigits, scale_pos, value-lt-scale}
use ocaml.Bng.Products.{mult_add_digit-value}

scale_mono : (a b : List ℕ) → length b ≤ length a → scale b ≤ scale a
scale_mono a [] h = scale_pos a
scale_mono [] (y ∷ b) h = absurd (omega arith)
scale_mono (x ∷ a) (y ∷ b) h = omega (arith, scale_mono a b (omega arith))

-- Below twice the weight a carry is 0 or 1.
carry_bound : (carry n : ℕ) → carry * n < 2 * n → carry ≤ 1
carry_bound zero n h = omega arith
carry_bound (suc zero) n h = omega arith
carry_bound (suc (suc c)) n h = absurd (omega arith)

scale_eq : (a b : List ℕ) → length a ≡ length b → scale a ≡ scale b
scale_eq a b h = omega (arith, scale_mono a b (omega arith), scale_mono b a (omega arith))

-- What the loop promises from a place on.
abbrev Promise : List ℕ → ℕ → List ℕ × ℕ → Type 0
Promise a total r = (value r.0 + r.1 * scale a ≡ total) × IsDigits r.0 × (length r.0 ≡ length a)

next_place-Promise :
    (a : List ℕ) (loop : List ℕ → List ℕ × ℕ) (carry product total : ℕ)
    → IsDigits a
    → 0 < length a
    → ((rest : List ℕ)
        → IsDigits rest
        → suc (length rest) ≡ length a
        → base * value rest ≤ value a
        → Promise rest (carry * scale rest + value rest + product) (loop rest))
    → total ≡ carry * scale a + value a + base * product
    → Promise a total (next_place a loop carry)
unfolding next_place
next_place-Promise [] loop carry product total h nonempty later e = absurd (omega arith)
next_place-Promise (x ∷ rest) loop carry product total h nonempty later e =
    let r = later rest h.1 refl (omega arith) in (omega (arith, r), (h.0, r.1), omega (arith, r.2))

-- What is left of the room one place further on.
room_below :
    (total carry s v p va sa : ℕ)
    → base * s ≡ sa
    → base * v ≤ va
    → total ≡ carry * sa + va + base * p
    → total < 2 * sa
    → carry * s + v + p < 2 * s
room_below total carry s v p va sa scaled below e room =
    let weighted : carry * sa ≡ carry * (base * s) = ap (λ n. carry * n) (sym scaled) in omega arith

scale-append : (b c : List ℕ) → scale (b ++ c) ≡ scale b * scale c
scale-append [] c = omega arith
scale-append (y ∷ b) c = omega (arith, ap (λ n. base * n) (scale-append b c))

-- The sum of a number and a product of at most its length is less than twice its weight.
product_room :
    (a b c : List ℕ)
    → IsDigits a
    → IsDigits b
    → IsDigits c
    → length b + length c ≤ length a
    → value a + value b * value c < 2 * scale a
product_room a b c ha hb hc fits =
    let hb' = value-lt-scale b hb in
    let hc' = value-lt-scale c hc in
    let product =
      mul-le-mul {n₁ = value b} {m₁ = value c} {n₂ = scale b} {m₂ = scale c} (omega arith)
        (omega arith) in
    let weight = scale_mono a (b ++ c) (omega (arith, length-append b c)) in
    omega (arith, value-lt-scale a ha, product, weight, scale-append b c)

mult_add_from-Promise :
    (a b c : List ℕ) (carry : ℕ)
    → IsDigits a
    → IsDigits b
    → IsDigits c
    → length b + length c ≤ length a
    → carry * scale a + value a + value b * value c < 2 * scale a
    → Promise a (carry * scale a + value a + value b * value c) (mult_add_from a b c carry)
unfolding mult_add_from
mult_add_from-Promise a b [] carry ha hb hc fits room = (omega arith, ha, refl)
mult_add_from-Promise a b (d ∷ c) carry ha hb hc fits room =
    let m = mult_add_digit-value a b d ha hb hc.0 (omega arith) in
    let a' = (mult_add_digit a b d).0 in
    let out = (mult_add_digit a b d).1 in
    let same_scale = scale_eq a' a m.2 in
    let total_carry = carry_bound (carry + out) (scale a) (omega (arith, m)) in
    let carry' = (carry + out) % 2 ^ 32 in
    let no_wrap : carry' ≡ carry + out = omega arith in
    let r =
      next_place-Promise a' (λ rest. mult_add_from rest b c carry') carry' (value b * value c)
        (carry * scale a + value a + value b * value (d ∷ c)) m.1 (omega (arith, m.2))
        (λ rest digits shorter below.
          mult_add_from-Promise rest b c carry' digits hb hc.1 (omega (arith, m.2)) (
            room_below (carry * scale a + value a + value b * value (d ∷ c)) carry' (scale rest)
              (value rest) (value b * value c) (value a') (scale a')
              (scale_eq (0 ∷ rest) a' shorter) below (rw (no_wrap, same_scale) (omega (arith, m)))
              (rw same_scale room)))
        (rw (no_wrap, same_scale) (omega (arith, m))) in
    (
      omega (arith, r, ap (λ n. (mult_add_from a b (d ∷ c) carry).1 * n) same_scale),
      r.1,
      omega (arith, r, m.2),
    )

-- bng_mult_add with a first number at least as long as the other two together: the digits left in
-- the first, with the carry out above them, are the first number plus the product of the other two.
-- They are digits, as many as before, and the carry is 0 or 1.
pub mult_add-value :
    (a b c : List ℕ)
    → IsDigits a
    → IsDigits b
    → IsDigits c
    → length b + length c ≤ length a
    → (value (mult_add a b c).0 + (mult_add a b c).1 * scale a ≡ value a + value b * value c)
      × IsDigits (mult_add a b c).0
      × (length (mult_add a b c).0 ≡ length a)
      × ((mult_add a b c).1 ≤ 1)
unfolding mult_add
mult_add-value a b c ha hb hc fits =
    let small = product_room a b c ha hb hc fits in
    let r = mult_add_from-Promise a b c 0 ha hb hc fits (omega (arith, small)) in
    (
      omega (arith, r),
      r.1,
      r.2,
      carry_bound (mult_add_from a b c 0).1 (scale a) (omega (arith, r, small)),
    )
