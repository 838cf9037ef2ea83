-- ===== src/Interp/Division.antt =====
-- Division of signed integers that rounds towards zero, as DIVINT and MODINT of byterun/interp.c do it.
use native.Mathlib.Nat.{mod-lt, div-add-mod, mul_comm}
use ocaml.Common.{
  ℕ, zero, suc, ◌+◌, ◌*◌, ◌/◌, ◌%◌, ◌<◌, ◌≡◌, ◌≢◌, refl, sym, ap, ◌∙◌, true, false, arith,
}
use ocaml.Common.Int.{ℤ, pos, negsuc, pos_part, neg_part, sub_ℕ, ◌+ℤ◌, ◌*ℤ◌, ltb_ℤ}
use ocaml.Interp.Word.{quotient, remainder}

-- m is q times n and r, where r is nearer to zero than n and has no sign but that of m.
pub record IsDivision (m n q r : ℤ) : Type 0 where
  pub whole : (q *ℤ n) +ℤ r ≡ m
  pub small : pos_part r + neg_part r < pos_part n + neg_part n
  pub not_below : neg_part m ≡ 0 → neg_part r ≡ 0
  pub not_above : pos_part m ≡ 0 → pos_part r ≡ 0

minus_pos_part : (q : ℕ) → pos_part (sub_ℕ 0 q) ≡ 0
minus_pos_part q = ground arith

minus_neg_part : (q : ℕ) → neg_part (sub_ℕ 0 q) ≡ q
minus_neg_part q = ground arith

-- The product of a factor without a positive or a negative part.
minus_times : (q : ℕ) (w : ℤ) → sub_ℕ 0 q *ℤ w ≡ sub_ℕ (q * neg_part w) (q * pos_part w)
unfolding ◌*ℤ◌
minus_times q w = ground (arith, minus_pos_part q, minus_neg_part q)

magnitude : (a d : ℕ) → 0 < d → (a / d * d + a % d ≡ a) × (a % d < d)
magnitude a d h = (omega (arith, div-add-mod a d, mul_comm d (a / d)), mod-lt a h)

-- The quotient q and the remainder k of the magnitudes, with the signs of the four cases.
both_pos : (a d q k : ℕ) → q * d + k ≡ a → k < d → IsDivision (pos a) (pos d) (pos q) (pos k)
unfolding ◌+ℤ◌ ◌*ℤ◌
both_pos a d q k e h = record {
  whole = ground (arith, e);
  small = omega (arith, h);
  not_below = λ z. refl;
  not_above = λ z. omega (arith, e, z);
}

divisor_neg :
    (a d q k : ℕ)
    → q * suc d + k ≡ a
    → k < suc d
    → IsDivision (pos a) (negsuc d) (sub_ℕ 0 q) (pos k)
unfolding ◌+ℤ◌
divisor_neg a d q k e h = record {
  whole = rw (minus_times q (negsuc d)) (ground (arith, e));
  small = omega (arith, h);
  not_below = λ z. refl;
  not_above = λ z. omega (arith, e, z);
}

dividend_neg :
    (a d q k : ℕ)
    → q * d + k ≡ suc a
    → k < d
    → IsDivision (negsuc a) (pos d) (sub_ℕ 0 q) (sub_ℕ 0 k)
unfolding ◌+ℤ◌
dividend_neg a d q k e h = record {
  whole = rw (minus_times q (pos d)) (ground (arith, e));
  small = ground (arith, h);
  not_below = λ z. absurd (omega (arith, z));
  not_above = λ z. minus_pos_part k;
}

both_neg :
    (a d q k : ℕ)
    → q * suc d + k ≡ suc a
    → k < suc d
    → IsDivision (negsuc a) (negsuc d) (pos q) (sub_ℕ 0 k)
unfolding ◌+ℤ◌ ◌*ℤ◌
both_neg a d q k e h = record {
  whole = ground (arith, e);
  small = ground (arith, h);
  not_below = λ z. absurd (omega (arith, z));
  not_above = λ z. minus_pos_part k;
}

-- The same, where the two magnitudes are written otherwise.
parts : (m n a d : ℕ) → m ≡ a → n ≡ d → 0 < d → (m / n * d + m % n ≡ a) × (m % n < d)
parts m n a d em en h =
    let e = magnitude m n (omega (arith, en, h)) in
    (ap (λ x. m / n * x + m % n) (sym en) ∙ e.0 ∙ em, omega (arith, e.1, en))

nonzero_pos : (d : ℕ) → pos d ≢ pos 0 → 0 < d
nonzero_pos zero h = absurd (h refl)
nonzero_pos (suc d) h = omega arith

not_neg : (a : ℕ) → ltb_ℤ (pos a) (pos 0) ≡ false
not_neg a = ground arith

is_neg : (a : ℕ) → ltb_ℤ (negsuc a) (pos 0) ≡ true
is_neg a = ground arith

pub quotient-IsDivision : (m n : ℤ) → n ≢ pos 0 → IsDivision m n (quotient m n) (remainder m n)
unfolding quotient remainder
quotient-IsDivision (pos a) (pos d) nonzero =
    let e = parts (a + 0) (d + 0) a d (omega arith) (omega arith) (nonzero_pos d nonzero) in
    rw (not_neg a, not_neg d) (both_pos a d ((a + 0) / (d + 0)) ((a + 0) % (d + 0)) e.0 e.1)
quotient-IsDivision (pos a) (negsuc d) nonzero =
    let e = parts (a + 0) (0 + suc d) a (suc d) (omega arith) (omega arith) (omega arith) in
    rw (not_neg a, is_neg d)
      (divisor_neg a d ((a + 0) / (0 + suc d)) ((a + 0) % (0 + suc d)) e.0 e.1)
quotient-IsDivision (negsuc a) (pos d) nonzero =
    let e =
      parts (0 + suc a) (d + 0) (suc a) d (omega arith) (omega arith) (nonzero_pos d nonzero) in
    rw (is_neg a, not_neg d)
      (dividend_neg a d ((0 + suc a) / (d + 0)) ((0 + suc a) % (d + 0)) e.0 e.1)
quotient-IsDivision (negsuc a) (negsuc d) nonzero =
    let e =
      parts (0 + suc a) (0 + suc d) (suc a) (suc d) (omega arith) (omega arith) (omega arith) in
    rw (is_neg a, is_neg d)
      (both_neg a d ((0 + suc a) / (0 + suc d)) ((0 + suc a) % (0 + suc d)) e.0 e.1)
