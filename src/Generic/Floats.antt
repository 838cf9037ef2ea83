-- ===== src/Generic/Floats.antt =====
-- The bits of floats in double precision, and what byterun/hash.c makes of them.
use Prim.Native.Nat.{bit_and, bit_or}
use ocaml.Common.{
  ℕ, ◌+◌, ◌/◌, ◌%◌, ◌^◌, ◌≡◌, ◌≢◌, ◌⊎◌, inl, inr, refl, sym, ap, ◌∙◌, Bool, true, false, not, ◌&&◌,
  ◌==◌, if◌then◌else◌, arith,
}
use ocaml.Common.Bits.{bit_or-le}
use ocaml.Generic.Hash.{normalize}

-- The two zeros.
abbrev pub IsZero : ℕ → Type 0
IsZero d = (d ≡ 0) ⊎ (d ≡ 2 ^ 63)

-- The bits of NaN: those of the exponent are set, and some bit of the mantissa.
abbrev pub IsNan : ℕ → Type 0
IsNan d =
    (bit_and (d / 2 ^ 32) 0x7ff00000 ≡ 0x7ff00000)
    × ((d % 2 ^ 32 ≢ 0) ⊎ (bit_and (d / 2 ^ 32) 0xfffff ≢ 0))

pub normalize-IsZero : (d : ℕ) → IsZero d → normalize d ≡ (0, 0)
unfolding normalize
normalize-IsZero d (inl e) = ap normalize e
normalize-IsZero d (inr e) = ap normalize e

abbrev halves : ℕ → ℕ → ℕ × ℕ
halves h l = (h, l)

some_bit : (a b : ℕ) → (a ≢ 0) ⊎ (b ≢ 0) → (bit_or a b == 0) ≡ false
some_bit a b h = ground (arith, bit_or-le (a + b) a b (omega arith) (omega arith), h)

pub normalize-IsNan : (d : ℕ) → IsNan d → normalize d ≡ (0x7ff00000, 1)
unfolding normalize
normalize-IsNan d (exponent, mantissa) =
    go (bit_and (d / 2 ^ 32) 0x7ff00000 == 0x7ff00000) (ground (arith, exponent))
      (bit_or (d % 2 ^ 32) (bit_and (d / 2 ^ 32) 0xfffff) == 0)
      (some_bit (d % 2 ^ 32) (bit_and (d / 2 ^ 32) 0xfffff) mantissa)
  where
    go :
        (b : Bool)
        → b ≡ true
        → (c : Bool) → c ≡ false
        → (if b && not c
            then halves 0x7ff00000 1
            else if (d / 2 ^ 32 == 0x80000000) && (d % 2 ^ 32 == 0)
            then halves 0 (d % 2 ^ 32)
            else halves (d / 2 ^ 32) (d % 2 ^ 32))
          ≡ halves 0x7ff00000 1
    go true e false e' = refl
    go true e true e' = absurd (cc)
    go false e c e' = absurd (cc)

-- Floats that are the same or zeros, and floats that are NaN, have the same bits after normalization.
pub normalize-same : (d e : ℕ) → (d ≡ e) ⊎ (IsZero d × IsZero e) → normalize d ≡ normalize e
normalize-same d e (inl same) = ap normalize same
normalize-same d e (inr (zero_d, zero_e)) =
    normalize-IsZero d zero_d ∙ sym (normalize-IsZero e zero_e)

pub normalize-nans : (d e : ℕ) → IsNan d → IsNan e → normalize d ≡ normalize e
normalize-nans d e nan_d nan_e = normalize-IsNan d nan_d ∙ sym (normalize-IsNan e nan_e)
