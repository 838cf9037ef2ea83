-- ===== src/Bng/Value.antt =====
-- The natural number that digits stand for, and its bounds.
use ocaml.Common.{ℕ, ◌+◌, ◌*◌, ◌<◌, List, [], ◌∷◌, arith}
use ocaml.Bng.Digit.{base}

-- The number of the digits.
abbrev pub value : List ℕ → ℕ
value [] = 0
value (d ∷ a) = d + base * value a

-- base to the number of the digits.
abbrev pub scale : List ℕ → ℕ
scale [] = 1
scale (d ∷ a) = base * scale a

-- All digits are in range.
abbrev pub IsDigits : List ℕ → Type 0
IsDigits [] = Unit {0}
IsDigits (d ∷ a) = (d < base) × IsDigits a

pub scale_pos : (a : List ℕ) → 0 < scale a
scale_pos [] = omega arith
scale_pos (d ∷ a) = omega (arith, scale_pos a)

pub value-lt-scale : (a : List ℕ) → IsDigits a → value a < scale a
value-lt-scale [] h = omega arith
value-lt-scale (d ∷ a) h = omega (arith, value-lt-scale a h.1)
