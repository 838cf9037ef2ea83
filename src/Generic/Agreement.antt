-- ===== src/Generic/Agreement.antt =====
-- Equal values have equal hashes: byterun/compare.c against hash.c.
use ocaml.Common.{ℕ, ◌<◌, ◌≡◌, ◌≢◌, ◌⊎◌, refl, ap, ◌∙◌, true, false, List, [], ◌∷◌, arith, length}
use ocaml.Common.Int.{ℤ, pos, negsuc, same_int}
use ocaml.Generic.Heap.{
  Value, long, ptr, outside, fields, Heap, Platform, same_value, an_integer, a_custom,
}
use ocaml.Generic.Compare.{next_item, compare_strings, memcmp}
use ocaml.Generic.Floats.{IsZero, IsNan}
use ocaml.Generic.Hash.{mix_double, mix_halves, normalize, white_header, mix_uint32, custom_hash}

-- What the hash function relies on: floats that compare equal have the same bits or are zeros, as in
-- IEEE 754, and those that do not equal themselves are NaN; custom blocks that compare equal have the
-- same hash; and no custom block compares equal to an integer.
pub record IsCompatible (p : Platform) : Type 0 where
  pub floats : (d e : ℕ) → p.float_eq d e ≡ true → (d ≡ e) ⊎ (IsZero d × IsZero e)
  pub nans : (d : ℕ) → p.float_eq d d ≡ false → IsNan d
  pub customs :
      (f o x q y : ℕ)
      → (p.call_compare f (a_custom o x) (a_custom q y)).0 ≡ pos 0
      → custom_hash p o x ≡ custom_hash p q y
  pub integer_custom :
      (f o x : ℕ) (m : ℤ) → (p.call_compare f (an_integer m) (a_custom o x)).0 ≢ pos 0
  pub custom_integer :
      (f o x : ℕ) (m : ℤ) → (p.call_compare f (a_custom o x) (an_integer m)).0 ≢ pos 0

-- The blocks that hold fields have the tags of such blocks.
abbrev pub IsTagged : Heap → Type 0
IsTagged h = (a tag : ℕ) (vs : List Value) → h a ≡ fields tag vs → tag < 247

pub same_int_eq : (m n : ℤ) → same_int m n ≡ true → m ≡ n
same_int_eq (pos m) (pos n) e = ground arith
same_int_eq (negsuc m) (negsuc n) e = ground arith
same_int_eq (pos m) (negsuc n) e = cc
same_int_eq (negsuc m) (pos n) e = cc

pub same_value_eq : (v w : Value) → same_value v w ≡ true → v ≡ w
unfolding same_value
same_value_eq (long m) (long n) e = ap long (same_int_eq m n e)
same_value_eq (ptr a) (ptr b) e = ground arith
same_value_eq (outside a) (outside b) e = ground arith
same_value_eq (long m) (ptr b) e = cc
same_value_eq (long m) (outside b) e = cc
same_value_eq (ptr a) (long n) e = cc
same_value_eq (ptr a) (outside b) e = cc
same_value_eq (outside a) (long n) e = cc
same_value_eq (outside a) (ptr b) e = cc

pub same_value_refl : (v : Value) → same_value v v ≡ true
unfolding same_value
same_value_refl (long (pos m)) = ground arith
same_value_refl (long (negsuc m)) = ground arith
same_value_refl (ptr a) = ground arith
same_value_refl (outside a) = ground arith

memcmp-eq : (s t : List ℕ) → memcmp s t ≡ pos 0 → length s ≡ length t → s ≡ t
unfolding memcmp
memcmp-eq [] [] e l = refl
memcmp-eq [] (b ∷ t) e l = absurd (omega arith)
memcmp-eq (a ∷ s) [] e l = absurd (omega arith)
memcmp-eq (a ∷ s) (b ∷ t) e l = ground (arith, memcmp-eq s t)

pub compare_strings-eq : (s t : List ℕ) → compare_strings s t ≡ next_item → s ≡ t
unfolding compare_strings
compare_strings-eq s t e = ground (arith, memcmp-eq s t)

-- Two arrays of doubles with the same bits after normalization.
abbrev pub SameDoubles : List ℕ → List ℕ → Type 0
SameDoubles [] [] = Unit {0}
SameDoubles [] (e ∷ es) = ⊥
SameDoubles (d ∷ ds) [] = ⊥
SameDoubles (d ∷ ds) (e ∷ es) = (normalize d ≡ normalize e) × SameDoubles ds es

pub SameDoubles-refl : (ds : List ℕ) → SameDoubles ds ds
SameDoubles-refl [] = tt
SameDoubles-refl (d ∷ ds) = (refl, SameDoubles-refl ds)

pub cong2 :
    {A B C : Type 0} (f : A → B → C) {a a' : A} {b b' : B} → a ≡ a' → b ≡ b' → f a b ≡ f a' b'
cong2 f {a' = a'} {b = b} e e' = ap (λ x. f x b) e ∙ ap (f a') e'

pub mix-eq : (h h' d d' : ℕ) → h ≡ h' → d ≡ d' → mix_uint32 h d ≡ mix_uint32 h' d'
mix-eq h h' d d' e e' = cong2 mix_uint32 e e'

pub header-eq : (m n t u : ℕ) → m ≡ n → t ≡ u → white_header m t ≡ white_header n u
header-eq m n t u e e' = cong2 white_header e e'

pub mix_double-eq :
    (x y h h' : ℕ) → normalize x ≡ normalize y → h ≡ h' → mix_double h x ≡ mix_double h' y
unfolding mix_double
mix_double-eq x y h h' e e' = cong2 mix_halves e' e
