-- ===== src/Generic/Leaves.antt =====
-- The comparisons of byterun/compare.c that end with the two values at hand.
use ocaml.Common.{ℕ, Bool, List, [], ◌∷◌, arith}
use ocaml.Common.Int.{ℤ}
use ocaml.Generic.Heap.{Platform, a_custom}
use ocaml.Generic.Compare.{
  Turn, next_item, stop, again, descend, custom_result, compare_customs, compare_doubles,
  compare_double_fields, compare_strings,
}

-- A turn that ends with these two values.
abbrev pub IsLeaf : Turn → Type 0
IsLeaf next_item = Unit {0}
IsLeaf (stop a) = Unit {0}
IsLeaf (again v' w') = ⊥
IsLeaf (descend fs gs) = ⊥

pub compare_strings-IsLeaf : (s t : List ℕ) → IsLeaf (compare_strings s t)
unfolding compare_strings
compare_strings-IsLeaf s t = ground arith

module _ (p : Platform) (total : Bool) where
  pub custom_result-IsLeaf : (r : ℤ × Bool) → IsLeaf (custom_result p total r)
  unfolding custom_result
  custom_result-IsLeaf (res, u) = ground arith

  pub compare_doubles-IsLeaf : (d e : ℕ) → IsLeaf (compare_doubles p total d e)
  unfolding compare_doubles
  compare_doubles-IsLeaf d e = ground arith

  pub compare_double_fields-IsLeaf : (ds es : List ℕ) → IsLeaf (compare_double_fields p total ds es)
  unfolding compare_double_fields
  compare_double_fields-IsLeaf [] es = tt
  compare_double_fields-IsLeaf (d ∷ ds) [] = tt
  compare_double_fields-IsLeaf (d ∷ ds) (e ∷ es) =
      go (compare_doubles p total d e) (compare_double_fields p total ds es)
        (compare_doubles-IsLeaf d e) (compare_double_fields-IsLeaf ds es)
    where
      go : (x y : Turn) → IsLeaf x → IsLeaf y → IsLeaf (elim x [ next_item ↦ y | other ↦ other ])
      go next_item y lx ly = ly
      go (stop a) y lx ly = tt
      go (again v' w') y lx ly = elim lx [ ]
      go (descend fs gs) y lx ly = elim lx [ ]

  pub compare_customs-IsLeaf : (o x q y : ℕ) → IsLeaf (compare_customs p total o x q y)
  unfolding compare_customs
  compare_customs-IsLeaf o x q y =
      ground
        (arith, λ (f : ℕ). custom_result-IsLeaf (p.call_compare f (a_custom o x) (a_custom q y)))
