-- ===== src/Yacc/Nullable.antt =====
-- Which symbols of a grammar derive the empty string: set_nullable of yacc/lr0.c.
use ocaml.Common.{
  ℕ, zero, suc, Bool, true, false, ◌&&◌, Option, some, none, List, [], ◌∷◌, ◌==◌, if◌then◌else◌,
}
use ocaml.Common.Int.{ℤ, pos, negsuc}

-- The array nullable, and done.
pub record Marks : Type 0 where
  pub nullable : ℕ → Bool
  pub done : Bool

unfoldable pub mark : ℕ → Marks → Marks
mark j s =
    if s.nullable j
    then s
    else record { nullable = λ k. if k == j then true else s.nullable k; done = false }

-- `rlhs` gives the symbol on the left of a rule.
module _ (rlhs : ℕ → ℕ) where
  -- The loop on i with the loop inside it, on the items from i on; `inside` tells whether the inner loop
  -- is within the items of a rule, where the end of the items is a read out of bounds. An item is a symbol,
  -- or minus the number of the rule that ends there.
  unfoldable pub scan_items : List ℤ → Bool → Bool → Marks → Option Marks
  unfolding mark
  scan_items [] inside empty s = if inside then none else some s
  scan_items (pos j ∷ items) inside empty s = scan_items items true (empty && s.nullable j) s
  scan_items (negsuc r ∷ items) inside empty s =
      scan_items items false true (if empty then mark (rlhs (suc r)) s else s)

  -- The loop until done, with fuel.
  unfoldable pub nullable_loop : ℕ → List ℤ → (ℕ → Bool) → Option (ℕ → Bool)
  unfolding scan_items
  nullable_loop zero items nullable = none
  nullable_loop (suc fuel) items nullable =
      elim (scan_items items false true (record { nullable = nullable; done = true })) [
        | none ↦ none
        | some s ↦ if s.done then some s.nullable else nullable_loop fuel items s.nullable
      ]

  -- set_nullable, where `items` is ritem from 1 on.
  unfoldable pub set_nullable : ℕ → List ℤ → Option (ℕ → Bool)
  unfolding nullable_loop
  set_nullable nsyms items = nullable_loop (suc nsyms) items (λ j. false)
