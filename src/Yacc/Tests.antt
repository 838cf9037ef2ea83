-- ===== src/Yacc/Tests.antt =====
-- Runs of set_nullable of yacc/lr0.c and of yacc/warshall.c.
use ocaml.Common.{
  ℕ, ◌+◌, ◌≡◌, ◌↔◌, refl, Bool, true, false, Option, some, none, List, [], ◌∷◌, map, arith, leb,
  if◌then◌else◌,
}
use ocaml.Common.Int.{pos, negsuc}
use ocaml.Yacc.Nullable.{set_nullable}
use ocaml.Yacc.Derivation.{Rule, pack, DerivesEmpty}
use ocaml.Yacc.Passes.{set_nullable-derives}
use ocaml.Common.{◌⊎◌, ◌==◌}
use ocaml.Yacc.Warshall.{Matrix, transitive_closure, reflexive_transitive_closure}
use ocaml.Yacc.Closure.{edge, Reaches}
use ocaml.Yacc.Paths.{transitive_closure-edge}
use ocaml.Yacc.Reflexive.{reflexive_transitive_closure-edge}

-- Rules 1 to 4: 4 → 5 6, 5 → , 6 → 5 5 and 7 → 0.
abbrev grammar : List Rule
grammar =
    record { r = 0; rhs = 5 ∷ 6 ∷ [] }
    ∷ record { r = 1; rhs = [] }
    ∷ record { r = 2; rhs = 5 ∷ 5 ∷ [] }
    ∷ record { r = 3; rhs = 0 ∷ [] }
    ∷ []

abbrev rlhs : ℕ → ℕ
rlhs r = if leb 5 r then 0 else 3 + r

pack_run :
    pack grammar
    ≡ pos 5 ∷ pos 6 ∷ negsuc 0 ∷ negsuc 1 ∷ pos 5 ∷ pos 5 ∷ negsuc 2 ∷ pos 0 ∷ negsuc 3 ∷ []
pack_run = refl

marked : Option (ℕ → Bool) → List ℕ → List Bool
marked none js = []
marked (some nullable) js = map nullable js

set_nullable_run :
    marked (set_nullable rlhs 8 (pack grammar)) (0 ∷ 3 ∷ 4 ∷ 5 ∷ 6 ∷ 7 ∷ [])
    ≡ false ∷ false ∷ true ∷ true ∷ true ∷ false ∷ []
unfolding set_nullable marked
set_nullable_run = refl

out_of_bounds_run : marked (set_nullable rlhs 8 (pos 5 ∷ [])) (5 ∷ []) ≡ []
unfolding set_nullable marked
out_of_bounds_run = refl

set_nullable-derives_example :
    (nullable : ℕ → Bool) × (set_nullable rlhs 8 (pack grammar) ≡ some nullable)
    × ((j : ℕ) → (nullable j ≡ true) ↔ DerivesEmpty rlhs grammar j)
set_nullable-derives_example = set_nullable-derives rlhs grammar 8 (λ rule m. ground arith)

-- The edges 0 → 1, 1 → 2 and 2 → 1.
abbrev cycle : Matrix
cycle r w = if w == 0 then (if r == 0 then 2 else if r == 1 then 4 else 2) else 0

transitive_closure_run : map (λ r. transitive_closure 3 cycle r 0) (0 ∷ 1 ∷ 2 ∷ []) ≡ 6 ∷ 6 ∷ 6 ∷ []
unfolding transitive_closure
transitive_closure_run = refl

transitive_closure-edge_example :
    (edge (transitive_closure 3 cycle) 0 2 ≡ true) ↔ Reaches 3 cycle 0 2
transitive_closure-edge_example = transitive_closure-edge 3 cycle 0 2 (omega arith)

reflexive_transitive_closure_run :
    map (λ r. reflexive_transitive_closure 3 cycle r 0) (0 ∷ 1 ∷ 2 ∷ []) ≡ 7 ∷ 6 ∷ 6 ∷ []
unfolding reflexive_transitive_closure
reflexive_transitive_closure_run = refl

abbrev first : ℕ
first = 0

reflexive_transitive_closure-edge_example :
    (edge (reflexive_transitive_closure 3 cycle) 0 0 ≡ true)
    ↔ ((first ≡ first) ⊎ Reaches 3 cycle 0 0)
reflexive_transitive_closure-edge_example =
    reflexive_transitive_closure-edge 3 cycle 0 0 (omega arith)
