-- ===== src/Yacc/Derivation.antt =====
-- Derivations of the empty string, and one rule in the passes of set_nullable of yacc/lr0.c.
use ocaml.Common.{
  ℕ, suc, ◌≡◌, refl, ap, ◌∙◌, Bool, true, false, ◌&&◌, some, List, [], ◌∷◌, if◌then◌else◌,
}
use ocaml.Common.Int.{ℤ, pos, negsuc}
use ocaml.Yacc.Nullable.{Marks, mark, scan_items}

-- A rule, of number suc r, with its right side.
pub record Rule : Type 0 where
  pub r : ℕ
  pub rhs : List ℕ

-- How the rules stand in ritem: the symbols of each, and then minus its number.
abbrev pub rule_items : List ℕ → ℕ → List ℤ → List ℤ
rule_items [] r items = negsuc r ∷ items
rule_items (j ∷ js) r items = pos j ∷ rule_items js r items

abbrev pub pack : List Rule → List ℤ
pack [] = []
pack (rule ∷ rules) = rule_items rule.rhs rule.r (pack rules)

pub data IsRule (rule : Rule) : List Rule → Type 0 where
  here : (rules : List Rule) → IsRule rule (rule ∷ rules)
  there : (other : Rule) (rules : List Rule) → IsRule rule rules → IsRule rule (other ∷ rules)

-- A symbol derives the empty string by a rule whose symbols all do.
mutual
  pub data DerivesEmpty (rlhs : ℕ → ℕ) (rules : List Rule) : ℕ → Type 0 where
    by_rule :
        (rule : Rule)
        → IsRule rule rules
        → AllDeriveEmpty rlhs rules rule.rhs
        → DerivesEmpty rlhs rules (rlhs (suc rule.r))

  pub data AllDeriveEmpty (rlhs : ℕ → ℕ) (rules : List Rule) : List ℕ → Type 0 where
    none_left : AllDeriveEmpty rlhs rules []
    one_more :
        (j : ℕ) (js : List ℕ)
        → DerivesEmpty rlhs rules j
        → AllDeriveEmpty rlhs rules js
        → AllDeriveEmpty rlhs rules (j ∷ js)

abbrev pub all_nullable : (ℕ → Bool) → List ℕ → Bool
all_nullable nullable [] = true
all_nullable nullable (j ∷ js) = nullable j && all_nullable nullable js

and_assoc : (a b c : Bool) → ((a && b) && c) ≡ (a && (b && c))
and_assoc true b c = refl
and_assoc false b c = refl

module _ (rlhs : ℕ → ℕ) where
  -- What a pass does with one rule.
  unfoldable pub mark_rule : Rule → Marks → Marks
  unfolding mark
  mark_rule rule s = if all_nullable s.nullable rule.rhs then mark (rlhs (suc rule.r)) s else s

  abbrev pub mark_rules : List Rule → Marks → Marks
  mark_rules [] s = s
  mark_rules (rule ∷ rules) s = mark_rules rules (mark_rule rule s)

  scan_rule :
      (js : List ℕ) (r : ℕ) (items : List ℤ) (inside empty : Bool) (s : Marks)
      → scan_items rlhs (rule_items js r items) inside empty s
        ≡ scan_items rlhs items false true
            (if empty && all_nullable s.nullable js then mark (rlhs (suc r)) s else s)
  unfolding scan_items
  scan_rule [] r items inside true s = refl
  scan_rule [] r items inside false s = refl
  scan_rule (j ∷ js) r items inside empty s =
      scan_rule js r items true (empty && s.nullable j) s
      ∙ ap (λ b. scan_items rlhs items false true (if b then mark (rlhs (suc r)) s else s))
          (and_assoc empty (s.nullable j) (all_nullable s.nullable js))

  -- A pass over the items of some rules goes through the rules.
  pub scan_items-pack :
      (rules : List Rule) (s : Marks)
      → scan_items rlhs (pack rules) false true s ≡ some (mark_rules rules s)
  unfolding scan_items mark_rule
  scan_items-pack [] s = refl
  scan_items-pack (rule ∷ rules) s =
      scan_rule rule.rhs rule.r (pack rules) false true s ∙ scan_items-pack rules (mark_rule rule s)
