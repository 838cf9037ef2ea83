-- ===== src/Yacc/Passes.antt =====
-- What set_nullable of yacc/lr0.c computes.
use ocaml.Common.{
  ℕ, zero, suc, ◌+◌, ◌≤◌, ◌<◌, ◌≡◌, ◌⊎◌, ◌↔◌, inl, inr, refl, sym, ap, subst, ◌∙◌, Bool, true,
  false, some, none, List, [], ◌∷◌, ◌==◌, ltb, if◌then◌else◌, arith,
}
use ocaml.Yacc.Nullable.{Marks, mark, scan_items, nullable_loop, set_nullable}
use ocaml.Yacc.Derivation.{
  Rule, pack, IsRule, here, there, DerivesEmpty, AllDeriveEmpty, by_rule, none_left, one_more,
  all_nullable, mark_rule, mark_rules, scan_items-pack,
}

-- How many of the first n symbols are not marked.
unmarked : ℕ → (ℕ → Bool) → ℕ
unmarked zero nullable = 0
unmarked (suc n) nullable = (if nullable n then 0 else 1) + unmarked n nullable

unmarked-le : (n : ℕ) (nullable : ℕ → Bool) → unmarked n nullable ≤ n
unfolding unmarked
unmarked-le zero nullable = omega arith
unmarked-le (suc n) nullable = ground (arith, unmarked-le n nullable)

-- The symbol j is marked.
unmarked-mark :
    (n j : ℕ) (nullable : ℕ → Bool)
    → nullable j ≡ false
    → unmarked n (λ k. if k == j then true else nullable k) + (if ltb j n then 1 else 0)
      ≡ unmarked n nullable
unfolding unmarked
unmarked-mark zero j nullable e = ground arith
unmarked-mark (suc n) j nullable e = go (n == j) refl (unmarked-mark n j nullable e)
  where
    go :
        (b : Bool)
        → (n == j) ≡ b
        → unmarked n (λ k. if k == j then true else nullable k) + (if ltb j n then 1 else 0)
          ≡ unmarked n nullable
        → (if (if b then true else nullable n) then 0 else 1)
            + unmarked n (λ k. if k == j then true else nullable k)
            + (if ltb j (suc n) then 1 else 0)
          ≡ (if nullable n then 0 else 1) + unmarked n nullable
    go true e' before =
        let same : n ≡ j = ground (arith, e') in
        let not_n : nullable n ≡ false = ap nullable same ∙ e in ground (arith, before, same, not_n)
    go false e' before = ground (arith, before, e')

module _ (rlhs : ℕ → ℕ) (rules : List Rule) where
  -- Every mark is right.
  Sound : (ℕ → Bool) → Type 0
  Sound nullable = (j : ℕ) → nullable j ≡ true → DerivesEmpty rlhs rules j

  all_nullable-AllDeriveEmpty :
      (nullable : ℕ → Bool) (js : List ℕ)
      → Sound nullable
      → all_nullable nullable js ≡ true
      → AllDeriveEmpty rlhs rules js
  unfolding Sound
  all_nullable-AllDeriveEmpty nullable [] sound e = none_left
  all_nullable-AllDeriveEmpty nullable (j ∷ js) sound e =
      one_more j js (sound j (ground (arith, e)))
        (all_nullable-AllDeriveEmpty nullable js sound (ground (arith, e)))

  mark_rule-Sound :
      (rule : Rule) (s : Marks)
      → IsRule rule rules
      → Sound s.nullable
      → Sound (mark_rule rlhs rule s).nullable
  unfolding mark_rule mark Sound
  mark_rule-Sound rule s member sound =
      go (all_nullable s.nullable rule.rhs) refl (s.nullable (rlhs (suc rule.r)))
    where
      go :
          (all : Bool)
          → all_nullable s.nullable rule.rhs ≡ all
          → (b : Bool) → (k : ℕ)
          → (if all
                then (if b then s else record {
                  nullable = λ k. if k == rlhs (suc rule.r) then true else s.nullable k;
                  done = false;
                })
                else s).nullable
              k
            ≡ true
          → DerivesEmpty rlhs rules k
      go false e b k marked = sound k marked
      go true e true k marked = sound k marked
      go true e false k marked = at (k == rlhs (suc rule.r)) refl marked
        where
          at :
              (b : Bool)
              → (k == rlhs (suc rule.r)) ≡ b
              → (if b then true else s.nullable k) ≡ true
              → DerivesEmpty rlhs rules k
          at true e' marked =
              let same : k ≡ rlhs (suc rule.r) = ground (arith, e') in
              subst (λ j. DerivesEmpty rlhs rules j) (sym same)
                (by_rule rule member (all_nullable-AllDeriveEmpty s.nullable rule.rhs sound e))
          at false e' marked = sound k marked

  mark_rules-Sound :
      (rest : List Rule) (s : Marks)
      → ((rule : Rule) → IsRule rule rest → IsRule rule rules)
      → Sound s.nullable
      → Sound (mark_rules rlhs rest s).nullable
  mark_rules-Sound [] s within sound = sound
  mark_rules-Sound (rule ∷ rest) s within sound =
      mark_rules-Sound rest (mark_rule rlhs rule s) (λ other m. within other (there rule rest m))
        (mark_rule-Sound rule s (within rule (here rest)) sound)

  -- The marks are closed under some rules.
  Closed : List Rule → (ℕ → Bool) → Type 0
  Closed rest nullable =
      (rule : Rule)
      → IsRule rule rest
      → all_nullable nullable rule.rhs ≡ true
      → nullable (rlhs (suc rule.r)) ≡ true

  -- Some rules go by without a mark, or with one more of the first n symbols marked.
  Ends : ℕ → List Rule → Marks → Marks → Type 0
  Ends n rest s s' =
      ((s' ≡ s) × Closed rest s.nullable)
      ⊎ ((s'.done ≡ false) × (unmarked n s'.nullable < unmarked n s.nullable))

  mark_rule-Ends :
      (n : ℕ) (rule : Rule) (s : Marks)
      → rlhs (suc rule.r) < n
      → ((mark_rule rlhs rule s ≡ s)
          × (all_nullable s.nullable rule.rhs ≡ true → s.nullable (rlhs (suc rule.r)) ≡ true))
        ⊎ (((mark_rule rlhs rule s).done ≡ false)
            × (unmarked n (mark_rule rlhs rule s).nullable < unmarked n s.nullable))
  unfolding mark_rule mark
  mark_rule-Ends n rule s small =
      go (all_nullable s.nullable rule.rhs) (s.nullable (rlhs (suc rule.r))) refl
    where
      go :
          (all : Bool)
          → (b : Bool) → s.nullable (rlhs (suc rule.r)) ≡ b
          → let s' =
              if all
              then (if b then s else record {
                nullable = λ k. if k == rlhs (suc rule.r) then true else s.nullable k;
                done = false;
              })
              else s in
            ((s' ≡ s) × (all ≡ true → s.nullable (rlhs (suc rule.r)) ≡ true))
            ⊎ ((s'.done ≡ false) × (unmarked n s'.nullable < unmarked n s.nullable))
      go false b e = inl (refl, λ h. absurd (cc))
      go true true e = inl (refl, λ h. e)
      go true false e =
          inr (refl, ground (arith, unmarked-mark n (rlhs (suc rule.r)) s.nullable e, small))

  mark_rules-Ends :
      (n : ℕ) (rest : List Rule) (s : Marks)
      → ((rule : Rule) → IsRule rule rest → rlhs (suc rule.r) < n)
      → Ends n rest s (mark_rules rlhs rest s)
  unfolding Ends Closed
  mark_rules-Ends n [] s small = inl (refl, λ rule m. elim m [ ])
  mark_rules-Ends n (rule ∷ rest) s small =
      go (mark_rule rlhs rule s) (mark_rule-Ends n rule s (small rule (here rest)))
        (mark_rules rlhs rest (mark_rule rlhs rule s))
        (mark_rules-Ends n rest (mark_rule rlhs rule s)
          (λ other m. small other (there rule rest m)))
    where
      go :
          (s' : Marks)
          → ((s' ≡ s)
              × (all_nullable s.nullable rule.rhs ≡ true → s.nullable (rlhs (suc rule.r)) ≡ true))
            ⊎ ((s'.done ≡ false) × (unmarked n s'.nullable < unmarked n s.nullable))
          → (s'' : Marks) → Ends n rest s' s''
          → Ends n (rule ∷ rest) s s''
      go s' (inr (undone, fewer)) s'' (inl (same, closed)) = inr (
        ap (λ (x : Marks). x.done) same ∙ undone,
        omega (arith, ap (λ (x : Marks). unmarked n x.nullable) same, fewer),
      )
      go s' (inr (undone, fewer)) s'' (inr (undone', fewer')) =
          inr (undone', omega (arith, fewer, fewer'))
      go s' (inl (same, closed)) s'' (inr (undone', fewer')) =
          inr (undone', omega (arith, ap (λ (x : Marks). unmarked n x.nullable) same, fewer'))
      go s' (inl (same, closed)) s'' (inl (same', closed')) = inl (same' ∙ same, both)
        where
          both : Closed (rule ∷ rest) s.nullable
          both _ (here _) e = closed e
          both other (there _ _ m) e =
              subst (λ (x : Marks). Closed rest x.nullable) same closed' other m e

  mutual
    unfolding Closed

    Closed-complete :
        (nullable : ℕ → Bool)
        → Closed rules nullable
        → (j : ℕ) → DerivesEmpty rlhs rules j
        → nullable j ≡ true
    Closed-complete nullable closed j (by_rule rule member all) =
        closed rule member (Closed-all nullable closed rule.rhs all)

    Closed-all :
        (nullable : ℕ → Bool)
        → Closed rules nullable
        → (js : List ℕ) → AllDeriveEmpty rlhs rules js
        → all_nullable nullable js ≡ true
    Closed-all nullable closed [] none_left = refl
    Closed-all nullable closed (j ∷ js) (one_more _ _ d ds) =
        ground (arith, Closed-complete nullable closed j d, Closed-all nullable closed js ds)

  nullable_loop-derives :
      (fuel n : ℕ) (nullable : ℕ → Bool)
      → ((rule : Rule) → IsRule rule rules → rlhs (suc rule.r) < n)
      → Sound nullable
      → unmarked n nullable < fuel
      → (result : ℕ → Bool) × (nullable_loop rlhs fuel (pack rules) nullable ≡ some result)
        × ((j : ℕ) → (result j ≡ true) ↔ DerivesEmpty rlhs rules j)
  unfolding nullable_loop Sound Ends
  nullable_loop-derives zero n nullable small sound enough = absurd (omega arith)
  nullable_loop-derives (suc fuel) n nullable small sound enough =
      let s : Marks = record { nullable = nullable; done = true } in
      let s' = mark_rules rlhs rules s in
      go s' (scan_items-pack rlhs rules s) (mark_rules-Ends n rules s small)
        (mark_rules-Sound rules s (λ rule m. m) sound)
        (λ next sound' fewer.
          nullable_loop-derives fuel n next small sound' (omega (arith, fewer, enough)))
    where
      opened :
          (s' : Marks)
          → scan_items rlhs (pack rules) false true (record { nullable = nullable; done = true })
            ≡ some s'
          → nullable_loop rlhs (suc fuel) (pack rules) nullable ≡ (
              if s'.done
              then some s'.nullable
              else nullable_loop rlhs fuel (pack rules) s'.nullable)
      opened s' e =
          ap
            (λ o. elim o [
              | none ↦ none
              | some s ↦
                  if s.done
                  then some s.nullable
                  else nullable_loop rlhs fuel (pack rules) s.nullable
            ])
            e

      go :
          (s' : Marks)
          → scan_items rlhs (pack rules) false true (record { nullable = nullable; done = true })
            ≡ some s'
          → Ends n rules (record { nullable = nullable; done = true }) s'
          → Sound s'.nullable
          → ((next : ℕ → Bool)
              → Sound next
              → unmarked n next < unmarked n nullable
              → (result : ℕ → Bool) × (nullable_loop rlhs fuel (pack rules) next ≡ some result)
                × ((j : ℕ) → (result j ≡ true) ↔ DerivesEmpty rlhs rules j))
          → (result : ℕ → Bool) × (nullable_loop rlhs (suc fuel) (pack rules) nullable
              ≡ some result)
            × ((j : ℕ) → (result j ≡ true) ↔ DerivesEmpty rlhs rules j)
      go s' e (inl (same, closed)) sound' rec =
          let sound_now : Sound nullable = subst (λ (x : Marks). Sound x.nullable) same sound' in
          (
            nullable,
            opened s' e
                ∙ ap
                    (λ (x : Marks).
                      if x.done
                      then some x.nullable
                      else nullable_loop rlhs fuel (pack rules) x.nullable)
                    same,
            λ j. (sound_now j, Closed-complete nullable closed j),
          )
      go s' e (inr (undone, fewer)) sound' rec =
          let (result, finds, right) = rec s'.nullable sound' fewer in
          (
            result,
            opened s' e
                ∙ ap
                    (λ b.
                      if b
                      then some s'.nullable
                      else nullable_loop rlhs fuel (pack rules) s'.nullable)
                    undone
                ∙ finds,
            right,
          )

  -- set_nullable returns, for a grammar whose left sides are symbols, and marks exactly the symbols that
  -- derive the empty string: those of a rule all of whose symbols derive it.
  pub set_nullable-derives :
      (nsyms : ℕ)
      → ((rule : Rule) → IsRule rule rules → rlhs (suc rule.r) < nsyms)
      → (nullable : ℕ → Bool) × (set_nullable rlhs nsyms (pack rules) ≡ some nullable)
        × ((j : ℕ) → (nullable j ≡ true) ↔ DerivesEmpty rlhs rules j)
  unfolding set_nullable Sound
  set_nullable-derives nsyms small =
      nullable_loop-derives (suc nsyms) nsyms (λ j. false) small (λ j e. absurd (cc))
        (omega (arith, unmarked-le nsyms (λ j. false)))
