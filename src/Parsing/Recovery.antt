-- ===== src/Parsing/Recovery.antt =====
-- The states that the recovery from errors of byterun/parsing.c discards.
use ocaml.Common.{
  ℕ, zero, suc, ◌≤◌, ◌<◌, ◌≡◌, refl, subst, Bool, true, false, Option, some, none, leb,
  if◌then◌else◌, arith, ◌⊎◌, inl, inr,
}
use ocaml.Common.Int.{ℤ}
use ocaml.Parsing.Engine.{ParserTables, ParserEnv, errcode, look_up, find_recovery}

-- What the state at an index of the stack does on the error token.
abbrev pub error_shift : {A : Type 0} → ParserTables → ParserEnv A → ℕ → Option ℤ
error_shift t e i = look_up t (t.sindex (e.s_stack i)) errcode

-- The topmost state from sp down to the base that shifts the error token, or none.
abbrev pub IsRecovery : {A : Type 0} → ParserTables → ParserEnv A → ℕ → Option (ℕ × ℤ) → Type 0
IsRecovery t e sp (some (found, to)) =
    (found ≤ sp)
    × (error_shift t e found ≡ some to)
    × ((i : ℕ) → found < i → i ≤ sp → (error_shift t e i ≡ none) × (e.stackbase < i))
IsRecovery t e sp none = (i : ℕ) → e.stackbase ≤ i → i ≤ sp → error_shift t e i ≡ none

below_or_top : (i sp : ℕ) → i ≤ suc sp → (i ≤ sp) ⊎ (suc sp ≡ i)
below_or_top i sp h = ground arith

-- A state on top that does not shift the error token, and is above the base.
IsRecovery-discard :
    {A : Type 0} (t : ParserTables) (e : ParserEnv A) (sp : ℕ) (r : Option (ℕ × ℤ))
    → error_shift t e (suc sp) ≡ none
    → e.stackbase < suc sp
    → IsRecovery t e sp r
    → IsRecovery t e (suc sp) r
IsRecovery-discard t e sp none h base rest = λ i above below. elim (below_or_top i sp below) [
  | inl lower ↦ rest i above lower
  | inr top ↦ subst (λ k. error_shift t e k ≡ none) top h
]
IsRecovery-discard t e sp (some (found, to)) h base rest = (
  omega (arith, rest.0),
  rest.1,
  λ i above below. elim (below_or_top i sp below) [
    | inl lower ↦ rest.2 i above lower
    | inr top ↦ (subst (λ k. error_shift t e k ≡ none) top h, subst (λ k. e.stackbase < k) top base)
  ],
)

-- The recovery stops at the topmost state that shifts the error token, having discarded the states
-- above, all of them above the base of the stack and none of which shifts it. Where it finds none, no
-- state from the base to the top shifts the error token.
pub find_recovery-IsRecovery :
    {A : Type 0} (t : ParserTables) (e : ParserEnv A) (sp : ℕ)
    → IsRecovery t e sp (find_recovery t e sp)
unfolding find_recovery
find_recovery-IsRecovery t e zero = go (error_shift t e 0) refl
  where
    go :
        (o : Option ℤ)
        → error_shift t e 0 ≡ o
        → IsRecovery t e 0 (elim o [ some to ↦ some (0, to) | none ↦ none ])
    go (some to) h = (omega arith, h, λ i above below. absurd (omega arith))
    go none h = λ i above below. subst (λ k. error_shift t e k ≡ none) (omega arith) h
find_recovery-IsRecovery t e (suc sp) =
    go (error_shift t e (suc sp)) (leb (suc sp) e.stackbase) refl refl
      (find_recovery-IsRecovery t e sp)
  where
    go :
        (o : Option ℤ) (at_base : Bool)
        → error_shift t e (suc sp) ≡ o
        → leb (suc sp) e.stackbase ≡ at_base
        → IsRecovery t e sp (find_recovery t e sp)
        → IsRecovery t e (suc sp) (elim o [
          | some to ↦ some (suc sp, to)
          | none ↦ if at_base then none else find_recovery t e sp
        ])
    go (some to) at_base h b rest = (omega arith, h, λ i above below. absurd (omega arith))
    go none true h b rest = λ i above below.
        let bound : suc sp ≤ e.stackbase = ground arith in
        let top : suc sp ≡ i = omega arith in subst (λ k. error_shift t e k ≡ none) top h
    go none false h b rest =
        let bound : e.stackbase < suc sp = ground arith in
        IsRecovery-discard t e sp (find_recovery t e sp) h bound rest
