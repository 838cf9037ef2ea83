-- ===== src/Parsing/Stacks.antt =====
-- What the pushes of byterun/parsing.c leave of the stacks.
use ocaml.Common.{ℕ, ◌≤◌, ◌<◌, ◌≡◌, refl, ◌∙◌, Bool, true, false, ltb, if◌then◌else◌, arith}
use ocaml.Parsing.Engine.{ParserEnv, Locals, store, push_state, push_result}

-- The stacks have the same size, and nothing above it has been written.
abbrev pub Kept : {A : Type 0} → ParserEnv A → ParserEnv A → Type 0
Kept e0 e =
    (e.stacksize ≡ e0.stacksize)
    × ((i : ℕ)
        → e0.stacksize ≤ i
        → (e.s_stack i ≡ e0.s_stack i)
          × (e.v_stack i ≡ e0.v_stack i)
          × (e.symb_start_stack i ≡ e0.symb_start_stack i)
          × (e.symb_end_stack i ≡ e0.symb_end_stack i))

store_above :
    {A : Type 0} (f : ℕ → A) (i n : ℕ) (v : A) (j : ℕ) → i < n → n ≤ j → store f i v j ≡ f j
unfolding store
store_above f i n v j h above = ground arith

module _ {A : Type 0} (e0 : ParserEnv A) where
  pub push_state-Kept :
      (l : Locals) (e : ParserEnv A) → Kept e0 e → l.sp < e0.stacksize → Kept e0 (push_state l e)
  unfolding push_state
  push_state-Kept l e h top = (
    h.0,
    λ i above.
        let k = h.1 i above in
        (
          store_above e.s_stack l.sp e0.stacksize l.state i top above ∙ k.0,
          store_above e.v_stack l.sp e0.stacksize e.lval i top above ∙ k.1,
          store_above e.symb_start_stack l.sp e0.stacksize e.symb_start i top above ∙ k.2,
          store_above e.symb_end_stack l.sp e0.stacksize e.symb_end i top above ∙ k.3,
        ),
  )

  pub push_state-saved :
      (l : Locals) (e : ParserEnv A)
      → e.saved_sp < e0.stacksize
      → (push_state l e).saved_sp < e0.stacksize
  unfolding push_state
  push_state-saved l e h = h

pub itself : {A : Type 0} (e : ParserEnv A) → Kept e e
itself e = (refl, λ i above. (refl, refl, refl, refl))

pub push_result-Kept :
    {A : Type 0} (v : A) (l : Locals) (e : ParserEnv A)
    → l.sp < e.stacksize
    → Kept e (push_result v l e)
unfolding push_result
push_result-Kept v l e top = (
  refl,
  λ i above. (
    store_above e.s_stack l.sp e.stacksize l.state i top above,
    store_above e.v_stack l.sp e.stacksize v i top above,
    starts (ltb e.asp l.sp) i above,
    store_above e.symb_end_stack l.sp e.stacksize (e.symb_end_stack e.asp) i top above,
  ),
)
  where
    starts :
        (b : Bool) (i : ℕ)
        → e.stacksize ≤ i
        → (if b
              then store e.symb_start_stack l.sp
                  (store e.symb_end_stack l.sp (e.symb_end_stack e.asp) e.asp)
              else e.symb_start_stack)
            i
          ≡ e.symb_start_stack i
    starts true i above =
        store_above e.symb_start_stack l.sp e.stacksize
          (store e.symb_end_stack l.sp (e.symb_end_stack e.asp) e.asp) i top above
    starts false i above = refl

pub push_result-saved :
    {A : Type 0} (v : A) (l : Locals) (e : ParserEnv A)
    → e.saved_sp < e.stacksize
    → (push_result v l e).saved_sp < e.stacksize
unfolding push_result
push_result-saved v l e h = h
