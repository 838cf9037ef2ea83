-- ===== src/Parsing/Passes.antt =====
-- The passes of loop in caml_parse_engine_r of byterun/parsing.c.
use ocaml.Common.{
  ℕ, zero, suc, ◌+◌, ◌-◌, ◌≤◌, ◌<◌, ◌≡◌, refl, Bool, true, false, not, Option, some, none, ltb,
  if◌then◌else◌, arith,
}
use ocaml.Common.Int.{ℤ, pos, negsuc, ltb_ℤ}
use ocaml.Parsing.Engine.{
  ParserTables, ParserEnv, Locals, Command, start, token_read, stacks_grown_1, stacks_grown_2,
  semantic_action_computed, error_detected, grow_stacks_1, raise_parse_error, call_error_function,
  read_token, Answer, answer, underflow, out_of_fuel, same_int, look_up, save, restore, push_state,
  shift_recover, shift, push_result, find_recovery, recover, reduce, testshift, parse_loop,
  take_token, parse_engine,
}

-- The engine has answered, or the tables reduce by a rule with more symbols than there are states.
abbrev pub IsAnswer : {A : Type 0} → ParserTables → Answer A → Type 0
IsAnswer t (answer o e) = Unit {0}
IsAnswer t (underflow n sp) = sp < t.len n
IsAnswer t out_of_fuel = 1 ≤ 0

-- What is left to do before loop: a look-ahead token takes one pass, or two while no three tokens have
-- been shifted since an error.
abbrev passes : {A : Type 0} → Locals → ParserEnv A → ℕ
passes l e = if ltb_ℤ e.curr_char (pos 0) then 0 else if ltb l.errflag 3 then 2 else 1

module _ {A : Type 0} (t : ParserTables) where
  reduce-IsAnswer : (n : ℤ) (l : Locals) (e : ParserEnv A) → IsAnswer t (reduce t n l e)
  unfolding reduce
  reduce-IsAnswer n l e = ground arith

  shift_recover-IsAnswer :
      (again : Locals → ParserEnv A → Answer A) (to : ℤ) (l : Locals) (e : ParserEnv A)
      → ((l' : Locals) (e' : ParserEnv A)
          → l'.errflag ≡ l.errflag
          → e'.curr_char ≡ e.curr_char
          → IsAnswer t (again l' e'))
      → IsAnswer t (shift_recover again to l e)
  unfolding shift_recover push_state
  shift_recover-IsAnswer again to l e rest = go (ltb (l.sp + 1) e.stacksize) (
      rest (record l { state = to; sp = l.sp + 1 })
        (push_state (record l { state = to; sp = l.sp + 1 }) e) refl refl)
    where
      go :
          (b : Bool)
          → IsAnswer t (
              again
                (record l { state = to; sp = l.sp + 1 })
                (push_state (record l { state = to; sp = l.sp + 1 }) e))
          → IsAnswer t (
              if b
              then again
                  (record l { state = to; sp = l.sp + 1 })
                  (push_state (record l { state = to; sp = l.sp + 1 }) e)
              else answer grow_stacks_1 (save (record l { state = to; sp = l.sp + 1 }) e))
      go true h = h
      go false h = tt

  -- loop answers on what leaves fewer than k passes to do.
  Answers : ℕ → (Locals → ParserEnv A → Answer A) → Type 0
  Answers k again = (l : Locals) (e : ParserEnv A) → passes l e < k → IsAnswer t (again l e)

  shift-IsAnswer :
      (again : Locals → ParserEnv A → Answer A) (k : ℕ) (to : ℤ) (l : Locals) (e : ParserEnv A)
      → Answers k again
      → 0 < k
      → IsAnswer t (shift again to l e)
  unfolding shift Answers
  shift-IsAnswer again k to l e good enough =
      shift_recover-IsAnswer again to (record l { errflag = l.errflag - 1 })
        (record e { curr_char = negsuc 0 })
        (λ l' e' same_errflag same_char. good l' e' (few l' e' same_char))
    where
      few : (l' : Locals) (e' : ParserEnv A) → e'.curr_char ≡ negsuc 0 → passes l' e' < k
      few l' e' h = rw h enough

  recover-IsAnswer :
      (again : Locals → ParserEnv A → Answer A) (k : ℕ) (l : Locals) (e : ParserEnv A)
      → Answers k again
      → 0 < k
      → (l.errflag < 3 → 1 < k)
      → IsAnswer t (recover t again l e)
  unfolding recover Answers
  recover-IsAnswer again k l e good enough enough_recovery =
      go (ltb l.errflag 3) (find_recovery t e l.sp) (same_int e.curr_char (pos 0)) refl
    where
      few : (l' : Locals) (e' : ParserEnv A) → l'.errflag ≡ 3 → 1 < k → passes l' e' < k
      few l' e' h more = rw h (ground arith)

      go :
          (young : Bool) (found : Option (ℕ × ℤ)) (at_end : Bool)
          → ltb l.errflag 3 ≡ young
          → IsAnswer t (
              if young
              then elim found [
                | none ↦ answer raise_parse_error e
                | some (sp', to) ↦ shift_recover again to (record l { sp = sp'; errflag = 3 }) e
              ]
              else if at_end
              then answer raise_parse_error e
              else again l (record e { curr_char = negsuc 0 }))
      go true none at_end h = tt
      go true (some (sp', to)) at_end h =
          let more : 1 < k = enough_recovery (ground arith) in
          shift_recover-IsAnswer again to (record l { sp = sp'; errflag = 3 }) e
            (λ l' e' same_errflag same_char. good l' e' (few l' e' same_errflag more))
      go false found true h = tt
      go false found false h = good l (record e { curr_char = negsuc 0 }) enough

  testshift-IsAnswer :
      (again : Locals → ParserEnv A → Answer A) (k : ℕ) (l : Locals) (e : ParserEnv A)
      → Answers k again
      → 0 < k
      → (l.errflag < 3 → 1 < k)
      → IsAnswer t (testshift t again l e)
  unfolding testshift
  testshift-IsAnswer again k l e good enough enough_recovery =
      go (look_up t (t.sindex l.state) e.curr_char) (look_up t (t.rindex l.state) e.curr_char)
        (ltb 0 l.errflag)
    where
      go :
          (shifts reduces : Option ℤ) (b : Bool)
          → IsAnswer t (elim shifts [
            | some to ↦ shift again to l e
            | none ↦ elim reduces [
              | some n ↦ reduce t n l e
              | none ↦ if b then recover t again l e else answer call_error_function (save l e)
            ]
          ])
      go (some to) reduces b = shift-IsAnswer again k to l e good enough
      go none (some n) b = reduce-IsAnswer n l e
      go none none true = recover-IsAnswer again k l e good enough enough_recovery
      go none none false = tt

  four_passes : (l : Locals) (e : ParserEnv A) → passes l e < 4
  four_passes l e = ground arith

  parse_loop-IsAnswer :
      (k : ℕ) (l : Locals) (e : ParserEnv A) → passes l e < k → IsAnswer t (parse_loop t k l e)
  unfolding parse_loop Answers
  parse_loop-IsAnswer zero l e h = absurd (omega arith)
  parse_loop-IsAnswer (suc k) l e h =
      go (same_int (t.defred l.state) (pos 0)) (ltb_ℤ e.curr_char (pos 0)) refl
        (parse_loop-IsAnswer k)
    where
      go :
          (b absent : Bool)
          → ltb_ℤ e.curr_char (pos 0) ≡ absent
          → ((l' : Locals) (e' : ParserEnv A)
              → passes l' e' < k
              → IsAnswer t (parse_loop t k l' e'))
          → IsAnswer t (
              if not b
              then reduce t (t.defred l.state) l e
              else if not absent
              then testshift t (parse_loop t k) l e
              else answer read_token (save l e))
      go false absent ea good = reduce-IsAnswer (t.defred l.state) l e
      go true true ea good = tt
      go true false ea good =
          testshift-IsAnswer (parse_loop t k) k l e good (ground arith) (λ young. ground arith)

  -- caml_parse_engine_r answers on every command, in at most four passes of loop, so that it does not
  -- run forever between two answers: it reads, shifts or discards a token, asks for a semantic action
  -- or for larger stacks, or gives up. The exception is a reduction by a rule that has more symbols than
  -- there are states over the lowest of the stack, where C reads below the stack.
  pub parse_engine-IsAnswer :
      (unit_value : A) (cmd : Command A) (e : ParserEnv A)
      → IsAnswer t (parse_engine t unit_value cmd e)
  unfolding parse_engine Answers
  parse_engine-IsAnswer unit_value start e =
      parse_loop-IsAnswer 4 (record { state = pos 0; sp = e.saved_sp; errflag = 0 }) e
        (four_passes (record { state = pos 0; sp = e.saved_sp; errflag = 0 }) e)
  parse_engine-IsAnswer unit_value (token_read arg) e =
      testshift-IsAnswer (parse_loop t 4) 4 (restore e) (take_token t unit_value arg e)
        (parse_loop-IsAnswer 4) (omega arith) (λ h. omega arith)
  parse_engine-IsAnswer unit_value error_detected e =
      recover-IsAnswer (parse_loop t 4) 4 (restore e) e (parse_loop-IsAnswer 4) (omega arith)
        (λ h. omega arith)
  parse_engine-IsAnswer unit_value stacks_grown_1 e =
      parse_loop-IsAnswer 4 (restore e) (push_state (restore e) e)
        (four_passes (restore e) (push_state (restore e) e))
  parse_engine-IsAnswer unit_value stacks_grown_2 e = tt
  parse_engine-IsAnswer unit_value (semantic_action_computed v) e =
      parse_loop-IsAnswer 4 (restore e) (push_result v (restore e) e)
        (four_passes (restore e) (push_result v (restore e) e))
