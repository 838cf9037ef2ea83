-- ===== src/Parsing/Engine.antt =====
-- The pushdown automaton, caml_parse_engine_r of byterun/parsing.c, without its trace.
use ocaml.Common.{
  ℕ, zero, suc, ◌+◌, ◌-◌, Bool, false, not, ◌&&◌, Option, some, none, ltb, leb, ◌==◌, if◌then◌else◌,
}
use ocaml.Common.Int.{ℤ, pos, negsuc, ◌+ℤ◌, ltb_ℤ}

-- struct parser_tables: what Short reads, and the codes of tokens. The length of a rule is no negative
-- number.
pub record ParserTables : Type 0 where
  pub transl_const : ℕ → ℤ
  pub transl_block : ℕ → ℤ
  pub lhs : ℤ → ℤ
  pub len : ℤ → ℕ
  pub defred : ℤ → ℤ
  pub dgoto : ℤ → ℤ
  pub sindex : ℤ → ℤ
  pub rindex : ℤ → ℤ
  pub gindex : ℤ → ℤ
  pub tablesize : ℤ
  pub table : ℤ → ℤ
  pub check : ℤ → ℤ

-- struct parser_env. `A` is the type of semantic values and positions; a stack is a function from
-- indices, of which those below stacksize are there.
pub record ParserEnv (A : Type 0) : Type 0 where
  pub s_stack : ℕ → ℤ
  pub v_stack : ℕ → A
  pub symb_start_stack : ℕ → A
  pub symb_end_stack : ℕ → A
  pub stacksize : ℕ
  pub stackbase : ℕ
  pub curr_char : ℤ
  pub lval : A
  pub symb_start : A
  pub symb_end : A
  pub asp : ℕ
  pub rule_len : ℕ
  pub rule_number : ℤ
  pub saved_sp : ℕ
  pub saved_state : ℤ
  pub saved_errflag : ℕ

-- The local variables that SAVE and RESTORE copy.
pub record Locals : Type 0 where
  pub state : ℤ
  pub sp : ℕ
  pub errflag : ℕ

-- A token is a constant, or a block with a tag and a value.
pub data Token (A : Type 0) : Type 0 where
  constant : ℕ → Token A
  block : ℕ → A → Token A

-- The input codes, with their argument.
pub data Command (A : Type 0) : Type 0 where
  start : Command A
  token_read : Token A → Command A
  stacks_grown_1 : Command A
  stacks_grown_2 : Command A
  semantic_action_computed : A → Command A
  error_detected : Command A

-- The output codes.
pub data Output : Type 0 where
  read_token : Output
  raise_parse_error : Output
  grow_stacks_1 : Output
  grow_stacks_2 : Output
  compute_semantic_action : Output
  call_error_function : Output

-- `underflow n sp` is a reduction by rule n with more symbols than the sp states over the lowest, where C
-- reads below the stack;
-- `out_of_fuel` is no answer of the code.
pub data Answer (A : Type 0) : Type 0 where
  answer : Output → ParserEnv A → Answer A
  underflow : ℤ → ℕ → Answer A
  out_of_fuel : Answer A

abbrev pub errcode : ℤ
errcode = pos 256

unfoldable pub same_int : ℤ → ℤ → Bool
same_int (pos m) (pos n) = m == n
same_int (negsuc m) (negsuc n) = m == n
same_int (pos m) (negsuc n) = false
same_int (negsuc m) (pos n) = false

-- `n1 != 0 && n2 >= 0 && n2 <= tablesize && check[n2] == c`, and then table[n2], where n1 is the base
-- of a row and n2 = n1 + c.
unfoldable pub look_up : ParserTables → ℤ → ℤ → Option ℤ
unfolding same_int
look_up t n1 c =
    let n2 = n1 +ℤ c in
    if not (same_int n1 (pos 0))
      && (not (ltb_ℤ n2 (pos 0)) && (not (ltb_ℤ t.tablesize n2) && same_int (t.check n2) c))
    then some (t.table n2)
    else none

unfoldable pub store : {A : Type 0} → (ℕ → A) → ℕ → A → ℕ → A
store f i v j = if j == i then v else f j

-- The state that a reduction leads to, by gindex or by dgoto.
unfoldable pub goto_state : ParserTables → ℤ → ℤ → ℤ
unfolding look_up
goto_state t m state1 = elim (look_up t (t.gindex m) state1) [ some to ↦ to | none ↦ t.dgoto m ]

module _ {A : Type 0} where
  -- SAVE and RESTORE.
  unfoldable pub save : Locals → ParserEnv A → ParserEnv A
  save l e = record e { saved_sp = l.sp; saved_state = l.state; saved_errflag = l.errflag }

  unfoldable pub restore : ParserEnv A → Locals
  restore e = record { state = e.saved_state; sp = e.saved_sp; errflag = e.saved_errflag }

  -- push, before it goes to loop.
  unfoldable pub push_state : Locals → ParserEnv A → ParserEnv A
  unfolding store
  push_state l e = record e {
    s_stack = store e.s_stack l.sp l.state;
    v_stack = store e.v_stack l.sp e.lval;
    symb_start_stack = store e.symb_start_stack l.sp e.symb_start;
    symb_end_stack = store e.symb_end_stack l.sp e.symb_end;
  }

  -- shift_recover, to a state. `again` is what loop does.
  unfoldable pub shift_recover :
      (Locals → ParserEnv A → Answer A) → ℤ → Locals → ParserEnv A → Answer A
  unfolding save push_state
  shift_recover again to l e =
      let l' = record l { state = to; sp = l.sp + 1 } in
      if ltb l'.sp e.stacksize then again l' (push_state l' e) else answer grow_stacks_1 (save l' e)

  -- shift.
  unfoldable pub shift : (Locals → ParserEnv A → Answer A) → ℤ → Locals → ParserEnv A → Answer A
  unfolding shift_recover
  shift again to l e =
      shift_recover again to (record l { errflag = l.errflag - 1 })
        (record e { curr_char = negsuc 0 })

  -- SEMANTIC_ACTION_COMPUTED, before it goes to loop.
  unfoldable pub push_result : A → Locals → ParserEnv A → ParserEnv A
  unfolding store
  push_result v l e =
      let symb_end_stack' = store e.symb_end_stack l.sp (e.symb_end_stack e.asp) in
      record e {
        s_stack = store e.s_stack l.sp l.state;
        v_stack = store e.v_stack l.sp v;
        symb_end_stack = symb_end_stack';
        symb_start_stack =
            if ltb e.asp l.sp
            then store e.symb_start_stack l.sp (symb_end_stack' e.asp)
            else e.symb_start_stack;
      }

module _ {A : Type 0} (t : ParserTables) where
  -- The loop that discards states from the top of the stack to its base: where it stops, and the state
  -- that the error token leads to.
  unfoldable pub find_recovery : ParserEnv A → ℕ → Option (ℕ × ℤ)
  unfolding look_up
  find_recovery e zero = elim (look_up t (t.sindex (e.s_stack 0)) errcode) [
    | some to ↦ some (0, to)
    | none ↦ none
  ]
  find_recovery e (suc sp) =
      let below = find_recovery e sp in
      elim (look_up t (t.sindex (e.s_stack (suc sp))) errcode) [
        | some to ↦ some (suc sp, to)
        | none ↦ if leb (suc sp) e.stackbase then none else below
      ]

  -- recover.
  unfoldable pub recover : (Locals → ParserEnv A → Answer A) → Locals → ParserEnv A → Answer A
  unfolding find_recovery shift_recover same_int
  recover again l e =
      if ltb l.errflag 3
      then elim (find_recovery e l.sp) [
        | none ↦ answer raise_parse_error e
        | some (sp', to) ↦ shift_recover again to (record l { sp = sp'; errflag = 3 }) e
      ]
      else if same_int e.curr_char (pos 0)
      then answer raise_parse_error e
      else again l (record e { curr_char = negsuc 0 })

  -- reduce, by rule n.
  unfoldable pub reduce : ℤ → Locals → ParserEnv A → Answer A
  unfolding goto_state save
  reduce n l e =
      let m = t.len n in
      let e' = record e { asp = l.sp; rule_number = n; rule_len = m } in
      let below = l.sp - m in
      let l' = record l { sp = below + 1; state = goto_state t (t.lhs n) (e.s_stack below) } in
      if leb m l.sp
      then (if ltb l'.sp e.stacksize
          then answer compute_semantic_action (save l' e')
          else answer grow_stacks_2 (save l' e'))
      else underflow n l.sp

  -- testshift.
  unfoldable pub testshift : (Locals → ParserEnv A → Answer A) → Locals → ParserEnv A → Answer A
  unfolding look_up shift recover reduce save
  testshift again l e = elim (look_up t (t.sindex l.state) e.curr_char) [
    | some to ↦ shift again to l e
    | none ↦ elim (look_up t (t.rindex l.state) e.curr_char) [
      | some n ↦ reduce n l e
      | none ↦ if ltb 0 l.errflag then recover again l e else answer call_error_function (save l e)
    ]
  ]

  -- loop, with fuel for the times that it is passed.
  unfoldable pub parse_loop : ℕ → Locals → ParserEnv A → Answer A
  unfolding testshift
  parse_loop zero l e = out_of_fuel
  parse_loop (suc fuel) l e =
      let n = t.defred l.state in
      if not (same_int n (pos 0))
      then reduce n l e
      else if not (ltb_ℤ e.curr_char (pos 0))
      then testshift (parse_loop fuel) l e
      else answer read_token (save l e)

  -- TOKEN_READ: the code of the token and its value. `unit_value` is Val_long(0).
  unfoldable pub take_token : A → Token A → ParserEnv A → ParserEnv A
  take_token unit_value (constant n) e = record e {
    curr_char = t.transl_const n;
    lval = unit_value;
  }
  take_token unit_value (block tag v) e = record e { curr_char = t.transl_block tag; lval = v }

  -- caml_parse_engine_r: four passes of loop are enough.
  unfoldable pub parse_engine : A → Command A → ParserEnv A → Answer A
  unfolding parse_loop testshift recover push_state push_result take_token save restore
  parse_engine unit_value start e =
      parse_loop 4 (record { state = pos 0; sp = e.saved_sp; errflag = 0 }) e
  parse_engine unit_value (token_read arg) e =
      testshift (parse_loop 4) (restore e) (take_token unit_value arg e)
  parse_engine unit_value error_detected e = recover (parse_loop 4) (restore e) e
  parse_engine unit_value stacks_grown_1 e = parse_loop 4 (restore e) (push_state (restore e) e)
  parse_engine unit_value stacks_grown_2 e = answer compute_semantic_action (save (restore e) e)
  parse_engine unit_value (semantic_action_computed v) e =
      parse_loop 4 (restore e) (push_result v (restore e) e)
