-- ===== src/Parsing/Tests.antt =====
-- Runs of the engine of byterun/parsing.c on the automaton of a small grammar, and its theorems there.
use ocaml.Common.{
  ℕ, zero, suc, ◌+◌, ◌-◌, ◌*◌, ◌≤◌, ◌<◌, ◌≡◌, refl, Bool, true, false, Option, some, none, ltb,
  ◌==◌, if◌then◌else◌,
}
use ocaml.Common.Int.{ℤ, pos, negsuc}
use ocaml.Parsing.Engine.{
  ParserTables, ParserEnv, start, token_read, constant, Answer, answer, grow_stacks_1, read_token,
  compute_semantic_action, same_int, find_recovery, parse_engine,
}
use ocaml.Parsing.Recovery.{IsRecovery, find_recovery-IsRecovery}
use ocaml.Parsing.Passes.{IsAnswer, parse_engine-IsAnswer}

-- State 0 shifts token 5 to state 2, which reduces by rule 1, of one symbol, to state 3; state 0 also
-- shifts the error token, to state 4.
abbrev tables : ParserTables
tables = record {
  transl_const = λ n. pos 5;
  transl_block = λ n. pos 6;
  lhs = λ n. pos 1;
  len = λ n. 1;
  defred = λ s. if same_int s (pos 2) then pos 1 else pos 0;
  dgoto = λ n. pos 3;
  sindex = λ s. if same_int s (pos 0) then pos 10 else pos 0;
  rindex = λ s. pos 0;
  gindex = λ s. pos 0;
  tablesize = pos 300;
  table = λ i. if same_int i (pos 15) then pos 2 else pos 4;
  check = λ i.
      if same_int i (pos 15) then pos 5 else if same_int i (pos 266) then pos 256 else negsuc 0;
}

abbrev empty : ParserEnv ℕ
empty = record {
  s_stack = λ i. pos 0;
  v_stack = λ i. 0;
  symb_start_stack = λ i. 0;
  symb_end_stack = λ i. 0;
  stacksize = 10;
  stackbase = 0;
  curr_char = negsuc 0;
  lval = 0;
  symb_start = 0;
  symb_end = 0;
  asp = 0;
  rule_len = 0;
  rule_number = pos 0;
  saved_sp = 0;
  saved_state = pos 0;
  saved_errflag = 0;
}

output_name : Answer ℕ → ℕ
output_name (answer read_token e) = 1 + 10 * e.saved_sp
output_name (answer grow_stacks_1 e) = 2 + 10 * e.saved_sp
output_name (answer compute_semantic_action e) = 3 + 10 * e.saved_sp
output_name a = 0

asks_for_token : output_name (parse_engine tables 0 start empty) ≡ 1
unfolding output_name parse_engine ocaml.Common.Int.◌+ℤ◌
asks_for_token = refl

-- The shift of the token goes on to the reduction.
reduces : output_name (parse_engine tables 0 (token_read (constant 0)) empty) ≡ 13
unfolding output_name parse_engine ocaml.Common.Int.◌+ℤ◌
reduces = refl

asks_for_stacks :
    output_name (parse_engine tables 0 (token_read (constant 0)) (record empty { stacksize = 1 }))
    ≡ 12
unfolding output_name parse_engine ocaml.Common.Int.◌+ℤ◌
asks_for_stacks = refl

parse_engine-IsAnswer_example :
    IsAnswer tables (parse_engine tables 0 (token_read (constant 0)) empty)
parse_engine-IsAnswer_example = parse_engine-IsAnswer tables 0 (token_read (constant 0)) empty

-- A stack with state 3 above state 0.
abbrev failing : ParserEnv ℕ
failing = record empty { s_stack = λ i. if i == 0 then pos 0 else pos 3 }

finds_recovery : find_recovery tables failing 2 ≡ some (0, pos 4)
unfolding find_recovery ocaml.Common.Int.◌+ℤ◌
finds_recovery = refl

find_recovery-IsRecovery_example : IsRecovery tables failing 2 (find_recovery tables failing 2)
find_recovery-IsRecovery_example = find_recovery-IsRecovery tables failing 2
