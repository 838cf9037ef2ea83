-- ===== src/Lexing/Memory.antt =====
-- The engine with memory of positions, caml_new_lex_engine_r of byterun/lexing.c.
use ocaml.Common.{ℕ, zero, suc, List, [], ◌∷◌, ltb, ◌==◌, if◌then◌else◌, get_or, set, drop}
use ocaml.Common.Int.{ℤ, pos, negsuc, ◌+ℤ◌}
use ocaml.Lexing.Engine.{
  LexerBuffer, LexingTable, Lexed, token, refill, Turn, go_on, return, is_state, mark, read_char,
  next_state, backtrack, erase_eof, enter_state,
}

-- run_mem and run_tag, which differ in what the source 255 stands for: the code is read up to the
-- destination 255. A field of the memory that is not there is left alone.
unfoldable pub run_moves : ℤ → List ℕ → List ℤ → List ℤ
run_moves v [] mem = mem
run_moves v (dst ∷ []) mem = mem
run_moves v (dst ∷ src ∷ pc) mem =
    let x = if src == 255 then v else get_or mem src (negsuc 0) in
    let rest = run_moves v pc (set mem dst x) in if dst == 255 then mem else rest

-- `Bp_val(tbl->lex_code) + pc_off`.
unfoldable pub code_at : List ℕ → ℤ → List ℕ
code_at code (pos n) = drop n code
code_at code (negsuc n) = []

unfoldable pub run_tag : LexingTable → ℤ → LexerBuffer → LexerBuffer
unfolding run_moves code_at
run_tag t pc_off b = record b {
  lex_mem = run_moves (negsuc 0) (code_at t.lex_code pc_off) b.lex_mem;
}

unfoldable pub run_mem : LexingTable → ℤ → LexerBuffer → LexerBuffer
unfolding run_moves code_at
run_mem t pc_off b = record b {
  lex_mem = run_moves (pos b.lex_curr_pos) (code_at t.lex_code pc_off) b.lex_mem;
}

-- The backtrack point, with its moves.
unfoldable pub mark_tag : LexingTable → ℕ → ℤ → LexerBuffer → LexerBuffer
unfolding mark run_tag
mark_tag t state (pos n) b = mark (pos n) (run_tag t (t.lex_backtrk_code state) b)
mark_tag t state (negsuc n) b = b

-- "If some transition, get and perform memory moves".
unfoldable pub transition_code : LexingTable → ℕ → ℕ → ℤ
unfolding is_state
transition_code t pstate c =
    let i = t.lex_base_code pstate +ℤ pos c in
    if is_state (t.lex_check_code i) pstate then t.lex_trans_code i else t.lex_default_code pstate

unfoldable pub moves : LexingTable → ℤ → LexerBuffer → LexerBuffer
unfolding run_mem
moves t (pos zero) b = b
moves t (pos (suc n)) b = run_mem t (pos (suc n)) b
moves t (negsuc n) b = b

unfoldable pub advance_mem : LexingTable → ℕ → ℕ → ℕ × LexerBuffer → Turn
unfolding next_state backtrack erase_eof transition_code moves
advance_mem t base pstate (c, b) = elim (next_state t base pstate c) [
  | pos state ↦ go_on state (erase_eof c (moves t (transition_code t pstate c) b))
  | negsuc n ↦ return (backtrack b)
]

-- One turn of the loop of caml_new_lex_engine_r.
unfoldable pub new_lex_turn : LexingTable → ℕ → LexerBuffer → Turn
unfolding run_tag mark_tag read_char advance_mem
new_lex_turn t state b = elim (t.lex_base state) [
  | negsuc n ↦ return (token (pos n) (run_tag t (t.lex_base_code state) b))
  | pos base ↦
      let b' = mark_tag t state (t.lex_backtrk state) b in
      if ltb b'.lex_curr_pos b'.lex_buffer_len
      then advance_mem t base state (read_char b')
      else if b'.lex_eof_reached
      then advance_mem t base state (256, b')
      else return (refill state b')
]

-- caml_new_lex_engine_r.
unfoldable pub new_lex_engine : LexingTable → ℤ → LexerBuffer → Lexed
unfolding new_lex_turn enter_state
new_lex_engine t start_state b = enter_state (new_lex_turn t) start_state b
