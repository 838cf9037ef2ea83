-- ===== src/Lexing/Engine.antt =====
-- The engine without memory, caml_lex_engine_r of byterun/lexing.c, and what the two engines share.
use ocaml.Common.{ℕ, zero, suc, ◌+◌, ◌-◌, Bool, false, List, ltb, ◌==◌, if◌then◌else◌}
use ocaml.Common.Int.{ℤ, pos, negsuc}

-- struct lexer_buffer, without the fields that the engines leave alone. Positions are numbers of
-- bytes; a field of lex_mem is one, or -1.
pub record LexerBuffer : Type 0 where
  pub lex_buffer : ℕ → ℕ
  pub lex_buffer_len : ℕ
  pub lex_start_pos : ℕ
  pub lex_curr_pos : ℕ
  pub lex_last_pos : ℕ
  pub lex_last_action : ℤ
  pub lex_eof_reached : Bool
  pub lex_mem : List ℤ

-- struct lexing_table: what Short reads, a signed number, at a state or at a base plus a character.
pub record LexingTable : Type 0 where
  pub lex_base : ℕ → ℤ
  pub lex_backtrk : ℕ → ℤ
  pub lex_default : ℕ → ℤ
  pub lex_trans : ℕ → ℤ
  pub lex_check : ℕ → ℤ
  pub lex_base_code : ℕ → ℤ
  pub lex_backtrk_code : ℕ → ℤ
  pub lex_default_code : ℕ → ℤ
  pub lex_trans_code : ℤ → ℤ
  pub lex_check_code : ℤ → ℤ
  pub lex_code : List ℕ

-- What an engine returns: the number of an action; `-state - 1`, which asks for a refill; or the
-- failure "lexing: empty token". `out_of_fuel` is no return of the code.
pub data Lexed : Type 0 where
  token : ℤ → LexerBuffer → Lexed
  refill : ℕ → LexerBuffer → Lexed
  empty_token : LexerBuffer → Lexed
  out_of_fuel : Lexed

-- What one turn of `while(1)` does: go on in a state, or return.
pub data Turn : Type 0 where
  go_on : ℕ → LexerBuffer → Turn
  return : Lexed → Turn

unfoldable pub is_state : ℤ → ℕ → Bool
is_state (pos n) state = n == state
is_state (negsuc n) state = false

-- "See if it's a backtrack point".
unfoldable pub mark : ℤ → LexerBuffer → LexerBuffer
mark (pos n) b = record b { lex_last_pos = b.lex_curr_pos; lex_last_action = pos n }
mark (negsuc n) b = b

-- "Read next input char".
unfoldable pub read_char : LexerBuffer → ℕ × LexerBuffer
read_char b = (b.lex_buffer b.lex_curr_pos, record b { lex_curr_pos = b.lex_curr_pos + 1 })

-- "Determine next state".
unfoldable pub next_state : LexingTable → ℕ → ℕ → ℕ → ℤ
unfolding is_state
next_state t base state c =
    if is_state (t.lex_check (base + c)) state then t.lex_trans (base + c) else t.lex_default state

-- "If no transition on this char, return to last backtrack point".
unfoldable pub backtrack : LexerBuffer → Lexed
backtrack b =
    let b' = record b { lex_curr_pos = b.lex_last_pos } in
    elim b.lex_last_action [
      | pos n ↦ token (pos n) b'
      | negsuc n ↦ elim n [ zero ↦ empty_token b' | suc k ↦ token (negsuc (suc k)) b' ]
    ]

-- "Erase the EOF condition only if the EOF pseudo-character was consumed by the automaton".
unfoldable pub erase_eof : ℕ → LexerBuffer → LexerBuffer
erase_eof c b = if c == 256 then record b { lex_eof_reached = false } else b

-- The part of a turn from the character on.
unfoldable pub advance : LexingTable → ℕ → ℕ → ℕ × LexerBuffer → Turn
unfolding next_state backtrack erase_eof
advance t base state (c, b) = elim (next_state t base state c) [
  | pos state' ↦ go_on state' (erase_eof c b)
  | negsuc n ↦ return (backtrack b)
]

-- One turn of the loop of caml_lex_engine_r.
unfoldable pub lex_turn : LexingTable → ℕ → LexerBuffer → Turn
unfolding mark read_char advance
lex_turn t state b = elim (t.lex_base state) [
  | negsuc n ↦ return (token (pos n) b)
  | pos base ↦
      let b' = mark (t.lex_backtrk state) b in
      if ltb b'.lex_curr_pos b'.lex_buffer_len
      then advance t base state (read_char b')
      else if b'.lex_eof_reached
      then advance t base state (256, b')
      else return (refill state b')
]

-- `while(1)`, with fuel.
unfoldable pub lex_loop : (ℕ → LexerBuffer → Turn) → ℕ → ℕ → LexerBuffer → Lexed
lex_loop turn zero state b = out_of_fuel
lex_loop turn (suc fuel) state b = elim (turn state b) [
  | go_on state' b' ↦ lex_loop turn fuel state' b'
  | return r ↦ r
]

-- A turn that goes on reads a byte of the buffer or takes the end of the input away.
abbrev pub turns_left : LexerBuffer → ℕ
turns_left b = b.lex_buffer_len - b.lex_curr_pos + (if b.lex_eof_reached then 1 else 0)

-- "First entry".
unfoldable pub first_entry : LexerBuffer → LexerBuffer
first_entry b = record b {
  lex_start_pos = b.lex_curr_pos;
  lex_last_pos = b.lex_curr_pos;
  lex_last_action = negsuc 0;
}

-- The entry of both engines: a start state, or `-state - 1` after a refill.
unfoldable pub enter_state : (ℕ → LexerBuffer → Turn) → ℤ → LexerBuffer → Lexed
unfolding lex_loop first_entry
enter_state turn (pos state) b =
    let b' = first_entry b in lex_loop turn (suc (turns_left b')) state b'
enter_state turn (negsuc state) b = lex_loop turn (suc (turns_left b)) state b

-- caml_lex_engine_r.
unfoldable pub lex_engine : LexingTable → ℤ → LexerBuffer → Lexed
unfolding lex_turn enter_state
lex_engine t start_state b = enter_state (lex_turn t) start_state b
