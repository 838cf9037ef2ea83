-- ===== src/Lexing/Forget.antt =====
-- The two engines of byterun/lexing.c against each other.
use ocaml.Common.{
  ℕ, zero, suc, ◌≡◌, refl, ap, ◌∙◌, Bool, true, false, [], ltb, if◌then◌else◌, arith,
}
use ocaml.Common.Int.{ℤ, pos, negsuc}
use ocaml.Lexing.Engine.{
  LexerBuffer, LexingTable, Lexed, token, refill, empty_token, out_of_fuel, Turn, go_on, return,
  mark, read_char, next_state, backtrack, erase_eof, advance, lex_turn, lex_loop, turns_left,
  first_entry, enter_state, lex_engine,
}
use ocaml.Lexing.Memory.{
  run_tag, run_mem, mark_tag, transition_code, moves, advance_mem, new_lex_turn, new_lex_engine,
}

-- A lexer buffer and a result without the memory.
abbrev pub without_mem : LexerBuffer → LexerBuffer
without_mem b = record b { lex_mem = [] }

unfoldable pub forget : Lexed → Lexed
forget (token n b) = token n (without_mem b)
forget (refill state b) = refill state (without_mem b)
forget (empty_token b) = empty_token (without_mem b)
forget out_of_fuel = out_of_fuel

forget_turn : Turn → Turn
unfolding forget
forget_turn (go_on state b) = go_on state (without_mem b)
forget_turn (return r) = return (forget r)

moves-without_mem :
    (t : LexingTable) (i : ℤ) (b : LexerBuffer) → without_mem (moves t i b) ≡ without_mem b
unfolding moves run_mem
moves-without_mem t (pos zero) b = refl
moves-without_mem t (pos (suc n)) b = refl
moves-without_mem t (negsuc n) b = refl

mark_tag-without_mem :
    (t : LexingTable) (state : ℕ) (i : ℤ) (b : LexerBuffer)
    → without_mem (mark_tag t state i b) ≡ mark i (without_mem b)
unfolding mark_tag mark run_tag
mark_tag-without_mem t state (pos n) b = refl
mark_tag-without_mem t state (negsuc n) b = refl

erase_eof-without_mem :
    (c : ℕ) (b : LexerBuffer) → without_mem (erase_eof c b) ≡ erase_eof c (without_mem b)
unfolding erase_eof
erase_eof-without_mem c b = ground arith

backtrack-forget : (b : LexerBuffer) → forget (backtrack b) ≡ backtrack (without_mem b)
unfolding backtrack forget
backtrack-forget b = ground arith

advance_mem-forget :
    (t : LexingTable) (base state c : ℕ) (b : LexerBuffer)
    → forget_turn (advance_mem t base state (c, b)) ≡ advance t base state (c, without_mem b)
unfolding advance_mem advance forget_turn
advance_mem-forget t base state c b = go (next_state t base state c)
  where
    go :
        (i : ℤ)
        → forget_turn (elim i [
          | pos s ↦ go_on s (erase_eof c (moves t (transition_code t state c) b))
          | negsuc n ↦ return (backtrack b)
        ])
          ≡ (elim i [
            | pos s ↦ go_on s (erase_eof c (without_mem b))
            | negsuc n ↦ return (backtrack (without_mem b))
          ])
    go (pos s) = ap (go_on s) (
        erase_eof-without_mem c (moves t (transition_code t state c) b)
        ∙ ap (erase_eof c) (moves-without_mem t (transition_code t state c) b))
    go (negsuc n) = ap return (backtrack-forget b)

new_lex_turn-forget :
    (t : LexingTable) (state : ℕ) (b : LexerBuffer)
    → forget_turn (new_lex_turn t state b) ≡ lex_turn t state (without_mem b)
unfolding new_lex_turn lex_turn forget_turn forget run_tag read_char
new_lex_turn-forget t state b =
    let b1 = mark_tag t state (t.lex_backtrk state) b in
    let marked = mark_tag-without_mem t state (t.lex_backtrk state) b in
    go (t.lex_base state) (ltb b1.lex_curr_pos b1.lex_buffer_len) b1.lex_eof_reached b1
    ∙ ap
        (λ y. elim (t.lex_base state) [
          | negsuc n ↦ return (token (pos n) (without_mem b))
          | pos base ↦
              if ltb y.lex_curr_pos y.lex_buffer_len
              then advance t base state (read_char y)
              else if y.lex_eof_reached
              then advance t base state (256, y)
              else return (refill state y)
        ])
        marked
  where
    go :
        (i : ℤ) (unread eof : Bool) (b1 : LexerBuffer)
        → forget_turn (elim i [
          | negsuc n ↦ return (token (pos n) (run_tag t (t.lex_base_code state) b))
          | pos base ↦
              if unread
              then advance_mem t base state (read_char b1)
              else if eof
              then advance_mem t base state (256, b1)
              else return (refill state b1)
        ])
          ≡ (elim i [
            | negsuc n ↦ return (token (pos n) (without_mem b))
            | pos base ↦
                if unread
                then advance t base state (read_char (without_mem b1))
                else if eof
                then advance t base state (256, without_mem b1)
                else return (refill state (without_mem b1))
          ])
    go (negsuc n) unread eof b1 = refl
    go (pos base) true eof b1 = advance_mem-forget t base state (read_char b1).0 (read_char b1).1
    go (pos base) false true b1 = advance_mem-forget t base state 256 b1
    go (pos base) false false b1 = refl

lex_loop-forget :
    (t : LexingTable) (f state : ℕ) (b : LexerBuffer)
    → forget (lex_loop (new_lex_turn t) f state b) ≡ lex_loop (lex_turn t) f state (without_mem b)
unfolding lex_loop forget forget_turn
lex_loop-forget t zero state b = refl
lex_loop-forget t (suc f) state b =
    go (new_lex_turn t state b) (lex_turn t state (without_mem b)) (new_lex_turn-forget t state b)
      (λ s b'. lex_loop-forget t f s b')
  where
    go :
        (x y : Turn)
        → forget_turn x ≡ y
        → ((s : ℕ) (b' : LexerBuffer)
            → forget (lex_loop (new_lex_turn t) f s b')
              ≡ lex_loop (lex_turn t) f s (without_mem b'))
        → forget (elim x [ go_on s b' ↦ lex_loop (new_lex_turn t) f s b' | return r ↦ r ])
          ≡ (elim y [ go_on s b' ↦ lex_loop (lex_turn t) f s b' | return r ↦ r ])
    go (go_on s b') y e rest =
        rest s b' ∙ ap (λ y. elim y [ go_on s b' ↦ lex_loop (lex_turn t) f s b' | return r ↦ r ]) e
    go (return r) y e rest =
        ap (λ y. elim y [ go_on s b' ↦ lex_loop (lex_turn t) f s b' | return r ↦ r ]) e

-- caml_new_lex_engine_r returns what caml_lex_engine_r returns on the buffer without its memory, but
-- for the memory: the moves of positions change neither the action nor the positions of the buffer.
pub new_lex_engine-forget :
    (t : LexingTable) (start : ℤ) (b : LexerBuffer)
    → forget (new_lex_engine t start b) ≡ lex_engine t start (without_mem b)
unfolding new_lex_engine lex_engine enter_state first_entry
new_lex_engine-forget t (pos state) b =
    let b0 = first_entry b in lex_loop-forget t (suc (turns_left b0)) state b0
new_lex_engine-forget t (negsuc state) b = lex_loop-forget t (suc (turns_left b)) state b
