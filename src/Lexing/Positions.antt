-- ===== src/Lexing/Positions.antt =====
-- The positions that caml_lex_engine_r of byterun/lexing.c leaves in the buffer.
use ocaml.Common.{ℕ, zero, suc, ◌≤◌, ◌<◌, ◌≡◌, refl, Bool, true, false, ltb, if◌then◌else◌, arith}
use ocaml.Common.Int.{ℤ, pos, negsuc}
use ocaml.Lexing.Engine.{
  LexerBuffer, LexingTable, Lexed, token, refill, empty_token, out_of_fuel, Turn, go_on, return,
  mark, read_char, next_state, backtrack, erase_eof, advance, lex_turn, lex_loop, turns_left,
  first_entry, enter_state, lex_engine,
}
use ocaml.Lexing.Turns.{lex_turn-Shrinks}

-- The positions are in order, from `first` to the length `n` of the buffer.
abbrev pub IsPlaced : ℕ → ℕ → LexerBuffer → Type 0
IsPlaced first n b =
    (b.lex_start_pos ≡ first)
    × (first ≤ b.lex_last_pos)
    × (b.lex_last_pos ≤ b.lex_curr_pos)
    × (b.lex_curr_pos ≤ n)
    × (b.lex_buffer_len ≡ n)

-- The engine has returned a lexeme from `first` on that ends in the buffer; or it asks for a refill, all of
-- the buffer read; or it has failed on an empty token, with the same bounds as for a lexeme.
abbrev pub IsLexed : ℕ → ℕ → Lexed → Type 0
IsLexed first n (token action b) =
    (b.lex_start_pos ≡ first) × (first ≤ b.lex_curr_pos) × (b.lex_curr_pos ≤ n)
IsLexed first n (refill state b) = IsPlaced first n b × (b.lex_curr_pos ≡ n)
IsLexed first n (empty_token b) =
    (b.lex_start_pos ≡ first) × (first ≤ b.lex_curr_pos) × (b.lex_curr_pos ≤ n)
IsLexed first n out_of_fuel = 1 ≤ 0

abbrev IsPlacedTurn : ℕ → ℕ → Turn → Type 0
IsPlacedTurn first n (go_on state b) = IsPlaced first n b
IsPlacedTurn first n (return r) = IsLexed first n r

mark-IsPlaced :
    (first n : ℕ) (i : ℤ) (b : LexerBuffer) → IsPlaced first n b → IsPlaced first n (mark i b)
unfolding mark
mark-IsPlaced first n (pos k) b h =
    (omega arith, omega arith, omega arith, omega arith, omega arith)
mark-IsPlaced first n (negsuc k) b h = h

erase_eof-IsPlaced :
    (first n c : ℕ) (b : LexerBuffer) → IsPlaced first n b → IsPlaced first n (erase_eof c b)
unfolding erase_eof
erase_eof-IsPlaced first n c b h = ground arith

backtrack-IsLexed :
    (first n : ℕ) (b : LexerBuffer) → IsPlaced first n b → IsLexed first n (backtrack b)
unfolding backtrack
backtrack-IsLexed first n b h =
    go b.lex_last_action (record b { lex_curr_pos = b.lex_last_pos }) (h.0, h.1, omega arith)
  where
    go :
        (i : ℤ) (b' : LexerBuffer)
        → (b'.lex_start_pos ≡ first) × (first ≤ b'.lex_curr_pos) × (b'.lex_curr_pos ≤ n)
        → IsLexed first n (elim i [
          | pos k ↦ token (pos k) b'
          | negsuc k ↦ elim k [ zero ↦ empty_token b' | suc m ↦ token (negsuc (suc m)) b' ]
        ])
    go (pos k) b' h = h
    go (negsuc zero) b' h = h
    go (negsuc (suc m)) b' h = h

advance-IsPlacedTurn :
    (t : LexingTable) (first n base state c : ℕ) (b : LexerBuffer)
    → IsPlaced first n b
    → IsPlacedTurn first n (advance t base state (c, b))
unfolding advance
advance-IsPlacedTurn t first n base state c b h = go (next_state t base state c)
  where
    go :
        (i : ℤ)
        → IsPlacedTurn first n
            (elim i [ pos s ↦ go_on s (erase_eof c b) | negsuc k ↦ return (backtrack b) ])
    go (pos s) = erase_eof-IsPlaced first n c b h
    go (negsuc k) = backtrack-IsLexed first n b h

lex_turn-IsPlacedTurn :
    (t : LexingTable) (first n state : ℕ) (b : LexerBuffer)
    → IsPlaced first n b
    → IsPlacedTurn first n (lex_turn t state b)
unfolding lex_turn read_char
lex_turn-IsPlacedTurn t first n state b h =
    let b1 = mark (t.lex_backtrk state) b in
    go (t.lex_base state) b1 (mark-IsPlaced first n (t.lex_backtrk state) b h)
      (ltb b1.lex_curr_pos b1.lex_buffer_len) b1.lex_eof_reached refl
  where
    go :
        (i : ℤ) (b1 : LexerBuffer)
        → IsPlaced first n b1
        → (unread eof : Bool) → ltb b1.lex_curr_pos b1.lex_buffer_len ≡ unread
        → IsPlacedTurn first n (elim i [
          | negsuc k ↦ return (token (pos k) b)
          | pos base ↦
              if unread
              then advance t base state (read_char b1)
              else if eof
              then advance t base state (256, b1)
              else return (refill state b1)
        ])
    go (negsuc k) b1 h1 unread eof e = (h.0, omega arith, h.3)
    go (pos base) b1 h1 true eof e =
        advance-IsPlacedTurn t first n base state (read_char b1).0 (read_char b1).1
          (h1.0, h1.1, omega arith, ground arith, omega arith)
    go (pos base) b1 h1 false true e = advance-IsPlacedTurn t first n base state 256 b1 h1
    go (pos base) b1 h1 false false e = (h1, ground arith)

lex_loop-IsLexed :
    (t : LexingTable) (first n f state : ℕ) (b : LexerBuffer)
    → IsPlaced first n b
    → turns_left b < f
    → IsLexed first n (lex_loop (lex_turn t) f state b)
unfolding lex_loop
lex_loop-IsLexed t first n zero state b h enough = absurd (omega arith)
lex_loop-IsLexed t first n (suc f) state b h enough =
    go (lex_turn t state b) refl (lex_turn-IsPlacedTurn t first n state b h)
      (λ s b' h' less. lex_loop-IsLexed t first n f s b' h' (omega arith))
  where
    go :
        (x : Turn)
        → lex_turn t state b ≡ x
        → IsPlacedTurn first n x
        → ((s : ℕ) (b' : LexerBuffer)
            → IsPlaced first n b'
            → turns_left b' < turns_left b
            → IsLexed first n (lex_loop (lex_turn t) f s b'))
        → IsLexed first n (elim x [ go_on s b' ↦ lex_loop (lex_turn t) f s b' | return r ↦ r ])
    go (go_on s b') e placed rest = rest s b' placed (lex_turn-Shrinks t state s b b' e)
    go (return r) e placed rest = placed

-- caml_lex_engine_r, entered at a start state with the current position in the buffer, ends within its
-- fuel: with a lexeme that starts there and ends no earlier and within the buffer; or, asking for a
-- refill, with all of the buffer read and the positions in order; or with the failure of an empty token,
-- where the start and the current position are placed as for a lexeme.
pub lex_engine-IsLexed :
    (t : LexingTable) (start : ℕ) (b : LexerBuffer)
    → b.lex_curr_pos ≤ b.lex_buffer_len
    → IsLexed b.lex_curr_pos b.lex_buffer_len (lex_engine t (pos start) b)
unfolding lex_engine enter_state first_entry
lex_engine-IsLexed t start b h =
    let b0 = first_entry b in
    lex_loop-IsLexed t b.lex_curr_pos b.lex_buffer_len (suc (turns_left b0)) start b0
      (refl, omega arith, omega arith, h, refl) (omega arith)

-- Entered again after a refill, with positions in order and in the buffer, it ends in the same ways, the
-- failure of an empty token included, with a lexeme that starts where it did before.
lex_engine-IsLexed_again :
    (t : LexingTable) (first state : ℕ) (b : LexerBuffer)
    → IsPlaced first b.lex_buffer_len b
    → IsLexed first b.lex_buffer_len (lex_engine t (negsuc state) b)
unfolding lex_engine enter_state
lex_engine-IsLexed_again t first state b h =
    lex_loop-IsLexed t first b.lex_buffer_len (suc (turns_left b)) state b h (omega arith)
