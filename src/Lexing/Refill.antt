-- ===== src/Lexing/Refill.antt =====
-- Refills of the engines of byterun/lexing.c.
use ocaml.Common.{
  ℕ, zero, suc, ◌+◌, ◌≤◌, ◌<◌, ◌≡◌, inl, inr, refl, sym, ap, subst, ◌∙◌, false, arith,
}
use ocaml.Common.Int.{ℤ, pos, negsuc}
use ocaml.Lexing.Engine.{
  LexerBuffer, LexingTable, refill, go_on, return, mark, read_char, backtrack, erase_eof, advance,
  lex_turn, lex_loop, turns_left, first_entry, enter_state, lex_engine,
}
use ocaml.Lexing.Turns.{
  ℤ-cases, advance-shrinks, mark-turns_left, lex_turn-Shrinks, lex_loop-enough, lex_loop-turn,
  mark-eof, mark-Unread, erase_eof-Unread, erase_eof-eof, lex_turn-reads, lex_turn-read,
  lex_loop-go, lex_loop-same, lex_loop-empty, lex_turn-mark,
}

-- After a refill: `n` bytes in the buffer, which holds `bytes`.
abbrev pub refilled : (ℕ → ℕ) → ℕ → LexerBuffer → LexerBuffer
refilled bytes n b = record b { lex_buffer = bytes; lex_buffer_len = n }

-- A refill leaves the bytes that are there and puts others behind them.
abbrev pub Extends : (ℕ → ℕ) → ℕ → LexerBuffer → Type 0
Extends bytes n b =
    (b.lex_buffer_len ≤ n) × ((i : ℕ) → i < b.lex_buffer_len → bytes i ≡ b.lex_buffer i)

module _ (t : LexingTable) (bytes : ℕ → ℕ) (n : ℕ) where
  advance-refilled :
      (base state c state' : ℕ) (b b' : LexerBuffer)
      → advance t base state (c, b) ≡ go_on state' b'
      → advance t base state (c, refilled bytes n b) ≡ go_on state' (refilled bytes n b')
  unfolding advance erase_eof
  advance-refilled base state c state' b b' e = ground arith

  mark-refilled :
      (i : ℤ) (b : LexerBuffer) → mark i (refilled bytes n b) ≡ refilled bytes n (mark i b)
  unfolding mark
  mark-refilled (pos k) b = refl
  mark-refilled (negsuc k) b = refl

  mark-twice :
      (i : ℤ) (b : LexerBuffer) → mark i (refilled bytes n (mark i b)) ≡ refilled bytes n (mark i b)
  unfolding mark
  mark-twice (pos k) b = refl
  mark-twice (negsuc k) b = refl

  lex_turn-refilled :
      (state state' : ℕ) (b b' : LexerBuffer)
      → Extends bytes n b
      → b.lex_eof_reached ≡ false
      → lex_turn t state b ≡ go_on state' b'
      → (lex_turn t state (refilled bytes n b) ≡ go_on state' (refilled bytes n b'))
        × (b'.lex_eof_reached ≡ false)
        × Extends bytes n b'
  unfolding lex_turn read_char
  lex_turn-refilled state state' b b' more eof e =
      let i = t.lex_backtrk state in
      let (base, eb, h, ea) = lex_turn-reads t state state' b b' eof e in
      let b1 = mark i b in
      let unread = mark-Unread i b in
      let same = mark-refilled i b in
      let fits : b1.lex_curr_pos < n = omega (arith, more.0, h, unread.1) in
      let byte : bytes b1.lex_curr_pos ≡ b1.lex_buffer b1.lex_curr_pos =
        more.1 b1.lex_curr_pos (omega (arith, h, unread.1))
        ∙ ap (λ f. f b1.lex_curr_pos) (sym unread.0) in
      let b2 = record b1 { lex_curr_pos = b1.lex_curr_pos + 1 } in
      let after : b' ≡ erase_eof (b1.lex_buffer b1.lex_curr_pos) b2 =
        advance-shrinks t base state (b1.lex_buffer b1.lex_curr_pos) state' b2 b' ea in
      let left = erase_eof-Unread (b1.lex_buffer b1.lex_curr_pos) b2 in
      let length_kept : b'.lex_buffer_len ≡ b.lex_buffer_len =
        ap (λ x. x.lex_buffer_len) after ∙ left.1 ∙ unread.1 in
      let bytes_kept : b'.lex_buffer ≡ b.lex_buffer =
        ap (λ x. x.lex_buffer) after ∙ left.0 ∙ unread.0 in
      let read : lex_turn t state (refilled bytes n b)
          ≡ advance t base state (bytes b1.lex_curr_pos, refilled bytes n b2) =
        lex_turn-read t state base (refilled bytes n b) eb
          (subst (λ x. x.lex_curr_pos < x.lex_buffer_len) (sym same) fits)
        ∙ ap (λ x. advance t base state (read_char x)) same in
      (
        read
            ∙ ap (λ c. advance t base state (c, refilled bytes n b2)) byte
            ∙ advance-refilled base state (b1.lex_buffer b1.lex_curr_pos) state' b2 b' ea,
        ap (λ x. x.lex_eof_reached) after
            ∙ erase_eof-eof (b1.lex_buffer b1.lex_curr_pos) b2 (mark-eof i b ∙ eof),
        (
          omega (arith, more.0, length_kept),
          λ k hk. more.1 k (omega (arith, hk, length_kept)) ∙ ap (λ f. f k) (sym bytes_kept),
        ),
      )

  lex_turn-again :
      (state state' : ℕ) (b b' : LexerBuffer)
      → lex_turn t state b ≡ return (refill state' b')
      → ((base : ℕ) × (t.lex_base state ≡ pos base))
        × (state' ≡ state)
        × (b' ≡ mark (t.lex_backtrk state) b)
  unfolding lex_turn advance backtrack
  lex_turn-again state state' b b' e = elim (ℤ-cases (t.lex_base state)) [
    | inl (base, eb) ↦ ((base, eb), ground arith, ground arith)
    | inr (k, eb) ↦ absurd (ground arith)
  ]

  loop-refilled :
      (f F G state state' : ℕ) (b b' : LexerBuffer)
      → Extends bytes n b
      → b.lex_eof_reached ≡ false
      → lex_loop (lex_turn t) f state b ≡ refill state' b'
      → turns_left (refilled bytes n b) < F
      → turns_left (refilled bytes n b') < G
      → lex_loop (lex_turn t) F state (refilled bytes n b)
        ≡ lex_loop (lex_turn t) G state' (refilled bytes n b')
  loop-refilled zero F G state state' b b' more eof e hF hG =
      absurd (lex_loop-empty (lex_turn t) state state' b b' e)
  loop-refilled (suc f) zero G state state' b b' more eof e hF hG = absurd (omega arith)
  loop-refilled (suc f) (suc F) G state state' b b' more eof e hF hG =
      elim (lex_loop-turn (lex_turn t) f state b (refill state' b') e) [
        | inl (state1, b1, et, el) ↦
            let (er, eof1, more1) = lex_turn-refilled state state1 b b1 more eof et in
            let less =
              lex_turn-Shrinks t state state1 (refilled bytes n b) (refilled bytes n b1) er in
            lex_loop-go (lex_turn t) F state state1 (refilled bytes n b) (refilled bytes n b1) er
            ∙ loop-refilled f F G state1 state' b1 b' more1 eof1 el (omega arith) hG
        | inr et ↦
            let ((base, eb), es, em) = lex_turn-again state state' b b' et in
            let i = t.lex_backtrk state in
            let marked : mark i (refilled bytes n b') ≡ mark i (refilled bytes n b) =
              ap (λ x. mark i (refilled bytes n x)) em ∙ mark-twice i b ∙ sym (mark-refilled i b) in
            let left : turns_left (refilled bytes n b') ≡ turns_left (refilled bytes n b) =
              sym (mark-turns_left i (refilled bytes n b'))
              ∙ ap turns_left marked
              ∙ mark-turns_left i (refilled bytes n b) in
            lex_loop-same (lex_turn t) F state (refilled bytes n b) (refilled bytes n b') (
              sym (lex_turn-mark t state base (refilled bytes n b') (refilled bytes n b) eb marked))
            ∙ ap (λ s. lex_loop (lex_turn t) (suc F) s (refilled bytes n b')) (sym es)
            ∙ lex_loop-enough (lex_turn t) (lex_turn-Shrinks t) (suc F) G state'
                (refilled bytes n b') (omega (arith, left)) hG
      ]

-- When caml_lex_engine_r, entered at a start state before the end of the input, asks for a refill, and
-- the refill leaves the bytes in the buffer and puts more behind them, then entering it again with the
-- number that it returned gives what one run over all the bytes gives.
pub lex_engine-refilled :
    (t : LexingTable) (start state : ℕ) (b b' : LexerBuffer) (bytes : ℕ → ℕ) (n : ℕ)
    → Extends bytes n b
    → b.lex_eof_reached ≡ false
    → lex_engine t (pos start) b ≡ refill state b'
    → lex_engine t (negsuc state) (refilled bytes n b')
      ≡ lex_engine t (pos start) (refilled bytes n b)
unfolding lex_engine enter_state first_entry
lex_engine-refilled t start state b b' bytes n more eof e =
    let b0 = first_entry b in
    sym (
      loop-refilled t bytes n (suc (turns_left b0)) (suc (turns_left (refilled bytes n b0)))
        (suc (turns_left (refilled bytes n b'))) start state b0 b' more eof e (omega arith)
        (omega arith))
