-- ===== src/Lexing/Turns.antt =====
-- The loop of the engines of byterun/lexing.c: what a turn does, and how many there are.
use ocaml.Common.{ℕ, zero, suc, ◌<◌, ◌≡◌, ◌≢◌, ◌⊎◌, inl, inr, refl, ap, true, false, arith}
use ocaml.Common.Int.{ℤ, pos, negsuc}
use ocaml.Lexing.Engine.{
  LexerBuffer, LexingTable, Lexed, refill, Turn, go_on, return, mark, read_char, erase_eof, advance,
  lex_turn, lex_loop, turns_left,
}

pub ℤ-cases : (i : ℤ) → ((n : ℕ) × (i ≡ pos n)) ⊎ ((n : ℕ) × (i ≡ negsuc n))
ℤ-cases (pos n) = inl (n, refl)
ℤ-cases (negsuc n) = inr (n, refl)

-- A turn that goes on brings the end nearer.
abbrev pub Shrinks : (ℕ → LexerBuffer → Turn) → Type 0
Shrinks turn =
    (state state' : ℕ) (b b' : LexerBuffer)
    → turn state b ≡ go_on state' b'
    → turns_left b' < turns_left b

pub advance-shrinks :
    (t : LexingTable) (base state c state' : ℕ) (b b' : LexerBuffer)
    → advance t base state (c, b) ≡ go_on state' b'
    → b' ≡ erase_eof c b
unfolding advance
advance-shrinks t base state c state' b b' e = ground arith

pub read_char-shrinks :
    (b : LexerBuffer)
    → b.lex_curr_pos < b.lex_buffer_len
    → turns_left (erase_eof (read_char b).0 (read_char b).1) < turns_left b
unfolding read_char erase_eof
read_char-shrinks b h = ground arith

pub eof-shrinks :
    (b : LexerBuffer) → b.lex_eof_reached ≡ true → turns_left (erase_eof 256 b) < turns_left b
unfolding erase_eof
eof-shrinks b h = ground arith

pub mark-turns_left : (i : ℤ) (b : LexerBuffer) → turns_left (mark i b) ≡ turns_left b
unfolding mark
mark-turns_left (pos n) b = refl
mark-turns_left (negsuc n) b = refl

pub lex_turn-Shrinks : (t : LexingTable) → Shrinks (lex_turn t)
unfolding lex_turn
lex_turn-Shrinks t state state' b b' e =
    let b1 = mark (t.lex_backtrk state) b in
    ground (
      arith,
      read_char-shrinks b1,
      eof-shrinks b1,
      mark-turns_left (t.lex_backtrk state) b,
      λ (base : ℕ). advance-shrinks t base state (read_char b1).0 state' (read_char b1).1 b',
      λ (base : ℕ). advance-shrinks t base state 256 state' b1 b',
    )

pub same_turn :
    (turn : ℕ → LexerBuffer → Turn) (f g state : ℕ) (b : LexerBuffer)
    → ((state' : ℕ) (b' : LexerBuffer)
        → turn state b ≡ go_on state' b'
        → lex_loop turn f state' b' ≡ lex_loop turn g state' b')
    → lex_loop turn (suc f) state b ≡ lex_loop turn (suc g) state b
unfolding lex_loop
same_turn turn f g state b rest = go (turn state b) rest
  where
    go :
        (r : Turn)
        → ((state' : ℕ) (b' : LexerBuffer)
            → r ≡ go_on state' b'
            → lex_loop turn f state' b' ≡ lex_loop turn g state' b')
        → (elim r [ go_on state' b' ↦ lex_loop turn f state' b' | return r ↦ r ])
          ≡ (elim r [ go_on state' b' ↦ lex_loop turn g state' b' | return r ↦ r ])
    go (return r) h = refl
    go (go_on state' b') h = h state' b' refl

pub lex_loop-enough :
    (turn : ℕ → LexerBuffer → Turn)
    → Shrinks turn
    → (f g state : ℕ) (b : LexerBuffer) → turns_left b < f
    → turns_left b < g
    → lex_loop turn f state b ≡ lex_loop turn g state b
unfolding lex_loop
lex_loop-enough turn shrinks zero g state b hf hg = absurd (omega arith)
lex_loop-enough turn shrinks (suc f) zero state b hf hg = absurd (omega arith)
lex_loop-enough turn shrinks (suc f) (suc g) state b hf hg =
    same_turn turn f g state b (λ state' b' e.
      let less = shrinks state state' b b' e in
      lex_loop-enough turn shrinks f g state' b' (omega arith) (omega arith))

-- The first turn of a loop that returns.
pub lex_loop-turn :
    (turn : ℕ → LexerBuffer → Turn) (f state : ℕ) (b : LexerBuffer) (r : Lexed)
    → lex_loop turn (suc f) state b ≡ r
    → ((state' : ℕ) × (b' : LexerBuffer) × (turn state b ≡ go_on state' b')
        × (lex_loop turn f state' b' ≡ r))
      ⊎ (turn state b ≡ return r)
unfolding lex_loop
lex_loop-turn turn f state b r = go (turn state b)
  where
    go :
        (x : Turn)
        → (elim x [ go_on state' b' ↦ lex_loop turn f state' b' | return r ↦ r ]) ≡ r
        → ((state' : ℕ) × (b' : LexerBuffer) × (x ≡ go_on state' b')
            × (lex_loop turn f state' b' ≡ r))
          ⊎ (x ≡ return r)
    go (go_on state' b') e = inl (state', b', refl, e)
    go (return r') e = inr (ap return e)

pub mark-eof : (i : ℤ) (b : LexerBuffer) → (mark i b).lex_eof_reached ≡ b.lex_eof_reached
unfolding mark
mark-eof (pos n) b = refl
mark-eof (negsuc n) b = refl

pub mark-Unread :
    (i : ℤ) (b : LexerBuffer)
    → ((mark i b).lex_buffer ≡ b.lex_buffer) × ((mark i b).lex_buffer_len ≡ b.lex_buffer_len)
unfolding mark
mark-Unread (pos n) b = (refl, refl)
mark-Unread (negsuc n) b = (refl, refl)

pub erase_eof-Unread :
    (c : ℕ) (b : LexerBuffer)
    → ((erase_eof c b).lex_buffer ≡ b.lex_buffer)
      × ((erase_eof c b).lex_buffer_len ≡ b.lex_buffer_len)
unfolding erase_eof
erase_eof-Unread c b = (ground arith, ground arith)

pub erase_eof-eof :
    (c : ℕ) (b : LexerBuffer) → b.lex_eof_reached ≡ false → (erase_eof c b).lex_eof_reached ≡ false
unfolding erase_eof
erase_eof-eof c b h = ground arith

-- A turn that goes on before the end of the input has read a byte.
pub lex_turn-reads :
    (t : LexingTable) (state state' : ℕ) (b b' : LexerBuffer)
    → b.lex_eof_reached ≡ false
    → lex_turn t state b ≡ go_on state' b'
    → (base : ℕ) × (t.lex_base state ≡ pos base)
      × ((mark (t.lex_backtrk state) b).lex_curr_pos
          < (mark (t.lex_backtrk state) b).lex_buffer_len)
      × (advance t base state (read_char (mark (t.lex_backtrk state) b)) ≡ go_on state' b')
unfolding lex_turn
lex_turn-reads t state state' b b' eof e =
    let ended = mark-eof (t.lex_backtrk state) b in
    elim (ℤ-cases (t.lex_base state)) [
      | inl (base, eb) ↦ (base, eb, ground (arith, ended), ground (arith, ended))
      | inr (k, eb) ↦ ground arith
    ]

pub lex_turn-read :
    (t : LexingTable) (state base : ℕ) (b : LexerBuffer)
    → t.lex_base state ≡ pos base
    → (mark (t.lex_backtrk state) b).lex_curr_pos < (mark (t.lex_backtrk state) b).lex_buffer_len
    → lex_turn t state b ≡ advance t base state (read_char (mark (t.lex_backtrk state) b))
unfolding lex_turn
lex_turn-read t state base b e h = ground arith

pub lex_loop-go :
    (turn : ℕ → LexerBuffer → Turn) (f state state' : ℕ) (b b' : LexerBuffer)
    → turn state b ≡ go_on state' b'
    → lex_loop turn (suc f) state b ≡ lex_loop turn f state' b'
unfolding lex_loop
lex_loop-go turn f state state' b b' e = rw (lex_loop, e) refl

pub lex_loop-same :
    (turn : ℕ → LexerBuffer → Turn) (f state : ℕ) (x y : LexerBuffer)
    → turn state x ≡ turn state y
    → lex_loop turn (suc f) state x ≡ lex_loop turn (suc f) state y
unfolding lex_loop
lex_loop-same turn f state x y e = rw (lex_loop, e) refl

pub lex_loop-empty :
    (turn : ℕ → LexerBuffer → Turn) (state state' : ℕ) (b b' : LexerBuffer)
    → lex_loop turn 0 state b ≢ refill state' b'
unfolding lex_loop
lex_loop-empty turn state state' b b' e = ground arith

pub lex_turn-mark :
    (t : LexingTable) (state base : ℕ) (x y : LexerBuffer)
    → t.lex_base state ≡ pos base
    → mark (t.lex_backtrk state) x ≡ mark (t.lex_backtrk state) y
    → lex_turn t state x ≡ lex_turn t state y
unfolding lex_turn
lex_turn-mark t state base x y e h = rw (lex_turn, e, h) refl
