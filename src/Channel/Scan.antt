-- ===== src/Channel/Scan.antt =====
-- The invariant of the search for the end of a line of byterun/io.c, and the test of its loop.
use ocaml.Common.{
  ℕ, zero, suc, ◌+◌, ◌-◌, ◌≤◌, ◌<◌, ◌≡◌, ◌≢◌, ◌⊎◌, refl, sym, ap, subst, ◌∙◌, Bool, true, false,
  List, [], ◌∷◌, ◌==◌, if◌then◌else◌, length, take, drop, length-take, length-drop, drop-take,
  drop-drop, arith,
}
use ocaml.Channel.Input.{In, Outcome, yields, halted, exhausted, first_byte, pos_in}
use ocaml.Channel.Block.{IsIn, buffered}
use ocaml.Channel.Line.{Scan, line, no_line, further, test_newline}

-- No byte is a newline.
abbrev pub NoNewline : List ℕ → Type 0
NoNewline [] = Unit
NoNewline (b ∷ bytes) = (b ≢ 10) × NoNewline bytes

take-NoNewline :
    (k : ℕ) (bytes : List ℕ)
    → k < length bytes
    → NoNewline (take k bytes)
    → first_byte (drop k bytes) ≢ 10
    → NoNewline (take (suc k) bytes)
take-NoNewline k [] h none ne = absurd (omega arith)
take-NoNewline zero (b ∷ bytes) h none ne = (ne, tt)
take-NoNewline (suc k) (b ∷ bytes) h none ne =
    (none.0, take-NoNewline k bytes (omega arith) none.1 ne)

first_byte-take : (n : ℕ) (bytes : List ℕ) → 0 < n → first_byte (take n bytes) ≡ first_byte bytes
first_byte-take zero bytes h = absurd (omega arith)
first_byte-take (suc n) [] h = refl
first_byte-take (suc n) (b ∷ bytes) h = refl

module _ (size : ℕ) (file : List ℕ) where
  -- The end of a scan: with the length of the line, which is in the buffer whole; or without a newline,
  -- where the buffer is full or holds the file up to its end. The position is what it was.
  abbrev pub Scans : In → Outcome Scan → Type 0
  Scans s (yields (line n) s') =
      (NoNewline (take (n - 1) (drop (pos_in s) file)))
      × (first_byte (drop (n - 1) (drop (pos_in s) file)) ≡ 10)
      × (0 < n)
      × (s'.curr + n ≤ length s'.buff)
      × (pos_in s' ≡ pos_in s)
      × IsIn size file s'
  Scans s (yields (no_line n) s') =
      (NoNewline (take n (drop (pos_in s) file)))
      × (s'.curr + n ≡ length s'.buff)
      × ((n ≡ size) ⊎ (length file ≤ pos_in s + n))
      × (pos_in s' ≡ pos_in s)
      × IsIn size file s'
  Scans s (yields (further p) s') = ⊥
  Scans s (halted halt s') = (pos_in s' ≡ pos_in s) × IsIn size file s'
  Scans s exhausted = ⊥

  -- A turn of the loop that has seen k bytes, which may also go on with one more seen.
  unfoldable pub Searches : ℕ → In → Outcome Scan → Type 0
  Searches k s (yields (line n) s') = Scans s (yields (line n) s')
  Searches k s (yields (no_line n) s') = Scans s (yields (no_line n) s')
  Searches k s (yields (further p') s') =
      (NoNewline (take (p' - s'.curr) (drop (pos_in s) file)))
      × (p' - s'.curr ≡ suc k)
      × (s'.curr ≤ p')
      × (p' ≤ length s'.buff)
      × (pos_in s' ≡ pos_in s)
      × IsIn size file s'
  Searches k s (halted halt s') = Scans s (halted halt s')
  Searches k s exhausted = ⊥

  -- Where the loop stands: s₀ is the channel at the call.
  pub record Seen (s₀ : In) (p : ℕ) (s : In) : Type 0 where
    pub within : IsIn size file s
    pub from : s.curr ≤ p
    pub upto : p ≤ length s.buff
    pub at : pos_in s ≡ pos_in s₀
    pub none_yet : NoNewline (take (p - s.curr) (drop (pos_in s₀) file))

  pub test_newline-Searches :
      (s₀ : In) (k₀ p : ℕ) (s : In)
      → Seen s₀ p s
      → p < length s.buff
      → p - s.curr ≡ k₀
      → Searches k₀ s₀ (test_newline p s)
  unfolding test_newline Searches
  test_newline-Searches s₀ k₀ p s h more same = go (first_byte (drop p s.buff) == 10) refl
    where
      k : ℕ
      k = p - s.curr

      rest : List ℕ
      rest = drop (pos_in s₀) file

      seen : drop s.curr s.buff ≡ take (length s.buff - s.curr) rest
      seen =
          buffered size file s h.within ∙ ap (λ x. take (length s.buff - s.curr) (drop x file)) h.at

      place : s.curr + k ≡ p
      place = omega (arith, h.from)

      byte : first_byte (drop p s.buff) ≡ first_byte (drop k rest)
      byte =
          ap (λ x. first_byte (drop x s.buff)) (sym place)
          ∙ ap first_byte (sym (drop-drop k s.curr s.buff))
          ∙ ap (λ x. first_byte (drop k x)) seen
          ∙ ap first_byte (drop-take k (length s.buff - s.curr) rest (omega (arith, more, place)))
          ∙ first_byte-take (length s.buff - s.curr - k) (drop k rest) (omega (arith, more, place))

      there : k < length rest
      there = omega (
        arith,
        more,
        place,
        ap length seen,
        length-drop s.curr s.buff,
        length-take (length s.buff - s.curr) rest,
      )

      go :
          (b : Bool)
          → (first_byte (drop p s.buff) == 10) ≡ b
          → Searches k₀ s₀
              (if b then yields (line (p + 1 - s.curr)) s else yields (further (p + 1)) s)
      go true e =
          let last : p + 1 - s.curr - 1 ≡ k = omega (arith, h.from) in
          (
            subst (λ x. NoNewline (take x rest)) (sym last) h.none_yet,
            ap (λ x. first_byte (drop x rest)) last ∙ sym byte ∙ ground arith,
            omega (arith, h.from),
            omega (arith, h.from, more),
            h.at,
            h.within,
          )
      go false e =
          let next : p + 1 - s.curr ≡ suc k = omega (arith, h.from) in
          (
            subst (λ x. NoNewline (take x rest)) (sym next)
                (take-NoNewline k rest there h.none_yet
                  (λ e'. absurd (ground (arith, byte, e', e)))),
            omega (arith, next, same),
            omega (arith, h.from),
            omega (arith, more),
            h.at,
            h.within,
          )
