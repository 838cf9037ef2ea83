-- ===== src/Channel/Scanned.antt =====
-- What the search for the end of a line of byterun/io.c finds.
use ocaml.Common.{
  ℕ, zero, suc, ◌+◌, ◌-◌, ◌≤◌, ◌<◌, ◌≡◌, ◌⊎◌, inl, inr, refl, sym, ap, subst, ◌∙◌, Bool, true,
  false, List, ◌++◌, ltb, leb, leb→le, if◌then◌else◌, length, take, drop, length-take, length-drop,
  length-append, take-add, drop-drop, arith,
}
use ocaml.Channel.Input.{
  Delivery, In, Outcome, yields, halted, exhausted, Fetch, fetched, unread, do_read, pos_in,
}
use ocaml.Channel.Block.{IsIn, answered, buffered, do_read-bounds}
use ocaml.Channel.Line.{
  Scan, line, no_line, further, shift_unread, test_newline, filled, scan_fill, scan_turn, scan_loop,
  input_scan_line,
}
use ocaml.Channel.Scan.{NoNewline, Scans, Searches, Seen, test_newline-Searches}

module _ (size : ℕ) (file : List ℕ) where
  filled-Seen :
      (s₀ : In) (p : ℕ) (s : In) (n : ℕ) (rest : List Delivery)
      → Seen size file s₀ p s
      → n ≤ size - length s.buff
      → n ≤ length file - s.offset
      → (length (filled size file s n rest).buff ≡ length s.buff + n)
        × Seen size file s₀ p (filled size file s n rest)
  unfolding filled pos_in
  filled-Seen s₀ p s n rest h small there =
      let w = h.within in
      let more = take n (drop s.offset file) in
      let more_length : length more ≡ n =
        omega (arith, length-take n (drop s.offset file), length-drop s.offset file) in
      let whole : length (s.buff ++ more) ≡ length s.buff + n =
        omega (arith, length-append s.buff more, more_length) in
      let held : length s.buff ≤ length (drop w.p file) =
        omega (arith, ap length w.part, length-take (length s.buff) (drop w.p file)) in
      (
        whole,
        record {
          within = record {
            p = w.p;
            ends = omega (arith, whole, w.ends);
            part =
                ap (λ x. x ++ more) w.part
                ∙ ap (λ x. take (length s.buff) (drop w.p file) ++ take n (drop x file))
                    (sym w.ends)
                ∙ ap (λ x. take (length s.buff) (drop w.p file) ++ take n x)
                    (sym (drop-drop (length s.buff) w.p file))
                ∙ take-add (length s.buff) n (drop w.p file) held
                ∙ ap (λ x. take x (drop w.p file)) (sym whole);
            curr_within = omega (arith, whole, w.curr_within);
            fits = omega (arith, whole, w.fits, small);
          };
          from = h.from;
          upto = omega (arith, whole, h.upto);
          at = omega (arith, whole, h.at, w.ends, w.curr_within);
          none_yet = h.none_yet;
        },
      )

  answered-Seen :
      (s₀ : In) (p : ℕ) (s : In) (rest : List Delivery)
      → Seen size file s₀ p s
      → Seen size file s₀ p (record s { answers = rest })
  unfolding pos_in
  answered-Seen s₀ p s rest h = record {
    within = answered size file s rest h.within;
    from = h.from;
    upto = h.upto;
    at = h.at;
    none_yet = h.none_yet;
  }

  scan_fill-Searches :
      (s₀ : In) (k₀ p : ℕ) (s : In)
      → Seen size file s₀ p s
      → p ≡ length s.buff
      → s.curr ≡ 0
      → p - s.curr ≡ k₀
      → Searches size file k₀ s₀ (scan_fill size file p s)
  unfolding scan_fill Searches pos_in
  scan_fill-Searches s₀ k₀ p s h all first same = go (leb size (length s.buff)) refl
    where
      seen_all : NoNewline (take (length s.buff - s.curr) (drop (pos_in s₀) file))
      seen_all = subst (λ x. NoNewline (take (x - s.curr) (drop (pos_in s₀) file))) all h.none_yet

      after :
          ltb (length s.buff) size ≡ true
          → (r : Fetch) → do_read s.answers (size - length s.buff) (length file - s.offset) ≡ r
          → Searches size file k₀ s₀ (elim r [
            | unread halt rest ↦ halted halt (record s { answers = rest })
            | fetched zero rest ↦
                yields (no_line (length s.buff - s.curr)) (record s { answers = rest })
            | fetched (suc n) rest ↦ test_newline p (filled size file s (suc n) rest)
          ])
      after room (unread halt rest) e = let h' = answered-Seen s₀ p s rest h in (h'.at, h'.within)
      after room (fetched zero rest) e =
          let bounds =
            do_read-bounds size file s.answers (size - length s.buff) (length file - s.offset) 0
              rest (ground arith) e in
          let h' = answered-Seen s₀ p s rest h in
          (seen_all, omega (arith, first), inr (ended bounds.2), h'.at, h'.within)
        where
          ended :
              (0 < 0) ⊎ (length file - s.offset ≤ 0)
              → length file ≤ pos_in s₀ + (length s.buff - s.curr)
          ended b = ground (arith, sym h.at, b, h.within.ends, h.within.curr_within)
      after room (fetched (suc n) rest) e =
          let bounds =
            do_read-bounds size file s.answers (size - length s.buff) (length file - s.offset)
              (suc n) rest (ground arith) e in
          let filled_h = filled-Seen s₀ p s (suc n) rest h bounds.0 bounds.1 in
          test_newline-Searches size file s₀ k₀ p (filled size file s (suc n) rest) filled_h.1
            (omega (arith, filled_h.0, all)) same

      go :
          (full : Bool)
          → leb size (length s.buff) ≡ full
          → Searches size file k₀ s₀ (
              if full
              then yields (no_line (length s.buff - s.curr)) s
              else (elim (do_read s.answers (size - length s.buff) (length file - s.offset)) [
                | unread halt rest ↦ halted halt (record s { answers = rest })
                | fetched zero rest ↦
                    yields (no_line (length s.buff - s.curr)) (record s { answers = rest })
                | fetched (suc n) rest ↦ test_newline p (filled size file s (suc n) rest)
              ]))
      go true e = (
        seen_all,
        omega (arith, first),
        inl (ground (arith, first, h.within.fits)),
        h.at,
        h.within,
      )
      go false e =
          after (ground arith) (do_read s.answers (size - length s.buff) (length file - s.offset))
            refl

  shift_unread-Seen :
      (s₀ : In) (p : ℕ) (s : In)
      → Seen size file s₀ p s
      → ((shift_unread s).curr ≡ 0)
        × (length (shift_unread s).buff ≡ length s.buff - s.curr)
        × Seen size file s₀ (p - s.curr) (shift_unread s)
  unfolding shift_unread pos_in
  shift_unread-Seen s₀ p s h = go (ltb 0 s.curr) refl
    where
      go :
          (some_read : Bool)
          → ltb 0 s.curr ≡ some_read
          → let s' = if some_read then record s { buff = drop s.curr s.buff; curr = 0 } else s in
            (s'.curr ≡ 0)
            × (length s'.buff ≡ length s.buff - s.curr)
            × Seen size file s₀ (p - s.curr) s'
      go true e =
          let w = h.within in
          let left = length-drop s.curr s.buff in
          let unmoved : p - s.curr ≡ p - s.curr - 0 = omega arith in
          let at : w.p + s.curr ≡ s.offset - (length s.buff - s.curr) =
            omega (arith, w.ends, w.curr_within) in
          (
            refl,
            left,
            record {
              within = record {
                p = w.p + s.curr;
                ends = omega (arith, left, w.ends, w.curr_within);
                part =
                    buffered size file s w
                    ∙ ap (λ x. take x (drop (pos_in s) file)) (sym left)
                    ∙ ap (λ x. take (length (drop s.curr s.buff)) (drop x file)) (sym at);
                curr_within = omega arith;
                fits = omega (arith, left, w.fits);
              };
              from = omega arith;
              upto = omega (arith, left, h.upto);
              at = omega (arith, left, h.at);
              none_yet = subst (λ x. NoNewline (take x (drop (pos_in s₀) file))) unmoved h.none_yet;
            },
          )
      go false e =
          let none_read : s.curr ≡ 0 = ground arith in
          let same : p - s.curr ≡ p = omega (arith, none_read) in
          (none_read, omega (arith, none_read), subst (λ x. Seen size file s₀ x s) (sym same) h)

  scan_turn-Searches :
      (s₀ : In) (p : ℕ) (s : In)
      → Seen size file s₀ p s
      → Searches size file (p - s.curr) s₀ (scan_turn size file p s)
  unfolding scan_turn
  scan_turn-Searches s₀ p s h = go (leb (length s.buff) p) refl
    where
      go :
          (all : Bool)
          → leb (length s.buff) p ≡ all
          → Searches size file
              (p - s.curr)
              s₀
              (if all then scan_fill size file (p - s.curr) (shift_unread s) else test_newline p s)
      go true e =
          let shifted = shift_unread-Seen s₀ p s h in
          let at_end : length s.buff ≤ p = leb→le (length s.buff) p e in
          scan_fill-Searches s₀ (p - s.curr) (p - s.curr) (shift_unread s) shifted.2
            (omega (arith, shifted.1, h.upto, at_end)) shifted.0 (omega (arith, shifted.0))
      go false e = test_newline-Searches size file s₀ (p - s.curr) p s h (ground arith) refl

  scan_loop-Scans :
      (s₀ : In) (fuel p : ℕ) (s : In)
      → Seen size file s₀ p s
      → size - (p - s.curr) < fuel
      → Scans size file s₀ (scan_loop size file fuel p s)
  unfolding scan_loop Searches
  scan_loop-Scans s₀ zero p s h enough = absurd (omega arith)
  scan_loop-Scans s₀ (suc fuel) p s h enough =
      go (scan_turn size file p s) (scan_turn-Searches s₀ p s h)
        (λ p' s' h' enough'. scan_loop-Scans s₀ fuel p' s' h' enough')
    where
      go :
          (r : Outcome Scan)
          → Searches size file (p - s.curr) s₀ r
          → ((p' : ℕ) (s' : In)
              → Seen size file s₀ p' s'
              → size - (p' - s'.curr) < fuel
              → Scans size file s₀ (scan_loop size file fuel p' s'))
          → Scans size file s₀ (elim r [
            | yields (line n) s' ↦ yields (line n) s'
            | yields (no_line n) s' ↦ yields (no_line n) s'
            | yields (further p') s' ↦ scan_loop size file fuel p' s'
            | halted halt s' ↦ halted halt s'
            | exhausted ↦ exhausted
          ])
      go (yields (line n) s') f rec = f
      go (yields (no_line n) s') f rec = f
      go (yields (further p') s') (none_yet, one_more, from, upto, at, w) rec =
          rec p' s' (record { within = w; from = from; upto = upto; at = at; none_yet = none_yet })
            (omega (arith, one_more, enough, upto, from, w.fits))
      go (halted halt s') f rec = f
      go exhausted f rec = f

  -- caml_input_scan_line_r, on a channel whose buffer is a part of the file, returns n where the first
  -- newline from the position of the channel on is the n-th byte, and then the n bytes are in the buffer;
  -- or -n where none of the n bytes is a newline, the buffer is full of them or they reach the end of the
  -- file. The position is what it was, whatever was moved and read, and the loop does not run out of
  -- fuel.
  pub input_scan_line-Scans :
      (s : In) → IsIn size file s → Scans size file s (input_scan_line size file s)
  unfolding input_scan_line
  input_scan_line-Scans s w =
      let none_seen : s.curr - s.curr ≡ 0 = omega arith in
      scan_loop-Scans s (suc size) s.curr s
        (record {
          within = w;
          from = omega arith;
          upto = w.curr_within;
          at = refl;
          none_yet = subst (λ x. NoNewline (take x (drop (pos_in s) file))) (sym none_seen) tt;
        })
        (omega arith)
