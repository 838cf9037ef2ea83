-- ===== src/Channel/Line.antt =====
-- The search for the end of a line in an input channel, byterun/io.c.
use ocaml.Common.{
  ℕ, zero, suc, ◌+◌, ◌-◌, List, ◌++◌, ltb, leb, ◌==◌, if◌then◌else◌, length, take, drop,
}
use ocaml.Channel.Input.{
  Delivery, In, Outcome, yields, halted, exhausted, fetched, unread, do_read, first_byte,
}

-- What caml_input_scan_line_r returns: n for a line of n bytes with its newline, -n where none of the n
-- bytes in the buffer is a newline. A turn of its loop may also go on, with p further.
pub data Scan : Type 0 where
  line : ℕ → Scan
  no_line : ℕ → Scan
  further : ℕ → Scan

-- The unread bytes at the beginning of the buffer.
unfoldable pub shift_unread : In → In
shift_unread s = if ltb 0 s.curr then record s { buff = drop s.curr s.buff; curr = 0 } else s

-- The test of the loop.
unfoldable pub test_newline : ℕ → In → Outcome Scan
test_newline p s =
    if first_byte (drop p s.buff) == 10
    then yields (line (p + 1 - s.curr)) s
    else yields (further (p + 1)) s

module _ (size : ℕ) (file : List ℕ) where
  -- What a read adds to the buffer.
  unfoldable pub filled : In → ℕ → List Delivery → In
  filled s n rest = record {
    buff = s.buff ++ take n (drop s.offset file);
    curr = s.curr;
    offset = s.offset + n;
    answers = rest;
  }

  unfoldable pub scan_fill : ℕ → In → Outcome Scan
  unfolding do_read filled test_newline
  scan_fill p s =
      if leb size (length s.buff)
      then yields (no_line (length s.buff - s.curr)) s
      else elim (do_read s.answers (size - length s.buff) (length file - s.offset)) [
        | unread halt rest ↦ halted halt (record s { answers = rest })
        | fetched zero rest ↦
            yields (no_line (length s.buff - s.curr)) (record s { answers = rest })
        | fetched (suc n) rest ↦ test_newline p (filled s (suc n) rest)
      ]

  unfoldable pub scan_turn : ℕ → In → Outcome Scan
  unfolding scan_fill shift_unread test_newline
  scan_turn p s =
      if leb (length s.buff) p then scan_fill (p - s.curr) (shift_unread s) else test_newline p s

  -- caml_input_scan_line_r, with fuel for the loop.
  unfoldable pub scan_loop : ℕ → ℕ → In → Outcome Scan
  unfolding scan_turn
  scan_loop zero p s = exhausted
  scan_loop (suc fuel) p s = elim (scan_turn p s) [
    | yields (line n) s' ↦ yields (line n) s'
    | yields (no_line n) s' ↦ yields (no_line n) s'
    | yields (further p') s' ↦ scan_loop fuel p' s'
    | halted halt s' ↦ halted halt s'
    | exhausted ↦ exhausted
  ]

  unfoldable pub input_scan_line : In → Outcome Scan
  unfolding scan_loop
  input_scan_line s = scan_loop (suc size) s.curr s
