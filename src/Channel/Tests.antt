-- ===== src/Channel/Tests.antt =====
-- Runs of the channels of byterun/io.c.
use ocaml.Common.{ℕ, ◌≡◌, refl, List, [], ◌∷◌, arith}
use ocaml.Channel.Output.{
  writes, interrupted, would_block, failed, Out, done, flush, really_putblock,
}
use ocaml.Channel.Written.{Sends, really_putblock-Sends}
use ocaml.Channel.Flushed.{Flushes, flush-Flushes}
use ocaml.Channel.Input.{delivers, unsettled, In, yields, really_getblock, seek_in}
use ocaml.Channel.Block.{IsIn}
use ocaml.Channel.Read.{Gets, really_getblock-Gets}
use ocaml.Common.{◌-◌, ◌≤◌, length}
use ocaml.Channel.Seek.{Seeks, MovesCurr, seek_in-Seeks}
use ocaml.Channel.Line.{line, input_scan_line}
use ocaml.Channel.Scan.{Scans}
use ocaml.Channel.Scanned.{input_scan_line-Scans}

-- An output channel that has two bytes in its buffer of four.
abbrev busy : Out
busy = record {
  buff = 1 ∷ 2 ∷ [];
  offset = 7;
  file = 0 ∷ [];
  answers = interrupted ∷ writes 0 ∷ writes 9 ∷ would_block ∷ writes 0 ∷ failed ∷ [];
}

putblock_run :
    really_putblock 4 (3 ∷ 4 ∷ 5 ∷ 6 ∷ 7 ∷ []) busy
    ≡ done tt (record {
      buff = 6 ∷ 7 ∷ [];
      offset = 12;
      file = 0 ∷ 1 ∷ 2 ∷ 3 ∷ 4 ∷ 5 ∷ [];
      answers = would_block ∷ writes 0 ∷ failed ∷ [];
    })
unfolding really_putblock
putblock_run = refl

really_putblock-Sends_example :
    Sends 4 (3 ∷ 4 ∷ 5 ∷ 6 ∷ 7 ∷ []) busy (really_putblock 4 (3 ∷ 4 ∷ 5 ∷ 6 ∷ 7 ∷ []) busy)
really_putblock-Sends_example =
    really_putblock-Sends 4 (omega arith) (3 ∷ 4 ∷ 5 ∷ 6 ∷ 7 ∷ []) busy (omega arith)

flush-Flushes_example : Flushes busy (flush busy)
flush-Flushes_example = flush-Flushes busy

-- An input channel with a buffer of four bytes over a file of nine, at its third byte.
abbrev lines : List ℕ
lines = 97 ∷ 98 ∷ 99 ∷ 100 ∷ 10 ∷ 101 ∷ 102 ∷ 103 ∷ 104 ∷ []

abbrev opened : In
opened = record {
  buff = 97 ∷ 98 ∷ 99 ∷ 100 ∷ [];
  curr = 2;
  offset = 4;
  answers = unsettled ∷ delivers 0 ∷ delivers 9 ∷ delivers 9 ∷ delivers 9 ∷ [];
}

opened-IsIn : IsIn 4 lines opened
opened-IsIn = record {
  p = 0;
  ends = refl;
  part = refl;
  curr_within = omega arith;
  fits = omega arith;
}

really_getblock-Gets_example : Gets 4 lines 6 opened (really_getblock 4 lines 6 opened)
really_getblock-Gets_example = really_getblock-Gets 4 lines (omega arith) 6 opened opened-IsIn

seek_in-Seeks_example :
    Seeks 4 lines 3 opened (seek_in 3 opened)
    × (opened.offset - length opened.buff ≤ 3
        → 3 ≤ opened.offset
        → MovesCurr opened (seek_in 3 opened))
seek_in-Seeks_example = seek_in-Seeks 4 lines 3 opened opened-IsIn

input_scan_line-Scans_example : Scans 4 lines opened (input_scan_line 4 lines opened)
input_scan_line-Scans_example = input_scan_line-Scans 4 lines opened opened-IsIn

scan_line_run :
    input_scan_line 4 lines opened
    ≡ yields (line 3) (record {
      buff = 99 ∷ 100 ∷ 10 ∷ [];
      curr = 0;
      offset = 5;
      answers = delivers 9 ∷ delivers 9 ∷ delivers 9 ∷ [];
    })
unfolding input_scan_line
scan_line_run = refl
