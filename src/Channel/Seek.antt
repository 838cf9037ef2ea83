-- ===== src/Channel/Seek.antt =====
-- Where a seek of byterun/io.c puts an input channel.
use ocaml.Common.{
  ℕ, ◌-◌, ◌≤◌, ◌≡◌, refl, Bool, true, false, List, [], ◌∷◌, ◌&&◌, leb, if◌then◌else◌, length, arith,
}
use ocaml.Channel.Input.{
  Delivery, delivers, unsettled, refused, In, Outcome, yields, halted, exhausted, pos_in, seek_in,
  lseek,
}
use ocaml.Channel.Block.{IsIn, answered}

-- By curr alone: no call of the operating system, and the same bytes in the buffer.
abbrev pub MovesCurr : In → Outcome (Unit {0}) → Type 0
MovesCurr s (yields u s') = (s'.buff ≡ s.buff) × (s'.offset ≡ s.offset) × (s'.answers ≡ s.answers)
MovesCurr s (halted halt s') = ⊥
MovesCurr s exhausted = ⊥

seek_in-MovesCurr :
    (dest : ℕ) (s : In)
    → s.offset - length s.buff ≤ dest
    → dest ≤ s.offset
    → MovesCurr s (seek_in dest s)
unfolding seek_in
seek_in-MovesCurr dest s from upto =
    let after : leb (s.offset - length s.buff) dest ≡ true = ground (arith, from) in
    let before : leb dest s.offset ≡ true = ground (arith, upto) in
    rw (after, before) (refl, refl, refl)

module _ (size : ℕ) (file : List ℕ) where
  -- The end of a seek: at dest, or where it was.
  abbrev pub Seeks : ℕ → In → Outcome (Unit {0}) → Type 0
  Seeks dest s (yields u s') = (pos_in s' ≡ dest) × IsIn size file s'
  Seeks dest s (halted halt s') = (pos_in s' ≡ pos_in s) × IsIn size file s'
  Seeks dest s exhausted = ⊥

  lseek-Seeks :
      (dest : ℕ) (as' : List Delivery) (s : In) → IsIn size file s → Seeks dest s (lseek dest as' s)
  unfolding lseek pos_in
  lseek-Seeks dest [] s h = (refl, h)
  lseek-Seeks dest (delivers k ∷ as') s h = (
    omega arith,
    record {
      p = dest;
      ends = omega arith;
      part = refl;
      curr_within = omega arith;
      fits = omega arith;
    },
  )
  lseek-Seeks dest (unsettled ∷ as') s h = (refl, answered size file s as' h)
  lseek-Seeks dest (refused ∷ as') s h = (refl, answered size file s as' h)

  seek_in-reaches : (dest : ℕ) (s : In) → IsIn size file s → Seeks dest s (seek_in dest s)
  unfolding seek_in pos_in
  seek_in-reaches dest s h = go (leb (s.offset - length s.buff) dest) refl (leb dest s.offset) refl
    where
      go :
          (after : Bool)
          → leb (s.offset - length s.buff) dest ≡ after
          → (before : Bool) → leb dest s.offset ≡ before
          → Seeks dest s (
              if after && before
              then yields tt (record s { curr = length s.buff - (s.offset - dest) })
              else lseek dest s.answers s)
      go true e true e' = (
        ground (arith, h.ends),
        record { p = h.p; ends = h.ends; part = h.part; curr_within = omega arith; fits = h.fits },
      )
      go true e false e' = lseek-Seeks dest s.answers s h
      go false e before e' = lseek-Seeks dest s.answers s h

  -- caml_seek_in_r puts the position at dest, or leaves it where it was and raises; the buffer remains a
  -- part of the file. Where the buffer holds dest or ends there, the seek does not raise, calls nothing of
  -- the operating system and keeps the bytes of the buffer.
  pub seek_in-Seeks :
      (dest : ℕ) (s : In)
      → IsIn size file s
      → Seeks dest s (seek_in dest s)
        × (s.offset - length s.buff ≤ dest → dest ≤ s.offset → MovesCurr s (seek_in dest s))
  seek_in-Seeks dest s h = (seek_in-reaches dest s h, seek_in-MovesCurr dest s)
