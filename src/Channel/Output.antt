-- ===== src/Channel/Output.antt =====
-- Output channels, byterun/io.c. The operating system is a list of answers to the calls of write.
use ocaml.Common.{
  ℕ, zero, suc, ◌+◌, ◌-◌, ◌/◌, ◌%◌, ◌^◌, Bool, true, false, List, [], ◌∷◌, ◌++◌, ltb, leb,
  if◌then◌else◌, length, take, drop,
}

-- An answer of write: `writes k` writes k + 1 bytes, or all of them if there are fewer; the others are
-- the error EINTR, the errors EAGAIN and EWOULDBLOCK, and any other error.
pub data Answer : Type 0 where
  writes : ℕ → Answer
  interrupted : Answer
  would_block : Answer
  failed : Answer

-- An output channel: the bytes of the buffer up to curr, and offset. With it the bytes that the file
-- has got since the channel was opened, and the answers to come.
pub record Out : Type 0 where
  pub buff : List ℕ
  pub offset : ℕ
  pub file : List ℕ
  pub answers : List Answer

-- A call ends by an exception, Sys_error or Sys_blocked_io, or waits for the next answer of the operating system.
pub data Stop : Type 0 where
  sys_error : Stop
  waits : Stop

pub data End (A : Type 0) : Type 0 where
  done : A → Out → End A
  stopped : Stop → Out → End A
  out_of_fuel : End A

-- do_write_r, for n bytes: how many are written.
pub data Written : Type 0 where
  wrote : ℕ → List Answer → Written
  unwritten : Stop → List Answer → Written

unfoldable pub do_write : List Answer → ℕ → Written
do_write [] n = unwritten waits []
do_write (writes k ∷ as') n = wrote (if leb n (suc k) then n else suc k) as'
do_write (interrupted ∷ as') n = do_write as' n
do_write (would_block ∷ as') n =
    let partial = do_write as' 1 in if ltb 1 n then partial else unwritten sys_error as'
do_write (failed ∷ as') n = unwritten sys_error as'

-- What write leaves of the bytes that it is given.
unfoldable pub write_buffer : {A : Type 0} → (List ℕ → A) → List ℕ → Out → End A
unfolding do_write
write_buffer result bytes s = elim (do_write s.answers (length bytes)) [
  | unwritten stop rest ↦ stopped stop (record s { answers = rest })
  | wrote w rest ↦ done (result (drop w bytes)) (record {
    buff = drop w bytes;
    offset = s.offset + w;
    file = s.file ++ take w bytes;
    answers = rest;
  })
]

unfoldable pub is_empty : List ℕ → Bool
is_empty [] = true
is_empty (b ∷ bs) = false

-- caml_flush_partial_r: whether the buffer is empty at the end.
unfoldable pub flush_partial : Out → End Bool
unfolding write_buffer is_empty
flush_partial s = if ltb 0 (length s.buff) then write_buffer is_empty s.buff s else done true s

-- caml_flush_r, with fuel for the loop.
unfoldable pub flush_loop : ℕ → Out → End (Unit {0})
unfolding flush_partial
flush_loop zero s = out_of_fuel
flush_loop (suc fuel) s = elim (flush_partial s) [
  | done true s' ↦ done tt s'
  | done false s' ↦ flush_loop fuel s'
  | stopped stop s' ↦ stopped stop s'
  | out_of_fuel ↦ out_of_fuel
]

unfoldable pub flush : Out → End (Unit {0})
unfolding flush_loop
flush s = flush_loop (suc (length s.buff)) s

abbrev pub int_max : ℕ
int_max = 2 ^ 31 - 1

-- caml_pos_out.
unfoldable pub pos_out : Out → ℕ
pos_out s = s.offset + length s.buff

-- `size` is IO_BUFFER_SIZE.
module _ (size : ℕ) where
  -- putch, whose flush stops it, and caml_putword_r.
  unfoldable pub putch : ℕ → Out → End (Unit {0})
  unfolding flush_partial
  putch ch s =
      let put = λ (s : Out). done tt (record s { buff = s.buff ++ ch ∷ [] }) in
      if leb size (length s.buff)
      then elim (flush_partial s) [
        | done empty s' ↦ put s'
        | stopped stop s' ↦ stopped stop s'
        | out_of_fuel ↦ out_of_fuel
      ]
      else put s

  unfoldable pub put_chars : List ℕ → Out → End (Unit {0})
  unfolding putch
  put_chars [] s = done tt s
  put_chars (ch ∷ chs) s = elim (putch ch s) [
    | done u s' ↦ put_chars chs s'
    | stopped stop s' ↦ stopped stop s'
    | out_of_fuel ↦ out_of_fuel
  ]

  unfoldable pub putword : ℕ → Out → End (Unit {0})
  unfolding put_chars
  putword w s = put_chars (w / 2 ^ 24 % 256 ∷ w / 2 ^ 16 % 256 ∷ w / 2 ^ 8 % 256 ∷ w % 256 ∷ []) s

  -- caml_putblock_r: how many bytes it takes.
  unfoldable pub putblock : List ℕ → Out → End ℕ
  unfolding write_buffer
  putblock p s =
      let n = if leb int_max (length p) then int_max else length p in
      let free = size - length s.buff in
      if ltb n free
      then done n (record s { buff = s.buff ++ take n p })
      else write_buffer (λ left. free) (s.buff ++ take free p) s

  -- caml_really_putblock_r, with fuel for the loop.
  unfoldable pub really_putblock_loop : ℕ → List ℕ → Out → End (Unit {0})
  unfolding putblock
  really_putblock_loop zero p s = out_of_fuel
  really_putblock_loop (suc fuel) [] s = done tt s
  really_putblock_loop (suc fuel) (ch ∷ p) s = elim (putblock (ch ∷ p) s) [
    | done written s' ↦ really_putblock_loop fuel (drop written (ch ∷ p)) s'
    | stopped stop s' ↦ stopped stop s'
    | out_of_fuel ↦ out_of_fuel
  ]

  unfoldable pub really_putblock : List ℕ → Out → End (Unit {0})
  unfolding really_putblock_loop
  really_putblock p s = really_putblock_loop (2 + (length p + length p)) p s
