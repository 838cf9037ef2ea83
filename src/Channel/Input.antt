-- ===== src/Channel/Input.antt =====
-- Input channels of a file that can be sought in, byterun/io.c.
use ocaml.Common.{
  ℕ, zero, suc, ◌+◌, ◌-◌, ◌*◌, ◌%◌, ◌^◌, Bool, true, false, List, [], ◌∷◌, ◌++◌, ltb, leb, ◌&&◌,
  if◌then◌else◌, length, take, drop, min,
}
use ocaml.Channel.Output.{int_max}

-- An answer of read or of lseek. `delivers k` is up to k + 1 bytes for read, no more than there are, and
-- success for lseek; the others are the error EINTR and any other error.
pub data Delivery : Type 0 where
  delivers : ℕ → Delivery
  unsettled : Delivery
  refused : Delivery

-- An input channel: the bytes from buff to max, how far curr is, and offset, which is the position of
-- the descriptor; with it the answers to come.
pub record In : Type 0 where
  pub buff : List ℕ
  pub curr : ℕ
  pub offset : ℕ
  pub answers : List Delivery

-- A call ends by an exception, Sys_error or End_of_file, or waits for the next answer.
pub data Halt : Type 0 where
  read_error : Halt
  end_of_file : Halt
  no_answer : Halt

pub data Outcome (A : Type 0) : Type 0 where
  yields : A → In → Outcome A
  halted : Halt → In → Outcome A
  exhausted : Outcome A

-- caml_do_read_r, for n bytes of a file with `left` bytes to come: how many are read.
pub data Fetch : Type 0 where
  fetched : ℕ → List Delivery → Fetch
  unread : Halt → List Delivery → Fetch

unfoldable pub do_read : List Delivery → ℕ → ℕ → Fetch
do_read [] n left = unread no_answer []
do_read (delivers k ∷ as') n left = fetched (min (suc k) (min n left)) as'
do_read (unsettled ∷ as') n left = do_read as' n left
do_read (refused ∷ as') n left = unread read_error as'

-- caml_pos_in.
unfoldable pub pos_in : In → ℕ
pos_in s = s.offset - (length s.buff - s.curr)

abbrev pub first_byte : List ℕ → ℕ
first_byte [] = 0
first_byte (b ∷ bs) = b

-- `size` is IO_BUFFER_SIZE, and `file` the bytes of the file.
module _ (size : ℕ) (file : List ℕ) where
  -- What a read of an empty buffer puts there, where `n` bytes are read and curr is put at `at`.
  unfoldable pub loaded : In → ℕ → ℕ → List Delivery → In
  loaded s n at rest = record {
    buff = take n (drop s.offset file);
    curr = at;
    offset = s.offset + n;
    answers = rest;
  }

  -- caml_refill_r, getch and caml_getword_r.
  unfoldable pub refill : In → Outcome ℕ
  unfolding do_read loaded
  refill s = elim (do_read s.answers size (length file - s.offset)) [
    | unread halt rest ↦ halted halt (record s { answers = rest })
    | fetched zero rest ↦ halted end_of_file (record s { answers = rest })
    | fetched (suc n) rest ↦ let s' = loaded s (suc n) 1 rest in yields (first_byte s'.buff) s'
  ]

  unfoldable pub getch : In → Outcome ℕ
  unfolding refill
  getch s =
      if leb (length s.buff) s.curr
      then refill s
      else yields (first_byte (drop s.curr s.buff)) (record s { curr = s.curr + 1 })

  unfoldable pub get_chars : ℕ → ℕ → In → Outcome ℕ
  unfolding getch
  get_chars zero res s = yields res s
  get_chars (suc i) res s = elim (getch s) [
    | yields ch s' ↦ get_chars i ((res * 256 + ch) % 2 ^ 32) s'
    | halted halt s' ↦ halted halt s'
    | exhausted ↦ exhausted
  ]

  unfoldable pub getword : In → Outcome ℕ
  unfolding get_chars
  getword s = get_chars 4 0 s

  -- caml_getblock_r.
  unfoldable pub getblock : ℕ → In → Outcome (List ℕ)
  unfolding do_read loaded
  getblock len s =
      let n = if leb int_max len then int_max else len in
      let avail = length s.buff - s.curr in
      let copy = λ (k : ℕ). yields (take k (drop s.curr s.buff)) (record s { curr = s.curr + k }) in
      if leb n avail
      then copy n
      else if ltb 0 avail
      then copy avail
      else elim (do_read s.answers size (length file - s.offset)) [
        | unread halt rest ↦ halted halt (record s { answers = rest })
        | fetched nread rest ↦
            let k = if ltb nread n then nread else n in
            let s' = loaded s nread k rest in yields (take k s'.buff) s'
      ]

  -- caml_really_getblock_r: the bytes read, and whether they are all that it is to read. The loop
  -- has fuel.
  unfoldable pub really_getblock_loop : ℕ → ℕ → In → Outcome (List ℕ × Bool)
  unfolding getblock
  really_getblock_loop zero n s = exhausted
  really_getblock_loop (suc fuel) zero s = yields ([], true) s
  really_getblock_loop (suc fuel) (suc n) s = elim (getblock (suc n) s) [
    | yields [] s' ↦ yields ([], false) s'
    | yields (b ∷ bytes) s' ↦ elim (really_getblock_loop fuel (suc n - length (b ∷ bytes)) s') [
      | yields r s'' ↦ yields ((b ∷ bytes) ++ r.0, r.1) s''
      | halted halt s'' ↦ halted halt s''
      | exhausted ↦ exhausted
    ]
    | halted halt s' ↦ halted halt s'
    | exhausted ↦ exhausted
  ]

  unfoldable pub really_getblock : ℕ → In → Outcome (List ℕ × Bool)
  unfolding really_getblock_loop
  really_getblock n s = really_getblock_loop (suc n) n s

-- caml_seek_in_r.
unfoldable pub lseek : ℕ → List Delivery → In → Outcome (Unit {0})
lseek dest [] s = halted no_answer s
lseek dest (delivers k ∷ as') s =
    yields tt (record { buff = []; curr = 0; offset = dest; answers = as' })
lseek dest (unsettled ∷ as') s = halted read_error (record s { answers = as' })
lseek dest (refused ∷ as') s = halted read_error (record s { answers = as' })

unfoldable pub seek_in : ℕ → In → Outcome (Unit {0})
unfolding lseek
seek_in dest s =
    if leb (s.offset - length s.buff) dest && leb dest s.offset
    then yields tt (record s { curr = length s.buff - (s.offset - dest) })
    else lseek dest s.answers s
