-- ===== src/Channel/Block.antt =====
-- The invariant of input channels of byterun/io.c, and one block read.
use ocaml.Common.{
  ℕ, suc, ◌+◌, ◌-◌, ◌≤◌, ◌<◌, ◌≡◌, ◌⊎◌, inl, refl, sym, ap, ◌∙◌, Bool, true, false, List, [], ◌∷◌,
  ltb, leb, if◌then◌else◌, length, take, drop, min, length-take, length-drop, take-take, drop-take,
  drop-drop, arith,
}
use ocaml.Channel.Output.{int_max}
use ocaml.Channel.Input.{
  Delivery, delivers, unsettled, refused, In, Outcome, yields, halted, exhausted, Fetch, fetched,
  unread, do_read, pos_in, loaded, getblock,
}

-- The invariant of an input channel: the buffer is a part of the file, from p up to offset, no longer
-- than its size, and curr is in it.
pub record IsIn (size : ℕ) (file : List ℕ) (s : In) : Type 0 where
  pub p : ℕ
  pub ends : p + length s.buff ≡ s.offset
  pub part : s.buff ≡ take (length s.buff) (drop p file)
  pub curr_within : s.curr ≤ length s.buff
  pub fits : length s.buff ≤ size

module _ (size : ℕ) (file : List ℕ) where
  -- A block: k bytes from the position on, none of n only at the end of the file.
  unfoldable pub GetsBlock : ℕ → In → Outcome (List ℕ) → Type 0
  GetsBlock n s (yields bytes s') =
      (k : ℕ) × (bytes ≡ take k (drop (pos_in s) file))
      × (k ≤ n)
      × (k ≤ length file - pos_in s)
      × ((0 < k) ⊎ (length file ≤ pos_in s))
      × (pos_in s' ≡ pos_in s + k)
      × IsIn size file s'
  GetsBlock n s (halted halt s') = (pos_in s' ≡ pos_in s) × IsIn size file s'
  GetsBlock n s exhausted = ⊥

  pub do_read-bounds :
      (as' : List Delivery) (n left r : ℕ) (rest : List Delivery)
      → 0 < n
      → do_read as' n left ≡ fetched r rest
      → (r ≤ n) × (r ≤ left) × ((0 < r) ⊎ (left ≤ 0))
  unfolding do_read
  do_read-bounds [] n left r rest h e = absurd (cc)
  do_read-bounds (delivers k ∷ as') n left r rest h e =
      let er : min (suc k) (min n left) ≡ r = cc in (omega arith, omega arith, ground arith)
  do_read-bounds (unsettled ∷ as') n left r rest h e = do_read-bounds as' n left r rest h e
  do_read-bounds (refused ∷ as') n left r rest h e = absurd (cc)

  pub buffered_length :
      (s : In) → IsIn size file s → length s.buff ≤ length file - (s.offset - length s.buff)
  buffered_length s h =
      let e : length s.buff ≡ length (take (length s.buff) (drop h.p file)) = ap length h.part in
      let l = length-take (length s.buff) (drop h.p file) in
      omega (arith, e, l, length-drop h.p file, h.ends)

  pub buffered :
      (s : In)
      → (h : IsIn size file s)
      → drop s.curr s.buff ≡ take (length s.buff - s.curr) (drop (pos_in s) file)
  unfolding pos_in
  buffered s h =
      let at : h.p + s.curr ≡ s.offset - (length s.buff - s.curr) =
        omega (arith, h.ends, h.curr_within) in
      ap (λ x. drop s.curr x) h.part
      ∙ drop-take s.curr (length s.buff) (drop h.p file) h.curr_within
      ∙ ap (λ x. take (length s.buff - s.curr) x) (drop-drop s.curr h.p file)
      ∙ ap (λ x. take (length s.buff - s.curr) (drop x file)) at

  copied :
      (n k : ℕ) (s : In)
      → IsIn size file s
      → k ≤ n
      → k ≤ length s.buff - s.curr
      → (0 < k) ⊎ (length file ≤ pos_in s)
      → GetsBlock n s (yields (take k (drop s.curr s.buff)) (record s { curr = s.curr + k }))
  unfolding pos_in GetsBlock
  copied n k s h few within progress = (
    k,
    ap (λ x. take k x) (buffered s h)
        ∙ take-take k (length s.buff - s.curr) (drop (pos_in s) file) within,
    few,
    omega (arith, buffered_length s h, within, h.ends, h.curr_within),
    progress,
    omega (arith, h.ends, h.curr_within, within),
    record {
      p = h.p;
      ends = h.ends;
      part = h.part;
      fits = h.fits;
      curr_within = omega (arith, h.curr_within, within);
    },
  )

  pub loaded-IsIn :
      (s : In) (r at : ℕ) (rest : List Delivery)
      → r ≤ length file - s.offset
      → r ≤ size
      → at ≤ r
      → (length (take r (drop s.offset file)) ≡ r) × IsIn size file (loaded size file s r at rest)
  unfolding loaded
  loaded-IsIn s r at rest there small inside =
      let whole : length (take r (drop s.offset file)) ≡ r =
        omega (arith, length-take r (drop s.offset file), length-drop s.offset file) in
      (
        whole,
        record {
          p = s.offset;
          ends = omega (arith, whole);
          part = ap (λ m. take m (drop s.offset file)) (sym whole);
          curr_within = omega (arith, whole);
          fits = omega (arith, whole);
        },
      )

  pub answered :
      (s : In) (rest : List Delivery)
      → IsIn size file s
      → IsIn size file (record s { answers = rest })
  answered s rest h = record {
    p = h.p;
    ends = h.ends;
    part = h.part;
    curr_within = h.curr_within;
    fits = h.fits;
  }

  module _ (positive : 0 < size) where
    pub getblock-GetsBlock :
        (n : ℕ) (s : In) → IsIn size file s → 0 < n → GetsBlock n s (getblock size file n s)
    unfolding getblock GetsBlock pos_in loaded
    getblock-GetsBlock len s h some_bytes =
        let n = if leb int_max len then int_max else len in
        let clamp : (n ≤ len) × (0 < n) = (ground arith, ground arith) in
        let avail = length s.buff - s.curr in
        go n clamp.0 clamp.1 (leb n avail) refl (ltb 0 avail) refl
      where
        fetch :
            (n : ℕ)
            → n ≤ len
            → 0 < n
            → length s.buff - s.curr ≤ 0
            → (r : Fetch) → do_read s.answers size (length file - s.offset) ≡ r
            → GetsBlock len s (elim r [
              | unread halt rest ↦ halted halt (record s { answers = rest })
              | fetched nread rest ↦
                  let k = if ltb nread n then nread else n in
                  let s' = loaded size file s nread k rest in yields (take k s'.buff) s'
            ])
        fetch n le_n pos_n none_left (unread halt rest) e = (refl, answered s rest h)
        fetch n le_n pos_n none_left (fetched r rest) e =
            let bounds = do_read-bounds s.answers size (length file - s.offset) r rest positive e in
            let k = if ltb r n then r else n in
            let le_k : (k ≤ r) × (k ≤ n) = (ground arith, ground arith) in
            let some_k : (0 < k) ⊎ (length file ≤ s.offset) = ground (arith, bounds) in
            let inside = loaded-IsIn s r k rest bounds.1 bounds.0 le_k.0 in
            let at : s.offset ≡ pos_in s = omega (arith, none_left) in
            (
              k,
              take-take k r (drop s.offset file) le_k.0 ∙ ap (λ x. take k (drop x file)) at,
              omega (arith, le_k, le_n),
              omega (arith, le_k, bounds, at),
              ground (arith, some_k, at),
              omega (arith, at, inside.0, le_k),
              inside.1,
            )

        go :
            (n : ℕ)
            → n ≤ len
            → 0 < n
            → (small : Bool) → leb n (length s.buff - s.curr) ≡ small
            → (some_left : Bool) → ltb 0 (length s.buff - s.curr) ≡ some_left
            → GetsBlock len s (
                if small
                then yields (take n (drop s.curr s.buff)) (record s { curr = s.curr + n })
                else if some_left
                then yields
                    (take (length s.buff - s.curr) (drop s.curr s.buff))
                    (record s { curr = s.curr + (length s.buff - s.curr) })
                else (elim (do_read s.answers size (length file - s.offset)) [
                  | unread halt rest ↦ halted halt (record s { answers = rest })
                  | fetched nread rest ↦
                      let k = if ltb nread n then nread else n in
                      let s' = loaded size file s nread k rest in yields (take k s'.buff) s'
                ]))
        go n le_n pos_n true e some_left e' = copied len n s h le_n (ground arith) (inl pos_n)
        go n le_n pos_n false e true e' =
            copied len (length s.buff - s.curr) s h (ground arith) (omega arith)
              (inl (ground arith))
        go n le_n pos_n false e false e' =
            fetch n le_n pos_n (ground arith) (do_read s.answers size (length file - s.offset)) refl
