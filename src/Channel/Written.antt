-- ===== src/Channel/Written.antt =====
-- What output channels of byterun/io.c write.
use ocaml.Common.{
  ℕ, zero, suc, ◌+◌, ◌-◌, ◌≤◌, ◌<◌, ◌≡◌, ◌⊎◌, inl, refl, sym, ap, ◌∙◌, Bool, true, false, List, [],
  ◌∷◌, ◌++◌, append_assoc, append-nil, ltb, leb, ltb→lt, ◌==◌, if◌then◌else◌, length, take, drop,
  take-append-drop, length-take, length-drop, length-append, take-add, arith,
}
use ocaml.Channel.Output.{
  Answer, writes, interrupted, would_block, failed, Out, End, done, stopped, out_of_fuel, Written,
  wrote, unwritten, do_write, write_buffer, int_max, putblock, really_putblock_loop,
  really_putblock,
}

-- What is written and what waits in the buffer.
abbrev pub sent : Out → List ℕ
sent s = s.file ++ s.buff

-- A channel after another of the same file: offset counts what the file has got.
abbrev pub Follows : ℕ → Out → Out → Type 0
Follows size s s' =
    (length s'.buff ≤ size) × (s'.offset + length s.file ≡ s.offset + length s'.file)

do_write-bounds :
    (as' : List Answer) (n w : ℕ) (rest : List Answer)
    → 0 < n
    → do_write as' n ≡ wrote w rest
    → (0 < w) × (w ≤ n)
unfolding do_write
do_write-bounds [] n w rest h e = absurd (cc)
do_write-bounds (writes k ∷ as') n w rest h e = ground arith
do_write-bounds (interrupted ∷ as') n w rest h e = do_write-bounds as' n w rest h e
do_write-bounds (would_block ∷ as') n w rest h e = ground (arith, do_write-bounds as' 1 w rest)
do_write-bounds (failed ∷ as') n w rest h e = absurd (cc)

-- What a call of write does to a channel whose buffer has room for the bytes.
unfoldable pub Wrote : {A : Type 0} → (List ℕ → A) → List ℕ → Out → End A → Type 0
Wrote result bytes s (done a s') =
    (w : ℕ) × (0 < w)
    × (w ≤ length bytes)
    × (a ≡ result (drop w bytes))
    × (s'.buff ≡ drop w bytes)
    × (s'.file ≡ s.file ++ take w bytes)
    × (s'.offset ≡ s.offset + w)
Wrote result bytes s (stopped stop s') =
    (s'.buff ≡ s.buff) × (s'.file ≡ s.file) × (s'.offset ≡ s.offset)
Wrote result bytes s out_of_fuel = ⊥

pub write_buffer-Wrote :
    {A : Type 0} (result : List ℕ → A) (bytes : List ℕ) (s : Out)
    → 0 < length bytes
    → Wrote result bytes s (write_buffer result bytes s)
unfolding write_buffer Wrote
write_buffer-Wrote result bytes s h = go (do_write s.answers (length bytes)) refl
  where
    go :
        (r : Written)
        → do_write s.answers (length bytes) ≡ r
        → Wrote result bytes s (elim r [
          | unwritten stop rest ↦ stopped stop (record s { answers = rest })
          | wrote w rest ↦ done (result (drop w bytes)) (record {
            buff = drop w bytes;
            offset = s.offset + w;
            file = s.file ++ take w bytes;
            answers = rest;
          })
        ])
    go (unwritten stop rest) e = (refl, refl, refl)
    go (wrote w rest) e =
        let bounds = do_write-bounds s.answers (length bytes) w rest h e in
        (w, bounds.0, bounds.1, refl, refl, refl, refl)

-- The end of a call that is to send some bytes: all of them, or the first of them where it stops.
abbrev pub Sends : ℕ → List ℕ → Out → End (Unit {0}) → Type 0
Sends size p s (done u s') = (sent s' ≡ sent s ++ p) × Follows size s s'
Sends size p s (stopped stop s') =
    (k : ℕ) × (k ≤ length p) × (sent s' ≡ sent s ++ take k p) × Follows size s s'
Sends size p s out_of_fuel = ⊥

-- One block: it takes n bytes, and either takes some or makes room.
Takes : ℕ → List ℕ → Out → End ℕ → Type 0
Takes size p s (done n s') =
    (n ≤ length p)
    × (sent s' ≡ sent s ++ take n p)
    × Follows size s s'
    × ((0 < n) ⊎ ((length s'.buff < size) × (length s.buff ≡ size)))
Takes size p s (stopped stop s') = (sent s' ≡ sent s) × Follows size s s'
Takes size p s out_of_fuel = ⊥

pub take-drop_sent :
    (file bytes : List ℕ) (w : ℕ) → (file ++ take w bytes) ++ drop w bytes ≡ file ++ bytes
take-drop_sent file bytes w =
    append_assoc file (take w bytes) (drop w bytes) ∙ ap (λ x. file ++ x) (take-append-drop w bytes)

module _ (size : ℕ) (positive : 0 < size) where
  putblock-Takes :
      (p : List ℕ) (s : Out)
      → length s.buff ≤ size
      → 0 < length p
      → Takes size p s (putblock size p s)
  unfolding putblock Takes Wrote
  putblock-Takes p s fits some_bytes =
      let n = if leb int_max (length p) then int_max else length p in
      let clamp : (n ≤ length p) × (0 < n) = (ground arith, ground arith) in
      go n clamp.0 clamp.1 (ltb n (size - length s.buff)) refl
    where
      filled : List ℕ
      filled = s.buff ++ take (size - length s.buff) p

      filled_length : size - length s.buff ≤ length p → length filled ≡ size
      filled_length h = omega (
        arith,
        length-append s.buff (take (size - length s.buff) p),
        length-take (size - length s.buff) p,
      )

      flushed :
          (r : End ℕ)
          → size - length s.buff ≤ length p
          → Wrote (λ left. size - length s.buff) filled s r
          → Takes size p s r
      flushed (done n s') h (w, pos_w, le_w, en, eb, ef, eo) =
          let whole = filled_length h in
          let left : length s'.buff ≡ length filled - w = ap length eb ∙ length-drop w filled in
          let out : length s'.file ≡ length s.file + w =
            ap length ef
            ∙ omega (arith, length-append s.file (take w filled), length-take w filled) in
          (
            omega (arith, en),
            ap (λ x. x ++ s'.buff) ef
                ∙ ap (λ x. (s.file ++ take w filled) ++ x) eb
                ∙ take-drop_sent s.file filled w
                ∙ sym (append_assoc s.file s.buff (take (size - length s.buff) p))
                ∙ ap (λ k. sent s ++ take k p) (sym en),
            (omega (arith, left, whole), omega (arith, eo, out)),
            ground (arith, en, left, whole),
          )
      flushed (stopped stop s') h (eb, ef, eo) = (
        ap (λ x. x ++ s'.buff) ef ∙ ap (λ x. s.file ++ x) eb,
        (omega (arith, ap length eb), omega (arith, eo, ap length ef)),
      )
      flushed out_of_fuel h w = elim w [ ]

      go :
          (n : ℕ)
          → n ≤ length p
          → 0 < n
          → (small : Bool) → ltb n (size - length s.buff) ≡ small
          → Takes size p s (
              if small
              then done n (record s { buff = s.buff ++ take n p })
              else write_buffer (λ left. size - length s.buff) filled s)
      go n bound some_n true e = (
        bound,
        sym (append_assoc s.file s.buff (take n p)),
        (
          omega (
            arith,
            length-append s.buff (take n p),
            length-take n p,
            ltb→lt n (size - length s.buff) e,
          ),
          omega arith,
        ),
        inl some_n,
      )
      go n bound some_n false e =
          let free_le : size - length s.buff ≤ n = ground arith in
          flushed (write_buffer (λ left. size - length s.buff) filled s) (omega arith) (
            write_buffer-Wrote (λ left. size - length s.buff) filled s
              (omega (arith, filled_length (omega arith))))

  really_putblock_loop-Sends :
      (fuel : ℕ) (p : List ℕ) (s : Out)
      → length s.buff ≤ size
      → length p + length p + (if length s.buff == size then 1 else 0) < fuel
      → Sends size p s (really_putblock_loop size fuel p s)
  unfolding really_putblock_loop Takes
  really_putblock_loop-Sends zero p s fits enough = absurd (omega arith)
  really_putblock_loop-Sends (suc fuel) [] s fits enough = (sym (append-nil (sent s)), (fits, refl))
  really_putblock_loop-Sends (suc fuel) (b ∷ p) s fits enough =
      go (putblock size (b ∷ p) s) (putblock-Takes (b ∷ p) s fits (omega arith))
        (λ q s' fits' enough'. really_putblock_loop-Sends fuel q s' fits' enough')
    where
      go :
          (r : End ℕ)
          → Takes size (b ∷ p) s r
          → ((q : List ℕ) (s' : Out)
              → length s'.buff ≤ size
              → length q + length q + (if length s'.buff == size then 1 else 0) < fuel
              → Sends size q s' (really_putblock_loop size fuel q s'))
          → Sends size (b ∷ p) s (elim r [
            | done n s' ↦ really_putblock_loop size fuel (drop n (b ∷ p)) s'
            | stopped stop s' ↦ stopped stop s'
            | out_of_fuel ↦ out_of_fuel
          ])
      go (stopped stop s') (same, follows) rec =
          (0, omega arith, same ∙ sym (append-nil (sent s)), follows)
      go out_of_fuel t rec = elim t [ ]
      go (done n s') (bound, taken, follows, progress) rec =
          rest (really_putblock_loop size fuel (drop n (b ∷ p)) s') (
            rec (drop n (b ∷ p)) s' follows.0
              (ground (arith, progress, length-drop n (b ∷ p), enough)))
        where
          rest : (r : End (Unit {0})) → Sends size (drop n (b ∷ p)) s' r → Sends size (b ∷ p) s r
          rest (done u s'') (later, follows') = (
            later
                ∙ ap (λ x. x ++ drop n (b ∷ p)) taken
                ∙ append_assoc (sent s) (take n (b ∷ p)) (drop n (b ∷ p))
                ∙ ap (λ x. sent s ++ x) (take-append-drop n (b ∷ p)),
            (follows'.0, omega (arith, follows, follows')),
          )
          rest (stopped stop s'') (k, le_k, later, follows') = (
            n + k,
            omega (arith, bound, le_k, length-drop n (b ∷ p)),
            later
                ∙ ap (λ x. x ++ take k (drop n (b ∷ p))) taken
                ∙ append_assoc (sent s) (take n (b ∷ p)) (take k (drop n (b ∷ p)))
                ∙ ap (λ x. sent s ++ x) (take-add n k (b ∷ p) bound),
            (follows'.0, omega (arith, follows, follows')),
          )
          rest out_of_fuel t = elim t [ ]

  -- caml_really_putblock_r returns with all bytes sent, that is written or in the buffer behind what
  -- was sent before; where the operating system stops it, the first of them are sent and no others, and
  -- nothing is lost or doubled. The buffer is within its size, offset counts what is written, and the
  -- loop does not run out of fuel.
  pub really_putblock-Sends :
      (p : List ℕ) (s : Out) → length s.buff ≤ size → Sends size p s (really_putblock size p s)
  unfolding really_putblock
  really_putblock-Sends p s fits =
      really_putblock_loop-Sends (2 + (length p + length p)) p s fits (ground arith)
