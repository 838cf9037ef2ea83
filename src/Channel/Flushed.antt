-- ===== src/Channel/Flushed.antt =====
-- What a flush of an output channel of byterun/io.c writes.
use ocaml.Common.{
  ℕ, zero, suc, ◌+◌, ◌-◌, ◌<◌, ◌≡◌, refl, sym, ap, ◌∙◌, Bool, true, false, List, [], ◌∷◌, ◌++◌,
  append-nil, ltb, ltb→lt, if◌then◌else◌, length, take, drop, length-take, length-drop,
  length-append, nil_of_length, arith,
}
use ocaml.Channel.Output.{
  Out, End, done, stopped, out_of_fuel, write_buffer, is_empty, flush_partial, flush_loop, flush,
}
use ocaml.Channel.Written.{sent, Follows, Wrote, write_buffer-Wrote, take-drop_sent}

-- The end of a flush: everything sent is written, or the operating system stops it and what is not yet
-- written is still in the buffer.
abbrev pub Flushes : Out → End (Unit {0}) → Type 0
Flushes s (done u s') = (s'.buff ≡ []) × (s'.file ≡ sent s) × Follows (length s.buff) s s'
Flushes s (stopped stop s') = (sent s' ≡ sent s) × Follows (length s.buff) s s'
Flushes s out_of_fuel = ⊥

FlushesPartly : Out → End Bool → Type 0
FlushesPartly s (done true s') = (s'.buff ≡ []) × (s'.file ≡ sent s) × Follows (length s.buff) s s'
FlushesPartly s (done false s') =
    (sent s' ≡ sent s) × (length s'.buff < length s.buff) × Follows (length s.buff) s s'
FlushesPartly s (stopped stop s') = (sent s' ≡ sent s) × Follows (length s.buff) s s'
FlushesPartly s out_of_fuel = ⊥

is_empty_eq : (bytes : List ℕ) → is_empty bytes ≡ true → bytes ≡ []
unfolding is_empty
is_empty_eq [] e = refl
is_empty_eq (b ∷ bytes) e = cc

flush_partial-FlushesPartly : (s : Out) → FlushesPartly s (flush_partial s)
unfolding flush_partial FlushesPartly Wrote
flush_partial-FlushesPartly s = go (ltb 0 (length s.buff)) refl
  where
    wrote_some : (r : End Bool) → Wrote is_empty s.buff s r → FlushesPartly s r
    wrote_some (done b s') (w, pos_w, le_w, eb, ebuff, ef, eo) =
        let same : sent s' ≡ sent s =
          ap (λ x. x ++ s'.buff) ef
          ∙ ap (λ x. (s.file ++ take w s.buff) ++ x) ebuff
          ∙ take-drop_sent s.file s.buff w in
        let left : length s'.buff ≡ length s.buff - w = ap length ebuff ∙ length-drop w s.buff in
        let out : length s'.file ≡ length s.file + w =
          ap length ef
          ∙ omega (arith, length-append s.file (take w s.buff), length-take w s.buff) in
        split b eb same (omega (arith, left)) (omega (arith, left), omega (arith, eo, out))
      where
        split :
            (b : Bool)
            → b ≡ is_empty (drop w s.buff)
            → sent s' ≡ sent s
            → length s'.buff < length s.buff
            → Follows (length s.buff) s s'
            → FlushesPartly s (done b s')
        split true e same fewer follows =
            let none_left : s'.buff ≡ [] = ebuff ∙ is_empty_eq (drop w s.buff) (sym e) in
            (
              none_left,
              sym (append-nil s'.file) ∙ ap (λ x. s'.file ++ x) (sym none_left) ∙ same,
              follows,
            )
        split false e same fewer follows = (same, fewer, follows)
    wrote_some (stopped stop s') (eb, ef, eo) = (
      ap (λ x. x ++ s'.buff) ef ∙ ap (λ x. s.file ++ x) eb,
      (omega (arith, ap length eb), omega (arith, eo, ap length ef)),
    )
    wrote_some out_of_fuel w = elim w [ ]

    go :
        (some_bytes : Bool)
        → ltb 0 (length s.buff) ≡ some_bytes
        → FlushesPartly s (if some_bytes then write_buffer is_empty s.buff s else done true s)
    go true e =
        wrote_some (write_buffer is_empty s.buff s)
          (write_buffer-Wrote is_empty s.buff s (ltb→lt 0 (length s.buff) e))
    go false e =
        let none_left : s.buff ≡ [] = nil_of_length s.buff (ground arith) in
        (
          none_left,
          sym (append-nil s.file) ∙ ap (λ x. s.file ++ x) (sym none_left),
          (omega arith, refl),
        )

flush_loop-Flushes : (fuel : ℕ) (s : Out) → length s.buff < fuel → Flushes s (flush_loop fuel s)
unfolding flush_loop FlushesPartly
flush_loop-Flushes zero s enough = absurd (omega arith)
flush_loop-Flushes (suc fuel) s enough =
    go (flush_partial s) (flush_partial-FlushesPartly s)
      (λ s' fewer. flush_loop-Flushes fuel s' (omega arith))
  where
    go :
        (r : End Bool)
        → FlushesPartly s r
        → ((s' : Out) → length s'.buff < length s.buff → Flushes s' (flush_loop fuel s'))
        → Flushes s (elim r [
          | done true s' ↦ done tt s'
          | done false s' ↦ flush_loop fuel s'
          | stopped stop s' ↦ stopped stop s'
          | out_of_fuel ↦ out_of_fuel
        ])
    go (done true s') f rec = f
    go (done false s') (same, fewer, follows) rec = rest (flush_loop fuel s') (rec s' fewer)
      where
        rest : (r : End (Unit {0})) → Flushes s' r → Flushes s r
        rest (done u s'') (none_left, written, follows') = (
          none_left,
          written ∙ same,
          (omega (arith, follows', follows), omega (arith, follows', follows)),
        )
        rest (stopped stop s'') (kept, follows') =
            (kept ∙ same, (omega (arith, follows', follows), omega (arith, follows', follows)))
        rest out_of_fuel f = elim f [ ]
    go (stopped stop s') f rec = f
    go out_of_fuel f rec = elim f [ ]

-- caml_flush_r returns with the buffer empty and written behind what was written before, or the
-- operating system stops it and what is not yet written is still in the buffer, in order. It does not
-- run out of fuel: each round writes a byte at least.
pub flush-Flushes : (s : Out) → Flushes s (flush s)
unfolding flush
flush-Flushes s = flush_loop-Flushes (suc (length s.buff)) s (omega arith)
