-- ===== src/Channel/Read.antt =====
-- What input channels of byterun/io.c read.
use ocaml.Common.{
  ℕ, zero, suc, ◌+◌, ◌-◌, ◌≤◌, ◌<◌, ◌≡◌, refl, sym, ap, ◌∙◌, Bool, false, List, [], ◌∷◌, ◌++◌, leb,
  length, take, drop, length-take, length-drop, length-append, take-add, drop-drop, drop_all, arith,
}
use ocaml.Channel.Input.{
  In, Outcome, yields, halted, exhausted, pos_in, getblock, really_getblock_loop, really_getblock,
}
use ocaml.Channel.Block.{IsIn, GetsBlock, getblock-GetsBlock}

module _ (size : ℕ) (file : List ℕ) where
  -- The end of a read of n bytes: these bytes of the file, or all up to the end of the file, with
  -- whether it is the n bytes; where the operating system stops it the channel is at some later position.
  abbrev pub Gets : ℕ → In → Outcome (List ℕ × Bool) → Type 0
  Gets n s (yields r s') =
      (r.0 ≡ take n (drop (pos_in s) file))
      × (r.1 ≡ leb n (length file - pos_in s))
      × (pos_in s' ≡ pos_in s + length r.0)
      × IsIn size file s'
  Gets n s (halted halt s') =
      (pos_in s ≤ pos_in s') × (pos_in s' ≤ pos_in s + n) × IsIn size file s'
  Gets n s exhausted = ⊥

  module _ (positive : 0 < size) where
    really_getblock_loop-Gets :
        (fuel n : ℕ) (s : In)
        → IsIn size file s
        → n < fuel
        → Gets n s (really_getblock_loop size file fuel n s)
    unfolding really_getblock_loop GetsBlock
    really_getblock_loop-Gets zero n s h enough = absurd (omega arith)
    really_getblock_loop-Gets (suc fuel) zero s h enough = (refl, ground arith, omega arith, h)
    really_getblock_loop-Gets (suc fuel) (suc n) s h enough =
        go (getblock size file (suc n) s)
          (getblock-GetsBlock size file positive (suc n) s h (omega arith))
          (λ m s' h' enough'. really_getblock_loop-Gets fuel m s' h' enough')
      where
        go :
            (r : Outcome (List ℕ))
            → GetsBlock size file (suc n) s r
            → ((m : ℕ) (s' : In)
                → IsIn size file s'
                → m < fuel
                → Gets m s' (really_getblock_loop size file fuel m s'))
            → Gets (suc n) s (elim r [
              | yields [] s' ↦ yields ([], false) s'
              | yields (b ∷ bytes) s' ↦
                  elim (really_getblock_loop size file fuel (suc n - length (b ∷ bytes)) s') [
                    | yields r s'' ↦ yields ((b ∷ bytes) ++ r.0, r.1) s''
                    | halted halt s'' ↦ halted halt s''
                    | exhausted ↦ exhausted
                  ]
              | halted halt s' ↦ halted halt s'
              | exhausted ↦ exhausted
            ])
        go (yields [] s') (k, bytes, few, there, progress, at, h') rec =
            let none_read : 0 ≡ k =
              ap length bytes
              ∙ omega (arith, length-take k (drop (pos_in s) file), length-drop (pos_in s) file) in
            let ended : length file ≤ pos_in s = ground (arith, none_read, progress) in
            let nothing : drop (pos_in s) file ≡ [] = drop_all (pos_in s) file ended in
            (
              ap (λ x. take (suc n) x) (sym nothing),
              ground (arith, ended),
              omega (arith, at, none_read),
              h',
            )
        go (yields (b ∷ bytes) s') (k, read, few, there, progress, at, h') rec =
            let some_read : length (b ∷ bytes) ≡ k =
              ap length read
              ∙ omega (arith, length-take k (drop (pos_in s) file), length-drop (pos_in s) file) in
            rest some_read (really_getblock_loop size file fuel (suc n - length (b ∷ bytes)) s')
              (rec (suc n - length (b ∷ bytes)) s' h' (omega (arith, some_read)))
          where
            rest :
                length (b ∷ bytes) ≡ k
                → (r : Outcome (List ℕ × Bool)) → Gets (suc n - length (b ∷ bytes)) s' r
                → Gets (suc n) s (elim r [
                  | yields r s'' ↦ yields ((b ∷ bytes) ++ r.0, r.1) s''
                  | halted halt s'' ↦ halted halt s''
                  | exhausted ↦ exhausted
                ])
            rest some_read (yields r s'') (later, whole, at', h'') =
                let amount : k + (suc n - length (b ∷ bytes)) ≡ suc n =
                  omega (arith, some_read, few) in
                (
                  ap (λ x. x ++ r.0) read
                      ∙ ap (λ x. take k (drop (pos_in s) file) ++ x)
                          (later
                            ∙ ap (λ x. take (suc n - length (b ∷ bytes)) (drop x file)) at
                            ∙ ap (λ x. take (suc n - length (b ∷ bytes)) x)
                                (sym (drop-drop k (pos_in s) file)))
                      ∙ take-add k (suc n - length (b ∷ bytes)) (drop (pos_in s) file)
                          (omega (arith, there, length-drop (pos_in s) file))
                      ∙ ap (λ x. take x (drop (pos_in s) file)) amount,
                  whole ∙ ground (arith, at, some_read, few, there),
                  omega (arith, at, at', some_read, length-append (b ∷ bytes) r.0),
                  h'',
                )
            rest some_read (halted halt s'') (from, to, h'') =
                (omega (arith, from, at), omega (arith, to, at, some_read, few), h'')
            rest some_read exhausted f = elim f [ ]
        go (halted halt s') (at, h') rec = (omega (arith, at), omega (arith, at), h')
        go exhausted f rec = elim f [ ]

    -- caml_really_getblock_r gives the n bytes of the file from the position of the channel on, or all up
    -- to the end of the file and false; the position moves on by as many, and the buffer remains
    -- a part of the file. Where the operating system stops it the position is no further than that. The loop does not run out
    -- of fuel.
    pub really_getblock-Gets :
        (n : ℕ) (s : In) → IsIn size file s → Gets n s (really_getblock size file n s)
    unfolding really_getblock
    really_getblock-Gets n s h = really_getblock_loop-Gets (suc n) n s h (omega arith)
