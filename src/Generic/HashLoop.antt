-- ===== src/Generic/HashLoop.antt =====
-- The whole traversal of byterun/hash.c, for values that compare equal.
use ocaml.Common.{
  ℕ, zero, suc, ◌≤◌, ◌≡◌, inl, inr, refl, sym, ap, subst, ◌∙◌, true, Option, some, none, arith,
}
use ocaml.Generic.Heap.{
  Value, long, ptr, outside, Block, string, double, double_array, abstract_block, closure,
  infix_block, forward, object, custom, fields, Heap, Platform,
}
use ocaml.Generic.Compare.{next_item, again, descend}
use ocaml.Generic.Lexicographic.{Result, equal, Compares, settled, stopped, followed, entered}
use ocaml.Interp.Word.{val_long}
use ocaml.Generic.Hash.{uint32, mix_intnat, Hashing, mix_uint32, visit_block, visit}
use ocaml.Generic.Agreement.{IsCompatible, IsTagged, mix-eq}
use ocaml.Generic.Alike.{
  ComparesAll-Pairs, Matches, IsContents, Matches-refl, Alike, visit_block-Alike, see_one-Alike,
}
use ocaml.Generic.HashVisit.{height, IsFollowed, ValueTurn, compare_turn-ValueTurn}

module _ (p : Platform) (compatible : IsCompatible p) (h : Heap) (tagged : IsTagged h) (sz : ℕ)
    (rank : ℕ → ℕ) (followed_lower : (a : ℕ) → IsFollowed rank (h a) (rank a)) where
  -- Both traversals go on, alike.
  abbrev pub BothAlike : Option Hashing → Option Hashing → Type 0
  BothAlike (some st) (some st') = Alike p h st st'
  BothAlike (some st) none = ⊥
  BothAlike none o = ⊥

  visit-contents :
      (k a : ℕ) (st : Hashing)
      → IsContents p h (h a)
      → visit p sz h (suc k) (ptr a) st ≡ some (visit_block p sz (h a) st)
  unfolding visit
  visit-contents k a st c = go (h a) c
    where
      go :
          (b : Block)
          → IsContents p h b
          → (elim b [
            | forward v ↦ visit p sz h k v st
            | infix_block offset v ↦
                visit p sz h k v (record st { hash = mix_uint32 st.hash (uint32 offset) })
            | b ↦ some (visit_block p sz b st)
          ])
            ≡ some (visit_block p sz b st)
      go (forward v) c = elim c [ ]
      go (infix_block n v) c = elim c [ ]
      go b c = refl

  visit-forward :
      (k a : ℕ) (v : Value) (st : Hashing)
      → h a ≡ forward v
      → visit p sz h (suc k) (ptr a) st ≡ visit p sz h k v st
  unfolding visit
  visit-forward k a v st e = rw (visit, e) refl

  visit-infix :
      (k a n : ℕ) (v : Value) (st : Hashing)
      → h a ≡ infix_block n v
      → visit p sz h (suc k) (ptr a) st
        ≡ visit p sz h k v (record st { hash = mix_uint32 st.hash (uint32 n) })
  unfolding visit
  visit-infix k a n v st e = rw (visit, e) refl

  contents-BothAlike :
      (k l a b : ℕ) (st st' : Hashing)
      → Matches p h (h a) (h b)
      → IsContents p h (h a)
      → IsContents p h (h b)
      → Alike p h st st'
      → BothAlike (visit p sz h (suc k) (ptr a) st) (visit p sz h (suc l) (ptr b) st')
  contents-BothAlike k l a b st st' m c d s =
      rw (visit-contents k a st c, visit-contents l b st' d)
        (visit_block-Alike p h sz (h a) (h b) st st' m s)

  mixed-Alike :
      (n : ℕ) (st st' : Hashing)
      → Alike p h st st'
      → Alike p h
          (record st { hash = mix_uint32 st.hash n })
          (record st' { hash = mix_uint32 st'.hash n })
  mixed-Alike n st st' s = record {
    same_hash = mix-eq st.hash st'.hash n n s.same_hash refl;
    same_num = s.same_num;
    same_wr = s.same_wr;
    same_queue = s.same_queue;
  }

  -- One value, from two states.
  visit-same :
      (k l : ℕ) (v : Value) (st st' : Hashing)
      → height rank v ≤ k
      → height rank v ≤ l
      → Alike p h st st'
      → BothAlike (visit p sz h k v st) (visit p sz h l v st')
  unfolding visit
  visit-same k l (long m) st st' hk hl s =
      see_one-Alike p h (mix_intnat st.hash (val_long m)) (mix_intnat st'.hash (val_long m)) st st'
        (ap (λ n. mix_intnat n (val_long m)) s.same_hash) s
  visit-same k l (outside a) st st' hk hl s =
      see_one-Alike p h (mix_intnat st.hash a) (mix_intnat st'.hash a) st st'
        (ap (λ n. mix_intnat n a) s.same_hash) s
  visit-same zero l (ptr a) st st' hk hl s = absurd (omega arith)
  visit-same (suc k) zero (ptr a) st st' hk hl s = absurd (omega arith)
  visit-same (suc k) (suc l) (ptr a) st st' hk hl s =
      go (h a) (followed_lower a)
        (λ v t t' hv al. visit-same k l v t t' (omega arith) (omega arith) al)
    where
      go :
          (b : Block)
          → IsFollowed rank b (rank a)
          → ((v : Value) (t t' : Hashing)
              → height rank v ≤ rank a
              → Alike p h t t'
              → BothAlike (visit p sz h k v t) (visit p sz h l v t'))
          → BothAlike
              (elim b [
                | forward v ↦ visit p sz h k v st
                | infix_block n v ↦
                    visit p sz h k v (record st { hash = mix_uint32 st.hash (uint32 n) })
                | c ↦ some (visit_block p sz c st)
              ])
              (elim b [
                | forward v ↦ visit p sz h l v st'
                | infix_block n v ↦
                    visit p sz h l v (record st' { hash = mix_uint32 st'.hash (uint32 n) })
                | c ↦ some (visit_block p sz c st')
              ])
      go (forward v) f rec = rec v st st' f s
      go (infix_block n v) f rec =
          rec v (record st { hash = mix_uint32 st.hash (uint32 n) })
            (record st' { hash = mix_uint32 st'.hash (uint32 n) }) f
            (mixed-Alike (uint32 n) st st' s)
      go (string x) f rec =
          visit_block-Alike p h sz (string x) (string x) st st' (Matches-refl p h (string x) tt) s
      go (double x) f rec =
          visit_block-Alike p h sz (double x) (double x) st st' (Matches-refl p h (double x) tt) s
      go (double_array x) f rec =
          visit_block-Alike p h sz (double_array x) (double_array x) st st'
            (Matches-refl p h (double_array x) tt) s
      go abstract_block f rec = visit_block-Alike p h sz abstract_block abstract_block st st' tt s
      go (closure x) f rec =
          visit_block-Alike p h sz (closure x) (closure x) st st' (Matches-refl p h (closure x) tt)
            s
      go (object x) f rec =
          visit_block-Alike p h sz (object x) (object x) st st' (Matches-refl p h (object x) tt) s
      go (custom o x) f rec =
          visit_block-Alike p h sz (custom o x) (custom o x) st st'
            (Matches-refl p h (custom o x) tt) s
      go (fields n x) f rec =
          visit_block-Alike p h sz (fields n x) (fields n x) st st'
            (Matches-refl p h (fields n x) tt) s

  below_zero : (v : Value) (a : ℕ) → v ≡ ptr a → height rank v ≤ 0 → ⊥
  below_zero v a e low = absurd_height (subst (λ x. height rank x ≤ 0) e low)
    where
      absurd_height : suc (rank a) ≤ 0 → ⊥
      absurd_height low = omega arith

  lower :
      (k : ℕ) (v v' : Value) (a : ℕ)
      → v ≡ ptr a
      → h a ≡ forward v'
      → height rank v ≤ suc k
      → height rank v' ≤ k
  lower k v v' a ev ea low =
      let target : height rank v' ≤ rank a =
        subst (λ b. IsFollowed rank b (rank a)) ea (followed_lower a) in
      let bound : suc (rank a) ≤ suc k = subst (λ x. height rank x ≤ suc k) ev low in
      omega (arith, target, bound)

  -- Two values that compare equal.
  pub visit-equal :
      {v w : Value} {r : Result}
      → Compares p true h v w r
      → r ≡ equal
      → (k l : ℕ) (st st' : Hashing) → height rank v ≤ k
      → height rank w ≤ l
      → Alike p h st st'
      → BothAlike (visit p sz h k v st) (visit p sz h l w st')
  visit-equal (settled v w e) er k l st st' hk hl s =
      settle k l
        (subst (λ t. ValueTurn p compatible h tagged v w t) e
          (compare_turn-ValueTurn p compatible h tagged v w))
        hk hl
    where
      settle :
          (k l : ℕ)
          → ValueTurn p compatible h tagged v w next_item
          → height rank v ≤ k
          → height rank w ≤ l
          → BothAlike (visit p sz h k v st) (visit p sz h l w st')
      settle k l (inl same) hk hl =
          subst (λ x. BothAlike (visit p sz h k v st) (visit p sz h l x st')) same
            (visit-same k l v st st' hk (subst (λ x. height rank x ≤ l) (sym same) hl) s)
      settle zero l (inr (a, b, ev, ew, m, c, d)) hk hl = absurd (below_zero v a ev hk)
      settle (suc k) zero (inr (a, b, ev, ew, m, c, d)) hk hl = absurd (below_zero w b ew hl)
      settle (suc k) (suc l) (inr (a, b, ev, ew, m, c, d)) hk hl =
          subst (λ x. BothAlike (visit p sz h (suc k) x st) (visit p sz h (suc l) w st')) (sym ev)
            (subst (λ x. BothAlike (visit p sz h (suc k) (ptr a) st) (visit p sz h (suc l) x st'))
              (sym ew) (contents-BothAlike k l a b st st' m c d s))
  visit-equal (stopped v w a e) er k l st st' hk hl s = absurd (cc)
  visit-equal (followed v w v' w' r e d) er k l st st' hk hl s =
      follow k l
        (subst (λ t. ValueTurn p compatible h tagged v w t) e
          (compare_turn-ValueTurn p compatible h tagged v w))
        hk hl (λ k' l' hk' hl'. visit-equal d er k' l' st st' hk' hl' s)
    where
      follow :
          (k l : ℕ)
          → ValueTurn p compatible h tagged v w (again v' w')
          → height rank v ≤ k
          → height rank w ≤ l
          → ((k' l' : ℕ)
              → height rank v' ≤ k'
              → height rank w' ≤ l'
              → BothAlike (visit p sz h k' v' st) (visit p sz h l' w' st'))
          → BothAlike (visit p sz h k v st) (visit p sz h l w st')
      follow zero l (inl (a, ev, ea, ew)) hk hl rec = absurd (below_zero v a ev hk)
      follow (suc k) l (inl (a, ev, ea, ew)) hk hl rec =
          subst (λ x. BothAlike x (visit p sz h l w st'))
            (sym (ap (λ x. visit p sz h (suc k) x st) ev ∙ visit-forward k a v' st ea))
            (subst (λ x. BothAlike (visit p sz h k v' st) (visit p sz h l x st')) ew
              (rec k l (lower k v v' a ev ea hk) (subst (λ x. height rank x ≤ l) (sym ew) hl)))
      follow k zero (inr (b, ew, eb, ev)) hk hl rec = absurd (below_zero w b ew hl)
      follow k (suc l) (inr (b, ew, eb, ev)) hk hl rec =
          subst (λ x. BothAlike (visit p sz h k v st) x)
            (sym (ap (λ x. visit p sz h (suc l) x st') ew ∙ visit-forward l b w' st' eb))
            (subst (λ x. BothAlike (visit p sz h k x st) (visit p sz h l w' st')) ev
              (rec k l (subst (λ x. height rank x ≤ k) (sym ev) hk) (lower l w w' b ew eb hl)))
  visit-equal (entered v w fs gs r e ds) er k l st st' hk hl s =
      enter k l
        (subst (λ t. ValueTurn p compatible h tagged v w t) e
          (compare_turn-ValueTurn p compatible h tagged v w))
        hk hl
    where
      enter :
          (k l : ℕ)
          → ValueTurn p compatible h tagged v w (descend fs gs)
          → height rank v ≤ k
          → height rank w ≤ l
          → BothAlike (visit p sz h k v st) (visit p sz h l w st')
      enter zero l (a, b, t, ev, ew, ea, eb, len) hk hl = absurd (below_zero v a ev hk)
      enter (suc k) zero (a, b, t, ev, ew, ea, eb, len) hk hl = absurd (below_zero w b ew hl)
      enter (suc k) (suc l) (a, b, t, ev, ew, ea, eb, len) hk hl =
          subst (λ x. BothAlike (visit p sz h (suc k) x st) (visit p sz h (suc l) w st')) (sym ev)
            (subst (λ x. BothAlike (visit p sz h (suc k) (ptr a) st) (visit p sz h (suc l) x st'))
              (sym ew)
              (contents-BothAlike k l a b st st'
                (subst (λ x. Matches p h x (h b)) (sym ea)
                  (subst (λ x. Matches p h (fields t fs) x) (sym eb)
                    (refl, ComparesAll-Pairs p h ds er len)))
                (subst (λ x. IsContents p h x) (sym ea) tt)
                (subst (λ x. IsContents p h x) (sym eb) tt) s))
