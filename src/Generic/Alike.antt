-- ===== src/Generic/Alike.antt =====
-- Traversals of byterun/hash.c that stand alike, and one block of each.
use ocaml.Common.{
  ℕ, ◌+◌, ◌≡◌, refl, ap, subst, Bool, true, false, Option, some, none, List, [], ◌∷◌, ◌++◌, arith,
  if◌then◌else◌, length, leb,
}
use ocaml.Common.Int.{pos, ltb_ℤ, ◌-ℤ◌}
use ocaml.Generic.Heap.{
  Value, Block, string, double, double_array, abstract_block, closure, infix_block, forward, object,
  custom, fields, Heap, Platform,
}
use ocaml.Generic.Compare.{compare_turn}
use ocaml.Generic.Lexicographic.{
  Result, equal, Compares, settled, ComparesAll, none_left, none_right, decided, passed,
}
use ocaml.Interp.Word.{to_word}
use ocaml.Generic.Hash.{
  uint32, mix_string, mix_intnat, Hashing, see_one, mix_double, mix_doubles, normalize, enqueue,
  white_header, mix_uint32, visit_fields, visit_custom, custom_hash, visit_block,
}
use ocaml.Generic.Agreement.{
  same_value_refl, SameDoubles, SameDoubles-refl, cong2, mix-eq, header-eq, mix_double-eq,
}

module _ (p : Platform) (h : Heap) where
  -- Lists of values that compare equal in turn.
  abbrev pub Pairs : List Value → List Value → Type 0
  Pairs [] [] = Unit {0}
  Pairs [] (w ∷ ws) = ⊥
  Pairs (v ∷ vs) [] = ⊥
  Pairs (v ∷ vs) (w ∷ ws) = Compares p true h v w equal × Pairs vs ws

  pub Compares-refl : (v : Value) → Compares p true h v v equal
  unfolding compare_turn
  Compares-refl v = settled v v (rw (compare_turn, same_value_refl v) refl)

  Pairs-refl : (vs : List Value) → Pairs vs vs
  Pairs-refl [] = tt
  Pairs-refl (v ∷ vs) = (Compares-refl v, Pairs-refl vs)

  pub length-Pairs : (vs ws : List Value) → Pairs vs ws → length vs ≡ length ws
  length-Pairs [] [] s = refl
  length-Pairs [] (w ∷ ws) s = elim s [ ]
  length-Pairs (v ∷ vs) [] s = elim s [ ]
  length-Pairs (v ∷ vs) (w ∷ ws) s = omega (arith, length-Pairs vs ws s.1)

  Pairs-snoc :
      (vs ws : List Value) (v w : Value)
      → Pairs vs ws
      → Compares p true h v w equal
      → Pairs (vs ++ v ∷ []) (ws ++ w ∷ [])
  Pairs-snoc [] [] v w s d = (d, tt)
  Pairs-snoc [] (x ∷ ws) v w s d = elim s [ ]
  Pairs-snoc (x ∷ vs) [] v w s d = elim s [ ]
  Pairs-snoc (x ∷ vs) (y ∷ ws) v w s d = (s.0, Pairs-snoc vs ws v w s.1 d)

  pub ComparesAll-Pairs :
      {vs ws : List Value} {r : Result}
      → ComparesAll p true h vs ws r
      → r ≡ equal
      → length vs ≡ length ws
      → Pairs vs ws
  ComparesAll-Pairs (none_left []) e l = tt
  ComparesAll-Pairs (none_left (w ∷ ws)) e l = absurd (omega arith)
  ComparesAll-Pairs (none_right v vs) e l = absurd (omega arith)
  ComparesAll-Pairs (decided v w vs ws a d) e l = absurd (cc)
  ComparesAll-Pairs (passed v w vs ws r d ds) e l = (d, ComparesAll-Pairs ds e (omega arith))

  -- Two states of the traversal that hash alike.
  pub record Alike (st st' : Hashing) : Type 0 where
    pub same_hash : st.hash ≡ st'.hash
    pub same_num : st.num ≡ st'.num
    pub same_wr : st.wr ≡ st'.wr
    pub same_queue : Pairs st.queue st'.queue

  pub see_one-Alike :
      (n m : ℕ) (st st' : Hashing) → n ≡ m → Alike st st' → Alike (see_one n st) (see_one m st')
  unfolding see_one
  see_one-Alike n m st st' e s = record {
    same_hash = e;
    same_num = ap (λ k. k -ℤ pos 1) s.same_num;
    same_wr = s.same_wr;
    same_queue = s.same_queue;
  }

  enqueue-Alike :
      (sz : ℕ) (vs ws : List Value) (st st' : Hashing)
      → Pairs vs ws
      → Alike st st'
      → Alike (enqueue sz vs st) (enqueue sz ws st')
  unfolding enqueue
  enqueue-Alike sz [] [] st st' d s = s
  enqueue-Alike sz [] (w ∷ ws) st st' d s = elim d [ ]
  enqueue-Alike sz (v ∷ vs) [] st st' d s = elim d [ ]
  enqueue-Alike sz (v ∷ vs) (w ∷ ws) st st' d s =
      let grown : Alike (record st { queue = st.queue ++ v ∷ []; wr = st.wr + 1 })
          (record st' { queue = st'.queue ++ w ∷ []; wr = st'.wr + 1 }) =
        record {
          same_hash = s.same_hash;
          same_num = s.same_num;
          same_wr = ap (λ n. n + 1) s.same_wr;
          same_queue = Pairs-snoc st.queue st'.queue v w s.same_queue d.0;
        } in
      let rest =
        enqueue-Alike sz vs ws (record st { queue = st.queue ++ v ∷ []; wr = st.wr + 1 })
          (record st' { queue = st'.queue ++ w ∷ []; wr = st'.wr + 1 }) d.1 grown in
      subst
        (λ n.
          Alike
            (if leb sz st.wr
              then st
              else enqueue sz vs (record st { queue = st.queue ++ v ∷ []; wr = st.wr + 1 }))
            (if leb sz n
              then st'
              else enqueue sz ws (record st' { queue = st'.queue ++ w ∷ []; wr = st'.wr + 1 })))
        s.same_wr (both (leb sz st.wr) _ _ _ _ s rest)
    where
      both :
          (b : Bool) (x y x' y' : Hashing)
          → Alike x x'
          → Alike y y'
          → Alike (if b then x else y) (if b then x' else y')
      both true x y x' y' s r = s
      both false x y x' y' s r = r

  -- Blocks that the traversal treats alike.
  abbrev pub Matches : Block → Block → Type 0
  Matches (string s) (string t) = s ≡ t
  Matches (double d) (double e) = normalize d ≡ normalize e
  Matches (double_array ds) (double_array es) = SameDoubles ds es
  Matches abstract_block abstract_block = Unit {0}
  Matches (object m) (object n) = m ≡ n
  Matches (custom o x) (custom q y) = custom_hash p o x ≡ custom_hash p q y
  Matches (closure vs) (closure ws) = Pairs vs ws
  Matches (fields t vs) (fields u ws) = (t ≡ u) × Pairs vs ws
  Matches b c = ⊥

  -- Blocks that are not followed.
  abbrev pub IsContents : Block → Type 0
  IsContents (forward v) = ⊥
  IsContents (infix_block n v) = ⊥
  IsContents b = Unit {0}

  pub Matches-refl : (b : Block) → IsContents b → Matches b b
  Matches-refl (string s) c = refl
  Matches-refl (double d) c = refl
  Matches-refl (double_array ds) c = SameDoubles-refl ds
  Matches-refl abstract_block c = tt
  Matches-refl (closure vs) c = Pairs-refl vs
  Matches-refl (infix_block n v) c = elim c [ ]
  Matches-refl (forward v) c = elim c [ ]
  Matches-refl (object m) c = refl
  Matches-refl (custom o x) c = refl
  Matches-refl (fields t vs) c = (refl, Pairs-refl vs)

  mix_doubles-Alike :
      (ds es : List ℕ) (st st' : Hashing)
      → SameDoubles ds es
      → Alike st st'
      → Alike (mix_doubles ds st) (mix_doubles es st')
  unfolding mix_doubles
  mix_doubles-Alike [] [] st st' d s = s
  mix_doubles-Alike [] (e ∷ es) st st' d s = elim d [ ]
  mix_doubles-Alike (x ∷ ds) [] st st' d s = elim d [ ]
  mix_doubles-Alike (x ∷ ds) (y ∷ es) st st' d s =
      let st1 = see_one (mix_double st.hash x) st in
      let st2 = see_one (mix_double st'.hash y) st' in
      let seen : Alike st1 st2 =
        see_one-Alike (mix_double st.hash x) (mix_double st'.hash y) st st'
          (mix_double-eq x y st.hash st'.hash d.0 s.same_hash) s in
      go (ltb_ℤ st1.num (pos 0)) (ltb_ℤ st2.num (pos 0)) (ap (λ n. ltb_ℤ n (pos 0)) seen.same_num)
        st1 st2 seen (mix_doubles-Alike ds es st1 st2 d.1 seen)
    where
      go :
          (b c : Bool)
          → b ≡ c
          → (st1 st2 : Hashing) → Alike st1 st2
          → Alike (mix_doubles ds st1) (mix_doubles es st2)
          → Alike (if b then st1 else mix_doubles ds st1) (if c then st2 else mix_doubles es st2)
      go true true e st1 st2 s r = s
      go false false e st1 st2 s r = r
      go true false e st1 st2 s r = absurd (cc)
      go false true e st1 st2 s r = absurd (cc)

  visit_fields-Alike :
      (sz t u : ℕ) (vs ws : List Value) (st st' : Hashing)
      → t ≡ u
      → Pairs vs ws
      → Alike st st'
      → Alike (visit_fields sz t vs st) (visit_fields sz u ws st')
  unfolding visit_fields
  visit_fields-Alike sz t u vs ws st st' e d s =
      enqueue-Alike sz vs ws (record st { hash = mix_uint32 st.hash (white_header (length vs) t) })
        (record st' { hash = mix_uint32 st'.hash (white_header (length ws) u) }) d
        (record {
          same_hash =
              mix-eq st.hash st'.hash (white_header (length vs) t) (white_header (length ws) u)
                s.same_hash (header-eq (length vs) (length ws) t u (length-Pairs vs ws d) e);
          same_num = s.same_num;
          same_wr = s.same_wr;
          same_queue = s.same_queue;
        })

  pub visit_block-Alike :
      (sz : ℕ) (b c : Block) (st st' : Hashing)
      → Matches b c
      → Alike st st'
      → Alike (visit_block p sz b st) (visit_block p sz c st')
  unfolding visit_block visit_custom
  visit_block-Alike sz (string s) (string t) st st' d a =
      see_one-Alike (mix_string st.hash s) (mix_string st'.hash t) st st'
        (cong2 mix_string a.same_hash d) a
  visit_block-Alike sz (double x) (double y) st st' d a =
      see_one-Alike (mix_double st.hash x) (mix_double st'.hash y) st st'
        (mix_double-eq x y st.hash st'.hash d a.same_hash) a
  visit_block-Alike sz (double_array ds) (double_array es) st st' d a =
      mix_doubles-Alike ds es st st' d a
  visit_block-Alike sz abstract_block abstract_block st st' d a = a
  visit_block-Alike sz (object m) (object n) st st' d a =
      see_one-Alike (mix_intnat st.hash (to_word m)) (mix_intnat st'.hash (to_word n)) st st'
        (cong2 mix_intnat a.same_hash (ap to_word d)) a
  visit_block-Alike sz (custom o x) (custom q y) st st' d a =
      customs (custom_hash p o x) (custom_hash p q y) d
    where
      customs : (m n : Option ℕ) → m ≡ n → Alike (visit_custom m st) (visit_custom n st')
      customs none none e = a
      customs (some m) (some n) e =
          see_one-Alike (mix_uint32 st.hash (uint32 m)) (mix_uint32 st'.hash (uint32 n)) st st'
            (cong2 mix_uint32 a.same_hash (ground arith)) a
      customs none (some n) e = absurd (cc)
      customs (some m) none e = absurd (cc)
  visit_block-Alike sz (closure vs) (closure ws) st st' d a =
      visit_fields-Alike sz 247 247 vs ws st st' refl d a
  visit_block-Alike sz (fields t vs) (fields u ws) st st' d a =
      visit_fields-Alike sz t u vs ws st st' d.0 d.1 a
  visit_block-Alike sz b c st st' d a = absurd (ground arith)
