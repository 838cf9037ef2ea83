-- ===== src/Generic/HashTurns.antt =====
-- Turns of the loop of byterun/hash.c, and what is left to hash after them.
use ocaml.Common.{
  ℕ, zero, suc, ◌+◌, ◌-◌, ◌≤◌, ◌≡◌, refl, subst, Option, some, none, List, [], ◌∷◌, ◌++◌, arith,
  length,
}
use ocaml.Generic.Heap.{
  Value, long, ptr, outside, Block, string, double, double_array, abstract_block, closure,
  infix_block, forward, object, custom, fields, Heap, Platform,
}
use ocaml.Generic.Hash.{
  uint32, Hashing, see_one, mix_double, mix_doubles, enqueue, white_header, mix_uint32,
  visit_fields, visit_custom, custom_hash, visit_block, visit,
}

-- A bound on the values that are still read from the queue.
abbrev pub left : ℕ → Hashing → ℕ
left sz st = length st.queue + (sz - st.wr)

pub snoc-length : (vs : List Value) (v : Value) → length (vs ++ v ∷ []) ≡ length vs + 1
snoc-length [] v = refl
snoc-length (x ∷ vs) v = omega (arith, snoc-length vs v)

pub enqueue-left :
    (sz : ℕ) (vs : List Value) (st : Hashing) → left sz (enqueue sz vs st) ≤ left sz st
unfolding enqueue
enqueue-left sz [] st = omega arith
enqueue-left sz (v ∷ vs) st =
    let st1 : Hashing = record st { queue = st.queue ++ v ∷ []; wr = st.wr + 1 } in
    ground (arith, enqueue-left sz vs st1, snoc-length st.queue v)

pub mix_doubles-left :
    (sz : ℕ) (ds : List ℕ) (st : Hashing) → left sz (mix_doubles ds st) ≡ left sz st
unfolding mix_doubles see_one
mix_doubles-left sz [] st = refl
mix_doubles-left sz (d ∷ ds) st =
    let st1 : Hashing = see_one (mix_double st.hash d) st in
    ground (arith, mix_doubles-left sz ds st1)

pub visit_fields-left :
    (sz t : ℕ) (vs : List Value) (st : Hashing) → left sz (visit_fields sz t vs st) ≤ left sz st
unfolding visit_fields
visit_fields-left sz t vs st =
    enqueue-left sz vs (record st { hash = mix_uint32 st.hash (white_header (length vs) t) })

pub some_eq : {A : Type 0} (a b : A) → some a ≡ some b → a ≡ b
some_eq a b e = cc

module _ (p : Platform) (sz : ℕ) (h : Heap) where
  pub visit_block-left : (b : Block) (st : Hashing) → left sz (visit_block p sz b st) ≤ left sz st
  unfolding visit_block visit_custom see_one
  visit_block-left (string s) st = omega arith
  visit_block-left (double d) st = omega arith
  visit_block-left (double_array ds) st = omega (arith, mix_doubles-left sz ds st)
  visit_block-left abstract_block st = omega arith
  visit_block-left (closure vs) st = visit_fields-left sz 247 vs st
  visit_block-left (infix_block n v) st = omega arith
  visit_block-left (forward v) st = omega arith
  visit_block-left (object m) st = omega arith
  visit_block-left (custom o x) st = go (custom_hash p o x)
    where
      go : (n : Option ℕ) → left sz (visit_custom n st) ≤ left sz st
      go none = omega arith
      go (some n) = omega arith
  visit_block-left (fields t vs) st = visit_fields-left sz t vs st

  pub visit-left :
      (k : ℕ) (v : Value) (st st' : Hashing)
      → visit p sz h k v st ≡ some st'
      → left sz st' ≤ left sz st
  unfolding visit see_one
  visit-left k (long m) st st' e = ground arith
  visit-left k (outside a) st st' e = ground arith
  visit-left zero (ptr a) st st' e = absurd (cc)
  visit-left (suc k) (ptr a) st st' e = go (h a) (λ v t t' e. visit-left k v t t' e) e
    where
      block : (b : Block) → some (visit_block p sz b st) ≡ some st' → left sz st' ≤ left sz st
      block b e =
          subst (λ x. left sz x ≤ left sz st) (some_eq (visit_block p sz b st) st' e)
            (visit_block-left b st)

      go :
          (b : Block)
          → ((v : Value) (t t' : Hashing) → visit p sz h k v t ≡ some t' → left sz t' ≤ left sz t)
          → (elim b [
            | forward v ↦ visit p sz h k v st
            | infix_block n v ↦
                visit p sz h k v (record st { hash = mix_uint32 st.hash (uint32 n) })
            | c ↦ some (visit_block p sz c st)
          ])
            ≡ some st'
          → left sz st' ≤ left sz st
      go (forward v) rec e = rec v st st' e
      go (infix_block n v) rec e = rec v (record st { hash = mix_uint32 st.hash (uint32 n) }) st' e
      go (string x) rec e = block (string x) e
      go (double x) rec e = block (double x) e
      go (double_array x) rec e = block (double_array x) e
      go abstract_block rec e = block abstract_block e
      go (closure x) rec e = block (closure x) e
      go (object x) rec e = block (object x) e
      go (custom o x) rec e = block (custom o x) e
      go (fields n x) rec e = block (fields n x) e
