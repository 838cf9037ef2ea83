-- ===== src/Generic/HashResult.antt =====
-- The hash of byterun/hash.c of values that compare equal.
use ocaml.Common.{
  ℕ, zero, suc, ◌%◌, ◌^◌, ◌≤◌, ◌<◌, ◌≡◌, refl, sym, ap, Bool, true, false, not, Option, some, none,
  List, [], ◌∷◌, arith, if◌then◌else◌, length,
}
use ocaml.Common.Int.{ℤ, pos, negsuc, ltb_ℤ}
use ocaml.Generic.Heap.{Value, long, ptr, outside, Heap, Platform}
use ocaml.Generic.Lexicographic.{equal, Compares}
use ocaml.Interp.Word.{to_word}
use ocaml.Generic.Hash.{uint32, Hashing, visit, hash_loop, caml_hash, final_mix, queue_limit}
use ocaml.Generic.Agreement.{IsCompatible, IsTagged}
use ocaml.Generic.Alike.{Pairs, Alike}
use ocaml.Generic.HashVisit.{height, IsFollowed}
use ocaml.Generic.HashLoop.{BothAlike, visit-equal}
use ocaml.Generic.HashTurns.{left, visit-left}

module _ (p : Platform) (compatible : IsCompatible p) (h : Heap) (tagged : IsTagged h) (sz : ℕ)
    (rank : ℕ → ℕ) (followed_lower : (a : ℕ) → IsFollowed rank (h a) (rank a)) (depth : ℕ)
    (deep : (a : ℕ) → rank a < depth) where
  Both : Option Hashing → Option Hashing → Type 0
  Both o o' = BothAlike p compatible h tagged sz rank followed_lower o o'

  height-depth : (v : Value) → height rank v ≤ depth
  height-depth (long m) = omega arith
  height-depth (ptr a) = deep a
  height-depth (outside a) = omega arith

  hash_loop-Both :
      (fuel : ℕ) (st st' : Hashing)
      → Alike p h st st'
      → left sz st < fuel
      → Both (hash_loop p sz h depth fuel st) (hash_loop p sz h depth fuel st')
  unfolding hash_loop Both
  hash_loop-Both zero st st' s enough = absurd (omega arith)
  hash_loop-Both (suc fuel) st st' s enough =
      go st.queue st'.queue refl s.same_queue (λ t t' al fewer. hash_loop-Both fuel t t' al fewer)
    where
      visited :
          (o o' : Option Hashing)
          → Both o o'
          → ((t : Hashing) → o ≡ some t → left sz t < fuel)
          → ((t t' : Hashing)
              → Alike p h t t'
              → left sz t < fuel
              → Both (hash_loop p sz h depth fuel t) (hash_loop p sz h depth fuel t'))
          → Both
              (elim o [ none ↦ none | some t ↦ hash_loop p sz h depth fuel t ])
              (elim o' [ none ↦ none | some t ↦ hash_loop p sz h depth fuel t ])
      visited (some t) (some t') both fewer rec = rec t t' both (fewer t refl)
      visited (some t) none both fewer rec = elim both [ ]
      visited none o' both fewer rec = elim both [ ]

      turn :
          (done done' : Bool) (v w : Value) (vs ws : List Value)
          → done ≡ done'
          → st.queue ≡ v ∷ vs
          → Compares p true h v w equal
          → Pairs p h vs ws
          → ((t t' : Hashing)
              → Alike p h t t'
              → left sz t < fuel
              → Both (hash_loop p sz h depth fuel t) (hash_loop p sz h depth fuel t'))
          → Both
              (if done then some st else elim (visit p sz h depth v (record st { queue = vs })) [
                | none ↦ none
                | some t ↦ hash_loop p sz h depth fuel t
              ])
              (if done' then some st' else elim (visit p sz h depth w (record st' { queue = ws })) [
                | none ↦ none
                | some t ↦ hash_loop p sz h depth fuel t
              ])
      turn true true v w vs ws ed eq d ds rec = s
      turn true false v w vs ws ed eq d ds rec = absurd (cc)
      turn false true v w vs ws ed eq d ds rec = absurd (cc)
      turn false false v w vs ws ed eq d ds rec =
          let st1 : Hashing = record st { queue = vs } in
          let st2 : Hashing = record st' { queue = ws } in
          let alike : Alike p h st1 st2 = record {
            same_hash = s.same_hash;
            same_num = s.same_num;
            same_wr = s.same_wr;
            same_queue = ds;
          } in
          let shorter : length st.queue ≡ suc (length vs) = ap length eq in
          visited (visit p sz h depth v st1) (visit p sz h depth w st2)
            (visit-equal p compatible h tagged sz rank followed_lower d refl depth depth st1 st2
              (height-depth v) (height-depth w) alike)
            (λ t e.
              let fewer = visit-left p sz h depth v st1 t e in
              omega (arith, fewer, shorter, enough))
            rec

      go :
          (q q' : List Value)
          → st.queue ≡ q
          → Pairs p h q q'
          → ((t t' : Hashing)
              → Alike p h t t'
              → left sz t < fuel
              → Both (hash_loop p sz h depth fuel t) (hash_loop p sz h depth fuel t'))
          → Both
              (elim q [
                | [] ↦ some st
                | v ∷ vs ↦
                    if not (ltb_ℤ (pos 0) st.num)
                    then some st
                    else elim (visit p sz h depth v (record st { queue = vs })) [
                      | none ↦ none
                      | some t ↦ hash_loop p sz h depth fuel t
                    ]
              ])
              (elim q' [
                | [] ↦ some st'
                | v ∷ vs ↦
                    if not (ltb_ℤ (pos 0) st'.num)
                    then some st'
                    else elim (visit p sz h depth v (record st' { queue = vs })) [
                      | none ↦ none
                      | some t ↦ hash_loop p sz h depth fuel t
                    ]
              ])
      go [] [] eq d rec = s
      go [] (w ∷ ws) eq d rec = elim d [ ]
      go (v ∷ vs) [] eq d rec = elim d [ ]
      go (v ∷ vs) (w ∷ ws) eq d rec =
          turn (not (ltb_ℤ (pos 0) st.num)) (not (ltb_ℤ (pos 0) st'.num)) v w vs ws
            (ap (λ n. not (ltb_ℤ (pos 0) n)) s.same_num) eq d.0 d.1 rec

  Both-final :
      (o o' : Option Hashing)
      → Both o o'
      → (n : ℕ) × ((elim o [ none ↦ none | some st ↦ some (final_mix st.hash % 2 ^ 30) ]) ≡ some n)
        × ((elim o' [ none ↦ none | some st ↦ some (final_mix st.hash % 2 ^ 30) ]) ≡ some n)
        × (n < 2 ^ 30)
  unfolding Both
  Both-final (some st) (some st') s = (
    final_mix st.hash % 2 ^ 30,
    refl,
    ap (λ n. some (final_mix n % 2 ^ 30)) (sym s.same_hash),
    omega arith,
  )
  Both-final (some st) none s = elim s [ ]
  Both-final none o' s = elim s [ ]

queue_limit-le : (limit : ℤ) → queue_limit limit ≤ 256
unfolding queue_limit
queue_limit-le (pos n) = ground arith
queue_limit-le (negsuc n) = omega arith

-- Values that compare equal, with NaN equal to itself, have the same hash, whatever the seed and the
-- limits are: caml_hash_r returns it for both, and it is a nonnegative integer of 30 bits. This is on a
-- platform whose floats and custom blocks are compatible, where blocks of fields have the tags of such
-- blocks, and where chains of forward and infix pointers are not longer than the depth.
pub caml_hash-equal :
    (p : Platform) (h : Heap) (rank : ℕ → ℕ) (depth : ℕ) (count limit seed : ℤ) (v w : Value)
    → IsCompatible p
    → IsTagged h
    → ((a : ℕ) → IsFollowed rank (h a) (rank a))
    → ((a : ℕ) → rank a < depth)
    → Compares p true h v w equal
    → (n : ℕ) × (caml_hash p h depth count limit seed v ≡ some n)
      × (caml_hash p h depth count limit seed w ≡ some n)
      × (n < 2 ^ 30)
unfolding caml_hash
caml_hash-equal p h rank depth count limit seed v w compatible tagged followed_lower deep d =
    let sz = queue_limit limit in
    let st : Hashing = record {
      hash = uint32 (to_word seed);
      num = count;
      queue = v ∷ [];
      wr = 1;
    } in
    let st' : Hashing = record {
      hash = uint32 (to_word seed);
      num = count;
      queue = w ∷ [];
      wr = 1;
    } in
    let alike : Alike p h st st' = record {
      same_hash = refl;
      same_num = refl;
      same_wr = refl;
      same_queue = (d, tt);
    } in
    Both-final p compatible h tagged sz rank followed_lower depth deep
      (hash_loop p sz h depth 258 st) (hash_loop p sz h depth 258 st')
      (hash_loop-Both p compatible h tagged sz rank followed_lower depth deep 258 st st' alike
        (omega (arith, queue_limit-le limit)))
