-- ===== src/Generic/Lexicographic.antt =====
-- The order that byterun/compare.c computes, as a relation without a stack.
use ocaml.Common.{
  ℕ, zero, suc, ◌≡◌, ◌⊎◌, inl, inr, refl, ap, subst, ◌∙◌, Bool, Option, some, none, List, [], ◌∷◌,
  arith,
}
use ocaml.Common.Int.{pos}
use ocaml.Generic.Heap.{Value, Heap, Platform}
use ocaml.Generic.Compare.{
  Answer, returns, out_of_memory, Turn, next_item, stop, again, descend, compare_turn,
}
use ocaml.Generic.Loop.{
  Stack, put_back, push_fields, pop_item, enter_fields, after_turn, compare_loop,
}

-- Two values are equal, or comparing them ends the comparison.
pub data Result : Type 0 where
  equal : Result
  answered : Answer → Result

-- The comparison of two values and of two lists of fields: fields are compared from the first on, up to
-- the first pair that is not equal. The leaves and the order of tags and sizes are those of a turn.
mutual
  pub data Compares (p : Platform) (total : Bool) (h : Heap) : Value → Value → Result → Type 0 where
    settled : (v w : Value) → compare_turn p total h v w ≡ next_item → Compares p total h v w equal
    stopped :
        (v w : Value) (a : Answer)
        → compare_turn p total h v w ≡ stop a
        → Compares p total h v w (answered a)
    followed :
        (v w v' w' : Value) (r : Result)
        → compare_turn p total h v w ≡ again v' w'
        → Compares p total h v' w' r
        → Compares p total h v w r
    entered :
        (v w : Value) (fs gs : List Value) (r : Result)
        → compare_turn p total h v w ≡ descend fs gs
        → ComparesAll p total h fs gs r
        → Compares p total h v w r

  pub data ComparesAll (p : Platform) (total : Bool) (h : Heap)
      : List Value → List Value → Result → Type 0 where
    none_left : (gs : List Value) → ComparesAll p total h [] gs equal
    none_right : (f : Value) (fs : List Value) → ComparesAll p total h (f ∷ fs) [] equal
    decided :
        (f g : Value) (fs gs : List Value) (a : Answer)
        → Compares p total h f g (answered a)
        → ComparesAll p total h (f ∷ fs) (g ∷ gs) (answered a)
    passed :
        (f g : Value) (fs gs : List Value) (r : Result)
        → Compares p total h f g equal
        → ComparesAll p total h fs gs r
        → ComparesAll p total h (f ∷ fs) (g ∷ gs) r

-- What compare_val_r answers for a result.
abbrev pub answer_of : Result → Answer
answer_of equal = returns (pos 0)
answer_of (answered a) = a

module _ (p : Platform) (memory : ℕ → Bool) (total : Bool) (h : Heap) where
  -- The stack read as fields still to compare.
  unfoldable pub Rest : List (List Value × List Value) → Answer → Type 0
  Rest [] a = a ≡ returns (pos 0)
  Rest ((fs, gs) ∷ items) a =
      ComparesAll p total h fs gs (answered a) ⊎ (ComparesAll p total h fs gs equal × Rest items a)

  unfoldable pub Runs : Value → Value → List (List Value × List Value) → Answer → Type 0
  unfolding Rest
  Runs v w items a =
      Compares p total h v w (answered a) ⊎ (Compares p total h v w equal × Rest items a)

  -- The loop, on a fuel, answers as the relation says.
  unfoldable pub Sound : (Value → Value → Stack → Option Answer) → Type 0
  unfolding Runs
  Sound on =
      (v w : Value) (st : Stack) (a : Answer)
      → on v w st ≡ some a
      → (a ≡ out_of_memory) ⊎ Runs v w st.items a

  put_back-Rest :
      (fs gs : List Value) (items : List (List Value × List Value)) (a : Answer)
      → Rest (put_back fs gs items) a
      → ComparesAll p total h fs gs (answered a)
        ⊎ (ComparesAll p total h fs gs equal × Rest items a)
  unfolding put_back Rest
  put_back-Rest [] gs items a r = inr (none_left gs, r)
  put_back-Rest (f ∷ fs) gs items a r = r

  Runs-Rest :
      (f g : Value) (fs gs : List Value) (items : List (List Value × List Value)) (a : Answer)
      → Runs f g (put_back fs gs items) a
      → Rest ((f ∷ fs, g ∷ gs) ∷ items) a
  unfolding Runs Rest
  Runs-Rest f g fs gs items a (inl now) = inl (decided f g fs gs a now)
  Runs-Rest f g fs gs items a (inr (same, later)) = elim (put_back-Rest fs gs items a later) [
    | inl there ↦ inl (passed f g fs gs (answered a) same there)
    | inr (all, behind) ↦ inr (passed f g fs gs equal same all, behind)
  ]

  pop_item-Rest :
      (on : Value → Value → Stack → Option Answer)
      → Sound on
      → (items : List (List Value × List Value)) (size : ℕ) (a : Answer)
      → pop_item on (record { items = items; size = size }) ≡ some a
      → (a ≡ out_of_memory) ⊎ Rest items a
  unfolding pop_item Rest Sound
  pop_item-Rest on sound [] size a e = inr (cc)
  pop_item-Rest on sound (([], gs) ∷ items) size a e =
      elim (pop_item-Rest on sound items size a e) [
        | inl o ↦ inl o
        | inr r ↦ inr (inr (none_left gs, r))
      ]
  pop_item-Rest on sound ((f ∷ fs, []) ∷ items) size a e =
      elim (pop_item-Rest on sound items size a e) [
        | inl o ↦ inl o
        | inr r ↦ inr (inr (none_right f fs, r))
      ]
  pop_item-Rest on sound ((f ∷ fs, g ∷ gs) ∷ items) size a e =
      elim (sound f g (record { items = put_back fs gs items; size = size }) a e) [
        | inl o ↦ inl o
        | inr r ↦ inr (Runs-Rest f g fs gs items a r)
      ]

  pub push_fields-items :
      (fs gs : List Value) (st st' : Stack)
      → push_fields memory fs gs st ≡ some st'
      → st'.items ≡ put_back fs gs st.items
  unfolding push_fields put_back
  push_fields-items [] gs st st' e = ground arith
  push_fields-items (f ∷ fs) gs st st' e = ground arith

  enter_fields-Rest :
      (on : Value → Value → Stack → Option Answer)
      → Sound on
      → (fs gs : List Value) (st : Stack) (a : Answer) → enter_fields memory on fs gs st ≡ some a
      → (a ≡ out_of_memory) ⊎ Rest ((fs, gs) ∷ st.items) a
  unfolding enter_fields Rest Sound
  enter_fields-Rest on sound [] gs st a e = pop_item-Rest on sound (([], gs) ∷ st.items) st.size a e
  enter_fields-Rest on sound (f ∷ fs) [] st a e =
      pop_item-Rest on sound ((f ∷ fs, []) ∷ st.items) st.size a e
  enter_fields-Rest on sound (f ∷ fs) (g ∷ gs) st a e = go (push_fields memory fs gs st) refl e
    where
      go :
          (o : Option Stack)
          → push_fields memory fs gs st ≡ o
          → (elim o [ none ↦ some out_of_memory | some st' ↦ on f g st' ]) ≡ some a
          → (a ≡ out_of_memory) ⊎ Rest ((f ∷ fs, g ∷ gs) ∷ st.items) a
      go none eo ea = inl (cc)
      go (some st') eo ea = elim (sound f g st' a ea) [
        | inl o ↦ inl o
        | inr r ↦ inr (
            Runs-Rest f g fs gs st.items a
              (subst (λ i. Runs f g i a) (push_fields-items fs gs st st' eo) r))
      ]

  after_turn-Runs :
      (on : Value → Value → Stack → Option Answer)
      → Sound on
      → (v w : Value) (turn : Turn) (st : Stack) (a : Answer) → compare_turn p total h v w ≡ turn
      → after_turn memory on turn st ≡ some a
      → (a ≡ out_of_memory) ⊎ Runs v w st.items a
  unfolding after_turn Runs Sound
  after_turn-Runs on sound v w (stop b) st a et e = inr (inl (stopped v w a (et ∙ ap stop (cc))))
  after_turn-Runs on sound v w (again v' w') st a et e = elim (sound v' w' st a e) [
    | inl o ↦ inl o
    | inr (inl now) ↦ inr (inl (followed v w v' w' (answered a) et now))
    | inr (inr (same, rest)) ↦ inr (inr (followed v w v' w' equal et same, rest))
  ]
  after_turn-Runs on sound v w next_item st a et e =
      elim (pop_item-Rest on sound st.items st.size a e) [
        | inl o ↦ inl o
        | inr r ↦ inr (inr (settled v w et, r))
      ]
  after_turn-Runs on sound v w (descend fs gs) st a et e =
      elim (enter_fields-Rest on sound fs gs st a e) [
        | inl o ↦ inl o
        | inr (inl now) ↦ inr (inl (entered v w fs gs (answered a) et now))
        | inr (inr (same, rest)) ↦ inr (inr (entered v w fs gs equal et same, rest))
      ]

  pub compare_loop-Sound : (fuel : ℕ) → Sound (compare_loop p memory total h fuel)
  unfolding compare_loop Sound
  compare_loop-Sound zero v w st a e = absurd (cc)
  compare_loop-Sound (suc fuel) v w st a e =
      after_turn-Runs (compare_loop p memory total h fuel) (compare_loop-Sound fuel) v w
        (compare_turn p total h v w) st a refl e
