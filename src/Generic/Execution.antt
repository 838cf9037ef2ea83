-- ===== src/Generic/Execution.antt =====
-- The loop of byterun/compare.c against the relation without a stack.
use ocaml.Common.{
  ℕ, suc, ◌+◌, ◌-◌, ◌≤◌, ◌≡◌, ◌⊎◌, inl, inr, refl, sym, ap, subst, ◌∙◌, Bool, Option, some, none,
  List, [], ◌∷◌, arith,
}
use ocaml.Generic.Heap.{Value, Heap, Platform}
use ocaml.Generic.Compare.{
  Answer, out_of_memory, Turn, next_item, stop, again, descend, compare_turn,
}
use ocaml.Generic.Loop.{
  Stack, put_back, push_fields, pop_item, enter_fields, after_turn, compare_loop, compare_val,
}
use ocaml.Generic.Lexicographic.{
  Result, equal, answered, Compares, settled, stopped, followed, entered, ComparesAll, none_left,
  none_right, decided, passed, answer_of, Rest, Runs, Sound, compare_loop-Sound, push_fields-items,
}

module _ (p : Platform) (memory : ℕ → Bool) (total : Bool) (h : Heap) where
  -- Where the loop goes with a result: on to what is on the stack, or out.
  finish : Result → ℕ → Stack → Option Answer
  finish equal g st = pop_item (compare_loop p memory total h g) st
  finish (answered a) g st = some a

  -- The stack runs out of memory, or the loop goes where the result leads.
  Leads : Option Answer → Result → ℕ → Stack → Type 0
  unfolding finish
  Leads o r g st = (o ≡ some out_of_memory) ⊎ (o ≡ finish r g st)

  pop_item-put_back :
      (on : Value → Value → Stack → Option Answer) (fs gs : List Value)
      (items : List (List Value × List Value)) (size : ℕ)
      → pop_item on (record { items = put_back fs gs items; size = size })
        ≡ pop_item on (record { items = (fs, gs) ∷ items; size = size })
  unfolding pop_item put_back
  pop_item-put_back on [] gs items size = refl
  pop_item-put_back on (f ∷ fs) gs items size = refl

  -- Pushing fields, whatever comes after.
  enter_fields-pop_item :
      (fs gs : List Value) (st : Stack)
      → ((on : Value → Value → Stack → Option Answer)
          → enter_fields memory on fs gs st ≡ some out_of_memory)
        ⊎ ((size' : ℕ) × ((on : Value → Value → Stack → Option Answer)
              → enter_fields memory on fs gs st
                ≡ pop_item on (record { items = (fs, gs) ∷ st.items; size = size' })))
  unfolding enter_fields
  enter_fields-pop_item [] gs st = inr (st.size, λ on. refl)
  enter_fields-pop_item (f ∷ fs) [] st = inr (st.size, λ on. refl)
  enter_fields-pop_item (f ∷ fs) (g ∷ gs) st = go (push_fields memory fs gs st) refl
    where
      go :
          (o : Option Stack)
          → push_fields memory fs gs st ≡ o
          → ((on : Value → Value → Stack → Option Answer)
              → (elim o [ none ↦ some out_of_memory | some st' ↦ on f g st' ]) ≡ some out_of_memory)
            ⊎ ((size' : ℕ) × ((on : Value → Value → Stack → Option Answer)
                  → (elim o [ none ↦ some out_of_memory | some st' ↦ on f g st' ])
                    ≡ on f g (record { items = put_back fs gs st.items; size = size' })))
      go none e = inl (λ on. refl)
      go (some st') e = inr (
        st'.size,
        λ on.
            ap (λ i. on f g (record { items = i; size = st'.size }))
              (push_fields-items p memory total h fs gs st st' e),
      )

  compare_loop-turn :
      (g : ℕ) (v w : Value) (st : Stack) (turn : Turn)
      → compare_turn p total h v w ≡ turn
      → compare_loop p memory total h (suc g) v w st
        ≡ after_turn memory (compare_loop p memory total h g) turn st
  unfolding compare_loop
  compare_loop-turn g v w st turn e =
      ap (λ x. after_turn memory (compare_loop p memory total h g) x st) e

  mutual
    unfolding Leads finish after_turn

    Compares-Leads :
        {v w : Value} {r : Result}
        → Compares p total h v w r
        → (st : Stack)
        → (n : ℕ) × (size' : ℕ) × ((m g : ℕ)
            → m ≡ n + g
            → Leads (compare_loop p memory total h m v w st) r g (record st { size = size' }))
    Compares-Leads (settled v w e) st = (
      1,
      st.size,
      λ m g em.
          let em' : m ≡ suc g = omega arith in
          inr (
            ap (λ k. compare_loop p memory total h k v w st) em'
            ∙ compare_loop-turn g v w st next_item e),
    )
    Compares-Leads (stopped v w a e) st = (
      1,
      st.size,
      λ m g em.
          let em' : m ≡ suc g = omega arith in
          inr (
            ap (λ k. compare_loop p memory total h k v w st) em'
            ∙ compare_loop-turn g v w st (stop a) e),
    )
    Compares-Leads (followed v w v' w' r e d) st =
        let (n, size', leads) = Compares-Leads d st in
        (
          suc n,
          size',
          λ m g em.
              let em' : m ≡ suc (n + g) = omega arith in
              subst (λ o. Leads o r g (record st { size = size' }))
                (sym (
                  ap (λ k. compare_loop p memory total h k v w st) em'
                  ∙ compare_loop-turn (n + g) v w st (again v' w') e))
                (leads (n + g) g refl),
        )
    Compares-Leads (entered v w fs gs r e d) st = elim (enter_fields-pop_item fs gs st) [
      | inl full ↦ (
        1,
        st.size,
        λ m g em.
            let em' : m ≡ suc g = omega arith in
            inl (
              ap (λ k. compare_loop p memory total h k v w st) em'
              ∙ compare_loop-turn g v w st (descend fs gs) e
              ∙ full (compare_loop p memory total h g)),
      )
      | inr (size1, entry) ↦
          let (n, size', leads) = ComparesAll-Leads d st.items size1 in
          (
            suc n,
            size',
            λ m g em.
                let em' : m ≡ suc (n + g) = omega arith in
                subst (λ o. Leads o r g (record st { size = size' }))
                  (sym (
                    ap (λ k. compare_loop p memory total h k v w st) em'
                    ∙ compare_loop-turn (n + g) v w st (descend fs gs) e
                    ∙ entry (compare_loop p memory total h (n + g))))
                  (leads (n + g) g refl),
          )
    ]

    ComparesAll-Leads :
        {fs gs : List Value} {r : Result}
        → ComparesAll p total h fs gs r
        → (items : List (List Value × List Value)) (size : ℕ)
        → (n : ℕ) × (size' : ℕ) × ((m g : ℕ)
            → m ≡ n + g
            → Leads
                (pop_item
                  (compare_loop p memory total h m)
                  (record { items = (fs, gs) ∷ items; size = size }))
                r
                g
                (record { items = items; size = size' }))
    ComparesAll-Leads (none_left gs) items size = (
      0,
      size,
      λ m g em.
          let em' : m ≡ g = omega arith in
          inr (
            ap
              (λ k.
                pop_item (compare_loop p memory total h k) (record { items = items; size = size }))
              em'),
    )
    ComparesAll-Leads (none_right f fs) items size = (
      0,
      size,
      λ m g em.
          let em' : m ≡ g = omega arith in
          inr (
            ap
              (λ k.
                pop_item (compare_loop p memory total h k) (record { items = items; size = size }))
              em'),
    )
    ComparesAll-Leads (decided f g fs gs a d) items size =
        let (n, size', leads) =
          Compares-Leads d (record { items = put_back fs gs items; size = size }) in
        (n, size', leads)
    ComparesAll-Leads (passed f g fs gs r d ds) items size =
        let (n1, size1, leads1) =
          Compares-Leads d (record { items = put_back fs gs items; size = size }) in
        let (n2, size2, leads2) = ComparesAll-Leads ds items size1 in
        (
          n1 + n2,
          size2,
          λ m k em. elim (leads1 m (n2 + k) (omega arith)) [
            | inl o ↦ inl o
            | inr e ↦
                subst (λ o. Leads o r k (record { items = items; size = size2 }))
                  (sym (
                    e
                    ∙ pop_item-put_back (compare_loop p memory total h (n2 + k)) fs gs items size1))
                  (leads2 (n2 + k) k refl)
          ],
        )

  -- Whatever compare_val_r answers, other than that its stack has no room, is the result of comparing
  -- the two values field by field, from the first field on and up to the first that differs.
  pub compare_val-Compares :
      (fuel : ℕ) (v w : Value) (a : Answer)
      → compare_val p memory total h fuel v w ≡ some a
      → (a ≡ out_of_memory) ⊎ ((r : Result) × Compares p total h v w r × (a ≡ answer_of r))
  unfolding compare_val Sound Runs Rest
  compare_val-Compares fuel v w a e =
      elim (compare_loop-Sound p memory total h fuel v w (record { items = []; size = 256 }) a e) [
        | inl o ↦ inl o
        | inr (inl d) ↦ inr (answered a, d, refl)
        | inr (inr (d, ea)) ↦ inr (equal, d, ea)
      ]

  -- Where comparing two values field by field has a result, compare_val_r answers it, or that its stack
  -- has no room, after a number of turns.
  pub compare_val-answers :
      (v w : Value) (r : Result)
      → Compares p total h v w r
      → (turns : ℕ) × ((fuel : ℕ)
          → turns ≤ fuel
          → (compare_val p memory total h fuel v w ≡ some out_of_memory)
            ⊎ (compare_val p memory total h fuel v w ≡ some (answer_of r)))
  unfolding compare_val Leads finish
  compare_val-answers v w equal d =
      let (n, size', leads) = Compares-Leads d (record { items = []; size = 256 }) in
      (n, λ fuel enough. leads fuel (fuel - n) (omega arith))
  compare_val-answers v w (answered a) d =
      let (n, size', leads) = Compares-Leads d (record { items = []; size = 256 }) in
      (n, λ fuel enough. leads fuel (fuel - n) (omega arith))
