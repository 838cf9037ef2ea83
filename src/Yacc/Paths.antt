-- ===== src/Yacc/Paths.antt =====
-- The invariant of yacc/warshall.c, and its result.
use native.Mathlib.Nat.{pow-suc, one-le-pow, pow-le-pow_right}
use ocaml.Common.{
  ℕ, zero, suc, ◌+◌, ◌*◌, ◌/◌, ◌%◌, ◌^◌, ◌≤◌, ◌<◌, ◌≡◌, ◌⊎◌, ◌↔◌, inl, inr, refl, sym, ap, subst,
  ◌∙◌, Bool, true, false, ◌&&◌, ◌||◌, ◌==◌, if◌then◌else◌, arith,
}
use ocaml.Yacc.Warshall.{Matrix, closure_rows, closure_from, transitive_closure}
use ocaml.Yacc.Closure.{
  edge, Reaches, along, through, Reaches-append, stepped, closure_rows-stepped,
}

-- Two steps by k are one, where k is joined before or is i itself.
join_before :
    (ak ai ik kb ki ib ab : Bool)
    → (ak || (ai && ik)) ≡ true
    → (kb || (ki && ib)) ≡ true
    → (ak ≡ true → kb ≡ true → ab ≡ true)
    → (ak ≡ true → ki ≡ true → ai ≡ true)
    → (ik ≡ true → kb ≡ true → ib ≡ true)
    → (ab || (ai && ib)) ≡ true
join_before ak ai ik kb ki ib ab e e' f g h = ground (arith, e, e', f, g, h)

join_here :
    (ai ii ib ab : Bool)
    → (ai || (ai && ii)) ≡ true
    → (ib || (ii && ib)) ≡ true
    → (ab || (ai && ib)) ≡ true
join_here ai ii ib ab e e' = ground (arith, e, e')

-- Where the passes stand: those below i are done.
record Passed (n : ℕ) (m₀ : Matrix) (i : ℕ) (m : Matrix) : Type 0 where
  sound : (a b : ℕ) → a < n → edge m a b ≡ true → Reaches n m₀ a b
  kept : (a b : ℕ) → a < n → edge m₀ a b ≡ true → edge m a b ≡ true
  joined :
      (a k b : ℕ)
      → a < n
      → k < n
      → k < i
      → edge m a k ≡ true
      → edge m k b ≡ true
      → edge m a b ≡ true

pass-Passed :
    (n : ℕ) (m₀ : Matrix) (i : ℕ) (m : Matrix)
    → i < n
    → Passed n m₀ i m
    → Passed n m₀ (suc i) (closure_rows i (i / 32) (2 ^ (i % 32)) n 0 m)
pass-Passed n m₀ i m small h = record {
  sound = λ a b sa e.
      let e' : stepped m i a b ≡ true = sym (row a b sa) ∙ e in
      split a b sa (edge m a b) refl (edge m a i) refl (edge m i b) refl e';
  kept = λ a b sa e. row a b sa ∙ ground (arith, h.kept a b sa e);
  joined = λ a k b sa sk lt e e'.
      row a b sa ∙ join a k b sa sk lt (sym (row a k sa) ∙ e) (sym (row k b sk) ∙ e');
}
  where
    row :
        (a b : ℕ)
        → a < n
        → edge (closure_rows i (i / 32) (2 ^ (i % 32)) n 0 m) a b ≡ stepped m i a b
    row a b sa = closure_rows-stepped i n 0 m a b ∙ ground (arith, sa)

    split :
        (a b : ℕ)
        → a < n
        → (x : Bool) → edge m a b ≡ x
        → (y : Bool) → edge m a i ≡ y
        → (z : Bool) → edge m i b ≡ z
        → (x || (y && z)) ≡ true
        → Reaches n m₀ a b
    split a b sa true e y e' z e'' t = h.sound a b sa e
    split a b sa false e true e' true e'' t =
        Reaches-append n m₀ a i b small (h.sound a i sa e') (h.sound i b small e'')
    split a b sa false e true e' false e'' t = absurd (cc)
    split a b sa false e false e' z e'' t = absurd (cc)

    join :
        (a k b : ℕ)
        → a < n
        → k < n
        → k < suc i
        → stepped m i a k ≡ true
        → stepped m i k b ≡ true
        → stepped m i a b ≡ true
    join a k b sa sk lt e e' = at (k == i) refl
      where
        at : (c : Bool) → (k == i) ≡ c → stepped m i a b ≡ true
        at true same =
            let k_is : k ≡ i = ground (arith, same) in
            join_here (edge m a i) (edge m i i) (edge m i b) (edge m a b)
              (subst (λ x. stepped m i a x ≡ true) k_is e)
              (subst (λ x. stepped m i x b ≡ true) k_is e')
        at false other =
            let before : k < i = ground (arith, other, lt) in
            join_before (edge m a k) (edge m a i) (edge m i k) (edge m k b) (edge m k i)
              (edge m i b) (edge m a b) e e' (h.joined a k b sa sk before)
              (h.joined a k i sa sk before) (h.joined i k b small sk before)

-- The mask of bit i moves on to the next bit, or out of the word and to the next.
abbrev pub Moves : ℕ → Type 0
Moves i =
    (((2 * 2 ^ (i % 32)) % 2 ^ 32 ≡ 0) × (suc i / 32 ≡ i / 32 + 1) × (2 ^ (suc i % 32) ≡ 1))
    ⊎ (((2 * 2 ^ (i % 32)) % 2 ^ 32 ≡ 2 ^ (suc i % 32))
        × (0 < 2 ^ (suc i % 32))
        × (suc i / 32 ≡ i / 32))

pub next_mask : (i : ℕ) → Moves i
next_mask i = go (i % 32 == 31) refl
  where
    go : (last : Bool) → (i % 32 == 31) ≡ last → Moves i
    go true e =
        let k_is : i % 32 ≡ 31 = ground (arith, e) in
        let next : suc i % 32 ≡ 0 = omega (arith, k_is) in
        inl (
          ap (λ (k : ℕ). (2 * 2 ^ k) % 2 ^ 32) k_is,
          omega (arith, k_is),
          ap (λ (k : ℕ). 2 ^ k) next,
        )
    go false e =
        let small : i % 32 ≤ 30 = ground (arith, e) in
        let next : suc i % 32 ≡ suc (i % 32) = omega (arith, small) in
        let power : 2 ^ (suc i % 32) ≡ 2 * 2 ^ (i % 32) =
          ap (λ (k : ℕ). 2 ^ k) next ∙ omega (arith, pow-suc 2 (i % 32)) in
        let low : 1 ≤ 2 ^ (i % 32) = one-le-pow (i % 32) 2 (omega arith) in
        let high : 2 ^ (i % 32) ≤ 2 ^ 30 = pow-le-pow_right (omega arith) small in
        inr (omega (arith, power, high), omega (arith, power, low), omega (arith, small))

closure_from-Passed :
    (n : ℕ) (m₀ : Matrix) (count i cword mask : ℕ) (m : Matrix)
    → i + count ≡ n
    → cword ≡ i / 32
    → mask ≡ 2 ^ (i % 32)
    → Passed n m₀ i m
    → Passed n m₀ n (closure_from n count i cword mask m)
unfolding closure_from
closure_from-Passed n m₀ zero i cword mask m total ec em h =
    let all : i ≡ n = omega (arith, total) in subst (λ x. Passed n m₀ x m) all h
closure_from-Passed n m₀ (suc count) i cword mask m total ec em h =
    go (closure_rows i cword mask n 0 m)
      (subst (λ x. Passed n m₀ (suc i) (closure_rows i x mask n 0 m)) (sym ec)
        (subst (λ x. Passed n m₀ (suc i) (closure_rows i (i / 32) x n 0 m)) (sym em)
          (pass-Passed n m₀ i m (omega (arith, total)) h)))
      ((2 * mask) % 2 ^ 32) (ap (λ (x : ℕ). (2 * x) % 2 ^ 32) em) (next_mask i)
      (λ c' mask' m' ec' em' h'.
        closure_from-Passed n m₀ count (suc i) c' mask' m' (omega (arith, total)) ec' em' h')
  where
    go :
        (m' : Matrix)
        → Passed n m₀ (suc i) m'
        → (mask' : ℕ) → mask' ≡ (2 * 2 ^ (i % 32)) % 2 ^ 32
        → Moves i
        → ((c' mask' : ℕ) (m' : Matrix)
            → c' ≡ suc i / 32
            → mask' ≡ 2 ^ (suc i % 32)
            → Passed n m₀ (suc i) m'
            → Passed n m₀ n (closure_from n count (suc i) c' mask' m'))
        → Passed n m₀ n (
            if mask' == 0
            then closure_from n count (suc i) (cword + 1) 1 m'
            else closure_from n count (suc i) cword mask' m')
    go m' h' mask' e (inl (none, word, bit)) rec =
        let is_zero : (mask' == 0) ≡ true = ground (arith, e, none) in
        subst
          (λ (c : Bool). Passed n m₀ n (
            if c
            then closure_from n count (suc i) (cword + 1) 1 m'
            else closure_from n count (suc i) cword mask' m'))
          (sym is_zero) (rec (cword + 1) 1 m' (omega (arith, ec, word)) (sym bit) h')
    go m' h' mask' e (inr (shifted, some_bit, word)) rec =
        let not_zero : (mask' == 0) ≡ false = ground (arith, e, shifted, some_bit) in
        subst
          (λ (c : Bool). Passed n m₀ n (
            if c
            then closure_from n count (suc i) (cword + 1) 1 m'
            else closure_from n count (suc i) cword mask' m'))
          (sym not_zero) (rec cword mask' m' (ec ∙ sym word) (e ∙ shifted) h')

Reaches-edge :
    (n : ℕ) (m₀ m : Matrix)
    → Passed n m₀ n m
    → (a b : ℕ) → a < n
    → Reaches n m₀ a b
    → edge m a b ≡ true
Reaches-edge n m₀ m h a b sa (along _ _ e) = h.kept a b sa e
Reaches-edge n m₀ m h a b sa (through _ k _ sk e rest) =
    h.joined a k b sa sk sk (h.kept a k sa e) (Reaches-edge n m₀ m h k b sk rest)

-- transitive_closure of the matrix of n rows sets bit b of row a, for a row a, where b is reached from a
-- along one edge of the matrix or more, and no other bit.
pub transitive_closure-edge :
    (n : ℕ) (m : Matrix) (a b : ℕ)
    → a < n
    → (edge (transitive_closure n m) a b ≡ true) ↔ Reaches n m a b
unfolding transitive_closure
transitive_closure-edge n m a b sa =
    let h = closure_from-Passed n m n 0 0 1 m (omega arith) (omega arith) refl (record {
      sound = λ a b sa e. along a b e;
      kept = λ a b sa e. e;
      joined = λ a k b sa sk lt e e'. absurd (omega arith);
    }) in
    (h.sound a b sa, Reaches-edge n m (closure_from n n 0 0 1 m) h a b sa)
