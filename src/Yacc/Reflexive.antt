-- ===== src/Yacc/Reflexive.antt =====
-- What reflexive_transitive_closure of yacc/warshall.c computes.
use Prim.Native.Nat.{bit_or}
use ocaml.Common.{
  ℕ, zero, suc, ◌+◌, ◌*◌, ◌/◌, ◌%◌, ◌^◌, ◌<◌, ◌≡◌, ◌⊎◌, ◌↔◌, inl, inr, refl, sym, ap, subst, ◌∙◌,
  Bool, true, false, ◌&&◌, ◌||◌, ◌==◌, leb, if◌then◌else◌, arith,
}
use ocaml.Common.Bits.{testbit, testbit-or, testbit-pow}
use ocaml.Yacc.Warshall.{Matrix, transitive_closure, set_diagonal, reflexive_transitive_closure}
use ocaml.Yacc.Closure.{edge, Reaches}
use ocaml.Yacc.Paths.{Moves, next_mask, transitive_closure-edge}

-- The matrix with one bit of row i set.
abbrev with_bit : ℕ → ℕ → ℕ → Matrix → Matrix
with_bit i word mask m = λ r w. if (r == i) && (w == word) then bit_or (m r w) mask else m r w

with_bit-edge :
    (i : ℕ) (m : Matrix) (r b : ℕ)
    → edge (with_bit i (i / 32) (2 ^ (i % 32)) m) r b ≡ (edge m r b || ((r == i) && (b == i)))
with_bit-edge i m r b = go (r == i) (b / 32 == i / 32) refl
  where
    go :
        (c d : Bool)
        → (b / 32 == i / 32) ≡ d
        → testbit (b % 32) (if c && d then bit_or (m r (b / 32)) (2 ^ (i % 32)) else m r (b / 32))
          ≡ (edge m r b || (c && (b == i)))
    go true true e =
        let same : (b % 32 == i % 32) ≡ (b == i) = ground (arith, e) in
        testbit-or (b % 32) (m r (b / 32)) (2 ^ (i % 32))
        ∙ ap (λ x. edge m r b || x) (testbit-pow (b % 32) (i % 32) ∙ same)
    go true false e = let other : (b == i) ≡ false = ground (arith, e) in ground (arith, other)
    go false true e = ground arith
    go false false e = ground arith

set_diagonal-edge :
    (n count i word mask : ℕ) (m : Matrix)
    → i + count ≡ n
    → word ≡ i / 32
    → mask ≡ 2 ^ (i % 32)
    → (r b : ℕ) → r < n
    → edge (set_diagonal count i word mask m) r b ≡ (edge m r b || ((r == b) && leb i r))
unfolding set_diagonal
set_diagonal-edge n zero i word mask m total ew em r b small = ground (arith, total, small)
set_diagonal-edge n (suc count) i word mask m total ew em r b small =
    go ((2 * mask) % 2 ^ 32) (ap (λ (x : ℕ). (2 * x) % 2 ^ 32) em) (next_mask i)
      (λ word' mask' ew' em'.
        set_diagonal-edge n count (suc i) word' mask' (with_bit i word mask m)
          (omega (arith, total)) ew' em' r b small
        ∙ ap (λ x. x || ((r == b) && leb (suc i) r)) (set_here)
        ∙ ground arith)
  where
    set_here : edge (with_bit i word mask m) r b ≡ (edge m r b || ((r == i) && (b == i)))
    set_here =
        ap (λ x. edge (with_bit i x mask m) r b) ew
        ∙ ap (λ x. edge (with_bit i (i / 32) x m) r b) em
        ∙ with_bit-edge i m r b

    go :
        (mask' : ℕ)
        → mask' ≡ (2 * 2 ^ (i % 32)) % 2 ^ 32
        → Moves i
        → ((word' mask' : ℕ)
            → word' ≡ suc i / 32
            → mask' ≡ 2 ^ (suc i % 32)
            → edge (set_diagonal count (suc i) word' mask' (with_bit i word mask m)) r b
              ≡ (edge m r b || ((r == b) && leb i r)))
        → edge
            (if mask' == 0
              then set_diagonal count (suc i) (word + 1) 1 (with_bit i word mask m)
              else set_diagonal count (suc i) word mask' (with_bit i word mask m))
            r
            b
          ≡ (edge m r b || ((r == b) && leb i r))
    go mask' e (inl (none, next, bit)) rec =
        let is_zero : (mask' == 0) ≡ true = ground (arith, e, none) in
        ap
          (λ (c : Bool).
            edge
              (if c
                then set_diagonal count (suc i) (word + 1) 1 (with_bit i word mask m)
                else set_diagonal count (suc i) word mask' (with_bit i word mask m))
              r b)
          is_zero
        ∙ rec (word + 1) 1 (omega (arith, ew, next)) (sym bit)
    go mask' e (inr (shifted, some_bit, next)) rec =
        let not_zero : (mask' == 0) ≡ false = ground (arith, e, shifted, some_bit) in
        ap
          (λ (c : Bool).
            edge
              (if c
                then set_diagonal count (suc i) (word + 1) 1 (with_bit i word mask m)
                else set_diagonal count (suc i) word mask' (with_bit i word mask m))
              r b)
          not_zero
        ∙ rec word mask' (ew ∙ sym next) (e ∙ shifted)

-- reflexive_transitive_closure of the matrix of n rows sets bit b of row a, for a row a, where b is a or
-- is reached from a along one edge of the matrix or more, and no other bit.
pub reflexive_transitive_closure-edge :
    (n : ℕ) (m : Matrix) (a b : ℕ)
    → a < n
    → (edge (reflexive_transitive_closure n m) a b ≡ true) ↔ ((a ≡ b) ⊎ Reaches n m a b)
unfolding reflexive_transitive_closure
reflexive_transitive_closure-edge n m a b small =
    let closed = transitive_closure-edge n m a b small in
    let diagonal : edge (set_diagonal n 0 0 1 (transitive_closure n m)) a b
        ≡ (edge (transitive_closure n m) a b || ((a == b) && leb 0 a)) =
      set_diagonal-edge n n 0 0 1 (transitive_closure n m) (omega arith) (omega arith) refl a b
        small in
    (
      λ e. forward (edge (transitive_closure n m) a b) (sym diagonal ∙ e) closed.0,
      λ r. diagonal ∙ backward (edge (transitive_closure n m) a b) closed.1 r,
    )
  where
    forward :
        (x : Bool)
        → (x || ((a == b) && leb 0 a)) ≡ true
        → (x ≡ true → Reaches n m a b)
        → (a ≡ b) ⊎ Reaches n m a b
    forward true e f = inr (f refl)
    forward false e f = inl (ground (arith, e))

    backward :
        (x : Bool)
        → (Reaches n m a b → x ≡ true)
        → (a ≡ b) ⊎ Reaches n m a b
        → (x || ((a == b) && leb 0 a)) ≡ true
    backward true f r = refl
    backward false f (inl e) = ground (arith, e)
    backward false f (inr r) =
        absurd (subst (λ (x : Bool). if x then Unit {0} else ⊥) (sym (f r)) tt)
