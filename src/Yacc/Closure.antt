-- ===== src/Yacc/Closure.antt =====
-- What yacc/warshall.c computes: which nodes are reached along the edges of a matrix.
use Prim.Native.Nat.{bit_and, bit_or}
use ocaml.Common.{
  ℕ, zero, suc, ◌+◌, ◌/◌, ◌%◌, ◌^◌, ◌<◌, ◌≡◌, ◌≢◌, refl, sym, ap, subst, ◌∙◌, Bool, true, false,
  not, ◌&&◌, ◌||◌, ◌==◌, if◌then◌else◌, ltb, arith,
}
use ocaml.Common.Bits.{testbit, testbit-or, testbit-and}
use ocaml.Yacc.Warshall.{Matrix, or_row, closure_rows}

-- BIT(row r, b).
abbrev pub edge : Matrix → ℕ → ℕ → Bool
edge m r b = testbit (b % 32) (m r (b / 32))

-- A path of one edge or more through nodes below n.
pub data Reaches (n : ℕ) (m : Matrix) : ℕ → ℕ → Type 0 where
  along : (a b : ℕ) → edge m a b ≡ true → Reaches n m a b
  through : (a k b : ℕ) → k < n → edge m a k ≡ true → Reaches n m k b → Reaches n m a b

pub Reaches-append :
    (n : ℕ) (m : Matrix) (a k b : ℕ) → k < n → Reaches n m a k → Reaches n m k b → Reaches n m a b
Reaches-append n m a k b small (along _ _ e) second = through a k b small e second
Reaches-append n m a k b small (through _ l _ small' e rest) second =
    through a l b small' e (Reaches-append n m l k b small rest second)

-- An edge, or two edges through i.
abbrev pub stepped : Matrix → ℕ → ℕ → ℕ → Bool
stepped m i a b = edge m a b || (edge m a i && edge m i b)

-- The matrix with row j of a pass.
abbrev next_row : ℕ → ℕ → ℕ → ℕ → Matrix → Matrix
next_row i cword mask j m = if not (bit_and (m j cword) mask == 0) then or_row i j m else m

next_row-stepped :
    (i j : ℕ) (m : Matrix) (b : ℕ)
    → edge (next_row i (i / 32) (2 ^ (i % 32)) j m) j b ≡ stepped m i j b
unfolding or_row
next_row-stepped i j m b =
    go (not (bit_and (m j (i / 32)) (2 ^ (i % 32)) == 0)) (testbit-and (i % 32) (m j (i / 32)))
  where
    go : (c : Bool) → c ≡ edge m j i → edge (if c then or_row i j m else m) j b ≡ stepped m i j b
    go true e =
        let here : (j == j) ≡ true = ground arith in
        ap
          (λ c. testbit (b % 32) (if c then bit_or (m j (b / 32)) (m i (b / 32)) else m j (b / 32)))
          here
        ∙ testbit-or (b % 32) (m j (b / 32)) (m i (b / 32))
        ∙ ap (λ c. edge m j b || (c && edge m i b)) e
    go false e = ground (arith, e)

next_row-other :
    (i cword mask j : ℕ) (m : Matrix) (r b : ℕ)
    → r ≢ j
    → edge (next_row i cword mask j m) r b ≡ edge m r b
unfolding or_row
next_row-other i cword mask j m r b ne = go (not (bit_and (m j cword) mask == 0))
  where
    go : (c : Bool) → edge (if c then or_row i j m else m) r b ≡ edge m r b
    go true =
        let other : (r == j) ≡ false = ground (arith, ne) in
        ap
          (λ c. testbit (b % 32) (if c then bit_or (m j (b / 32)) (m i (b / 32)) else m r (b / 32)))
          other
    go false = refl

-- Row i is the same in a pass.
next_row-itself :
    (i j : ℕ) (m : Matrix) (b : ℕ) → edge (next_row i (i / 32) (2 ^ (i % 32)) j m) i b ≡ edge m i b
next_row-itself i j m b = go (i == j) refl
  where
    idem : (x y : Bool) → (x || (y && x)) ≡ x
    idem true y = refl
    idem false true = refl
    idem false false = refl

    go : (c : Bool) → (i == j) ≡ c → edge (next_row i (i / 32) (2 ^ (i % 32)) j m) i b ≡ edge m i b
    go true e =
        let same : j ≡ i = ground (arith, e) in
        subst (λ k. edge (next_row i (i / 32) (2 ^ (i % 32)) k m) i b ≡ edge m i b) (sym same)
          (next_row-stepped i i m b ∙ idem (edge m i b) (edge m i i))
    go false e =
        next_row-other i (i / 32) (2 ^ (i % 32)) j m i b (λ h. absurd (ground (arith, h, e)))

-- A pass: the rows from j on, before `j + count`.
pub closure_rows-stepped :
    (i count j : ℕ) (m : Matrix) (r b : ℕ)
    → edge (closure_rows i (i / 32) (2 ^ (i % 32)) count j m) r b
      ≡ (if ltb r j then edge m r b else if ltb r (j + count) then stepped m i r b else edge m r b)
unfolding closure_rows
closure_rows-stepped i zero j m r b = ground arith
closure_rows-stepped i (suc count) j m r b =
    let m' = next_row i (i / 32) (2 ^ (i % 32)) j m in
    closure_rows-stepped i count (suc j) m' r b ∙ go (r == j) refl
  where
    m'' : Matrix
    m'' = next_row i (i / 32) (2 ^ (i % 32)) j m

    go :
        (c : Bool)
        → (r == j) ≡ c
        → (if ltb r (suc j)
            then edge m'' r b
            else if ltb r (suc j + count)
            then stepped m'' i r b
            else edge m'' r b)
          ≡ (if ltb r j
              then edge m r b
              else if ltb r (j + suc count)
              then stepped m i r b
              else edge m r b)
    go true e =
        let same : r ≡ j = ground (arith, e) in
        let row : edge m'' r b ≡ stepped m i r b =
          ap (λ k. edge m'' k b) same
          ∙ next_row-stepped i j m b
          ∙ ap (λ k. stepped m i k b) (sym same) in
        ground (arith, row, same)
    go false e =
        let ne : r ≢ j = λ h. absurd (ground (arith, h, e)) in
        let row : edge m'' r b ≡ edge m r b = next_row-other i (i / 32) (2 ^ (i % 32)) j m r b ne in
        let step : stepped m'' i r b ≡ stepped m i r b =
          ap (λ x. x || (edge m'' r i && edge m'' i b)) row
          ∙ ap (λ x. edge m r b || (x && edge m'' i b))
              (next_row-other i (i / 32) (2 ^ (i % 32)) j m r i ne)
          ∙ ap (λ x. edge m r b || (edge m r i && x)) (next_row-itself i j m b) in
        ground (arith, row, step, ne)
