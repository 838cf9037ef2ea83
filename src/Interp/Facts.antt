-- ===== src/Interp/Facts.antt =====
-- Lemmas about the operations of the machine that the proofs on instructions share.
use ocaml.Common.{
  ℕ, zero, suc, ◌^◌, ◌<◌, ◌≡◌, refl, some, List, [], ◌∷◌, ◌++◌, arith, length, get_elem?, set, ◌+◌,
  ltb, true, sym, ap, ◌∙◌, append_assoc, length-append, nil_of_length,
}
use ocaml.Common.Int.{pos}
use ocaml.Interp.Word.{val_long, long_val}
use ocaml.Interp.Apply.{slide}
use ocaml.Interp.Machine.{Value, Machine, split, count_val, val_count, pop}

pub split-append : {A : Type 0} (xs ys : List A) → split (length xs) (xs ++ ys) ≡ some (xs, ys)
unfolding split
split-append [] ys = refl
split-append (x ∷ xs) ys = rw (split-append xs ys)

pub long_val-val_long : (n : ℕ) → n < 2 ^ 62 → long_val (val_long (pos n)) ≡ pos n
unfolding long_val val_long
long_val-val_long n h = ground arith

pub count_val-val_count : (n : ℕ) → n < 2 ^ 62 → count_val (val_count n) ≡ some n
unfolding count_val
count_val-val_count n h = rw (long_val-val_long n h)

pub get_elem?-fresh :
    {A : Type 0} (xs : List A) (x : A) → get_elem? (xs ++ (x ∷ [])) (length xs) ≡ some x
get_elem?-fresh [] x = refl
get_elem?-fresh (y ∷ xs) x = get_elem?-fresh xs x

pub get_elem?-append_left :
    {A : Type 0} (xs ys : List A) (i : ℕ) → i < length xs → get_elem? (xs ++ ys) i ≡ get_elem? xs i
get_elem?-append_left [] ys i h = elim h [ ]
get_elem?-append_left (x ∷ xs) ys zero h = refl
get_elem?-append_left (x ∷ xs) ys (suc i) h = get_elem?-append_left xs ys i (omega arith)

pub pop-append :
    (s : Machine) (xs ys : List Value)
    → pop (length xs) (record s { stack = xs ++ ys }) ≡ some (record s { stack = ys })
unfolding pop
pop-append s xs ys = rw (pop, split-append xs ys)

set-append :
    {A : Type 0} (xs ys : List A) (i : ℕ) (v : A)
    → set (xs ++ ys) (i + length xs) v ≡ xs ++ set ys i v
set-append [] ys i v = let e : i + 0 ≡ i = omega arith in ap (λ k. set ys k v) e
set-append (x ∷ xs) ys i v =
    let e : i + suc (length xs) ≡ suc (i + length xs) = omega arith in
    ap (λ k. set (x ∷ xs ++ ys) k v) e ∙ ap (λ zs. x ∷ zs) (set-append xs ys i v)

get_elem?-append : {A : Type 0} (xs ys : List A) → get_elem? (xs ++ ys) (length xs) ≡ get_elem? ys 0
get_elem?-append [] ys = refl
get_elem?-append (x ∷ xs) ys = get_elem?-append xs ys

-- A list is its first words and its last.
snoc :
    {A : Type 0} (n : ℕ) (xs : List A)
    → length xs ≡ suc n
    → (front : List A) × (last : A) × (xs ≡ front ++ (last ∷ [])) × (length front ≡ n)
snoc n [] e = absurd (omega arith)
snoc zero (x ∷ xs) e =
    let none_left : xs ≡ [] = nil_of_length xs (omega arith) in
    ([], x, ap (λ zs. x ∷ zs) none_left, refl)
snoc (suc n) (x ∷ xs) e =
    let (front, last, whole, count) = snoc n xs (omega arith) in
    (x ∷ front, last, ap (λ zs. x ∷ zs) whole, ap suc count)

-- A word written behind its place, over some words and those that are kept.
write_over :
    {A : Type 0} (a : A) (over below : List A)
    → (over' : List A) × (set (a ∷ (over ++ below)) (length over) a ≡ over' ++ (a ∷ below))
      × (length over' ≡ length over)
write_over a [] below = ([], refl, refl)
write_over a (b ∷ over) below =
    let (front, last, whole, n) = snoc (length over) (b ∷ over) refl in
    let there : suc (length over) ≡ 0 + suc (length front) = omega (arith, n) in
    (
      a ∷ front,
      ap (λ zs. set (a ∷ (zs ++ below)) (suc (length over)) a) whole
          ∙ ap (λ zs. set (a ∷ zs) (suc (length over)) a) (append_assoc front (last ∷ []) below)
          ∙ ap (λ k. set ((a ∷ front) ++ (last ∷ below)) k a) there
          ∙ set-append (a ∷ front) (last ∷ below) 0 a,
      omega (arith, n),
    )

slide-step :
    (i by : ℕ) (stack : List Value) (v : Value)
    → get_elem? stack i ≡ some v
    → ltb (by + i) (length stack) ≡ true
    → slide (suc i) by stack ≡ slide i by (set stack (by + i) v)
unfolding slide
slide-step i by stack v read inside = ground (arith, read, inside)

-- The loop of APPTERM moves the arguments over the last words above those that are kept, whether or
-- not the two places overlap.
pub slide-append :
    (n : ℕ) (args locals below : List Value)
    → length args ≡ n
    → (front : List Value) × (slide n (length locals) (args ++ (locals ++ below))
        ≡ some (front ++ (args ++ below)))
      × (length front ≡ length locals)
unfolding slide
slide-append zero [] locals below e = (locals, refl, refl)
slide-append zero (a ∷ args) locals below e = absurd (omega arith)
slide-append (suc n) args locals below e =
    let (f, a, whole, len) = snoc n args e in
    let (over, written, same) = write_over a locals below in
    let (front, slid, l) = slide-append n f over (a ∷ below) len in
    let stack : args ++ (locals ++ below) ≡ f ++ (a ∷ (locals ++ below)) =
      ap (λ zs. zs ++ (locals ++ below)) whole ∙ append_assoc f (a ∷ []) (locals ++ below) in
    let read : get_elem? (args ++ (locals ++ below)) n ≡ some a =
      ap (λ zs. get_elem? zs n) stack
      ∙ ap (λ k. get_elem? (f ++ (a ∷ (locals ++ below))) k) (sym len)
      ∙ get_elem?-append f (a ∷ (locals ++ below)) in
    let inside : ltb (length locals + n) (length (args ++ (locals ++ below))) ≡ true =
      ground (arith, length-append args (locals ++ below), length-append locals below, e) in
    let wrote : set (args ++ (locals ++ below)) (length locals + n) a ≡ f ++ (over ++ (a ∷ below)) =
      ap (λ zs. set zs (length locals + n) a) stack
      ∙ ap (λ k. set (f ++ (a ∷ (locals ++ below))) (length locals + k) a) (sym len)
      ∙ set-append f (a ∷ (locals ++ below)) (length locals) a
      ∙ ap (λ zs. f ++ zs) written in
    (
      front,
      slide-step n (length locals) (args ++ (locals ++ below)) a read inside
          ∙ (ap (λ zs. slide n (length locals) zs) wrote
              ∙ ap (λ d. slide n d (f ++ (over ++ (a ∷ below)))) (sym same)
              ∙ slid
              ∙ ap (λ zs. some (front ++ zs))
                  (sym (append_assoc f (a ∷ []) below) ∙ ap (λ zs. zs ++ below) (sym whole))),
      l ∙ same,
    )
