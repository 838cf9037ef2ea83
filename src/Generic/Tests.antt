-- ===== src/Generic/Tests.antt =====
-- Runs of byterun/compare.c and hash.c on a small heap, and their theorems there.
use ocaml.Common.{
  inl, ℕ, zero, suc, ◌+◌, ◌≤◌, ◌<◌, ◌^◌, ◌≡◌, ◌≢◌, ◌⊎◌, inl, inr, refl, ap, Bool, true, false,
  Option, some, none, List, [], ◌∷◌, arith, ltb, leb, ◌==◌, if◌then◌else◌, ◌&&◌,
}
use ocaml.Common.Int.{ℤ, pos, negsuc}
use ocaml.Generic.Heap.{long, ptr, string, forward, fields, abstract_block, Heap, Platform}
use ocaml.Generic.Compare.{Answer, returns, out_of_memory, compare_turn}
use ocaml.Generic.Loop.{compare_val, caml_lessthan, value}
use ocaml.Generic.Lexicographic.{
  Result, equal, Compares, settled, followed, entered, none_left, passed, answer_of,
}
use ocaml.Generic.Execution.{compare_val-Compares}
use ocaml.Generic.Acyclic.{IsAcyclic, compare_val-ends}
use ocaml.Generic.Hash.{caml_hash, custom_hash}
use ocaml.Generic.Agreement.{IsCompatible, IsTagged}
use ocaml.Generic.HashVisit.{IsFollowed}
use ocaml.Generic.HashResult.{caml_hash-equal}

-- A platform with no custom operations, whose only floats are 0 and 1.
abbrev plain : Platform
plain = record {
  ops = λ o. record { identifier = []; compare = none; compare_ext = none; hash = none };
  call_compare = λ f x y. (pos 1, false);
  call_hash = λ f o x. 0;
  float_lt = λ d e. ltb d e;
  float_eq = λ d e. d == e;
}

-- Two pairs with equal contents, of which one reaches its second field by a forward pointer.
abbrev pairs : Heap
pairs a =
    if a == 0
    then fields 0 (long (pos 7) ∷ ptr 2 ∷ [])
    else if a == 1
    then fields 0 (long (pos 7) ∷ ptr 3 ∷ [])
    else if a == 2
    then string (104 ∷ 105 ∷ [])
    else if a == 3
    then forward (ptr 4)
    else if a == 4
    then string (104 ∷ 105 ∷ [])
    else if a == 5
    then fields 0 (long (pos 9) ∷ ptr 2 ∷ [])
    else abstract_block

abbrev roomy : ℕ → Bool
roomy n = true

equal_pairs : compare_val plain roomy true pairs 10 (ptr 0) (ptr 1) ≡ some (returns (pos 0))
unfolding compare_val
equal_pairs = refl

less_pairs : caml_lessthan plain roomy pairs 10 (ptr 0) (ptr 5) ≡ some (value true)
unfolding caml_lessthan ocaml.Common.Int.◌-ℤ◌
less_pairs = refl

compared : Compares plain true pairs (ptr 0) (ptr 1) equal
unfolding compare_turn
compared =
    entered (ptr 0) (ptr 1) (long (pos 7) ∷ ptr 2 ∷ []) (long (pos 7) ∷ ptr 3 ∷ []) equal refl (
      passed (long (pos 7)) (long (pos 7)) (ptr 2 ∷ []) (ptr 3 ∷ []) equal
        (settled (long (pos 7)) (long (pos 7)) refl)
        (passed (ptr 2) (ptr 3) [] [] equal
          (followed (ptr 2) (ptr 3) (ptr 2) (ptr 4) equal refl (settled (ptr 2) (ptr 4) refl))
          (none_left [])))

compare_val-Compares_example :
    (◌≡◌ {A = Answer} (returns (pos 0)) out_of_memory)
    ⊎ ((r : Result) × Compares plain true pairs (ptr 0) (ptr 1) r × (returns (pos 0) ≡ answer_of r))
compare_val-Compares_example =
    compare_val-Compares plain roomy true pairs 10 (ptr 0) (ptr 1) (returns (pos 0)) equal_pairs

abbrev depths : ℕ → ℕ
depths a = if leb a 1 then 3 else if a == 3 then 1 else if a == 5 then 3 else 0

pairs-IsAcyclic : IsAcyclic depths pairs
pairs-IsAcyclic a = ground arith

compare_val-ends_example :
    (r : Result) × Compares plain true pairs (ptr 0) (ptr 1) r
    × (turns : ℕ) × ((fuel : ℕ)
        → turns ≤ fuel
        → (compare_val plain roomy true pairs fuel (ptr 0) (ptr 1) ≡ some out_of_memory)
          ⊎ (compare_val plain roomy true pairs fuel (ptr 0) (ptr 1) ≡ some (answer_of r)))
compare_val-ends_example =
    compare_val-ends plain roomy true pairs depths pairs-IsAcyclic (ptr 0) (ptr 1)

plain-IsCompatible : IsCompatible plain
unfolding custom_hash
plain-IsCompatible = record {
  floats = λ d e h. inl (ground arith);
  nans = λ d h. absurd (ground arith);
  customs = λ f o x q y h. refl;
  integer_custom = λ f o x m h. ground arith;
  custom_integer = λ f o x m h. ground arith;
}

pairs-IsTagged : IsTagged pairs
pairs-IsTagged a tag vs e = ground arith

pairs-IsFollowed : (a : ℕ) → IsFollowed depths (pairs a) (depths a)
pairs-IsFollowed a = ground arith

depths-lt : (a : ℕ) → depths a < 4
depths-lt a = ground arith

caml_hash-equal_example :
    (n : ℕ) × (caml_hash plain pairs 4 (pos 10) (pos 100) (pos 0) (ptr 0) ≡ some n)
    × (caml_hash plain pairs 4 (pos 10) (pos 100) (pos 0) (ptr 1) ≡ some n)
    × (n < 2 ^ 30)
caml_hash-equal_example =
    caml_hash-equal plain pairs depths 4 (pos 10) (pos 100) (pos 0) (ptr 0) (ptr 1)
      plain-IsCompatible pairs-IsTagged pairs-IsFollowed depths-lt compared
