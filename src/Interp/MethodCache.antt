-- ===== src/Interp/MethodCache.antt =====
-- GETDYNMET and GETPUBMET of byterun/interp.c on a table of methods.
use ocaml.Common.{ℕ, suc, ◌-◌, ◌%◌, ◌^◌, ◌<◌, ◌≡◌, refl, some, List, ◌∷◌, arith}
use ocaml.Common.Int.{pos}
use ocaml.Interp.Machine.{Value, word, Machine, next, Runtime, field, Heap}
use ocaml.Interp.Opcode.{Opcode}
use ocaml.Interp.Step.{exec}
use ocaml.Interp.Object.{find_tag, to_int, word_field, getdynmet}
use ocaml.Interp.MethodSearch.{IsTagIndex, IsSorted, search_tag-finds}

-- A table of methods in the heap: the index of the last tag, below 2 ^ 30, the tags in order, and a method before
-- each tag.
pub record IsTable (h : Heap) (meths : Value) (last : ℕ) (tags : ℕ → ℕ) (methods : ℕ → Value)
    : Type 0 where
  pub size : word_field h meths 0 ≡ some last
  pub odd : last % 2 ≡ 1
  pub small : last < 2 ^ 30
  pub sorted : IsSorted (word_field h meths) last tags
  pub method : (i : ℕ) → IsTagIndex last i → field h meths (i - 1) ≡ some (methods i)

to_int-pos : (n : ℕ) → n < 2 ^ 30 → to_int n ≡ pos n
unfolding to_int
to_int-pos n small = ground arith

module _ {h : Heap} {meths : Value} {last : ℕ} {tags : ℕ → ℕ} {methods : ℕ → Value}
    (table : IsTable h meths last tags methods) where
  find_tag-finds : (j : ℕ) → IsTagIndex last j → find_tag h meths (tags j) ≡ some j
  unfolding find_tag
  find_tag-finds j t =
      rw (table.size, find_tag)
        (rw (to_int-pos last table.small) (
          search_tag-finds table.sorted (suc last) 3 last j t t.0 t.1 (omega arith) table.small
            (omega arith) refl table.odd (omega arith)))

-- GETDYNMET on an object whose table has the tag in accu, with its last tag below index 2 ^ 30, so that
-- the indices and their sums are ints: accu is the method of that tag.
pub getdynmet-finds :
    (r : Runtime) (s : Machine) {meths : Value} {last : ℕ} {tags : ℕ → ℕ} {methods : ℕ → Value}
    (obj : Value) (rest : List Value) (j : ℕ)
    → IsTable s.heap meths last tags methods
    → field s.heap obj 0 ≡ some meths
    → IsTagIndex last j
    → exec r Opcode.getdynmet (record s { accu = word (tags j); stack = obj ∷ rest })
      ≡ next (record s { accu = methods j; stack = obj ∷ rest })
unfolding exec getdynmet
getdynmet-finds r s obj rest j table own t =
    ground (arith, own, find_tag-finds table j t, table.method j t)
