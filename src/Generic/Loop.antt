-- ===== src/Generic/Loop.antt =====
-- The loop of byterun/compare.c, with its stack, and the primitives that call it.
use ocaml.Common.{
  ℕ, zero, suc, ◌*◌, Bool, true, false, not, ◌&&◌, Option, some, none, List, [], ◌∷◌, leb,
  if◌then◌else◌, length,
}
use ocaml.Common.Int.{ℤ, pos, negsuc, ltb_ℤ, same_int}
use ocaml.Generic.Heap.{Value, Heap, Platform}
use ocaml.Generic.Compare.{
  unordered, Answer, Turn, compare_turn, returns, abstract_value, functional_value, out_of_memory,
  next_item, stop, again, descend,
}

-- compare_resize_stack_r: the size of the stack is doubled as long as it is below
-- COMPARE_STACK_MAX_SIZE and there is memory.
unfoldable pub compare_resize_stack : (ℕ → Bool) → ℕ → Option ℕ
compare_resize_stack memory size =
    let newsize = 2 * size in
    if leb (1024 * 1024) newsize then none else if memory newsize then some newsize else none

-- The stack of fields still to be compared, with its size. `none` is the exception Out_of_memory.
pub record Stack : Type 0 where
  pub items : List (List Value × List Value)
  pub size : ℕ

-- The fields behind the first are remembered, if there are any.
unfoldable pub push_fields : (ℕ → Bool) → List Value → List Value → Stack → Option Stack
unfolding compare_resize_stack
push_fields memory [] fs2 st = some st
push_fields memory (f1 ∷ fs1) fs2 st =
    let items' = (f1 ∷ fs1, fs2) ∷ st.items in
    if leb st.size (length items')
    then elim (compare_resize_stack memory st.size) [
      | none ↦ none
      | some size' ↦ some (record { items = items'; size = size' })
    ]
    else some (record { items = items'; size = st.size })

-- An entry is taken off with its last fields.
unfoldable pub put_back :
    List Value → List Value → List (List Value × List Value) → List (List Value × List Value)
put_back [] fs2 items = items
put_back (f1 ∷ fs1) fs2 items = (f1 ∷ fs1, fs2) ∷ items

-- next_item: the next two fields, and the stack without them. No entry is empty.
unfoldable pub pop_fields :
    List (List Value × List Value) → Option (Value × Value × List (List Value × List Value))
unfolding put_back
pop_fields [] = none
pop_fields (([], fs2) ∷ items) = pop_fields items
pop_fields ((f1 ∷ fs1, []) ∷ items) = pop_fields items
pop_fields ((f1 ∷ fs1, f2 ∷ fs2) ∷ items) = some (f1, f2, put_back fs1 fs2 items)

-- What follows a turn, where `on` is the rest of the loop.
unfoldable pub pop_item : (Value → Value → Stack → Option Answer) → Stack → Option Answer
unfolding pop_fields
pop_item on st = elim (pop_fields st.items) [
  | none ↦ some (returns (pos 0))
  | some (w1, w2, items') ↦ on w1 w2 (record st { items = items' })
]

unfoldable pub enter_fields :
    (ℕ → Bool)
    → (Value → Value → Stack → Option Answer)
    → List Value
    → List Value
    → Stack
    → Option Answer
unfolding push_fields pop_item
enter_fields memory on [] fs2 st = pop_item on st
enter_fields memory on (f1 ∷ fs1) [] st = pop_item on st
enter_fields memory on (f1 ∷ fs1) (f2 ∷ fs2) st = elim (push_fields memory fs1 fs2 st) [
  | none ↦ some out_of_memory
  | some st' ↦ on f1 f2 st'
]

unfoldable pub after_turn :
    (ℕ → Bool) → (Value → Value → Stack → Option Answer) → Turn → Stack → Option Answer
unfolding pop_item enter_fields
after_turn memory on (stop answer) st = some answer
after_turn memory on (again w1 w2) st = on w1 w2 st
after_turn memory on next_item st = pop_item on st
after_turn memory on (descend fs1 fs2) st = enter_fields memory on fs1 fs2 st

-- compare_val_r, with fuel for the turns of `while (1)`; `none` means that it ran out. `memory` tells
-- whether malloc and realloc find room for a stack of a size.
unfoldable pub compare_loop :
    Platform → (ℕ → Bool) → Bool → Heap → ℕ → Value → Value → Stack → Option Answer
unfolding compare_turn after_turn
compare_loop p memory total h zero v1 v2 st = none
compare_loop p memory total h (suc fuel) v1 v2 st =
    after_turn memory (compare_loop p memory total h fuel) (compare_turn p total h v1 v2) st

unfoldable pub compare_val : Platform → (ℕ → Bool) → Bool → Heap → ℕ → Value → Value → Option Answer
unfolding compare_loop
compare_val p memory total h fuel v1 v2 =
    compare_loop p memory total h fuel v1 v2 (record { items = []; size = 256 })

-- The primitives: compare is total, the relations are not. An exception goes on.
pub data Reply (A : Type 0) : Type 0 where
  value : A → Reply A
  raises : Answer → Reply A

unfoldable pub reply : {A : Type 0} → (ℤ → A) → Answer → Reply A
reply f (returns res) = value (f res)
reply f abstract_value = raises abstract_value
reply f functional_value = raises functional_value
reply f out_of_memory = raises out_of_memory

unfoldable pub sign : ℤ → ℤ
sign res = if ltb_ℤ res (pos 0) then negsuc 0 else if ltb_ℤ (pos 0) res then pos 1 else pos 0

unfoldable pub is_equal : ℤ → Bool
is_equal res = same_int res (pos 0)

unfoldable pub is_notequal : ℤ → Bool
is_notequal res = not (same_int res (pos 0))

unfoldable pub is_lessthan : ℤ → Bool
is_lessthan res = ltb_ℤ res (pos 0) && not (same_int res unordered)

unfoldable pub is_lessequal : ℤ → Bool
is_lessequal res = not (ltb_ℤ (pos 0) res) && not (same_int res unordered)

unfoldable pub is_greaterthan : ℤ → Bool
is_greaterthan res = ltb_ℤ (pos 0) res

unfoldable pub is_greaterequal : ℤ → Bool
is_greaterequal res = not (ltb_ℤ res (pos 0))

module _ (p : Platform) (memory : ℕ → Bool) (h : Heap) (fuel : ℕ) (v1 v2 : Value) where
  unfoldable pub primitive : {A : Type 0} → Bool → (ℤ → A) → Option (Reply A)
  unfolding compare_val reply
  primitive total f = elim (compare_val p memory total h fuel v1 v2) [
    | none ↦ none
    | some answer ↦ some (reply f answer)
  ]

  unfoldable pub caml_compare : Option (Reply ℤ)
  unfolding primitive sign
  caml_compare = primitive true sign

  unfoldable pub caml_equal : Option (Reply Bool)
  unfolding primitive is_equal
  caml_equal = primitive false is_equal

  unfoldable pub caml_notequal : Option (Reply Bool)
  unfolding primitive is_notequal
  caml_notequal = primitive false is_notequal

  unfoldable pub caml_lessthan : Option (Reply Bool)
  unfolding primitive is_lessthan
  caml_lessthan = primitive false is_lessthan

  unfoldable pub caml_lessequal : Option (Reply Bool)
  unfolding primitive is_lessequal
  caml_lessequal = primitive false is_lessequal

  unfoldable pub caml_greaterthan : Option (Reply Bool)
  unfolding primitive is_greaterthan
  caml_greaterthan = primitive false is_greaterthan

  unfoldable pub caml_greaterequal : Option (Reply Bool)
  unfolding primitive is_greaterequal
  caml_greaterequal = primitive false is_greaterequal
