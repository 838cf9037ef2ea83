-- ===== src/Interp/Machine.antt =====
-- The state of the abstract machine of byterun/interp.c: values, blocks of the heap, registers, the
-- stack, and the outcome of an instruction.
-- An address of the heap is a block and an index of a field, so that the collector, which moves
-- blocks and keeps their contents, is not seen. An address of the stack is its distance in words
-- from caml_stack_high, as caml_realloc_stack_r of byterun/stacks.c keeps it.
use ocaml.Common.{
  ℕ, zero, suc, ◌+◌, ◌-◌, ◌*◌, ◌/◌, ◌%◌, Bool, Option, none, some, List, [], ◌∷◌, ◌++◌, ltb,
  if◌then◌else◌, length, get_elem?, set,
}
use ocaml.Common.Int.{ℤ, pos, negsuc}
use ocaml.Interp.Word.{val_long, long_val}

-- A `value`: a word that is no pointer, a field of a block, a code pointer, a stack pointer, or
-- the atom of a tag.
pub data Value : Type 0 where
  word : ℕ → Value
  ptr : ℕ → ℕ → Value
  code : ℕ → Value
  link : ℕ → Value
  atom : ℕ → Value

pub record Block : Type 0 where
  pub tag : ℕ
  pub fields : List Value

abbrev pub Heap : Type 0
Heap = List Block

-- The registers, with the globals that the interpreter writes. stack_size is the number of words between
-- caml_stack_low and caml_stack_high.
pub record Machine : Type 0 where
  pub pc : ℕ
  pub stack : List Value
  pub accu : Value
  pub env : Value
  pub extra_args : ℕ
  pub trapsp : ℕ
  pub heap : Heap
  pub global_data : Value
  pub prog : ℕ → ℤ
  pub something_to_do : Bool
  pub stack_size : ℕ

-- `next` goes on to the next instruction; `stop` and `uncaught` return from the interpreter with
-- a value and with an exception result; `fault` is what C leaves undefined, such as a read outside
-- a block or of a word as a pointer.
pub data Outcome : Type 0 where
  next : Machine → Outcome
  stop : Value → Machine → Outcome
  uncaught : Value → Machine → Outcome
  fault : Outcome

infixl 5 ◌>>=◌
abbrev pub ◌>>=◌ : {A : Type 0} → Option A → (A → Outcome) → Outcome
none >>= f = fault
some a >>= f = f a

-- One instruction after another.
abbrev pub and_then : Outcome → (Machine → Outcome) → Outcome
and_then (next s) f = f s
and_then (stop v s) f = stop v s
and_then (uncaught v s) f = uncaught v s
and_then fault f = fault

-- `p + off` for a pointer into an array, where the result lies before the array none.
unfoldable pub offset : ℕ → ℤ → Option ℕ
offset p (pos n) = some (p + n)
offset p (negsuc n) = if ltb n p then some (p - suc n) else none

-- An operand or a tagged index that counts words.
unfoldable pub count : ℤ → Option ℕ
count (pos n) = some n
count (negsuc n) = none

-- The word of a value that is no pointer.
unfoldable pub as_word : Value → Option ℕ
as_word (word w) = some w
as_word (ptr b i) = none
as_word (code p) = none
as_word (link p) = none
as_word (atom t) = none

unfoldable pub as_code : Value → Option ℕ
as_code (word w) = none
as_code (ptr b i) = none
as_code (code p) = some p
as_code (link p) = none
as_code (atom t) = none

unfoldable pub as_link : Value → Option ℕ
as_link (word w) = none
as_link (ptr b i) = none
as_link (code p) = none
as_link (link p) = some p
as_link (atom t) = none

-- The elements at the front, where there are as many.
unfoldable pub split : {A : Type 0} → ℕ → List A → Option (List A × List A)
split zero xs = some ([], xs)
split (suc n) [] = none
split (suc n) (x ∷ xs) =
    let rest = split n xs in elim rest [ none ↦ none | some (front, back) ↦ some (x ∷ front, back) ]

-- `sp[i]`.
unfoldable pub peek : ℕ → Machine → Option Value
peek i s = get_elem? s.stack i

-- `*--sp = v`.
abbrev pub push : Value → Machine → Machine
push v s = record s { stack = v ∷ s.stack }

-- `sp += n`.
unfoldable pub pop : ℕ → Machine → Option Machine
unfolding split
pop n s = elim (split n s.stack) [
  | none ↦ none
  | some (_, below) ↦ some (record s { stack = below })
]

unfoldable pub block_at : Heap → Value → Option (Block × ℕ)
block_at h (word w) = none
block_at h (ptr b i) = elim (get_elem? h b) [ none ↦ none | some block ↦ some (block, i) ]
block_at h (code p) = none
block_at h (link p) = none
block_at h (atom t) = none

-- `Field(v, i)`.
unfoldable pub field : Heap → Value → ℕ → Option Value
unfolding block_at
field h v i = elim (block_at h v) [
  | none ↦ none
  | some (block, base) ↦ get_elem? block.fields (base + i)
]

-- `Field(v, i) = x`: none outside the block.
unfoldable pub set_field : Heap → Value → ℕ → Value → Option Heap
set_field h (word w) i x = none
set_field h (ptr b base) i x = elim (get_elem? h b) [
  | none ↦ none
  | some block ↦
      if ltb (base + i) (length block.fields)
      then some (set h b (record block { fields = set block.fields (base + i) x }))
      else none
]
set_field h (code p) i x = none
set_field h (link p) i x = none
set_field h (atom t) i x = none

abbrev pub closure_tag : ℕ
closure_tag = 247

abbrev pub infix_tag : ℕ
infix_tag = 249

abbrev pub double_tag : ℕ
double_tag = 253

abbrev pub double_array_tag : ℕ
double_array_tag = 254

-- `Make_header(wosize, tag, Caml_white)`.
unfoldable pub make_header : ℕ → ℕ → ℕ
make_header wosize tag = wosize * 1024 + tag

-- `Tag_val(v)`: the tag of the block, or of the infix header before an inner closure.
unfoldable pub tag_val : Heap → Value → Option ℕ
tag_val h (word w) = none
tag_val h (ptr b zero) = elim (get_elem? h b) [ none ↦ none | some block ↦ some block.tag ]
tag_val h (ptr b (suc i)) = elim (field h (ptr b i) 0) [ some (word w) ↦ some (w % 256) | _ ↦ none ]
tag_val h (code p) = none
tag_val h (link p) = none
tag_val h (atom t) = some t

-- `Wosize_val(v)`.
unfoldable pub wosize_val : Heap → Value → Option ℕ
wosize_val h (word w) = none
wosize_val h (ptr b zero) = elim (get_elem? h b) [
  | none ↦ none
  | some block ↦ some (length block.fields)
]
wosize_val h (ptr b (suc i)) = elim (field h (ptr b i) 0) [
  | some (word w) ↦ some (w / 1024)
  | _ ↦ none
]
wosize_val h (code p) = none
wosize_val h (link p) = none
wosize_val h (atom t) = some 0

-- `Alloc_small(v, n, tag)` with its initialising writes: a block that no other value points into.
unfoldable pub alloc : ℕ → List Value → Heap → Value × Heap
alloc tag fields h = (ptr (length h) 0, h ++ (record { tag = tag; fields = fields } ∷ []))

-- What a C primitive or an event handler does: it returns or raises, and leaves the heap and the
-- request for attention as it likes. `pending` is caml_something_to_do.
pub record Effect : Type 0 where
  pub value : Value
  pub heap : Heap
  pub pending : Bool

pub data Reply : Type 0 where
  returns : Effect → Reply
  raises : Effect → Reply

-- The C code that the interpreter calls: `primitive reentrant n args` is entry n of the table of
-- primitives, called with the context as first argument if `reentrant`; `event` is
-- caml_process_event_r. max_stack_size is caml_max_stack_size and stack_threshold is Stack_threshold, in
-- words; `memory` tells whether malloc finds room for a stack of a size; and out_of_memory_bucket is the
-- exception that is allocated in advance.
pub record Runtime : Type 0 where
  pub primitive : Bool → ℕ → List Value → Heap → Reply
  pub event : Heap → Reply
  pub initial_depth : ℕ
  pub max_stack_size : ℕ
  pub stack_threshold : ℕ
  pub memory : ℕ → Bool
  pub out_of_memory_bucket : Value

-- `Code_val(v)`.
unfoldable pub code_val : Heap → Value → Option ℕ
code_val h v = elim (field h v 0) [ none ↦ none | some c ↦ as_code c ]

-- `Val_long(n)` for a count, and the count that a value holds.
abbrev pub val_count : ℕ → Value
val_count n = word (val_long (pos n))

unfoldable pub count_val : Value → Option ℕ
unfolding as_word count
count_val v = elim (as_word v) [ none ↦ none | some w ↦ count (long_val w) ]
