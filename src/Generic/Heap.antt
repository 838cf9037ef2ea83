-- ===== src/Generic/Heap.antt =====
-- The values that byterun/compare.c and hash.c inspect, with the layout of byterun/mlvalues.h.
use ocaml.Common.{ℕ, Bool, false, Option, List, ◌==◌}
use ocaml.Common.Int.{ℤ, same_int}

-- A `value`: an integer, a pointer to a block, or a pointer outside the heap, given by its address.
pub data Value : Type 0 where
  long : ℤ → Value
  ptr : ℕ → Value
  outside : ℕ → Value

-- What a block holds, by its tag: the bytes of a string, the bits of floats, the target of a forward
-- pointer, the identifier of an object, the operations and the contents of a custom block, the words
-- between an infix header and its closure, or fields.
pub data Block : Type 0 where
  string : List ℕ → Block
  double : ℕ → Block
  double_array : List ℕ → Block
  abstract_block : Block
  closure : List Value → Block
  infix_block : ℕ → Value → Block
  forward : Value → Block
  object : ℤ → Block
  custom : ℕ → ℕ → Block
  fields : ℕ → List Value → Block

abbrev pub Heap : Type 0
Heap = ℕ → Block

-- struct custom_operations: the identifier, and the addresses of functions.
pub record CustomOps : Type 0 where
  pub identifier : List ℕ
  pub compare : Option ℕ
  pub compare_ext : Option ℕ
  pub hash : Option ℕ

-- An argument of a custom comparison.
pub data Argument : Type 0 where
  an_integer : ℤ → Argument
  a_custom : ℕ → ℕ → Argument

-- What the two files call: the operations of custom blocks, which return an int and may set
-- caml_compare_unordered, and the comparisons of floats by the machine.
pub record Platform : Type 0 where
  pub ops : ℕ → CustomOps
  pub call_compare : ℕ → Argument → Argument → ℤ × Bool
  pub call_hash : ℕ → ℕ → ℕ → ℕ
  pub float_lt : ℕ → ℕ → Bool
  pub float_eq : ℕ → ℕ → Bool

-- `v1 == v2`.
unfoldable pub same_value : Value → Value → Bool
same_value (long m) (long n) = same_int m n
same_value (ptr a) (ptr b) = a == b
same_value (outside a) (outside b) = a == b
same_value v w = false

-- Tag_val.
unfoldable pub tag_val : Block → ℕ
tag_val (closure vs) = 247
tag_val (object oid) = 248
tag_val (infix_block offset v) = 249
tag_val (forward v) = 250
tag_val abstract_block = 251
tag_val (string s) = 252
tag_val (double d) = 253
tag_val (double_array ds) = 254
tag_val (custom ops x) = 255
tag_val (fields tag vs) = tag
