-- ===== src/Interp/Block.antt =====
-- Blocks, arrays and strings: ATOM0 to SETSTRINGCHAR of byterun/interp.c, on a machine of 64 bits,
-- where a float is one word.
use ocaml.Common.{
  ℕ, ◌+◌, ◌*◌, ◌/◌, ◌%◌, ◌^◌, Option, some, none, List, [], ◌∷◌, ◌==◌, if◌then◌else◌,
}
use ocaml.Common.Int.{negsuc}
use ocaml.Interp.Word.{val_unit}
use ocaml.Interp.Machine.{
  Value, word, atom, Heap, Machine, Outcome, next, ◌>>=◌, offset, count, as_word, split, peek, push,
  pop, field, set_field, tag_val, wosize_val, alloc, val_count, count_val, double_tag,
  double_array_tag,
}

-- ATOM0 and PUSHATOM0, ATOM and PUSHATOM.
unfoldable pub atom0 : Machine → Outcome
atom0 s = next (record s { accu = atom 0 })

unfoldable pub push_atom0 : Machine → Outcome
unfolding atom0
push_atom0 s = atom0 (push s.accu s)

unfoldable pub atom_at : Machine → Outcome
unfolding count
atom_at s = do tag ← count (s.prog s.pc); next (record s { pc = s.pc + 1; accu = atom tag })

unfoldable pub push_atom_at : Machine → Outcome
unfolding atom_at
push_atom_at s = atom_at (push s.accu s)

-- MAKEBLOCK: accu is the first field, the others come from the stack. The small and the large
-- allocation differ only in where the collector puts the block.
unfoldable pub makeblock : Machine → Outcome
unfolding count offset split alloc
makeblock s = do
  wosize ← count (s.prog s.pc)
  tag ← count (s.prog (s.pc + 1))
  others ← offset wosize (negsuc 0)
  (fields, below) ← split others s.stack
  let (block, heap') = alloc tag (s.accu ∷ fields) s.heap
  next (record s { pc = s.pc + 2; stack = below; accu = block; heap = heap' })

-- MAKEBLOCK1, MAKEBLOCK2 and MAKEBLOCK3.
unfoldable pub makeblock1 : Machine → Outcome
unfolding count alloc
makeblock1 s = do
  tag ← count (s.prog s.pc)
  let (block, heap') = alloc tag (s.accu ∷ []) s.heap
  next (record s { pc = s.pc + 1; accu = block; heap = heap' })

unfoldable pub makeblock2 : Machine → Outcome
unfolding count alloc peek pop
makeblock2 s = do
  tag ← count (s.prog s.pc)
  x ← peek 0 s
  s' ← pop 1 s
  let (block, heap') = alloc tag (s.accu ∷ x ∷ []) s.heap
  next (record s' { pc = s.pc + 1; accu = block; heap = heap' })

unfoldable pub makeblock3 : Machine → Outcome
unfolding count alloc peek pop
makeblock3 s = do
  tag ← count (s.prog s.pc)
  x ← peek 0 s
  y ← peek 1 s
  s' ← pop 2 s
  let (block, heap') = alloc tag (s.accu ∷ x ∷ y ∷ []) s.heap
  next (record s' { pc = s.pc + 1; accu = block; heap = heap' })

-- The words that the floats of a list of values hold, `Double_val` of each.
unfoldable pub double_vals : Heap → List Value → Option (List Value)
unfolding field
double_vals h [] = some []
double_vals h (v ∷ vs) =
    let rest = double_vals h vs in
    elim (field h v 0) [
      | none ↦ none
      | some d ↦ elim rest [ none ↦ none | some ds ↦ some (d ∷ ds) ]
    ]

-- MAKEFLOATBLOCK.
unfoldable pub makefloatblock : Machine → Outcome
unfolding count offset split double_vals alloc
makefloatblock s = do
  size ← count (s.prog s.pc)
  others ← offset size (negsuc 0)
  (args, below) ← split others s.stack
  fields ← double_vals s.heap (s.accu ∷ args)
  let (block, heap') = alloc double_array_tag fields s.heap
  next (record s { pc = s.pc + 1; stack = below; accu = block; heap = heap' })

-- GETFIELD0 to GETFIELD3 and GETFIELD.
unfoldable pub getfield : ℕ → Machine → Outcome
unfolding field
getfield n s = do v ← field s.heap s.accu n; next (record s { accu = v })

unfoldable pub getfield_at : Machine → Outcome
unfolding count field
getfield_at s = do
  n ← count (s.prog s.pc)
  v ← field s.heap s.accu n
  next (record s { pc = s.pc + 1; accu = v })

-- GETFLOATFIELD: the float is copied to a block of its own.
unfoldable pub getfloatfield : Machine → Outcome
unfolding count field alloc
getfloatfield s = do
  n ← count (s.prog s.pc)
  d ← field s.heap s.accu n
  let (block, heap') = alloc double_tag (d ∷ []) s.heap
  next (record s { pc = s.pc + 1; accu = block; heap = heap' })

-- SETFIELD0 to SETFIELD3 and SETFIELD: the value comes from the stack. `Modify` is the write; what
-- it tells the collector is not modelled.
unfoldable pub setfield : ℕ → Machine → Outcome
unfolding peek pop set_field
setfield n s = do
  v ← peek 0 s
  s' ← pop 1 s
  heap' ← set_field s.heap s.accu n v
  next (record s' { accu = word val_unit; heap = heap' })

unfoldable pub setfield_at : Machine → Outcome
unfolding count peek pop set_field
setfield_at s = do
  n ← count (s.prog s.pc)
  v ← peek 0 s
  s' ← pop 1 s
  heap' ← set_field s.heap s.accu n v
  next (record s' { pc = s.pc + 1; accu = word val_unit; heap = heap' })

-- SETFLOATFIELD.
unfoldable pub setfloatfield : Machine → Outcome
unfolding count peek pop field set_field
setfloatfield s = do
  n ← count (s.prog s.pc)
  v ← peek 0 s
  d ← field s.heap v 0
  heap' ← set_field s.heap s.accu n d
  s' ← pop 1 s
  next (record s' { pc = s.pc + 1; accu = word val_unit; heap = heap' })

-- VECTLENGTH: Double_wosize is 1.
unfoldable pub vectlength : Machine → Outcome
unfolding tag_val wosize_val
vectlength s = do
  size ← wosize_val s.heap s.accu
  tag ← tag_val s.heap s.accu
  let size' = if tag == double_array_tag then size / 1 else size
  next (record s { accu = val_count size' })

-- GETVECTITEM and SETVECTITEM.
unfoldable pub getvectitem : Machine → Outcome
unfolding peek pop count_val field
getvectitem s = do
  index ← peek 0 s
  i ← count_val index
  v ← field s.heap s.accu i
  s' ← pop 1 s
  next (record s' { accu = v })

unfoldable pub setvectitem : Machine → Outcome
unfolding peek pop count_val set_field
setvectitem s = do
  index ← peek 0 s
  i ← count_val index
  v ← peek 1 s
  s' ← pop 2 s
  heap' ← set_field s.heap s.accu i v
  next (record s' { accu = word val_unit; heap = heap' })

-- Byte k of a word in memory, the least significant first, and the word with another byte there.
unfoldable pub byte : ℕ → ℕ → ℕ
byte k w = w / 256 ^ k % 256

unfoldable pub with_byte : ℕ → ℕ → ℕ → ℕ
with_byte k b w = (w / 256 ^ (k + 1) * 256 + b) * 256 ^ k + w % 256 ^ k

-- GETSTRINGCHAR: accu = Val_int(Byte_u(accu, Long_val(sp[0]))).
unfoldable pub getstringchar : Machine → Outcome
unfolding peek pop count_val field as_word byte
getstringchar s = do
  index ← peek 0 s
  i ← count_val index
  v ← field s.heap s.accu (i / 8)
  w ← as_word v
  s' ← pop 1 s
  next (record s' { accu = val_count (byte (i % 8) w) })

-- SETSTRINGCHAR: the byte is Int_val(sp[1]) modulo 256, and a tagged word w holds the integer w / 2.
unfoldable pub setstringchar : Machine → Outcome
unfolding peek pop count_val field set_field as_word with_byte
setstringchar s = do
  index ← peek 0 s
  i ← count_val index
  v ← field s.heap s.accu (i / 8)
  w ← as_word v
  char ← peek 1 s
  c ← as_word char
  heap' ← set_field s.heap s.accu (i / 8) (word (with_byte (i % 8) (c / 2 % 256) w))
  s' ← pop 2 s
  next (record s' { accu = word val_unit; heap = heap' })
