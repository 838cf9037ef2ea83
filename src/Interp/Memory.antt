-- ===== src/Interp/Memory.antt =====
-- Writes to blocks, arrays and strings against reads: SETFIELD, SETVECTITEM and SETSTRINGCHAR of
-- byterun/interp.c.
use ocaml.Common.{
  ℕ, zero, suc, ◌+◌, ◌^◌, ◌<◌, ◌≡◌, ◌≢◌, ap, true, false, some, List, [], ◌∷◌, ◌⊎◌, inl, inr, arith,
  ◌==◌, ◌&&◌, if◌then◌else◌, ◌∙◌, length, get_elem?, set, get_elem?-set_self, get_elem?-set_ne,
  Bool-cases,
}
use mathlib.Core.Path.{ap₂}
use native.Mathlib.Nat.{zero-add}
use ocaml.Interp.Word.{val_unit}
use ocaml.Interp.Machine.{
  Value, word, ptr, Block, Heap, Machine, next, Runtime, field, set_field, val_count,
}
use ocaml.Interp.Opcode.{Opcode}
use ocaml.Interp.Step.{exec}
use ocaml.Interp.Block.{getvectitem, setvectitem}
use ocaml.Interp.Facts.{count_val-val_count}

-- A block of the heap that has a field.
pub record HasField (h : Heap) (b i : ℕ) (block : Block) : Type 0 where
  pub there : get_elem? h b ≡ some block
  pub inside : i < length block.fields

lt_of_get_elem? :
    {A : Type 0} (xs : List A) (i : ℕ) (x : A) → get_elem? xs i ≡ some x → i < length xs
lt_of_get_elem? [] i x e = cc
lt_of_get_elem? (y ∷ xs) zero x e = omega arith
lt_of_get_elem? (y ∷ xs) (suc i) x e = omega (arith, lt_of_get_elem? xs i x e)

-- The heap after a write of a field.
abbrev pub written : Heap → ℕ → Block → ℕ → Value → Heap
written h b block i x = set h b (record block { fields = set block.fields i x })

module _ {h : Heap} {b : ℕ} {block : Block} (i : ℕ) (x : Value) (has : HasField h b i block) where
  pub set_field-written : set_field h (ptr b 0) i x ≡ some (written h b block i x)
  unfolding set_field
  set_field-written =
      ground (arith, has.there, has.inside, zero-add i, ap (set block.fields) (zero-add i))

  pub field-written_self : field (written h b block i x) (ptr b 0) i ≡ some x
  unfolding field
  field-written_self = ground (
    arith,
    get_elem?-set_self h b (record block { fields = set block.fields i x })
        (lt_of_get_elem? h b block has.there),
    get_elem?-set_self block.fields i x has.inside,
  )

pub field-written_ne :
    {h : Heap} {b i : ℕ} {block : Block} (x : Value) (c base j : ℕ)
    → HasField h b i block
    → (c ≢ b) ⊎ (base + j ≢ i)
    → field (written h b block i x) (ptr c base) j ≡ field h (ptr c base) j
unfolding field
field-written_ne {h} {b} {i} {block} x c base j has apart = ground (
  arith,
  has.there,
  get_elem?-set_self h b (record block { fields = set block.fields i x })
      (lt_of_get_elem? h b block has.there),
  get_elem?-set_ne h {i = b} {j = c} (record block { fields = set block.fields i x }),
  get_elem?-set_ne block.fields {i = i} {j = base + j} x,
  ap (get_elem? h) {x = c} {y = b},
  ap (get_elem? (written h b block i x)) {x = c} {y = b},
)

-- An index on the stack over an array in accu.
abbrev pub indexed : Machine → Value → ℕ → List Value → Machine
indexed s array i rest = record s { accu = array; stack = val_count i ∷ rest }

same_place : (c j b i : ℕ) → (c == b && j == i) ≡ true → (c ≡ b) × (j ≡ i)
same_place c j b i h = ground arith

apart_cases : (c j b i : ℕ) → (c == b && j == i) ≡ false → (c ≢ b) ⊎ (0 + j ≢ i)
apart_cases c j b i h = ground arith

field-written :
    {h : Heap} {b i : ℕ} {block : Block} (x : Value) (c j : ℕ)
    → HasField h b i block
    → field (written h b block i x) (ptr c 0) j
      ≡ (if c == b && j == i then some x else field h (ptr c 0) j)
field-written {h} {b} {i} {block} x c j has = elim (Bool-cases (c == b && j == i)) [
  | inl hit ↦ rw hit (
      ap₂ (λ p q. field (written h b block i x) (ptr p 0) q) (same_place c j b i hit).0
        (same_place c j b i hit).1
      ∙ field-written_self i x has)
  | inr apart ↦ rw apart (field-written_ne x c 0 j has (apart_cases c j b i apart))
]

-- SETVECTITEM within an array: accu is (), the index and the value are popped, GETVECTITEM then finds
-- the value at that index, and every other field of the heap is as it was.
pub setvectitem-getvectitem :
    (r : Runtime) (s t : Machine) (b c i j : ℕ) (v : Value) (rest rest' : List Value)
    (block : Block)
    → HasField s.heap b i block
    → i < 2 ^ 62
    → (exec r Opcode.setvectitem (indexed s (ptr b 0) i (v ∷ rest))
        ≡ next (record s { accu = word val_unit; stack = rest; heap = written s.heap b block i v }))
      × (exec r Opcode.getvectitem
            (indexed (record t { heap = written s.heap b block i v }) (ptr b 0) i rest')
          ≡ next (record t { accu = v; stack = rest'; heap = written s.heap b block i v }))
      × (field (written s.heap b block i v) (ptr c 0) j
          ≡ (if c == b && j == i then some v else field s.heap (ptr c 0) j))
unfolding exec setvectitem getvectitem
setvectitem-getvectitem r s t b c i j v rest rest' block has small = (
  ground (arith, count_val-val_count i small, set_field-written i v has),
  ground (arith, count_val-val_count i small, field-written_self i v has),
  field-written v c j has,
)
