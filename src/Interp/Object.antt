-- ===== src/Interp/Object.antt =====
-- Method calls: GETMETHOD, GETPUBMET and GETDYNMET of byterun/interp.c. A table of methods holds the
-- index of its last tag in field 0, a mask for the cache in field 1, and from field 2 on a method
-- and its tag in turn, in the order of the tags.
use Prim.Native.Nat.{bit_and}
use ocaml.Common.{
  ℕ, zero, suc, ◌+◌, ◌-◌, ◌*◌, ◌/◌, ◌%◌, ◌^◌, Option, some, none, ltb, ◌==◌, if◌then◌else◌,
}
use ocaml.Common.Int.{ℤ, pos, negsuc}
use ocaml.Interp.Word.{val_long, signed_lt}
use ocaml.Interp.Machine.{
  Value, word, Heap, Machine, Outcome, next, ◌>>=◌, as_word, peek, push, field, count,
}
use ocaml.Interp.Arith.{same}

-- The conversion of a word to int, 32 bits with a sign.
unfoldable pub to_int : ℕ → ℤ
to_int w = let low = w % 2 ^ 32 in if ltb low (2 ^ 31) then pos low else negsuc (2 ^ 32 - 1 - low)

-- GETMETHOD: Field(Field(sp[0], 0), Int_val(accu)).
unfoldable pub getmethod : Machine → Outcome
unfolding peek field as_word count to_int
getmethod s = do
  obj ← peek 0 s
  meths ← field s.heap obj 0
  w ← as_word s.accu
  label ← count (to_int (w / 2))
  method ← field s.heap meths label
  next (record s { accu = method })

-- `((li + hi) >> 1) | 1`, for ints that are not negative.
unfoldable pub middle : ℕ → ℕ → ℕ
middle li hi = (li + hi) / 2 / 2 * 2 + 1

-- The loop `while (li < hi) ...` over the tags, with fuel: the index at which it stops. `tag_at` reads
-- a tag. A sum that is no int is undefined in C.
unfoldable pub search_tag : (ℕ → Option ℕ) → ℕ → ℕ → ℕ → ℕ → Option ℕ
unfolding middle
search_tag tag_at tag zero li hi = none
search_tag tag_at tag (suc fuel) li hi =
    let mi = middle li hi in
    let left = search_tag tag_at tag fuel li (mi - 2) in
    let right = search_tag tag_at tag fuel mi hi in
    if ltb li hi
    then (if ltb (li + hi) (2 ^ 31)
        then elim (tag_at mi) [ none ↦ none | some t ↦ if signed_lt tag t then left else right ]
        else none)
    else some li

-- The word in a field.
unfoldable pub word_field : Heap → Value → ℕ → Option ℕ
unfolding field as_word
word_field h v i = elim (field h v i) [ none ↦ none | some x ↦ as_word x ]

-- The search of a table: li = 3, hi = Field(meths, 0) as an int, with fuel for every index between.
unfoldable pub find_tag : Heap → Value → ℕ → Option ℕ
unfolding word_field search_tag to_int
find_tag h meths tag = elim (word_field h meths 0) [
  | none ↦ none
  | some w ↦ elim (to_int w) [
    | pos hi ↦ search_tag (word_field h meths) tag (suc hi) 3 hi
    | negsuc n ↦ some 3
  ]
]

-- GETDYNMET: accu is the tag.
unfoldable pub getdynmet : Machine → Outcome
unfolding peek field as_word find_tag
getdynmet s = do
  obj ← peek 0 s
  meths ← field s.heap obj 0
  tag ← as_word s.accu
  li ← find_tag s.heap meths tag
  method ← field s.heap meths (li - 1)
  next (record s { accu = method })

-- `*pc = v`.
abbrev pub write_code : (ℕ → ℤ) → ℕ → ℤ → ℕ → ℤ
write_code prog p v q = if q == p then v else prog q

-- An offset in bytes as one in words.
unfoldable pub aligned : ℕ → Option ℕ
aligned bytes = if bytes % 8 == 0 then some (bytes / 8) else none

-- GETPUBMET with CAML_METHOD_CACHE: the operands are the tag and the cached offset in bytes from
-- field 3, which is masked. An offset that is no multiple of the word size would read the bytes of two
-- fields, and is a fault here. A miss searches and writes the cache.
unfoldable pub getpubmet : Machine → Outcome
unfolding field as_word word_field count aligned find_tag same
getpubmet s = do
  meths ← field s.heap s.accu 0
  mask ← word_field s.heap meths 1
  cached ← count (s.prog (s.pc + 1))
  let tag = val_long (s.prog s.pc)
  ofs ← aligned (bit_and cached mask)
  entry ← field s.heap meths (3 + ofs)
  let s' = push s.accu s
  if same entry (word tag)
      then (do
        method ← field s.heap meths (2 + ofs)
        next (record s' { pc = s.pc + 2; accu = method }))
      else (do
        li ← find_tag s.heap meths tag
        method ← field s.heap meths (li - 1)
        let prog' = write_code s.prog (s.pc + 1) (pos ((li - 3) * 8))
        next (record s' { pc = s.pc + 2; accu = method; prog = prog' }))
