-- ===== src/Generic/Hash.antt =====
-- The hash function on any value, caml_hash_r of byterun/hash.c.
use Prim.Native.Nat.{bit_and, bit_or, bit_xor}
use ocaml.Common.{
  ℕ, zero, suc, ◌+◌, ◌-◌, ◌*◌, ◌/◌, ◌%◌, ◌^◌, not, ◌&&◌, Option, some, none, List, [], ◌∷◌, ◌++◌,
  ltb, leb, ◌==◌, if◌then◌else◌, length,
}
use ocaml.Common.Int.{ℤ, pos, negsuc, ◌-ℤ◌, ltb_ℤ}
use ocaml.Interp.Word.{to_word, val_long, shift_right_signed}
use ocaml.Generic.Heap.{
  Value, long, ptr, outside, Block, string, double, double_array, closure, infix_block, forward,
  object, custom, fields, Heap, Platform,
}

abbrev pub uint32 : ℕ → ℕ
uint32 n = n % 2 ^ 32

-- ROTL32, MIX and FINAL_MIX.
unfoldable pub rotl32 : ℕ → ℕ → ℕ
rotl32 x n = bit_or (uint32 (x * 2 ^ n)) (x / 2 ^ (32 - n))

unfoldable pub mix_uint32 : ℕ → ℕ → ℕ
unfolding rotl32
mix_uint32 h d =
    let d1 = uint32 (d * 0xcc9e2d51) in
    let d2 = uint32 (rotl32 d1 15 * 0x1b873593) in
    let h1 = rotl32 (bit_xor h d2) 13 in uint32 (h1 * 5 + 0xe6546b64)

unfoldable pub final_mix : ℕ → ℕ
final_mix h =
    let h1 = uint32 (bit_xor h (h / 2 ^ 16) * 0x85ebca6b) in
    let h2 = uint32 (bit_xor h1 (h1 / 2 ^ 13) * 0xc2b2ae35) in bit_xor h2 (h2 / 2 ^ 16)

-- caml_hash_mix_intnat, on a word of 64 bits.
unfoldable pub mix_intnat : ℕ → ℕ → ℕ
unfolding mix_uint32 shift_right_signed
mix_intnat h d =
    mix_uint32 h (uint32 (bit_xor (bit_xor (shift_right_signed d 32) (shift_right_signed d 63)) d))

-- The halves of a double, high and low, with one NaN and one zero.
unfoldable pub normalize : ℕ → ℕ × ℕ
normalize d =
    let h = d / 2 ^ 32 in
    let l = d % 2 ^ 32 in
    if bit_and h 0x7ff00000 == 0x7ff00000 && not (bit_or l (bit_and h 0xfffff) == 0)
    then (0x7ff00000, 1)
    else if h == 0x80000000 && l == 0
    then (0, l)
    else (h, l)

unfoldable pub mix_halves : ℕ → ℕ × ℕ → ℕ
unfolding mix_uint32
mix_halves hash (h, l) = mix_uint32 (mix_uint32 hash l) h

-- caml_hash_mix_double.
unfoldable pub mix_double : ℕ → ℕ → ℕ
unfolding normalize mix_halves
mix_double hash d = mix_halves hash (normalize d)

-- caml_hash_mix_string: blocks of four bytes, the least significant first, then up to three bytes.
unfoldable pub mix_blocks : ℕ → List ℕ → ℕ
unfolding mix_uint32
mix_blocks h (a ∷ b ∷ c ∷ d ∷ s) =
    mix_blocks (mix_uint32 h (a + b * 2 ^ 8 + c * 2 ^ 16 + d * 2 ^ 24)) s
mix_blocks h (a ∷ b ∷ c ∷ []) = mix_uint32 h (bit_or (bit_or (c * 2 ^ 16) (b * 2 ^ 8)) a)
mix_blocks h (a ∷ b ∷ []) = mix_uint32 h (bit_or (b * 2 ^ 8) a)
mix_blocks h (a ∷ []) = mix_uint32 h a
mix_blocks h [] = h

unfoldable pub mix_string : ℕ → List ℕ → ℕ
unfolding mix_blocks
mix_string h s = bit_xor (mix_blocks h s) (uint32 (length s))

-- The rolling hash, the number of meaningful values still to see, and the queue: the values from rd
-- on, and wr.
pub record Hashing : Type 0 where
  pub hash : ℕ
  pub num : ℤ
  pub queue : List Value
  pub wr : ℕ

unfoldable pub see_one : ℕ → Hashing → Hashing
see_one h st = record st { hash = h; num = st.num -ℤ pos 1 }

-- The loop over the elements of an array of doubles: it is left below 0.
unfoldable pub mix_doubles : List ℕ → Hashing → Hashing
unfolding mix_double see_one
mix_doubles [] st = st
mix_doubles (d ∷ ds) st =
    let st' = see_one (mix_double st.hash d) st in
    let rest = mix_doubles ds st' in if ltb_ℤ st'.num (pos 0) then st' else rest

-- `Whitehd_hd(Hd_val(v))`, as it is passed on.
unfoldable pub white_header : ℕ → ℕ → ℕ
white_header wosize tag = uint32 (wosize * 2 ^ 10 + tag)

-- Fields are put in the queue as long as it has fewer than sz.
unfoldable pub enqueue : ℕ → List Value → Hashing → Hashing
enqueue sz [] st = st
enqueue sz (v ∷ vs) st =
    let rest = enqueue sz vs (record st { queue = st.queue ++ v ∷ []; wr = st.wr + 1 }) in
    if leb sz st.wr then st else rest

unfoldable pub visit_fields : ℕ → ℕ → List Value → Hashing → Hashing
unfolding mix_uint32 white_header enqueue
visit_fields sz tag vs st =
    enqueue sz vs (record st { hash = mix_uint32 st.hash (white_header (length vs) tag) })

unfoldable pub visit_custom : Option ℕ → Hashing → Hashing
unfolding mix_uint32 see_one
visit_custom none st = st
visit_custom (some n) st = see_one (mix_uint32 st.hash (uint32 n)) st

-- What the hash function of a custom block returns.
unfoldable pub custom_hash : Platform → ℕ → ℕ → Option ℕ
custom_hash p ops x = elim (p.ops ops).hash [ none ↦ none | some f ↦ some (p.call_hash f ops x) ]

module _ (p : Platform) (sz : ℕ) where
  -- `switch (Tag_val(v))`, without the cases that go to again.
  unfoldable pub visit_block : Block → Hashing → Hashing
  unfolding mix_string mix_double mix_doubles mix_intnat to_word see_one visit_fields visit_custom
      custom_hash
  visit_block (string s) st = see_one (mix_string st.hash s) st
  visit_block (double d) st = see_one (mix_double st.hash d) st
  visit_block (double_array ds) st = mix_doubles ds st
  visit_block (object oid) st = see_one (mix_intnat st.hash (to_word oid)) st
  visit_block (custom ops x) st = visit_custom (custom_hash p ops x) st
  visit_block (closure vs) st = visit_fields sz 247 vs st
  visit_block (fields tag vs) st = visit_fields sz tag vs st
  visit_block b st = st

  -- One value of the queue. `depth` bounds the forward and infix pointers that are followed; `none`
  -- means that there are more.
  unfoldable pub visit : Heap → ℕ → Value → Hashing → Option Hashing
  unfolding mix_intnat mix_uint32 val_long see_one visit_block
  visit h depth (long m) st = some (see_one (mix_intnat st.hash (val_long m)) st)
  visit h depth (outside a) st = some (see_one (mix_intnat st.hash a) st)
  visit h zero (ptr a) st = none
  visit h (suc depth) (ptr a) st = elim (h a) [
    | forward v ↦ visit h depth v st
    | infix_block offset v ↦
        visit h depth v (record st { hash = mix_uint32 st.hash (uint32 offset) })
    | b ↦ some (visit_block b st)
  ]

  -- `while (rd < wr && num > 0)`, with fuel.
  unfoldable pub hash_loop : Heap → ℕ → ℕ → Hashing → Option Hashing
  unfolding visit
  hash_loop h depth zero st = none
  hash_loop h depth (suc fuel) st = elim st.queue [
    | [] ↦ some st
    | v ∷ vs ↦
        if not (ltb_ℤ (pos 0) st.num)
        then some st
        else elim (visit h depth v (record st { queue = vs })) [
          | none ↦ none
          | some st' ↦ hash_loop h depth fuel st'
        ]
  ]

abbrev pub hash_queue_size : ℕ
hash_queue_size = 256

-- `sz = Long_val(limit)`, within the size of the queue.
unfoldable pub queue_limit : ℤ → ℕ
queue_limit (negsuc n) = hash_queue_size
queue_limit (pos n) = if ltb hash_queue_size n then hash_queue_size else n

-- caml_hash_r, with the least 30 bits of the hash. The queue is read at most 257 times.
unfoldable pub caml_hash : Platform → Heap → ℕ → ℤ → ℤ → ℤ → Value → Option ℕ
unfolding hash_loop final_mix queue_limit to_word
caml_hash p h depth count limit seed obj =
    let st : Hashing = record {
      hash = uint32 (to_word seed);
      num = count;
      queue = obj ∷ [];
      wr = 1;
    } in
    elim (hash_loop p (queue_limit limit) h depth 258 st) [
      | none ↦ none
      | some st' ↦ some (final_mix st'.hash % 2 ^ 30)
    ]
