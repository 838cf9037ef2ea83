-- ===== src/Generic/Compare.antt =====
-- Structural comparison, byterun/compare.c.
use ocaml.Common.{
  ℕ, ◌-◌, ◌/◌, ◌^◌, Bool, not, ◌&&◌, some, none, List, [], ◌∷◌, ltb, ◌==◌, if◌then◌else◌, length,
}
use ocaml.Common.Int.{ℤ, pos, negsuc, sub_ℕ, ◌-ℤ◌, ltb_ℤ, same_int}
use ocaml.Generic.Heap.{
  Value, long, ptr, outside, Block, string, double, double_array, abstract_block, closure,
  infix_block, forward, object, custom, fields, Heap, an_integer, a_custom, Platform, same_value,
  tag_val,
}

-- UNORDERED, the least intnat.
abbrev pub unordered : ℤ
unordered = negsuc (2 ^ 63 - 1)

-- What compare_val_r returns, or the exception that it raises.
pub data Answer : Type 0 where
  returns : ℤ → Answer
  abstract_value : Answer
  functional_value : Answer
  out_of_memory : Answer

-- What one turn of `while (1)` does before next_item: nothing is left of these two values, the answer
-- is there, two values take their place, or two lists of fields of one size do.
pub data Turn : Type 0 where
  next_item : Turn
  stop : Answer → Turn
  again : Value → Value → Turn
  descend : List Value → List Value → Turn

-- memcmp on as many bytes as both have, and strcmp.
unfoldable pub memcmp : List ℕ → List ℕ → ℤ
memcmp [] bs = pos 0
memcmp (a ∷ as') [] = pos 0
memcmp (a ∷ as') (b ∷ bs) =
    let rest = memcmp as' bs in if ltb a b then negsuc 0 else if ltb b a then pos 1 else rest

unfoldable pub strcmp : List ℕ → List ℕ → ℤ
strcmp [] [] = pos 0
strcmp [] (b ∷ bs) = negsuc 0
strcmp (a ∷ as') [] = pos 1
strcmp (a ∷ as') (b ∷ bs) =
    let rest = strcmp as' bs in if ltb a b then negsuc 0 else if ltb b a then pos 1 else rest

unfoldable pub compare_strings : List ℕ → List ℕ → Turn
unfolding memcmp
compare_strings s1 s2 =
    let res = memcmp s1 s2 in
    if ltb_ℤ res (pos 0)
    then stop (returns (negsuc 0))
    else if ltb_ℤ (pos 0) res
    then stop (returns (pos 1))
    else if not (length s1 == length s2)
    then stop (returns (sub_ℕ (length s1) (length s2)))
    else next_item

-- The address of a pointer.
unfoldable pub address : Value → ℕ
address (long m) = 0
address (ptr a) = a
address (outside a) = a

unfoldable pub compare_addresses : Value → Value → Turn
unfolding address same_value
compare_addresses v1 v2 =
    if same_value v1 v2 then next_item else stop (returns (sub_ℕ (address v1 / 2) (address v2 / 2)))

module _ (p : Platform) (total : Bool) where
  -- NaN is equal to itself and less than the other floats, where the comparison is total.
  unfoldable pub compare_doubles : ℕ → ℕ → Turn
  compare_doubles d1 d2 =
      if p.float_lt d1 d2
      then stop (returns (negsuc 0))
      else if p.float_lt d2 d1
      then stop (returns (pos 1))
      else if p.float_eq d1 d2
      then next_item
      else if not total
      then stop (returns unordered)
      else if p.float_eq d1 d1
      then stop (returns (pos 1))
      else if p.float_eq d2 d2
      then stop (returns (negsuc 0))
      else next_item

  -- `for (i = 0; i < sz1; i++)`.
  unfoldable pub compare_double_fields : List ℕ → List ℕ → Turn
  unfolding compare_doubles
  compare_double_fields [] ds = next_item
  compare_double_fields (d1 ∷ ds1) [] = next_item
  compare_double_fields (d1 ∷ ds1) (d2 ∷ ds2) =
      let rest = compare_double_fields ds1 ds2 in
      elim (compare_doubles d1 d2) [ next_item ↦ rest | other ↦ other ]

  -- What follows a call of a custom comparison.
  unfoldable pub custom_result : ℤ × Bool → Turn
  custom_result (res, was_unordered) =
      if was_unordered && not total
      then stop (returns unordered)
      else if not (same_int res (pos 0))
      then stop (returns res)
      else next_item

  unfoldable pub compare_customs : ℕ → ℕ → ℕ → ℕ → Turn
  unfolding strcmp custom_result
  compare_customs ops1 x1 ops2 x2 =
      let hardening =
        if ltb_ℤ (strcmp (p.ops ops1).identifier (p.ops ops2).identifier) (pos 0)
        then stop (returns (negsuc 0))
        else stop (returns (pos 1)) in
      elim (p.ops ops1).compare [
        | none ↦ elim (p.ops ops2).compare [ none ↦ stop abstract_value | some g ↦ hardening ]
        | some f ↦ elim (p.ops ops2).compare [
          | none ↦ hardening
          | some g ↦
              if f == g
              then custom_result (p.call_compare f (a_custom ops1 x1) (a_custom ops2 x2))
              else hardening
        ]
      ]

  -- An integer against a block, and a block against an integer.
  unfoldable pub long_block : ℤ → Block → Turn
  unfolding custom_result
  long_block m (forward v) = again (long m) v
  long_block m (custom ops x) = elim (p.ops ops).compare_ext [
    | none ↦ stop (returns (negsuc 0))
    | some f ↦ custom_result (p.call_compare f (an_integer m) (a_custom ops x))
  ]
  long_block m b = stop (returns (negsuc 0))

  unfoldable pub block_long : Block → ℤ → Turn
  unfolding custom_result
  block_long (forward v) n = again v (long n)
  block_long (custom ops x) n = elim (p.ops ops).compare_ext [
    | none ↦ stop (returns (pos 1))
    | some f ↦ custom_result (p.call_compare f (a_custom ops x) (an_integer n))
  ]
  block_long b n = stop (returns (pos 1))

  -- `switch (t1)`, for blocks of one tag.
  unfoldable pub compare_contents : Value → Value → Block → Block → Turn
  unfolding compare_strings compare_doubles compare_double_fields compare_customs same_value
  compare_contents v1 v2 (string s1) (string s2) =
      if same_value v1 v2 then next_item else compare_strings s1 s2
  compare_contents v1 v2 (double d1) (double d2) = compare_doubles d1 d2
  compare_contents v1 v2 (double_array ds1) (double_array ds2) =
      if not (length ds1 == length ds2)
      then stop (returns (sub_ℕ (length ds1) (length ds2)))
      else compare_double_fields ds1 ds2
  compare_contents v1 v2 abstract_block b2 = stop abstract_value
  compare_contents v1 v2 (closure fs) b2 = stop functional_value
  compare_contents v1 v2 (infix_block offset v) b2 = stop functional_value
  compare_contents v1 v2 (object oid1) (object oid2) =
      if not (same_int oid1 oid2) then stop (returns (oid1 -ℤ oid2)) else next_item
  compare_contents v1 v2 (custom ops1 x1) (custom ops2 x2) = compare_customs ops1 x1 ops2 x2
  compare_contents v1 v2 (fields tag1 fs1) (fields tag2 fs2) =
      if not (length fs1 == length fs2)
      then stop (returns (sub_ℕ (length fs1) (length fs2)))
      else descend fs1 fs2
  compare_contents v1 v2 b1 b2 = next_item

  -- Both are blocks: forward pointers first, then the tags.
  unfoldable pub compare_blocks : Value → Value → Block → Block → Turn
  unfolding compare_contents tag_val
  compare_blocks v1 v2 (forward w1) b2 = again w1 v2
  compare_blocks v1 v2 b1 (forward w2) = again v1 w2
  compare_blocks v1 v2 b1 b2 =
      if not (tag_val b1 == tag_val b2)
      then stop (returns (sub_ℕ (tag_val b1) (tag_val b2)))
      else compare_contents v1 v2 b1 b2

  unfoldable pub compare_values : Heap → Value → Value → Turn
  unfolding long_block block_long compare_addresses compare_blocks same_value
  compare_values h (long m) (long n) = if same_int m n then next_item else stop (returns (m -ℤ n))
  compare_values h (long m) (ptr b) = long_block m (h b)
  compare_values h (long m) (outside b) = stop (returns (negsuc 0))
  compare_values h (ptr a) (long n) = block_long (h a) n
  compare_values h (outside a) (long n) = stop (returns (pos 1))
  compare_values h (ptr a) (ptr b) = compare_blocks (ptr a) (ptr b) (h a) (h b)
  compare_values h v1 v2 = compare_addresses v1 v2

  -- `if (v1 == v2 && total) goto next_item`, and the rest.
  unfoldable pub compare_turn : Heap → Value → Value → Turn
  unfolding compare_values same_value
  compare_turn h v1 v2 = if same_value v1 v2 && total then next_item else compare_values h v1 v2
