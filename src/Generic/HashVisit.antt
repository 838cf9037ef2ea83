-- ===== src/Generic/HashVisit.antt =====
-- One value of the queue of byterun/hash.c, for values that compare equal.
use ocaml.Common.{
  ℕ, suc, ◌/◌, ◌≤◌, ◌≡◌, ◌≢◌, ◌⊎◌, inl, inr, refl, Bool, true, false, ◌&&◌, Option, some, none,
  if◌then◌else◌, length,
}
use ocaml.Common.Int.{ℤ, pos, negsuc, same_int, sub_ℕ, ◌-ℤ◌}
use ocaml.Generic.Heap.{
  Value, long, ptr, outside, Block, string, double, double_array, abstract_block, closure,
  infix_block, forward, object, custom, fields, Heap, Platform, same_value, an_integer, a_custom,
}
use ocaml.Generic.Compare.{
  returns, Turn, next_item, stop, again, descend, compare_turn, compare_values, compare_blocks,
  compare_addresses, long_block, block_long, custom_result, address,
}
use ocaml.Generic.Leaves.{IsLeaf, custom_result-IsLeaf}
use ocaml.Generic.Agreement.{IsCompatible, IsTagged, same_value_eq}
use ocaml.Generic.Alike.{Matches, IsContents}
use ocaml.Generic.HashEqual.{IsTaggedBlock, BlockTurn, compare_blocks-BlockTurn, custom_result-zero}

-- The addresses can be ranked, so that forward and infix pointers lead to lower ranks.
abbrev pub height : (ℕ → ℕ) → Value → ℕ
height rank (long m) = 0
height rank (ptr a) = suc (rank a)
height rank (outside a) = 0

abbrev pub IsFollowed : (ℕ → ℕ) → Block → ℕ → Type 0
IsFollowed rank (forward v) k = height rank v ≤ k
IsFollowed rank (infix_block n v) k = height rank v ≤ k
IsFollowed rank b k = Unit {0}

module _ (p : Platform) (compatible : IsCompatible p) (h : Heap) (tagged : IsTagged h) where
  -- What a turn of the comparison says of two values.
  abbrev pub ValueTurn : Value → Value → Turn → Type 0
  ValueTurn v w next_item =
      (v ≡ w)
      ⊎ ((a : ℕ) × (b : ℕ) × (v ≡ ptr a)
          × (w ≡ ptr b)
          × Matches p h (h a) (h b)
          × IsContents p h (h a)
          × IsContents p h (h b))
  ValueTurn v w (stop x) = Unit {0}
  ValueTurn v w (again v' w') =
      ((a : ℕ) × (v ≡ ptr a) × (h a ≡ forward v') × (w' ≡ w))
      ⊎ ((b : ℕ) × (w ≡ ptr b) × (h b ≡ forward w') × (v' ≡ v))
  ValueTurn v w (descend fs gs) =
      (a : ℕ) × (b : ℕ) × (t : ℕ) × (v ≡ ptr a)
      × (w ≡ ptr b)
      × (h a ≡ fields t fs)
      × (h b ≡ fields t gs)
      × (length fs ≡ length gs)

  tagged_block : (a : ℕ) (b : Block) → h a ≡ b → IsTaggedBlock b
  tagged_block a (fields tag vs) e = tagged a tag vs e
  tagged_block a (string s) e = tt
  tagged_block a (double d) e = tt
  tagged_block a (double_array ds) e = tt
  tagged_block a abstract_block e = tt
  tagged_block a (closure vs) e = tt
  tagged_block a (infix_block n v) e = tt
  tagged_block a (forward v) e = tt
  tagged_block a (object m) e = tt
  tagged_block a (custom o x) e = tt

  unequal_custom :
      (v w : Value) (r : ℤ × Bool) → r.0 ≢ pos 0 → ValueTurn v w (custom_result p true r)
  unequal_custom v w r n = go (custom_result p true r) refl (custom_result-IsLeaf p true r)
    where
      go : (turn : Turn) → custom_result p true r ≡ turn → IsLeaf turn → ValueTurn v w turn
      go next_item e l = absurd (n (custom_result-zero p compatible r e))
      go (stop x) e l = tt
      go (again v' w') e l = elim l [ ]
      go (descend fs gs) e l = elim l [ ]

  long_block-ValueTurn :
      (m : ℤ) (a : ℕ) (b : Block) → h a ≡ b → ValueTurn (long m) (ptr a) (long_block p true m b)
  unfolding long_block
  long_block-ValueTurn m a (forward v) e = inr (a, refl, e, refl)
  long_block-ValueTurn m a (custom o x) e = go (p.ops o).compare_ext
    where
      go :
          (f : Option ℕ)
          → ValueTurn (long m) (ptr a) (elim f [
            | none ↦ stop (returns (negsuc 0))
            | some f ↦ custom_result p true (p.call_compare f (an_integer m) (a_custom o x))
          ])
      go none = tt
      go (some f) =
          unequal_custom (long m) (ptr a) (p.call_compare f (an_integer m) (a_custom o x))
            (compatible.integer_custom f o x m)
  long_block-ValueTurn m a b e = tt

  block_long-ValueTurn :
      (m : ℤ) (a : ℕ) (b : Block) → h a ≡ b → ValueTurn (ptr a) (long m) (block_long p true b m)
  unfolding block_long
  block_long-ValueTurn m a (forward v) e = inl (a, refl, e, refl)
  block_long-ValueTurn m a (custom o x) e = go (p.ops o).compare_ext
    where
      go :
          (f : Option ℕ)
          → ValueTurn (ptr a) (long m) (elim f [
            | none ↦ stop (returns (pos 1))
            | some f ↦ custom_result p true (p.call_compare f (a_custom o x) (an_integer m))
          ])
      go none = tt
      go (some f) =
          unequal_custom (ptr a) (long m) (p.call_compare f (a_custom o x) (an_integer m))
            (compatible.custom_integer f o x m)
  block_long-ValueTurn m a b e = tt

  blocks-ValueTurn :
      (a b : ℕ) (turn : Turn)
      → BlockTurn p compatible h a b (h a) (h b) turn
      → ValueTurn (ptr a) (ptr b) turn
  blocks-ValueTurn a b next_item (m, c, d) = inr (a, b, refl, refl, m, c, d)
  blocks-ValueTurn a b (stop x) s = tt
  blocks-ValueTurn a b (again v w) (inl (e, f)) = inl (a, refl, e, f)
  blocks-ValueTurn a b (again v w) (inr (e, f)) = inr (b, refl, e, f)
  blocks-ValueTurn a b (descend fs gs) (t, e, f, l) = (a, b, t, refl, refl, e, f, l)

  addresses-ValueTurn :
      (v w : Value) → same_value v w ≡ false → ValueTurn v w (compare_addresses v w)
  unfolding compare_addresses
  addresses-ValueTurn v w n = go (same_value v w) n
    where
      go :
          (same : Bool)
          → same ≡ false
          → ValueTurn v w
              (if same then next_item else stop (returns (sub_ℕ (address v / 2) (address w / 2))))
      go true e = absurd (cc)
      go false e = tt

  compare_values-ValueTurn :
      (v w : Value) → same_value v w ≡ false → ValueTurn v w (compare_values p true h v w)
  unfolding compare_values same_value
  compare_values-ValueTurn (long m) (long n) e = go (same_int m n) e
    where
      go :
          (same : Bool)
          → same ≡ false
          → ValueTurn (long m) (long n) (if same then next_item else stop (returns (m -ℤ n)))
      go true e = absurd (cc)
      go false e = tt
  compare_values-ValueTurn (long m) (ptr b) e = long_block-ValueTurn m b (h b) refl
  compare_values-ValueTurn (long m) (outside b) e = tt
  compare_values-ValueTurn (ptr a) (long n) e = block_long-ValueTurn n a (h a) refl
  compare_values-ValueTurn (outside a) (long n) e = tt
  compare_values-ValueTurn (ptr a) (ptr b) e =
      blocks-ValueTurn a b (compare_blocks p true (ptr a) (ptr b) (h a) (h b)) (
        compare_blocks-BlockTurn p compatible h a b (h a) (h b) e (tagged_block a (h a) refl)
          (tagged_block b (h b) refl))
  compare_values-ValueTurn (ptr a) (outside b) e = addresses-ValueTurn (ptr a) (outside b) e
  compare_values-ValueTurn (outside a) (ptr b) e = addresses-ValueTurn (outside a) (ptr b) e
  compare_values-ValueTurn (outside a) (outside b) e = addresses-ValueTurn (outside a) (outside b) e

  pub compare_turn-ValueTurn : (v w : Value) → ValueTurn v w (compare_turn p true h v w)
  unfolding compare_turn
  compare_turn-ValueTurn v w = go (same_value v w) refl
    where
      go :
          (same : Bool)
          → same_value v w ≡ same
          → ValueTurn v w (if same && true then next_item else compare_values p true h v w)
      go true e = inl (same_value_eq v w e)
      go false e = compare_values-ValueTurn v w e
