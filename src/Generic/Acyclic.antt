-- ===== src/Generic/Acyclic.antt =====
-- Comparison ends on a heap without cycles, byterun/compare.c.
use ocaml.Common.{
  ℕ, zero, suc, ◌+◌, ◌/◌, ◌≤◌, ◌<◌, ◌≡◌, ◌⊎◌, refl, Bool, true, false, not, ◌&&◌, Option, some,
  none, List, [], ◌∷◌, arith, if◌then◌else◌, length, ◌==◌,
}
use ocaml.Common.Int.{ℤ, pos, negsuc, same_int, sub_ℕ, ◌-ℤ◌}
use ocaml.Generic.Heap.{
  Value, long, ptr, outside, Block, string, double, double_array, forward, object, custom, fields,
  Heap, Platform, same_value, tag_val, an_integer, a_custom,
}
use ocaml.Generic.Compare.{
  returns, out_of_memory, Turn, next_item, stop, again, descend, compare_turn, compare_values,
  compare_blocks, compare_contents, compare_addresses, long_block, block_long, custom_result,
  compare_customs, compare_doubles, compare_double_fields, compare_strings, address,
}
use ocaml.Generic.Loop.{compare_val}
use ocaml.Generic.Lexicographic.{
  Result, equal, answered, Compares, settled, stopped, followed, entered, ComparesAll, none_left,
  none_right, decided, passed, answer_of,
}
use ocaml.Generic.Leaves.{
  IsLeaf, compare_strings-IsLeaf, custom_result-IsLeaf, compare_doubles-IsLeaf,
  compare_double_fields-IsLeaf, compare_customs-IsLeaf,
}
use ocaml.Generic.Execution.{compare_val-answers}

module _ (rank : ℕ → ℕ) where
  abbrev pub height : Value → ℕ
  height (long m) = 0
  height (ptr a) = suc (rank a)
  height (outside a) = 0

  abbrev pub AllBelow : List Value → ℕ → Type 0
  AllBelow [] k = Unit {0}
  AllBelow (v ∷ vs) k = (height v ≤ k) × AllBelow vs k

  abbrev pub IsBelow : Block → ℕ → Type 0
  IsBelow (forward v) k = height v ≤ k
  IsBelow (fields tag vs) k = AllBelow vs k
  IsBelow b k = Unit {0}

-- The blocks can be ranked, so that what comparison follows from a block ranks lower.
abbrev pub IsAcyclic : (ℕ → ℕ) → Heap → Type 0
IsAcyclic rank h = (a : ℕ) → IsBelow rank (h a) (rank a)

module _ (p : Platform) (total : Bool) (h : Heap) (rank : ℕ → ℕ) (acyclic : IsAcyclic rank h) where
  -- What is left after a turn ranks lower.
  Lower : Turn → Value → Value → Type 0
  Lower next_item v w = Unit {0}
  Lower (stop a) v w = Unit {0}
  Lower (again v' w') v w = height rank v' + height rank w' < height rank v + height rank w
  Lower (descend fs gs) v w =
      (k : ℕ) × (l : ℕ) × AllBelow rank fs k
      × AllBelow rank gs l
      × (suc k ≤ height rank v)
      × (suc l ≤ height rank w)

  IsLeaf-Lower : (turn : Turn) (v w : Value) → IsLeaf turn → Lower turn v w
  unfolding Lower
  IsLeaf-Lower next_item v w l = tt
  IsLeaf-Lower (stop a) v w l = tt
  IsLeaf-Lower (again v' w') v w l = elim l [ ]
  IsLeaf-Lower (descend fs gs) v w l = elim l [ ]

  long_block-Lower :
      (m : ℤ) (a : ℕ) (b : Block)
      → IsBelow rank b (rank a)
      → Lower (long_block p total m b) (long m) (ptr a)
  unfolding long_block Lower
  long_block-Lower m a (forward v) below = omega arith
  long_block-Lower m a (custom o x) below = go (p.ops o).compare_ext
    where
      go :
          (f : Option ℕ)
          → Lower
              (elim f [
                | none ↦ stop (returns (negsuc 0))
                | some f ↦ custom_result p total (p.call_compare f (an_integer m) (a_custom o x))
              ])
              (long m)
              (ptr a)
      go none = tt
      go (some f) =
          IsLeaf-Lower (custom_result p total (p.call_compare f (an_integer m) (a_custom o x)))
            (long m) (ptr a)
            (custom_result-IsLeaf p total (p.call_compare f (an_integer m) (a_custom o x)))
  long_block-Lower m a b below = tt

  block_long-Lower :
      (m : ℤ) (a : ℕ) (b : Block)
      → IsBelow rank b (rank a)
      → Lower (block_long p total b m) (ptr a) (long m)
  unfolding block_long Lower
  block_long-Lower m a (forward v) below = omega arith
  block_long-Lower m a (custom o x) below = go (p.ops o).compare_ext
    where
      go :
          (f : Option ℕ)
          → Lower
              (elim f [
                | none ↦ stop (returns (pos 1))
                | some f ↦ custom_result p total (p.call_compare f (a_custom o x) (an_integer m))
              ])
              (ptr a)
              (long m)
      go none = tt
      go (some f) =
          IsLeaf-Lower (custom_result p total (p.call_compare f (a_custom o x) (an_integer m)))
            (ptr a) (long m)
            (custom_result-IsLeaf p total (p.call_compare f (a_custom o x) (an_integer m)))
  block_long-Lower m a b below = tt

  compare_contents-Lower :
      (a b : ℕ) (b1 b2 : Block)
      → IsBelow rank b1 (rank a)
      → IsBelow rank b2 (rank b)
      → Lower (compare_contents p total (ptr a) (ptr b) b1 b2) (ptr a) (ptr b)
  unfolding compare_contents Lower
  compare_contents-Lower a b (string s1) (string s2) h1 h2 = go (a == b)
    where
      go : (same : Bool) → Lower (if same then next_item else compare_strings s1 s2) (ptr a) (ptr b)
      go true = tt
      go false = IsLeaf-Lower (compare_strings s1 s2) (ptr a) (ptr b) (compare_strings-IsLeaf s1 s2)
  compare_contents-Lower a b (double d1) (double d2) h1 h2 =
      IsLeaf-Lower (compare_doubles p total d1 d2) (ptr a) (ptr b)
        (compare_doubles-IsLeaf p total d1 d2)
  compare_contents-Lower a b (double_array d1) (double_array d2) h1 h2 = go (length d1 == length d2)
    where
      go :
          (same : Bool)
          → Lower
              (if not same
                then stop (returns (sub_ℕ (length d1) (length d2)))
                else compare_double_fields p total d1 d2)
              (ptr a)
              (ptr b)
      go false = tt
      go true =
          IsLeaf-Lower (compare_double_fields p total d1 d2) (ptr a) (ptr b)
            (compare_double_fields-IsLeaf p total d1 d2)
  compare_contents-Lower a b (object o1) (object o2) h1 h2 = go (same_int o1 o2)
    where
      go :
          (same : Bool)
          → Lower (if not same then stop (returns (o1 -ℤ o2)) else next_item) (ptr a) (ptr b)
      go false = tt
      go true = tt
  compare_contents-Lower a b (custom o x) (custom q y) h1 h2 =
      IsLeaf-Lower (compare_customs p total o x q y) (ptr a) (ptr b)
        (compare_customs-IsLeaf p total o x q y)
  compare_contents-Lower a b (fields t1 f1) (fields t2 f2) h1 h2 = go (length f1 == length f2)
    where
      go :
          (same : Bool)
          → Lower
              (if not same then stop (returns (sub_ℕ (length f1) (length f2))) else descend f1 f2)
              (ptr a)
              (ptr b)
      go false = tt
      go true = (rank a, rank b, h1, h2, omega arith, omega arith)
  compare_contents-Lower a b b1 b2 h1 h2 = tt

  same_tags-Lower :
      (a b : ℕ) (b1 b2 : Block)
      → IsBelow rank b1 (rank a)
      → IsBelow rank b2 (rank b)
      → (same : Bool)
      → Lower
          (if not same
            then stop (returns (sub_ℕ (tag_val b1) (tag_val b2)))
            else compare_contents p total (ptr a) (ptr b) b1 b2)
          (ptr a)
          (ptr b)
  unfolding Lower
  same_tags-Lower a b b1 b2 h1 h2 false = tt
  same_tags-Lower a b b1 b2 h1 h2 true = compare_contents-Lower a b b1 b2 h1 h2

  compare_blocks-Lower :
      (a b : ℕ) (b1 b2 : Block)
      → IsBelow rank b1 (rank a)
      → IsBelow rank b2 (rank b)
      → Lower (compare_blocks p total (ptr a) (ptr b) b1 b2) (ptr a) (ptr b)
  unfolding compare_blocks Lower
  compare_blocks-Lower a b (forward w1) b2 h1 h2 = omega arith
  compare_blocks-Lower a b b1 (forward w2) h1 h2 = omega arith
  compare_blocks-Lower a b b1 b2 h1 h2 = same_tags-Lower a b b1 b2 h1 h2 (tag_val b1 == tag_val b2)

  compare_addresses-Lower : (v w : Value) → Lower (compare_addresses v w) v w
  unfolding compare_addresses Lower
  compare_addresses-Lower v w = go (same_value v w)
    where
      go :
          (same : Bool)
          → Lower
              (if same then next_item else stop (returns (sub_ℕ (address v / 2) (address w / 2))))
              v
              w
      go true = tt
      go false = tt

  compare_longs-Lower :
      (m n : ℤ) (same : Bool)
      → Lower (if same then next_item else stop (returns (m -ℤ n))) (long m) (long n)
  unfolding Lower
  compare_longs-Lower m n true = tt
  compare_longs-Lower m n false = tt

  compare_values-Lower : (v w : Value) → Lower (compare_values p total h v w) v w
  unfolding compare_values Lower
  compare_values-Lower (long m) (long n) = compare_longs-Lower m n (same_int m n)
  compare_values-Lower (long m) (ptr b) = long_block-Lower m b (h b) (acyclic b)
  compare_values-Lower (long m) (outside b) = tt
  compare_values-Lower (ptr a) (long n) = block_long-Lower n a (h a) (acyclic a)
  compare_values-Lower (outside a) (long n) = tt
  compare_values-Lower (ptr a) (ptr b) =
      compare_blocks-Lower a b (h a) (h b) (acyclic a) (acyclic b)
  compare_values-Lower (ptr a) (outside b) = compare_addresses-Lower (ptr a) (outside b)
  compare_values-Lower (outside a) (ptr b) = compare_addresses-Lower (outside a) (ptr b)
  compare_values-Lower (outside a) (outside b) = compare_addresses-Lower (outside a) (outside b)

  compare_turn-Lower : (v w : Value) → Lower (compare_turn p total h v w) v w
  unfolding compare_turn Lower
  compare_turn-Lower v w = go (same_value v w && total)
    where
      go : (same : Bool) → Lower (if same then next_item else compare_values p total h v w) v w
      go true = tt
      go false = compare_values-Lower v w

  -- Two lists, where their elements can be compared.
  ComparesAll-below :
      (n k l : ℕ)
      → k + l < n
      → ((v w : Value)
          → height rank v + height rank w < n
          → (r : Result) × Compares p total h v w r)
      → (fs gs : List Value) → AllBelow rank fs k
      → AllBelow rank gs l
      → (r : Result) × ComparesAll p total h fs gs r
  ComparesAll-below n k l small rec [] gs hf hg = (equal, none_left gs)
  ComparesAll-below n k l small rec (f ∷ fs) [] hf hg = (equal, none_right f fs)
  ComparesAll-below n k l small rec (f ∷ fs) (g ∷ gs) hf hg =
      go (rec f g (omega arith)) (ComparesAll-below n k l small rec fs gs hf.1 hg.1)
    where
      go :
          ((r : Result) × Compares p total h f g r)
          → ((r : Result) × ComparesAll p total h fs gs r)
          → (r : Result) × ComparesAll p total h (f ∷ fs) (g ∷ gs) r
      go (equal, d) (r, ds) = (r, passed f g fs gs r d ds)
      go (answered a, d) (r, ds) = (answered a, decided f g fs gs a d)

  Lower-again :
      (n : ℕ) (v w v' w' : Value)
      → height rank v + height rank w < suc n
      → Lower (again v' w') v w
      → height rank v' + height rank w' < n
  unfolding Lower
  Lower-again n v w v' w' small lower = omega arith

  Lower-descend :
      (v w : Value) (fs gs : List Value)
      → Lower (descend fs gs) v w
      → (k : ℕ) × (l : ℕ) × AllBelow rank fs k
        × AllBelow rank gs l
        × (suc k ≤ height rank v)
        × (suc l ≤ height rank w)
  unfolding Lower
  Lower-descend v w fs gs lower = lower

  Compares_below :
      (n : ℕ) (v w : Value)
      → height rank v + height rank w < n
      → (r : Result) × Compares p total h v w r
  Compares_below zero v w small = absurd (omega arith)
  Compares_below (suc n) v w small =
      go (compare_turn p total h v w) refl (compare_turn-Lower v w)
        (λ v' w' small'. Compares_below n v' w' small')
    where
      go :
          (turn : Turn)
          → compare_turn p total h v w ≡ turn
          → Lower turn v w
          → ((v' w' : Value)
              → height rank v' + height rank w' < n
              → (r : Result) × Compares p total h v' w' r)
          → (r : Result) × Compares p total h v w r
      go next_item e lower rec = (equal, settled v w e)
      go (stop a) e lower rec = (answered a, stopped v w a e)
      go (again v' w') e lower rec =
          let (r, d) = rec v' w' (Lower-again n v w v' w' small lower) in
          (r, followed v w v' w' r e d)
      go (descend fs gs) e lower rec =
          let (k, l, hf, hg, hk, hl) = Lower-descend v w fs gs lower in
          let (r, ds) = ComparesAll-below n k l (omega arith) rec fs gs hf hg in
          (r, entered v w fs gs r e ds)

-- On a heap whose blocks can be ranked so that forward pointers and fields lead to lower ranks,
-- compare_val_r answers: after a number of turns it has the result of comparing the values field by
-- field, or its stack has no room.
pub compare_val-ends :
    (p : Platform) (memory : ℕ → Bool) (total : Bool) (h : Heap) (rank : ℕ → ℕ)
    → IsAcyclic rank h
    → (v w : Value)
    → (r : Result) × Compares p total h v w r
      × (turns : ℕ) × ((fuel : ℕ)
          → turns ≤ fuel
          → (compare_val p memory total h fuel v w ≡ some out_of_memory)
            ⊎ (compare_val p memory total h fuel v w ≡ some (answer_of r)))
compare_val-ends p memory total h rank acyclic v w =
    let (r, d) =
      Compares_below p total h rank acyclic (suc (height rank v + height rank w)) v w
        (omega arith) in
    let (turns, answers) = compare_val-answers p memory total h v w r d in (r, d, turns, answers)
