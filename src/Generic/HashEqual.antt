-- ===== src/Generic/HashEqual.antt =====
-- Values that compare equal hash alike: the traversals of byterun/compare.c and hash.c together.
use ocaml.Common.{
  ℕ, zero, suc, ◌<◌, ◌≡◌, ◌≢◌, ◌⊎◌, inl, inr, refl, ap, Bool, true, false, not, Option, some, none,
  List, [], ◌∷◌, arith, if◌then◌else◌, length, ◌==◌,
}
use ocaml.Common.Int.{ℤ, pos, negsuc, same_int, ltb_ℤ, sub_ℕ, ◌-ℤ◌}
use ocaml.Generic.Heap.{
  ptr, Block, string, double, double_array, forward, object, custom, fields, Heap, Platform,
  a_custom,
}
use ocaml.Generic.Compare.{
  returns, Turn, next_item, stop, again, descend, compare_blocks, compare_contents, custom_result,
  compare_customs, compare_doubles, compare_double_fields, compare_strings, strcmp, abstract_value,
}
use ocaml.Generic.Hash.{normalize, custom_hash}
use ocaml.Generic.Floats.{normalize-same, normalize-nans}
use ocaml.Generic.Leaves.{
  IsLeaf, compare_strings-IsLeaf, compare_doubles-IsLeaf, compare_double_fields-IsLeaf,
  compare_customs-IsLeaf,
}
use ocaml.Generic.Agreement.{IsCompatible, same_int_eq, compare_strings-eq, SameDoubles}
use ocaml.Generic.Alike.{Matches, IsContents}

module _ (p : Platform) (compatible : IsCompatible p) where
  pub custom_result-zero : (r : ℤ × Bool) → custom_result p true r ≡ next_item → r.0 ≡ pos 0
  unfolding custom_result
  custom_result-zero (pos zero, u) e = refl
  custom_result-zero (pos (suc n), u) e = ground arith
  custom_result-zero (negsuc n, u) e = ground arith

  compare_doubles-eq :
      (d e : ℕ) → compare_doubles p true d e ≡ next_item → normalize d ≡ normalize e
  unfolding compare_doubles
  compare_doubles-eq d e h =
      let same : p.float_eq d e ≡ true → normalize d ≡ normalize e =
        λ eq. normalize-same d e (compatible.floats d e eq) in
      let nans : p.float_eq d d ≡ false → p.float_eq e e ≡ false → normalize d ≡ normalize e =
        λ nan_d nan_e. normalize-nans d e (compatible.nans d nan_d) (compatible.nans e nan_e) in
      ground (arith, same, nans)

  compare_double_fields-eq :
      (ds es : List ℕ)
      → length ds ≡ length es
      → compare_double_fields p true ds es ≡ next_item
      → SameDoubles ds es
  unfolding compare_double_fields
  compare_double_fields-eq [] [] l e = tt
  compare_double_fields-eq [] (y ∷ es) l e = absurd (omega arith)
  compare_double_fields-eq (x ∷ ds) [] l e = absurd (omega arith)
  compare_double_fields-eq (x ∷ ds) (y ∷ es) l e =
      go (compare_doubles p true x y) refl e (compare_double_fields-eq ds es (omega arith))
    where
      go :
          (turn : Turn)
          → compare_doubles p true x y ≡ turn
          → (elim turn [ next_item ↦ compare_double_fields p true ds es | other ↦ other ])
            ≡ next_item
          → (compare_double_fields p true ds es ≡ next_item → SameDoubles ds es)
          → (normalize x ≡ normalize y) × SameDoubles ds es
      go next_item first later rest = (compare_doubles-eq x y first, rest later)
      go (stop a) first later rest = absurd (cc)
      go (again v w) first later rest = absurd (cc)
      go (descend fs gs) first later rest = absurd (cc)

  compare_customs-eq :
      (o x q y : ℕ)
      → compare_customs p true o x q y ≡ next_item
      → custom_hash p o x ≡ custom_hash p q y
  unfolding compare_customs
  compare_customs-eq o x q y e = go (p.ops o).compare (p.ops q).compare e
    where
      hardening : Turn
      hardening =
          if ltb_ℤ (strcmp (p.ops o).identifier (p.ops q).identifier) (pos 0)
          then stop (returns (negsuc 0))
          else stop (returns (pos 1))

      no : hardening ≢ next_item
      no h = ground arith

      go :
          (f g : Option ℕ)
          → (elim f [
            | none ↦ elim g [ none ↦ stop abstract_value | some g ↦ hardening ]
            | some f ↦ elim g [
              | none ↦ hardening
              | some g ↦
                  if f == g
                  then custom_result p true (p.call_compare f (a_custom o x) (a_custom q y))
                  else hardening
            ]
          ])
            ≡ next_item
          → custom_hash p o x ≡ custom_hash p q y
      go none none h = absurd (cc)
      go none (some g) h = absurd (no h)
      go (some f) none h = absurd (no h)
      go (some f) (some g) h = same (f == g) h
        where
          same :
              (b : Bool)
              → (if b
                  then custom_result p true (p.call_compare f (a_custom o x) (a_custom q y))
                  else hardening)
                ≡ next_item
              → custom_hash p o x ≡ custom_hash p q y
          same true h =
              compatible.customs f o x q y
                (custom_result-zero (p.call_compare f (a_custom o x) (a_custom q y)) h)
          same false h = absurd (no h)

abbrev pub IsTaggedBlock : Block → Type 0
IsTaggedBlock (fields tag vs) = tag < 247
IsTaggedBlock b = Unit {0}

module _ (p : Platform) (compatible : IsCompatible p) (h : Heap) where
  -- What a turn on two blocks says of them.
  abbrev pub BlockTurn : ℕ → ℕ → Block → Block → Turn → Type 0
  BlockTurn a b b1 b2 next_item = Matches p h b1 b2 × IsContents p h b1 × IsContents p h b2
  BlockTurn a b b1 b2 (stop x) = Unit {0}
  BlockTurn a b b1 b2 (again v w) =
      ((b1 ≡ forward v) × (w ≡ ptr b)) ⊎ ((b2 ≡ forward w) × (v ≡ ptr a))
  BlockTurn a b b1 b2 (descend fs gs) =
      (t : ℕ) × (b1 ≡ fields t fs) × (b2 ≡ fields t gs) × (length fs ≡ length gs)

  leaf-BlockTurn :
      (a b : ℕ) (b1 b2 : Block) (turn : Turn)
      → IsLeaf turn
      → (turn ≡ next_item → Matches p h b1 b2 × IsContents p h b1 × IsContents p h b2)
      → BlockTurn a b b1 b2 turn
  leaf-BlockTurn a b b1 b2 next_item l f = f refl
  leaf-BlockTurn a b b1 b2 (stop x) l f = tt
  leaf-BlockTurn a b b1 b2 (again v w) l f = elim l [ ]
  leaf-BlockTurn a b b1 b2 (descend fs gs) l f = elim l [ ]

  pub compare_blocks-BlockTurn :
      (a b : ℕ) (b1 b2 : Block)
      → (a == b) ≡ false
      → IsTaggedBlock b1
      → IsTaggedBlock b2
      → BlockTurn a b b1 b2 (compare_blocks p true (ptr a) (ptr b) b1 b2)
  unfolding compare_blocks compare_contents
  compare_blocks-BlockTurn a b (forward v) b2 n t1 t2 = inl (refl, refl)
  compare_blocks-BlockTurn a b b1 (forward w) n t1 t2 = inr (refl, refl)
  compare_blocks-BlockTurn a b (string s1) (string s2) n t1 t2 = go (a == b) n
    where
      go :
          (same : Bool)
          → same ≡ false
          → BlockTurn a b
              (string s1)
              (string s2)
              (if same then next_item else compare_strings s1 s2)
      go true e = absurd (cc)
      go false e =
          leaf-BlockTurn a b (string s1) (string s2) (compare_strings s1 s2)
            (compare_strings-IsLeaf s1 s2) (λ e. (compare_strings-eq s1 s2 e, tt, tt))
  compare_blocks-BlockTurn a b (double d1) (double d2) n t1 t2 =
      leaf-BlockTurn a b (double d1) (double d2) (compare_doubles p true d1 d2)
        (compare_doubles-IsLeaf p true d1 d2)
        (λ e. (compare_doubles-eq p compatible d1 d2 e, tt, tt))
  compare_blocks-BlockTurn a b (double_array d1) (double_array d2) n t1 t2 =
      go (length d1 == length d2) refl
    where
      go :
          (same : Bool)
          → (length d1 == length d2) ≡ same
          → BlockTurn a b (double_array d1) (double_array d2) (
              if not same
              then stop (returns (sub_ℕ (length d1) (length d2)))
              else compare_double_fields p true d1 d2)
      go false e = tt
      go true e =
          leaf-BlockTurn a b (double_array d1) (double_array d2)
            (compare_double_fields p true d1 d2) (compare_double_fields-IsLeaf p true d1 d2)
            (λ f. (compare_double_fields-eq p compatible d1 d2 (ground arith) f, tt, tt))
  compare_blocks-BlockTurn a b (object m) (object n') n t1 t2 = go (same_int m n') refl
    where
      go :
          (same : Bool)
          → same_int m n' ≡ same
          → BlockTurn a b
              (object m)
              (object n')
              (if not same then stop (returns (m -ℤ n')) else next_item)
      go false e = tt
      go true e = (same_int_eq m n' e, tt, tt)
  compare_blocks-BlockTurn a b (custom o x) (custom q y) n t1 t2 =
      leaf-BlockTurn a b (custom o x) (custom q y) (compare_customs p true o x q y)
        (compare_customs-IsLeaf p true o x q y)
        (λ e. (compare_customs-eq p compatible o x q y e, tt, tt))
  compare_blocks-BlockTurn a b (fields t f1) (fields u f2) n t1 t2 =
      go (t == u) refl (length f1 == length f2) refl
    where
      go :
          (same : Bool)
          → (t == u) ≡ same
          → (long_as : Bool) → (length f1 == length f2) ≡ long_as
          → BlockTurn a b (fields t f1) (fields u f2) (
              if not same
              then stop (returns (sub_ℕ t u))
              else if not long_as
              then stop (returns (sub_ℕ (length f1) (length f2)))
              else descend f1 f2)
      go false e long_as l = tt
      go true e false l = tt
      go true e true l = (t, refl, ap (λ n. fields n f2) (ground arith), ground arith)
  compare_blocks-BlockTurn a b b1 b2 n t1 t2 = ground arith
