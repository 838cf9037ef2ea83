-- ===== src/Interp/MethodSearch.antt =====
-- The search for a method by its tag, GETDYNMET and GETPUBMET of byterun/interp.c.
use ocaml.Common.{
  ℕ, zero, suc, ◌-◌, ◌+◌, ◌%◌, ◌^◌, ◌≤◌, ◌<◌, ◌≡◌, ap, true, false, Option, some, arith, ltb,
  Bool-cases, inl, inr,
}
use ocaml.Interp.Word.{signed_lt}
use ocaml.Interp.Object.{middle, search_tag}

-- The indices of tags: odd, from 3 to the last.
abbrev pub IsTagIndex : ℕ → ℕ → Type 0
IsTagIndex last i = (3 ≤ i) × (i ≤ last) × (i % 2 ≡ 1)

-- The tags of a table, strictly increasing as signed words.
pub record IsSorted (tag_at : ℕ → Option ℕ) (last : ℕ) (tags : ℕ → ℕ) : Type 0 where
  pub read : (i : ℕ) → IsTagIndex last i → tag_at i ≡ some (tags i)
  pub increasing :
      (i j : ℕ) → IsTagIndex last i → IsTagIndex last j → i < j → signed_lt (tags i) (tags j) ≡ true

signed_lt_irrefl : (a : ℕ) → signed_lt a a ≡ false
unfolding signed_lt
signed_lt_irrefl a = ground arith

signed_lt_asymm : (a b : ℕ) → signed_lt a b ≡ true → signed_lt b a ≡ false
unfolding signed_lt
signed_lt_asymm a b h = ground arith

middle_bounds :
    (li hi : ℕ)
    → li < hi
    → li % 2 ≡ 1
    → hi % 2 ≡ 1
    → (li < middle li hi) × (middle li hi ≤ hi) × (middle li hi % 2 ≡ 1)
unfolding middle
middle_bounds li hi h p q = omega arith

two_below : (i j : ℕ) → i < j → i % 2 ≡ 1 → j % 2 ≡ 1 → i ≤ j - 2
two_below i j h p q = omega arith

module _ {tag_at : ℕ → Option ℕ} {last : ℕ} {tags : ℕ → ℕ}
    (sorted : IsSorted tag_at last tags) where
  lt_of_tags :
      (i j : ℕ) → IsTagIndex last i → IsTagIndex last j → signed_lt (tags i) (tags j) ≡ true → i < j
  lt_of_tags i j p q h = ground (
    arith,
    sorted.increasing j i q p,
    signed_lt_irrefl (tags i),
    signed_lt_asymm (tags i) (tags j),
    ap tags {x = i} {y = j},
  )

  le_of_tags :
      (i j : ℕ)
      → IsTagIndex last i
      → IsTagIndex last j
      → signed_lt (tags i) (tags j) ≡ false
      → j ≤ i
  le_of_tags i j p q h = ground (arith, sorted.increasing i j p q)

  -- The loop stops at the index of the tag, within its fuel.
  pub search_tag-finds :
      (fuel li hi j : ℕ)
      → IsTagIndex last j
      → li ≤ j
      → j ≤ hi
      → hi ≤ last
      → last < 2 ^ 30
      → 3 ≤ li
      → li % 2 ≡ 1
      → hi % 2 ≡ 1
      → hi - li < fuel
      → search_tag tag_at (tags j) fuel li hi ≡ some j
  unfolding search_tag
  search_tag-finds zero li hi j t a b c bound d e f g = absurd (omega arith)
  search_tag-finds (suc fuel) li hi j t a b c bound d e f g = elim (Bool-cases (ltb li hi)) [
    | inl more ↦
        let mid : (li < middle li hi) × (middle li hi ≤ hi) × (middle li hi % 2 ≡ 1) =
          middle_bounds li hi (ground arith) e f in
        let index : IsTagIndex last (middle li hi) = (omega arith, omega arith, mid.2) in
        let sum : ltb (li + hi) (2 ^ 31) ≡ true = ground (arith, bound, c, more) in
        rw (more, sum, sorted.read (middle li hi) index)
          (elim (Bool-cases (signed_lt (tags j) (tags (middle li hi)))) [
            | inl left ↦ rw left (
                search_tag-finds fuel li (middle li hi - 2) j t a
                  (two_below j (middle li hi) (lt_of_tags j (middle li hi) t index left) t.2 mid.2)
                  (omega arith) bound d e (omega arith) (omega arith))
            | inr right ↦ rw right (
                search_tag-finds fuel (middle li hi) hi j t
                  (le_of_tags j (middle li hi) t index right) b c bound (omega arith) mid.2 f
                  (omega arith))
          ])
    | inr done ↦ rw done (ap some (ground arith))
  ]

  pub tags-injective : (i j : ℕ) → IsTagIndex last i → IsTagIndex last j → tags i ≡ tags j → i ≡ j
  tags-injective i j p q e =
      ground
        (arith, sorted.increasing i j p q, sorted.increasing j i q p, signed_lt_irrefl (tags i))
