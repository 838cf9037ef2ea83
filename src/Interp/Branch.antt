-- ===== src/Interp/Branch.antt =====
-- Branches: BRANCH to BOOLNOT and the integer branch comparisons of byterun/interp.c.
use ocaml.Common.{◌+◌, ◌-◌, ◌%◌, ◌^◌, Bool, true, not, ◌||◌, ltb, leb, ◌==◌, if◌then◌else◌}
use ocaml.Common.Int.{ℤ, ltb_ℤ}
use ocaml.Interp.Word.{modulus, val_false, long_val, to_word}
use ocaml.Interp.Machine.{
  Value, word, ptr, code, link, atom, Machine, Outcome, next, ◌>>=◌, offset, count, as_word,
  tag_val, count_val,
}

-- `pc += *pc`.
unfoldable pub branch : Machine → Outcome
unfolding offset
branch s = do pc' ← offset s.pc (s.prog s.pc); next (record s { pc = pc' })

-- `if (taken) pc += *pc; else pc++`.
unfoldable pub branch_if : Bool → Machine → Outcome
unfolding branch
branch_if taken s = if taken then branch s else next (record s { pc = s.pc + 1 })

-- `accu != Val_false`.
unfoldable pub is_true : Value → Bool
is_true (word w) = not (w == val_false)
is_true (ptr b i) = true
is_true (code p) = true
is_true (link p) = true
is_true (atom t) = true

unfoldable pub branchif : Machine → Outcome
unfolding branch_if is_true
branchif s = branch_if (is_true s.accu) s

unfoldable pub branchifnot : Machine → Outcome
unfolding branch_if is_true
branchifnot s = branch_if (not (is_true s.accu)) s

-- `Is_block(v)`.
unfoldable pub is_block : Value → Bool
is_block (word w) = w % 2 == 0
is_block (ptr b i) = true
is_block (code p) = true
is_block (link p) = true
is_block (atom t) = true

-- SWITCH: the low half of the operand counts the entries for integers, and those for tags follow.
unfoldable pub switch : Machine → Outcome
unfolding count is_block tag_val count_val offset
switch s = do
  sizes ← count (s.prog s.pc)
  let table = s.pc + 1
  if is_block s.accu
      then (do
        index ← tag_val s.heap s.accu
        pc' ← offset table (s.prog (table + (sizes % 2 ^ 16 + index)))
        next (record s { pc = pc' }))
      else (do
        index ← count_val s.accu
        pc' ← offset table (s.prog (table + index))
        next (record s { pc = pc' }))

-- BOOLNOT: Val_false + Val_true - accu.
unfoldable pub boolnot : Machine → Outcome
unfolding as_word
boolnot s = do w ← as_word s.accu; next (record s { accu = word ((4 + modulus - w) % modulus) })

-- The tests of a branch between an operand and Long_val(accu), both signed.
abbrev pub eq_ℤ : ℤ → ℤ → Bool
eq_ℤ a b = not (ltb_ℤ a b || ltb_ℤ b a)

-- BEQ, ..., BUGEINT: `if (*pc++ tst Long_val(accu)) pc += *pc; else pc++`.
unfoldable pub branch_compare : (ℤ → ℤ → Bool) → Machine → Outcome
unfolding as_word branch_if
branch_compare test s = do
  w ← as_word s.accu
  branch_if (test (s.prog s.pc) (long_val w)) (record s { pc = s.pc + 1 })

unfoldable pub beq : Machine → Outcome
unfolding branch_compare
beq = branch_compare eq_ℤ

unfoldable pub bneq : Machine → Outcome
unfolding branch_compare
bneq = branch_compare (λ a b. not (eq_ℤ a b))

unfoldable pub bltint : Machine → Outcome
unfolding branch_compare
bltint = branch_compare ltb_ℤ

unfoldable pub bleint : Machine → Outcome
unfolding branch_compare
bleint = branch_compare (λ a b. not (ltb_ℤ b a))

unfoldable pub bgtint : Machine → Outcome
unfolding branch_compare
bgtint = branch_compare (λ a b. ltb_ℤ b a)

unfoldable pub bgeint : Machine → Outcome
unfolding branch_compare
bgeint = branch_compare (λ a b. not (ltb_ℤ a b))

unfoldable pub bultint : Machine → Outcome
unfolding branch_compare to_word
bultint = branch_compare (λ a b. ltb (to_word a) (to_word b))

unfoldable pub bugeint : Machine → Outcome
unfolding branch_compare to_word
bugeint = branch_compare (λ a b. leb (to_word b) (to_word a))
