-- ===== src/Interp/Arith.antt =====
-- Integer constants, arithmetic and comparisons: CONST0 to ISINT of byterun/interp.c. An operand
-- that is a pointer where a number is wanted is a fault.
use ocaml.Common.{ℕ, ◌+◌, ◌%◌, Bool, false, not, ◌∷◌, ltb, leb, ◌==◌, ◌&&◌, if◌then◌else◌}
use ocaml.Common.Int.{ℤ, pos}
use ocaml.Interp.Word.{
  modulus, val_unit, val_long, long_val, to_word, signed_lt, val_bool, neg_int, add_int, sub_int,
  and_int, or_int, xor_int, lsl_int, lsr_int, asr_int, quotient, remainder, shift_left,
}
use ocaml.Common.Int.{◌*ℤ◌}
use ocaml.Interp.Machine.{
  Value, word, ptr, code, link, atom, Machine, Outcome, next, fault, ◌>>=◌, as_word, peek, push,
  pop, field, set_field, count, Runtime,
}
use ocaml.Interp.Control.{raise_constant}

-- CONST0 to CONST3, and PUSHCONST0 to PUSHCONST3.
unfoldable pub const : ℕ → Machine → Outcome
const n s = next (record s { accu = word (val_long (pos n)) })

unfoldable pub push_const : ℕ → Machine → Outcome
push_const n s = let s' = push s.accu s in next (record s' { accu = word (val_long (pos n)) })

-- CONSTINT, and PUSHCONSTINT, which falls through.
unfoldable pub constint : Machine → Outcome
constint s = next (record s { pc = s.pc + 1; accu = word (val_long (s.prog s.pc)) })

unfoldable pub push_constint : Machine → Outcome
unfolding constint
push_constint s = constint (push s.accu s)

unfoldable pub negint : Machine → Outcome
unfolding as_word
negint s = do a ← as_word s.accu; next (record s { accu = word (neg_int a) })

-- An operation on accu and *sp++.
unfoldable pub binary : (ℕ → ℕ → ℕ) → Machine → Outcome
unfolding as_word peek pop
binary op s = do
  a ← as_word s.accu
  top ← peek 0 s
  b ← as_word top
  s' ← pop 1 s
  next (record s' { accu = word (op a b) })

unfoldable pub addint : Machine → Outcome
unfolding binary
addint = binary add_int

unfoldable pub subint : Machine → Outcome
unfolding binary
subint = binary sub_int

-- Val_long(Long_val(accu) * Long_val(*sp++)).
unfoldable pub mulint : Machine → Outcome
unfolding binary
mulint = binary (λ a b. val_long (long_val a *ℤ long_val b))

unfoldable pub andint : Machine → Outcome
unfolding binary
andint = binary and_int

unfoldable pub orint : Machine → Outcome
unfolding binary
orint = binary or_int

unfoldable pub xorint : Machine → Outcome
unfolding binary
xorint = binary xor_int

-- Field Division_by_zero of the globals, byterun/fail.h.
abbrev pub zero_divide_exn : ℕ
zero_divide_exn = 5

-- caml_raise_zero_divide_r, behind Setup_for_c_call.
unfoldable pub raise_zero_divide : Runtime → Machine → Outcome
unfolding raise_constant
raise_zero_divide r s = raise_constant zero_divide_exn r (record s { stack = s.env ∷ s.stack })

-- DIVINT and MODINT.
unfoldable pub divide : (ℤ → ℤ → ℤ) → Runtime → Machine → Outcome
unfolding as_word peek pop raise_zero_divide
divide op r s = do
  a ← as_word s.accu
  top ← peek 0 s
  b ← as_word top
  s' ← pop 1 s
  let divisor = long_val b
  elim divisor [
    | ℤ.pos ℕ.zero ↦ raise_zero_divide r s'
    | d ↦ next (record s' { accu = word (val_long (op (long_val a) d)) })
  ]

unfoldable pub divint : Runtime → Machine → Outcome
unfolding divide
divint = divide quotient

unfoldable pub modint : Runtime → Machine → Outcome
unfolding divide
modint = divide remainder

-- LSLINT, LSRINT and ASRINT: a count outside 0 to 63 is undefined in C.
unfoldable pub shift : (ℕ → ℕ → ℕ) → Machine → Outcome
unfolding as_word count peek pop
shift op s = do
  a ← as_word s.accu
  top ← peek 0 s
  b ← as_word top
  n ← count (long_val b)
  s' ← pop 1 s
  if ltb n 64 then next (record s' { accu = word (op a n) }) else fault

unfoldable pub lslint : Machine → Outcome
unfolding shift
lslint = shift lsl_int

unfoldable pub lsrint : Machine → Outcome
unfolding shift
lsrint = shift lsr_int

unfoldable pub asrint : Machine → Outcome
unfolding shift
asrint = shift asr_int

-- Equality of values as words: pointers are equal if they point to the same place.
unfoldable pub same : Value → Value → Bool
same (word a) (word b) = a == b
same (ptr a i) (ptr b j) = a == b && i == j
same (code p) (code q) = p == q
same (link p) (link q) = p == q
same (atom t) (atom u) = t == u
same _ _ = false

-- EQ and NEQ.
unfoldable pub compare_same : (Bool → Bool) → Machine → Outcome
unfolding same peek pop
compare_same answer s = do
  b ← peek 0 s
  s' ← pop 1 s
  next (record s' { accu = word (val_bool (answer (same s.accu b))) })

unfoldable pub eq : Machine → Outcome
unfolding compare_same
eq = compare_same (λ b. b)

unfoldable pub neq : Machine → Outcome
unfolding compare_same
neq = compare_same not

-- LTINT, ..., UGEINT compare the tagged words themselves.
unfoldable pub ltint : Machine → Outcome
unfolding binary
ltint = binary (λ a b. val_bool (signed_lt a b))

unfoldable pub leint : Machine → Outcome
unfolding binary
leint = binary (λ a b. val_bool (not (signed_lt b a)))

unfoldable pub gtint : Machine → Outcome
unfolding binary
gtint = binary (λ a b. val_bool (signed_lt b a))

unfoldable pub geint : Machine → Outcome
unfolding binary
geint = binary (λ a b. val_bool (not (signed_lt a b)))

unfoldable pub ultint : Machine → Outcome
unfolding binary
ultint = binary (λ a b. val_bool (ltb a b))

unfoldable pub ugeint : Machine → Outcome
unfolding binary
ugeint = binary (λ a b. val_bool (leb b a))

-- `x + (*pc << 1)`.
unfoldable pub add_offset : ℕ → ℤ → ℕ
add_offset a n = (a + shift_left (to_word n) 1) % modulus

-- OFFSETINT.
unfoldable pub offsetint : Machine → Outcome
unfolding as_word
offsetint s = do
  a ← as_word s.accu
  next (record s { pc = s.pc + 1; accu = word (add_offset a (s.prog s.pc)) })

-- OFFSETREF.
unfoldable pub offsetref : Machine → Outcome
unfolding field as_word set_field
offsetref s = do
  v ← field s.heap s.accu 0
  a ← as_word v
  heap' ← set_field s.heap s.accu 0 (word (add_offset a (s.prog s.pc)))
  next (record s { pc = s.pc + 1; accu = word val_unit; heap = heap' })

-- ISINT: Val_long(accu & 1), where a pointer is even.
unfoldable pub low_bit : Value → ℕ
low_bit (word w) = w % 2
low_bit (ptr b i) = 0
low_bit (code p) = 0
low_bit (link p) = 0
low_bit (atom t) = 0

unfoldable pub isint : Machine → Outcome
unfolding low_bit
isint s = next (record s { accu = word (val_long (pos (low_bit s.accu))) })
