-- ===== src/Interp/Integers.antt =====
-- The integer instructions of byterun/interp.c, run on tagged integers.
use ocaml.Common.{
  ℕ, ◌+◌, ◌^◌, ◌<◌, ◌≡◌, ◌≢◌, refl, Bool, true, false, not, ltb, leb, some, List, [], ◌∷◌, ◌++◌,
  arith, ◌∙◌, length, sym,
}
use ocaml.Common.Int.{ℤ, pos, negsuc, ◌+ℤ◌, ◌-ℤ◌, ◌*ℤ◌, ltb_ℤ}
use ocaml.Interp.Word.{val_long, long_val, val_bool, to_word, quotient, remainder}
use ocaml.Interp.Machine.{Value, word, ptr, Machine, next, and_then, Runtime, field}
use ocaml.Interp.Opcode.{Opcode}
use ocaml.Interp.Step.{exec}
use ocaml.Interp.Branch.{
  eq_ℤ, branch_if, beq, bneq, bltint, bleint, bgtint, bgeint, bultint, bugeint, branchif,
  branch_compare,
}
use ocaml.Interp.Arith.{
  addint, subint, mulint, divint, modint, ltint, leint, gtint, geint, ultint, ugeint, eq, neq, same,
  zero_divide_exn,
}
use ocaml.Interp.Division.{IsDivision, quotient-IsDivision}
use ocaml.Interp.Handlers.{trap_frame, raise-trap}
use ocaml.Interp.Tagging.{
  Fits, long_val-val_long-Fits, add_int-val_long, sub_int-val_long, signed_lt-val_long,
}

-- A machine with one integer in accu and another on the stack.
abbrev pub operands : Machine → ℤ → ℤ → List Value → Machine
operands s m n rest = record s { accu = word (val_long m); stack = word (val_long n) ∷ rest }

-- `Computes op f`: the arithmetic instruction `op` is for the function `f`.
pub data Computes : Opcode → (ℤ → ℤ → ℤ) → Type 0 where
  add : Computes Opcode.addint ◌+ℤ◌
  sub : Computes Opcode.subint ◌-ℤ◌
  mul : Computes Opcode.mulint ◌*ℤ◌

-- ADDINT, SUBINT and MULINT leave in accu the tagged sum, difference or product, modulo the word,
-- and pop the operand.
pub Computes-val_long :
    (r : Runtime) (s : Machine) (m n : ℤ) (rest : List Value) {op : Opcode} {f : ℤ → ℤ → ℤ}
    → Computes op f
    → Fits m
    → Fits n
    → exec r op (operands s m n rest)
      ≡ next (record s { accu = word (val_long (f m n)); stack = rest })
unfolding exec addint subint mulint
Computes-val_long r s m n rest add fm fn = ground (arith, add_int-val_long m n)
Computes-val_long r s m n rest sub fm fn = ground (arith, sub_int-val_long m n)
Computes-val_long r s m n rest mul fm fn =
    ground (arith, long_val-val_long-Fits m fm, long_val-val_long-Fits n fn)

-- DIVINT and MODINT of two integers of 63 bits, the second not zero, leave in accu the tagged quotient and remainder, and
-- pop the divisor. Quotient times divisor and remainder make the dividend, and the remainder is nearer to
-- zero than the divisor and has no sign but that of the dividend: the quotient is rounded towards zero.
-- Tagging wraps the quotient of the least integer by -1.
pub Divides-val_long :
    (r : Runtime) (s : Machine) (m n : ℤ) (rest : List Value)
    → Fits m
    → Fits n
    → n ≢ pos 0
    → (q k : ℤ) × IsDivision m n q k
      × (exec r Opcode.divint (operands s m n rest)
          ≡ next (record s { accu = word (val_long q); stack = rest }))
      × (exec r Opcode.modint (operands s m n rest)
          ≡ next (record s { accu = word (val_long k); stack = rest }))
unfolding exec divint modint
Divides-val_long r s m n rest fm fn nonzero = (
  quotient m n,
  remainder m n,
  quotient-IsDivision m n nonzero,
  ground (arith, long_val-val_long-Fits m fm, long_val-val_long-Fits n fn),
  ground (arith, long_val-val_long-Fits m fm, long_val-val_long-Fits n fn),
)

-- DIVINT and MODINT.
pub data Divides : Opcode → Type 0 where
  div : Divides Opcode.divint
  mod_ : Divides Opcode.modint

raise_zero_divide-raise :
    (r : Runtime) (s : Machine) (m : ℤ) (rest : List Value) (exn : Value) {op : Opcode}
    → Divides op
    → field s.heap s.global_data zero_divide_exn ≡ some exn
    → exec r op (operands s m (pos 0) rest)
      ≡ exec r Opcode.raise (record s {
        accu = ptr (length s.heap) 0;
        stack = s.env ∷ rest;
        heap = s.heap ++ (record { tag = 0; fields = exn ∷ [] } ∷ []);
      })
unfolding exec divint modint long_val val_long
raise_zero_divide-raise r s m rest exn div e = rw e
raise_zero_divide-raise r s m rest exn mod_ e = rw e

-- A division by zero goes to the handler whose frame lies below the divisor, under whatever was pushed
-- since its PUSHTRAP, where that was in this call of the interpreter and with fewer than 2 ^ 62 arguments
-- counted: with the exception that the globals hold for it in accu, alone in a fresh block, and
-- with the stack, environment, argument count and enclosing handler of the PUSHTRAP.
pub Divides-zero :
    (r : Runtime) (s t : Machine) (m : ℤ) (above : List Value) (handler : ℕ) (exn : Value)
    {op : Opcode}
    → Divides op
    → s.extra_args < 2 ^ 62
    → r.initial_depth < length s.stack + 4
    → field t.heap t.global_data zero_divide_exn ≡ some exn
    → exec r op (
        operands
          (record t { trapsp = length s.stack + 4 })
          m
          (pos 0)
          (above ++ trap_frame s handler))
      ≡ next (record t {
        pc = handler;
        stack = s.stack;
        accu = ptr (length t.heap) 0;
        env = s.env;
        extra_args = s.extra_args;
        trapsp = s.trapsp;
        heap = t.heap ++ (record { tag = 0; fields = exn ∷ [] } ∷ []);
      })
Divides-zero r s t m above handler exn d small inner e =
    raise_zero_divide-raise r (record t { trapsp = length s.stack + 4 }) m
      (above ++ trap_frame s handler) exn d e
    ∙ raise-trap r s
        (record t {
          accu = ptr (length t.heap) 0;
          heap = t.heap ++ (record { tag = 0; fields = exn ∷ [] } ∷ []);
        })
        (t.env ∷ above) handler small inner

-- Order as unsigned words.
abbrev pub ltb_unsigned : ℤ → ℤ → Bool
ltb_unsigned m n = ltb (to_word m) (to_word n)

-- `Tests op bop t`: the comparison `op`, and the comparison with an operand and branch `bop`, are
-- for the test `t`.
pub data Tests : Opcode → Opcode → (ℤ → ℤ → Bool) → Type 0 where
  eq_ : Tests Opcode.eq Opcode.beq eq_ℤ
  neq_ : Tests Opcode.neq Opcode.bneq (λ m n. not (eq_ℤ m n))
  lt_ : Tests Opcode.ltint Opcode.bltint ltb_ℤ
  le_ : Tests Opcode.leint Opcode.bleint (λ m n. not (ltb_ℤ n m))
  gt_ : Tests Opcode.gtint Opcode.bgtint (λ m n. ltb_ℤ n m)
  ge_ : Tests Opcode.geint Opcode.bgeint (λ m n. not (ltb_ℤ m n))
  ult_ : Tests Opcode.ultint Opcode.bultint ltb_unsigned
  uge_ : Tests Opcode.ugeint Opcode.bugeint (λ m n. leb (to_word n) (to_word m))

same-val_long :
    (m n : ℤ) → Fits m → Fits n → same (word (val_long m)) (word (val_long n)) ≡ eq_ℤ m n
unfolding same val_long
same-val_long (pos m) (pos n) h k = ground arith
same-val_long (pos m) (negsuc n) h k = ground arith
same-val_long (negsuc m) (pos n) h k = ground arith
same-val_long (negsuc m) (negsuc n) h k = ground arith

ltb-val_long : (m n : ℤ) → Fits m → Fits n → ltb (val_long m) (val_long n) ≡ ltb_unsigned m n
unfolding val_long to_word
ltb-val_long (pos m) (pos n) h k = ground arith
ltb-val_long (pos m) (negsuc n) h k = ground arith
ltb-val_long (negsuc m) (pos n) h k = ground arith
ltb-val_long (negsuc m) (negsuc n) h k = ground arith

-- The comparisons leave in accu the tagged truth value of the test on the integers.
pub Tests-val_bool :
    (r : Runtime) (s : Machine) (m n : ℤ) (rest : List Value) {op bop : Opcode}
    {test : ℤ → ℤ → Bool}
    → Tests op bop test
    → Fits m
    → Fits n
    → exec r op (operands s m n rest)
      ≡ next (record s { accu = word (val_bool (test m n)); stack = rest })
unfolding exec eq neq ltint leint gtint geint ultint ugeint
Tests-val_bool r s m n rest eq_ fm fn = ground (arith, same-val_long m n fm fn)
Tests-val_bool r s m n rest neq_ fm fn = ground (arith, same-val_long m n fm fn)
Tests-val_bool r s m n rest lt_ fm fn = ground (arith, signed_lt-val_long m n fm fn)
Tests-val_bool r s m n rest le_ fm fn = ground (arith, signed_lt-val_long n m fn fm)
Tests-val_bool r s m n rest gt_ fm fn = ground (arith, signed_lt-val_long n m fn fm)
Tests-val_bool r s m n rest ge_ fm fn = ground (arith, signed_lt-val_long m n fm fn)
Tests-val_bool r s m n rest ult_ fm fn = ground (arith, ltb-val_long m n fm fn)
Tests-val_bool r s m n rest uge_ fm fn = ground (arith, ltb-val_long m n fm fn)

-- BRANCHIF on a tagged truth value.
branchif-val_bool :
    (s : Machine) (b : Bool)
    → branchif (record s { accu = word (val_bool b) })
      ≡ branch_if b (record s { accu = word (val_bool b) })
unfolding branchif val_bool
branchif-val_bool s true = refl
branchif-val_bool s false = refl

branch_compare-Fits :
    (s : Machine) (test : ℤ → ℤ → Bool) (m n : ℤ)
    → Fits n
    → s.prog s.pc ≡ m
    → branch_compare test (record s { accu = word (val_long n) })
      ≡ branch_if (test m n) (record s { pc = s.pc + 1; accu = word (val_long n) })
unfolding branch_compare
branch_compare-Fits s test m n fn e = rw (e, long_val-val_long-Fits n fn)

branch_compare-bop :
    (r : Runtime) (s : Machine) {op bop : Opcode} {test : ℤ → ℤ → Bool}
    → Tests op bop test
    → exec r bop s ≡ branch_compare test s
unfolding exec beq bneq bltint bleint bgtint bgeint bultint bugeint
branch_compare-bop r s eq_ = refl
branch_compare-bop r s _ = refl

branch_if-and_then :
    (s : Machine) (b : Bool) (v w : Value)
    → and_then (branch_if b (record s { accu = v })) (λ u. next (record u { accu = w }))
      ≡ branch_if b (record s { accu = w })
unfolding branch_if
branch_if-and_then s b v w = ground arith

-- A branch comparison of its operand with the integer in accu does what the separate comparison of
-- the two followed by BRANCHIF does, but that it keeps accu.
pub Tests-branch :
    (r : Runtime) (s : Machine) (m n : ℤ) {op bop : Opcode} {test : ℤ → ℤ → Bool}
    → Tests op bop test
    → Fits m
    → Fits n
    → s.prog s.pc ≡ m
    → exec r bop (record s { accu = word (val_long n) })
      ≡ and_then (exec r op (operands (record s { pc = s.pc + 1 }) m n s.stack)) (λ t.
        and_then (exec r Opcode.branchif t) (λ u. next (record u { accu = word (val_long n) })))
unfolding exec
Tests-branch r s m n {test} t fm fn e =
    branch_compare-bop r (record s { accu = word (val_long n) }) t
    ∙ branch_compare-Fits s test m n fn e
    ∙ sym (
        rw (Tests-val_bool r (record s { pc = s.pc + 1 }) m n s.stack t fm fn) (
          rw (branchif-val_bool (record s { pc = s.pc + 1 }) (test m n)) (
            branch_if-and_then (record s { pc = s.pc + 1 }) (test m n) (word (val_bool (test m n)))
              (word (val_long n)))))
