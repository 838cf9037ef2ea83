-- ===== src/Interp/Tests.antt =====
-- Runs of the machine of byterun/interp.c on small programs, and its theorems at concrete inputs.
use ocaml.Common.{
  ℕ, ◌<◌, ◌≡◌, refl, true, false, Option, some, none, List, [], ◌∷◌, ◌++◌, ◌⊎◌, inl, inr, arith,
  ◌==◌, ◌&&◌, if◌then◌else◌, get_or,
}
use ocaml.Common.Int.{ℤ, pos, negsuc, ◌+ℤ◌, ltb_ℤ}
use ocaml.Interp.Word.{val_long, val_unit, val_bool, quotient, signed_lt}
use ocaml.Interp.Machine.{
  Value, word, ptr, code, atom, Heap, Machine, Outcome, next, stop, uncaught, and_then, Runtime,
  returns, raises, field, code_val, offset, closure_tag, split, as_code,
}
use ocaml.Interp.Opcode.{Opcode}
use ocaml.Interp.Step.{exec, run, start}
use ocaml.Interp.Control.{after_effect, stack_overflow_exn}
use ocaml.Interp.Stack.{acc, pop_at}
use ocaml.Interp.Object.{word_field}
use ocaml.Interp.Calls.{two, calling, call_frame, tail_calling, replaced, appterm-replaces}
use ocaml.Interp.Partial.{partial_block, grab-restart}
use ocaml.Interp.Handlers.{
  trapped, trap_frame, push_trap-raise, pop_trap-raises, check_signals-returns,
}
use ocaml.Interp.Fusion.{Fused, Fused-and_then}
use ocaml.Interp.Integers.{
  operands, Computes, Computes-val_long, Divides, Divides-val_long, Divides-zero, Tests,
  Tests-val_bool, Tests-branch,
}
use ocaml.Interp.Arith.{zero_divide_exn}
use ocaml.Interp.Division.{IsDivision}
use ocaml.Interp.Overflow.{apply_op-overflows}
use ocaml.Interp.MethodSearch.{IsTagIndex}
use ocaml.Interp.MethodCache.{IsTable, getdynmet-finds}
use ocaml.Interp.Memory.{written, indexed, setvectitem-getvectitem}

abbrev quiet : Runtime
quiet = record {
  primitive = λ reentrant n args h.
      returns (record { value = get_or args n (word 1); heap = h; pending = false });
  event = λ h. returns (record { value = word 1; heap = h; pending = false });
  initial_depth = 0;
  max_stack_size = 1000;
  stack_threshold = 4;
  memory = λ size. true;
  out_of_memory_bucket = word 13;
}

abbrev interrupted : Runtime
interrupted = record {
  primitive = λ reentrant n args h. raises (record { value = word 9; heap = h; pending = false });
  event = λ h. raises (record { value = word 7; heap = h; pending = false });
  initial_depth = 0;
  max_stack_size = 1000;
  stack_threshold = 4;
  memory = λ size. true;
  out_of_memory_bucket = word 13;
}

-- A machine for a program: the operands and opcodes from 0 on, and 0 past the end.
abbrev at : List ℤ → ℕ → ℤ
at xs i = get_or xs i (pos 0)

abbrev machine : List ℤ → List Value → Value → Heap → Machine
machine prog stack accu heap = record {
  pc = 0;
  stack = stack;
  accu = accu;
  env = atom 0;
  extra_args = 0;
  trapsp = 0;
  heap = heap;
  global_data = ptr 0 0;
  prog = at prog;
  something_to_do = false;
  stack_size = 100;
}

-- PUSH_RETADDR (to 10); CONSTINT 5; PUSH; CLOSURE 0 (to 13); APPLY 1; STOP at 10; and at 13 the code
-- ACC0; PUSHCONSTINT 37; ADDINT; RETURN 1.
abbrev call_program : List ℤ
call_program =
    pos 31
    ∷ pos 9
    ∷ pos 103
    ∷ pos 5
    ∷ pos 9
    ∷ pos 43
    ∷ pos 0
    ∷ pos 6
    ∷ pos 32
    ∷ pos 1
    ∷ pos 143
    ∷ pos 0
    ∷ pos 0
    ∷ pos 0
    ∷ pos 108
    ∷ pos 37
    ∷ pos 110
    ∷ pos 40
    ∷ pos 1
    ∷ []

-- The value that a run stops with.
abbrev result : Outcome → Option Value
result (next s) = none
result (stop v s) = some v
result (uncaught v s) = some v
result Outcome.fault = none

call_program-result :
    result (run quiet 20 (start (machine call_program [] (word 1) []) 0)) ≡ some (word 85)
unfolding run exec start split val_long ocaml.Interp.Apply.push_retaddr ocaml.Interp.Arith.constint
    ocaml.Interp.Closure.closure ocaml.Interp.Apply.apply_at ocaml.Interp.Stack.acc
    ocaml.Interp.Arith.push_constint ocaml.Interp.Arith.addint ocaml.Interp.Word.add_int
    ocaml.Interp.Apply.return_at ocaml.Interp.Apply.enter ocaml.Interp.Word.long_val field
call_program-result = refl

-- A closure of code 20 is block 0, the globals are block 1, an array of two is block 2.
abbrev heap : Heap
heap =
    record { tag = closure_tag; fields = code 20 ∷ [] }
    ∷ record {
      tag = 0;
      fields =
          word 1 ∷ word 1 ∷ word 1 ∷ word 1 ∷ word 1 ∷ word 99 ∷ word 1 ∷ word 1 ∷ word 77 ∷ [];
    }
    ∷ record { tag = 0; fields = word 3 ∷ word 5 ∷ [] }
    ∷ []

abbrev caller : Machine
caller = record (machine (pos 4 ∷ pos 2 ∷ pos 3 ∷ []) [] (ptr 0 0) heap) {
  global_data = ptr 1 0;
  extra_args = 3;
}

abbrev callee : Machine
callee = record caller { pc = 2; accu = word 85 }

code_20 : code_val heap (ptr 0 0) ≡ some 20
unfolding code_val field as_code
code_20 = refl

appterm-replaces_example :
    exec quiet Opcode.appterm
      (tail_calling (record caller { pc = 1 }) (word 3 ∷ word 5 ∷ []) (word 9 ∷ []) (word 7 ∷ []))
    ≡ next (replaced caller 20 (word 3 ∷ word 5 ∷ []) (word 7 ∷ []))
appterm-replaces_example =
    appterm-replaces quiet (record caller { pc = 1 }) (word 3) (word 5 ∷ []) (word 9 ∷ [])
      (word 7 ∷ []) 20 code_20 refl refl (omega arith)

-- In a function of three arguments called with two.
abbrev grabbing : Machine
grabbing = record caller {
  pc = 5;
  env = ptr 0 0;
  extra_args = 1;
  prog = at (pos 0 ∷ pos 0 ∷ pos 0 ∷ pos 41 ∷ pos 42 ∷ pos 2 ∷ []);
}

abbrev grabbed : Heap
grabbed = heap ++ (partial_block 3 (ptr 0 0) (word 3 ∷ word 5 ∷ []) ∷ [])

grab-restart_example :
    (exec quiet Opcode.grab
        (record grabbing { stack = (word 3 ∷ word 5 ∷ []) ++ call_frame caller [] })
      ≡ next (record grabbing {
        pc = 0;
        stack = [];
        accu = ptr 3 0;
        env = atom 0;
        extra_args = 3;
        heap = grabbed;
      }))
    × (code_val grabbed (ptr 3 0) ≡ some 3)
    × (exec quiet Opcode.restart (record (record caller { heap = grabbed }) { env = ptr 3 0 })
        ≡ next (record (record caller { heap = grabbed }) {
          stack = word 3 ∷ word 5 ∷ [];
          env = ptr 0 0;
          extra_args = 5;
        }))
grab-restart_example =
    grab-restart quiet grabbing caller (record caller { heap = grabbed }) 2 (word 3) (word 5 ∷ [])
      [] refl refl (omega arith) (omega arith) (omega arith) refl

-- A handler at 5, for an instruction PUSHTRAP with its operand at 0.
abbrev trapping : Machine
trapping = record caller { stack = word 3 ∷ [] }

handler_at_4 : offset trapping.pc (trapping.prog trapping.pc) ≡ some 4
unfolding offset
handler_at_4 = refl

push_trap-raise_example :
    (exec quiet Opcode.pushtrap trapping ≡ next (trapped trapping 4))
    × (exec quiet Opcode.raise (record callee {
      stack = (word 1 ∷ []) ++ (trapped trapping 4).stack;
      trapsp = (trapped trapping 4).trapsp;
    })
        ≡ next (record callee {
          pc = 4;
          stack = word 3 ∷ [];
          env = atom 0;
          extra_args = 3;
          trapsp = 0;
        }))
push_trap-raise_example =
    push_trap-raise quiet trapping callee (word 1 ∷ []) 4 handler_at_4 (omega arith) (omega arith)

abbrev signalled : Machine
signalled = record callee { something_to_do = true }

pop_trap-raises_example :
    exec interrupted Opcode.poptrap (record signalled { stack = trap_frame trapping 4; trapsp = 5 })
    ≡ next (record signalled {
      pc = 4;
      stack = word 3 ∷ [];
      accu = word 7;
      env = atom 0;
      extra_args = 3;
      trapsp = 0;
      heap = heap;
      something_to_do = false;
    })
pop_trap-raises_example =
    pop_trap-raises interrupted trapping signalled 4
      (record { value = word 7; heap = heap; pending = false }) (omega arith) (omega arith)
      (omega arith) refl refl

check_signals-returns_example :
    exec quiet Opcode.check_signals signalled
    ≡ next (after_effect (record { value = word 1; heap = heap; pending = false }) signalled)
check_signals-returns_example =
    check_signals-returns quiet signalled (record { value = word 1; heap = heap; pending = false })
      (omega arith) refl refl

Fused-and_then_example :
    exec quiet Opcode.pushacc2 (record caller { stack = word 3 ∷ word 5 ∷ [] })
    ≡ and_then
        (exec quiet Opcode.push (record caller { stack = word 3 ∷ word 5 ∷ [] }))
        (exec quiet Opcode.acc2)
Fused-and_then_example =
    Fused-and_then quiet (record caller { stack = word 3 ∷ word 5 ∷ [] }) Fused.acc2

Computes-val_long_example :
    exec quiet Opcode.addint (operands caller (negsuc 4) (pos 7) [])
    ≡ next (record caller { accu = word (val_long (negsuc 4 +ℤ pos 7)); stack = [] })
Computes-val_long_example =
    Computes-val_long quiet caller (negsuc 4) (pos 7) [] Computes.add (omega arith) (omega arith)

Divides-val_long_example :
    (q k : ℤ) × IsDivision (negsuc 6) (pos 2) q k
    × (exec quiet Opcode.divint (operands caller (negsuc 6) (pos 2) [])
        ≡ next (record caller { accu = word (val_long q); stack = [] }))
    × (exec quiet Opcode.modint (operands caller (negsuc 6) (pos 2) [])
        ≡ next (record caller { accu = word (val_long k); stack = [] }))
Divides-val_long_example =
    Divides-val_long quiet caller (negsuc 6) (pos 2) [] (omega arith) (omega arith) (λ e. cc)

divint_run :
    exec quiet Opcode.divint (operands caller (negsuc 6) (pos 2) [])
    ≡ next (record caller { accu = word (val_long (negsuc 2)); stack = [] })
unfolding exec ocaml.Interp.Arith.divint quotient val_long ocaml.Interp.Word.long_val
divint_run = refl

exn_99 : field heap (ptr 1 0) zero_divide_exn ≡ some (word 99)
unfolding field
exn_99 = refl

exn_77 : field heap (ptr 1 0) stack_overflow_exn ≡ some (word 77)
unfolding field
exn_77 = refl

Divides-zero_example :
    exec quiet Opcode.modint (
      operands
        (record caller { trapsp = 5 })
        (pos 6)
        (pos 0)
        ((word 1 ∷ []) ++ trap_frame trapping 4))
    ≡ next (record caller {
      pc = 4;
      stack = word 3 ∷ [];
      accu = ptr 3 0;
      env = atom 0;
      extra_args = 3;
      trapsp = 0;
      heap = heap ++ (record { tag = 0; fields = word 99 ∷ [] } ∷ []);
    })
Divides-zero_example =
    Divides-zero quiet trapping caller (pos 6) (word 1 ∷ []) 4 (word 99) Divides.mod_ (omega arith)
      (omega arith) exn_99

-- A machine under a handler whose stack is at its limit, with no room for a call.
abbrev limited : Runtime
limited = record quiet { max_stack_size = 12 }

abbrev full : Machine
full = record caller { stack_size = 12 }

apply_op-overflows_example :
    exec limited Opcode.apply2
      (calling (record full { trapsp = 5 }) (word 3 ∷ word 5 ∷ []) ([] ++ trap_frame trapping 4))
    ≡ next (record full {
      pc = 4;
      stack = word 3 ∷ [];
      accu = ptr 3 0;
      env = atom 0;
      extra_args = 3;
      trapsp = 0;
      heap = heap ++ (record { tag = 0; fields = word 77 ∷ [] } ∷ []);
      something_to_do = false;
    })
apply_op-overflows_example =
    apply_op-overflows limited trapping full [] 4 (word 77) 20 two code_20 (omega arith)
      (omega arith) (omega arith) (omega arith) exn_77

Tests-val_bool_example :
    exec quiet Opcode.ltint (operands caller (negsuc 4) (pos 7) [])
    ≡ next (record caller { accu = word (val_bool (ltb_ℤ (negsuc 4) (pos 7))); stack = [] })
Tests-val_bool_example =
    Tests-val_bool quiet caller (negsuc 4) (pos 7) [] Tests.lt_ (omega arith) (omega arith)

Tests-branch_example :
    exec quiet Opcode.bltint (record caller { accu = word (val_long (pos 7)) })
    ≡ and_then
        (exec quiet Opcode.ltint (operands (record caller { pc = 1 }) (pos 4) (pos 7) []))
        (λ t.
          and_then
            (exec quiet Opcode.branchif t)
            (λ u. next (record u { accu = word (val_long (pos 7)) })))
Tests-branch_example =
    Tests-branch quiet caller (pos 4) (pos 7) Tests.lt_ (omega arith) (omega arith) refl

-- An object of a class with two methods: the object is block 0, its table block 1.
abbrev methods : Heap
methods =
    record { tag = 248; fields = ptr 1 0 ∷ [] }
    ∷ record { tag = 0; fields = word 5 ∷ word 31 ∷ code 40 ∷ word 21 ∷ code 50 ∷ word 41 ∷ [] }
    ∷ []

abbrev tag_of : ℕ → ℕ
tag_of i = if i == 3 then 21 else 41

abbrev method_of : ℕ → Value
method_of i = if i == 3 then code 40 else code 50

tag_index_cases : (i : ℕ) → IsTagIndex 5 i → (i ≡ 3) ⊎ (i ≡ 5)
tag_index_cases i t = omega arith

methods-IsTable : IsTable methods (ptr 1 0) 5 tag_of method_of
unfolding word_field field
methods-IsTable = record {
  size = refl;
  odd = refl;
  small = omega arith;
  sorted = record {
    read = λ i t. elim (tag_index_cases i t) [ inl e ↦ rw e | inr e ↦ rw e ];
    increasing = increasing;
  };
  method = λ i t. elim (tag_index_cases i t) [ inl e ↦ rw e | inr e ↦ rw e ];
}
  where
    lower : signed_lt 21 41 ≡ true
    lower = unfold signed_lt in refl

    increasing :
        (i j : ℕ) → IsTagIndex 5 i → IsTagIndex 5 j → i < j → signed_lt (tag_of i) (tag_of j) ≡ true
    increasing i j p q h = ground (arith, tag_index_cases i p, tag_index_cases j q, lower)

abbrev sending : Machine
sending = machine (pos 20 ∷ pos 0 ∷ []) [] (ptr 0 0) methods

own_table : field methods (ptr 0 0) 0 ≡ some (ptr 1 0)
unfolding field
own_table = refl

getdynmet-finds_example :
    exec quiet Opcode.getdynmet (record sending { accu = word 41; stack = ptr 0 0 ∷ [] })
    ≡ next (record sending { accu = code 50; stack = ptr 0 0 ∷ [] })
getdynmet-finds_example =
    getdynmet-finds quiet sending (ptr 0 0) [] 5 methods-IsTable own_table
      (omega arith, omega arith, refl)

setvectitem-getvectitem_example :
    (exec quiet Opcode.setvectitem (indexed caller (ptr 2 0) 1 (word 11 ∷ []))
      ≡ next (record caller {
        accu = word val_unit;
        stack = [];
        heap = written heap 2 (record { tag = 0; fields = word 3 ∷ word 5 ∷ [] }) 1 (word 11);
      }))
    × (exec quiet Opcode.getvectitem (
          indexed
            (record caller {
              heap = written heap 2 (record { tag = 0; fields = word 3 ∷ word 5 ∷ [] }) 1 (word 11);
            })
            (ptr 2 0)
            1
            [])
        ≡ next (record caller {
          accu = word 11;
          stack = [];
          heap = written heap 2 (record { tag = 0; fields = word 3 ∷ word 5 ∷ [] }) 1 (word 11);
        }))
    × (field
          (written heap 2 (record { tag = 0; fields = word 3 ∷ word 5 ∷ [] }) 1 (word 11))
          (ptr 2 0)
          0
        ≡ (if 2 == 2 && 0 == 1 then some (word 11) else field heap (ptr 2 0) 0))
setvectitem-getvectitem_example =
    setvectitem-getvectitem quiet caller caller 2 2 1 0 (word 11) [] []
      (record { tag = 0; fields = word 3 ∷ word 5 ∷ [] })
      (record { there = refl; inside = omega arith }) (omega arith)
