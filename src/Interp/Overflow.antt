-- ===== src/Interp/Overflow.antt =====
-- Calls with too little room on the stack: check_stacks of byterun/interp.c and caml_realloc_stack_r of
-- byterun/stacks.c.
use ocaml.Common.{
  ℕ, zero, suc, ◌+◌, ◌-◌, ◌*◌, ◌^◌, ◌≤◌, ◌<◌, ◌≡◌, refl, sym, ap, ◌∙◌, Bool, true, false, some,
  List, [], ◌∷◌, ◌++◌, length, ltb, leb, arith, append_assoc,
}
use ocaml.Interp.Machine.{Value, ptr, Machine, next, Runtime, code_val, field}
use ocaml.Interp.Opcode.{Opcode}
use ocaml.Interp.Step.{exec}
use ocaml.Interp.Apply.{apply1, apply2, apply3, enter}
use ocaml.Interp.Control.{
  check_stacks, check_signals, realloc_size, realloc_stack, raise_constant, stack_overflow_exn,
}
use ocaml.Interp.Calls.{Passes, one, two, three, calling, call_frame, entered}
use ocaml.Interp.Handlers.{trap_frame, raise-trap}

-- The loop of caml_realloc_stack_r ends with a size that the words fit in, and less than twice as many,
-- where they fit below the limit.
realloc_size-fits :
    (fuel limit needed size : ℕ)
    → limit - size < fuel
    → 0 < size
    → size < needed
    → needed ≤ limit
    → (size' : ℕ) × (realloc_size fuel limit needed size ≡ some size')
      × (needed ≤ size')
      × (size' < 2 * needed)
unfolding realloc_size
realloc_size-fits zero limit needed size enough positive short below = absurd (omega arith)
realloc_size-fits (suc fuel) limit needed size enough positive short below =
    go (ltb (2 * size) needed) refl (λ again.
      realloc_size-fits fuel limit needed (2 * size) (omega arith) (omega arith) again below)
  where
    grows : leb limit size ≡ false
    grows = ground arith

    go :
        (again : Bool)
        → ltb (2 * size) needed ≡ again
        → (2 * size < needed
            → (size' : ℕ) × (realloc_size fuel limit needed (2 * size) ≡ some size')
              × (needed ≤ size')
              × (size' < 2 * needed))
        → (size' : ℕ) × (realloc_size (suc fuel) limit needed size ≡ some size')
          × (needed ≤ size')
          × (size' < 2 * needed)
    go true e rec =
        let (size', finds, fits, small) = rec (ground (arith, e)) in
        (size', ground (arith, grows, e, finds), fits, small)
    go false e rec = (2 * size, ground (arith, grows, e), ground (arith, e), omega arith)

-- A call up to check_stacks.
apply_op-checks :
    (r : Runtime) (s : Machine) (rest : List Value) {args : List Value} {op : Opcode} (p : ℕ)
    → Passes op args
    → code_val s.heap s.accu ≡ some p
    → exec r op (calling s args rest) ≡ check_stacks r (entered s p args rest)
unfolding exec apply1 apply2 apply3 enter
apply_op-checks r s rest p one h = rw h refl
apply_op-checks r s rest p two h = rw h refl
apply_op-checks r s rest p three h = rw h refl

check_stacks-grows :
    (r : Runtime) (s : Machine) (size : ℕ)
    → s.something_to_do ≡ false
    → s.stack_size - length s.stack < r.stack_threshold
    → realloc_size
        (suc (r.max_stack_size - s.stack_size))
        r.max_stack_size
        (length s.stack + r.stack_threshold)
        s.stack_size
      ≡ some size
    → r.memory size ≡ true
    → check_stacks r s ≡ next (record s { stack_size = size })
unfolding check_stacks realloc_stack check_signals
check_stacks-grows r s size quiet short grown there = ground (arith, quiet, short, grown, there)

check_stacks-overflows :
    (r : Runtime) (s : Machine) (exn : Value)
    → s.stack_size - length s.stack < r.stack_threshold
    → r.max_stack_size ≤ s.stack_size
    → field s.heap s.global_data stack_overflow_exn ≡ some exn
    → check_stacks r s
      ≡ exec r Opcode.raise (record s {
        accu = ptr (length s.heap) 0;
        heap = s.heap ++ (record { tag = 0; fields = exn ∷ [] } ∷ []);
      })
unfolding exec check_stacks realloc_stack realloc_size raise_constant
check_stacks-overflows r s exn short full e = ground (arith, short, full, e)

-- A call with one, two or three arguments that would leave less than the threshold free on the stack,
-- where that much fits below the limit of the stack and malloc has memory: the code of the closure starts
-- as in a call with room, with the stack grown to less than twice what is needed and with the threshold
-- free. No signal is pending.
apply_op-grows :
    (r : Runtime) (s : Machine) (rest : List Value) {args : List Value} {op : Opcode} (p : ℕ)
    → Passes op args
    → code_val s.heap s.accu ≡ some p
    → 0 < s.stack_size
    → s.stack_size - length (args ++ call_frame s rest) < r.stack_threshold
    → length (args ++ call_frame s rest) + r.stack_threshold ≤ r.max_stack_size
    → ((size : ℕ) → r.memory size ≡ true)
    → (size : ℕ) × (exec r op (calling s args rest)
        ≡ next (record (entered s p args rest) { stack_size = size }))
      × (r.stack_threshold ≤ size - length (args ++ call_frame s rest))
      × (size < 2 * (length (args ++ call_frame s rest) + r.stack_threshold))
apply_op-grows r s rest {args} p passes closure positive short below memory =
    let (size, grown, fits, small) =
      realloc_size-fits (suc (r.max_stack_size - s.stack_size)) r.max_stack_size
        (length (args ++ call_frame s rest) + r.stack_threshold) s.stack_size (omega arith) positive
        (omega (arith, short)) below in
    (
      size,
      apply_op-checks r s rest p passes closure
          ∙ check_stacks-grows r (entered s p args rest) size refl short grown (memory size),
      omega (arith, fits),
      small,
    )

-- A call with one, two or three arguments that would leave less than the threshold free on a stack at its
-- limit goes to the handler whose frame lies below the arguments, under whatever was pushed since its
-- PUSHTRAP, where that was in this call of the interpreter and with fewer than 2 ^ 62 arguments counted: with the exception Stack_overflow of the globals in accu, alone in a fresh block, and with the
-- stack, environment, argument count and enclosing handler of the PUSHTRAP.
pub apply_op-overflows :
    (r : Runtime) (s t : Machine) (above : List Value) (handler : ℕ) (exn : Value)
    {args : List Value} {op : Opcode} (p : ℕ)
    → Passes op args
    → code_val t.heap t.accu ≡ some p
    → s.extra_args < 2 ^ 62
    → r.initial_depth < length s.stack + 4
    → t.stack_size - length (args ++ call_frame t (above ++ trap_frame s handler))
      < r.stack_threshold
    → r.max_stack_size ≤ t.stack_size
    → field t.heap t.global_data stack_overflow_exn ≡ some exn
    → exec r op
        (calling (record t { trapsp = length s.stack + 4 }) args (above ++ trap_frame s handler))
      ≡ next (record t {
        pc = handler;
        stack = s.stack;
        accu = ptr (length t.heap) 0;
        env = s.env;
        extra_args = s.extra_args;
        trapsp = s.trapsp;
        heap = t.heap ++ (record { tag = 0; fields = exn ∷ [] } ∷ []);
        something_to_do = false;
      })
apply_op-overflows r s t above handler exn {args} p passes closure small inner short full e =
    let t' : Machine = record t { trapsp = length s.stack + 4 } in
    let rest = above ++ trap_frame s handler in
    apply_op-checks r t' rest p passes closure
    ∙ check_stacks-overflows r (entered t' p args rest) exn short full e
    ∙ ap
        (λ stack. exec r Opcode.raise (record (entered t' p args rest) {
          stack = stack;
          accu = ptr (length t.heap) 0;
          heap = t.heap ++ (record { tag = 0; fields = exn ∷ [] } ∷ []);
        }))
        (over_frame args)
    ∙ raise-trap r s
        (record (entered t' p args rest) {
          accu = ptr (length t.heap) 0;
          heap = t.heap ++ (record { tag = 0; fields = exn ∷ [] } ∷ []);
        })
        (args ++ call_frame t above) handler small inner
  where
    over_frame :
        (args : List Value)
        → args ++ call_frame t (above ++ trap_frame s handler)
          ≡ (args ++ call_frame t above) ++ trap_frame s handler
    over_frame args = sym (append_assoc args (call_frame t above) (trap_frame s handler))
