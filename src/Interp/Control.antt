-- ===== src/Interp/Control.antt =====
-- Exceptions, stack checks and signals: PUSHTRAP, POPTRAP, RAISE, check_stacks and CHECK_SIGNALS of
-- byterun/interp.c, with the frame that an event pushes, and caml_realloc_stack_r of byterun/stacks.c.
-- An address of the stack is its distance from the high end, so moving the stack changes its size
-- alone. The debugger and the backtrace are left out.
use ocaml.Common.{
  ℕ, zero, suc, ◌+◌, ◌-◌, ◌*◌, false, Option, some, none, List, [], ◌∷◌, leb, ltb, if◌then◌else◌,
  length,
}
use ocaml.Common.Int.{negsuc}
use ocaml.Interp.Word.{val_unit}
use ocaml.Interp.Machine.{
  Value, word, code, link, Machine, Outcome, next, uncaught, ◌>>=◌, offset, as_code, as_link, peek,
  pop, val_count, count_val, split, field, alloc, Effect, returns, raises, Runtime,
}

-- The stack from an address of it on: `depth` words below caml_stack_high.
unfoldable pub stack_from : ℕ → List Value → Option (List Value)
unfolding split
stack_from depth stack =
    if leb depth (length stack)
    then elim (split (length stack - depth) stack) [ none ↦ none | some (_, below) ↦ some below ]
    else none

-- PUSHTRAP: a frame of the handler, the link to the enclosing frame, env and extra_args.
unfoldable pub push_trap : Machine → Outcome
unfolding offset
push_trap s = do
  handler ← offset s.pc (s.prog s.pc)
  let frame : List Value = code handler ∷ link s.trapsp ∷ s.env ∷ val_count s.extra_args ∷ s.stack
  next (record s { pc = s.pc + 1; stack = frame; trapsp = length frame })

-- raise_exception: accu holds the exception. At the outermost frame of this call of the
-- interpreter, leave it; else restore from the frame that caml_trapsp points to.
unfoldable pub raise_exception : Runtime → Machine → Outcome
unfolding stack_from peek pop as_code as_link count_val
raise_exception r s =
    if leb s.trapsp r.initial_depth
    then (do
      outer ← stack_from r.initial_depth s.stack
      uncaught s.accu (record s { stack = outer }))
    else do
      frame ← stack_from s.trapsp s.stack
      let s' = record s { stack = frame }
      handler ← peek 0 s'
      pc' ← as_code handler
      enclosing ← peek 1 s'
      trapsp' ← as_link enclosing
      env' ← peek 2 s'
      extra ← peek 3 s'
      extra_args' ← count_val extra
      s'' ← pop 4 s'
      next (record s'' { pc = pc'; trapsp = trapsp'; env = env'; extra_args = extra_args' })

-- Setup_for_event and Restore_after_event.
unfoldable pub setup_for_event : Machine → Machine
setup_for_event s = record s {
  stack =
      s.accu ∷ word val_unit ∷ word val_unit ∷ code s.pc ∷ s.env ∷ val_count s.extra_args ∷ s.stack;
}

unfoldable pub restore_after_event : Machine → Outcome
unfolding peek pop as_code count_val
restore_after_event s = do
  accu' ← peek 0 s
  ret ← peek 3 s
  pc' ← as_code ret
  env' ← peek 4 s
  extra ← peek 5 s
  extra_args' ← count_val extra
  s' ← pop 6 s
  next (record s' { accu = accu'; pc = pc'; env = env'; extra_args = extra_args' })

-- What the interpreter does with an exception that C code raises: the longjmp lands at
-- raise_exception with the bucket in accu.
abbrev pub after_effect : Effect → Machine → Machine
after_effect e s = record s { heap = e.heap; something_to_do = e.pending }

unfoldable pub raised : Runtime → Effect → Machine → Outcome
unfolding raise_exception
raised r e s = raise_exception r (record (after_effect e s) { accu = e.value })

-- process_signal.
unfoldable pub process_signal : Runtime → Machine → Outcome
unfolding setup_for_event restore_after_event raised
process_signal r s =
    let s' = setup_for_event (record s { something_to_do = false }) in
    elim (r.event s'.heap) [
      | returns e ↦ restore_after_event (after_effect e s')
      | raises e ↦ raised r e s'
    ]

-- CHECK_SIGNALS, which check_stacks falls through to. The accu is restored.
unfoldable pub check_signals : Runtime → Machine → Outcome
unfolding process_signal
check_signals r s = if s.something_to_do then process_signal r s else next s

-- caml_raise_constant_r: the bucket is a block of the exception alone, which is a field of the globals.
unfoldable pub raise_constant : ℕ → Runtime → Machine → Outcome
unfolding field alloc raise_exception
raise_constant n r s = do
  exn ← field s.heap s.global_data n
  let (bucket, heap') = alloc 0 (exn ∷ []) s.heap
  raise_exception r (record s { accu = bucket; heap = heap' })

-- Field Stack_overflow of the globals, byterun/fail.h.
abbrev pub stack_overflow_exn : ℕ
stack_overflow_exn = 8

-- The loop of caml_realloc_stack_r: the size is doubled until the `needed` words fit, and none where
-- it has come to the limit. The fuel is one more than the words up to the limit.
unfoldable pub realloc_size : ℕ → (limit needed size : ℕ) → Option ℕ
realloc_size zero limit needed size = none
realloc_size (suc fuel) limit needed size =
    let larger = realloc_size fuel limit needed (2 * size) in
    if leb limit size then none else if ltb (2 * size) needed then larger else some (2 * size)

-- caml_realloc_stack_r, where `on` goes on with the larger stack.
unfoldable pub realloc_stack : Runtime → ℕ → (Machine → Outcome) → Machine → Outcome
unfolding realloc_size raise_constant raise_exception
realloc_stack r required on s =
    let limit = r.max_stack_size in
    let size' =
      realloc_size (suc (limit - s.stack_size)) limit (length s.stack + required) s.stack_size in
    elim size' [
      | none ↦ raise_constant stack_overflow_exn r s
      | some size ↦
          if r.memory size
          then on (record s { stack_size = size })
          else raise_exception r (record s { accu = r.out_of_memory_bucket })
    ]

-- check_stacks.
unfoldable pub check_stacks : Runtime → Machine → Outcome
unfolding realloc_stack check_signals
check_stacks r s =
    if ltb (s.stack_size - length s.stack) r.stack_threshold
    then realloc_stack r r.stack_threshold (check_signals r) s
    else check_signals r s

-- POPTRAP: a pending signal is handled first, with this instruction to be run again.
unfoldable pub pop_trap : Runtime → Machine → Outcome
unfolding process_signal offset peek as_link pop
pop_trap r s =
    if s.something_to_do
    then (do pc' ← offset s.pc (negsuc 0); process_signal r (record s { pc = pc' }))
    else do
      enclosing ← peek 1 s
      trapsp' ← as_link enclosing
      s' ← pop 4 s
      next (record s' { trapsp = trapsp' })
