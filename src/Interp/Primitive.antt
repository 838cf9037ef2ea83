-- ===== src/Interp/Primitive.antt =====
-- Calls of C primitives: C_CALL1 to C_CALLN of byterun/interp.c. The primitives are parameters of
-- the model.
use ocaml.Common.{ℕ, ◌+◌, Bool, not, Option, some, none, List, [], ◌∷◌, ◌==◌}
use ocaml.Common.Int.{ℤ, pos, negsuc}
use ocaml.Interp.Machine.{
  Value, Machine, Outcome, next, ◌>>=◌, count, split, peek, push, pop, returns, and_then, raises,
  Runtime,
}
use ocaml.Interp.Control.{after_effect, raised}

-- `*pc++` as a truth value.
abbrev is_nonzero : ℤ → Bool
is_nonzero (pos n) = not (n == 0)
is_nonzero (negsuc n) = Bool.true

-- Setup_for_c_call pushes env and Restore_after_c_call pops it.
unfoldable pub setup_for_c_call : Machine → Machine
setup_for_c_call s = push s.env s

unfoldable pub restore_after_c_call : Machine → Outcome
unfolding peek pop
restore_after_c_call s = do env' ← peek 0 s; s' ← pop 1 s; next (record s' { env = env' })

-- The call with the operands at pc, for the arguments that `args` reads from the stack below the
-- saved env; then `sp += dropped` and pc is past the operands.
unfoldable pub call : Runtime → (List Value → Option (List Value)) → ℕ → Machine → Outcome
unfolding setup_for_c_call restore_after_c_call count pop raised
call r args dropped s = do
  let s' = setup_for_c_call s
  let reentrant = is_nonzero (s.prog s.pc)
  n ← count (s.prog (s.pc + 1))
  actual ← args s.stack
  elim (r.primitive reentrant n actual s'.heap) [
    | returns e ↦
        and_then (restore_after_c_call (record (after_effect e s') { accu = e.value }))
          (λ t. pop dropped t >>= λ t'. next (record t' { pc = s.pc + 2 }))
    | raises e ↦ raised r e s'
  ]

-- The first words of the stack, where there are as many.
abbrev front : ℕ → List Value → Option (List Value)
front n stack = elim (split n stack) [ none ↦ none | some (xs, _) ↦ some xs ]

-- C_CALL1 to C_CALL5: accu and the words below it.
unfoldable pub c_call1 : Runtime → Machine → Outcome
unfolding call
c_call1 r s = call r (λ stack. some (s.accu ∷ [])) 0 s

unfoldable pub c_call : Runtime → ℕ → Machine → Outcome
unfolding call split
c_call r extra s =
    call r (λ stack. elim (front extra stack) [ none ↦ none | some xs ↦ some (s.accu ∷ xs) ]) extra
      s

-- C_CALLN: accu is pushed, and the primitive gets the address of the arguments and their number.
unfoldable pub c_calln : Runtime → Machine → Outcome
unfolding call split count
c_calln r s = do
  nargs ← count (s.prog s.pc)
  let s' = push s.accu (record s { pc = s.pc + 1 })
  call r (front nargs) nargs s'
