-- ===== src/Interp/Calls.antt =====
-- Calls and returns of byterun/interp.c: APPLY1 to APPLY3 and APPTERM against RETURN.
use ocaml.Common.{ℕ, suc, ◌+◌, ◌-◌, ◌≤◌, ◌≡◌, refl, some, List, [], ◌∷◌, ◌++◌, arith, length, false}
use ocaml.Common.Int.{pos}
use ocaml.Interp.Machine.{Value, code, Machine, next, code_val, val_count, Runtime}
use ocaml.Interp.Opcode.{Opcode}
use ocaml.Interp.Step.{exec}
use ocaml.Interp.Apply.{apply1, apply2, apply3, appterm_at, appterm1, appterm2, appterm3}
use ocaml.Interp.Facts.{split-append, slide-append}

-- The instruction that calls with the arguments of a list.
pub data Passes : Opcode → List Value → Type 0 where
  one : {a : Value} → Passes Opcode.apply1 (a ∷ [])
  two : {a b : Value} → Passes Opcode.apply2 (a ∷ b ∷ [])
  three : {a b c : Value} → Passes Opcode.apply3 (a ∷ b ∷ c ∷ [])

-- A machine at a call: the arguments on the stack and no signal pending.
abbrev pub calling : Machine → List Value → List Value → Machine
calling s args rest = record s { stack = args ++ rest; something_to_do = false }

-- The frame that a call pushes under the arguments.
abbrev pub call_frame : Machine → List Value → List Value
call_frame s rest = code s.pc ∷ s.env ∷ val_count s.extra_args ∷ rest

-- The stack of n words leaves the threshold free.
abbrev pub HasRoom : Runtime → Machine → ℕ → Type 0
HasRoom r s n = r.stack_threshold ≤ s.stack_size - n

-- The machine at the first instruction of the called code.
abbrev pub entered : Machine → ℕ → List Value → List Value → Machine
entered s p args rest = record s {
  pc = p;
  stack = args ++ call_frame s rest;
  env = s.accu;
  extra_args = length args - 1;
  something_to_do = false;
}

-- The instruction of a tail call with the arguments of a list.
pub data TailPasses : Opcode → List Value → Type 0 where
  one : {a : Value} → TailPasses Opcode.appterm1 (a ∷ [])
  two : {a b : Value} → TailPasses Opcode.appterm2 (a ∷ b ∷ [])
  three : {a b c : Value} → TailPasses Opcode.appterm3 (a ∷ b ∷ c ∷ [])

-- A tail call: the arguments lie over the rest of the caller's frame.
abbrev pub tail_calling : Machine → (args locals below : List Value) → Machine
tail_calling s args locals below = record s {
  stack = args ++ (locals ++ below);
  something_to_do = false;
}

-- The machine at the first instruction of the code, with the caller's frame replaced.
abbrev pub replaced : Machine → ℕ → (args below : List Value) → Machine
replaced s p args below = record s {
  pc = p;
  stack = args ++ below;
  env = s.accu;
  extra_args = s.extra_args + length args - 1;
  something_to_do = false;
}

-- APPTERM with any positive number of arguments, within a frame of the size that its operand says:
-- the arguments lie where the rest of the frame lay, over what was below it, the argument count grows
-- by their number less one, and the code of the closure in accu starts. No signal is pending, and the
-- stack has room.
pub appterm-replaces :
    (r : Runtime) (s : Machine) (a : Value) (args locals below : List Value) (p : ℕ)
    → code_val s.heap s.accu ≡ some p
    → s.prog s.pc ≡ pos (suc (length args))
    → s.prog (s.pc + 1) ≡ pos (suc (length args) + length locals)
    → HasRoom r s (length ((a ∷ args) ++ below))
    → exec r Opcode.appterm (tail_calling s (a ∷ args) locals below)
      ≡ next (replaced s p (a ∷ args) below)
unfolding exec appterm_at
appterm-replaces r s a args locals below p closure nargs slots room =
    let (front, e, l) = slide-append (length (a ∷ args)) (a ∷ args) locals below refl in
    let slots_less : suc (length args) + length locals - suc (length args) ≡ length locals =
      omega arith in
    ground (
      arith,
      nargs,
      slots,
      slots_less,
      e,
      split-append front ((a ∷ args) ++ below),
      l,
      closure,
      room,
    )

-- APPTERM1, APPTERM2 and APPTERM3 have the same effect as APPTERM for their number of arguments: they
-- replace the frame of the caller by the arguments and start the code of the closure in accu. No signal
-- is pending, and the stack has room.
appterm_op-replaces :
    (r : Runtime) (s : Machine) (locals below : List Value) {args : List Value} {op : Opcode}
    (p : ℕ)
    → TailPasses op args
    → code_val s.heap s.accu ≡ some p
    → s.prog s.pc ≡ pos (length (args ++ locals))
    → HasRoom r s (length (args ++ below))
    → exec r op (tail_calling s args locals below) ≡ next (replaced s p args below)
unfolding exec appterm1 appterm2 appterm3
appterm_op-replaces r s locals below p (one {a}) h slots room =
    ground (arith, h, room, split-append (a ∷ locals) below)
appterm_op-replaces r s locals below p (two {a} {b}) h slots room =
    ground (arith, h, room, split-append (a ∷ b ∷ locals) below)
appterm_op-replaces r s locals below p (three {a} {b} {c}) h slots room =
    ground (arith, h, room, split-append (a ∷ b ∷ c ∷ locals) below)
