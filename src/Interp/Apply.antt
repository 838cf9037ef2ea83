-- ===== src/Interp/Apply.antt =====
-- Function application: PUSH_RETADDR to GRAB of byterun/interp.c.
use ocaml.Common.{
  ℕ, zero, suc, ◌+◌, ◌-◌, Option, some, none, List, [], ◌∷◌, ◌++◌, leb, ltb, if◌then◌else◌, length,
  get_elem?, set,
}
use ocaml.Common.Int.{negsuc}
use ocaml.Interp.Machine.{
  Value, code, Heap, Machine, Outcome, next, fault, ◌>>=◌, offset, count, as_code, split, peek, pop,
  field, wosize_val, alloc, code_val, val_count, count_val, closure_tag, Runtime,
}
use ocaml.Interp.Control.{check_stacks}

-- PUSH_RETADDR.
unfoldable pub push_retaddr : Machine → Outcome
unfolding offset
push_retaddr s = do
  ret ← offset s.pc (s.prog s.pc)
  next (record s { pc = s.pc + 1; stack = code ret ∷ s.env ∷ val_count s.extra_args ∷ s.stack })

-- Entering the closure in accu: pc = Code_val(accu); env = accu, and the checks.
unfoldable pub enter : Runtime → ℕ → Machine → Outcome
unfolding code_val check_stacks
enter r extra s = do
  pc' ← code_val s.heap s.accu
  check_stacks r (record s { pc = pc'; env = s.accu; extra_args = extra })

-- APPLY.
unfoldable pub apply_at : Runtime → Machine → Outcome
unfolding offset count enter
apply_at r s = do n ← count (s.prog s.pc); extra ← offset n (negsuc 0); enter r extra s

-- APPLY1, APPLY2 and APPLY3: the return frame goes under the arguments.
unfoldable pub apply1 : Runtime → Machine → Outcome
unfolding enter peek pop
apply1 r s = do
  arg1 ← peek 0 s
  s' ← pop 1 s
  let frame = code s.pc ∷ s.env ∷ val_count s.extra_args ∷ s'.stack
  enter r 0 (record s { stack = arg1 ∷ frame })

unfoldable pub apply2 : Runtime → Machine → Outcome
unfolding enter peek pop
apply2 r s = do
  arg1 ← peek 0 s
  arg2 ← peek 1 s
  s' ← pop 2 s
  let frame = code s.pc ∷ s.env ∷ val_count s.extra_args ∷ s'.stack
  enter r 1 (record s { stack = arg1 ∷ arg2 ∷ frame })

unfoldable pub apply3 : Runtime → Machine → Outcome
unfolding enter peek pop
apply3 r s = do
  arg1 ← peek 0 s
  arg2 ← peek 1 s
  arg3 ← peek 2 s
  s' ← pop 3 s
  let frame = code s.pc ∷ s.env ∷ val_count s.extra_args ∷ s'.stack
  enter r 2 (record s { stack = arg1 ∷ arg2 ∷ arg3 ∷ frame })

-- The loop of APPTERM, `for (i = nargs - 1; i >= 0; i--) newsp[i] = sp[i]`, where newsp is sp + by and
-- the first argument is i + 1: none where it leaves the stack.
unfoldable pub slide : ℕ → ℕ → List Value → Option (List Value)
slide zero by stack = some stack
slide (suc i) by stack = elim (get_elem? stack i) [
  | none ↦ none
  | some v ↦ if ltb (by + i) (length stack) then slide i by (set stack (by + i) v) else none
]

-- APPTERM: the nargs words at the bottom of the frame slide to its top, and the rest of the frame
-- of slotsize words is dropped.
unfoldable pub appterm_at : Runtime → Machine → Outcome
unfolding enter slide pop count offset
appterm_at r s = do
  nargs ← count (s.prog s.pc)
  slotsize ← count (s.prog (s.pc + 1))
  extra ← offset (s.extra_args + nargs) (negsuc 0)
  if leb nargs slotsize
      then (do
        slid ← slide nargs (slotsize - nargs) s.stack
        s' ← pop (slotsize - nargs) (record s { pc = s.pc + 1; stack = slid })
        enter r extra s')
      else fault

-- APPTERM1, APPTERM2 and APPTERM3: the arguments are read, sp = sp + *pc - n, and they are written
-- back.
unfoldable pub appterm1 : Runtime → Machine → Outcome
unfolding enter peek pop count offset
appterm1 r s = do
  arg1 ← peek 0 s
  slotsize ← count (s.prog s.pc)
  s' ← pop slotsize s
  if leb 1 slotsize then enter r s.extra_args (record s' { stack = arg1 ∷ s'.stack }) else fault

unfoldable pub appterm2 : Runtime → Machine → Outcome
unfolding enter peek pop count offset
appterm2 r s = do
  arg1 ← peek 0 s
  arg2 ← peek 1 s
  slotsize ← count (s.prog s.pc)
  s' ← pop slotsize s
  if leb 2 slotsize
      then enter r (s.extra_args + 1) (record s' { stack = arg1 ∷ arg2 ∷ s'.stack })
      else fault

unfoldable pub appterm3 : Runtime → Machine → Outcome
unfolding enter peek pop count offset
appterm3 r s = do
  arg1 ← peek 0 s
  arg2 ← peek 1 s
  arg3 ← peek 2 s
  slotsize ← count (s.prog s.pc)
  s' ← pop slotsize s
  if leb 3 slotsize
      then enter r (s.extra_args + 2) (record s' { stack = arg1 ∷ arg2 ∷ arg3 ∷ s'.stack })
      else fault

-- The return frame at the top of the stack: pc, env and extra_args.
unfoldable pub return_frame : Machine → Outcome
unfolding peek pop as_code count_val
return_frame s = do
  ret ← peek 0 s
  pc' ← as_code ret
  env' ← peek 1 s
  extra ← peek 2 s
  extra_args' ← count_val extra
  s' ← pop 3 s
  next (record s' { pc = pc'; env = env'; extra_args = extra_args' })

-- RETURN: with arguments left over the result is a closure to apply to them.
unfoldable pub return_at : Machine → Outcome
unfolding pop count code_val return_frame
return_at s = do
  n ← count (s.prog s.pc)
  s' ← pop n s
  elim s.extra_args [
    | suc extra ↦ (do
      pc' ← code_val s.heap s.accu
      next (record s' { pc = pc'; env = s.accu; extra_args = extra }))
    | zero ↦ return_frame s'
  ]

-- Field(v, i), ..., Field(v, i + n - 1).
unfoldable pub read_fields : Heap → Value → ℕ → ℕ → Option (List Value)
unfolding field
read_fields h v i zero = some []
read_fields h v i (suc n) =
    let rest = read_fields h v (suc i) n in
    elim (field h v i) [
      | none ↦ none
      | some x ↦ elim rest [ none ↦ none | some xs ↦ some (x ∷ xs) ]
    ]

-- RESTART: the arguments of a partial application come back on the stack.
unfoldable pub restart : Machine → Outcome
unfolding offset wosize_val read_fields field
restart s = do
  size ← wosize_val s.heap s.env
  num_args ← offset size (negsuc 1)
  args ← read_fields s.heap s.env 2 num_args
  env' ← field s.heap s.env 1
  next (record s { stack = args ++ s.stack; env = env'; extra_args = s.extra_args + num_args })

-- GRAB: with too few arguments, return the closure of a partial application, whose code is the
-- RESTART before this instruction.
unfoldable pub grab : Machine → Outcome
unfolding offset count split alloc return_frame
grab s = do
  required ← count (s.prog s.pc)
  if leb required s.extra_args
      then next (record s { pc = s.pc + 1; extra_args = s.extra_args - required })
      else (do
        (args, below) ← split (1 + s.extra_args) s.stack
        restart_pc ← offset (s.pc + 1) (negsuc 2)
        let (closure, heap') = alloc closure_tag (code restart_pc ∷ s.env ∷ args) s.heap
        return_frame (record s { stack = below; accu = closure; heap = heap'; pc = s.pc + 1 }))
