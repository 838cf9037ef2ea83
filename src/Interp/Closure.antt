-- ===== src/Interp/Closure.antt =====
-- Closures and global variables: CLOSURE to SETGLOBAL of byterun/interp.c.
use ocaml.Common.{
  ℕ, zero, suc, ◌+◌, ◌*◌, Option, some, none, List, [], ◌∷◌, ◌++◌, ltb, if◌then◌else◌, length,
}
use ocaml.Common.Int.{ℤ}
use ocaml.Interp.Word.{val_unit}
use ocaml.Interp.Machine.{
  Value, word, ptr, code, link, atom, Machine, Outcome, next, ◌>>=◌, offset, count, split, push,
  field, set_field, alloc, closure_tag, infix_tag, make_header,
}

-- `if (nvars > 0) *--sp = accu`.
abbrev push_captured : ℕ → Machine → Machine
push_captured nvars s = if ltb 0 nvars then push s.accu s else s

-- CLOSURE.
unfoldable pub closure : Machine → Outcome
unfolding count split offset alloc
closure s = do
  nvars ← count (s.prog s.pc)
  (vars, below) ← split nvars (push_captured nvars s).stack
  target ← offset (s.pc + 1) (s.prog (s.pc + 1))
  let (block, heap') = alloc closure_tag (code target ∷ vars) s.heap
  next (record s { pc = s.pc + 2; stack = below; accu = block; heap = heap' })

-- The inner closures i, ..., i + n - 1 of a CLOSUREREC at `base`: an infix header and a code
-- pointer each.
unfoldable pub inner_closures : (ℕ → ℤ) → ℕ → ℕ → ℕ → Option (List Value)
unfolding offset make_header
inner_closures prog base i zero = some []
inner_closures prog base i (suc n) =
    let rest = inner_closures prog base (suc i) n in
    elim (offset base (prog (base + i))) [
      | none ↦ none
      | some target ↦ elim rest [
        | none ↦ none
        | some xs ↦ some (word (make_header (i * 2) infix_tag) ∷ code target ∷ xs)
      ]
    ]

-- The loop that pushes the inner closures i, ..., i + n - 1 of a block: the pointer is to the field
-- behind the infix header.
unfoldable pub push_closures : ℕ → ℕ → ℕ → List Value → List Value
push_closures block i zero stack = stack
push_closures block i (suc n) stack = push_closures block (suc i) n (ptr block (2 * i) ∷ stack)

-- CLOSUREREC.
unfoldable pub closurerec : Machine → Outcome
unfolding count split offset inner_closures push_closures alloc
closurerec s = do
  nfuncs ← count (s.prog s.pc)
  nvars ← count (s.prog (s.pc + 1))
  others ← offset nfuncs (ℤ.negsuc 0)
  let base = s.pc + 2
  (vars, below) ← split nvars (push_captured nvars s).stack
  first ← offset base (s.prog base)
  inner ← inner_closures s.prog base 1 others
  let (closure', heap') = alloc closure_tag (code first ∷ (inner ++ vars)) s.heap
  next (record s {
    pc = base + nfuncs;
    stack = push_closures (length s.heap) 1 others (closure' ∷ below);
    accu = closure';
    heap = heap';
  })

-- `env + n * sizeof(value)`, a closure of the same block.
unfoldable pub closure_at : Value → ℤ → Option Value
unfolding offset
closure_at (word w) n = none
closure_at (ptr b i) n = elim (offset i n) [ none ↦ none | some j ↦ some (ptr b j) ]
closure_at (code p) n = none
closure_at (link p) n = none
closure_at (atom t) n = none

-- OFFSETCLOSURE, and OFFSETCLOSUREM2, 0 and 2.
unfoldable pub offset_closure : ℤ → Machine → Outcome
unfolding closure_at
offset_closure n s = do v ← closure_at s.env n; next (record s { accu = v })

unfoldable pub offset_closure_at : Machine → Outcome
unfolding closure_at
offset_closure_at s = do
  v ← closure_at s.env (s.prog s.pc)
  next (record s { pc = s.pc + 1; accu = v })

-- PUSHOFFSETCLOSURE and its kin fall through.
unfoldable pub push_offset_closure : ℤ → Machine → Outcome
unfolding offset_closure
push_offset_closure n s = offset_closure n (push s.accu s)

unfoldable pub push_offset_closure_at : Machine → Outcome
unfolding offset_closure_at
push_offset_closure_at s = offset_closure_at (push s.accu s)

-- GETGLOBAL and PUSHGETGLOBAL.
unfoldable pub getglobal : Machine → Outcome
unfolding count field
getglobal s = do
  n ← count (s.prog s.pc)
  v ← field s.heap s.global_data n
  next (record s { pc = s.pc + 1; accu = v })

unfoldable pub push_getglobal : Machine → Outcome
unfolding getglobal
push_getglobal s = getglobal (push s.accu s)

-- GETGLOBALFIELD and PUSHGETGLOBALFIELD.
unfoldable pub getglobalfield : Machine → Outcome
unfolding count field
getglobalfield s = do
  n ← count (s.prog s.pc)
  v ← field s.heap s.global_data n
  i ← count (s.prog (s.pc + 1))
  x ← field s.heap v i
  next (record s { pc = s.pc + 2; accu = x })

unfoldable pub push_getglobalfield : Machine → Outcome
unfolding getglobalfield
push_getglobalfield s = getglobalfield (push s.accu s)

-- SETGLOBAL: caml_modify_r is the write, and what it tells the collector is not modelled.
unfoldable pub setglobal : Machine → Outcome
unfolding count set_field
setglobal s = do
  n ← count (s.prog s.pc)
  heap' ← set_field s.heap s.global_data n s.accu
  next (record s { pc = s.pc + 1; accu = word val_unit; heap = heap' })
