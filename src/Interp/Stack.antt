-- ===== src/Interp/Stack.antt =====
-- The instructions on the stack and on the environment: lines 315 to 411 of byterun/interp.c.
use ocaml.Common.{ℕ, ◌+◌, ltb, if◌then◌else◌, length, set}
use ocaml.Interp.Word.{val_unit}
use ocaml.Interp.Machine.{word, Machine, Outcome, next, fault, ◌>>=◌, count, peek, push, pop, field}

-- ACC0 to ACC7: accu = sp[n].
unfoldable pub acc : ℕ → Machine → Outcome
unfolding peek
acc n s = do v ← peek n s; next (record s { accu = v })

-- PUSHACC1 to PUSHACC7: *--sp = accu; accu = sp[n].
unfoldable pub push_acc : ℕ → Machine → Outcome
unfolding peek
push_acc n s = do let s' = push s.accu s; v ← peek n s'; next (record s' { accu = v })

-- ACC: accu = sp[*pc++].
unfoldable pub acc_at : Machine → Outcome
unfolding peek count
acc_at s = do n ← count (s.prog s.pc); v ← peek n s; next (record s { pc = s.pc + 1; accu = v })

-- PUSHACC falls through to ACC.
unfoldable pub push_acc_at : Machine → Outcome
unfolding acc_at
push_acc_at s = acc_at (push s.accu s)

-- POP: sp += *pc++.
unfoldable pub pop_at : Machine → Outcome
unfolding pop count
pop_at s = do n ← count (s.prog s.pc); s' ← pop n s; next (record s' { pc = s.pc + 1 })

-- ASSIGN: sp[*pc++] = accu; accu = Val_unit.
unfoldable pub assign : Machine → Outcome
unfolding count
assign s = do
  n ← count (s.prog s.pc)
  if ltb n (length s.stack)
      then next (record s { pc = s.pc + 1; stack = set s.stack n s.accu; accu = word val_unit })
      else fault

-- ENVACC1 to ENVACC4: accu = Field(env, n).
unfoldable pub envacc : ℕ → Machine → Outcome
unfolding field
envacc n s = do v ← field s.heap s.env n; next (record s { accu = v })

-- PUSHENVACC1 to PUSHENVACC4.
unfoldable pub push_envacc : ℕ → Machine → Outcome
unfolding field
push_envacc n s = do
  let s' = push s.accu s
  v ← field s'.heap s'.env n
  next (record s' { accu = v })

-- ENVACC: accu = Field(env, *pc++).
unfoldable pub envacc_at : Machine → Outcome
unfolding field count
envacc_at s = do
  n ← count (s.prog s.pc)
  v ← field s.heap s.env n
  next (record s { pc = s.pc + 1; accu = v })

-- PUSHENVACC falls through to ENVACC.
unfoldable pub push_envacc_at : Machine → Outcome
unfolding envacc_at
push_envacc_at s = envacc_at (push s.accu s)
