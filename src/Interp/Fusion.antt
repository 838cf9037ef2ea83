-- ===== src/Interp/Fusion.antt =====
-- The fused and the specialised instructions of byterun/interp.c against those that they stand for.
use ocaml.Common.{◌+◌, ◌≡◌, refl, arith}
use ocaml.Common.Int.{ℤ, pos, negsuc}
use ocaml.Interp.Machine.{Machine, and_then, Runtime}
use ocaml.Interp.Opcode.{Opcode}
use ocaml.Interp.Step.{exec}
use ocaml.Interp.Stack.{
  acc, push_acc, acc_at, push_acc_at, envacc, push_envacc, envacc_at, push_envacc_at,
}
use ocaml.Interp.Closure.{
  offset_closure, offset_closure_at, push_offset_closure, push_offset_closure_at, push_getglobal,
  push_getglobalfield,
}
use ocaml.Interp.Block.{
  atom0, push_atom0, atom_at, push_atom_at, getfield, getfield_at, setfield, setfield_at,
}
use ocaml.Interp.Arith.{const, push_const, constint, push_constint}

-- `Fused op base`: the instruction `op` is PUSH and `base` in one.
pub data Fused : Opcode → Opcode → Type 0 where
  acc1 : Fused Opcode.pushacc1 Opcode.acc1
  acc2 : Fused Opcode.pushacc2 Opcode.acc2
  acc3 : Fused Opcode.pushacc3 Opcode.acc3
  acc4 : Fused Opcode.pushacc4 Opcode.acc4
  acc5 : Fused Opcode.pushacc5 Opcode.acc5
  acc6 : Fused Opcode.pushacc6 Opcode.acc6
  acc7 : Fused Opcode.pushacc7 Opcode.acc7
  acc0 : Fused Opcode.pushacc0 Opcode.acc0
  accn : Fused Opcode.pushacc Opcode.acc
  envacc1 : Fused Opcode.pushenvacc1 Opcode.envacc1
  envacc2 : Fused Opcode.pushenvacc2 Opcode.envacc2
  envacc3 : Fused Opcode.pushenvacc3 Opcode.envacc3
  envacc4 : Fused Opcode.pushenvacc4 Opcode.envacc4
  envaccn : Fused Opcode.pushenvacc Opcode.envacc
  closurem2 : Fused Opcode.pushoffsetclosurem2 Opcode.offsetclosurem2
  closure0 : Fused Opcode.pushoffsetclosure0 Opcode.offsetclosure0
  closure2 : Fused Opcode.pushoffsetclosure2 Opcode.offsetclosure2
  closuren : Fused Opcode.pushoffsetclosure Opcode.offsetclosure
  global : Fused Opcode.pushgetglobal Opcode.getglobal
  globalfield : Fused Opcode.pushgetglobalfield Opcode.getglobalfield
  empty0 : Fused Opcode.pushatom0 Opcode.atom0
  emptyn : Fused Opcode.pushatom Opcode.atom
  const0 : Fused Opcode.pushconst0 Opcode.const0
  const1 : Fused Opcode.pushconst1 Opcode.const1
  const2 : Fused Opcode.pushconst2 Opcode.const2
  const3 : Fused Opcode.pushconst3 Opcode.const3
  constn : Fused Opcode.pushconstint Opcode.constint

-- Each fused instruction does what PUSH and then its second half do, faults included. (PUSHACC0 is
-- PUSH alone in the source: its second half reads back what was pushed.)
pub Fused-and_then :
    (r : Runtime) (s : Machine) {op base : Opcode}
    → Fused op base
    → exec r op s ≡ and_then (exec r Opcode.push s) (exec r base)
unfolding exec acc push_acc push_acc_at envacc push_envacc push_envacc_at push_offset_closure
    push_offset_closure_at push_getglobal push_getglobalfield atom0 push_atom0 push_atom_at const
    push_const push_constint
Fused-and_then r s acc1 = refl
Fused-and_then r s _ = refl

-- `Specialised op n general`: the instruction `op` is `general` with the operand `n`.
data Specialised : Opcode → ℤ → Opcode → Type 0 where
  acc0 : Specialised Opcode.acc0 (pos 0) Opcode.acc
  acc1 : Specialised Opcode.acc1 (pos 1) Opcode.acc
  acc2 : Specialised Opcode.acc2 (pos 2) Opcode.acc
  acc3 : Specialised Opcode.acc3 (pos 3) Opcode.acc
  acc4 : Specialised Opcode.acc4 (pos 4) Opcode.acc
  acc5 : Specialised Opcode.acc5 (pos 5) Opcode.acc
  acc6 : Specialised Opcode.acc6 (pos 6) Opcode.acc
  acc7 : Specialised Opcode.acc7 (pos 7) Opcode.acc
  envacc1 : Specialised Opcode.envacc1 (pos 1) Opcode.envacc
  envacc2 : Specialised Opcode.envacc2 (pos 2) Opcode.envacc
  envacc3 : Specialised Opcode.envacc3 (pos 3) Opcode.envacc
  envacc4 : Specialised Opcode.envacc4 (pos 4) Opcode.envacc
  closurem2 : Specialised Opcode.offsetclosurem2 (negsuc 1) Opcode.offsetclosure
  closure0 : Specialised Opcode.offsetclosure0 (pos 0) Opcode.offsetclosure
  closure2 : Specialised Opcode.offsetclosure2 (pos 2) Opcode.offsetclosure
  empty0 : Specialised Opcode.atom0 (pos 0) Opcode.atom
  const0 : Specialised Opcode.const0 (pos 0) Opcode.constint
  const1 : Specialised Opcode.const1 (pos 1) Opcode.constint
  const2 : Specialised Opcode.const2 (pos 2) Opcode.constint
  const3 : Specialised Opcode.const3 (pos 3) Opcode.constint
  getfield0 : Specialised Opcode.getfield0 (pos 0) Opcode.getfield
  getfield1 : Specialised Opcode.getfield1 (pos 1) Opcode.getfield
  getfield2 : Specialised Opcode.getfield2 (pos 2) Opcode.getfield
  getfield3 : Specialised Opcode.getfield3 (pos 3) Opcode.getfield
  setfield0 : Specialised Opcode.setfield0 (pos 0) Opcode.setfield
  setfield1 : Specialised Opcode.setfield1 (pos 1) Opcode.setfield
  setfield2 : Specialised Opcode.setfield2 (pos 2) Opcode.setfield
  setfield3 : Specialised Opcode.setfield3 (pos 3) Opcode.setfield

-- A general instruction whose operand is `n` does what the specialised instruction for `n` does with
-- pc past the operand, faults included.
Specialised-eq-general :
    (r : Runtime) (s : Machine) {op general : Opcode} {n : ℤ}
    → Specialised op n general
    → s.prog s.pc ≡ n
    → exec r general s ≡ exec r op (record s { pc = s.pc + 1 })
unfolding exec acc acc_at envacc envacc_at offset_closure offset_closure_at atom0 atom_at const
    constint getfield getfield_at setfield setfield_at
Specialised-eq-general r s acc0 e = ground arith
Specialised-eq-general r s _ e = ground arith
