-- ===== src/Interp/Step.antt =====
-- The dispatch of caml_interprete_r in byterun/interp.c and its loop. EVENT and BREAK, which are the
-- debugger's, are faults here.
use ocaml.Common.{ℕ, zero, suc, ◌+◌}
use ocaml.Common.Int.{pos, negsuc}
use ocaml.Interp.Word.{val_long}
use ocaml.Interp.Machine.{
  word, atom, Machine, Outcome, next, stop, uncaught, fault, ◌>>=◌, count, push, Runtime,
}
use ocaml.Interp.Opcode.{Opcode, decode}
use ocaml.Interp.Stack
use ocaml.Interp.Control
use ocaml.Interp.Apply
use ocaml.Interp.Closure
use ocaml.Interp.Block
use ocaml.Interp.Branch
use ocaml.Interp.Arith
use ocaml.Interp.Object
use ocaml.Interp.Primitive

-- One instruction, with pc already behind its opcode.
unfoldable pub exec : Runtime → Opcode → Machine → Outcome
exec r Opcode.acc0 s = Stack.acc 0 s
exec r Opcode.acc1 s = Stack.acc 1 s
exec r Opcode.acc2 s = Stack.acc 2 s
exec r Opcode.acc3 s = Stack.acc 3 s
exec r Opcode.acc4 s = Stack.acc 4 s
exec r Opcode.acc5 s = Stack.acc 5 s
exec r Opcode.acc6 s = Stack.acc 6 s
exec r Opcode.acc7 s = Stack.acc 7 s
exec r Opcode.acc s = Stack.acc_at s
exec r Opcode.push s = next (push s.accu s)
exec r Opcode.pushacc0 s = next (push s.accu s)
exec r Opcode.pushacc1 s = Stack.push_acc 1 s
exec r Opcode.pushacc2 s = Stack.push_acc 2 s
exec r Opcode.pushacc3 s = Stack.push_acc 3 s
exec r Opcode.pushacc4 s = Stack.push_acc 4 s
exec r Opcode.pushacc5 s = Stack.push_acc 5 s
exec r Opcode.pushacc6 s = Stack.push_acc 6 s
exec r Opcode.pushacc7 s = Stack.push_acc 7 s
exec r Opcode.pushacc s = Stack.push_acc_at s
exec r Opcode.pop s = Stack.pop_at s
exec r Opcode.assign s = Stack.assign s
exec r Opcode.envacc1 s = Stack.envacc 1 s
exec r Opcode.envacc2 s = Stack.envacc 2 s
exec r Opcode.envacc3 s = Stack.envacc 3 s
exec r Opcode.envacc4 s = Stack.envacc 4 s
exec r Opcode.envacc s = Stack.envacc_at s
exec r Opcode.pushenvacc1 s = Stack.push_envacc 1 s
exec r Opcode.pushenvacc2 s = Stack.push_envacc 2 s
exec r Opcode.pushenvacc3 s = Stack.push_envacc 3 s
exec r Opcode.pushenvacc4 s = Stack.push_envacc 4 s
exec r Opcode.pushenvacc s = Stack.push_envacc_at s
exec r Opcode.push_retaddr s = Apply.push_retaddr s
exec r Opcode.apply s = Apply.apply_at r s
exec r Opcode.apply1 s = Apply.apply1 r s
exec r Opcode.apply2 s = Apply.apply2 r s
exec r Opcode.apply3 s = Apply.apply3 r s
exec r Opcode.appterm s = Apply.appterm_at r s
exec r Opcode.appterm1 s = Apply.appterm1 r s
exec r Opcode.appterm2 s = Apply.appterm2 r s
exec r Opcode.appterm3 s = Apply.appterm3 r s
exec r Opcode.return s = Apply.return_at s
exec r Opcode.restart s = Apply.restart s
exec r Opcode.grab s = Apply.grab s
exec r Opcode.closure s = Closure.closure s
exec r Opcode.closurerec s = Closure.closurerec s
exec r Opcode.offsetclosurem2 s = Closure.offset_closure (negsuc 1) s
exec r Opcode.offsetclosure0 s = Closure.offset_closure (pos 0) s
exec r Opcode.offsetclosure2 s = Closure.offset_closure (pos 2) s
exec r Opcode.offsetclosure s = Closure.offset_closure_at s
exec r Opcode.pushoffsetclosurem2 s = Closure.push_offset_closure (negsuc 1) s
exec r Opcode.pushoffsetclosure0 s = Closure.push_offset_closure (pos 0) s
exec r Opcode.pushoffsetclosure2 s = Closure.push_offset_closure (pos 2) s
exec r Opcode.pushoffsetclosure s = Closure.push_offset_closure_at s
exec r Opcode.getglobal s = Closure.getglobal s
exec r Opcode.pushgetglobal s = Closure.push_getglobal s
exec r Opcode.getglobalfield s = Closure.getglobalfield s
exec r Opcode.pushgetglobalfield s = Closure.push_getglobalfield s
exec r Opcode.setglobal s = Closure.setglobal s
exec r Opcode.atom0 s = Block.atom0 s
exec r Opcode.atom s = Block.atom_at s
exec r Opcode.pushatom0 s = Block.push_atom0 s
exec r Opcode.pushatom s = Block.push_atom_at s
exec r Opcode.makeblock s = Block.makeblock s
exec r Opcode.makeblock1 s = Block.makeblock1 s
exec r Opcode.makeblock2 s = Block.makeblock2 s
exec r Opcode.makeblock3 s = Block.makeblock3 s
exec r Opcode.makefloatblock s = Block.makefloatblock s
exec r Opcode.getfield0 s = Block.getfield 0 s
exec r Opcode.getfield1 s = Block.getfield 1 s
exec r Opcode.getfield2 s = Block.getfield 2 s
exec r Opcode.getfield3 s = Block.getfield 3 s
exec r Opcode.getfield s = Block.getfield_at s
exec r Opcode.getfloatfield s = Block.getfloatfield s
exec r Opcode.setfield0 s = Block.setfield 0 s
exec r Opcode.setfield1 s = Block.setfield 1 s
exec r Opcode.setfield2 s = Block.setfield 2 s
exec r Opcode.setfield3 s = Block.setfield 3 s
exec r Opcode.setfield s = Block.setfield_at s
exec r Opcode.setfloatfield s = Block.setfloatfield s
exec r Opcode.vectlength s = Block.vectlength s
exec r Opcode.getvectitem s = Block.getvectitem s
exec r Opcode.setvectitem s = Block.setvectitem s
exec r Opcode.getstringchar s = Block.getstringchar s
exec r Opcode.setstringchar s = Block.setstringchar s
exec r Opcode.branch s = Branch.branch s
exec r Opcode.branchif s = Branch.branchif s
exec r Opcode.branchifnot s = Branch.branchifnot s
exec r Opcode.switch s = Branch.switch s
exec r Opcode.boolnot s = Branch.boolnot s
exec r Opcode.pushtrap s = Control.push_trap s
exec r Opcode.poptrap s = Control.pop_trap r s
exec r Opcode.raise s = Control.raise_exception r s
exec r Opcode.check_signals s = Control.check_signals r s
exec r Opcode.c_call1 s = Primitive.c_call1 r s
exec r Opcode.c_call2 s = Primitive.c_call r 1 s
exec r Opcode.c_call3 s = Primitive.c_call r 2 s
exec r Opcode.c_call4 s = Primitive.c_call r 3 s
exec r Opcode.c_call5 s = Primitive.c_call r 4 s
exec r Opcode.c_calln s = Primitive.c_calln r s
exec r Opcode.const0 s = Arith.const 0 s
exec r Opcode.const1 s = Arith.const 1 s
exec r Opcode.const2 s = Arith.const 2 s
exec r Opcode.const3 s = Arith.const 3 s
exec r Opcode.constint s = Arith.constint s
exec r Opcode.pushconst0 s = Arith.push_const 0 s
exec r Opcode.pushconst1 s = Arith.push_const 1 s
exec r Opcode.pushconst2 s = Arith.push_const 2 s
exec r Opcode.pushconst3 s = Arith.push_const 3 s
exec r Opcode.pushconstint s = Arith.push_constint s
exec r Opcode.negint s = Arith.negint s
exec r Opcode.addint s = Arith.addint s
exec r Opcode.subint s = Arith.subint s
exec r Opcode.mulint s = Arith.mulint s
exec r Opcode.divint s = Arith.divint r s
exec r Opcode.modint s = Arith.modint r s
exec r Opcode.andint s = Arith.andint s
exec r Opcode.orint s = Arith.orint s
exec r Opcode.xorint s = Arith.xorint s
exec r Opcode.lslint s = Arith.lslint s
exec r Opcode.lsrint s = Arith.lsrint s
exec r Opcode.asrint s = Arith.asrint s
exec r Opcode.eq s = Arith.eq s
exec r Opcode.neq s = Arith.neq s
exec r Opcode.ltint s = Arith.ltint s
exec r Opcode.leint s = Arith.leint s
exec r Opcode.gtint s = Arith.gtint s
exec r Opcode.geint s = Arith.geint s
exec r Opcode.offsetint s = Arith.offsetint s
exec r Opcode.offsetref s = Arith.offsetref s
exec r Opcode.isint s = Arith.isint s
exec r Opcode.getmethod s = Object.getmethod s
exec r Opcode.beq s = Branch.beq s
exec r Opcode.bneq s = Branch.bneq s
exec r Opcode.bltint s = Branch.bltint s
exec r Opcode.bleint s = Branch.bleint s
exec r Opcode.bgtint s = Branch.bgtint s
exec r Opcode.bgeint s = Branch.bgeint s
exec r Opcode.ultint s = Arith.ultint s
exec r Opcode.ugeint s = Arith.ugeint s
exec r Opcode.bultint s = Branch.bultint s
exec r Opcode.bugeint s = Branch.bugeint s
exec r Opcode.getpubmet s = Object.getpubmet s
exec r Opcode.getdynmet s = Object.getdynmet s
exec r Opcode.stop s = stop s.accu s
exec r Opcode.event s = fault
exec r Opcode.break s = fault

-- `curr_instr = *pc++` and the dispatch.
unfoldable pub step : Runtime → Machine → Outcome
unfolding exec count decode
step r s = do
  number ← count (s.prog s.pc)
  op ← decode number
  exec r op (record s { pc = s.pc + 1 })

-- The loop, with fuel: `next` means that the fuel ran out.
unfoldable pub run : Runtime → ℕ → Machine → Outcome
unfolding step
run r zero s = next s
run r (suc fuel) s = elim (step r s) [
  | next s' ↦ run r fuel s'
  | stop v s' ↦ stop v s'
  | uncaught v s' ↦ uncaught v s'
  | fault ↦ fault
]

-- The registers at the start of caml_interprete_r: env is Atom(0) and accu Val_int(0).
unfoldable pub start : Machine → ℕ → Machine
start s entry = record s {
  pc = entry;
  extra_args = 0;
  env = atom 0;
  accu = word (val_long (pos 0));
}
