-- ===== src/Interp/Opcode.antt =====
-- The instruction set, byterun/instruct.h, and its numbering.
use ocaml.Common.{ℕ, Option, List, [], ◌∷◌, get_elem?}

-- The constructors in the order of the C enumeration.
pub data Opcode : Type 0 where
  acc0 acc1 acc2 acc3 acc4 acc5 acc6 acc7 acc push pushacc0 pushacc1 pushacc2 pushacc3 : Opcode
  pushacc4 pushacc5 pushacc6 pushacc7 pushacc pop assign envacc1 envacc2 envacc3 envacc4 : Opcode
  envacc pushenvacc1 pushenvacc2 pushenvacc3 pushenvacc4 pushenvacc push_retaddr apply apply1 :
      Opcode
  apply2 apply3 appterm appterm1 appterm2 appterm3 return restart grab closure closurerec : Opcode
  offsetclosurem2 offsetclosure0 offsetclosure2 offsetclosure pushoffsetclosurem2 : Opcode
  pushoffsetclosure0 pushoffsetclosure2 pushoffsetclosure getglobal pushgetglobal : Opcode
  getglobalfield pushgetglobalfield setglobal atom0 atom pushatom0 pushatom makeblock : Opcode
  makeblock1 makeblock2 makeblock3 makefloatblock getfield0 getfield1 getfield2 getfield3 : Opcode
  getfield getfloatfield setfield0 setfield1 setfield2 setfield3 setfield setfloatfield : Opcode
  vectlength getvectitem setvectitem getstringchar setstringchar branch branchif branchifnot :
      Opcode
  switch boolnot pushtrap poptrap raise check_signals c_call1 c_call2 c_call3 c_call4 c_call5 :
      Opcode
  c_calln const0 const1 const2 const3 constint pushconst0 pushconst1 pushconst2 pushconst3 : Opcode
  pushconstint negint addint subint mulint divint modint andint orint xorint lslint lsrint : Opcode
  asrint eq neq ltint leint gtint geint offsetint offsetref isint getmethod beq bneq bltint : Opcode
  bleint bgtint bgeint ultint ugeint bultint bugeint getpubmet getdynmet stop event break : Opcode

abbrev pub opcodes : List Opcode
opcodes =
    acc0 ∷ acc1 ∷ acc2 ∷ acc3 ∷ acc4 ∷ acc5 ∷ acc6 ∷ acc7 ∷ acc ∷ push ∷ pushacc0 ∷ pushacc1
    ∷ pushacc2 ∷ pushacc3 ∷ pushacc4 ∷ pushacc5 ∷ pushacc6 ∷ pushacc7 ∷ pushacc ∷ pop ∷ assign
    ∷ envacc1 ∷ envacc2 ∷ envacc3 ∷ envacc4 ∷ envacc ∷ pushenvacc1 ∷ pushenvacc2 ∷ pushenvacc3
    ∷ pushenvacc4 ∷ pushenvacc ∷ push_retaddr ∷ apply ∷ apply1 ∷ apply2 ∷ apply3 ∷ appterm
    ∷ appterm1 ∷ appterm2 ∷ appterm3 ∷ return ∷ restart ∷ grab ∷ closure ∷ closurerec
    ∷ offsetclosurem2 ∷ offsetclosure0 ∷ offsetclosure2 ∷ offsetclosure ∷ pushoffsetclosurem2
    ∷ pushoffsetclosure0 ∷ pushoffsetclosure2 ∷ pushoffsetclosure ∷ getglobal ∷ pushgetglobal
    ∷ getglobalfield ∷ pushgetglobalfield ∷ setglobal ∷ atom0 ∷ atom ∷ pushatom0 ∷ pushatom
    ∷ makeblock ∷ makeblock1 ∷ makeblock2 ∷ makeblock3 ∷ makefloatblock ∷ getfield0 ∷ getfield1
    ∷ getfield2 ∷ getfield3 ∷ getfield ∷ getfloatfield ∷ setfield0 ∷ setfield1 ∷ setfield2
    ∷ setfield3 ∷ setfield ∷ setfloatfield ∷ vectlength ∷ getvectitem ∷ setvectitem ∷ getstringchar
    ∷ setstringchar ∷ branch ∷ branchif ∷ branchifnot ∷ switch ∷ boolnot ∷ pushtrap ∷ poptrap
    ∷ raise ∷ check_signals ∷ c_call1 ∷ c_call2 ∷ c_call3 ∷ c_call4 ∷ c_call5 ∷ c_calln ∷ const0
    ∷ const1 ∷ const2 ∷ const3 ∷ constint ∷ pushconst0 ∷ pushconst1 ∷ pushconst2 ∷ pushconst3
    ∷ pushconstint ∷ negint ∷ addint ∷ subint ∷ mulint ∷ divint ∷ modint ∷ andint ∷ orint ∷ xorint
    ∷ lslint ∷ lsrint ∷ asrint ∷ eq ∷ neq ∷ ltint ∷ leint ∷ gtint ∷ geint ∷ offsetint ∷ offsetref
    ∷ isint ∷ getmethod ∷ beq ∷ bneq ∷ bltint ∷ bleint ∷ bgtint ∷ bgeint ∷ ultint ∷ ugeint ∷ bultint
    ∷ bugeint ∷ getpubmet ∷ getdynmet ∷ stop ∷ event ∷ break ∷ []

-- The instruction of a number, none past the last: "bad opcode".
unfoldable pub decode : ℕ → Option Opcode
decode n = get_elem? opcodes n
