-- ===== src/Handlers/Movsx.antt =====
-- The handlers of src/ins_movsx_op.cpp.
use libdft64_ect.Prelude.{not, List, [], ◌++◌, ◌==◌, if◌then◌else◌}
use libdft64_ect.Tag.{TagTraits}
use libdft64_ect.Ins.Reg.{Reg}
use libdft64_ect.Ins.Movsx.{
  movsx_r2r_opwb_u, movsx_r2r_opwb_l, movsx_r2r_opqw, movsx_r2r_oplw, movsx_r2r_opqb_u,
  movsx_r2r_oplb_u, movsx_r2r_opqb_l, movsx_r2r_oplb_l, movsx_m2r_opwb, movsx_m2r_opqw,
  movsx_m2r_oplw, movsx_m2r_opqb, movsx_m2r_oplb, movsx_r2r_opql, movsx_m2r_opql,
}
use libdft64_ect.Handlers.Pin.{Pin, Call, memory_write_size, r2r_call, m2r_call}
use libdft64_ect.Handlers.Xfer.{ins_xfer_op}

module _ (p : Pin) {o : TagTraits} where
  -- The two parts of `ins_movsx_op`.
  unfoldable pub movsx_r2r_by_class : Reg → Reg → List (Call o)
  movsx_r2r_by_class dst src =
      if p.is_gr16 dst
      then (if p.is_upper8 src
          then r2r_call movsx_r2r_opwb_u dst src
          else r2r_call movsx_r2r_opwb_l dst src)
      else if p.is_gr16 src
      then (if p.is_gr64 dst
          then r2r_call movsx_r2r_opqw dst src
          else if p.is_gr32 dst
          then r2r_call movsx_r2r_oplw dst src
          else [])
      else if p.is_upper8 src
      then (if p.is_gr64 dst
          then r2r_call movsx_r2r_opqb_u dst src
          else if p.is_gr32 dst
          then r2r_call movsx_r2r_oplb_u dst src
          else [])
      else if p.is_gr64 dst
      then r2r_call movsx_r2r_opqb_l dst src
      else if p.is_gr32 dst
      then r2r_call movsx_r2r_oplb_l dst src
      else []

  unfoldable pub movsx_m2r_by_class : p.Ins → Reg → List (Call o)
  movsx_m2r_by_class ins dst =
      if p.is_gr16 dst
      then m2r_call movsx_m2r_opwb dst
      else if memory_write_size p ins == 2
      then (if p.is_gr64 dst
          then m2r_call movsx_m2r_opqw dst
          else if p.is_gr32 dst
          then m2r_call movsx_m2r_oplw dst
          else [])
      else if p.is_gr64 dst
      then m2r_call movsx_m2r_opqb dst
      else if p.is_gr32 dst
      then m2r_call movsx_m2r_oplb dst
      else []

  unfoldable pub ins_movsx_op : p.Ins → List (Call o)
  unfolding movsx_r2r_by_class movsx_m2r_by_class
  ins_movsx_op ins =
      if p.memory_operand_count ins == 0
      then movsx_r2r_by_class (p.operand_reg ins 0) (p.operand_reg ins 1)
      else movsx_m2r_by_class ins (p.operand_reg ins 0)

  -- The call of `ins_xfer_op` does not end the function.
  pub ins_movsxd_op : p.Ins → List (Call o)
  unfolding ins_xfer_op
  ins_movsxd_op ins =
      let dst = p.operand_reg ins 0 in
      (if not (p.is_gr64 dst) then ins_xfer_op p ins else [])
      ++ (if p.memory_operand_count ins == 0
          then r2r_call movsx_r2r_opql dst (p.operand_reg ins 1)
          else m2r_call movsx_m2r_opql dst)
