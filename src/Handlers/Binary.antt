-- ===== src/Handlers/Binary.antt =====
-- The handler of src/ins_binary_op.cpp.
use libdft64_ect.Prelude.{◌&&◌, List, [], ◌==◌, if◌then◌else◌}
use libdft64_ect.Tag.{TagTraits}
use libdft64_ect.Ins.Reg.{Reg}
use libdft64_ect.Ins.Binary.{
  r2r_binary_opb_ul, r2r_binary_opb_lu, r2r_binary_opb_u, r2r_binary_opb_l, r2r_binary_opw,
  r2r_binary_opl, r2r_binary_opq, r2r_binary_opx, r2r_binary_opy, m2r_binary_opb_u,
  m2r_binary_opb_l, m2r_binary_opw, m2r_binary_opl, m2r_binary_opq, m2r_binary_opx, m2r_binary_opy,
  r2m_binary_opb_u, r2m_binary_opb_l, r2m_binary_opw, r2m_binary_opl, r2m_binary_opq,
  r2m_binary_opx, r2m_binary_opy,
}
use libdft64_ect.Handlers.Pin.{Pin, Call, r2r_call, m2r_call, r2m_call}

module _ (p : Pin) {o : TagTraits} where
  -- The three parts of `ins_binary_op`, by where the operands are.
  unfoldable pub binary_r2r : Reg → Reg → List (Call o)
  binary_r2r dst src =
      if p.is_gr64 dst
      then r2r_call r2r_binary_opq dst src
      else if p.is_gr32 dst
      then r2r_call r2r_binary_opl dst src
      else if p.is_gr16 dst
      then r2r_call r2r_binary_opw dst src
      else if p.is_xmm dst
      then r2r_call r2r_binary_opx dst src
      else if p.is_ymm dst
      then r2r_call r2r_binary_opy dst src
      else if p.is_mm dst
      then r2r_call r2r_binary_opq dst src
      else if p.is_lower8 dst && p.is_lower8 src
      then r2r_call r2r_binary_opb_l dst src
      else if p.is_upper8 dst && p.is_upper8 src
      then r2r_call r2r_binary_opb_u dst src
      else if p.is_lower8 dst
      then r2r_call r2r_binary_opb_lu dst src
      else r2r_call r2r_binary_opb_ul dst src

  unfoldable pub binary_m2r : Reg → List (Call o)
  binary_m2r dst =
      if p.is_gr64 dst
      then m2r_call m2r_binary_opq dst
      else if p.is_gr32 dst
      then m2r_call m2r_binary_opl dst
      else if p.is_gr16 dst
      then m2r_call m2r_binary_opw dst
      else if p.is_xmm dst
      then m2r_call m2r_binary_opx dst
      else if p.is_ymm dst
      then m2r_call m2r_binary_opy dst
      else if p.is_mm dst
      then m2r_call m2r_binary_opq dst
      else if p.is_upper8 dst
      then m2r_call m2r_binary_opb_u dst
      else m2r_call m2r_binary_opb_l dst

  unfoldable pub binary_r2m : Reg → List (Call o)
  binary_r2m src =
      if p.is_gr64 src
      then r2m_call r2m_binary_opq src
      else if p.is_gr32 src
      then r2m_call r2m_binary_opl src
      else if p.is_gr16 src
      then r2m_call r2m_binary_opw src
      else if p.is_xmm src
      then r2m_call r2m_binary_opx src
      else if p.is_ymm src
      then r2m_call r2m_binary_opy src
      else if p.is_mm src
      then r2m_call r2m_binary_opq src
      else if p.is_upper8 src
      then r2m_call r2m_binary_opb_u src
      else r2m_call r2m_binary_opb_l src

  unfoldable pub ins_binary_op : p.Ins → List (Call o)
  unfolding binary_r2r binary_m2r binary_r2m
  ins_binary_op ins =
      if p.operand_is_immediate ins 1
      then []
      else if p.memory_operand_count ins == 0
      then binary_r2r (p.operand_reg ins 0) (p.operand_reg ins 1)
      else if p.operand_is_memory ins 1
      then binary_m2r (p.operand_reg ins 0)
      else binary_r2m (p.operand_reg ins 1)
