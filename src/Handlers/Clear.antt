-- ===== src/Handlers/Clear.antt =====
-- The handlers of src/ins_clear_op.cpp.
use libdft64_ect.Prelude.{◌/◌, List, ◌==◌, if◌then◌else◌}
use libdft64_ect.Tag.{TagTraits}
use libdft64_ect.Machine.{tagmap_clrn}
use libdft64_ect.Ins.Reg.{Reg, reg_indx}
use libdft64_ect.Ins.Clear.{
  r_clrl4, r_clrl2, r_clrb_l, r_clrb_u, r_clrw, r_clrl, r_clrq, r_clrx, r_clry,
}
use libdft64_ect.Handlers.Pin.{Pin, Call, insert_call, insert_predicated_call, r_call, m_clear_n}

module _ (p : Pin) {o : TagTraits} where
  -- The part of `ins_clear_op` for a register.
  unfoldable pub clear_r : Reg → List (Call o)
  clear_r dst =
      if p.is_gr64 dst
      then r_call r_clrq dst
      else if p.is_gr32 dst
      then r_call r_clrl dst
      else if p.is_gr16 dst
      then r_call r_clrw dst
      else if p.is_xmm dst
      then r_call r_clrx dst
      else if p.is_mm dst
      then r_call r_clrq dst
      else if p.is_ymm dst
      then r_call r_clry dst
      else if p.is_upper8 dst
      then r_call r_clrb_u dst
      else r_call r_clrb_l dst

  unfoldable pub ins_clear_op : p.Ins → List (Call o)
  unfolding clear_r
  ins_clear_op ins =
      if p.operand_is_memory ins 0
      then m_clear_n (p.operand_width ins 0 / 8)
      else clear_r (p.operand_reg ins 0)

  pub ins_clear_op_predicated : p.Ins → List (Call o)
  ins_clear_op_predicated ins =
      let dst = p.operand_reg ins 0 in
      if p.memory_operand_count ins == 0
      then (if p.is_upper8 dst
          then insert_predicated_call (λ run. r_clrb_u run.tid (reg_indx dst))
          else insert_predicated_call (λ run. r_clrb_l run.tid (reg_indx dst)))
      else insert_predicated_call λ run. tagmap_clrn run.write_ea 1

  pub ins_clear_op_l2 : p.Ins → List (Call o)
  ins_clear_op_l2 ins = insert_call λ run. r_clrl2 run.tid

  pub ins_clear_op_l4 : p.Ins → List (Call o)
  ins_clear_op_l4 ins = insert_call λ run. r_clrl4 run.tid
