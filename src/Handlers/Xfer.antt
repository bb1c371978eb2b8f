-- ===== src/Handlers/Xfer.antt =====
-- The handlers of src/ins_xfer_op.cpp.
use libdft64_ect.Prelude.{ℕ, ◌/◌, ◌&&◌, not, List, [], ◌++◌, ◌==◌, if◌then◌else◌}
use libdft64_ect.Tag.{TagTraits}
use libdft64_ect.Machine.{Cmd, pure}
use libdft64_ect.Ins.Reg.{Reg, al, ax, eax, rax}
use libdft64_ect.Ins.Xfer.{
  r2r_xfer_opb_ul, r2r_xfer_opb_lu, r2r_xfer_opb_u, r2r_xfer_opb_l, r2r_xfer_opw, r2r_xfer_opl,
  r2r_xfer_opq, r2r_xfer_opx, r2r_xfer_opy, m2r_xfer_opb_u, m2r_xfer_opb_l, m2r_xfer_opw,
  m2r_xfer_opl, m2r_xfer_opq, m2r_xfer_opx, m2r_xfer_opy, r2m_xfer_opb_u, r2m_xfer_opb_l,
  r2m_xfer_opw, r2m_xfer_opl, r2m_xfer_opq, r2m_xfer_opx, r2m_xfer_opy, m2m_xfer_opw, m2m_xfer_opl,
  m2m_xfer_opq, m2r_xfer_opq_h, r2m_xfer_opq_h,
}
use libdft64_ect.Ins.Stos.{r2m_xfer_opbn, r2m_xfer_opwn, r2m_xfer_opln, r2m_xfer_opqn}
use libdft64_ect.Ins.Lea.{lea_opw, lea_opl, lea_opq}
use libdft64_ect.Ins.Movbe.{
  m2r_xfer_opw_rev, m2r_xfer_opl_rev, m2r_xfer_opq_rev, r2m_xfer_opw_rev, r2m_xfer_opl_rev,
  r2m_xfer_opq_rev,
}
use libdft64_ect.Handlers.Pin.{
  Pin, Call, is_invalid, memory_write_size, insert_predicated_call, r2r_call, r2r_call_p, m2r_call,
  m2r_call_p, r2m_call, m2m_call, m_clear_n, rr2r_call,
}
use libdft64_ect.Handlers.Clear.{ins_clear_op}

module _ (p : Pin) {o : TagTraits} where
  -- The three parts of `ins_xfer_op`, by where the operands are.
  unfoldable pub xfer_r2r : Reg → Reg → List (Call o)
  xfer_r2r dst src =
      if p.is_gr64 dst
      then r2r_call r2r_xfer_opq dst src
      else if p.is_gr32 dst
      then r2r_call r2r_xfer_opl dst src
      else if p.is_gr16 dst
      then r2r_call r2r_xfer_opw dst src
      else if p.is_xmm dst
      then r2r_call r2r_xfer_opx dst src
      else if p.is_ymm dst
      then r2r_call r2r_xfer_opy dst src
      else if p.is_mm dst
      then r2r_call r2r_xfer_opq dst src
      else if p.is_lower8 dst && p.is_lower8 src
      then r2r_call r2r_xfer_opb_l dst src
      else if p.is_upper8 dst && p.is_upper8 src
      then r2r_call r2r_xfer_opb_u dst src
      else if p.is_lower8 dst
      then r2r_call r2r_xfer_opb_lu dst src
      else r2r_call r2r_xfer_opb_ul dst src

  unfoldable pub xfer_m2r : Reg → List (Call o)
  xfer_m2r dst =
      if p.is_gr64 dst
      then m2r_call m2r_xfer_opq dst
      else if p.is_gr32 dst
      then m2r_call m2r_xfer_opl dst
      else if p.is_gr16 dst
      then m2r_call m2r_xfer_opw dst
      else if p.is_xmm dst
      then m2r_call m2r_xfer_opx dst
      else if p.is_ymm dst
      then m2r_call m2r_xfer_opy dst
      else if p.is_mm dst
      then m2r_call m2r_xfer_opq dst
      else if p.is_upper8 dst
      then m2r_call m2r_xfer_opb_u dst
      else m2r_call m2r_xfer_opb_l dst

  unfoldable pub xfer_r2m : Reg → List (Call o)
  xfer_r2m src =
      if p.is_gr64 src
      then r2m_call r2m_xfer_opq src
      else if p.is_gr32 src
      then r2m_call r2m_xfer_opl src
      else if p.is_gr16 src
      then r2m_call r2m_xfer_opw src
      else if p.is_xmm src
      then r2m_call r2m_xfer_opx src
      else if p.is_ymm src
      then r2m_call r2m_xfer_opy src
      else if p.is_mm src
      then r2m_call r2m_xfer_opq src
      else if p.is_upper8 src
      then r2m_call r2m_xfer_opb_u src
      else r2m_call r2m_xfer_opb_l src

  unfoldable pub ins_xfer_op : p.Ins → List (Call o)
  unfolding xfer_r2r xfer_m2r xfer_r2m
  ins_xfer_op ins =
      if p.memory_operand_count ins == 0
      then xfer_r2r (p.operand_reg ins 0) (p.operand_reg ins 1)
      else if p.operand_is_memory ins 1
      then xfer_m2r (p.operand_reg ins 0)
      else xfer_r2m (p.operand_reg ins 1)

  pub ins_xfer_op_predicated : p.Ins → List (Call o)
  ins_xfer_op_predicated ins =
      let dst = p.operand_reg ins 0 in
      let src = p.operand_reg ins 1 in
      if p.memory_operand_count ins == 0
      then (if p.is_gr64 dst
          then r2r_call_p r2r_xfer_opq dst src
          else if p.is_gr32 dst
          then r2r_call_p r2r_xfer_opl dst src
          else r2r_call_p r2r_xfer_opw dst src)
      else if p.is_gr64 dst
      then m2r_call_p m2r_xfer_opq dst
      else if p.is_gr32 dst
      then m2r_call_p m2r_xfer_opl dst
      else m2r_call_p m2r_xfer_opw dst

  -- The move from memory to memory of `ins_push_op` and `ins_pop_op`.
  pub m2m_by_size : p.Ins → List (Call o)
  m2m_by_size ins =
      if memory_write_size p ins == 8
      then m2m_call m2m_xfer_opq
      else if memory_write_size p ins == 4
      then m2m_call m2m_xfer_opl
      else m2m_call m2m_xfer_opw

  pub ins_push_op : p.Ins → List (Call o)
  unfolding m2m_by_size
  ins_push_op ins =
      let src = p.operand_reg ins 0 in
      if p.operand_is_reg ins 0
      then (if p.is_gr64 src
          then r2m_call r2m_xfer_opq src
          else if p.is_gr32 src
          then r2m_call r2m_xfer_opl src
          else r2m_call r2m_xfer_opw src)
      else if p.operand_is_memory ins 0
      then m2m_by_size ins
      else m_clear_n (p.operand_width ins 0 / 8)

  pub ins_pop_op : p.Ins → List (Call o)
  unfolding m2m_by_size
  ins_pop_op ins =
      let dst = p.operand_reg ins 0 in
      if p.operand_is_reg ins 0
      then (if p.is_gr64 dst
          then m2r_call m2r_xfer_opq dst
          else if p.is_gr32 dst
          then m2r_call m2r_xfer_opl dst
          else m2r_call m2r_xfer_opw dst)
      else if p.operand_is_memory ins 0
      then m2m_by_size ins
      else []

  -- `INS_InsertIfPredicatedCall` and `INS_InsertThenPredicatedCall`: the second call is made where the
  -- first, `rep_predicate`, gives its argument `IARG_FIRST_REP_ITERATION` back as true.
  pub ins_stos_ins : p.Ins → (ℕ → ℕ → ℕ → ℕ → Cmd o (Unit {0})) → List (Call o)
  ins_stos_ins ins fn = insert_predicated_call λ run.
      if run.first_rep
      then fn run.tid run.write_ea (run.reg_value (p.rep_count_register ins))
          (run.reg_value (p.operand_reg ins 4))
      else pure tt

  pub ins_stosb : p.Ins → List (Call o)
  unfolding ins_stos_ins
  ins_stosb ins =
      if p.rep_prefix ins then ins_stos_ins ins r2m_xfer_opbn else r2m_call r2m_xfer_opb_l al

  pub ins_stosw : p.Ins → List (Call o)
  unfolding ins_stos_ins
  ins_stosw ins =
      if p.rep_prefix ins then ins_stos_ins ins r2m_xfer_opwn else r2m_call r2m_xfer_opw ax

  pub ins_stosd : p.Ins → List (Call o)
  unfolding ins_stos_ins
  ins_stosd ins =
      if p.rep_prefix ins then ins_stos_ins ins r2m_xfer_opln else r2m_call r2m_xfer_opw eax

  pub ins_stosq : p.Ins → List (Call o)
  unfolding ins_stos_ins
  ins_stosq ins =
      if p.rep_prefix ins then ins_stos_ins ins r2m_xfer_opqn else r2m_call r2m_xfer_opw rax

  pub ins_movlp : p.Ins → List (Call o)
  ins_movlp ins =
      if p.operand_is_memory ins 0
      then r2m_call r2m_xfer_opq (p.operand_reg ins 1)
      else m2r_call m2r_xfer_opq (p.operand_reg ins 0)

  pub ins_movhp : p.Ins → List (Call o)
  ins_movhp ins =
      if p.operand_is_memory ins 0
      then r2m_call r2m_xfer_opq_h (p.operand_reg ins 1)
      else m2r_call m2r_xfer_opq_h (p.operand_reg ins 0)

  -- One of the two address registers, at the width of the target.
  pub lea_one : Reg → Reg → List (Call o)
  lea_one dst src =
      if p.is_gr64 dst
      then r2r_call r2r_xfer_opq dst src
      else if p.is_gr32 dst
      then r2r_call r2r_xfer_opl dst src
      else if p.is_gr16 dst
      then r2r_call r2r_xfer_opw dst src
      else []

  pub lea_both : Reg → Reg → Reg → List (Call o)
  lea_both dst base indx =
      if p.is_gr64 dst
      then rr2r_call lea_opq dst base indx
      else if p.is_gr32 dst
      then rr2r_call lea_opl dst base indx
      else if p.is_gr16 dst
      then rr2r_call lea_opw dst base indx
      else []

  pub ins_lea : p.Ins → List (Call o)
  unfolding lea_one lea_both
  ins_lea ins =
      let base = p.memory_base_reg ins in
      let indx = p.memory_index_reg ins in
      let dst = p.operand_reg ins 0 in
      (if is_invalid base && is_invalid indx then ins_clear_op p ins else [])
      ++ (if not (is_invalid base) && is_invalid indx then lea_one dst base else [])
      ++ (if is_invalid base && not (is_invalid indx) then lea_one dst indx else [])
      ++ (if not (is_invalid base) && not (is_invalid indx) then lea_both dst base indx else [])

  pub ins_movbe_op : p.Ins → List (Call o)
  ins_movbe_op ins =
      let dst = p.operand_reg ins 0 in
      let src = p.operand_reg ins 1 in
      if p.operand_is_memory ins 1
      then (if p.is_gr64 dst
          then m2r_call m2r_xfer_opq_rev dst
          else if p.is_gr32 dst
          then m2r_call m2r_xfer_opl_rev dst
          else if p.is_gr16 dst
          then m2r_call m2r_xfer_opw_rev dst
          else [])
      else if p.is_gr64 src
      then r2m_call r2m_xfer_opq_rev src
      else if p.is_gr32 src
      then r2m_call r2m_xfer_opl_rev src
      else if p.is_gr16 src
      then r2m_call r2m_xfer_opw_rev src
      else []
