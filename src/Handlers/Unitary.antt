-- ===== src/Handlers/Unitary.antt =====
-- The handler of src/ins_unitary_op.cpp. That of src/ins_ternary_op.cpp inserts nothing.
use libdft64_ect.Prelude.{List, [], ◌==◌, if◌then◌else◌}
use libdft64_ect.Tag.{TagTraits}
use libdft64_ect.Ins.Unitary.{
  r2r_unitary_opb_u, r2r_unitary_opb_l, r2r_unitary_opw, r2r_unitary_opl, r2r_unitary_opq,
  m2r_unitary_opb, m2r_unitary_opw, m2r_unitary_opl, m2r_unitary_opq,
}
use libdft64_ect.Handlers.Pin.{Pin, Call, memory_write_size, r_call, m_call_r}

module _ (p : Pin) {o : TagTraits} where
  pub ins_unitary_op : p.Ins → List (Call o)
  ins_unitary_op ins =
      let src = p.operand_reg ins 0 in
      let size = memory_write_size p ins in
      if p.operand_is_memory ins 0
      then (if size == 8
          then m_call_r m2r_unitary_opq
          else if size == 4
          then m_call_r m2r_unitary_opl
          else if size == 2
          then m_call_r m2r_unitary_opw
          else m_call_r m2r_unitary_opb)
      else if p.is_gr64 src
      then r_call r2r_unitary_opq src
      else if p.is_gr32 src
      then r_call r2r_unitary_opl src
      else if p.is_gr16 src
      then r_call r2r_unitary_opw src
      else if p.is_upper8 src
      then r_call r2r_unitary_opb_u src
      else r_call r2r_unitary_opb_l src

  pub ins_ternary_op : p.Ins → List (Call o)
  ins_ternary_op ins = []
