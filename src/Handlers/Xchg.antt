-- ===== src/Handlers/Xchg.antt =====
-- The handlers of src/ins_xchg_op.cpp.
use libdft64_ect.Prelude.{ℕ, Bool, ◌&&◌, List, [], ◌++◌, ◌==◌, if◌then◌else◌}
use libdft64_ect.Tag.{TagTraits}
use libdft64_ect.Machine.{Cmd, pure, ◌>>=◌}
use libdft64_ect.Ins.Reg.{Reg, reg_indx, ax, eax}
use libdft64_ect.Ins.Xfer.{r2r_xfer_opl, r2r_xfer_opq}
use libdft64_ect.Ins.Xchg.{
  xchg_r2r_opb_ul, xchg_r2r_opb_lu, xchg_r2r_opb_u, xchg_r2r_opb_l, xchg_r2r_opw, xchg_m2r_opb_u,
  xchg_m2r_opb_l, xchg_m2r_opw, xchg_m2r_opl, xchg_m2r_opq, cmpxchg_r2r_opq_fast,
  cmpxchg_r2r_opq_slow, cmpxchg_r2r_opl_fast, cmpxchg_r2r_opl_slow, cmpxchg_r2r_opw_fast,
  cmpxchg_r2r_opw_slow,
}
use libdft64_ect.Ins.Xchg.CompareMem.{
  cmpxchg_m2r_opq_fast, cmpxchg_m2r_opl_fast, cmpxchg_m2r_opw_fast, cmpxchg_r2m_opq_slow,
  cmpxchg_r2m_opl_slow, cmpxchg_r2m_opw_slow,
}
use libdft64_ect.Ins.Xchg.Add.{
  xadd_r2r_opb_ul, xadd_r2r_opb_lu, xadd_r2r_opb_u, xadd_r2r_opb_l, xadd_r2r_opw, xadd_r2r_opl,
  xadd_r2r_opq, xadd_r2m_opb_u, xadd_r2m_opb_l, xadd_r2m_opw, xadd_r2m_opl, xadd_r2m_opq,
}
use libdft64_ect.Handlers.Pin.{Pin, Run, Call, insert_call, r2r_call, m2r_call, r2m_call}

module _ {o : TagTraits} where
  -- `INS_InsertIfCall` and `INS_InsertThenCall`: the second call is made where the first gives true.
  pub if_then_call : (Run → Cmd o Bool) → (Run → Cmd o (Unit {0})) → List (Call o)
  if_then_call fast slow =
      insert_call λ run. fast run >>= λ same. (if same then slow run else pure tt)

  -- The pair of calls of `ins_cmpxchg_op` on two registers, and on memory and a register.
  pub cmpxchg_regs_call :
      (ℕ → ℕ → ℕ → ℕ → Cmd o Bool)
      → (ℕ → ℕ → ℕ → Cmd o (Unit {0}))
      → Reg
      → Reg
      → Reg
      → List (Call o)
  unfolding if_then_call
  cmpxchg_regs_call fast slow acc dst src =
      if_then_call (λ run. fast run.tid (run.reg_value acc) (reg_indx dst) (run.reg_value dst))
        (λ run. slow run.tid (reg_indx dst) (reg_indx src))

  pub cmpxchg_mem_call :
      (ℕ → ℕ → ℕ → ℕ → Cmd o Bool) → (ℕ → ℕ → ℕ → Cmd o (Unit {0})) → Reg → Reg → List (Call o)
  unfolding if_then_call
  cmpxchg_mem_call fast slow acc src =
      if_then_call (λ run. fast run.tid (run.reg_value acc) run.read_ea run.read_value)
        (λ run. slow run.tid run.write_ea (reg_indx src))

  -- `_xchg_m2r_*` at the address that is written.
  pub w2r_call : (ℕ → ℕ → ℕ → Cmd o (Unit {0})) → Reg → List (Call o)
  w2r_call fn reg = insert_call λ run. fn run.tid (reg_indx reg) run.write_ea

  -- Three moves through register 0.
  pub xchg_three : (ℕ → ℕ → ℕ → Cmd o (Unit {0})) → Reg → Reg → List (Call o)
  xchg_three fn dst src =
      insert_call (λ run. fn run.tid 0 (reg_indx dst))
      ++ r2r_call fn dst src
      ++ insert_call (λ run. fn run.tid (reg_indx src) 0)

module _ (p : Pin) {o : TagTraits} where
  pub ins_cmpxchg_op : p.Ins → List (Call o)
  unfolding cmpxchg_regs_call cmpxchg_mem_call
  ins_cmpxchg_op ins =
      let dst = p.operand_reg ins 0 in
      let src = p.operand_reg ins 1 in
      if p.memory_operand_count ins == 0
      then (if p.is_gr64 dst
          then cmpxchg_regs_call cmpxchg_r2r_opq_fast cmpxchg_r2r_opq_slow eax dst src
          else if p.is_gr32 dst
          then cmpxchg_regs_call cmpxchg_r2r_opl_fast cmpxchg_r2r_opl_slow eax dst src
          else if p.is_gr16 dst
          then cmpxchg_regs_call cmpxchg_r2r_opw_fast cmpxchg_r2r_opw_slow ax dst src
          else [])
      else if p.is_gr64 src
      then cmpxchg_mem_call cmpxchg_m2r_opq_fast cmpxchg_r2m_opq_slow eax src
      else if p.is_gr32 src
      then cmpxchg_mem_call cmpxchg_m2r_opl_fast cmpxchg_r2m_opl_slow eax src
      else if p.is_gr16 src
      then cmpxchg_mem_call cmpxchg_m2r_opw_fast cmpxchg_r2m_opw_slow ax src
      else []

  -- The two parts of `ins_xchg_op`: two registers, and a register and memory.
  pub xchg_by_class : Reg → Reg → List (Call o)
  unfolding xchg_three
  xchg_by_class dst src =
      if p.is_gr64 dst
      then xchg_three r2r_xfer_opq dst src
      else if p.is_gr32 dst
      then xchg_three r2r_xfer_opl dst src
      else if p.is_gr16 dst
      then r2r_call xchg_r2r_opw dst src
      else if p.is_gr8 dst
      then (if p.is_lower8 dst && p.is_lower8 src
          then r2r_call xchg_r2r_opb_l dst src
          else if p.is_upper8 dst && p.is_upper8 src
          then r2r_call xchg_r2r_opb_u dst src
          else if p.is_lower8 dst
          then r2r_call xchg_r2r_opb_lu dst src
          else r2r_call xchg_r2r_opb_ul dst src)
      else []

  pub xchg_mem_by_class :
      ((ℕ → ℕ → ℕ → Cmd o (Unit {0})) → Reg → List (Call o)) → Reg → List (Call o)
  xchg_mem_by_class at reg =
      if p.is_gr64 reg
      then at xchg_m2r_opq reg
      else if p.is_gr32 reg
      then at xchg_m2r_opl reg
      else if p.is_gr16 reg
      then at xchg_m2r_opw reg
      else if p.is_upper8 reg
      then at xchg_m2r_opb_u reg
      else at xchg_m2r_opb_l reg

  pub ins_xchg_op : p.Ins → List (Call o)
  unfolding xchg_by_class xchg_mem_by_class w2r_call
  ins_xchg_op ins =
      if p.memory_operand_count ins == 0
      then xchg_by_class (p.operand_reg ins 0) (p.operand_reg ins 1)
      else if p.operand_is_memory ins 1
      then xchg_mem_by_class m2r_call (p.operand_reg ins 0)
      else xchg_mem_by_class w2r_call (p.operand_reg ins 1)

  pub ins_xadd_op : p.Ins → List (Call o)
  ins_xadd_op ins =
      let dst = p.operand_reg ins 0 in
      let src = p.operand_reg ins 1 in
      if p.memory_operand_count ins == 0
      then (if p.is_gr64 dst
          then r2r_call xadd_r2r_opq dst src
          else if p.is_gr32 dst
          then r2r_call xadd_r2r_opl dst src
          else if p.is_gr16 dst
          then r2r_call xadd_r2r_opw dst src
          else if p.is_gr8 dst
          then (if p.is_lower8 dst && p.is_lower8 src
              then r2r_call xadd_r2r_opb_l dst src
              else if p.is_upper8 dst && p.is_upper8 src
              then r2r_call xadd_r2r_opb_u dst src
              else if p.is_lower8 dst
              then r2r_call xadd_r2r_opb_lu dst src
              else r2r_call xadd_r2r_opb_ul dst src)
          else [])
      else if p.is_gr64 src
      then r2m_call xadd_r2m_opq src
      else if p.is_gr32 src
      then r2m_call xadd_r2m_opl src
      else if p.is_gr16 src
      then r2m_call xadd_r2m_opw src
      else if p.is_upper8 src
      then r2m_call xadd_r2m_opb_u src
      else r2m_call xadd_r2m_opb_l src
