-- ===== src/Handlers/Core.antt =====
-- The dispatch over opcodes of src/libdft_core.cpp.
use libdft64_ect.Prelude.{Bool, not, ◌&&◌, ◌||◌, List, [], ◌++◌, ◌==◌, if◌then◌else◌}
use libdft64_ect.Tag.{TagTraits}
use libdft64_ect.Ins.Reg.{al, ax, eax, rax}
use libdft64_ect.Ins.Xfer.{
  m2r_xfer_opb_l, m2r_xfer_opw, m2r_xfer_opl, m2r_xfer_opq, m2m_xfer_opb, m2m_xfer_opw,
  m2m_xfer_opl, m2m_xfer_opq,
}
use libdft64_ect.Ins.Core.{
  cbw, cwde, cdqe, cwd, cdq, cqo, m2r_restore_opw, m2r_restore_opl, r2m_save_opw, r2m_save_opl,
}
use libdft64_ect.Handlers.Opcode.{
  Opcode, iclass_adc, iclass_add, iclass_add_lock, iclass_addpd, iclass_addsd, iclass_addss,
  iclass_and, iclass_or, iclass_por, iclass_xor, iclass_sbb, iclass_sub, iclass_pxor, iclass_subsd,
  iclass_psubb, iclass_psubw, iclass_psubd, iclass_xorps, iclass_xorpd, iclass_div, iclass_idiv,
  iclass_mul, iclass_imul, iclass_mulsd, iclass_mulpd, iclass_divsd, iclass_bsf, iclass_bsr,
  iclass_tzcnt, iclass_mov, iclass_movd, iclass_movq, iclass_movaps, iclass_movapd, iclass_movdqu,
  iclass_movdqa, iclass_movups, iclass_movupd, iclass_movss, iclass_vmovd, iclass_vmovq,
  iclass_vmovaps, iclass_vmovapd, iclass_vmovdqu, iclass_vmovdqa, iclass_vmovups, iclass_vmovupd,
  iclass_vmovss, iclass_movsd_xmm, iclass_cvtsi2sd, iclass_cvtsd2si, iclass_movlpd, iclass_movlps,
  iclass_movhpd, iclass_movhps, iclass_cmovb, iclass_cmovbe, iclass_cmovl, iclass_cmovle,
  iclass_cmovnb, iclass_cmovnbe, iclass_cmovnl, iclass_cmovnle, iclass_cmovno, iclass_cmovnp,
  iclass_cmovns, iclass_cmovnz, iclass_cmovo, iclass_cmovp, iclass_cmovs, iclass_cmovz,
  iclass_movbe, iclass_movsx, iclass_movzx, iclass_movsxd, iclass_cbw, iclass_cwd, iclass_cwde,
  iclass_cdq, iclass_cdqe, iclass_cqo, iclass_setb, iclass_setbe, iclass_setl, iclass_setle,
  iclass_setnb, iclass_setnbe, iclass_setnl, iclass_setnle, iclass_setno, iclass_setnp,
  iclass_setns, iclass_setnz, iclass_seto, iclass_setp, iclass_sets, iclass_setz, iclass_stmxcsr,
  iclass_smsw, iclass_str, iclass_lar, iclass_rdpmc, iclass_rdtsc, iclass_cpuid, iclass_lahf,
  iclass_cmpxchg, iclass_cmpxchg_lock, iclass_xchg, iclass_xadd, iclass_xadd_lock, iclass_xlat,
  iclass_lodsb, iclass_lodsw, iclass_lodsd, iclass_lodsq, iclass_stosb, iclass_stosw, iclass_stosd,
  iclass_stosq, iclass_movsq, iclass_movsd, iclass_movsw, iclass_movsb, iclass_salc, iclass_pop,
  iclass_push, iclass_popa, iclass_popad, iclass_pusha, iclass_pushad, iclass_pushf, iclass_pushfd,
  iclass_pushfq, iclass_lea, iclass_pcmpeqb,
}
use libdft64_ect.Handlers.Pin.{
  Pin, Call, call, m_call_w, m_call_r, m2r_call, m2r_call_p, m2m_call, m_clear_n,
}
use libdft64_ect.Handlers.Xfer.{
  ins_xfer_op, ins_xfer_op_predicated, ins_push_op, ins_pop_op, ins_stosb, ins_stosw, ins_stosd,
  ins_stosq, ins_movlp, ins_movhp, ins_lea, ins_movbe_op,
}
use libdft64_ect.Handlers.Binary.{ins_binary_op}
use libdft64_ect.Handlers.Clear.{
  ins_clear_op, ins_clear_op_predicated, ins_clear_op_l2, ins_clear_op_l4,
}
use libdft64_ect.Handlers.Movsx.{ins_movsx_op, ins_movsxd_op}
use libdft64_ect.Handlers.Unitary.{ins_unitary_op}
use libdft64_ect.Handlers.Xchg.{ins_cmpxchg_op, ins_xchg_op, ins_xadd_op}

-- Whether both operands are one register.
unfoldable pub reg_eq : (p : Pin) → p.Ins → Bool
reg_eq p ins =
    not (p.operand_is_immediate ins 1)
    && (p.memory_operand_count ins == 0 && p.same_reg (p.operand_reg ins 0) (p.operand_reg ins 1))

module _ (p : Pin) {o : TagTraits} where
  -- The case of `MOV`.
  unfoldable pub mov_or_clear : p.Ins → List (Call o)
  unfolding ins_clear_op ins_xfer_op
  mov_or_clear ins =
      if p.operand_is_immediate ins 1 || p.operand_is_reg ins 1 && p.is_seg (p.operand_reg ins 1)
      then ins_clear_op p ins
      else ins_xfer_op p ins

  pub imul : p.Ins → List (Call o)
  unfolding ins_binary_op
  imul ins = if p.operand_is_implicit ins 1 then ins_unitary_op p ins else ins_binary_op p ins

  -- The switch of `ins_inspect`. The case of `MULSD`, `MULPD` and `DIVSD` has no `break` and goes on to
  -- that of `MOV`. The opcodes for which it inserts nothing come last.
  unfoldable pub inspect : p.Ins → Opcode → List (Call o)
  unfolding imul mov_or_clear reg_eq ins_binary_op ins_clear_op ins_xfer_op
  inspect ins iclass_adc = ins_binary_op p ins
  inspect ins iclass_add = ins_binary_op p ins
  inspect ins iclass_add_lock = ins_binary_op p ins
  inspect ins iclass_addpd = ins_binary_op p ins
  inspect ins iclass_addsd = ins_binary_op p ins
  inspect ins iclass_addss = ins_binary_op p ins
  inspect ins iclass_and = ins_binary_op p ins
  inspect ins iclass_or = ins_binary_op p ins
  inspect ins iclass_por = ins_binary_op p ins
  inspect ins iclass_xor = if reg_eq p ins then ins_clear_op p ins else ins_binary_op p ins
  inspect ins iclass_sbb = if reg_eq p ins then ins_clear_op p ins else ins_binary_op p ins
  inspect ins iclass_sub = if reg_eq p ins then ins_clear_op p ins else ins_binary_op p ins
  inspect ins iclass_pxor = if reg_eq p ins then ins_clear_op p ins else ins_binary_op p ins
  inspect ins iclass_subsd = if reg_eq p ins then ins_clear_op p ins else ins_binary_op p ins
  inspect ins iclass_psubb = if reg_eq p ins then ins_clear_op p ins else ins_binary_op p ins
  inspect ins iclass_psubw = if reg_eq p ins then ins_clear_op p ins else ins_binary_op p ins
  inspect ins iclass_psubd = if reg_eq p ins then ins_clear_op p ins else ins_binary_op p ins
  inspect ins iclass_xorps = if reg_eq p ins then ins_clear_op p ins else ins_binary_op p ins
  inspect ins iclass_xorpd = if reg_eq p ins then ins_clear_op p ins else ins_binary_op p ins
  inspect ins iclass_div = ins_unitary_op p ins
  inspect ins iclass_idiv = ins_unitary_op p ins
  inspect ins iclass_mul = ins_unitary_op p ins
  inspect ins iclass_imul = imul ins
  inspect ins iclass_mulsd = ins_binary_op p ins ++ mov_or_clear ins
  inspect ins iclass_mulpd = ins_binary_op p ins ++ mov_or_clear ins
  inspect ins iclass_divsd = ins_binary_op p ins ++ mov_or_clear ins
  inspect ins iclass_bsf = mov_or_clear ins
  inspect ins iclass_bsr = mov_or_clear ins
  inspect ins iclass_tzcnt = mov_or_clear ins
  inspect ins iclass_mov = mov_or_clear ins
  inspect ins iclass_movd = ins_xfer_op p ins
  inspect ins iclass_movq = ins_xfer_op p ins
  inspect ins iclass_movaps = ins_xfer_op p ins
  inspect ins iclass_movapd = ins_xfer_op p ins
  inspect ins iclass_movdqu = ins_xfer_op p ins
  inspect ins iclass_movdqa = ins_xfer_op p ins
  inspect ins iclass_movups = ins_xfer_op p ins
  inspect ins iclass_movupd = ins_xfer_op p ins
  inspect ins iclass_movss = ins_xfer_op p ins
  inspect ins iclass_vmovd = ins_xfer_op p ins
  inspect ins iclass_vmovq = ins_xfer_op p ins
  inspect ins iclass_vmovaps = ins_xfer_op p ins
  inspect ins iclass_vmovapd = ins_xfer_op p ins
  inspect ins iclass_vmovdqu = ins_xfer_op p ins
  inspect ins iclass_vmovdqa = ins_xfer_op p ins
  inspect ins iclass_vmovups = ins_xfer_op p ins
  inspect ins iclass_vmovupd = ins_xfer_op p ins
  inspect ins iclass_vmovss = ins_xfer_op p ins
  inspect ins iclass_movsd_xmm = ins_xfer_op p ins
  inspect ins iclass_cvtsi2sd = ins_xfer_op p ins
  inspect ins iclass_cvtsd2si = ins_xfer_op p ins
  inspect ins iclass_movlpd = ins_movlp p ins
  inspect ins iclass_movlps = ins_movlp p ins
  inspect ins iclass_movhpd = ins_movhp p ins
  inspect ins iclass_movhps = ins_movhp p ins
  inspect ins iclass_cmovb = ins_xfer_op_predicated p ins
  inspect ins iclass_cmovbe = ins_xfer_op_predicated p ins
  inspect ins iclass_cmovl = ins_xfer_op_predicated p ins
  inspect ins iclass_cmovle = ins_xfer_op_predicated p ins
  inspect ins iclass_cmovnb = ins_xfer_op_predicated p ins
  inspect ins iclass_cmovnbe = ins_xfer_op_predicated p ins
  inspect ins iclass_cmovnl = ins_xfer_op_predicated p ins
  inspect ins iclass_cmovnle = ins_xfer_op_predicated p ins
  inspect ins iclass_cmovno = ins_xfer_op_predicated p ins
  inspect ins iclass_cmovnp = ins_xfer_op_predicated p ins
  inspect ins iclass_cmovns = ins_xfer_op_predicated p ins
  inspect ins iclass_cmovnz = ins_xfer_op_predicated p ins
  inspect ins iclass_cmovo = ins_xfer_op_predicated p ins
  inspect ins iclass_cmovp = ins_xfer_op_predicated p ins
  inspect ins iclass_cmovs = ins_xfer_op_predicated p ins
  inspect ins iclass_cmovz = ins_xfer_op_predicated p ins
  inspect ins iclass_movbe = ins_movbe_op p ins
  inspect ins iclass_movsx = ins_movsx_op p ins
  inspect ins iclass_movzx = ins_movsx_op p ins
  inspect ins iclass_movsxd = ins_movsxd_op p ins
  inspect ins iclass_cbw = call cbw
  inspect ins iclass_cwd = call cwd
  inspect ins iclass_cwde = call cwde
  inspect ins iclass_cdq = call cdq
  inspect ins iclass_cdqe = call cdqe
  inspect ins iclass_cqo = call cqo
  inspect ins iclass_setb = ins_clear_op_predicated p ins
  inspect ins iclass_setbe = ins_clear_op_predicated p ins
  inspect ins iclass_setl = ins_clear_op_predicated p ins
  inspect ins iclass_setle = ins_clear_op_predicated p ins
  inspect ins iclass_setnb = ins_clear_op_predicated p ins
  inspect ins iclass_setnbe = ins_clear_op_predicated p ins
  inspect ins iclass_setnl = ins_clear_op_predicated p ins
  inspect ins iclass_setnle = ins_clear_op_predicated p ins
  inspect ins iclass_setno = ins_clear_op_predicated p ins
  inspect ins iclass_setnp = ins_clear_op_predicated p ins
  inspect ins iclass_setns = ins_clear_op_predicated p ins
  inspect ins iclass_setnz = ins_clear_op_predicated p ins
  inspect ins iclass_seto = ins_clear_op_predicated p ins
  inspect ins iclass_setp = ins_clear_op_predicated p ins
  inspect ins iclass_sets = ins_clear_op_predicated p ins
  inspect ins iclass_setz = ins_clear_op_predicated p ins
  inspect ins iclass_stmxcsr = ins_clear_op p ins
  inspect ins iclass_smsw = ins_clear_op p ins
  inspect ins iclass_str = ins_clear_op p ins
  inspect ins iclass_lar = ins_clear_op p ins
  inspect ins iclass_rdpmc = ins_clear_op_l2 p ins
  inspect ins iclass_rdtsc = ins_clear_op_l2 p ins
  inspect ins iclass_cpuid = ins_clear_op_l4 p ins
  inspect ins iclass_lahf = ins_clear_op p ins
  inspect ins iclass_cmpxchg = ins_cmpxchg_op p ins
  inspect ins iclass_cmpxchg_lock = ins_cmpxchg_op p ins
  inspect ins iclass_xchg = ins_xchg_op p ins
  inspect ins iclass_xadd = ins_xadd_op p ins
  inspect ins iclass_xadd_lock = ins_xadd_op p ins
  inspect ins iclass_xlat = m2r_call m2r_xfer_opb_l al
  inspect ins iclass_lodsb = m2r_call_p m2r_xfer_opb_l al
  inspect ins iclass_lodsw = m2r_call_p m2r_xfer_opw ax
  inspect ins iclass_lodsd = m2r_call_p m2r_xfer_opl eax
  inspect ins iclass_lodsq = m2r_call_p m2r_xfer_opq rax
  inspect ins iclass_stosb = ins_stosb p ins
  inspect ins iclass_stosw = ins_stosw p ins
  inspect ins iclass_stosd = ins_stosd p ins
  inspect ins iclass_stosq = ins_stosq p ins
  inspect ins iclass_movsq = m2m_call m2m_xfer_opq
  inspect ins iclass_movsd = m2m_call m2m_xfer_opl
  inspect ins iclass_movsw = m2m_call m2m_xfer_opw
  inspect ins iclass_movsb = m2m_call m2m_xfer_opb
  inspect ins iclass_salc = ins_clear_op p ins
  inspect ins iclass_pop = ins_pop_op p ins
  inspect ins iclass_push = ins_push_op p ins
  inspect ins iclass_popa = m_call_r m2r_restore_opw
  inspect ins iclass_popad = m_call_r m2r_restore_opl
  inspect ins iclass_pusha = m_call_w r2m_save_opw
  inspect ins iclass_pushad = m_call_w r2m_save_opl
  inspect ins iclass_pushf = m_clear_n 2
  inspect ins iclass_pushfd = m_clear_n 4
  inspect ins iclass_pushfq = m_clear_n 8
  inspect ins iclass_lea = ins_lea p ins
  inspect ins iclass_pcmpeqb = ins_binary_op p ins
  inspect ins _ = []

  -- The invalid opcode and those past the last are among the others.
  unfoldable pub ins_inspect : p.Ins → List (Call o)
  unfolding inspect
  ins_inspect ins = inspect ins (p.opcode ins)
