-- ===== src/Handlers/Opcode.antt =====
-- The opcodes that src/libdft_core.cpp names, without the prefix `XED_`; `iclass_other` stands for the
-- rest.
pub data Opcode : Type 0 where
  iclass_adc iclass_add iclass_add_lock iclass_addpd iclass_addsd iclass_addss : Opcode
  iclass_and iclass_or iclass_por iclass_xor iclass_sbb iclass_sub iclass_pxor : Opcode
  iclass_subsd iclass_psubb iclass_psubw iclass_psubd iclass_xorps iclass_xorpd : Opcode
  iclass_div iclass_idiv iclass_mul iclass_imul iclass_mulsd iclass_mulpd iclass_divsd : Opcode
  iclass_bsf iclass_bsr iclass_tzcnt iclass_mov iclass_movd iclass_movq iclass_movaps : Opcode
  iclass_movapd iclass_movdqu iclass_movdqa iclass_movups iclass_movupd iclass_movss : Opcode
  iclass_vmovd iclass_vmovq iclass_vmovaps iclass_vmovapd iclass_vmovdqu iclass_vmovdqa : Opcode
  iclass_vmovups iclass_vmovupd iclass_vmovss iclass_movsd_xmm iclass_cvtsi2sd : Opcode
  iclass_cvtsd2si iclass_movlpd iclass_movlps iclass_movhpd iclass_movhps iclass_cmovb : Opcode
  iclass_cmovbe iclass_cmovl iclass_cmovle iclass_cmovnb iclass_cmovnbe iclass_cmovnl : Opcode
  iclass_cmovnle iclass_cmovno iclass_cmovnp iclass_cmovns iclass_cmovnz iclass_cmovo : Opcode
  iclass_cmovp iclass_cmovs iclass_cmovz iclass_movbe iclass_movsx iclass_movzx : Opcode
  iclass_movsxd iclass_cbw iclass_cwd iclass_cwde iclass_cdq iclass_cdqe iclass_cqo : Opcode
  iclass_setb iclass_setbe iclass_setl iclass_setle iclass_setnb iclass_setnbe : Opcode
  iclass_setnl iclass_setnle iclass_setno iclass_setnp iclass_setns iclass_setnz : Opcode
  iclass_seto iclass_setp iclass_sets iclass_setz iclass_stmxcsr iclass_smsw iclass_str : Opcode
  iclass_lar iclass_rdpmc iclass_rdtsc iclass_cpuid iclass_lahf iclass_cmpxchg : Opcode
  iclass_cmpxchg_lock iclass_xchg iclass_xadd iclass_xadd_lock iclass_xlat iclass_lodsb : Opcode
  iclass_lodsw iclass_lodsd iclass_lodsq iclass_stosb iclass_stosw iclass_stosd : Opcode
  iclass_stosq iclass_movsq iclass_movsd iclass_movsw iclass_movsb iclass_salc : Opcode
  iclass_pop iclass_push iclass_popa iclass_popad iclass_pusha iclass_pushad : Opcode
  iclass_pushf iclass_pushfd iclass_pushfq iclass_lea iclass_pcmpeqb iclass_xgetbv : Opcode
  iclass_pmovmskb iclass_vpmovmskb iclass_punpcklbw iclass_punpcklwd iclass_pshufd : Opcode
  iclass_pminub iclass_pslldq iclass_psrldq iclass_vpcmpeqb iclass_vpbroadcastb : Opcode
  iclass_vzeroupper iclass_bswap iclass_unpcklpd iclass_pshufb iclass_vptest : Opcode
  iclass_vmulsd iclass_vdivsd iclass_vpor iclass_vpxor iclass_vpsubb iclass_vpsubw : Opcode
  iclass_vpsubd iclass_vpxord iclass_vpxorq iclass_vpand iclass_vpandn iclass_vpslldq : Opcode
  iclass_vpcmpgtb iclass_vpalignr iclass_vpcmpistri iclass_cmp iclass_cmpsb : Opcode
  iclass_cmpsw iclass_cmpsd iclass_cmpsq iclass_cmpss iclass_ucomiss iclass_ucomisd : Opcode
  iclass_vpminub iclass_pcmpistri iclass_jmp iclass_jz iclass_jnz iclass_jb iclass_jnb : Opcode
  iclass_jbe iclass_jnbe iclass_jl iclass_jnl iclass_jle iclass_jnle iclass_js : Opcode
  iclass_jns iclass_jp iclass_jnp iclass_ret_far iclass_ret_near iclass_call_far : Opcode
  iclass_call_near iclass_leave iclass_syscall iclass_test iclass_rcl iclass_rcr : Opcode
  iclass_rol iclass_ror iclass_shl iclass_sar iclass_shr iclass_shld iclass_shrd : Opcode
  iclass_neg iclass_not iclass_nop iclass_bt iclass_dec iclass_dec_lock iclass_inc : Opcode
  iclass_inc_lock iclass_xsavec iclass_xrstor iclass_other : Opcode
