-- ===== src/Handlers/Idiom.antt =====
-- `XOR` and its kin of a register with itself, from the dispatch of src/libdft_core.cpp to the
-- analysis functions of src/ins_clear_op.cpp.
use libdft64_ect.Prelude.{ℕ, ◌≡◌, ◌≤◌, refl, true, false, arith, some}
use libdft64_ect.Tag.{TagTraits}
use libdft64_ect.Machine.{State}
use libdft64_ect.Machine.Loop.{Ends, mono-Ends}
use libdft64_ect.Machine.Effect.{Became}
use libdft64_ect.Ins.Width.{Width, word, long, quad, xmm}
use libdft64_ect.Ins.Reg.{Reg, reg_indx}
use libdft64_ect.Ins.Xfer.Bytes.{to_part, Became-part, write_byte-Ends}
use libdft64_ect.Ins.Clear.{clear_reg, r_clrb_l, r_clrb_u}
use libdft64_ect.Ins.Clear.Laws.{r_clr, cleared_bytes, r_clr-clears}
use libdft64_ect.Handlers.Opcode.{
  Opcode, iclass_xor, iclass_sbb, iclass_sub, iclass_pxor, iclass_subsd, iclass_psubb, iclass_psubw,
  iclass_psubd, iclass_xorps, iclass_xorpd,
}
use libdft64_ect.Handlers.Pin.{Pin, Run, run_calls, r_call}
use libdft64_ect.Handlers.Class.{
  Class, gr64, gr32, gr16, lower8, upper8, xmm_reg, ymm_reg, mm_reg, class_of, class_bytes, byte_at,
  Answers, PinLaws,
}
use libdft64_ect.Handlers.Form.{insert_call-Ends}
use libdft64_ect.Handlers.Clear.{clear_r, ins_clear_op}
use libdft64_ect.Handlers.Core.{reg_eq, inspect, ins_inspect}

-- The opcodes of the case of `ins_inspect` that tests whether both operands are one register. Their
-- forms with a prefix VEX or EVEX, `VPXOR` and its kin, are not among them: `ins_inspect` inserts
-- nothing for those.
pub data IsZeroing : Opcode → Type 0 where
  by_xor : IsZeroing iclass_xor
  by_sbb : IsZeroing iclass_sbb
  by_sub : IsZeroing iclass_sub
  by_pxor : IsZeroing iclass_pxor
  by_subsd : IsZeroing iclass_subsd
  by_psubb : IsZeroing iclass_psubb
  by_psubw : IsZeroing iclass_psubw
  by_psubd : IsZeroing iclass_psubd
  by_xorps : IsZeroing iclass_xorps
  by_xorpd : IsZeroing iclass_xorpd

module _ (p : Pin) {o : TagTraits} (ins : p.Ins) (run : Run) (s : State o) where
  wide_clear :
      (v : Width) (dst : Reg)
      → Ends
          (Became s 0
            (to_part run.tid (reg_indx dst) 0 (cleared_bytes v) (λ _. some o.cleared_val) s))
          s
          (run_calls (r_call (r_clr v) dst) run)
  wide_clear v dst = insert_call-Ends _ s run _ (
      mono-Ends s (r_clr v run.tid (reg_indx dst)) (r_clr-clears s v run.tid (reg_indx dst)) λ s' b.
        Became-part s run.tid (reg_indx dst) (cleared_bytes v) 0 (λ _. some o.cleared_val)
          (λ _. some o.cleared_val) s' (λ i. refl) b)

  byte_clear :
      (dst : Reg) (i : ℕ)
      → Ends
          (Became s 0 (to_part run.tid (reg_indx dst) i 1 (λ _. some o.cleared_val) s))
          s
          (run_calls (r_call (λ tid r. clear_reg tid r i) dst) run)
  unfolding clear_reg
  byte_clear dst i =
      insert_call-Ends _ s run _
        (write_byte-Ends s run.tid (reg_indx dst) i o.cleared_val (λ _. some o.cleared_val) refl)

  clear_r-Ends :
      (dst : Reg) (c : Class)
      → Answers p dst c
      → class_bytes c ≤ 16
      → Ends
          (Became s 0 (
            to_part run.tid
              (reg_indx dst)
              (byte_at c 0)
              (class_bytes c)
              (λ _. some o.cleared_val)
              s))
          s
          (run_calls (clear_r p dst) run)
  unfolding clear_r r_clr r_clrb_l r_clrb_u
  clear_r-Ends dst gr64 a h = rw a.gr64_eq (wide_clear quad dst)
  clear_r-Ends dst gr32 a h = rw (a.gr64_eq, a.gr32_eq) (wide_clear long dst)
  clear_r-Ends dst gr16 a h = rw (a.gr64_eq, a.gr32_eq, a.gr16_eq) (wide_clear word dst)
  clear_r-Ends dst xmm_reg a h = rw (a.gr64_eq, a.gr32_eq, a.gr16_eq, a.xmm_eq) (wide_clear xmm dst)
  clear_r-Ends dst mm_reg a h =
      rw (a.gr64_eq, a.gr32_eq, a.gr16_eq, a.xmm_eq, a.mm_eq) (wide_clear quad dst)
  clear_r-Ends dst ymm_reg a h = absurd (omega arith)
  clear_r-Ends dst upper8 a h =
      rw (a.gr64_eq, a.gr32_eq, a.gr16_eq, a.xmm_eq, a.mm_eq, a.ymm_eq, a.upper8_eq)
        (byte_clear dst 1)
  clear_r-Ends dst lower8 a h =
      rw (a.gr64_eq, a.gr32_eq, a.gr16_eq, a.xmm_eq, a.mm_eq, a.ymm_eq, a.upper8_eq)
        (byte_clear dst 0)

  inspect-IsZeroing :
      (op : Opcode)
      → IsZeroing op
      → reg_eq p ins ≡ true
      → inspect p {o = o} ins op ≡ ins_clear_op p ins
  unfolding inspect
  inspect-IsZeroing _ by_xor same = rw same refl
  inspect-IsZeroing _ by_sbb same = rw same refl
  inspect-IsZeroing _ by_sub same = rw same refl
  inspect-IsZeroing _ by_pxor same = rw same refl
  inspect-IsZeroing _ by_subsd same = rw same refl
  inspect-IsZeroing _ by_psubb same = rw same refl
  inspect-IsZeroing _ by_psubw same = rw same refl
  inspect-IsZeroing _ by_psubd same = rw same refl
  inspect-IsZeroing _ by_xorps same = rw same refl
  inspect-IsZeroing _ by_xorpd same = rw same refl

  clear_op-eq :
      p.operand_is_memory ins 0 ≡ false
      → ins_clear_op p {o = o} ins ≡ clear_r p (p.operand_reg ins 0)
  unfolding ins_clear_op
  clear_op-eq e = rw e refl

  -- The calls that `ins_inspect` inserts for `XOR`, `SBB`, `SUB`, `PXOR`, `SUBSD`, `PSUBB`, `PSUBW`,
  -- `PSUBD`, `XORPS` or `XORPD` of a register and itself clear the tags of all bytes of the register, at
  -- every class of registers of 16 bytes at most, and change no other tag, if Pin answers as it
  -- documents.
  pub ins_inspect-clears :
      (c : Class)
      → PinLaws p
      → IsZeroing (p.opcode ins)
      → reg_eq p ins ≡ true
      → p.operand_is_memory ins 0 ≡ false
      → class_of (p.operand_reg ins 0) ≡ some c
      → class_bytes c ≤ 16
      → Ends
          (Became s 0 (
            to_part run.tid
              (reg_indx (p.operand_reg ins 0))
              (byte_at c 0)
              (class_bytes c)
              (λ _. some o.cleared_val)
              s))
          s
          (run_calls (ins_inspect p ins) run)
  unfolding ins_inspect
  ins_inspect-clears c laws zeroing same no_mem of_class narrow =
      rw (inspect-IsZeroing (p.opcode ins) zeroing same, clear_op-eq no_mem)
        (clear_r-Ends (p.operand_reg ins 0) c (laws _ c of_class) narrow)
