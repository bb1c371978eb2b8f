-- ===== src/Handlers/Joins.antt =====
-- `ins_binary_op` of src/ins_binary_op.cpp with the analysis functions that it inserts.
use libdft64_ect.Prelude.{
  ℕ, ◌+◌, ◌*◌, ◌≤◌, ◌≡◌, ◌≢◌, refl, sym, ap, ◌∙◌, Bool, true, false, ◌==◌, arith,
}
use libdft64_ect.Tag.{TagTraits}
use libdft64_ect.Tag.Laws.{TagLaws}
use libdft64_ect.TagMap.{max_addr}
use libdft64_ect.Machine.{State}
use libdft64_ect.Machine.Effect.{Loc, reg, mem}
use libdft64_ect.Machine.Meaning
use libdft64_ect.Machine.Meaning.{Outcome, IsState, offsets}
use libdft64_ect.Machine.Join.{Joined, Joined-mono}
use libdft64_ect.Ins.Width.{Width, word, long, quad, xmm, ymm, bytes}
use libdft64_ect.Ins.Reg.{Reg, reg_indx}
use libdft64_ect.Ins.Binary.Laws.{
  gain_mem, r2r_binary, m2r_binary, r2m_binary, r2r_binary-gains, m2r_binary-gains,
  r2m_binary-gains,
}
use libdft64_ect.Ins.Binary.Bytes.{
  gain_part, gain_reg-part, combine_reg-gains, combine_load-gains, combine_store-gains,
}
use libdft64_ect.Ins.Binary.{
  combine_reg, combine_load_byte, combine_store, r2r_binary_opb_ul, r2r_binary_opb_lu,
  r2r_binary_opb_u, r2r_binary_opb_l, m2r_binary_opb_u, m2r_binary_opb_l, r2m_binary_opb_u,
  r2m_binary_opb_l,
}
use libdft64_ect.Handlers.Pin.{Pin, Run, run_calls, r2r_call, m2r_call, r2m_call}
use libdft64_ect.Handlers.Class.{
  Class, gr64, gr32, gr16, lower8, upper8, xmm_reg, ymm_reg, mm_reg, class_bytes, byte_at, Answers,
  PinLaws,
}
use libdft64_ect.Handlers.Form.{Form, regs, load, store, price, whole, insert_call-Outcome}
use libdft64_ect.Handlers.Binary.{binary_r2r, binary_m2r, binary_r2m, ins_binary_op}

module _ (p : Pin) {o : TagTraits} (laws : TagLaws o) (run : Run) (s : State o)
    (g : laws.model.Ghost) (ok : IsState laws s g) where
  abbrev reg_byte : Reg → Class → ℕ → Loc
  reg_byte r c i = reg run.tid (reg_indx r) (byte_at c i)

  wide_r2r :
      (v : Width) (dst src : Reg) (d : Class)
      → bytes v ≡ class_bytes d
      → 1 ≢ bytes v
      → Outcome laws.model
          (λ r.
            Joined laws s 0
              (gain_part laws run.tid (reg_indx dst) 0 (bytes v) (reg_byte src d) s)
              r.1)
          (run_calls (r2r_call (r2r_binary v) dst src) run s)
  wide_r2r v dst src d e h = insert_call-Outcome laws.model _ s run _ (
      Meaning.mono (r2r_binary-gains laws s g ok v run.tid (reg_indx dst) (reg_indx src)) λ r w.
        Joined-mono laws s r.1 0 0 _ _
          (gain_reg-part laws run.tid (reg_indx dst) (bytes v) (reg run.tid (reg_indx src))
            (reg_byte src d) s
            λ i. ap (λ j. reg run.tid (reg_indx src) j) (whole d i λ z. h (sym z ∙ sym e)))
          refl w)

  byte_r2r :
      (dst src : Reg) (i j : ℕ) (d : Class)
      → byte_at d 0 ≡ j
      → Outcome laws.model
          (λ r. Joined laws s 0 (gain_part laws run.tid (reg_indx dst) i 1 (reg_byte src d) s) r.1)
          (run_calls (r2r_call (λ tid to from. combine_reg tid to i from j) dst src) run s)
  byte_r2r dst src i j d e = insert_call-Outcome laws.model _ s run _ (
      combine_reg-gains laws s g ok run.tid (reg_indx dst) i (reg_indx src) j (reg_byte src d)
        (ap (λ k. reg run.tid (reg_indx src) k) e))

  binary_r2r-gains :
      (dst src : Reg) (c d : Class)
      → Answers p dst c
      → Answers p src d
      → class_bytes c ≡ class_bytes d
      → Outcome laws.model
          (λ r.
            Joined laws s 0
              (gain_part laws run.tid
                (reg_indx dst)
                (byte_at c 0)
                (class_bytes c)
                (reg_byte src d)
                s)
              r.1)
          (run_calls (binary_r2r p dst src) run s)
  unfolding binary_r2r r2r_binary r2r_binary_opb_ul r2r_binary_opb_lu r2r_binary_opb_u
      r2r_binary_opb_l
  binary_r2r-gains dst src gr64 d a b e =
      rw a.gr64_eq (wide_r2r quad dst src d e λ z. absurd (omega arith))
  binary_r2r-gains dst src gr32 d a b e =
      rw (a.gr64_eq, a.gr32_eq) (wide_r2r long dst src d e λ z. absurd (omega arith))
  binary_r2r-gains dst src gr16 d a b e =
      rw (a.gr64_eq, a.gr32_eq, a.gr16_eq) (wide_r2r word dst src d e λ z. absurd (omega arith))
  binary_r2r-gains dst src xmm_reg d a b e =
      rw (a.gr64_eq, a.gr32_eq, a.gr16_eq, a.xmm_eq)
        (wide_r2r xmm dst src d e λ z. absurd (omega arith))
  binary_r2r-gains dst src ymm_reg d a b e =
      rw (a.gr64_eq, a.gr32_eq, a.gr16_eq, a.xmm_eq, a.ymm_eq)
        (wide_r2r ymm dst src d e λ z. absurd (omega arith))
  binary_r2r-gains dst src mm_reg d a b e =
      rw (a.gr64_eq, a.gr32_eq, a.gr16_eq, a.xmm_eq, a.ymm_eq, a.mm_eq)
        (wide_r2r quad dst src d e λ z. absurd (omega arith))
  binary_r2r-gains dst src lower8 lower8 a b e =
      rw (a.gr64_eq, a.gr32_eq, a.gr16_eq, a.xmm_eq, a.ymm_eq, a.mm_eq, a.lower8_eq, b.lower8_eq)
        (byte_r2r dst src 0 0 lower8 refl)
  binary_r2r-gains dst src lower8 upper8 a b e =
      rw
        (
          a.gr64_eq, a.gr32_eq, a.gr16_eq, a.xmm_eq, a.ymm_eq, a.mm_eq, a.lower8_eq, b.lower8_eq,
          a.upper8_eq,
        )
        (byte_r2r dst src 0 1 upper8 refl)
  binary_r2r-gains dst src upper8 lower8 a b e =
      rw
        (
          a.gr64_eq, a.gr32_eq, a.gr16_eq, a.xmm_eq, a.ymm_eq, a.mm_eq, a.lower8_eq, a.upper8_eq,
          b.upper8_eq,
        )
        (byte_r2r dst src 1 0 lower8 refl)
  binary_r2r-gains dst src upper8 upper8 a b e =
      rw
        (
          a.gr64_eq, a.gr32_eq, a.gr16_eq, a.xmm_eq, a.ymm_eq, a.mm_eq, a.lower8_eq, a.upper8_eq,
          b.upper8_eq,
        )
        (byte_r2r dst src 1 1 upper8 refl)
  binary_r2r-gains dst src _ _ a b e = absurd (omega arith)

  wide_m2r :
      (v : Width) (dst : Reg)
      → run.read_ea + bytes v ≤ max_addr + 1
      → Outcome laws.model
          (λ r.
            Joined laws s 0
              (gain_part laws run.tid (reg_indx dst) 0 (bytes v) (λ i. mem (run.read_ea + i)) s)
              r.1)
          (run_calls (m2r_call (m2r_binary v) dst) run s)
  wide_m2r v dst h = insert_call-Outcome laws.model _ s run _ (
      Meaning.mono (m2r_binary-gains laws s g ok v run.tid (reg_indx dst) run.read_ea h) λ r w.
        Joined-mono laws s r.1 0 0 _ _
          (gain_reg-part laws run.tid (reg_indx dst) (bytes v) (λ i. mem (run.read_ea + i))
            (λ i. mem (run.read_ea + i)) s λ i. refl)
          refl w)

  byte_m2r :
      (dst : Reg) (i : ℕ)
      → run.read_ea + 1 ≤ max_addr + 1
      → Outcome laws.model
          (λ r.
            Joined laws s 0
              (gain_part laws run.tid (reg_indx dst) i 1 (λ x. mem (run.read_ea + x)) s)
              r.1)
          (run_calls (m2r_call (λ tid to from. combine_load_byte tid to i from) dst) run s)
  byte_m2r dst i h = insert_call-Outcome laws.model _ s run _ (
      combine_load-gains laws s g ok run.tid (reg_indx dst) i run.read_ea
        (λ x. mem (run.read_ea + x)) (ap (λ k. mem k) (omega arith)) (omega arith))

  binary_m2r-gains :
      (dst : Reg) (c : Class)
      → Answers p dst c
      → run.read_ea + class_bytes c ≤ max_addr + 1
      → Outcome laws.model
          (λ r.
            Joined laws s 0
              (gain_part laws run.tid
                (reg_indx dst)
                (byte_at c 0)
                (class_bytes c)
                (λ i. mem (run.read_ea + i))
                s)
              r.1)
          (run_calls (binary_m2r p dst) run s)
  unfolding binary_m2r m2r_binary m2r_binary_opb_u m2r_binary_opb_l
  binary_m2r-gains dst gr64 a h = rw a.gr64_eq (wide_m2r quad dst h)
  binary_m2r-gains dst gr32 a h = rw (a.gr64_eq, a.gr32_eq) (wide_m2r long dst h)
  binary_m2r-gains dst gr16 a h = rw (a.gr64_eq, a.gr32_eq, a.gr16_eq) (wide_m2r word dst h)
  binary_m2r-gains dst xmm_reg a h =
      rw (a.gr64_eq, a.gr32_eq, a.gr16_eq, a.xmm_eq) (wide_m2r xmm dst h)
  binary_m2r-gains dst ymm_reg a h =
      rw (a.gr64_eq, a.gr32_eq, a.gr16_eq, a.xmm_eq, a.ymm_eq) (wide_m2r ymm dst h)
  binary_m2r-gains dst mm_reg a h =
      rw (a.gr64_eq, a.gr32_eq, a.gr16_eq, a.xmm_eq, a.ymm_eq, a.mm_eq) (wide_m2r quad dst h)
  binary_m2r-gains dst lower8 a h =
      rw (a.gr64_eq, a.gr32_eq, a.gr16_eq, a.xmm_eq, a.ymm_eq, a.mm_eq, a.upper8_eq)
        (byte_m2r dst 0 h)
  binary_m2r-gains dst upper8 a h =
      rw (a.gr64_eq, a.gr32_eq, a.gr16_eq, a.xmm_eq, a.ymm_eq, a.mm_eq, a.upper8_eq)
        (byte_m2r dst 1 h)

  wide_r2m :
      (v : Width) (src : Reg)
      → run.write_ea + bytes v ≤ max_addr + 1
      → 2 * bytes v ≤ s.dir.mem_left
      → Outcome laws.model
          (λ r.
            Joined laws s
              (2 * bytes v)
              (gain_mem laws run.write_ea (bytes v) (reg run.tid (reg_indx src)) s)
              r.1)
          (run_calls (r2m_call (r2m_binary v) src) run s)
  wide_r2m v src h room =
      insert_call-Outcome laws.model _ s run _
        (r2m_binary-gains laws s g ok v run.tid run.write_ea (reg_indx src) h room)

  byte_r2m :
      (src : Reg) (d : Class) (i : ℕ)
      → byte_at d 0 ≡ i
      → run.write_ea + 1 ≤ max_addr + 1
      → 2 ≤ s.dir.mem_left
      → Outcome laws.model
          (λ r. Joined laws s 2 (gain_mem laws run.write_ea 1 (reg_byte src d) s) r.1)
          (run_calls (r2m_call (λ tid to from. combine_store tid to from i) src) run s)
  byte_r2m src d i e h room = insert_call-Outcome laws.model _ s run _ (
      combine_store-gains laws s g ok run.tid run.write_ea (reg_indx src) i (reg_byte src d)
        (ap (λ k. reg run.tid (reg_indx src) k) e) (omega arith) room)

  binary_r2m-gains :
      (src : Reg) (d : Class)
      → Answers p src d
      → run.write_ea + class_bytes d ≤ max_addr + 1
      → 2 * class_bytes d ≤ s.dir.mem_left
      → Outcome laws.model
          (λ r.
            Joined laws s
              (2 * class_bytes d)
              (gain_mem laws run.write_ea (class_bytes d) (reg_byte src d) s)
              r.1)
          (run_calls (binary_r2m p src) run s)
  unfolding binary_r2m r2m_binary r2m_binary_opb_u r2m_binary_opb_l
  binary_r2m-gains src gr64 a h m = rw a.gr64_eq (wide_r2m quad src h m)
  binary_r2m-gains src gr32 a h m = rw (a.gr64_eq, a.gr32_eq) (wide_r2m long src h m)
  binary_r2m-gains src gr16 a h m = rw (a.gr64_eq, a.gr32_eq, a.gr16_eq) (wide_r2m word src h m)
  binary_r2m-gains src xmm_reg a h m =
      rw (a.gr64_eq, a.gr32_eq, a.gr16_eq, a.xmm_eq) (wide_r2m xmm src h m)
  binary_r2m-gains src ymm_reg a h m =
      rw (a.gr64_eq, a.gr32_eq, a.gr16_eq, a.xmm_eq, a.ymm_eq) (wide_r2m ymm src h m)
  binary_r2m-gains src mm_reg a h m =
      rw (a.gr64_eq, a.gr32_eq, a.gr16_eq, a.xmm_eq, a.ymm_eq, a.mm_eq) (wide_r2m quad src h m)
  binary_r2m-gains src lower8 a h m =
      rw (a.gr64_eq, a.gr32_eq, a.gr16_eq, a.xmm_eq, a.ymm_eq, a.mm_eq, a.upper8_eq)
        (byte_r2m src lower8 0 refl h m)
  binary_r2m-gains src upper8 a h m =
      rw (a.gr64_eq, a.gr32_eq, a.gr16_eq, a.xmm_eq, a.ymm_eq, a.mm_eq, a.upper8_eq)
        (byte_r2m src upper8 1 refl h m)

-- The offsets after a binary operation of the form: each byte of the target gains those of its byte
-- of the source.
abbrev pub gained :
    {p : Pin} {ins : p.Ins} {o : TagTraits} (laws : TagLaws o) (run : Run)
    → Form p ins run
    → State o
    → Loc
    → ℕ
    → Bool
gained {p} {ins} laws run (regs c d _ _ _ _) s =
    gain_part laws run.tid (reg_indx (p.operand_reg ins 0)) (byte_at c 0) (class_bytes c)
      (λ i. reg run.tid (reg_indx (p.operand_reg ins 1)) (byte_at d i)) s
gained {p} {ins} laws run (load c _ _ _ _) s =
    gain_part laws run.tid (reg_indx (p.operand_reg ins 0)) (byte_at c 0) (class_bytes c)
      (λ i. mem (run.read_ea + i)) s
gained {p} {ins} laws run (store d _ _ _ _) s =
    gain_mem laws run.write_ea (class_bytes d)
      (λ i. reg run.tid (reg_indx (p.operand_reg ins 1)) (byte_at d i)) s

-- In a well-formed state, for a binary operation on two registers of one size, with a source in
-- user memory or a target in it, the calls that `ins_binary_op` inserts give each byte of the target
-- its offsets and those of its byte of the source, at every class of registers; those of all else
-- stay, and the state is well formed, if there is memory for the pages and Pin answers as it
-- documents. They fail only where the tag library cannot combine two tags.
pub ins_binary_op-gains :
    (p : Pin) {o : TagTraits} (laws : TagLaws o) (ins : p.Ins) (run : Run) (s : State o)
    (g : laws.model.Ghost)
    → IsState laws s g
    → PinLaws p
    → p.operand_is_immediate ins 1 ≡ false
    → (f : Form p ins run) → price f ≤ s.dir.mem_left
    → Outcome laws.model
        (λ r. Joined laws s (price f) (gained laws run f s) r.1)
        (run_calls (ins_binary_op p ins) run s)
unfolding ins_binary_op
ins_binary_op-gains p laws ins run s g ok answers not_imm (regs c d none_mem dst src same) room =
    let count : (p.memory_operand_count ins == 0) ≡ true = ground arith in
    rw (not_imm, count)
      (binary_r2r-gains p laws run s g ok _ _ c d (answers _ c dst) (answers _ d src) same)
ins_binary_op-gains p laws ins run s g ok answers not_imm (load c some_mem from dst fits) room =
    rw (not_imm, some_mem, from) (binary_m2r-gains p laws run s g ok _ c (answers _ c dst) fits)
ins_binary_op-gains p laws ins run s g ok answers not_imm (store d some_mem to src fits) room =
    rw (not_imm, some_mem, to) (binary_r2m-gains p laws run s g ok _ d (answers _ d src) fits room)
