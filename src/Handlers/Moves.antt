-- ===== src/Handlers/Moves.antt =====
-- `ins_xfer_op` of src/ins_xfer_op.cpp with the analysis functions that it inserts.
use libdft64_ect.Prelude.{ℕ, ◌+◌, ◌*◌, ◌≤◌, ◌≡◌, ◌≢◌, refl, sym, ap, ◌∙◌, true, Option, ◌==◌, arith}
use libdft64_ect.Tag.{TagTraits}
use libdft64_ect.TagMap.{max_addr}
use libdft64_ect.Machine.{State}
use libdft64_ect.Machine.Loop.{Ends, mono-Ends}
use libdft64_ect.Machine.Effect.{Loc, reg, mem, look, to_mem, Became, EmptyIsCleared}
use libdft64_ect.Ins.Width.{Width, word, long, quad, xmm, ymm, bytes}
use libdft64_ect.Ins.Reg.{Reg, reg_indx}
use libdft64_ect.Ins.Xfer.Moves.{
  r2r_xfer, m2r_xfer, r2m_xfer, r2r_xfer-copies, m2r_xfer-copies, r2m_xfer-copies,
}
use libdft64_ect.Ins.Xfer.Bytes.{to_part, Became-part, copy_reg-Ends, load_reg-Ends, store_reg-Ends}
use libdft64_ect.Ins.Xfer.{
  copy_reg, load_reg, store_reg, r2r_xfer_opb_ul, r2r_xfer_opb_lu, r2r_xfer_opb_u, r2r_xfer_opb_l,
  m2r_xfer_opb_u, m2r_xfer_opb_l, r2m_xfer_opb_u, r2m_xfer_opb_l,
}
use libdft64_ect.Handlers.Pin.{Pin, Run, run_calls, r2r_call, m2r_call, r2m_call}
use libdft64_ect.Handlers.Class.{
  Class, gr64, gr32, gr16, lower8, upper8, xmm_reg, ymm_reg, mm_reg, class_bytes, byte_at, Answers,
  PinLaws,
}
use libdft64_ect.Handlers.Form.{Form, regs, load, store, price, whole, insert_call-Ends}
use libdft64_ect.Handlers.Xfer.{xfer_r2r, xfer_m2r, xfer_r2m, ins_xfer_op}

module _ (p : Pin) {o : TagTraits} (run : Run) (s : State o) where
  abbrev reg_byte : Reg → Class → ℕ → Loc
  reg_byte r c i = reg run.tid (reg_indx r) (byte_at c i)

  wide_r2r :
      (v : Width) (dst src : Reg) (d : Class)
      → bytes v ≡ class_bytes d
      → 1 ≢ bytes v
      → Ends
          (Became s 0
            (to_part run.tid (reg_indx dst) 0 (bytes v) (λ i. look s (reg_byte src d i)) s))
          s
          (run_calls (r2r_call (r2r_xfer v) dst src) run)
  wide_r2r v dst src d e h = insert_call-Ends _ s run _ (
      mono-Ends s (r2r_xfer v run.tid (reg_indx dst) (reg_indx src))
        (r2r_xfer-copies s v run.tid (reg_indx dst) (reg_indx src))
        λ s' b.
          Became-part s run.tid (reg_indx dst) (bytes v) 0
            (λ i. look s (reg run.tid (reg_indx src) i)) (λ i. look s (reg_byte src d i)) s'
            (λ i.
              ap (λ j. look s (reg run.tid (reg_indx src) j)) (whole d i λ z. h (sym z ∙ sym e)))
            b)

  byte_r2r :
      (dst src : Reg) (i j : ℕ) (d : Class)
      → byte_at d 0 ≡ j
      → Ends
          (Became s 0 (to_part run.tid (reg_indx dst) i 1 (λ x. look s (reg_byte src d x)) s))
          s
          (run_calls (r2r_call (λ tid to from. copy_reg tid to i from j) dst src) run)
  byte_r2r dst src i j d e = insert_call-Ends _ s run _ (
      copy_reg-Ends s run.tid (reg_indx dst) i (reg_indx src) j (λ x. look s (reg_byte src d x))
        (ap (λ k. look s (reg run.tid (reg_indx src) k)) e))

  xfer_r2r-Ends :
      (dst src : Reg) (c d : Class)
      → Answers p dst c
      → Answers p src d
      → class_bytes c ≡ class_bytes d
      → Ends
          (Became s 0 (
            to_part run.tid
              (reg_indx dst)
              (byte_at c 0)
              (class_bytes c)
              (λ i. look s (reg_byte src d i))
              s))
          s
          (run_calls (xfer_r2r p dst src) run)
  unfolding xfer_r2r r2r_xfer r2r_xfer_opb_ul r2r_xfer_opb_lu r2r_xfer_opb_u r2r_xfer_opb_l
  xfer_r2r-Ends dst src gr64 d a b e =
      rw a.gr64_eq (wide_r2r quad dst src d e λ z. absurd (omega arith))
  xfer_r2r-Ends dst src gr32 d a b e =
      rw (a.gr64_eq, a.gr32_eq) (wide_r2r long dst src d e λ z. absurd (omega arith))
  xfer_r2r-Ends dst src gr16 d a b e =
      rw (a.gr64_eq, a.gr32_eq, a.gr16_eq) (wide_r2r word dst src d e λ z. absurd (omega arith))
  xfer_r2r-Ends dst src xmm_reg d a b e =
      rw (a.gr64_eq, a.gr32_eq, a.gr16_eq, a.xmm_eq)
        (wide_r2r xmm dst src d e λ z. absurd (omega arith))
  xfer_r2r-Ends dst src ymm_reg d a b e =
      rw (a.gr64_eq, a.gr32_eq, a.gr16_eq, a.xmm_eq, a.ymm_eq)
        (wide_r2r ymm dst src d e λ z. absurd (omega arith))
  xfer_r2r-Ends dst src mm_reg d a b e =
      rw (a.gr64_eq, a.gr32_eq, a.gr16_eq, a.xmm_eq, a.ymm_eq, a.mm_eq)
        (wide_r2r quad dst src d e λ z. absurd (omega arith))
  xfer_r2r-Ends dst src lower8 lower8 a b e =
      rw (a.gr64_eq, a.gr32_eq, a.gr16_eq, a.xmm_eq, a.ymm_eq, a.mm_eq, a.lower8_eq, b.lower8_eq)
        (byte_r2r dst src 0 0 lower8 refl)
  xfer_r2r-Ends dst src lower8 upper8 a b e =
      rw
        (
          a.gr64_eq, a.gr32_eq, a.gr16_eq, a.xmm_eq, a.ymm_eq, a.mm_eq, a.lower8_eq, b.lower8_eq,
          a.upper8_eq,
        )
        (byte_r2r dst src 0 1 upper8 refl)
  xfer_r2r-Ends dst src upper8 lower8 a b e =
      rw
        (
          a.gr64_eq, a.gr32_eq, a.gr16_eq, a.xmm_eq, a.ymm_eq, a.mm_eq, a.lower8_eq, a.upper8_eq,
          b.upper8_eq,
        )
        (byte_r2r dst src 1 0 lower8 refl)
  xfer_r2r-Ends dst src upper8 upper8 a b e =
      rw
        (
          a.gr64_eq, a.gr32_eq, a.gr16_eq, a.xmm_eq, a.ymm_eq, a.mm_eq, a.lower8_eq, a.upper8_eq,
          b.upper8_eq,
        )
        (byte_r2r dst src 1 1 upper8 refl)
  xfer_r2r-Ends dst src _ _ a b e = absurd (omega arith)

  wide_m2r :
      (v : Width) (dst : Reg)
      → run.read_ea + bytes v ≤ max_addr + 1
      → Ends
          (Became s 0
            (to_part run.tid (reg_indx dst) 0 (bytes v) (λ i. look s (mem (run.read_ea + i))) s))
          s
          (run_calls (m2r_call (m2r_xfer v) dst) run)
  wide_m2r v dst h = insert_call-Ends _ s run _ (
      mono-Ends s (m2r_xfer v run.tid (reg_indx dst) run.read_ea)
        (m2r_xfer-copies s v run.tid (reg_indx dst) run.read_ea h)
        λ s' b.
          Became-part s run.tid (reg_indx dst) (bytes v) 0 (λ i. look s (mem (run.read_ea + i)))
            (λ i. look s (mem (run.read_ea + i))) s' (λ i. refl) b)

  byte_m2r :
      (dst : Reg) (i : ℕ)
      → run.read_ea + 1 ≤ max_addr + 1
      → Ends
          (Became s 0 (to_part run.tid (reg_indx dst) i 1 (λ x. look s (mem (run.read_ea + x))) s))
          s
          (run_calls (m2r_call (λ tid to from. load_reg tid to i from) dst) run)
  byte_m2r dst i h = insert_call-Ends _ s run _ (
      load_reg-Ends s run.tid (reg_indx dst) i run.read_ea (λ x. look s (mem (run.read_ea + x)))
        (ap (λ k. look s (mem k)) (omega arith)) (omega arith))

  xfer_m2r-Ends :
      (dst : Reg) (c : Class)
      → Answers p dst c
      → run.read_ea + class_bytes c ≤ max_addr + 1
      → Ends
          (Became s 0 (
            to_part run.tid
              (reg_indx dst)
              (byte_at c 0)
              (class_bytes c)
              (λ i. look s (mem (run.read_ea + i)))
              s))
          s
          (run_calls (xfer_m2r p dst) run)
  unfolding xfer_m2r m2r_xfer m2r_xfer_opb_u m2r_xfer_opb_l
  xfer_m2r-Ends dst gr64 a h = rw a.gr64_eq (wide_m2r quad dst h)
  xfer_m2r-Ends dst gr32 a h = rw (a.gr64_eq, a.gr32_eq) (wide_m2r long dst h)
  xfer_m2r-Ends dst gr16 a h = rw (a.gr64_eq, a.gr32_eq, a.gr16_eq) (wide_m2r word dst h)
  xfer_m2r-Ends dst xmm_reg a h =
      rw (a.gr64_eq, a.gr32_eq, a.gr16_eq, a.xmm_eq) (wide_m2r xmm dst h)
  xfer_m2r-Ends dst ymm_reg a h =
      rw (a.gr64_eq, a.gr32_eq, a.gr16_eq, a.xmm_eq, a.ymm_eq) (wide_m2r ymm dst h)
  xfer_m2r-Ends dst mm_reg a h =
      rw (a.gr64_eq, a.gr32_eq, a.gr16_eq, a.xmm_eq, a.ymm_eq, a.mm_eq) (wide_m2r quad dst h)
  xfer_m2r-Ends dst lower8 a h =
      rw (a.gr64_eq, a.gr32_eq, a.gr16_eq, a.xmm_eq, a.ymm_eq, a.mm_eq, a.upper8_eq)
        (byte_m2r dst 0 h)
  xfer_m2r-Ends dst upper8 a h =
      rw (a.gr64_eq, a.gr32_eq, a.gr16_eq, a.xmm_eq, a.ymm_eq, a.mm_eq, a.upper8_eq)
        (byte_m2r dst 1 h)

  module _ (empty_eq : EmptyIsCleared o) where
    wide_r2m :
        (v : Width) (src : Reg)
        → run.write_ea + bytes v ≤ max_addr + 1
        → 2 * bytes v ≤ s.dir.mem_left
        → Ends
            (Became s
              (2 * bytes v)
              (to_mem run.write_ea (bytes v) (λ i. look s (reg run.tid (reg_indx src) i)) s))
            s
            (run_calls (r2m_call (r2m_xfer v) src) run)
    wide_r2m v src h room =
        insert_call-Ends _ s run _
          (r2m_xfer-copies s empty_eq v run.tid run.write_ea (reg_indx src) h room)

    byte_r2m :
        (src : Reg) (d : Class) (i : ℕ)
        → byte_at d 0 ≡ i
        → run.write_ea + 1 ≤ max_addr + 1
        → 2 ≤ s.dir.mem_left
        → Ends
            (Became s 2 (to_mem run.write_ea 1 (λ x. look s (reg_byte src d x)) s))
            s
            (run_calls (r2m_call (λ tid to from. store_reg tid to from i) src) run)
    byte_r2m src d i e h room = insert_call-Ends _ s run _ (
        store_reg-Ends s run.tid run.write_ea (reg_indx src) i (λ x. look s (reg_byte src d x))
          (ap (λ k. look s (reg run.tid (reg_indx src) k)) e) empty_eq (omega arith) room)

    xfer_r2m-Ends :
        (src : Reg) (d : Class)
        → Answers p src d
        → run.write_ea + class_bytes d ≤ max_addr + 1
        → 2 * class_bytes d ≤ s.dir.mem_left
        → Ends
            (Became s
              (2 * class_bytes d)
              (to_mem run.write_ea (class_bytes d) (λ i. look s (reg_byte src d i)) s))
            s
            (run_calls (xfer_r2m p src) run)
    unfolding xfer_r2m r2m_xfer r2m_xfer_opb_u r2m_xfer_opb_l
    xfer_r2m-Ends src gr64 a h m = rw a.gr64_eq (wide_r2m quad src h m)
    xfer_r2m-Ends src gr32 a h m = rw (a.gr64_eq, a.gr32_eq) (wide_r2m long src h m)
    xfer_r2m-Ends src gr16 a h m = rw (a.gr64_eq, a.gr32_eq, a.gr16_eq) (wide_r2m word src h m)
    xfer_r2m-Ends src xmm_reg a h m =
        rw (a.gr64_eq, a.gr32_eq, a.gr16_eq, a.xmm_eq) (wide_r2m xmm src h m)
    xfer_r2m-Ends src ymm_reg a h m =
        rw (a.gr64_eq, a.gr32_eq, a.gr16_eq, a.xmm_eq, a.ymm_eq) (wide_r2m ymm src h m)
    xfer_r2m-Ends src mm_reg a h m =
        rw (a.gr64_eq, a.gr32_eq, a.gr16_eq, a.xmm_eq, a.ymm_eq, a.mm_eq) (wide_r2m quad src h m)
    xfer_r2m-Ends src lower8 a h m =
        rw (a.gr64_eq, a.gr32_eq, a.gr16_eq, a.xmm_eq, a.ymm_eq, a.mm_eq, a.upper8_eq)
          (byte_r2m src lower8 0 refl h m)
    xfer_r2m-Ends src upper8 a h m =
        rw (a.gr64_eq, a.gr32_eq, a.gr16_eq, a.xmm_eq, a.ymm_eq, a.mm_eq, a.upper8_eq)
          (byte_r2m src upper8 1 refl h m)

-- The tags after a move of the form: those of the bytes of the target are those of the source.
abbrev pub moved :
    {p : Pin} {ins : p.Ins} {o : TagTraits} (run : Run)
    → Form p ins run
    → State o
    → Loc
    → Option o.Tag
moved {p} {ins} run (regs c d _ _ _ _) s =
    to_part run.tid (reg_indx (p.operand_reg ins 0)) (byte_at c 0) (class_bytes c)
      (λ i. look s (reg run.tid (reg_indx (p.operand_reg ins 1)) (byte_at d i))) s
moved {p} {ins} run (load c _ _ _ _) s =
    to_part run.tid (reg_indx (p.operand_reg ins 0)) (byte_at c 0) (class_bytes c)
      (λ i. look s (mem (run.read_ea + i))) s
moved {p} {ins} run (store d _ _ _ _) s =
    to_mem run.write_ea (class_bytes d)
      (λ i. look s (reg run.tid (reg_indx (p.operand_reg ins 1)) (byte_at d i))) s

-- For a move between two registers of one size, from user memory or to it, the calls that
-- `ins_xfer_op` inserts give each byte of the target the tag of its byte of the source, at every class of
-- registers, and change no other tag, if there is memory for the pages, the empty tag is the cleared
-- one and Pin answers as it documents.
pub ins_xfer_op-copies :
    (p : Pin) {o : TagTraits} (ins : p.Ins) (run : Run) (s : State o)
    → PinLaws p
    → EmptyIsCleared o
    → (f : Form p ins run) → price f ≤ s.dir.mem_left
    → Ends (Became s (price f) (moved run f s)) s (run_calls (ins_xfer_op p ins) run)
unfolding ins_xfer_op
ins_xfer_op-copies p ins run s laws empty_eq (regs c d none_mem dst src same) room =
    let count : (p.memory_operand_count ins == 0) ≡ true = ground arith in
    rw count (xfer_r2r-Ends p run s _ _ c d (laws _ c dst) (laws _ d src) same)
ins_xfer_op-copies p ins run s laws empty_eq (load c some_mem from dst fits) room =
    rw (some_mem, from) (xfer_m2r-Ends p run s _ c (laws _ c dst) fits)
ins_xfer_op-copies p ins run s laws empty_eq (store d some_mem to src fits) room =
    rw (some_mem, to) (xfer_r2m-Ends p run s empty_eq _ d (laws _ d src) fits room)
