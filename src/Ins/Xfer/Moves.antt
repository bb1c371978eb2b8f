-- ===== src/Ins/Xfer/Moves.antt =====
-- The moves of src/ins_xfer_op.cpp at every operand width.
use libdft64_ect.Prelude.{ℕ, ◌+◌, ◌*◌, ◌≤◌, ◌≡◌, refl, sym, arith}
use libdft64_ect.Tag.{TagTraits}
use libdft64_ect.TagMap.{max_addr}
use libdft64_ect.Machine.{State, Cmd, add64, tagmap_setb}
use libdft64_ect.Machine.Loop.{Ends, >>-Ends}
use libdft64_ect.Machine.Effect.{
  reg, mem, EmptyIsCleared, look, to_reg, to_mem, Became, Became-none_mem, setb-next,
}
use libdft64_ect.Ins.Width.{Width, word, long, quad, xmm, ymm, bytes}
use libdft64_ect.Ins.Xfer.{
  r2r_xfer_opw, r2r_xfer_opl, r2r_xfer_opq, r2r_xfer_opx, r2r_xfer_opy, m2r_xfer_opw, m2r_xfer_opl,
  m2r_xfer_opq, m2r_xfer_opx, m2r_xfer_opy, r2m_xfer_opw, r2m_xfer_opl, r2m_xfer_opq, r2m_xfer_opx,
  r2m_xfer_opy, m2m_xfer_opw, m2m_xfer_opl, m2m_xfer_opq, store_reg,
}
use libdft64_ect.Ins.Xfer.Copy.{r2r_loop-Ends, m2r_loop-Ends, r2m_loop-Ends}

-- The widths of the string moves.
pub data Part : Type 0 where
  words longs quads : Part

abbrev pub size : Part → ℕ
size words = 2
size longs = 4
size quads = 8

module _ {o : TagTraits} where
  unfoldable pub m2m_xfer : Part → ℕ → ℕ → Cmd o (Unit {0})
  m2m_xfer words = m2m_xfer_opw
  m2m_xfer longs = m2m_xfer_opl
  m2m_xfer quads = m2m_xfer_opq

  unfoldable pub r2r_xfer : Width → ℕ → ℕ → ℕ → Cmd o (Unit {0})
  r2r_xfer word = r2r_xfer_opw
  r2r_xfer long = r2r_xfer_opl
  r2r_xfer quad = r2r_xfer_opq
  r2r_xfer xmm = r2r_xfer_opx
  r2r_xfer ymm = r2r_xfer_opy

  unfoldable pub m2r_xfer : Width → ℕ → ℕ → ℕ → Cmd o (Unit {0})
  m2r_xfer word = m2r_xfer_opw
  m2r_xfer long = m2r_xfer_opl
  m2r_xfer quad = m2r_xfer_opq
  m2r_xfer xmm = m2r_xfer_opx
  m2r_xfer ymm = m2r_xfer_opy

  unfoldable pub r2m_xfer : Width → ℕ → ℕ → ℕ → Cmd o (Unit {0})
  r2m_xfer word = r2m_xfer_opw
  r2m_xfer long = r2m_xfer_opl
  r2m_xfer quad = r2m_xfer_opq
  r2m_xfer xmm = r2m_xfer_opx
  r2m_xfer ymm = r2m_xfer_opy

  module _ (s : State o) where
    -- A register move at any width gives the first bytes of the target the tags that those of the
    -- source had, also where both are one register; no other tag, nor the tag library, changes.
    pub r2r_xfer-copies :
        (v : Width) (tid dst src : ℕ)
        → Ends
            (Became s 0 (to_reg tid dst (bytes v) (λ i. look s (reg tid src i)) s))
            s
            (r2r_xfer v tid dst src)
    unfolding r2r_xfer r2r_xfer_opw r2r_xfer_opl r2r_xfer_opq r2r_xfer_opx r2r_xfer_opy
    r2r_xfer-copies word tid dst src = r2r_loop-Ends s 2 tid dst src
    r2r_xfer-copies long tid dst src = r2r_loop-Ends s 4 tid dst src
    r2r_xfer-copies quad tid dst src = r2r_loop-Ends s 8 tid dst src
    r2r_xfer-copies xmm tid dst src = r2r_loop-Ends s 16 tid dst src
    r2r_xfer-copies ymm tid dst src = r2r_loop-Ends s 32 tid dst src

    -- A load from user memory, at any width, gives the first bytes of the register the tags of the bytes
    -- of memory; no other tag, nor the tag library, changes.
    pub m2r_xfer-copies :
        (v : Width) (tid dst src : ℕ)
        → src + bytes v ≤ max_addr + 1
        → Ends
            (Became s 0 (to_reg tid dst (bytes v) (λ i. look s (mem (src + i))) s))
            s
            (m2r_xfer v tid dst src)
    unfolding m2r_xfer m2r_xfer_opw m2r_xfer_opl m2r_xfer_opq m2r_xfer_opx m2r_xfer_opy
    m2r_xfer-copies word tid dst src h = m2r_loop-Ends s 2 tid dst src h
    m2r_xfer-copies long tid dst src h = m2r_loop-Ends s 4 tid dst src h
    m2r_xfer-copies quad tid dst src h = m2r_loop-Ends s 8 tid dst src h
    m2r_xfer-copies xmm tid dst src h = m2r_loop-Ends s 16 tid dst src h
    m2r_xfer-copies ymm tid dst src h = m2r_loop-Ends s 32 tid dst src h

    module _ (empty_eq : EmptyIsCleared o) where
      r2m_xfer_opw-Ends :
          (tid dst src : ℕ)
          → dst + 2 ≤ max_addr + 1
          → 4 ≤ s.dir.mem_left
          → Ends
              (Became s 4 (to_mem dst 2 (λ i. look s (reg tid src i)) s))
              s
              (r2m_xfer_opw tid dst src)
      unfolding r2m_xfer_opw
      r2m_xfer_opw-Ends tid dst src h room =
          let at : add64 dst 0 ≡ dst = omega arith in
          let first : Ends (Became s 2 (to_mem dst 1 (λ i. look s (reg tid src i)) s)) s
              (tagmap_setb (add64 dst 0) (s.gpr tid src 0)) =
            setb-next s s dst 0 0 (λ i. look s (reg tid src i)) (s.gpr tid src 0) empty_eq
              (omega arith) (omega arith) (Became-none_mem s dst (λ i. look s (reg tid src i)))
              refl in
          >>-Ends s (store_reg tid dst src 0) (store_reg tid (add64 dst 1) src 1) (rw at at first)
            λ s1 b1.
              setb-next s s1 dst 1 2 (λ i. look s (reg tid src i)) (s1.gpr tid src 1) empty_eq
                (omega arith) (omega (arith, b1.memory)) b1 (sym (b1.tags (reg tid src 1)))

      -- A store to user memory gives the bytes of memory the tags of the register's first bytes, and
      -- changes no other, if there is memory for the pages and the empty tag is the cleared one.
      pub r2m_xfer-copies :
          (v : Width) (tid dst src : ℕ)
          → dst + bytes v ≤ max_addr + 1
          → 2 * bytes v ≤ s.dir.mem_left
          → Ends
              (Became s (2 * bytes v) (to_mem dst (bytes v) (λ i. look s (reg tid src i)) s))
              s
              (r2m_xfer v tid dst src)
      unfolding r2m_xfer r2m_xfer_opl r2m_xfer_opq r2m_xfer_opx r2m_xfer_opy
      r2m_xfer-copies word tid dst src h m = r2m_xfer_opw-Ends tid dst src h m
      r2m_xfer-copies long tid dst src h m = r2m_loop-Ends s empty_eq 4 tid dst src h m
      r2m_xfer-copies quad tid dst src h m = r2m_loop-Ends s empty_eq 8 tid dst src h m
      r2m_xfer-copies xmm tid dst src h m = r2m_loop-Ends s empty_eq 16 tid dst src h m
      r2m_xfer-copies ymm tid dst src h m = r2m_loop-Ends s empty_eq 32 tid dst src h m
