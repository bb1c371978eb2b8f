-- ===== src/Ins/Xchg/Add.antt =====
-- The analysis functions of src/ins_xchg_op.cpp for `XADD`. The source's names have a leading
-- underscore.
use libdft64_ect.Prelude.{ℕ}
use libdft64_ect.Tag.{TagTraits}
use libdft64_ect.Machine.{
  Cmd, add64, ◌>>=◌, ◌>>◌, for_up, combine, tagmap_getb_reg, tagmap_setb_reg, tagmap_getb,
  tagmap_setb,
}
use libdft64_ect.Ins.Movsx.{fill_reg}
use libdft64_ect.Ins.Xchg.{read_tags}

module _ {o : TagTraits} where
  -- One byte of each register.
  pub xadd_byte : ℕ → ℕ → ℕ → ℕ → ℕ → Cmd o (Unit {0})
  unfolding tagmap_getb_reg tagmap_setb_reg combine
  xadd_byte tid dst i src j = do
    tmp_tag ← tagmap_getb_reg tid dst i
    src_tag ← tagmap_getb_reg tid src j
    r ← combine tmp_tag src_tag tid
    tagmap_setb_reg tid dst i r
    tagmap_setb_reg tid src j tmp_tag

  pub xadd_r2r_opb_ul : ℕ → ℕ → ℕ → Cmd o (Unit {0})
  unfolding xadd_byte
  xadd_r2r_opb_ul tid dst src = xadd_byte tid dst 1 src 0

  pub xadd_r2r_opb_lu : ℕ → ℕ → ℕ → Cmd o (Unit {0})
  unfolding xadd_byte
  xadd_r2r_opb_lu tid dst src = xadd_byte tid dst 0 src 1

  pub xadd_r2r_opb_u : ℕ → ℕ → ℕ → Cmd o (Unit {0})
  unfolding xadd_byte
  xadd_r2r_opb_u tid dst src = xadd_byte tid dst 1 src 1

  pub xadd_r2r_opb_l : ℕ → ℕ → ℕ → Cmd o (Unit {0})
  unfolding xadd_byte
  xadd_r2r_opb_l tid dst src = xadd_byte tid dst 0 src 0

  pub xadd_r2r_opw : ℕ → ℕ → ℕ → Cmd o (Unit {0})
  unfolding combine tagmap_setb_reg fill_reg
  xadd_r2r_opw tid dst src s =
      (for_up 2 0
            (λ i. combine (s.gpr tid dst i) (s.gpr tid src i) tid >>= tagmap_setb_reg tid dst i)
          >> fill_reg 2 tid src (s.gpr tid dst))
        s

  -- The loop of the two wider functions, over the tags before it.
  pub xadd_regs : ℕ → ℕ → ℕ → ℕ → Cmd o (Unit {0})
  unfolding for_up combine tagmap_setb_reg
  xadd_regs n tid dst src s =
      for_up n 0
        (λ i. combine (s.gpr tid dst i) (s.gpr tid src i) tid >>= λ r.
          (tagmap_setb_reg tid dst i r >> tagmap_setb_reg tid src i (s.gpr tid dst i)))
        s

  pub xadd_r2r_opl : ℕ → ℕ → ℕ → Cmd o (Unit {0})
  unfolding xadd_regs
  xadd_r2r_opl = xadd_regs 4

  pub xadd_r2r_opq : ℕ → ℕ → ℕ → Cmd o (Unit {0})
  unfolding xadd_regs
  xadd_r2r_opq = xadd_regs 8

  -- The register's byte `i` and a byte of memory.
  pub xadd_mem_byte : ℕ → ℕ → ℕ → ℕ → Cmd o (Unit {0})
  unfolding tagmap_getb_reg tagmap_setb_reg tagmap_getb tagmap_setb combine
  xadd_mem_byte tid dst src i = do
    src_tag ← tagmap_getb_reg tid src i
    dst_tag ← tagmap_getb dst
    tagmap_setb_reg tid src i dst_tag
    r ← combine dst_tag src_tag tid
    tagmap_setb dst r

  pub xadd_r2m_opb_u : ℕ → ℕ → ℕ → Cmd o (Unit {0})
  unfolding xadd_mem_byte
  xadd_r2m_opb_u tid dst src = xadd_mem_byte tid dst src 1

  pub xadd_r2m_opb_l : ℕ → ℕ → ℕ → Cmd o (Unit {0})
  unfolding xadd_mem_byte
  xadd_r2m_opb_l tid dst src = xadd_mem_byte tid dst src 0

  pub xadd_r2m_opw : ℕ → ℕ → ℕ → Cmd o (Unit {0})
  unfolding read_tags fill_reg combine tagmap_setb for_up
  xadd_r2m_opw tid dst src s =
      (read_tags 2 0 dst >>= λ dst_tag.
      fill_reg 2 tid src dst_tag
      >> for_up 2 0 (λ i. combine (dst_tag i) (s.gpr tid src i) tid >>= tagmap_setb (add64 dst i)))
        s

  -- The two wider functions.
  pub xadd_mem : ℕ → ℕ → ℕ → ℕ → Cmd o (Unit {0})
  unfolding read_tags tagmap_setb_reg combine tagmap_setb for_up
  xadd_mem n tid dst src s =
      (read_tags n 0 dst >>= λ dst_tag. for_up n 0 (λ i.
          combine (dst_tag i) (s.gpr tid src i) tid >>= λ r.
          (tagmap_setb (add64 dst i) r >> tagmap_setb_reg tid src i (dst_tag i))))
        s

  pub xadd_r2m_opl : ℕ → ℕ → ℕ → Cmd o (Unit {0})
  unfolding xadd_mem
  xadd_r2m_opl = xadd_mem 4

  pub xadd_r2m_opq : ℕ → ℕ → ℕ → Cmd o (Unit {0})
  unfolding xadd_mem
  xadd_r2m_opq = xadd_mem 8
