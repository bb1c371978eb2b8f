-- ===== src/Ins/Xchg.antt =====
-- The analysis functions of src/ins_xchg_op.cpp for exchanges. The source's names have a leading
-- underscore.
pub mod Swap
pub mod Regs
pub mod Compare
pub mod Bytes
pub mod Add
pub mod CompareMem
use libdft64_ect.Prelude.{ℕ, zero, suc, ◌+◌, ◌%◌, ◌^◌, Bool, ◌==◌, if◌then◌else◌}
use libdft64_ect.Tag.{TagTraits}
use libdft64_ect.Machine.{
  State, Cmd, add64, pure, ◌>>=◌, ◌>>◌, for_up, tagmap_getb_reg, tagmap_setb_reg, tagmap_getb,
  tagmap_setb,
}
use libdft64_ect.Ins.Xfer.{dft_reg_rax, r2r_xfer_opl, r2r_xfer_opq}
use libdft64_ect.Ins.Movsx.{fill_reg}

abbrev pub dft_reg_helper1 : ℕ
dft_reg_helper1 = 0

module _ {o : TagTraits} where
  -- `tag_t tags[] = RnTAG(src); for (i = 0; i < n; i++) RTAG[dst][i] = tags[i]`.
  unfoldable pub move_tags : ℕ → ℕ → ℕ → ℕ → Cmd o (Unit {0})
  unfolding fill_reg
  move_tags n tid dst src s = fill_reg n tid dst (s.gpr tid src) s

  -- The array `MnTAG(addr)` from index `i` on.
  unfoldable pub read_tags : ℕ → ℕ → ℕ → Cmd o (ℕ → o.Tag)
  unfolding tagmap_getb
  read_tags zero i addr = pure (λ _. o.cleared_val)
  read_tags (suc n) i addr = do
    t ← tagmap_getb (add64 addr i)
    tags ← read_tags n (i + 1) addr
    pure (λ j. if j == i then t else tags j)

  -- `tagmap_setb(addr, tags[0]); ...; tagmap_setb(addr + n - 1, tags[n - 1])`.
  unfoldable pub store_tags : ℕ → ℕ → (ℕ → o.Tag) → Cmd o (Unit {0})
  unfolding for_up tagmap_setb
  store_tags n addr tags = for_up n 0 (λ i. tagmap_setb (add64 addr i) (tags i))

  pub xchg_r2r_opb_ul : ℕ → ℕ → ℕ → Cmd o (Unit {0})
  unfolding tagmap_getb_reg tagmap_setb_reg
  xchg_r2r_opb_ul tid dst src = do
    tmp_tag ← tagmap_getb_reg tid dst 1
    src_tag ← tagmap_getb_reg tid src 0
    tagmap_setb_reg tid dst 1 src_tag
    tagmap_setb_reg tid src 0 tmp_tag

  pub xchg_r2r_opb_lu : ℕ → ℕ → ℕ → Cmd o (Unit {0})
  unfolding tagmap_getb_reg tagmap_setb_reg
  xchg_r2r_opb_lu tid dst src = do
    tmp_tag ← tagmap_getb_reg tid dst 0
    src_tag ← tagmap_getb_reg tid src 1
    tagmap_setb_reg tid dst 0 src_tag
    tagmap_setb_reg tid src 1 tmp_tag

  pub xchg_r2r_opb_u : ℕ → ℕ → ℕ → Cmd o (Unit {0})
  unfolding tagmap_getb_reg tagmap_setb_reg
  xchg_r2r_opb_u tid dst src = do
    tmp_tag ← tagmap_getb_reg tid dst 1
    src_tag ← tagmap_getb_reg tid src 1
    tagmap_setb_reg tid dst 1 src_tag
    tagmap_setb_reg tid src 1 tmp_tag

  pub xchg_r2r_opb_l : ℕ → ℕ → ℕ → Cmd o (Unit {0})
  unfolding tagmap_getb_reg tagmap_setb_reg
  xchg_r2r_opb_l tid dst src = do
    tmp_tag ← tagmap_getb_reg tid dst 0
    src_tag ← tagmap_getb_reg tid src 0
    tagmap_setb_reg tid dst 0 src_tag
    tagmap_setb_reg tid src 0 tmp_tag

  pub xchg_r2r_opw : ℕ → ℕ → ℕ → Cmd o (Unit {0})
  unfolding fill_reg
  xchg_r2r_opw tid dst src s =
      (fill_reg 2 tid dst (s.gpr tid src) >> fill_reg 2 tid src (s.gpr tid dst)) s

  -- The calls that `ins_xchg_op` inserts for wider registers, with register 0 as scratch.
  pub xchg_r2r_opl : ℕ → ℕ → ℕ → Cmd o (Unit {0})
  xchg_r2r_opl tid dst src = do
    r2r_xfer_opl tid 0 dst
    r2r_xfer_opl tid dst src
    r2r_xfer_opl tid src 0

  pub xchg_r2r_opq : ℕ → ℕ → ℕ → Cmd o (Unit {0})
  xchg_r2r_opq tid dst src = do
    r2r_xfer_opq tid 0 dst
    r2r_xfer_opq tid dst src
    r2r_xfer_opq tid src 0

  pub xchg_m2r_opb_u : ℕ → ℕ → ℕ → Cmd o (Unit {0})
  unfolding tagmap_getb_reg tagmap_setb_reg tagmap_getb tagmap_setb
  xchg_m2r_opb_u tid dst src = do
    tmp_tag ← tagmap_getb_reg tid dst 1
    src_tag ← tagmap_getb src
    tagmap_setb_reg tid dst 1 src_tag
    tagmap_setb src tmp_tag

  pub xchg_m2r_opb_l : ℕ → ℕ → ℕ → Cmd o (Unit {0})
  unfolding tagmap_getb_reg tagmap_setb_reg tagmap_getb tagmap_setb
  xchg_m2r_opb_l tid dst src = do
    tmp_tag ← tagmap_getb_reg tid dst 0
    src_tag ← tagmap_getb src
    tagmap_setb_reg tid dst 0 src_tag
    tagmap_setb src tmp_tag

  -- The three wider functions.
  pub xchg_m2r : ℕ → ℕ → ℕ → ℕ → Cmd o (Unit {0})
  unfolding read_tags fill_reg store_tags
  xchg_m2r n tid dst src s =
      (read_tags n 0 src >>= λ src_tag.
      fill_reg n tid dst src_tag >> store_tags n src (s.gpr tid dst))
        s

  pub xchg_m2r_opw : ℕ → ℕ → ℕ → Cmd o (Unit {0})
  unfolding xchg_m2r
  xchg_m2r_opw = xchg_m2r 2

  pub xchg_m2r_opl : ℕ → ℕ → ℕ → Cmd o (Unit {0})
  unfolding xchg_m2r
  xchg_m2r_opl = xchg_m2r 4

  pub xchg_m2r_opq : ℕ → ℕ → ℕ → Cmd o (Unit {0})
  unfolding xchg_m2r
  xchg_m2r_opq = xchg_m2r 8

  pub cmpxchg_r2r_opq_fast : ℕ → ℕ → ℕ → ℕ → Cmd o Bool
  unfolding move_tags
  cmpxchg_r2r_opq_fast tid dst_val src src_val = do
    move_tags 8 tid dft_reg_helper1 dft_reg_rax
    move_tags 8 tid dft_reg_rax src
    pure (dst_val % 2 ^ 32 == src_val % 2 ^ 32)

  pub cmpxchg_r2r_opq_slow : ℕ → ℕ → ℕ → Cmd o (Unit {0})
  unfolding move_tags
  cmpxchg_r2r_opq_slow tid dst src = do
    move_tags 8 tid dft_reg_rax dft_reg_helper1
    move_tags 8 tid dst src

  pub cmpxchg_r2r_opl_fast : ℕ → ℕ → ℕ → ℕ → Cmd o Bool
  unfolding move_tags
  cmpxchg_r2r_opl_fast tid dst_val src src_val = do
    move_tags 4 tid dft_reg_helper1 dft_reg_rax
    move_tags 4 tid dft_reg_rax src
    pure (dst_val % 2 ^ 32 == src_val % 2 ^ 32)

  pub cmpxchg_r2r_opl_slow : ℕ → ℕ → ℕ → Cmd o (Unit {0})
  unfolding move_tags
  cmpxchg_r2r_opl_slow tid dst src = do
    move_tags 4 tid dft_reg_rax dft_reg_helper1
    move_tags 4 tid dst src

  pub cmpxchg_r2r_opw_fast : ℕ → ℕ → ℕ → ℕ → Cmd o Bool
  unfolding move_tags
  cmpxchg_r2r_opw_fast tid dst_val src src_val = do
    move_tags 4 tid dft_reg_helper1 dft_reg_rax
    move_tags 2 tid dft_reg_rax src
    pure (dst_val % 2 ^ 16 == src_val % 2 ^ 16)

  pub cmpxchg_r2r_opw_slow : ℕ → ℕ → ℕ → Cmd o (Unit {0})
  unfolding move_tags
  cmpxchg_r2r_opw_slow tid dst src = do
    move_tags 4 tid dft_reg_rax dft_reg_helper1
    move_tags 2 tid dst src

  -- The two calls of `ins_cmpxchg_op`: the second only if the first says so.
  pub cmpxchg_r2r_opq : ℕ → ℕ → ℕ → ℕ → ℕ → Cmd o (Unit {0})
  unfolding cmpxchg_r2r_opq_fast cmpxchg_r2r_opq_slow
  cmpxchg_r2r_opq tid eax dst dst_val src = do
    same ← cmpxchg_r2r_opq_fast tid eax dst dst_val
    (if same then cmpxchg_r2r_opq_slow tid dst src else pure tt)

  -- The two calls of `ins_cmpxchg_op`: the second only if the first says so.
  pub cmpxchg_r2r_opl : ℕ → ℕ → ℕ → ℕ → ℕ → Cmd o (Unit {0})
  unfolding cmpxchg_r2r_opl_fast cmpxchg_r2r_opl_slow
  cmpxchg_r2r_opl tid eax dst dst_val src = do
    same ← cmpxchg_r2r_opl_fast tid eax dst dst_val
    (if same then cmpxchg_r2r_opl_slow tid dst src else pure tt)

  -- The two calls of `ins_cmpxchg_op`: the second only if the first says so.
  pub cmpxchg_r2r_opw : ℕ → ℕ → ℕ → ℕ → ℕ → Cmd o (Unit {0})
  unfolding cmpxchg_r2r_opw_fast cmpxchg_r2r_opw_slow
  cmpxchg_r2r_opw tid eax dst dst_val src = do
    same ← cmpxchg_r2r_opw_fast tid eax dst dst_val
    (if same then cmpxchg_r2r_opw_slow tid dst src else pure tt)
