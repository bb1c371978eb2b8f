-- ===== src/Ins/Xfer.antt =====
-- The analysis functions of src/ins_xfer_op.cpp, which copy the tags of a move, a push or pop, a
-- string store or a byte swap.
pub mod Copy
pub mod Bytes
pub mod Moves
use libdft64_ect.Prelude.{ℕ, zero, suc, ◌+◌, ◌-◌, ◌*◌, ◌%◌, ◌^◌, ◌/◌, ◌==◌, if◌then◌else◌}
use libdft64_ect.Tag.{TagTraits}
use libdft64_ect.Machine.{
  Cmd, add64, ◌>>=◌, ◌>>◌, for_up, tagmap_getb_reg, tagmap_setb_reg, tagmap_getb, tagmap_setb,
}

abbrev pub dft_reg_rax : ℕ
dft_reg_rax = 10

module _ {o : TagTraits} where
  -- `RTAG[dst][i] = RTAG[src][j]`.
  unfoldable pub copy_reg : ℕ → ℕ → ℕ → ℕ → ℕ → Cmd o (Unit {0})
  unfolding tagmap_getb_reg tagmap_setb_reg
  copy_reg tid dst i src j = do t ← tagmap_getb_reg tid src j; tagmap_setb_reg tid dst i t

  -- `RTAG[dst][i] = MTAG(addr)`.
  unfoldable pub load_reg : ℕ → ℕ → ℕ → ℕ → Cmd o (Unit {0})
  unfolding tagmap_getb tagmap_setb_reg
  load_reg tid dst i addr = do t ← tagmap_getb addr; tagmap_setb_reg tid dst i t

  -- `tagmap_setb(addr, RTAG[src][i])`.
  unfoldable pub store_reg : ℕ → ℕ → ℕ → ℕ → Cmd o (Unit {0})
  unfolding tagmap_getb_reg tagmap_setb
  store_reg tid addr src i = do t ← tagmap_getb_reg tid src i; tagmap_setb addr t

  -- `tagmap_setb(dst, MTAG(src))`.
  unfoldable pub copy_mem : ℕ → ℕ → Cmd o (Unit {0})
  unfolding tagmap_getb tagmap_setb
  copy_mem dst src = do t ← tagmap_getb src; tagmap_setb dst t

  unfoldable pub r2r_xfer_opb_ul : ℕ → ℕ → ℕ → Cmd o (Unit {0})
  unfolding copy_reg
  r2r_xfer_opb_ul tid dst src = copy_reg tid dst 1 src 0

  unfoldable pub r2r_xfer_opb_lu : ℕ → ℕ → ℕ → Cmd o (Unit {0})
  unfolding copy_reg
  r2r_xfer_opb_lu tid dst src = copy_reg tid dst 0 src 1

  unfoldable pub r2r_xfer_opb_u : ℕ → ℕ → ℕ → Cmd o (Unit {0})
  unfolding copy_reg
  r2r_xfer_opb_u tid dst src = copy_reg tid dst 1 src 1

  unfoldable pub r2r_xfer_opb_l : ℕ → ℕ → ℕ → Cmd o (Unit {0})
  unfolding copy_reg
  r2r_xfer_opb_l tid dst src = copy_reg tid dst 0 src 0

  -- The loop of the register moves.
  pub r2r_loop : ℕ → ℕ → ℕ → ℕ → Cmd o (Unit {0})
  unfolding for_up copy_reg
  r2r_loop n tid dst src = for_up n 0 (λ i. copy_reg tid dst i src i)

  pub r2r_xfer_opw : ℕ → ℕ → ℕ → Cmd o (Unit {0})
  unfolding r2r_loop
  r2r_xfer_opw = r2r_loop 2

  pub r2r_xfer_opl : ℕ → ℕ → ℕ → Cmd o (Unit {0})
  unfolding r2r_loop
  r2r_xfer_opl = r2r_loop 4

  pub r2r_xfer_opq : ℕ → ℕ → ℕ → Cmd o (Unit {0})
  unfolding r2r_loop
  r2r_xfer_opq = r2r_loop 8

  unfoldable pub r2r_xfer_opx : ℕ → ℕ → ℕ → Cmd o (Unit {0})
  unfolding r2r_loop
  r2r_xfer_opx = r2r_loop 16

  pub r2r_xfer_opy : ℕ → ℕ → ℕ → Cmd o (Unit {0})
  unfolding r2r_loop
  r2r_xfer_opy = r2r_loop 32

  unfoldable pub m2r_xfer_opb_u : ℕ → ℕ → ℕ → Cmd o (Unit {0})
  unfolding load_reg
  m2r_xfer_opb_u tid dst src = load_reg tid dst 1 src

  unfoldable pub m2r_xfer_opb_l : ℕ → ℕ → ℕ → Cmd o (Unit {0})
  unfolding load_reg
  m2r_xfer_opb_l tid dst src = load_reg tid dst 0 src

  pub m2r_loop : ℕ → ℕ → ℕ → ℕ → Cmd o (Unit {0})
  unfolding for_up load_reg
  m2r_loop n tid dst src = for_up n 0 (λ i. load_reg tid dst i (add64 src i))

  pub m2r_xfer_opw : ℕ → ℕ → ℕ → Cmd o (Unit {0})
  unfolding m2r_loop
  m2r_xfer_opw = m2r_loop 2

  pub m2r_xfer_opl : ℕ → ℕ → ℕ → Cmd o (Unit {0})
  unfolding m2r_loop
  m2r_xfer_opl = m2r_loop 4

  pub m2r_xfer_opq : ℕ → ℕ → ℕ → Cmd o (Unit {0})
  unfolding m2r_loop
  m2r_xfer_opq = m2r_loop 8

  pub m2r_xfer_opx : ℕ → ℕ → ℕ → Cmd o (Unit {0})
  unfolding m2r_loop
  m2r_xfer_opx = m2r_loop 16

  pub m2r_xfer_opy : ℕ → ℕ → ℕ → Cmd o (Unit {0})
  unfolding m2r_loop
  m2r_xfer_opy = m2r_loop 32

  unfoldable pub r2m_xfer_opb_u : ℕ → ℕ → ℕ → Cmd o (Unit {0})
  unfolding store_reg
  r2m_xfer_opb_u tid dst src = store_reg tid dst src 1

  unfoldable pub r2m_xfer_opb_l : ℕ → ℕ → ℕ → Cmd o (Unit {0})
  unfolding store_reg
  r2m_xfer_opb_l tid dst src = store_reg tid dst src 0

  pub r2m_loop : ℕ → ℕ → ℕ → ℕ → Cmd o (Unit {0})
  unfolding for_up store_reg
  r2m_loop n tid dst src = for_up n 0 (λ i. store_reg tid (add64 dst i) src i)

  pub r2m_xfer_opw : ℕ → ℕ → ℕ → Cmd o (Unit {0})
  unfolding store_reg
  r2m_xfer_opw tid dst src = do store_reg tid dst src 0; store_reg tid (add64 dst 1) src 1

  pub r2m_xfer_opl : ℕ → ℕ → ℕ → Cmd o (Unit {0})
  unfolding r2m_loop
  r2m_xfer_opl = r2m_loop 4

  pub r2m_xfer_opq : ℕ → ℕ → ℕ → Cmd o (Unit {0})
  unfolding r2m_loop
  r2m_xfer_opq = r2m_loop 8

  pub r2m_xfer_opx : ℕ → ℕ → ℕ → Cmd o (Unit {0})
  unfolding r2m_loop
  r2m_xfer_opx = r2m_loop 16

  pub r2m_xfer_opy : ℕ → ℕ → ℕ → Cmd o (Unit {0})
  unfolding r2m_loop
  r2m_xfer_opy = r2m_loop 32

  pub m2m_xfer_opb : ℕ → ℕ → Cmd o (Unit {0})
  unfolding copy_mem
  m2m_xfer_opb dst src = copy_mem dst src

  pub m2m_loop : ℕ → ℕ → ℕ → Cmd o (Unit {0})
  unfolding for_up copy_mem
  m2m_loop n dst src = for_up n 0 (λ i. copy_mem (add64 dst i) (add64 src i))

  pub m2m_xfer_opw : ℕ → ℕ → Cmd o (Unit {0})
  unfolding m2m_loop
  m2m_xfer_opw = m2m_loop 2

  pub m2m_xfer_opl : ℕ → ℕ → Cmd o (Unit {0})
  unfolding m2m_loop
  m2m_xfer_opl = m2m_loop 4

  pub m2m_xfer_opq : ℕ → ℕ → Cmd o (Unit {0})
  unfolding m2m_loop
  m2m_xfer_opq = m2m_loop 8

  -- The halves of a vector register, for `MOVHPS` and `MOVHPD`.
  pub m2r_xfer_opq_h : ℕ → ℕ → ℕ → Cmd o (Unit {0})
  unfolding for_up load_reg
  m2r_xfer_opq_h tid dst src = for_up 8 0 (λ i. load_reg tid dst (i + 8) (add64 src i))

  pub r2m_xfer_opq_h : ℕ → ℕ → ℕ → Cmd o (Unit {0})
  unfolding for_up store_reg
  r2m_xfer_opq_h tid dst src = for_up 8 0 (λ i. store_reg tid (add64 dst i) src (i + 8))
