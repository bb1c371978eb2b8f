-- ===== src/Ins/Movbe.antt =====
-- The byte swaps of src/ins_xfer_op.cpp, for `MOVBE`.
pub mod Laws
pub mod Stores
use libdft64_ect.Prelude.{ℕ, ◌-◌}
use libdft64_ect.Tag.{TagTraits}
use libdft64_ect.Machine.{Cmd, add64, ◌>>=◌, ◌>>◌, for_up}
use libdft64_ect.Ins.Xfer.{load_reg, store_reg}

module _ {o : TagTraits} where
  -- The loop of the loads, whose last index is `top`.
  pub m2r_rev_loop : ℕ → ℕ → ℕ → ℕ → ℕ → Cmd o (Unit {0})
  unfolding for_up load_reg
  m2r_rev_loop n top tid dst src = for_up n 0 (λ i. load_reg tid dst i (add64 src (top - i)))

  pub m2r_xfer_opw_rev : ℕ → ℕ → ℕ → Cmd o (Unit {0})
  unfolding m2r_rev_loop
  m2r_xfer_opw_rev = m2r_rev_loop 2 1

  pub m2r_xfer_opl_rev : ℕ → ℕ → ℕ → Cmd o (Unit {0})
  unfolding m2r_rev_loop
  m2r_xfer_opl_rev = m2r_rev_loop 4 3

  pub m2r_xfer_opq_rev : ℕ → ℕ → ℕ → Cmd o (Unit {0})
  unfolding m2r_rev_loop
  m2r_xfer_opq_rev = m2r_rev_loop 8 7

  pub r2m_xfer_opw_rev : ℕ → ℕ → ℕ → Cmd o (Unit {0})
  unfolding store_reg
  r2m_xfer_opw_rev tid dst src = do store_reg tid dst src 1; store_reg tid (add64 dst 1) src 0

  -- The loop of the other stores.
  pub r2m_rev_loop : ℕ → ℕ → ℕ → ℕ → ℕ → Cmd o (Unit {0})
  unfolding for_up store_reg
  r2m_rev_loop n top tid dst src = for_up n 0 (λ i. store_reg tid (add64 dst (top - i)) src i)

  pub r2m_xfer_opl_rev : ℕ → ℕ → ℕ → Cmd o (Unit {0})
  unfolding r2m_rev_loop
  r2m_xfer_opl_rev = r2m_rev_loop 4 3

  pub r2m_xfer_opq_rev : ℕ → ℕ → ℕ → Cmd o (Unit {0})
  unfolding r2m_rev_loop
  r2m_xfer_opq_rev = r2m_rev_loop 8 7
