-- ===== src/Ins/Clear.antt =====
-- The analysis functions of src/ins_clear_op.cpp, which clear registers.
pub mod Laws
use libdft64_ect.Prelude.{ℕ}
use libdft64_ect.Tag.{TagTraits}
use libdft64_ect.Ins.Xfer.{dft_reg_rax}
use libdft64_ect.Machine.{Cmd, ◌>>=◌, ◌>>◌, for_up, tagmap_setb_reg}

-- The indices of src/def.h.
abbrev pub dft_reg_rdx : ℕ
dft_reg_rdx = 8

abbrev pub dft_reg_rcx : ℕ
dft_reg_rcx = 9

abbrev pub dft_reg_rbx : ℕ
dft_reg_rbx = 7

module _ {o : TagTraits} where
  -- `RTAG[reg][i] = tag_traits<tag_t>::cleared_val`.
  unfoldable pub clear_reg : ℕ → ℕ → ℕ → Cmd o (Unit {0})
  unfolding tagmap_setb_reg
  clear_reg tid reg i = tagmap_setb_reg tid reg i o.cleared_val

  pub r_clrl4 : ℕ → Cmd o (Unit {0})
  unfolding for_up clear_reg
  r_clrl4 tid = for_up 8 0 (λ i. do
    clear_reg tid dft_reg_rdx i
    clear_reg tid dft_reg_rcx i
    clear_reg tid dft_reg_rbx i
    clear_reg tid dft_reg_rax i)

  pub r_clrl2 : ℕ → Cmd o (Unit {0})
  unfolding for_up clear_reg
  r_clrl2 tid = for_up 8 0 (λ i. do clear_reg tid dft_reg_rdx i; clear_reg tid dft_reg_rax i)

  unfoldable pub r_clrb_l : ℕ → ℕ → Cmd o (Unit {0})
  unfolding clear_reg
  r_clrb_l tid reg = clear_reg tid reg 0

  unfoldable pub r_clrb_u : ℕ → ℕ → Cmd o (Unit {0})
  unfolding clear_reg
  r_clrb_u tid reg = clear_reg tid reg 1

  -- The loop of the others.
  pub clear_loop : ℕ → ℕ → ℕ → Cmd o (Unit {0})
  unfolding for_up clear_reg
  clear_loop n tid reg = for_up n 0 (clear_reg tid reg)

  pub r_clrw : ℕ → ℕ → Cmd o (Unit {0})
  unfolding clear_loop
  r_clrw = clear_loop 2

  pub r_clrl : ℕ → ℕ → Cmd o (Unit {0})
  unfolding clear_loop
  r_clrl = clear_loop 4

  pub r_clrq : ℕ → ℕ → Cmd o (Unit {0})
  unfolding clear_loop
  r_clrq = clear_loop 8

  pub r_clrx : ℕ → ℕ → Cmd o (Unit {0})
  unfolding clear_loop
  r_clrx = clear_loop 16

  -- 16 bytes, of the 32 that the register has.
  pub r_clry : ℕ → ℕ → Cmd o (Unit {0})
  unfolding clear_loop
  r_clry = clear_loop 16
