-- ===== src/Ins/Stos.antt =====
-- The repeated string stores of src/ins_xfer_op.cpp, `STOSB`, `STOSW`, `STOSD` and `STOSQ`.
pub mod Laws
use libdft64_ect.Prelude.{ℕ, ◌+◌, ◌-◌, ◌*◌, ◌/◌, ◌%◌, ◌^◌, ◌==◌, if◌then◌else◌}
use libdft64_ect.Tag.{TagTraits}
use libdft64_ect.Machine.{State, Cmd, add64, for_up, tagmap_setb}
use libdft64_ect.Ins.Xfer.{dft_reg_rax}

-- `ADDRINT` subtraction and `<<`.
abbrev pub sub64 : ℕ → ℕ → ℕ
sub64 a b = (a + 2 ^ 64 - b) % 2 ^ 64

abbrev pub shl64 : ℕ → ℕ → ℕ
shl64 a k = a * 2 ^ k % 2 ^ 64

-- `EFLAGS_DF`, the flag at bit 10.
abbrev pub eflags_df : ℕ → ℕ
eflags_df eflags = eflags / 2 ^ 10 % 2

-- The copy of the tags of `RAX` that the functions make first, of `w` bytes, at index `i % w`.
abbrev pub rax_tag : {o : TagTraits} → State o → ℕ → ℕ → ℕ → o.Tag
rax_tag s tid w i = s.gpr tid dft_reg_rax (i % w)

module _ {o : TagTraits} where
  -- Both loops, over `n` bytes.
  unfoldable pub stos : (ℕ → o.Tag) → ℕ → ℕ → ℕ → Cmd o (Unit {0})
  unfolding for_up tagmap_setb
  stos tags dst n eflags =
      if eflags_df eflags == 0
      then for_up n 0 (λ i. tagmap_setb (add64 dst i) (tags i))
      else for_up n 0 (λ i. tagmap_setb (add64 (add64 (sub64 dst n) 1) i) (tags i))

  pub r2m_xfer_opbn : ℕ → ℕ → ℕ → ℕ → Cmd o (Unit {0})
  unfolding stos
  r2m_xfer_opbn tid dst count eflags s = stos (rax_tag s tid 1) dst count eflags s

  pub r2m_xfer_opwn : ℕ → ℕ → ℕ → ℕ → Cmd o (Unit {0})
  unfolding stos
  r2m_xfer_opwn tid dst count eflags s = stos (rax_tag s tid 2) dst (shl64 count 1) eflags s

  pub r2m_xfer_opln : ℕ → ℕ → ℕ → ℕ → Cmd o (Unit {0})
  unfolding stos
  r2m_xfer_opln tid dst count eflags s = stos (rax_tag s tid 4) dst (shl64 count 2) eflags s

  -- `count << 2` bytes, as `STOSD`.
  pub r2m_xfer_opqn : ℕ → ℕ → ℕ → ℕ → Cmd o (Unit {0})
  unfolding stos
  r2m_xfer_opqn tid dst count eflags s = stos (rax_tag s tid 8) dst (shl64 count 2) eflags s
