-- ===== src/Ins/Core.antt =====
-- The analysis functions of src/libdft_core.cpp: the conversions in RAX and RDX, whose names have a
-- leading underscore there, and the moves of all registers.
use libdft64_ect.Prelude.{ℕ, ◌+◌, ◌-◌, ◌*◌, ◌==◌, ltb, if◌then◌else◌}
use libdft64_ect.Tag.{TagTraits}
use libdft64_ect.Machine.{Cmd, add64, pure, ◌>>=◌, ◌>>◌, for_up}
use libdft64_ect.Ins.Clear.{dft_reg_rdx}
use libdft64_ect.Ins.Xfer.{dft_reg_rax, copy_reg}
use libdft64_ect.Ins.Movsx.{fill_reg}
use libdft64_ect.Ins.Xchg.{read_tags, store_tags}

abbrev pub dft_reg_rdi : ℕ
dft_reg_rdi = 3

abbrev pub dft_reg_rsp : ℕ
dft_reg_rsp = 6

abbrev pub dft_reg_xmm0 : ℕ
dft_reg_xmm0 = 19

-- The place of the row `i` in the block of registers of `n` bytes, of which the row of RSP has none.
abbrev pub block_offset : ℕ → ℕ → ℕ
block_offset n i = if ltb i dft_reg_rsp then i * n else (i - 1) * n

module _ {o : TagTraits} where
  pub cbw : ℕ → Cmd o (Unit {0})
  unfolding copy_reg
  cbw tid = copy_reg tid dft_reg_rax 1 dft_reg_rax 0

  pub cwde : ℕ → Cmd o (Unit {0})
  unfolding copy_reg
  cwde tid = do copy_reg tid dft_reg_rax 2 dft_reg_rax 0; copy_reg tid dft_reg_rax 3 dft_reg_rax 1

  pub cdqe : ℕ → Cmd o (Unit {0})
  unfolding copy_reg for_up
  cdqe tid = for_up 4 0 (λ i. copy_reg tid dft_reg_rax (i + 4) dft_reg_rax i)

  -- The three functions from RAX to RDX.
  pub rax_to_rdx : ℕ → ℕ → Cmd o (Unit {0})
  unfolding copy_reg for_up
  rax_to_rdx n tid = for_up n 0 (λ i. copy_reg tid dft_reg_rdx i dft_reg_rax i)

  pub cwd : ℕ → Cmd o (Unit {0})
  unfolding rax_to_rdx
  cwd = rax_to_rdx 2

  pub cdq : ℕ → Cmd o (Unit {0})
  unfolding rax_to_rdx
  cdq = rax_to_rdx 4

  pub cqo : ℕ → Cmd o (Unit {0})
  unfolding rax_to_rdx
  cqo = rax_to_rdx 8

  -- The index `i` counts from RDI, but is compared to the row of RSP.
  pub m2r_restore : ℕ → ℕ → ℕ → Cmd o (Unit {0})
  unfolding for_up read_tags fill_reg
  m2r_restore n tid src = for_up 8 0 (λ i.
      if i == dft_reg_rsp
      then pure tt
      else (read_tags n 0 (add64 src (block_offset n i)) >>= λ src_tag.
          fill_reg n tid (dft_reg_rdi + i) src_tag))

  pub m2r_restore_opw : ℕ → ℕ → Cmd o (Unit {0})
  unfolding m2r_restore
  m2r_restore_opw = m2r_restore 2

  pub m2r_restore_opl : ℕ → ℕ → Cmd o (Unit {0})
  unfolding m2r_restore
  m2r_restore_opl = m2r_restore 4

  -- The index is a row, from that of RDI up to that of R15.
  pub r2m_save : ℕ → ℕ → ℕ → Cmd o (Unit {0})
  unfolding for_up store_tags
  r2m_save n tid dst = for_up (dft_reg_xmm0 - dft_reg_rdi) dft_reg_rdi (λ i s.
      (if i == dft_reg_rsp
          then pure tt
          else store_tags n (add64 dst (block_offset n i)) (s.gpr tid i))
        s)

  pub r2m_save_opw : ℕ → ℕ → Cmd o (Unit {0})
  unfolding r2m_save
  r2m_save_opw = r2m_save 2

  pub r2m_save_opl : ℕ → ℕ → Cmd o (Unit {0})
  unfolding r2m_save
  r2m_save_opl = r2m_save 4
