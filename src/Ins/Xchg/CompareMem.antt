-- ===== src/Ins/Xchg/CompareMem.antt =====
-- The analysis functions of src/ins_xchg_op.cpp for `CMPXCHG` on memory, and their pairs of calls.
-- `value` is the number that the program has at the address.
use libdft64_ect.Prelude.{ℕ, ◌%◌, ◌^◌, Bool, ◌==◌}
use libdft64_ect.Tag.{TagTraits}
use libdft64_ect.Machine.{Cmd, pure, ◌>>=◌, ◌>>◌}
use libdft64_ect.Ins.Xfer.{dft_reg_rax}
use libdft64_ect.Ins.Movsx.{fill_reg}
use libdft64_ect.Ins.Xchg.{dft_reg_helper1, move_tags, read_tags, store_tags}

module _ {o : TagTraits} where
  -- `saved` bytes of RAX go to the scratch register, and `n` of memory to RAX.
  pub fast_mem : ℕ → ℕ → ℕ → ℕ → Cmd o (Unit {0})
  unfolding move_tags read_tags fill_reg
  fast_mem saved n tid src = do
    move_tags saved tid dft_reg_helper1 dft_reg_rax
    src_tags ← read_tags n 0 src
    fill_reg n tid dft_reg_rax src_tags

  -- RAX is restored, and `n` bytes of the register go to memory.
  pub slow_mem : ℕ → ℕ → ℕ → ℕ → ℕ → Cmd o (Unit {0})
  unfolding move_tags store_tags
  slow_mem saved n tid dst src =
      move_tags saved tid dft_reg_rax dft_reg_helper1 >> λ s. store_tags n dst (s.gpr tid src) s

  pub cmpxchg_m2r_opq_fast : ℕ → ℕ → ℕ → ℕ → Cmd o Bool
  unfolding fast_mem
  cmpxchg_m2r_opq_fast tid dst_val src value =
      fast_mem 8 8 tid src >> pure (dst_val % 2 ^ 32 == value % 2 ^ 32)

  pub cmpxchg_m2r_opl_fast : ℕ → ℕ → ℕ → ℕ → Cmd o Bool
  unfolding fast_mem
  cmpxchg_m2r_opl_fast tid dst_val src value =
      fast_mem 4 4 tid src >> pure (dst_val % 2 ^ 32 == value % 2 ^ 32)

  pub cmpxchg_m2r_opw_fast : ℕ → ℕ → ℕ → ℕ → Cmd o Bool
  unfolding fast_mem
  cmpxchg_m2r_opw_fast tid dst_val src value =
      fast_mem 4 2 tid src >> pure (dst_val % 2 ^ 16 == value % 2 ^ 16)

  pub cmpxchg_r2m_opq_slow : ℕ → ℕ → ℕ → Cmd o (Unit {0})
  unfolding slow_mem
  cmpxchg_r2m_opq_slow = slow_mem 8 8

  pub cmpxchg_r2m_opl_slow : ℕ → ℕ → ℕ → Cmd o (Unit {0})
  unfolding slow_mem
  cmpxchg_r2m_opl_slow = slow_mem 4 4

  pub cmpxchg_r2m_opw_slow : ℕ → ℕ → ℕ → Cmd o (Unit {0})
  unfolding slow_mem
  cmpxchg_r2m_opw_slow = slow_mem 4 2
