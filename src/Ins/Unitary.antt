-- ===== src/Ins/Unitary.antt =====
-- The analysis functions of src/ins_unitary_op.cpp, for divisions and multiplications of RAX, or of
-- RDX and RAX, by one operand.
use libdft64_ect.Prelude.{ℕ}
use libdft64_ect.Tag.{TagTraits}
use libdft64_ect.Machine.{
  State, Cmd, ◌>>=◌, ◌>>◌, for_up, combine, tagmap_getb_reg, tagmap_setb_reg, tagmap_getb,
}
use libdft64_ect.Ins.Clear.{dft_reg_rdx}
use libdft64_ect.Ins.Xfer.{dft_reg_rax}
use libdft64_ect.Ins.Xchg.{read_tags}

module _ {o : TagTraits} where
  -- `RTAG[reg][i] = tag_combine(a, b, tid)`.
  unfoldable pub set_combined : ℕ → ℕ → ℕ → o.Tag → o.Tag → Cmd o (Unit {0})
  unfolding combine tagmap_setb_reg
  set_combined tid reg i a b = combine a b tid >>= tagmap_setb_reg tid reg i

  -- Both bytes of AX gain one tag; the second byte of AX is read after the first is written.
  unfoldable pub unitary_ax : ℕ → o.Tag → Cmd o (Unit {0})
  unfolding set_combined tagmap_getb_reg
  unitary_ax tid tmp_tag = do
    a ← tagmap_getb_reg tid dft_reg_rax 0
    set_combined tid dft_reg_rax 0 a tmp_tag
    b ← tagmap_getb_reg tid dft_reg_rax 1
    set_combined tid dft_reg_rax 1 b tmp_tag

  pub r2r_unitary_opb_u : ℕ → ℕ → Cmd o (Unit {0})
  unfolding unitary_ax tagmap_getb_reg
  r2r_unitary_opb_u tid src = tagmap_getb_reg tid src 1 >>= unitary_ax tid

  pub r2r_unitary_opb_l : ℕ → ℕ → Cmd o (Unit {0})
  unfolding unitary_ax tagmap_getb_reg
  r2r_unitary_opb_l tid src = tagmap_getb_reg tid src 0 >>= unitary_ax tid

  -- All of the tags are read before the first is written.
  unfoldable pub r2r_unitary_opw : ℕ → ℕ → Cmd o (Unit {0})
  unfolding set_combined
  r2r_unitary_opw tid src s =
      (for_up 2 0 (λ i. set_combined tid dft_reg_rdx i (s.gpr tid dft_reg_rdx i) (s.gpr tid src i))
          >> for_up 2 0
              (λ i. set_combined tid dft_reg_rax i (s.gpr tid dft_reg_rax i) (s.gpr tid src i)))
        s

  -- The loop over RDX and RAX, with the tags that they and the operand had before.
  unfoldable pub unitary_loop : ℕ → ℕ → (ℕ → o.Tag) → State o → Cmd o (Unit {0})
  unfolding set_combined
  unitary_loop n tid tmp_tag s = for_up n 0 λ i.
      set_combined tid dft_reg_rdx i (s.gpr tid dft_reg_rdx i) (tmp_tag i)
      >> set_combined tid dft_reg_rax i (s.gpr tid dft_reg_rax i) (tmp_tag i)

  unfoldable pub r2r_unitary_opl : ℕ → ℕ → Cmd o (Unit {0})
  unfolding unitary_loop
  r2r_unitary_opl tid src s = unitary_loop 4 tid (s.gpr tid src) s s

  unfoldable pub r2r_unitary_opq : ℕ → ℕ → Cmd o (Unit {0})
  unfolding unitary_loop
  r2r_unitary_opq tid src s = unitary_loop 8 tid (s.gpr tid src) s s

  -- AX is read first.
  unfoldable pub m2r_unitary_opb : ℕ → ℕ → Cmd o (Unit {0})
  unfolding set_combined tagmap_getb
  m2r_unitary_opb tid src s =
      (tagmap_getb src >>= λ tmp_tag.
      (set_combined tid dft_reg_rax 0 (s.gpr tid dft_reg_rax 0) tmp_tag
        >> set_combined tid dft_reg_rax 1 (s.gpr tid dft_reg_rax 1) tmp_tag))
        s

  unfoldable pub m2r_unitary : ℕ → ℕ → ℕ → Cmd o (Unit {0})
  unfolding unitary_loop read_tags
  m2r_unitary n tid src s = (read_tags n 0 src >>= λ tmp_tag. unitary_loop n tid tmp_tag s) s

  pub m2r_unitary_opw : ℕ → ℕ → Cmd o (Unit {0})
  unfolding m2r_unitary
  m2r_unitary_opw = m2r_unitary 2

  pub m2r_unitary_opl : ℕ → ℕ → Cmd o (Unit {0})
  unfolding m2r_unitary
  m2r_unitary_opl = m2r_unitary 4

  pub m2r_unitary_opq : ℕ → ℕ → Cmd o (Unit {0})
  unfolding m2r_unitary
  m2r_unitary_opq = m2r_unitary 8
