-- ===== src/Ins/Clear/Laws.antt =====
-- What the analysis functions of src/ins_clear_op.cpp do to every tag.
use libdft64_ect.Prelude.{
  ℕ, ◌+◌, ◌≡◌, refl, Bool, Option, some, arith, ltb, ◌==◌, ◌&&◌, ◌||◌, if◌then◌else◌,
}
use libdft64_ect.Tag.{TagTraits}
use libdft64_ect.Machine.{State, Cmd, write_reg}
use libdft64_ect.Machine.Loop.{Ends, for_up-Ends}
use libdft64_ect.Machine.Effect.{
  Loc, reg, mem, look, to_reg, Became, Became-none_reg, setb_reg-Ends,
}
use libdft64_ect.Ins.Width.{Width, word, long, quad, xmm, ymm}
use libdft64_ect.Ins.Xfer.{dft_reg_rax}
use libdft64_ect.Ins.Clear.{
  dft_reg_rdx, dft_reg_rcx, dft_reg_rbx, clear_loop, r_clrl4, r_clrw, r_clrl, r_clrq, r_clrx,
  r_clry,
}

-- The bytes that each clears.
abbrev pub cleared_bytes : Width → ℕ
cleared_bytes word = 2
cleared_bytes long = 4
cleared_bytes quad = 8
cleared_bytes xmm = 16
cleared_bytes ymm = 16

-- The registers that `CPUID` writes.
abbrev pub is_cpuid : ℕ → Bool
is_cpuid q = q == dft_reg_rdx || (q == dft_reg_rcx || (q == dft_reg_rbx || q == dft_reg_rax))

module _ {o : TagTraits} where
  unfoldable pub r_clr : Width → ℕ → ℕ → Cmd o (Unit {0})
  r_clr word = r_clrw
  r_clr long = r_clrl
  r_clr quad = r_clrq
  r_clr xmm = r_clrx
  r_clr ymm = r_clry

  -- The tags after the first `n` cleared_bytes of the registers in `which` are cleared.
  abbrev pub cleared : (ℕ → Bool) → ℕ → ℕ → State o → Loc → Option o.Tag
  cleared which tid n s (reg t q i) =
      if t == tid && (which q && ltb i n) then some o.cleared_val else look s (reg t q i)
  cleared which tid n s (mem a) = look s (mem a)

  module _ (s : State o) where
    clear_loop-Ends :
        (n tid r : ℕ)
        → Ends (Became s 0 (to_reg tid r n (λ _. some o.cleared_val) s)) s (clear_loop n tid r)
    unfolding clear_loop
    clear_loop-Ends n tid r =
        for_up-Ends (λ i. Became s 0 (to_reg tid r i (λ _. some o.cleared_val) s)) _ n
          (λ i s' h b. setb_reg-Ends s s' 0 tid r i (λ _. some o.cleared_val) o.cleared_val b refl)
          n 0 s (omega arith) (Became-none_reg s tid r _)

    -- Each clears the first bytes of its register, 2, 4, 8, 16 and again 16, and changes no other
    -- tag.
    pub r_clr-clears :
        (v : Width) (tid r : ℕ)
        → Ends
            (Became s 0 (to_reg tid r (cleared_bytes v) (λ _. some o.cleared_val) s))
            s
            (r_clr v tid r)
    unfolding r_clr r_clrw r_clrl r_clrq r_clrx r_clry
    r_clr-clears word tid r = clear_loop-Ends 2 tid r
    r_clr-clears long tid r = clear_loop-Ends 4 tid r
    r_clr-clears quad tid r = clear_loop-Ends 8 tid r
    r_clr-clears xmm tid r = clear_loop-Ends 16 tid r
    r_clr-clears ymm tid r = clear_loop-Ends 16 tid r

    -- `r_clrl4` clears the first eight bytes of `RDX`, `RCX`, `RBX` and `RAX`, and changes no other
    -- tag.
    pub r_clrl4-clears : (tid : ℕ) → Ends (Became s 0 (cleared is_cpuid tid 8 s)) s (r_clrl4 tid)
    unfolding r_clrl4
    r_clrl4-clears tid =
        for_up-Ends (λ i. Became s 0 (cleared is_cpuid tid i s)) _ 8
          (λ i s' h b.
            (after i s', refl, record { tags = next i s' b; store = b.store; memory = b.memory }))
          8 0 s (omega arith) record { tags = same; store = refl; memory = omega arith }
      where
        at : ℕ → ℕ → State o → State o
        at r i s' = record s' { gpr = write_reg s'.gpr tid r i o.cleared_val }

        after : ℕ → State o → State o
        after i s' = at dft_reg_rax i (at dft_reg_rbx i (at dft_reg_rcx i (at dft_reg_rdx i s')))

        same : (l : Loc) → look s l ≡ cleared is_cpuid tid 0 s l
        same (mem a) = refl
        same (reg t q i) = ground arith

        next :
            (i : ℕ) (s' : State o)
            → Became s 0 (cleared is_cpuid tid i s) s'
            → (l : Loc) → look (after i s') l ≡ cleared is_cpuid tid (i + 1) s l
        next i s' b (mem a) = b.tags (mem a)
        next i s' b (reg t q j) = ground (arith, b.tags (reg t q j))
