-- ===== src/Ins/Stos/Laws.antt =====
-- What the repeated string stores of src/ins_xfer_op.cpp do to every tag.
use libdft64_ect.Prelude.{
  ℕ, ◌+◌, ◌-◌, ◌*◌, ◌≤◌, ◌≡◌, refl, some, arith, ◌==◌, if◌then◌else◌, Bool-cases, inl, inr, ◌%◌,
}
use libdft64_ect.Tag.{TagTraits}
use libdft64_ect.TagMap.{max_addr}
use libdft64_ect.Machine.{State, Cmd, add64, for_up, tagmap_setb}
use libdft64_ect.Machine.Loop.{Ends, for_up-Ends}
use libdft64_ect.Machine.Effect.{
  reg, EmptyIsCleared, look, to_mem, Became, Became-none_mem, setb-next,
}
use libdft64_ect.Ins.Xfer.{dft_reg_rax}
use libdft64_ect.Ins.Stos.{
  sub64, shl64, eflags_df, rax_tag, stos, r2m_xfer_opbn, r2m_xfer_opwn, r2m_xfer_opln,
  r2m_xfer_opqn,
}

-- The functions, by the width of an element: its bytes, and the bytes stored for each.
pub data Element : Type 0 where
  of_byte of_word of_long of_quad : Element

abbrev pub width : Element → ℕ
width of_byte = 1
width of_word = 2
width of_long = 4
width of_quad = 8

abbrev pub stride : Element → ℕ
stride of_byte = 1
stride of_word = 2
stride of_long = 4
stride of_quad = 4

-- The lowest address that is written.
abbrev pub lowest : ℕ → ℕ → ℕ → ℕ
lowest dst n eflags = if eflags_df eflags == 0 then dst else dst + 1 - n

module _ {o : TagTraits} where
  unfoldable pub rep_stos : Element → ℕ → ℕ → ℕ → ℕ → Cmd o (Unit {0})
  rep_stos of_byte = r2m_xfer_opbn
  rep_stos of_word = r2m_xfer_opwn
  rep_stos of_long = r2m_xfer_opln
  rep_stos of_quad = r2m_xfer_opqn

  module _ (s : State o) (empty_eq : EmptyIsCleared o) where
    pub fill_loop-Ends :
        (n addr : ℕ) (tags : ℕ → o.Tag)
        → addr + n ≤ max_addr + 1
        → 2 * n ≤ s.dir.mem_left
        → Ends
            (Became s (2 * n) (to_mem addr n (λ i. some (tags i)) s))
            s
            (for_up n 0 (λ i. tagmap_setb (add64 addr i) (tags i)))
    fill_loop-Ends n addr tags fits room =
        for_up-Ends (λ i. Became s (2 * i) (to_mem addr i (λ x. some (tags x)) s)) _ n
          (λ i s' h b.
            let two : 2 * i + 2 ≡ 2 * (i + 1) = omega arith in
            rw (← two) (
              setb-next s s' addr i (2 * i) (λ x. some (tags x)) (tags i) empty_eq (omega arith)
                (omega (arith, b.memory)) b refl))
          n 0 s (omega arith) (Became-none_mem s addr (λ x. some (tags x)))

    stos-fills :
        (n dst eflags : ℕ) (tags : ℕ → o.Tag)
        → n ≤ dst
        → dst + n ≤ max_addr
        → 2 * n ≤ s.dir.mem_left
        → Ends
            (Became s (2 * n) (to_mem (lowest dst n eflags) n (λ i. some (tags i)) s))
            s
            (stos tags dst n eflags)
    unfolding stos
    stos-fills n dst eflags tags below fits room = elim (Bool-cases (eflags_df eflags == 0)) [
      | inl up ↦ rw up (fill_loop-Ends n dst tags (omega arith) room)
      | inr down ↦
          let base : add64 (sub64 dst n) 1 ≡ dst + 1 - n = omega arith in
          rw (down, base) (fill_loop-Ends n (dst + 1 - n) tags (omega arith) room)
    ]

    -- A repeated string store of `count` elements writes, from the lowest address of its run on, the
    -- tags of the first bytes of `RAX` over and over, and no other: `count` times 1, 2, 4 and again
    -- 4 bytes, upwards from `dst` if the direction flag is clear and else up to `dst`. This is so if
    -- as many bytes before `dst` and behind it are user memory, there is memory for the pages, and the
    -- empty tag is the cleared one.
    pub rep_stos-fills :
        (v : Element) (tid dst count eflags : ℕ)
        → count * stride v ≤ dst
        → dst + count * stride v ≤ max_addr
        → 2 * (count * stride v) ≤ s.dir.mem_left
        → Ends
            (Became s (2 * (count * stride v)) (
              to_mem
                (lowest dst (count * stride v) eflags)
                (count * stride v)
                (λ i. look s (reg tid dft_reg_rax (i % width v)))
                s))
            s
            (rep_stos v tid dst count eflags)
    unfolding rep_stos r2m_xfer_opbn r2m_xfer_opwn r2m_xfer_opln r2m_xfer_opqn
    rep_stos-fills of_byte tid dst count eflags below fits room =
        let n : count * 1 ≡ count = omega arith in
        rw n
          (stos-fills count dst eflags (rax_tag s tid 1) (omega arith) (omega arith) (omega arith))
    rep_stos-fills of_word tid dst count eflags below fits room =
        let n : shl64 count 1 ≡ count * 2 = omega arith in
        rw n (stos-fills (count * 2) dst eflags (rax_tag s tid 2) below fits room)
    rep_stos-fills of_long tid dst count eflags below fits room =
        let n : shl64 count 2 ≡ count * 4 = omega arith in
        rw n (stos-fills (count * 4) dst eflags (rax_tag s tid 4) below fits room)
    rep_stos-fills of_quad tid dst count eflags below fits room =
        let n : shl64 count 2 ≡ count * 4 = omega arith in
        rw n (stos-fills (count * 4) dst eflags (rax_tag s tid 8) below fits room)
