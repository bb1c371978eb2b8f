-- ===== src/Ins/Xfer/Copy.antt =====
-- What the loops of src/ins_xfer_op.cpp do to every tag.
use libdft64_ect.Prelude.{ℕ, ◌+◌, ◌*◌, ◌≤◌, ◌<◌, ◌≡◌, sym, ◌∙◌, ◌⊎◌, arith}
use libdft64_ect.Tag.{TagTraits}
use libdft64_ect.TagMap.{max_addr}
use libdft64_ect.Machine.{State, add64}
use libdft64_ect.Machine.Loop.{Ends, for_up-Ends}
use libdft64_ect.Machine.Effect.{
  reg, mem, EmptyIsCleared, look, to_reg, to_mem, Became, Became-none_reg, Became-none_mem,
  getb-some, setb_reg-Ends, setb-next,
}
use libdft64_ect.Ins.Xfer.{r2r_loop, m2r_loop, r2m_loop, m2m_loop}

module _ {o : TagTraits} (s : State o) where
  -- The first `n` bytes of `dst` become those of `src`, also where both are one register.
  pub r2r_loop-Ends :
      (n tid dst src : ℕ)
      → Ends
          (Became s 0 (to_reg tid dst n (λ i. look s (reg tid src i)) s))
          s
          (r2r_loop n tid dst src)
  unfolding r2r_loop
  r2r_loop-Ends n tid dst src =
      for_up-Ends (λ i. Became s 0 (to_reg tid dst i (λ j. look s (reg tid src j)) s)) _ n
        (λ i s' h b.
          setb_reg-Ends s s' 0 tid dst i (λ j. look s (reg tid src j)) (s'.gpr tid src i) b
            (ground (arith, b.tags (reg tid src i))))
        n 0 s (omega arith) (Became-none_reg s tid dst _)

  -- They become those of `n` bytes of readable memory.
  pub m2r_loop-Ends :
      (n tid dst src : ℕ)
      → src + n ≤ max_addr + 1
      → Ends
          (Became s 0 (to_reg tid dst n (λ i. look s (mem (src + i))) s))
          s
          (m2r_loop n tid dst src)
  unfolding m2r_loop
  m2r_loop-Ends n tid dst src fits =
      for_up-Ends (λ i. Became s 0 (to_reg tid dst i (λ j. look s (mem (src + j))) s)) _ n
        (λ i s' h b.
          let no_wrap : add64 src i ≡ src + i = omega arith in
          let (t, e, l) = getb-some s' (src + i) (omega arith) in
          rw (no_wrap, e)
            (setb_reg-Ends s s' 0 tid dst i (λ j. look s (mem (src + j))) t b
              (sym (b.tags (mem (src + i))) ∙ l)))
        n 0 s (omega arith) (Became-none_reg s tid dst _)

  module _ (empty_eq : EmptyIsCleared o) where
    -- `n` bytes of memory become the first `n` of `src`, at two blocks of memory for each.
    pub r2m_loop-Ends :
        (n tid dst src : ℕ)
        → dst + n ≤ max_addr + 1
        → 2 * n ≤ s.dir.mem_left
        → Ends
            (Became s (2 * n) (to_mem dst n (λ i. look s (reg tid src i)) s))
            s
            (r2m_loop n tid dst src)
    unfolding r2m_loop
    r2m_loop-Ends n tid dst src fits room =
        for_up-Ends (λ i. Became s (2 * i) (to_mem dst i (λ j. look s (reg tid src j)) s)) _ n
          (λ i s' h b.
            let two : 2 * i + 2 ≡ 2 * (i + 1) = omega arith in
            rw (← two) (
              setb-next s s' dst i (2 * i) (λ j. look s (reg tid src j)) (s'.gpr tid src i) empty_eq
                (omega arith) (omega (arith, b.memory)) b (sym (b.tags (reg tid src i)))))
          n 0 s (omega arith) (Became-none_mem s dst (λ x. look s (reg tid src x)))

    -- `n` bytes of memory become `n` others as they were, if the loop does not read what it wrote.
    pub m2m_loop-Ends :
        (n dst src : ℕ)
        → dst + n ≤ max_addr + 1
        → src + n ≤ max_addr + 1
        → 2 * n ≤ s.dir.mem_left
        → (dst ≤ src) ⊎ (src + n ≤ dst)
        → Ends
            (Became s (2 * n) (to_mem dst n (λ i. look s (mem (src + i))) s))
            s
            (m2m_loop n dst src)
    unfolding m2m_loop
    m2m_loop-Ends n dst src fits readable room apart =
        for_up-Ends (λ i. Became s (2 * i) (to_mem dst i (λ j. look s (mem (src + j))) s)) _ n
          (λ i s' h b.
            let no_wrap : add64 src i ≡ src + i = omega arith in
            let two : 2 * i + 2 ≡ 2 * (i + 1) = omega arith in
            let (t, e, l) = getb-some s' (src + i) (omega arith) in
            rw (no_wrap, e, ← two)
              (setb-next s s' dst i (2 * i) (λ j. look s (mem (src + j))) t empty_eq (omega arith)
                (omega (arith, b.memory)) b (unread i apart h ∙ sym (b.tags (mem (src + i))) ∙ l)))
          n 0 s (omega arith) (Became-none_mem s dst (λ x. look s (mem (src + x))))
      where
        unread :
            (i : ℕ)
            → (dst ≤ src) ⊎ (src + n ≤ dst)
            → i < n
            → look s (mem (src + i)) ≡ to_mem dst i (λ j. look s (mem (src + j))) s (mem (src + i))
        unread i apart h = ground arith
