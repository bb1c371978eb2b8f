-- ===== src/Ins/Movbe/Stores.antt =====
-- What the stores of `MOVBE` of src/ins_xfer_op.cpp do to every tag.
use libdft64_ect.Prelude.{
  ℕ, ◌+◌, ◌-◌, ◌*◌, ◌≤◌, ◌≡◌, refl, ◌∙◌, Option, some, arith, leb, ◌==◌, ◌&&◌, if◌then◌else◌,
  Bool-cases, inl, inr,
}
use libdft64_ect.Tag.{TagTraits}
use libdft64_ect.TagMap.{max_addr}
use libdft64_ect.Machine.{State, Cmd, add64, tagmap_setb}
use libdft64_ect.Machine.Loop.{Ends, for_up-Ends, >>-Ends, mono-Ends}
use libdft64_ect.Machine.Effect.{Loc, reg, mem, EmptyIsCleared, look, to_mem, Became, setb-Ends}
use libdft64_ect.Ins.Xfer.{store_reg}
use libdft64_ect.Ins.Movbe.{r2m_rev_loop, r2m_xfer_opw_rev, r2m_xfer_opl_rev, r2m_xfer_opq_rev}
use libdft64_ect.Ins.Movbe.Laws.{Swap, swap_word, swap_long, swap_quad, top}

module _ {o : TagTraits} where
  unfoldable pub r2m_rev : Swap → ℕ → ℕ → ℕ → Cmd o (Unit {0})
  r2m_rev swap_word = r2m_xfer_opw_rev
  r2m_rev swap_long = r2m_xfer_opl_rev
  r2m_rev swap_quad = r2m_xfer_opq_rev

  -- The tags after the bytes of memory from `low` to `high` got those of a register in reverse.
  abbrev pub reversed : ℕ → ℕ → ℕ → ℕ → State o → Loc → Option o.Tag
  reversed tid src low high s (reg t q i) = look s (reg t q i)
  reversed tid src low high s (mem a) =
      if leb low a && leb a high then look s (reg tid src (high - a)) else look s (mem a)

  module _ (s : State o) (empty_eq : EmptyIsCleared o) (tid src : ℕ) where
    -- One more byte, below the others.
    below-Ends :
        (low high k i : ℕ) (s' : State o)
        → low ≤ max_addr
        → low + i ≡ high
        → 2 ≤ s'.dir.mem_left
        → Became s k (reversed tid src (low + 1) high s) s'
        → Ends
            (Became s (k + 2) (reversed tid src low high s))
            s'
            (tagmap_setb low (s'.gpr tid src i))
    below-Ends low high k i s' h e room b =
        mono-Ends s' (tagmap_setb low (s'.gpr tid src i))
          (setb-Ends s' low (s'.gpr tid src i) 2 empty_eq h (ground arith) room)
          λ s2 b2. record {
            tags = λ l. b2.tags l ∙ next l;
            store = b2.store ∙ b.store;
            memory = omega (arith, b.memory, b2.memory);
          }
      where
        next :
            (l : Loc)
            → to_mem low 1 (λ _. some (s'.gpr tid src i)) s' l ≡ reversed tid src low high s l
        next (reg t q j) = b.tags (reg t q j)
        next (mem a) = elim (Bool-cases (a == low)) [
          | inl hit ↦
              let same : a ≡ low = ground arith in
              let at : high - low ≡ i = omega arith in
              rw (same, at) (ground (arith, b.tags (reg tid src i)))
          | inr miss ↦ ground (arith, b.tags (mem a))
        ]

    r2m_rev_loop-Ends :
        (top dst : ℕ)
        → dst + top ≤ max_addr
        → 2 * (top + 1) ≤ s.dir.mem_left
        → Ends
            (Became s (2 * (top + 1)) (reversed tid src dst (dst + top) s))
            s
            (r2m_rev_loop (top + 1) top tid dst src)
    unfolding r2m_rev_loop store_reg
    r2m_rev_loop-Ends top dst fits room =
        mono-Ends s (r2m_rev_loop (top + 1) top tid dst src)
          (for_up-Ends From _ (top + 1)
            (λ i s' h b.
              let no_wrap : add64 dst (top - i) ≡ dst + (top - i) = omega arith in
              let above : dst + (top + 1) - i ≡ dst + (top - i) + 1 = omega arith in
              let below : dst + (top + 1) - (i + 1) ≡ dst + (top - i) = omega arith in
              let two : 2 * (i + 1) ≡ 2 * i + 2 = omega arith in
              rw (no_wrap, below, two)
                (below-Ends (dst + (top - i)) (dst + top) (2 * i) i s' (omega arith) (omega arith)
                  (omega (arith, b.memory)) (rw above at b)))
            (top + 1) 0 s (omega arith)
            record { tags = none_yet; store = refl; memory = omega arith })
          λ s' b. let all : dst + (top + 1) - (top + 1) ≡ dst = omega arith in rw all at b
      where
        From : ℕ → State o → Type 0
        From i = Became s (2 * i) (reversed tid src (dst + (top + 1) - i) (dst + top) s)

        none_yet : (l : Loc) → look s l ≡ reversed tid src (dst + (top + 1) - 0) (dst + top) s l
        none_yet (reg t q j) = refl
        none_yet (mem a) = ground arith

    r2m_xfer_opw_rev-Ends :
        (dst : ℕ)
        → dst + 1 ≤ max_addr
        → 4 ≤ s.dir.mem_left
        → Ends (Became s 4 (reversed tid src dst (dst + 1) s)) s (r2m_xfer_opw_rev tid dst src)
    unfolding r2m_xfer_opw_rev store_reg
    r2m_xfer_opw_rev-Ends dst fits room =
        let no_wrap : add64 dst 1 ≡ dst + 1 = omega arith in
        >>-Ends s (store_reg tid dst src 1) (store_reg tid (add64 dst 1) src 0)
          (setb-Ends s dst (s.gpr tid src 1) 2 empty_eq (omega arith) (ground arith) (omega arith))
          λ s1 b1. rw no_wrap (
            mono-Ends s1 (tagmap_setb (dst + 1) (s1.gpr tid src 0))
              (setb-Ends s1 (dst + 1) (s1.gpr tid src 0) 2 empty_eq fits (ground arith)
                (omega (arith, b1.memory)))
              λ s2 b2. record {
                tags = both s1 s2 b1.tags b2.tags;
                store = b2.store ∙ b1.store;
                memory = omega (arith, b1.memory, b2.memory);
              })
      where
        both :
            (s1 s2 : State o)
            → ((l : Loc) → look s1 l ≡ to_mem dst 1 (λ _. some (s.gpr tid src 1)) s l)
            → ((l : Loc) → look s2 l ≡ to_mem (dst + 1) 1 (λ _. some (s1.gpr tid src 0)) s1 l)
            → (l : Loc) → look s2 l ≡ reversed tid src dst (dst + 1) s l
        both s1 s2 t1 t2 (reg t q j) = t2 (reg t q j) ∙ t1 (reg t q j)
        both s1 s2 t1 t2 (mem a) = elim (Bool-cases (a == dst)) [
          | inl hit ↦
              let same : a ≡ dst = ground arith in
              let at : dst + 1 - dst ≡ 1 = omega arith in
              rw (same, at) (ground (arith, t2 (mem dst), t1 (mem dst)))
          | inr miss ↦ elim (Bool-cases (a == dst + 1)) [
            | inl hit ↦
                let same : a ≡ dst + 1 = ground arith in
                let at : dst + 1 - (dst + 1) ≡ 0 = omega arith in
                rw (same, at) (ground (arith, t2 (mem (dst + 1)), t1 (reg tid src 0)))
            | inr miss' ↦ ground (arith, t2 (mem a), t1 (mem a))
          ]
        ]

    -- A store of `MOVBE` to user memory gives the bytes of memory the tags of the register's first bytes
    -- in reverse, and changes no other tag, if there is memory for the pages and the empty tag is the
    -- cleared one.
    pub r2m_rev-reverses :
        (v : Swap) (dst : ℕ)
        → dst + top v ≤ max_addr
        → 2 * (top v + 1) ≤ s.dir.mem_left
        → Ends
            (Became s (2 * (top v + 1)) (reversed tid src dst (dst + top v) s))
            s
            (r2m_rev v tid dst src)
    unfolding r2m_rev r2m_xfer_opl_rev r2m_xfer_opq_rev
    r2m_rev-reverses swap_word dst h m = r2m_xfer_opw_rev-Ends dst h m
    r2m_rev-reverses swap_long dst h m = r2m_rev_loop-Ends 3 dst h m
    r2m_rev-reverses swap_quad dst h m = r2m_rev_loop-Ends 7 dst h m
