-- ===== src/Ins/Movbe/Laws.antt =====
-- What the loads and stores of `MOVBE` of src/ins_xfer_op.cpp do to every tag.
use libdft64_ect.Prelude.{ℕ, ◌+◌, ◌-◌, ◌≤◌, ◌≡◌, sym, ◌∙◌, arith}
use libdft64_ect.Tag.{TagTraits}
use libdft64_ect.TagMap.{max_addr}
use libdft64_ect.Machine.{State, Cmd, add64}
use libdft64_ect.Machine.Loop.{Ends, for_up-Ends}
use libdft64_ect.Machine.Effect.{
  mem, look, to_reg, Became, Became-none_reg, getb-some, setb_reg-Ends,
}
use libdft64_ect.Ins.Movbe.{m2r_rev_loop, m2r_xfer_opw_rev, m2r_xfer_opl_rev, m2r_xfer_opq_rev}

-- The functions, by their last index.
pub data Swap : Type 0 where
  swap_word swap_long swap_quad : Swap

abbrev pub top : Swap → ℕ
top swap_word = 1
top swap_long = 3
top swap_quad = 7

module _ {o : TagTraits} where
  unfoldable pub m2r_rev : Swap → ℕ → ℕ → ℕ → Cmd o (Unit {0})
  m2r_rev swap_word = m2r_xfer_opw_rev
  m2r_rev swap_long = m2r_xfer_opl_rev
  m2r_rev swap_quad = m2r_xfer_opq_rev

  module _ (s : State o) where
    m2r_rev_loop-Ends :
        (top tid dst src : ℕ)
        → src + top ≤ max_addr
        → Ends
            (Became s 0 (to_reg tid dst (top + 1) (λ i. look s (mem (src + (top - i)))) s))
            s
            (m2r_rev_loop (top + 1) top tid dst src)
    unfolding m2r_rev_loop
    m2r_rev_loop-Ends top tid dst src fits =
        for_up-Ends (λ i. Became s 0 (to_reg tid dst i (λ j. look s (mem (src + (top - j)))) s)) _
          (top + 1)
          (λ i s' h b.
            let no_wrap : add64 src (top - i) ≡ src + (top - i) = omega arith in
            let (t, e, l) = getb-some s' (src + (top - i)) (omega arith) in
            rw (no_wrap, e)
              (setb_reg-Ends s s' 0 tid dst i (λ j. look s (mem (src + (top - j)))) t b
                (sym (b.tags (mem (src + (top - i)))) ∙ l)))
          (top + 1) 0 s (omega arith)
          (Became-none_reg s tid dst (λ j. look s (mem (src + (top - j)))))

    -- A load of `MOVBE` from user memory gives the first bytes of the register the tags of the bytes of
    -- memory in reverse, and changes no other tag.
    pub m2r_rev-reverses :
        (v : Swap) (tid dst src : ℕ)
        → src + top v ≤ max_addr
        → Ends
            (Became s 0 (to_reg tid dst (top v + 1) (λ i. look s (mem (src + (top v - i)))) s))
            s
            (m2r_rev v tid dst src)
    unfolding m2r_rev m2r_xfer_opw_rev m2r_xfer_opl_rev m2r_xfer_opq_rev
    m2r_rev-reverses swap_word tid dst src h = m2r_rev_loop-Ends 1 tid dst src h
    m2r_rev-reverses swap_long tid dst src h = m2r_rev_loop-Ends 3 tid dst src h
    m2r_rev-reverses swap_quad tid dst src h = m2r_rev_loop-Ends 7 tid dst src h
