-- ===== src/Ins/Movsx/Laws.antt =====
-- What the analysis functions of src/ins_movsx_op.cpp do to every tag.
use libdft64_ect.Prelude.{ℕ, ◌%◌, ◌<◌, ◌≡◌, refl, Option, some, arith}
use libdft64_ect.Tag.{TagTraits}
use libdft64_ect.Machine.{State, Cmd, for_up, tagmap_getb_reg, tagmap_setb_reg, ◌>>◌}
use libdft64_ect.Machine.Loop.{Ends, for_up-Ends, >>-Ends}
use libdft64_ect.Machine.Effect.{reg, look, to_reg, Became, Became-none_reg, setb_reg-Ends}
use libdft64_ect.Ins.Xfer.{copy_reg}
use libdft64_ect.Ins.Movsx.{
  fill_reg, movsx_r2r_opwb_u, movsx_r2r_opwb_l, movsx_r2r_oplb_u, movsx_r2r_oplb_l,
  movsx_r2r_opqb_u, movsx_r2r_opqb_l, movsx_r2r_oplw, movsx_r2r_opqw, movsx_r2r_opql,
}

-- The register forms, by the widths of target and source and the half of the source.
pub data Form : Type 0 where
  wb_u wb_l lb_u lb_l qb_u qb_l lw qw ql : Form

-- The bytes of the target.
abbrev pub target : Form → ℕ
target wb_u = 2
target wb_l = 2
target lb_u = 4
target lb_l = 4
target qb_u = 8
target qb_l = 8
target lw = 4
target qw = 8
target ql = 8

-- The byte of the source whose tag the byte `i` of the target gets.
abbrev pub source : Form → ℕ → ℕ
source wb_u i = 1
source wb_l i = 0
source lb_u i = 1
source lb_l i = 0
source qb_u i = 1
source qb_l i = 0
source lw i = i % 2
source qw i = i % 2
source ql i = i % 4

module _ {o : TagTraits} where
  unfoldable pub movsx_r2r : Form → ℕ → ℕ → ℕ → Cmd o (Unit {0})
  movsx_r2r wb_u = movsx_r2r_opwb_u
  movsx_r2r wb_l = movsx_r2r_opwb_l
  movsx_r2r lb_u = movsx_r2r_oplb_u
  movsx_r2r lb_l = movsx_r2r_oplb_l
  movsx_r2r qb_u = movsx_r2r_opqb_u
  movsx_r2r qb_l = movsx_r2r_opqb_l
  movsx_r2r lw = movsx_r2r_oplw
  movsx_r2r qw = movsx_r2r_opqw
  movsx_r2r ql = movsx_r2r_opql

  module _ (s : State o) where
    pub fill_reg-Ends :
        (n tid dst : ℕ) (tags : ℕ → o.Tag) (f : ℕ → Option o.Tag)
        → ((i : ℕ) → i < n → f i ≡ some (tags i))
        → Ends (Became s 0 (to_reg tid dst n f s)) s (fill_reg n tid dst tags)
    unfolding fill_reg
    fill_reg-Ends n tid dst tags f same =
        for_up-Ends (λ i. Became s 0 (to_reg tid dst i f s)) _ n
          (λ i s' h b. setb_reg-Ends s s' 0 tid dst i f (tags i) b (same i h)) n 0 s (omega arith)
          (Became-none_reg s tid dst f)

    pub two-Ends :
        (tid dst : ℕ) (t : o.Tag) (f : ℕ → Option o.Tag)
        → ((i : ℕ) → f i ≡ some t)
        → Ends
            (Became s 0 (to_reg tid dst 2 f s))
            s
            (tagmap_setb_reg tid dst 0 t >> tagmap_setb_reg tid dst 1 t)
    two-Ends tid dst t f same =
        >>-Ends s (tagmap_setb_reg tid dst 0 t) (tagmap_setb_reg tid dst 1 t)
          (setb_reg-Ends s s 0 tid dst 0 f t (Became-none_reg s tid dst f) (same 0))
          λ s1 b1. setb_reg-Ends s s1 0 tid dst 1 f t b1 (same 1)

    repeat_loop-Ends :
        (n tid dst src : ℕ) (from : ℕ → ℕ)
        → ((i : ℕ) → from (from i) ≡ from i)
        → Ends
            (Became s 0 (to_reg tid dst n (λ i. look s (reg tid src (from i))) s))
            s
            (for_up n 0 (λ i. copy_reg tid dst i src (from i)))
    unfolding copy_reg
    repeat_loop-Ends n tid dst src from idem =
        for_up-Ends (λ i. Became s 0 (to_reg tid dst i (λ x. look s (reg tid src (from x))) s)) _ n
          (λ i s' h b.
            setb_reg-Ends s s' 0 tid dst i (λ x. look s (reg tid src (from x)))
              (s'.gpr tid src (from i)) b (ground (arith, b.tags (reg tid src (from i)), idem i)))
          n 0 s (omega arith) (Became-none_reg s tid dst (λ x. look s (reg tid src (from x))))

    -- A sign or zero extension from a register gives the bytes of the target the tags of those of the
    -- source over and over, at every pair of widths and also where both are one register, and changes
    -- no other tag.
    pub movsx_r2r-repeats :
        (v : Form) (tid dst src : ℕ)
        → Ends
            (Became s 0 (to_reg tid dst (target v) (λ i. look s (reg tid src (source v i))) s))
            s
            (movsx_r2r v tid dst src)
    unfolding movsx_r2r movsx_r2r_opwb_u movsx_r2r_opwb_l movsx_r2r_oplb_u movsx_r2r_oplb_l
        movsx_r2r_opqb_u movsx_r2r_opqb_l movsx_r2r_oplw movsx_r2r_opqw movsx_r2r_opql
        tagmap_getb_reg
    movsx_r2r-repeats wb_u tid dst src = two-Ends tid dst (s.gpr tid src 1) _ λ i. refl
    movsx_r2r-repeats wb_l tid dst src = two-Ends tid dst (s.gpr tid src 0) _ λ i. refl
    movsx_r2r-repeats lb_u tid dst src =
        fill_reg-Ends 4 tid dst (λ _. s.gpr tid src 1) _ λ i h. refl
    movsx_r2r-repeats lb_l tid dst src =
        fill_reg-Ends 4 tid dst (λ _. s.gpr tid src 0) _ λ i h. refl
    movsx_r2r-repeats qb_u tid dst src =
        fill_reg-Ends 8 tid dst (λ _. s.gpr tid src 1) _ λ i h. refl
    movsx_r2r-repeats qb_l tid dst src =
        fill_reg-Ends 8 tid dst (λ _. s.gpr tid src 0) _ λ i h. refl
    movsx_r2r-repeats lw tid dst src = repeat_loop-Ends 4 tid dst src (λ i. i % 2) λ i. omega arith
    movsx_r2r-repeats qw tid dst src = repeat_loop-Ends 8 tid dst src (λ i. i % 2) λ i. omega arith
    movsx_r2r-repeats ql tid dst src = repeat_loop-Ends 8 tid dst src (λ i. i % 4) λ i. omega arith
