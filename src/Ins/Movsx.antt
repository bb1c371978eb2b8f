-- ===== src/Ins/Movsx.antt =====
-- The analysis functions of src/ins_movsx_op.cpp, which repeat the tags of the source over the wider
-- target. The source's names have a leading underscore.
pub mod Laws
pub mod Loads
use libdft64_ect.Prelude.{ℕ, ◌+◌, ◌%◌, ◌==◌, if◌then◌else◌}
use libdft64_ect.Tag.{TagTraits}
use libdft64_ect.Machine.{
  Cmd, add64, ◌>>=◌, ◌>>◌, for_up, tagmap_getb_reg, tagmap_setb_reg, tagmap_getb,
}
use libdft64_ect.Ins.Xfer.{copy_reg}

-- The arrays of `M16TAG` and `M32TAG`, at an index less the size.
abbrev pub pick2 : {T : Type 0} → T → T → ℕ → T
pick2 t0 t1 i = if i % 2 == 0 then t0 else t1

abbrev pub pick4 : {T : Type 0} → T → T → T → T → ℕ → T
pick4 t0 t1 t2 t3 i =
    if i % 4 == 0 then t0 else if i % 4 == 1 then t1 else if i % 4 == 2 then t2 else t3

module _ {o : TagTraits} where
  -- `for (i = 0; i < n; i++) rtag_dst[i] = src_tags[i]`.
  unfoldable pub fill_reg : ℕ → ℕ → ℕ → (ℕ → o.Tag) → Cmd o (Unit {0})
  unfolding for_up tagmap_setb_reg
  fill_reg n tid dst src_tags = for_up n 0 (λ i. tagmap_setb_reg tid dst i (src_tags i))

  pub movsx_r2r_opwb_u : ℕ → ℕ → ℕ → Cmd o (Unit {0})
  unfolding tagmap_getb_reg tagmap_setb_reg
  movsx_r2r_opwb_u tid dst src = do
    src_tag ← tagmap_getb_reg tid src 1
    tagmap_setb_reg tid dst 0 src_tag
    tagmap_setb_reg tid dst 1 src_tag

  pub movsx_r2r_opwb_l : ℕ → ℕ → ℕ → Cmd o (Unit {0})
  unfolding tagmap_getb_reg tagmap_setb_reg
  movsx_r2r_opwb_l tid dst src = do
    src_tag ← tagmap_getb_reg tid src 0
    tagmap_setb_reg tid dst 0 src_tag
    tagmap_setb_reg tid dst 1 src_tag

  pub movsx_r2r_oplb_u : ℕ → ℕ → ℕ → Cmd o (Unit {0})
  unfolding tagmap_getb_reg fill_reg
  movsx_r2r_oplb_u tid dst src = do
    src_tag ← tagmap_getb_reg tid src 1
    fill_reg 4 tid dst (λ _. src_tag)

  pub movsx_r2r_oplb_l : ℕ → ℕ → ℕ → Cmd o (Unit {0})
  unfolding tagmap_getb_reg fill_reg
  movsx_r2r_oplb_l tid dst src = do
    src_tag ← tagmap_getb_reg tid src 0
    fill_reg 4 tid dst (λ _. src_tag)

  pub movsx_r2r_opqb_u : ℕ → ℕ → ℕ → Cmd o (Unit {0})
  unfolding tagmap_getb_reg fill_reg
  movsx_r2r_opqb_u tid dst src = do
    src_tag ← tagmap_getb_reg tid src 1
    fill_reg 8 tid dst (λ _. src_tag)

  pub movsx_r2r_opqb_l : ℕ → ℕ → ℕ → Cmd o (Unit {0})
  unfolding tagmap_getb_reg fill_reg
  movsx_r2r_opqb_l tid dst src = do
    src_tag ← tagmap_getb_reg tid src 0
    fill_reg 8 tid dst (λ _. src_tag)

  pub movsx_r2r_oplw : ℕ → ℕ → ℕ → Cmd o (Unit {0})
  unfolding for_up copy_reg
  movsx_r2r_oplw tid dst src = for_up 4 0 (λ i. copy_reg tid dst i src (i % 2))

  pub movsx_r2r_opqw : ℕ → ℕ → ℕ → Cmd o (Unit {0})
  unfolding for_up copy_reg
  movsx_r2r_opqw tid dst src = for_up 8 0 (λ i. copy_reg tid dst i src (i % 2))

  pub movsx_r2r_opql : ℕ → ℕ → ℕ → Cmd o (Unit {0})
  unfolding for_up copy_reg
  movsx_r2r_opql tid dst src = for_up 8 0 (λ i. copy_reg tid dst i src (i % 4))

  pub movsx_m2r_opwb : ℕ → ℕ → ℕ → Cmd o (Unit {0})
  unfolding tagmap_getb tagmap_setb_reg
  movsx_m2r_opwb tid dst src = do
    src_tag ← tagmap_getb src
    tagmap_setb_reg tid dst 0 src_tag
    tagmap_setb_reg tid dst 1 src_tag

  pub movsx_m2r_oplb : ℕ → ℕ → ℕ → Cmd o (Unit {0})
  unfolding tagmap_getb fill_reg
  movsx_m2r_oplb tid dst src = do src_tag ← tagmap_getb src; fill_reg 4 tid dst (λ _. src_tag)

  pub movsx_m2r_opqb : ℕ → ℕ → ℕ → Cmd o (Unit {0})
  unfolding tagmap_getb fill_reg
  movsx_m2r_opqb tid dst src = do src_tag ← tagmap_getb src; fill_reg 8 tid dst (λ _. src_tag)

  pub movsx_m2r_oplw : ℕ → ℕ → ℕ → Cmd o (Unit {0})
  unfolding tagmap_getb fill_reg
  movsx_m2r_oplw tid dst src = do
    t0 ← tagmap_getb src
    t1 ← tagmap_getb (add64 src 1)
    fill_reg 4 tid dst (pick2 t0 t1)

  pub movsx_m2r_opqw : ℕ → ℕ → ℕ → Cmd o (Unit {0})
  unfolding tagmap_getb fill_reg
  movsx_m2r_opqw tid dst src = do
    t0 ← tagmap_getb src
    t1 ← tagmap_getb (add64 src 1)
    fill_reg 8 tid dst (pick2 t0 t1)

  pub movsx_m2r_opql : ℕ → ℕ → ℕ → Cmd o (Unit {0})
  unfolding tagmap_getb fill_reg
  movsx_m2r_opql tid dst src = do
    t0 ← tagmap_getb src
    t1 ← tagmap_getb (add64 src 1)
    t2 ← tagmap_getb (add64 src 2)
    t3 ← tagmap_getb (add64 src 3)
    fill_reg 8 tid dst (pick4 t0 t1 t2 t3)
