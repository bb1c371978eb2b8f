-- ===== src/Ins/Lea.antt =====
-- The analysis functions of src/ins_xfer_op.cpp for `LEA`. The source's names have a leading
-- underscore.
pub mod Laws
use libdft64_ect.Prelude.{ℕ}
use libdft64_ect.Tag.{TagTraits}
use libdft64_ect.Machine.{Cmd, ◌>>=◌, for_up, combine, tagmap_getb_reg, tagmap_setb_reg}

module _ {o : TagTraits} where
  -- The loop of all three.
  pub lea_loop : ℕ → ℕ → ℕ → ℕ → ℕ → Cmd o (Unit {0})
  unfolding for_up tagmap_getb_reg tagmap_setb_reg combine
  lea_loop n tid dst base index = for_up n 0 (λ i. do
    a ← tagmap_getb_reg tid base i
    b ← tagmap_getb_reg tid index i
    r ← combine a b tid
    tagmap_setb_reg tid dst i r)

  pub lea_opw : ℕ → ℕ → ℕ → ℕ → Cmd o (Unit {0})
  unfolding lea_loop
  lea_opw = lea_loop 2

  pub lea_opl : ℕ → ℕ → ℕ → ℕ → Cmd o (Unit {0})
  unfolding lea_loop
  lea_opl = lea_loop 4

  pub lea_opq : ℕ → ℕ → ℕ → ℕ → Cmd o (Unit {0})
  unfolding lea_loop
  lea_opq = lea_loop 8
