-- ===== src/Ins/Binary.antt =====
-- The analysis functions of src/ins_binary_op.cpp, which combine the tags of two operands.
pub mod Laws
pub mod Bytes
use libdft64_ect.Prelude.{ℕ, ◌+◌}
use libdft64_ect.Tag.{TagTraits}
use libdft64_ect.Machine.{
  Cmd, add64, ◌>>=◌, ◌>>◌, for_up, combine, tagmap_getb_reg, tagmap_setb_reg, tagmap_getb,
  tagmap_setb,
}

module _ {o : TagTraits} where
  -- `RTAG[dst][i] = tag_combine(RTAG[dst][i], RTAG[src][j], tid)`.
  unfoldable pub combine_reg : ℕ → ℕ → ℕ → ℕ → ℕ → Cmd o (Unit {0})
  unfolding tagmap_getb_reg tagmap_setb_reg combine
  combine_reg tid dst i src j = do
    b ← tagmap_getb_reg tid src j
    a ← tagmap_getb_reg tid dst i
    r ← combine a b tid
    tagmap_setb_reg tid dst i r

  -- `RTAG[dst][i] = tag_combine(RTAG[dst][i], MTAG(addr), tid)`.
  unfoldable pub combine_load : ℕ → ℕ → ℕ → ℕ → Cmd o (Unit {0})
  unfolding tagmap_getb_reg tagmap_getb tagmap_setb_reg combine
  combine_load tid dst i addr = do
    b ← tagmap_getb addr
    a ← tagmap_getb_reg tid dst i
    r ← combine a b tid
    tagmap_setb_reg tid dst i r

  -- `RTAG[dst][i] = tag_combine(MTAG(addr), RTAG[dst][i], tid)`.
  unfoldable pub combine_load_byte : ℕ → ℕ → ℕ → ℕ → Cmd o (Unit {0})
  unfolding tagmap_getb_reg tagmap_getb tagmap_setb_reg combine
  combine_load_byte tid dst i addr = do
    a ← tagmap_getb addr
    b ← tagmap_getb_reg tid dst i
    r ← combine a b tid
    tagmap_setb_reg tid dst i r

  -- `tagmap_setb(addr, tag_combine(MTAG(addr), RTAG[src][i], tid))`.
  unfoldable pub combine_store : ℕ → ℕ → ℕ → ℕ → Cmd o (Unit {0})
  unfolding tagmap_getb_reg tagmap_getb tagmap_setb combine
  combine_store tid addr src i = do
    b ← tagmap_getb_reg tid src i
    a ← tagmap_getb addr
    r ← combine a b tid
    tagmap_setb addr r

  unfoldable pub r2r_binary_opb_ul : ℕ → ℕ → ℕ → Cmd o (Unit {0})
  unfolding combine_reg
  r2r_binary_opb_ul tid dst src = combine_reg tid dst 1 src 0

  unfoldable pub r2r_binary_opb_lu : ℕ → ℕ → ℕ → Cmd o (Unit {0})
  unfolding combine_reg
  r2r_binary_opb_lu tid dst src = combine_reg tid dst 0 src 1

  unfoldable pub r2r_binary_opb_u : ℕ → ℕ → ℕ → Cmd o (Unit {0})
  unfolding combine_reg
  r2r_binary_opb_u tid dst src = combine_reg tid dst 1 src 1

  unfoldable pub r2r_binary_opb_l : ℕ → ℕ → ℕ → Cmd o (Unit {0})
  unfolding combine_reg
  r2r_binary_opb_l tid dst src = combine_reg tid dst 0 src 0

  -- The loops of the wider functions.
  pub r2r_binary_loop : ℕ → ℕ → ℕ → ℕ → Cmd o (Unit {0})
  unfolding for_up combine_reg
  r2r_binary_loop n tid dst src = for_up n 0 (λ i. combine_reg tid dst i src i)

  pub r2r_binary_opw : ℕ → ℕ → ℕ → Cmd o (Unit {0})
  unfolding r2r_binary_loop
  r2r_binary_opw tid dst src = r2r_binary_loop 2 tid dst src

  pub r2r_binary_opl : ℕ → ℕ → ℕ → Cmd o (Unit {0})
  unfolding r2r_binary_loop
  r2r_binary_opl tid dst src = r2r_binary_loop 4 tid dst src

  pub r2r_binary_opq : ℕ → ℕ → ℕ → Cmd o (Unit {0})
  unfolding r2r_binary_loop
  r2r_binary_opq tid dst src = r2r_binary_loop 8 tid dst src

  unfoldable pub r2r_binary_opx : ℕ → ℕ → ℕ → Cmd o (Unit {0})
  unfolding r2r_binary_loop
  r2r_binary_opx tid dst src = r2r_binary_loop 16 tid dst src

  pub r2r_binary_opy : ℕ → ℕ → ℕ → Cmd o (Unit {0})
  unfolding r2r_binary_loop
  r2r_binary_opy tid dst src = r2r_binary_loop 32 tid dst src

  unfoldable pub m2r_binary_opb_u : ℕ → ℕ → ℕ → Cmd o (Unit {0})
  unfolding combine_load_byte
  m2r_binary_opb_u tid dst src = combine_load_byte tid dst 1 src

  unfoldable pub m2r_binary_opb_l : ℕ → ℕ → ℕ → Cmd o (Unit {0})
  unfolding combine_load_byte
  m2r_binary_opb_l tid dst src = combine_load_byte tid dst 0 src

  pub m2r_binary_loop : ℕ → ℕ → ℕ → ℕ → Cmd o (Unit {0})
  unfolding for_up combine_load
  m2r_binary_loop n tid dst src = for_up n 0 (λ i. combine_load tid dst i (add64 src i))

  pub m2r_binary_opw : ℕ → ℕ → ℕ → Cmd o (Unit {0})
  unfolding m2r_binary_loop
  m2r_binary_opw tid dst src = m2r_binary_loop 2 tid dst src

  pub m2r_binary_opl : ℕ → ℕ → ℕ → Cmd o (Unit {0})
  unfolding m2r_binary_loop
  m2r_binary_opl tid dst src = m2r_binary_loop 4 tid dst src

  pub m2r_binary_opq : ℕ → ℕ → ℕ → Cmd o (Unit {0})
  unfolding m2r_binary_loop
  m2r_binary_opq tid dst src = m2r_binary_loop 8 tid dst src

  pub m2r_binary_opx : ℕ → ℕ → ℕ → Cmd o (Unit {0})
  unfolding m2r_binary_loop
  m2r_binary_opx tid dst src = m2r_binary_loop 16 tid dst src

  pub m2r_binary_opy : ℕ → ℕ → ℕ → Cmd o (Unit {0})
  unfolding m2r_binary_loop
  m2r_binary_opy tid dst src = m2r_binary_loop 32 tid dst src

  unfoldable pub r2m_binary_opb_u : ℕ → ℕ → ℕ → Cmd o (Unit {0})
  unfolding combine_store
  r2m_binary_opb_u tid dst src = combine_store tid dst src 1

  unfoldable pub r2m_binary_opb_l : ℕ → ℕ → ℕ → Cmd o (Unit {0})
  unfolding combine_store
  r2m_binary_opb_l tid dst src = combine_store tid dst src 0

  pub r2m_binary_loop : ℕ → ℕ → ℕ → ℕ → Cmd o (Unit {0})
  unfolding for_up combine_store
  r2m_binary_loop n tid dst src = for_up n 0 (λ i. combine_store tid (add64 dst i) src i)

  pub r2m_binary_opw : ℕ → ℕ → ℕ → Cmd o (Unit {0})
  unfolding r2m_binary_loop
  r2m_binary_opw tid dst src = r2m_binary_loop 2 tid dst src

  pub r2m_binary_opl : ℕ → ℕ → ℕ → Cmd o (Unit {0})
  unfolding r2m_binary_loop
  r2m_binary_opl tid dst src = r2m_binary_loop 4 tid dst src

  pub r2m_binary_opq : ℕ → ℕ → ℕ → Cmd o (Unit {0})
  unfolding r2m_binary_loop
  r2m_binary_opq tid dst src = r2m_binary_loop 8 tid dst src

  pub r2m_binary_opx : ℕ → ℕ → ℕ → Cmd o (Unit {0})
  unfolding r2m_binary_loop
  r2m_binary_opx tid dst src = r2m_binary_loop 16 tid dst src

  pub r2m_binary_opy : ℕ → ℕ → ℕ → Cmd o (Unit {0})
  unfolding r2m_binary_loop
  r2m_binary_opy tid dst src = r2m_binary_loop 32 tid dst src
