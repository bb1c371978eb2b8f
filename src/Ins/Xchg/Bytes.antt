-- ===== src/Ins/Xchg/Bytes.antt =====
-- What the exchanges of two registers of 8 and 16 bits of src/ins_xchg_op.cpp do to every tag.
use libdft64_ect.Prelude.{
  ℕ, ◌+◌, ◌-◌, ◌≡◌, refl, ◌∙◌, ◌&&◌, Option, ◌==◌, ltb, leb, if◌then◌else◌, arith, Bool-cases, inl,
  inr,
}
use libdft64_ect.Tag.{TagTraits}
use libdft64_ect.Machine.{State, Cmd, write_reg}
use libdft64_ect.Machine.Loop.{Ends, >>-Ends, mono-Ends}
use libdft64_ect.Machine.Effect.{Loc, reg, mem, look, to_reg, Became}
use libdft64_ect.Ins.Movsx.{fill_reg}
use libdft64_ect.Ins.Movsx.Laws.{fill_reg-Ends}
use libdft64_ect.Ins.Xchg.{
  xchg_r2r_opb_ul, xchg_r2r_opb_lu, xchg_r2r_opb_u, xchg_r2r_opb_l, xchg_r2r_opw,
}

-- The functions: an upper or a lower byte of the first register and of the second, or 16 bits of
-- each.
pub data Pair : Type 0 where
  upper_lower lower_upper upper_upper lower_lower words : Pair

abbrev pub pair_bytes : Pair → ℕ
pair_bytes words = 2
pair_bytes upper_lower = 1
pair_bytes lower_upper = 1
pair_bytes upper_upper = 1
pair_bytes lower_lower = 1

-- The first of the bytes in the first register, and in the second.
abbrev pub dst_from : Pair → ℕ
dst_from words = 0
dst_from upper_lower = 1
dst_from lower_upper = 0
dst_from upper_upper = 1
dst_from lower_lower = 0

abbrev pub src_from : Pair → ℕ
src_from words = 0
src_from upper_lower = 0
src_from lower_upper = 1
src_from upper_upper = 1
src_from lower_lower = 0

module _ {o : TagTraits} where
  unfoldable pub xchg_pair : Pair → ℕ → ℕ → ℕ → Cmd o (Unit {0})
  xchg_pair words = xchg_r2r_opw
  xchg_pair upper_lower = xchg_r2r_opb_ul
  xchg_pair lower_upper = xchg_r2r_opb_lu
  xchg_pair upper_upper = xchg_r2r_opb_u
  xchg_pair lower_lower = xchg_r2r_opb_l

  -- The tags after an exchange of `n` bytes of `dst`, from `i` on, and of `src`, from `j` on.
  abbrev pub traded : ℕ → ℕ → ℕ → ℕ → ℕ → ℕ → State o → Loc → Option o.Tag
  traded tid n dst i src j s (reg t q x) =
      if t == tid && (q == src && (leb j x && ltb x (j + n)))
      then look s (reg tid dst (i + (x - j)))
      else if t == tid && (q == dst && (leb i x && ltb x (i + n)))
      then look s (reg tid src (j + (x - i)))
      else look s (reg t q x)
  traded tid n dst i src j s (mem a) = look s (mem a)

  module _ (s : State o) where
    byte_after : ℕ → ℕ → ℕ → ℕ → ℕ → State o
    byte_after tid dst i src j = record s {
      gpr = write_reg (write_reg s.gpr tid dst i (s.gpr tid src j)) tid src j (s.gpr tid dst i);
    }

    byte-traded :
        (tid dst i src j : ℕ) → Became s 0 (traded tid 1 dst i src j s) (byte_after tid dst i src j)
    unfolding byte_after
    byte-traded tid dst i src j = record { tags = tags; store = refl; memory = omega arith }
      where
        tags : (l : Loc) → look (byte_after tid dst i src j) l ≡ traded tid 1 dst i src j s l
        tags (mem a) = refl
        tags (reg t q x) =
            let at_i : i + (j - j) ≡ i = omega arith in
            let at_j : j + (i - i) ≡ j = omega arith in
            elim (Bool-cases (x == j)) [
              | inl hit ↦
                  let same : x ≡ j = ground arith in
                  elim (Bool-cases (j == i)) [
                    | inl both ↦
                        let eq : j ≡ i = ground arith in
                        let none_on : i + (i - i) ≡ i = omega arith in
                        rw (same, at_i, eq, none_on) (ground arith)
                    | inr apart ↦ rw (same, at_i) (ground arith)
                  ]
              | inr miss ↦ elim (Bool-cases (x == i)) [
                | inl hit ↦ let same : x ≡ i = ground arith in rw (same, at_j) (ground arith)
                | inr off ↦ ground arith
              ]
            ]

    word-swaps :
        (tid dst src : ℕ)
        → Ends (Became s 0 (traded tid 2 dst 0 src 0 s)) s (xchg_r2r_opw tid dst src)
    unfolding xchg_r2r_opw
    word-swaps tid dst src =
        >>-Ends s (fill_reg 2 tid dst (s.gpr tid src)) (fill_reg 2 tid src (s.gpr tid dst))
          (fill_reg-Ends s 2 tid dst (s.gpr tid src) (λ i. look s (reg tid src i)) (λ i h. refl))
          λ s1 b1.
            mono-Ends s1 (fill_reg 2 tid src (s.gpr tid dst))
              (fill_reg-Ends s1 2 tid src (s.gpr tid dst) (λ i. look s (reg tid dst i))
                (λ i h. refl))
              λ s2 b2. record {
                tags = λ l. both tid dst src s1 s2 b1.tags b2.tags l;
                store = b2.store ∙ b1.store;
                memory = omega (arith, b1.memory, b2.memory);
              }
      where
        both :
            (tid dst src : ℕ) (s1 s2 : State o)
            → ((l : Loc) → look s1 l ≡ to_reg tid dst 2 (λ i. look s (reg tid src i)) s l)
            → ((l : Loc) → look s2 l ≡ to_reg tid src 2 (λ i. look s (reg tid dst i)) s1 l)
            → (l : Loc) → look s2 l ≡ traded tid 2 dst 0 src 0 s l
        both tid dst src s1 s2 t1 t2 (mem a) = t2 (mem a) ∙ t1 (mem a)
        both tid dst src s1 s2 t1 t2 (reg t q x) =
            let first : 0 + (x - 0) ≡ x = omega arith in
            t2 (reg t q x) ∙ rw (t1 (reg t q x), first) (ground arith)

    -- The exchange of two registers by the functions for 8 and 16 bits gives the bytes of each the tags
    -- that those of the other had, also where both are parts of one register, and changes no other tag.
    pub xchg_pair-swaps :
        (v : Pair) (tid dst src : ℕ)
        → Ends
            (Became s 0 (traded tid (pair_bytes v) dst (dst_from v) src (src_from v) s))
            s
            (xchg_pair v tid dst src)
    unfolding xchg_pair xchg_r2r_opb_ul xchg_r2r_opb_lu xchg_r2r_opb_u xchg_r2r_opb_l byte_after
    xchg_pair-swaps upper_lower tid dst src = (_, refl, byte-traded tid dst 1 src 0)
    xchg_pair-swaps lower_upper tid dst src = (_, refl, byte-traded tid dst 0 src 1)
    xchg_pair-swaps upper_upper tid dst src = (_, refl, byte-traded tid dst 1 src 1)
    xchg_pair-swaps lower_lower tid dst src = (_, refl, byte-traded tid dst 0 src 0)
    xchg_pair-swaps words tid dst src = word-swaps tid dst src
