-- ===== src/Ins/Xchg/Regs.antt =====
-- What the exchanges of two registers of src/ins_xchg_op.cpp do to every tag.
use libdft64_ect.Prelude.{ℕ, ◌<◌, ◌≡◌, ◌∙◌, Option, arith, ltb, ◌==◌, ◌&&◌, ◌||◌, if◌then◌else◌}
use libdft64_ect.Tag.{TagTraits}
use libdft64_ect.Machine.{State, Cmd, ◌>>◌}
use libdft64_ect.Machine.Loop.{Ends, >>-Ends, mono-Ends}
use libdft64_ect.Machine.Effect.{Loc, reg, mem, look, to_reg, Became}
use libdft64_ect.Ins.Width.{Width, long, quad, bytes}
use libdft64_ect.Ins.Xfer.Moves.{r2r_xfer, r2r_xfer-copies}
use libdft64_ect.Ins.Xchg.{xchg_r2r_opl, xchg_r2r_opq}

-- The functions for registers wider than 16 bits.
pub data Wide : Type 0 where
  wide_long wide_quad : Wide

abbrev pub width : Wide → Width
width wide_long = long
width wide_quad = quad

module _ {o : TagTraits} where
  unfoldable pub xchg_regs : Wide → ℕ → ℕ → ℕ → Cmd o (Unit {0})
  xchg_regs wide_long = xchg_r2r_opl
  xchg_regs wide_quad = xchg_r2r_opq

  -- The tags after an exchange of the first `n` bytes of two registers. Register 0, the scratch
  -- register, has those of `dst`.
  abbrev pub swapped : ℕ → ℕ → ℕ → ℕ → State o → Loc → Option o.Tag
  swapped tid dst src n s (mem a) = look s (mem a)
  swapped tid dst src n s (reg t q i) =
      if t == tid && ltb i n
      then (if q == src || q == 0
          then look s (reg tid dst i)
          else if q == dst
          then look s (reg tid src i)
          else look s (reg t q i))
      else look s (reg t q i)

  module _ (s : State o) where
    three-Ends :
        (v : Width) (tid dst src : ℕ)
        → 0 < dst
        → 0 < src
        → Ends
            (Became s 0 (swapped tid dst src (bytes v) s))
            s
            (r2r_xfer v tid 0 dst >> (r2r_xfer v tid dst src >> r2r_xfer v tid src 0))
    three-Ends v tid dst src p q =
        >>-Ends s (r2r_xfer v tid 0 dst) (r2r_xfer v tid dst src >> r2r_xfer v tid src 0)
          (r2r_xfer-copies s v tid 0 dst)
          λ s1 b1.
            >>-Ends s1 (r2r_xfer v tid dst src) (r2r_xfer v tid src 0)
              (r2r_xfer-copies s1 v tid dst src)
              λ s2 b2. mono-Ends s2 (r2r_xfer v tid src 0) (r2r_xfer-copies s2 v tid src 0) λ s3 b3.
                record {
                  tags = all v tid dst src p q s1 s2 s3 b1.tags b2.tags b3.tags;
                  store = b3.store ∙ (b2.store ∙ b1.store);
                  memory = omega (arith, b1.memory, b2.memory, b3.memory);
                }
      where
        all :
            (v : Width) (tid dst src : ℕ)
            → 0 < dst
            → 0 < src
            → (s1 s2 s3 : State o)
            → ((l : Loc) → look s1 l ≡ to_reg tid 0 (bytes v) (λ i. look s (reg tid dst i)) s l)
            → ((l : Loc) → look s2 l ≡ to_reg tid dst (bytes v) (λ i. look s1 (reg tid src i)) s1 l)
            → ((l : Loc) → look s3 l ≡ to_reg tid src (bytes v) (λ i. look s2 (reg tid 0 i)) s2 l)
            → (l : Loc) → look s3 l ≡ swapped tid dst src (bytes v) s l
        all v tid dst src p q s1 s2 s3 t1 t2 t3 (mem a) = t3 (mem a) ∙ (t2 (mem a) ∙ t1 (mem a))
        all v tid dst src p q s1 s2 s3 t1 t2 t3 (reg t r i) = ground (
          arith,
          t3 (reg t r i),
          t2 (reg t r i),
          t1 (reg t r i),
          t2 (reg tid 0 i),
          t1 (reg tid 0 i),
          t1 (reg tid src i),
        )

    -- An exchange of two registers wider than 16 bits, by three moves through register 0, gives the first
    -- bytes of each the tags that those of the other had, and changes no other tag but those of
    -- register 0. Neither register may be that one; both may be the same.
    pub xchg_regs-swaps :
        (v : Wide) (tid dst src : ℕ)
        → 0 < dst
        → 0 < src
        → Ends (Became s 0 (swapped tid dst src (bytes (width v)) s)) s (xchg_regs v tid dst src)
    unfolding xchg_regs xchg_r2r_opl xchg_r2r_opq r2r_xfer
    xchg_regs-swaps wide_long tid dst src p q = three-Ends long tid dst src p q
    xchg_regs-swaps wide_quad tid dst src p q = three-Ends quad tid dst src p q
