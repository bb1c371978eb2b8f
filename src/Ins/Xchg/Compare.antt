-- ===== src/Ins/Xchg/Compare.antt =====
-- What `CMPXCHG` on registers, by src/ins_xchg_op.cpp, does to every tag.
use libdft64_ect.Prelude.{
  ℕ, ◌%◌, ◌^◌, ◌<◌, ◌≤◌, ◌≡◌, refl, ◌∙◌, Bool, true, false, Option, some, arith, ltb, ◌==◌, ◌&&◌,
  if◌then◌else◌, >>=-eq-some,
}
use libdft64_ect.Tag.{TagTraits}
use libdft64_ect.Machine.{State, Cmd, pure, ◌>>◌, ◌>>=◌}
use libdft64_ect.Machine.Loop.{Ends, >>-Ends, mono-Ends}
use libdft64_ect.Machine.Effect.{Loc, reg, mem, look, to_reg, Became}
use libdft64_ect.Ins.Xfer.{dft_reg_rax}
use libdft64_ect.Ins.Movsx.Laws.{fill_reg-Ends}
use libdft64_ect.Ins.Xchg.{
  dft_reg_helper1, move_tags, cmpxchg_r2r_opq_fast, cmpxchg_r2r_opl_fast, cmpxchg_r2r_opw_fast,
  cmpxchg_r2r_opq_slow, cmpxchg_r2r_opl_slow, cmpxchg_r2r_opw_slow, cmpxchg_r2r_opq,
  cmpxchg_r2r_opl, cmpxchg_r2r_opw,
}
use libdft64_ect.Ins.Xchg.Swap.{Size, w2, l4, q8, bytes_of}

-- The bytes of `RAX` that are saved.
abbrev pub saved : Size → ℕ
saved w2 = 4
saved l4 = 4
saved q8 = 8

-- The bits of the two values that are compared.
abbrev pub compared_bits : Size → ℕ
compared_bits w2 = 16
compared_bits l4 = 32
compared_bits q8 = 32

abbrev pub same_values : Size → ℕ → ℕ → Bool
same_values v eax dst_val = eax % 2 ^ compared_bits v == dst_val % 2 ^ compared_bits v

module _ {o : TagTraits} where
  unfoldable pub cmpxchg_regs : Size → ℕ → ℕ → ℕ → ℕ → ℕ → Cmd o (Unit {0})
  cmpxchg_regs w2 = cmpxchg_r2r_opw
  cmpxchg_regs l4 = cmpxchg_r2r_opl
  cmpxchg_regs q8 = cmpxchg_r2r_opq

  -- The tags after it: the scratch register has those of `RAX`, and either `dst` has those of `src`, or
  -- `RAX` those of `dst`.
  abbrev pub compared : ℕ → ℕ → ℕ → ℕ → ℕ → Bool → State o → Loc → Option o.Tag
  compared tid n h dst src same s (mem a) = look s (mem a)
  compared tid n h dst src same s (reg t q i) =
      if t == tid && (q == dft_reg_helper1 && ltb i h)
      then look s (reg tid dft_reg_rax i)
      else if same
      then (if t == tid && (q == dst && ltb i n)
          then look s (reg tid src i)
          else look s (reg t q i))
      else if t == tid && (q == dft_reg_rax && ltb i n)
      then look s (reg tid dst i)
      else look s (reg t q i)

  module _ (s : State o) where
    move_tags-Ends :
        (n tid dst src : ℕ)
        → Ends
            (Became s 0 (to_reg tid dst n (λ i. look s (reg tid src i)) s))
            s
            (move_tags n tid dst src)
    unfolding move_tags
    move_tags-Ends n tid dst src =
        fill_reg-Ends s n tid dst (s.gpr tid src) (λ i. look s (reg tid src i)) λ i h. refl

  module _ (s : State o) (n h tid dst src : ℕ) (some_saved : n ≤ h) (p : 0 < dst)
      (q : 0 < src) where
    -- The tags after the first call.
    abbrev first : Loc → Option o.Tag
    first = compared tid n h dst src false s

    fast-Ends :
        Ends
          (Became s 0 first)
          s
          (move_tags h tid dft_reg_helper1 dft_reg_rax >> move_tags n tid dft_reg_rax dst)
    fast-Ends =
        >>-Ends s (move_tags h tid dft_reg_helper1 dft_reg_rax) (move_tags n tid dft_reg_rax dst)
          (move_tags-Ends s h tid dft_reg_helper1 dft_reg_rax)
          λ s1 b1.
            mono-Ends s1 (move_tags n tid dft_reg_rax dst) (move_tags-Ends s1 n tid dft_reg_rax dst)
              λ s2 b2. record {
                tags = both s1 s2 b1.tags b2.tags;
                store = b2.store ∙ b1.store;
                memory = omega (arith, b1.memory, b2.memory);
              }
      where
        both :
            (s1 s2 : State o)
            → ((l : Loc)
                → look s1 l
                  ≡ to_reg tid dft_reg_helper1 h (λ i. look s (reg tid dft_reg_rax i)) s l)
            → ((l : Loc) → look s2 l ≡ to_reg tid dft_reg_rax n (λ i. look s1 (reg tid dst i)) s1 l)
            → (l : Loc) → look s2 l ≡ first l
        both s1 s2 t1 t2 (mem a) = t2 (mem a) ∙ t1 (mem a)
        both s1 s2 t1 t2 (reg t r i) =
            ground (arith, t2 (reg t r i), t1 (reg t r i), t1 (reg tid dst i))

    slow-Ends :
        (s2 : State o)
        → Became s 0 first s2
        → Ends
            (Became s 0 (compared tid n h dst src true s))
            s2
            (move_tags h tid dft_reg_rax dft_reg_helper1 >> move_tags n tid dst src)
    slow-Ends s2 b2 =
        >>-Ends s2 (move_tags h tid dft_reg_rax dft_reg_helper1) (move_tags n tid dst src)
          (move_tags-Ends s2 h tid dft_reg_rax dft_reg_helper1)
          λ s3 b3. mono-Ends s3 (move_tags n tid dst src) (move_tags-Ends s3 n tid dst src) λ s4 b4.
            record {
              tags = both s3 s4 b3.tags b4.tags;
              store = b4.store ∙ (b3.store ∙ b2.store);
              memory = omega (arith, b2.memory, b3.memory, b4.memory);
            }
      where
        both :
            (s3 s4 : State o)
            → ((l : Loc)
                → look s3 l
                  ≡ to_reg tid dft_reg_rax h (λ i. look s2 (reg tid dft_reg_helper1 i)) s2 l)
            → ((l : Loc) → look s4 l ≡ to_reg tid dst n (λ i. look s3 (reg tid src i)) s3 l)
            → (l : Loc) → look s4 l ≡ compared tid n h dst src true s l
        both s3 s4 t3 t4 (mem a) = t4 (mem a) ∙ (t3 (mem a) ∙ b2.tags (mem a))
        both s3 s4 t3 t4 (reg t r i) = ground (
          arith,
          t4 (reg t r i),
          t3 (reg t r i),
          b2.tags (reg t r i),
          t3 (reg tid src i),
          b2.tags (reg tid src i),
          b2.tags (reg tid dft_reg_helper1 i),
        )

  then_pure :
      (m1 m2 : Cmd o (Unit {0})) (b : Bool) (s s2 : State o)
      → (m1 >> m2) s ≡ some (tt, s2)
      → (m1 >> (m2 >> pure b)) s ≡ some (b, s2)
  then_pure m1 m2 b s s2 e = let (x, e1, e2) = >>=-eq-some (m1 s) _ e in rw e1 (rw e2 refl)

  -- Both calls, for any widths.
  compare-Ends :
      (s : State o) (n h tid dst src : ℕ)
      → n ≤ h
      → 0 < dst
      → 0 < src
      → (same : Bool)
      → Ends (Became s 0 (compared tid n h dst src same s)) s (
          (move_tags h tid dft_reg_helper1 dft_reg_rax
            >> (move_tags n tid dft_reg_rax dst >> pure same))
          >>= λ b.
              if b
              then move_tags h tid dft_reg_rax dft_reg_helper1 >> move_tags n tid dst src
              else pure tt)
  compare-Ends s n h tid dst src k p q true =
      let (s2, e, b) = fast-Ends s n h tid dst src k p q in
      let (s4, e', b') = slow-Ends s n h tid dst src k p q s2 b in
      (s4, rw (then_pure _ _ true s s2 e) e', b')
  compare-Ends s n h tid dst src k p q false =
      let (s2, e, b) = fast-Ends s n h tid dst src k p q in
      (s2, rw (then_pure _ _ false s s2 e) refl, b)

  -- `CMPXCHG` on registers saves the tags of `RAX` in register 0. If the two values agree in the bits
  -- that are compared, at most 32 at every width, the first bytes of `dst` get the tags of `src`; if
  -- not, those of `RAX` get the tags of `dst`. No other tag changes. Neither register may be register
  -- 0; both may be the same, or `RAX`.
  pub cmpxchg_regs-moves :
      (s : State o) (v : Size) (tid eax dst dst_val src : ℕ)
      → 0 < dst
      → 0 < src
      → Ends
          (Became s 0 (compared tid (bytes_of v) (saved v) dst src (same_values v eax dst_val) s))
          s
          (cmpxchg_regs v tid eax dst dst_val src)
  unfolding cmpxchg_regs cmpxchg_r2r_opq cmpxchg_r2r_opl cmpxchg_r2r_opw cmpxchg_r2r_opq_fast
      cmpxchg_r2r_opl_fast cmpxchg_r2r_opw_fast cmpxchg_r2r_opq_slow cmpxchg_r2r_opl_slow
      cmpxchg_r2r_opw_slow
  cmpxchg_regs-moves s w2 tid eax dst dst_val src p q =
      compare-Ends s 2 4 tid dst src (omega arith) p q (same_values w2 eax dst_val)
  cmpxchg_regs-moves s l4 tid eax dst dst_val src p q =
      compare-Ends s 4 4 tid dst src (omega arith) p q (same_values l4 eax dst_val)
  cmpxchg_regs-moves s q8 tid eax dst dst_val src p q =
      compare-Ends s 8 8 tid dst src (omega arith) p q (same_values q8 eax dst_val)
