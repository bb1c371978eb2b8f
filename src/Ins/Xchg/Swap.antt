-- ===== src/Ins/Xchg/Swap.antt =====
-- What the exchanges of src/ins_xchg_op.cpp do to every tag.
use libdft64_ect.Prelude.{
  ℕ, zero, suc, ◌+◌, ◌-◌, ◌*◌, ◌≤◌, ◌<◌, ◌≡◌, refl, ◌∙◌, Option, some, arith, ◌==◌, if◌then◌else◌,
  Bool-cases, inl, inr,
}
use libdft64_ect.Tag.{TagTraits}
use libdft64_ect.TagMap.{max_addr}
use libdft64_ect.Machine.{State, Cmd, ◌>>=◌, ◌>>◌, tagmap_getb, tagmap_setb, tagmap_setb_reg}
use libdft64_ect.Ins.Xfer.Bytes.{to_part, write_byte-Ends}
use libdft64_ect.Machine.Loop.{Ends, >>-Ends, mono-Ends}
use libdft64_ect.Machine.Effect.{
  Loc, reg, mem, EmptyIsCleared, look, to_reg, to_mem, Became, getb-some, setb-Ends,
}
use libdft64_ect.Ins.Movsx.{fill_reg}
use libdft64_ect.Ins.Movsx.Laws.{fill_reg-Ends}
use libdft64_ect.Ins.Movsx.Loads.{getb-at}
use libdft64_ect.Ins.Stos.Laws.{fill_loop-Ends}
use libdft64_ect.Ins.Xchg.{
  read_tags, store_tags, xchg_m2r_opb_u, xchg_m2r_opb_l, xchg_m2r, xchg_m2r_opw, xchg_m2r_opl,
  xchg_m2r_opq,
}

-- The widths of the functions that are not for one byte.
pub data Size : Type 0 where
  w2 l4 q8 : Size

abbrev pub bytes_of : Size → ℕ
bytes_of w2 = 2
bytes_of l4 = 4
bytes_of q8 = 8

-- The functions for an exchange of a register and memory: one byte, of the upper or the lower part of
-- the register, or the first bytes of a wider one.
pub data Part : Type 0 where
  upper_byte lower_byte : Part
  first_bytes : Size → Part

abbrev pub part_bytes : Part → ℕ
part_bytes upper_byte = 1
part_bytes lower_byte = 1
part_bytes (first_bytes v) = bytes_of v

abbrev pub part_from : Part → ℕ
part_from upper_byte = 1
part_from lower_byte = 0
part_from (first_bytes v) = 0

module _ {o : TagTraits} where
  -- The tags after an exchange of `n` bytes of a register, from `from` on, and of memory.
  abbrev pub exchanged : ℕ → ℕ → ℕ → ℕ → ℕ → State o → Loc → Option o.Tag
  exchanged tid dst from addr n s (reg t q i) =
      to_part tid dst from n (λ i. look s (mem (addr + i))) s (reg t q i)
  exchanged tid dst from addr n s (mem a) =
      to_mem addr n (λ i. look s (reg tid dst (from + i))) s (mem a)

  unfoldable pub xchg_mem : Part → ℕ → ℕ → ℕ → Cmd o (Unit {0})
  xchg_mem upper_byte = xchg_m2r_opb_u
  xchg_mem lower_byte = xchg_m2r_opb_l
  xchg_mem (first_bytes w2) = xchg_m2r_opw
  xchg_mem (first_bytes l4) = xchg_m2r_opl
  xchg_mem (first_bytes q8) = xchg_m2r_opq

  module _ (s : State o) where
    one_more :
        (f : ℕ → Option o.Tag) (t : o.Tag) (tags : ℕ → o.Tag) (i n : ℕ)
        → f i ≡ some t
        → ((j : ℕ) → i + 1 ≤ j → j < i + 1 + n → f j ≡ some (tags j))
        → (j : ℕ) → i ≤ j
        → j < i + suc n
        → f j ≡ some (if j == i then t else tags j)
    one_more f t tags i n l ls j le lt = elim (Bool-cases (j == i)) [
      | inl hit ↦ let e : j ≡ i = ground arith in rw (hit, e) l
      | inr miss ↦ rw miss (ls j (ground arith) (omega arith))
    ]

    read_tags-some :
        (n i addr : ℕ)
        → addr + i + n ≤ max_addr + 1
        → (tags : ℕ → o.Tag) × (read_tags n i addr s ≡ some (tags, s))
          × ((j : ℕ) → i ≤ j → j < i + n → look s (mem (addr + j)) ≡ some (tags j))
    unfolding read_tags
    read_tags-some zero i addr h = (λ _. o.cleared_val, refl, λ j le lt. absurd (omega arith))
    read_tags-some (suc n) i addr h =
        let (t, e, l) = getb-at s addr i (omega arith) in
        let (tags, e', ls) = read_tags-some n (i + 1) addr (omega arith) in
        (
          λ j. if j == i then t else tags j,
          rw (e, e') refl,
          λ j le lt.
              one_more (λ x. look s (mem (addr + x))) t tags i n l (λ x low high. ls x low high) j
                le lt,
        )

    module _ (empty_eq : EmptyIsCleared o) where
      xchg_m2r-swaps :
          (n tid dst src : ℕ)
          → src + n ≤ max_addr + 1
          → 2 * n ≤ s.dir.mem_left
          → Ends (Became s (2 * n) (exchanged tid dst 0 src n s)) s (xchg_m2r n tid dst src)
      unfolding xchg_m2r store_tags
      xchg_m2r-swaps n tid dst src fits room =
          let (tags, e, ls) = read_tags-some n 0 src (omega arith) in
          let filled =
            fill_reg-Ends s n tid dst tags (λ i. look s (mem (src + i)))
              (λ i h. ls i (omega arith) (omega arith)) in
          rw e (
            >>-Ends s (fill_reg n tid dst tags) (store_tags n src (s.gpr tid dst)) filled λ s1 b1.
              mono-Ends s1 (store_tags n src (s.gpr tid dst))
                (fill_loop-Ends s1 empty_eq n src (s.gpr tid dst) fits (omega (arith, b1.memory)))
                λ s2 b2. record {
                  tags = both n tid dst src s1 s2 b1.tags b2.tags;
                  store = b2.store ∙ b1.store;
                  memory = omega (arith, b1.memory, b2.memory);
                })
        where
          both :
              (n tid dst src : ℕ) (s1 s2 : State o)
              → ((l : Loc) → look s1 l ≡ to_reg tid dst n (λ i. look s (mem (src + i))) s l)
              → ((l : Loc) → look s2 l ≡ to_mem src n (λ i. some (s.gpr tid dst i)) s1 l)
              → (l : Loc) → look s2 l ≡ exchanged tid dst 0 src n s l
          both n tid dst src s1 s2 t1 t2 (reg t q i) =
              t2 (reg t q i) ∙ (t1 (reg t q i) ∙ ground arith)
          both n tid dst src s1 s2 t1 t2 (mem a) =
              let same : 0 + (a - src) ≡ a - src = omega arith in
              t2 (mem a) ∙ rw (t1 (mem a), same) refl

      -- One byte of the register, the byte `i` of it, and one of memory.
      xchg_byte-swaps :
          (tid dst i src : ℕ)
          → src ≤ max_addr
          → 2 ≤ s.dir.mem_left
          → Ends (Became s 2 (exchanged tid dst i src 1 s)) s (
              tagmap_getb src >>= λ src_tag.
              (tagmap_setb_reg tid dst i src_tag >> tagmap_setb src (s.gpr tid dst i)))
      xchg_byte-swaps tid dst i src fits room =
          let (t, e, l) = getb-some s src fits in
          rw e (
            >>-Ends s (tagmap_setb_reg tid dst i t) (tagmap_setb src (s.gpr tid dst i))
              (write_byte-Ends s tid dst i t (λ _. some t) refl)
              λ s1 b1.
                mono-Ends s1 (tagmap_setb src (s.gpr tid dst i))
                  (setb-Ends s1 src (s.gpr tid dst i) 2 empty_eq fits (ground arith)
                    (omega (arith, b1.memory)))
                  λ s2 b2. record {
                    tags = both_byte tid dst i src t s1 s2 l b1.tags b2.tags;
                    store = b2.store ∙ b1.store;
                    memory = omega (arith, b1.memory, b2.memory);
                  })
        where
          both_byte :
              (tid dst i src : ℕ) (t : o.Tag) (s1 s2 : State o)
              → look s (mem src) ≡ some t
              → ((l : Loc) → look s1 l ≡ to_part tid dst i 1 (λ _. some t) s l)
              → ((l : Loc) → look s2 l ≡ to_mem src 1 (λ _. some (s.gpr tid dst i)) s1 l)
              → (l : Loc) → look s2 l ≡ exchanged tid dst i src 1 s l
          both_byte tid dst i src t s1 s2 read t1 t2 (reg t' q x) = elim (Bool-cases (x == i)) [
            | inl hit ↦
                let same : x ≡ i = ground arith in
                let here : src + (i - i) ≡ src = omega arith in
                t2 (reg t' q x) ∙ (t1 (reg t' q x) ∙ rw (same, here, read) refl)
            | inr miss ↦ t2 (reg t' q x) ∙ (t1 (reg t' q x) ∙ ground arith)
          ]
          both_byte tid dst i src t s1 s2 read t1 t2 (mem a) = elim (Bool-cases (a == src)) [
            | inl hit ↦
                let same : a ≡ src = ground arith in
                let here : i + (src - src) ≡ i = omega arith in
                t2 (mem a) ∙ rw (t1 (mem a), same, here) refl
            | inr miss ↦ t2 (mem a) ∙ rw (t1 (mem a)) (ground arith)
          ]

      -- An exchange of a register and user memory, of one byte of the upper or the lower part of the
      -- register or of its first 2, 4 or 8 bytes, gives the bytes of each the tags that those of the other
      -- had, and changes no other tag, if there is memory for the pages and the empty tag is the cleared
      -- one.
      pub xchg_mem-swaps :
          (v : Part) (tid dst src : ℕ)
          → src + part_bytes v ≤ max_addr + 1
          → 2 * part_bytes v ≤ s.dir.mem_left
          → Ends
              (Became s (2 * part_bytes v) (exchanged tid dst (part_from v) src (part_bytes v) s))
              s
              (xchg_mem v tid dst src)
      unfolding xchg_mem xchg_m2r_opb_u xchg_m2r_opb_l xchg_m2r_opw xchg_m2r_opl xchg_m2r_opq
      xchg_mem-swaps upper_byte tid dst src h m =
          xchg_byte-swaps tid dst 1 src (omega arith) (omega arith)
      xchg_mem-swaps lower_byte tid dst src h m =
          xchg_byte-swaps tid dst 0 src (omega arith) (omega arith)
      xchg_mem-swaps (first_bytes w2) tid dst src h m = xchg_m2r-swaps 2 tid dst src h m
      xchg_mem-swaps (first_bytes l4) tid dst src h m = xchg_m2r-swaps 4 tid dst src h m
      xchg_mem-swaps (first_bytes q8) tid dst src h m = xchg_m2r-swaps 8 tid dst src h m
