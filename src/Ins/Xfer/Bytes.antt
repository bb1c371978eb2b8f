-- ===== src/Ins/Xfer/Bytes.antt =====
-- The analysis functions of src/ins_xfer_op.cpp for one byte, in the lower or the upper part of a
-- register.
use libdft64_ect.Prelude.{
  ℕ, ◌+◌, ◌-◌, ◌≤◌, ◌≡◌, refl, ◌∙◌, ◌&&◌, Option, some, ltb, leb, ◌==◌, if◌then◌else◌, arith,
  Bool-cases, inl, inr,
}
use libdft64_ect.Tag.{TagTraits}
use libdft64_ect.TagMap.{max_addr}
use libdft64_ect.Machine.{State, write_reg, tagmap_setb_reg, tagmap_setb}
use libdft64_ect.Machine.Loop.{Ends, mono-Ends}
use libdft64_ect.Machine.Effect.{
  Loc, reg, mem, EmptyIsCleared, look, to_reg, to_mem, Became, getb-some, setb-Ends,
}
use libdft64_ect.Ins.Xfer.{copy_reg, load_reg, store_reg}

module _ {o : TagTraits} where
  -- The tags after a write of `f` to `n` bytes of a register from `from` on.
  abbrev pub to_part : ℕ → ℕ → ℕ → ℕ → (ℕ → Option o.Tag) → State o → Loc → Option o.Tag
  to_part tid r from n f s (reg t q i) =
      if t == tid && (q == r && (leb from i && ltb i (from + n)))
      then f (i - from)
      else look s (reg t q i)
  to_part tid r from n f s (mem a) = look s (mem a)

  module _ (s : State o) where
    -- From the first byte on, these are the tags of `to_reg`.
    pub Became-part :
        (tid r n k : ℕ) (f g : ℕ → Option o.Tag) (s' : State o)
        → ((i : ℕ) → f i ≡ g i)
        → Became s k (to_reg tid r n f s) s'
        → Became s k (to_part tid r 0 n g s) s'
    Became-part tid r n k f g s' same b = record { tags = tags; store = b.store; memory = b.memory }
      where
        tags : (l : Loc) → look s' l ≡ to_part tid r 0 n g s l
        tags (mem a) = b.tags (mem a)
        tags (reg t q i) = b.tags (reg t q i) ∙ ground (arith, same i)

    pub write_byte-Ends :
        (tid r i : ℕ) (t : o.Tag) (f : ℕ → Option o.Tag)
        → f 0 ≡ some t
        → Ends (Became s 0 (to_part tid r i 1 f s)) s (tagmap_setb_reg tid r i t)
    unfolding tagmap_setb_reg
    write_byte-Ends tid r i t f e = (
      record s { gpr = write_reg s.gpr tid r i t },
      refl,
      record { tags = tags; store = refl; memory = omega arith },
    )
      where
        tags :
            (l : Loc)
            → look (record s { gpr = write_reg s.gpr tid r i t }) l ≡ to_part tid r i 1 f s l
        tags (mem a) = refl
        tags (reg t' q j) = elim (Bool-cases (j == i)) [
          | inl hit ↦
              let same : j ≡ i = ground arith in
              let at : i - i ≡ 0 = omega arith in rw (same, at) (ground (arith, e))
          | inr miss ↦ ground arith
        ]

    pub copy_reg-Ends :
        (tid dst i src j : ℕ) (f : ℕ → Option o.Tag)
        → f 0 ≡ look s (reg tid src j)
        → Ends (Became s 0 (to_part tid dst i 1 f s)) s (copy_reg tid dst i src j)
    unfolding copy_reg
    copy_reg-Ends tid dst i src j f e = write_byte-Ends tid dst i (s.gpr tid src j) f e

    pub load_reg-Ends :
        (tid dst i addr : ℕ) (f : ℕ → Option o.Tag)
        → f 0 ≡ look s (mem addr)
        → addr ≤ max_addr
        → Ends (Became s 0 (to_part tid dst i 1 f s)) s (load_reg tid dst i addr)
    unfolding load_reg
    load_reg-Ends tid dst i addr f e h =
        let (t, e', l) = getb-some s addr h in rw e' (write_byte-Ends tid dst i t f (e ∙ l))

    pub store_reg-Ends :
        (tid addr src i : ℕ) (f : ℕ → Option o.Tag)
        → f 0 ≡ look s (reg tid src i)
        → EmptyIsCleared o
        → addr ≤ max_addr
        → 2 ≤ s.dir.mem_left
        → Ends (Became s 2 (to_mem addr 1 f s)) s (store_reg tid addr src i)
    unfolding store_reg
    store_reg-Ends tid addr src i f e empty_eq h room =
        mono-Ends s (tagmap_setb addr (s.gpr tid src i))
          (setb-Ends s addr (s.gpr tid src i) 2 empty_eq h (ground arith) room)
          λ s' b. record { tags = λ l. b.tags l ∙ same l; store = b.store; memory = b.memory }
      where
        same : (l : Loc) → to_mem addr 1 (λ _. some (s.gpr tid src i)) s l ≡ to_mem addr 1 f s l
        same (reg t q j) = refl
        same (mem a) = elim (Bool-cases (a == addr)) [
          | inl hit ↦
              let here : a ≡ addr = ground arith in
              let at : addr - addr ≡ 0 = omega arith in rw (here, at, e) refl
          | inr miss ↦ ground arith
        ]
