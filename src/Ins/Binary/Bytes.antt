-- ===== src/Ins/Binary/Bytes.antt =====
-- The analysis functions of src/ins_binary_op.cpp for one byte, in the lower or the upper part of a
-- register.
use libdft64_ect.Prelude.{
  ℕ, ◌+◌, ◌-◌, ◌≤◌, ◌≡◌, refl, sym, ap, ◌∙◌, Bool, true, false, ◌&&◌, ◌||◌, none, some, ◌==◌, ltb,
  leb, if◌then◌else◌, arith, Bool-cases, inl, inr,
}
use libdft64_ect.Tag.{TagTraits}
use libdft64_ect.Tag.Laws.{TagLaws}
use libdft64_ect.TagMap.{max_addr}
use libdft64_ect.Machine.{State}
use libdft64_ect.Machine.Effect.{Loc, reg, mem, look, getb-some}
use libdft64_ect.Machine.Meaning
use libdft64_ect.Machine.Meaning.{Outcome, returns, IsState, offsets, same_loc}
use libdft64_ect.Machine.Join.{
  Joined, Joined-mono, with_offsets, into_reg-Outcome, into_mem-Outcome,
}
use libdft64_ect.Ins.Binary.{combine_reg, combine_load_byte, combine_store}
use libdft64_ect.Ins.Binary.Laws.{gain_reg, gain_mem}

or_comm : (a b : Bool) → a || b ≡ b || a
or_comm true true = refl
or_comm true false = refl
or_comm false true = refl
or_comm false false = refl

module _ {o : TagTraits} (laws : TagLaws o) where
  -- `n` bytes of a register from `from` on gain the offsets of the locations `src`.
  abbrev pub gain_part : ℕ → ℕ → ℕ → ℕ → (ℕ → Loc) → State o → Loc → ℕ → Bool
  gain_part tid dst from n src s (reg t q i) k =
      if t == tid && (q == dst && (leb from i && ltb i (from + n)))
      then offsets laws s (reg t q i) k || offsets laws s (src (i - from)) k
      else offsets laws s (reg t q i) k
  gain_part tid dst from n src s (mem a) k = offsets laws s (mem a) k

  pub gain_reg-part :
      (tid dst n : ℕ) (src src' : ℕ → Loc) (s : State o)
      → ((i : ℕ) → src i ≡ src' i)
      → (l : Loc) (k : ℕ) → gain_reg laws tid dst n src s l k ≡ gain_part tid dst 0 n src' s l k
  gain_reg-part tid dst n src src' s same (mem a) k = refl
  gain_reg-part tid dst n src src' s same (reg t q i) k =
      ground (arith, ap (λ l. offsets laws s l k) (same i))

  module _ (s : State o) (g : laws.model.Ghost) (ok : IsState laws s g) where
    abbrev unchanged : Joined laws s 0 (offsets laws s) s
    unchanged = record { ghost = g; wf = ok; same = λ l n. refl; memory = omega arith }

    read_offsets :
        (l : Loc) (t : o.Tag) (k : ℕ)
        → look s l ≡ some t
        → laws.model.member s.store t k ≡ offsets laws s l k
    read_offsets l t k e =
        sym (ap (λ x. elim x [ none ↦ false | some t' ↦ laws.model.member s.store t' k ]) e)

    byte_gain :
        (tid dst i : ℕ) (src : ℕ → Loc) (m : ℕ → Bool)
        → ((k : ℕ) → m k ≡ offsets laws s (reg tid dst i) k || offsets laws s (src 0) k)
        → (l : Loc) (k : ℕ)
        → with_offsets (reg tid dst i) m (offsets laws s) l k ≡ gain_part tid dst i 1 src s l k
    byte_gain tid dst i src m same (mem a) k = refl
    byte_gain tid dst i src m same (reg t q x) k = elim (Bool-cases (x == i)) [
      | inl hit ↦
          let e : x ≡ i = ground arith in
          let at : i - i ≡ 0 = omega arith in rw (e, at) (ground (arith, same k))
      | inr miss ↦ ground arith
    ]

    pub combine_reg-gains :
        (tid dst i src j : ℕ) (from : ℕ → Loc)
        → from 0 ≡ reg tid src j
        → Outcome laws.model
            (λ r. Joined laws s 0 (gain_part tid dst i 1 from s) r.1)
            (combine_reg tid dst i src j s)
    unfolding combine_reg
    combine_reg-gains tid dst i src j from e =
        Meaning.mono
          (into_reg-Outcome laws s s 0 (offsets laws s) unchanged (s.gpr tid dst i)
            (s.gpr tid src j) tid (ok.tags (reg tid dst i) _ refl) (ok.tags (reg tid src j) _ refl)
            tid dst i)
          λ r w. Joined-mono laws s r.1 0 0 _ _ (byte_gain tid dst i from _ (λ k. rw e refl)) refl w

    pub combine_load-gains :
        (tid dst i addr : ℕ) (from : ℕ → Loc)
        → from 0 ≡ mem addr
        → addr ≤ max_addr
        → Outcome laws.model
            (λ r. Joined laws s 0 (gain_part tid dst i 1 from s) r.1)
            (combine_load_byte tid dst i addr s)
    unfolding combine_load_byte
    combine_load-gains tid dst i addr from e h =
        let (t, e', l) = getb-some s addr h in
        rw e' (
          Meaning.mono
            (into_reg-Outcome laws s s 0 (offsets laws s) unchanged t (s.gpr tid dst i) tid
              (ok.tags (mem addr) t l) (ok.tags (reg tid dst i) _ refl) tid dst i)
            λ r w.
              Joined-mono laws s r.1 0 0 _ _
                (byte_gain tid dst i from _ (λ k.
                  or_comm (laws.model.member s.store t k) (offsets laws s (reg tid dst i) k)
                  ∙ rw (e, read_offsets (mem addr) t k l) refl))
                refl w)

    pub combine_store-gains :
        (tid addr src i : ℕ) (from : ℕ → Loc)
        → from 0 ≡ reg tid src i
        → addr ≤ max_addr
        → 2 ≤ s.dir.mem_left
        → Outcome laws.model
            (λ r. Joined laws s 2 (gain_mem laws addr 1 from s) r.1)
            (combine_store tid addr src i s)
    unfolding combine_store
    combine_store-gains tid addr src i from e h room =
        let (t, e', l) = getb-some s addr h in
        rw e' (
          Meaning.mono
            (into_mem-Outcome laws s s 0 (offsets laws s) unchanged t (s.gpr tid src i) tid
              (ok.tags (mem addr) t l) (ok.tags (reg tid src i) _ refl) addr h room)
            λ r w. Joined-mono laws s r.1 _ 2 _ _ (gained t l) refl w)
      where
        gained :
            (t : o.Tag)
            → look s (mem addr) ≡ some t
            → (l : Loc) (k : ℕ)
            → with_offsets
                (mem addr)
                (λ n.
                  laws.model.member s.store t n || laws.model.member s.store (s.gpr tid src i) n)
                (offsets laws s)
                l
                k
              ≡ gain_mem laws addr 1 from s l k
        gained t l (reg t' q x) k = refl
        gained t l (mem a) k = elim (Bool-cases (a == addr)) [
          | inl hit ↦
              let same : a ≡ addr = ground arith in
              let at : addr - addr ≡ 0 = omega arith in
              rw (same, at, e) (ground (arith, read_offsets (mem addr) t k l))
          | inr miss ↦ ground arith
        ]
