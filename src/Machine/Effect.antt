-- ===== src/Machine/Effect.antt =====
-- What the analysis functions read and write: the tag of each byte of memory and of each register.
use libdft64_ect.Prelude.{
  ℕ, ◌+◌, ◌-◌, ◌≤◌, ◌≡◌, refl, ◌∙◌, true, ◌&&◌, Option, some, ltb, leb, ◌==◌, if◌then◌else◌, arith,
  Bool-cases, inl, inr,
}
use libdft64_ect.Tag.{TagTraits}
use libdft64_ect.TagMap.{TagDir, max_addr, tag_dir_getb_as_ptr}
use libdft64_ect.TagMap.Laws.{setb_save_mem-Written, read-some, Written}
use libdft64_ect.TagMap.Total.{setb_save_mem-total}
use libdft64_ect.Machine.{State, add64, tagmap_setb_reg, tagmap_getb, tagmap_setb, write_reg}
use libdft64_ect.Machine.Loop.{Ends}

-- A byte of memory, or byte `off` of register `reg` of thread `tid`.
pub data Loc : Type 0 where
  reg : ℕ → ℕ → ℕ → Loc
  mem : ℕ → Loc

-- The empty tag is the cleared one.
abbrev pub EmptyIsCleared : TagTraits → Type 0
EmptyIsCleared o = (t : o.Tag) → o.tag_is_empty t ≡ true → t ≡ o.cleared_val

-- What a write of a tag may allocate: a table and a page.
abbrev pub cost : (o : TagTraits) → o.Tag → ℕ
cost o t = if o.tag_is_empty t then 0 else 2

module _ {o : TagTraits} where
  -- The tag of a location; `none` where it cannot be read.
  abbrev pub look : State o → Loc → Option o.Tag
  look s (reg tid r i) = some (s.gpr tid r i)
  look s (mem a) = tag_dir_getb_as_ptr o.cleared_val s.dir a

  -- The tags after a write of `f` to the first `n` bytes of a register.
  abbrev pub to_reg : ℕ → ℕ → ℕ → (ℕ → Option o.Tag) → State o → Loc → Option o.Tag
  to_reg tid r n f s (reg t q i) =
      if t == tid && (q == r && ltb i n) then f i else look s (reg t q i)
  to_reg tid r n f s (mem a) = look s (mem a)

  -- The tags after a write of `f` to the `n` bytes of memory from `addr` on.
  abbrev pub to_mem : ℕ → ℕ → (ℕ → Option o.Tag) → State o → Loc → Option o.Tag
  to_mem addr n f s (reg t q i) = look s (reg t q i)
  to_mem addr n f s (mem a) =
      if leb addr a && ltb a (addr + n) then f (a - addr) else look s (mem a)

  -- The state has the tags `f`; the tag library is as in `s`, with `k` blocks of memory less at
  -- most.
  pub record Became (s : State o) (k : ℕ) (f : Loc → Option o.Tag) (s' : State o) : Type 0 where
    pub tags : (l : Loc) → look s' l ≡ f l
    pub store : s'.store ≡ s.store
    pub memory : s.dir.mem_left ≤ s'.dir.mem_left + k

  -- A write of nothing.
  pub Became-none_reg :
      (s : State o) (tid r : ℕ) (f : ℕ → Option o.Tag) → Became s 0 (to_reg tid r 0 f s) s
  Became-none_reg s tid r f = record { tags = same; store = refl; memory = omega arith }
    where
      same : (l : Loc) → look s l ≡ to_reg tid r 0 f s l
      same (mem a) = refl
      same (reg t q i) = ground arith

  pub Became-none_mem :
      (s : State o) (addr : ℕ) (f : ℕ → Option o.Tag) → Became s 0 (to_mem addr 0 f s) s
  Became-none_mem s addr f = record { tags = same; store = refl; memory = omega arith }
    where
      same : (l : Loc) → look s l ≡ to_mem addr 0 f s l
      same (mem a) = ground arith
      same (reg t q i) = refl

  -- A user address that can be read.
  pub getb-some :
      (s : State o) (a : ℕ)
      → a ≤ max_addr
      → (t : o.Tag) × (tagmap_getb a s ≡ some (t, s)) × (look s (mem a) ≡ some t)
  unfolding tagmap_getb
  getb-some s a h = let (t, e) = read-some o.cleared_val s.dir a h in (t, rw e, e)

  pub setb-Ends :
      (s : State o) (a : ℕ) (t : o.Tag) (c : ℕ)
      → EmptyIsCleared o
      → a ≤ max_addr
      → cost o t ≤ c
      → c ≤ s.dir.mem_left
      → Ends (Became s c (to_mem a 1 (λ _. some t) s)) s (tagmap_setb a t)
  unfolding tagmap_setb
  setb-Ends s a t c empty_eq h dear room =
      let enough : cost o t ≤ s.dir.mem_left = omega (arith, dear, room) in
      let (d, e, left) = setb_save_mem-total o.cleared_val o.tag_is_empty s.dir a t enough in
      (
        record s { dir = d },
        rw e,
        record {
          tags = λ l.
              setb-tags l d
                (setb_save_mem-Written o.cleared_val o.tag_is_empty empty_eq s.dir d a t e);
          store = refl;
          memory = omega (arith, left, dear);
        },
      )
    where
      setb-tags :
          (l : Loc) (d : TagDir o.Tag)
          → Written o.cleared_val s.dir a t d
          → look (record s { dir = d }) l ≡ to_mem a 1 (λ _. some t) s l
      setb-tags (reg tid r i) d w = refl
      setb-tags (mem b) d w = w b ∙ ground arith

  -- One more byte of a register.
  pub setb_reg-Ends :
      (s s' : State o) (k tid r i : ℕ) (f : ℕ → Option o.Tag) (t : o.Tag)
      → Became s k (to_reg tid r i f s) s'
      → f i ≡ some t
      → Ends (Became s k (to_reg tid r (i + 1) f s)) s' (tagmap_setb_reg tid r i t)
  unfolding tagmap_setb_reg
  setb_reg-Ends s s' k tid r i f t b e = (
    record s' { gpr = write_reg s'.gpr tid r i t },
    refl,
    record { tags = next; store = b.store; memory = b.memory },
  )
    where
      next :
          (l : Loc)
          → look (record s' { gpr = write_reg s'.gpr tid r i t }) l ≡ to_reg tid r (i + 1) f s l
      next (mem a) = b.tags (mem a)
      next (reg t' q j) = elim (Bool-cases (j == i)) [
        | inl hit ↦
            let same : j ≡ i = ground arith in rw same (ground (arith, e, b.tags (reg t' q i)))
        | inr miss ↦ ground (arith, b.tags (reg t' q j))
      ]

  -- One more byte of memory, with at most `c` allocations.
  pub setb_within-next :
      (s s' : State o) (addr i k c : ℕ) (f : ℕ → Option o.Tag) (t : o.Tag)
      → EmptyIsCleared o
      → addr + i ≤ max_addr
      → cost o t ≤ c
      → c ≤ s'.dir.mem_left
      → Became s k (to_mem addr i f s) s'
      → f i ≡ some t
      → Ends (Became s (k + c) (to_mem addr (i + 1) f s)) s' (tagmap_setb (addr + i) t)
  setb_within-next s s' addr i k c f t empty_eq h dear room b e =
      let (s'', e', b') = setb-Ends s' (addr + i) t c empty_eq h dear room in
      (
        s'',
        e',
        record {
          tags = λ l. b'.tags l ∙ next l;
          store = b'.store ∙ b.store;
          memory = omega (arith, b.memory, b'.memory);
        },
      )
    where
      next : (l : Loc) → to_mem (addr + i) 1 (λ _. some t) s' l ≡ to_mem addr (i + 1) f s l
      next (reg t' q j) = b.tags (reg t' q j)
      next (mem a) = elim (Bool-cases (a == addr + i)) [
        | inl hit ↦
            let same : a ≡ addr + i = ground arith in
            let at : addr + i - addr ≡ i = omega arith in rw (same, at) (ground (arith, e))
        | inr miss ↦ ground (arith, b.tags (mem a))
      ]

  pub setb-next :
      (s s' : State o) (addr i k : ℕ) (f : ℕ → Option o.Tag) (t : o.Tag)
      → EmptyIsCleared o
      → addr + i ≤ max_addr
      → 2 ≤ s'.dir.mem_left
      → Became s k (to_mem addr i f s) s'
      → f i ≡ some t
      → Ends (Became s (k + 2) (to_mem addr (i + 1) f s)) s' (tagmap_setb (add64 addr i) t)
  setb-next s s' addr i k f t empty_eq h room b e =
      let no_wrap : add64 addr i ≡ addr + i = omega arith in
      rw no_wrap (setb_within-next s s' addr i k 2 f t empty_eq h (ground arith) room b e)
