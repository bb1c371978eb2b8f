-- ===== src/Machine/Join.antt =====
-- Steps that combine two tags and store the result.
use libdft64_ect.Prelude.{
  ℕ, zero, suc, ◌+◌, ◌≤◌, ◌<◌, ◌≡◌, refl, sym, ap, ◌∙◌, Bool, true, false, ◌||◌, Option, none, some,
  if◌then◌else◌, arith, Bool-cases, inl, inr, ◌⊎◌,
}
use libdft64_ect.Tag.{TagTraits}
use libdft64_ect.Tag.Laws.{TagModel, TagLaws, IsTagOf}
use libdft64_ect.TagMap.{max_addr}
use libdft64_ect.Machine.{
  State, Cmd, for_up, combine, write_reg, tagmap_setb_reg, tagmap_setb, ◌>>=◌,
}
use libdft64_ect.Machine.Effect.{Loc, reg, mem, look, to_mem, Became, setb-Ends}
use libdft64_ect.Machine.Meaning
use libdft64_ect.Machine.Meaning.{
  Outcome, returns, faults, IsState, Combined, combine-Outcome, offsets, same_loc,
}

module _ {o : TagTraits} (m : TagModel o) (P : ℕ → State o → Type 0) (body : ℕ → Cmd o (Unit {0}))
    (last : ℕ) where
  -- The rule of loops for runs that may fault.
  pub for_up-Outcome :
      ((i : ℕ) (s : State o) → i < last → P i s → Outcome m (λ r. P (i + 1) r.1) (body i s))
      → (rounds i : ℕ) (s : State o) → i + rounds ≡ last
      → P i s
      → Outcome m (λ r. P last r.1) (for_up rounds i body s)
  unfolding for_up
  for_up-Outcome keep zero i s e p = let e' : i ≡ last = omega arith in returns (rw (← e') p)
  for_up-Outcome keep (suc rounds) i s e p =
      Meaning.bind (keep i s (omega arith) p)
        λ r q. for_up-Outcome keep rounds (i + 1) r.1 (omega arith) q

-- The offsets after a write of the set `m` to one location.
abbrev pub with_offsets : Loc → (ℕ → Bool) → (Loc → ℕ → Bool) → Loc → ℕ → Bool
with_offsets at m f l n = if same_loc l at then m n else f l n

module _ {o : TagTraits} (laws : TagLaws o) where
  -- The state is well formed and has the offsets `f`, with `k` blocks of memory less than `s` at most.
  pub record Joined (s : State o) (k : ℕ) (f : Loc → ℕ → Bool) (s' : State o) : Type 0 where
    pub ghost : laws.model.Ghost
    pub wf : IsState laws s' ghost
    pub same : (l : Loc) (n : ℕ) → offsets laws s' l n ≡ f l n
    pub memory : s.dir.mem_left ≤ s'.dir.mem_left + k

  pub Joined-mono :
      (s s' : State o) (k k' : ℕ) (f f' : Loc → ℕ → Bool)
      → ((l : Loc) (n : ℕ) → f l n ≡ f' l n)
      → k ≡ k'
      → Joined s k f s'
      → Joined s k' f' s'
  Joined-mono s s' k k' f f' same e j = record {
    ghost = j.ghost;
    wf = j.wf;
    same = λ l n. j.same l n ∙ same l n;
    memory = rw (← e) j.memory;
  }

  abbrev members : o.Store → ℕ → Option o.Tag → Bool
  members st n x = elim x [ none ↦ false | some t ↦ laws.model.member st t n ]

  members-kept :
      (s1 s' : State o) (g : laws.model.Ghost) (m : ℕ → Bool) (t : o.Tag)
      → (u : IsTagOf laws.model s1.store g m (t, s'.store)) → (x : Option o.Tag) (n : ℕ)
      → ((t' : o.Tag) → x ≡ some t' → laws.model.IsTag s1.store g t')
      → members s'.store n x ≡ members s1.store n x
  members-kept s1 s' g m t u none n known = refl
  members-kept s1 s' g m t u (some t') n known = (u.kept t' (known t' refl)).1 n

  -- A state whose tags are those of `s` but for one location, which has the new tag of the store.
  pub written-Joined :
      (s s1 s' : State o) (k kk : ℕ) (f : Loc → ℕ → Bool) (at : Loc) (m : ℕ → Bool) (t : o.Tag)
      → (j : Joined s k f s1) → (u : IsTagOf laws.model s1.store j.ghost m (t, s'.store))
      → ((l : Loc) → look s' l ≡ (if same_loc l at then some t else look s1 l))
      → s.dir.mem_left ≤ s'.dir.mem_left + kk
      → Joined s kk (with_offsets at m f) s'
  written-Joined s s1 s' k kk f at m t j u tags left = record {
    ghost = u.ghost;
    wf = record { store = u.store; tags = λ l t' e. known l t' e (Bool-cases (same_loc l at)) };
    same = λ l n. meaning l n (Bool-cases (same_loc l at));
    memory = left;
  }
    where
      known :
          (l : Loc) (t' : o.Tag)
          → look s' l ≡ some t'
          → (same_loc l at ≡ true) ⊎ (same_loc l at ≡ false)
          → laws.model.IsTag s'.store u.ghost t'
      known l t' e (inl hit) =
          let eq : some t ≡ some t' = sym (rw hit at (tags l)) ∙ e in
          let eq' : t ≡ t' = cc in rw (← eq') u.tag
      known l t' e (inr miss) = (u.kept t' (j.wf.tags l t' (sym (rw miss at (tags l)) ∙ e))).0

      meaning :
          (l : Loc) (n : ℕ)
          → (same_loc l at ≡ true) ⊎ (same_loc l at ≡ false)
          → offsets laws s' l n ≡ with_offsets at m f l n
      meaning l n (inl hit) =
          let here : look s' l ≡ some t = rw hit at (tags l) in
          ap (members s'.store n) here ∙ (u.same n ∙ rw hit refl)
      meaning l n (inr miss) =
          let there : look s' l ≡ look s1 l = rw miss at (tags l) in
          ap (members s'.store n) there
          ∙ (members-kept s1 s' j.ghost m t u (look s1 l) n (j.wf.tags l)
              ∙ (j.same l n ∙ rw miss refl))

  module _ (s s' : State o) (k : ℕ) (f : Loc → ℕ → Bool) (j : Joined s k f s') (a b : o.Tag)
      (tid : ℕ) (a_tag : laws.model.IsTag s'.store j.ghost a)
      (b_tag : laws.model.IsTag s'.store j.ghost b) where
    abbrev joined : ℕ → Bool
    joined n = laws.model.member s'.store a n || laws.model.member s'.store b n

    -- The union of two tags into a byte of a register.
    pub into_reg-Outcome :
        (t q i : ℕ)
        → Outcome laws.model
            (λ r. Joined s k (with_offsets (reg t q i) joined f) r.1)
            ((combine a b tid >>= tagmap_setb_reg t q i) s')
    unfolding tagmap_setb_reg
    into_reg-Outcome t q i =
        Meaning.bind (combine-Outcome laws s' j.ghost a b tid j.wf.store a_tag b_tag) λ r c.
          let after : State o = record r.1 { gpr = write_reg r.1.gpr t q i r.0 } in
          returns (
            written-Joined s s' after k k f (reg t q i) joined r.0 j c.meaning (tags r c)
              (rw (ap (λ x. x.dir.mem_left) c.rest) j.memory))
      where
        tags :
            (r : o.Tag × State o)
            → Combined laws s' j.ghost joined r
            → (l : Loc)
            → look (record r.1 { gpr = write_reg r.1.gpr t q i r.0 }) l
              ≡ (if same_loc l (reg t q i) then some r.0 else look s' l)
        tags r c (mem x) = ap (λ x'. look x' (mem x)) c.rest
        tags r c (reg t' q' i') = ground (arith, ap (λ x. x.gpr t' q' i') c.rest)

    -- The union into a byte of memory.
    pub into_mem-Outcome :
        (addr : ℕ)
        → addr ≤ max_addr
        → 2 ≤ s'.dir.mem_left
        → Outcome laws.model
            (λ r. Joined s (k + 2) (with_offsets (mem addr) joined f) r.1)
            ((combine a b tid >>= tagmap_setb addr) s')
    into_mem-Outcome addr h room =
        Meaning.bind (combine-Outcome laws s' j.ghost a b tid j.wf.store a_tag b_tag) λ r c.
          let left : r.1.dir.mem_left ≡ s'.dir.mem_left = ap (λ x. x.dir.mem_left) c.rest in
          let (after, e, w) =
            setb-Ends r.1 addr r.0 2 laws.empty_eq h (ground arith) (rw left room) in
          rw e (
            returns (
              written-Joined s s' after k (k + 2) f (mem addr) joined r.0 j
                (rw (← w.store) at c.meaning) (tags r c after w)
                (omega (arith, w.memory, left, j.memory))))
      where
        tags :
            (r : o.Tag × State o)
            → Combined laws s' j.ghost joined r
            → (after : State o) → Became r.1 2 (to_mem addr 1 (λ _. some r.0) r.1) after
            → (l : Loc) → look after l ≡ (if same_loc l (mem addr) then some r.0 else look s' l)
        tags r c after w (reg t q i) = w.tags (reg t q i) ∙ ap (λ x. look x (reg t q i)) c.rest
        tags r c after w (mem x) = w.tags (mem x) ∙ ground (arith, ap (λ y. look y (mem x)) c.rest)
