-- ===== src/Machine/Getn.antt =====
-- `tagmap_getn` and `tagmap_getn_reg` of src/tagmap.cpp: the union of the tags of a range.
use libdft64_ect.Prelude.{
  ℕ, zero, suc, ◌+◌, ◌≤◌, ◌<◌, ◌≡◌, refl, ap, ◌∙◌, Bool, false, ◌||◌, Option, none, some, arith,
  Bool-cases, inl, inr,
}
use libdft64_ect.Tag.{TagTraits}
use libdft64_ect.Tag.Laws.{TagLaws, IsTagOf}
use libdft64_ect.TagMap.{max_addr}
use libdft64_ect.Machine.{
  State, Cmd, add64, getn_loop, tagmap_getb_reg, tagmap_getn, tagmap_getn_reg,
}
use libdft64_ect.Machine.Effect.{Loc, reg, mem, look, getb-some}
use libdft64_ect.Machine.Meaning
use libdft64_ect.Machine.Meaning.{Outcome, returns, IsState, Combined, combine-Outcome, offsets}

module _ {o : TagTraits} (laws : TagLaws o) where
  abbrev any_tag : o.Store → (ℕ → o.Tag) → ℕ → ℕ → ℕ → Bool
  any_tag st t zero i n = false
  any_tag st t (suc rounds) i n = laws.model.member st (t i) n || any_tag st t rounds (i + 1) n

  any_tag-kept :
      (st st' : o.Store) (t : ℕ → o.Tag) (rounds i n : ℕ)
      → ((j : ℕ)
          → i ≤ j
          → j < i + rounds
          → laws.model.member st' (t j) n ≡ laws.model.member st (t j) n)
      → any_tag st' t rounds i n ≡ any_tag st t rounds i n
  any_tag-kept st st' t zero i n kept = refl
  any_tag-kept st st' t (suc rounds) i n kept =
      let here = kept i (omega arith) (omega arith) in
      rw (here, any_tag-kept st st' t rounds (i + 1) n λ j h k. kept j (omega arith) (omega arith))
        refl

  Combined-mono :
      (s : State o) (g : laws.model.Ghost) (f1 f2 : ℕ → Bool) (r : o.Tag × State o)
      → ((n : ℕ) → f1 n ≡ f2 n)
      → Combined laws s g f1 r
      → Combined laws s g f2 r
  Combined-mono s g f1 f2 r same c = record {
    meaning = record {
      ghost = c.meaning.ghost;
      store = c.meaning.store;
      tag = c.meaning.tag;
      same = λ n. c.meaning.same n ∙ same n;
      kept = c.meaning.kept;
    };
    rest = c.rest;
  }

  -- One more union behind another.
  Combined-trans :
      (s : State o) (st st1 : o.Store) (g : laws.model.Ghost) (f f1 f2 : ℕ → Bool) (a : o.Tag)
      (r : o.Tag × State o)
      → (k : IsTagOf laws.model st g f (a, st1)) → ((n : ℕ) → f1 n ≡ f2 n)
      → Combined laws (record s { store = st1 }) k.ghost f1 r
      → Combined laws (record s { store = st }) g f2 r
  Combined-trans s st st1 g f f1 f2 a r k same c = record {
    meaning = record {
      ghost = c.meaning.ghost;
      store = c.meaning.store;
      tag = c.meaning.tag;
      same = λ n. c.meaning.same n ∙ same n;
      kept = λ t b.
          let (b1, e1) = k.kept t b in let (b2, e2) = c.meaning.kept t b1 in (b2, λ n. e2 n ∙ e1 n);
    };
    rest = c.rest;
  }

  module _ (s : State o) (get : ℕ → Cmd o o.Tag) (t : ℕ → o.Tag) (last : ℕ)
      (reads : (i : ℕ) (st : o.Store)
        → i < last
        → get i (record s { store = st }) ≡ some (t i, record s { store = st })) where
    getn_loop-Outcome :
        (rounds i : ℕ) (st : o.Store) (g : laws.model.Ghost) (ts : o.Tag)
        → i + rounds ≡ last
        → laws.model.IsStore st g
        → laws.model.IsTag st g ts
        → ((j : ℕ) → j < last → laws.model.IsTag st g (t j))
        → Outcome laws.model
            (Combined laws
              (record s { store = st })
              g
              (λ n. laws.model.member st ts n || any_tag st t rounds i n))
            (getn_loop rounds i get ts (record s { store = st }))
    unfolding getn_loop
    getn_loop-Outcome zero i st g ts e w b bs = returns record {
      meaning = record {
        ghost = g;
        store = w;
        tag = b;
        same = λ n. ground arith;
        kept = λ t k. (k, λ n. refl);
      };
      rest = refl;
    }
    getn_loop-Outcome (suc rounds) i st g ts e w b bs =
        let h : i < last = omega arith in
        rw (reads i st h) (elim (Bool-cases (o.tag_is_empty (t i))) [
          | inl empty ↦
              let cleared : t i ≡ o.cleared_val = laws.empty_eq (t i) empty in
              rw empty (
                Meaning.mono (getn_loop-Outcome rounds (i + 1) st g ts (omega arith) w b bs) λ r c.
                  Combined-mono (record s { store = st }) g _ _ r
                    (λ n.
                      ground
                        (arith, ap (λ x. laws.model.member st x n) cleared, laws.cleared_none st n))
                    c)
          | inr not_empty ↦ rw not_empty (
              Meaning.bind
                (combine-Outcome laws (record s { store = st }) g ts (t i) 0 w b (bs i h))
                λ r c.
                  let m = c.meaning in
                  rw (c.rest) (
                    Meaning.mono
                      (getn_loop-Outcome rounds (i + 1) r.1.store m.ghost r.0 (omega arith) m.store
                        m.tag (λ j k. (m.kept (t j) (bs j k)).0))
                      λ r' c'.
                        Combined-trans s st r.1.store g _ _ _ r.0 r' m
                          (λ n. ground (
                            arith,
                            m.same n,
                            any_tag-kept st r.1.store t rounds (i + 1) n
                                (λ j low high. (m.kept (t j) (bs j (omega arith))).1 n),
                          ))
                          c'))
        ])

  -- The offsets of any of `rounds` locations from the `i`th on.
  pub any_offsets : State o → (ℕ → Loc) → ℕ → ℕ → ℕ → Bool
  any_offsets s loc zero i n = false
  any_offsets s loc (suc rounds) i n =
      offsets laws s (loc i) n || any_offsets s loc rounds (i + 1) n

  abbrev tag_at : State o → Loc → o.Tag
  tag_at s l = elim (look s l) [ none ↦ o.cleared_val | some t ↦ t ]

  module _ (s : State o) (g : laws.model.Ghost) (ok : IsState laws s g) where
    tag_at-member :
        (l : Loc) (n : ℕ) → laws.model.member s.store (tag_at s l) n ≡ offsets laws s l n
    tag_at-member l n = go (look s l)
      where
        go :
            (x : Option o.Tag)
            → laws.model.member s.store (elim x [ none ↦ o.cleared_val | some t ↦ t ]) n
              ≡ elim x [ none ↦ false | some t ↦ laws.model.member s.store t n ]
        go none = laws.cleared_none s.store n
        go (some t) = refl

    tag_at-IsTag : (l : Loc) → laws.model.IsTag s.store g (tag_at s l)
    tag_at-IsTag l = go (look s l) (ok.tags l)
      where
        go :
            (x : Option o.Tag)
            → ((t : o.Tag) → x ≡ some t → laws.model.IsTag s.store g t)
            → laws.model.IsTag s.store g (elim x [ none ↦ o.cleared_val | some t ↦ t ])
        go none h = laws.cleared_tag s.store g ok.store
        go (some t) h = h t refl

    any_tag-offsets :
        (loc : ℕ → Loc) (rounds i n : ℕ)
        → any_tag s.store (λ j. tag_at s (loc j)) rounds i n ≡ any_offsets s loc rounds i n
    unfolding any_offsets
    any_tag-offsets loc zero i n = refl
    any_tag-offsets loc (suc rounds) i n =
        rw (tag_at-member (loc i) n, any_tag-offsets loc rounds (i + 1) n) refl

    -- Both: the loop over readable locations from the cleared tag on.
    getn_loop-union :
        (loc : ℕ → Loc) (get : ℕ → Cmd o o.Tag) (last : ℕ)
        → ((i : ℕ) (st : o.Store)
            → i < last
            → get i (record s { store = st }) ≡ some (tag_at s (loc i), record s { store = st }))
        → Outcome laws.model
            (Combined laws s g (any_offsets s loc last 0))
            (getn_loop last 0 get o.cleared_val s)
    getn_loop-union loc get last reads =
        Meaning.mono
          (getn_loop-Outcome s get (λ i. tag_at s (loc i)) last reads last 0 s.store g o.cleared_val
            (omega arith) ok.store (laws.cleared_tag s.store g ok.store)
            (λ j h. tag_at-IsTag (loc j)))
          λ r c.
            Combined-mono s g _ _ r
              (λ n. rw (laws.cleared_none s.store n) (any_tag-offsets loc last 0 n)) c

    -- In a well-formed state, `tagmap_getn` of user memory returns a tag for the offsets of any of its
    -- bytes. Nothing changes but the store of the tag library, in which the old tags mean the same. It
    -- fails only where the library cannot combine two tags.
    pub tagmap_getn-union :
        (addr n : ℕ)
        → addr + n ≤ max_addr + 1
        → Outcome laws.model
            (Combined laws s g (any_offsets s (λ i. mem (addr + i)) n 0))
            (tagmap_getn addr n s)
    unfolding tagmap_getn
    tagmap_getn-union addr n fits =
        getn_loop-union (λ i. mem (addr + i)) _ n
          λ i st h.
            let no_wrap : add64 addr i ≡ addr + i = omega arith in
            let (t, e, l) = getb-some (record s { store = st }) (addr + i) (omega arith) in
            let at : tag_at s (mem (addr + i)) ≡ t =
              ap (λ x. elim x [ none ↦ o.cleared_val | some t ↦ t ]) l in
            rw (no_wrap, at) e

    -- In a well-formed state, `tagmap_getn_reg` returns a tag for the offsets of any of the first `n` bytes
    -- of a register. Nothing changes but the store of the tag library, in which the old tags mean the
    -- same. It fails only where the library cannot combine two tags.
    pub tagmap_getn_reg-union :
        (tid r n : ℕ)
        → Outcome laws.model
            (Combined laws s g (any_offsets s (reg tid r) n 0))
            (tagmap_getn_reg tid r n s)
    unfolding tagmap_getn_reg tagmap_getb_reg
    tagmap_getn_reg-union tid r n = getn_loop-union (reg tid r) _ n λ i st h. refl
