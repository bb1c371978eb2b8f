-- ===== src/Ssa/Combine.antt =====
-- `ssa_tag_combine` of src/ssa_tag_gc.cpp.
use libdft64_ect.Prelude.{
  ℕ, ◌≤◌, ◌<◌, ◌≡◌, refl, ap, ◌∙◌, ◌≢◌, Bool, true, false, ◌||◌, ◌&&◌, none, some, ◌==◌, arith,
  Bool-cases, Option-cases, inl, inr,
}
use libdft64_ect.Ssa.{
  State, roots, bdd_at, null_ref, same_tag, copy_ctor, keep_result, ssa_tag_combine, cache_l,
  cache_r, cache_v,
}
use libdft64_ect.Ssa.Worker.{Sylvan, SylvanLaws}
use libdft64_ect.Ssa.Assign.{IsCounted}
use libdft64_ect.Ssa.Sets.{tag_set, IsCached, same_ref-set, protected}
use libdft64_ect.Ssa.Made.{Made, copy_ctor-Made, Made-after, cached_copy-Made, new_cell-Made}

or_false : (b : Bool) → b ≡ b || false
or_false true = refl
or_false false = refl

or_self : (b : Bool) → b ≡ b || b
or_self true = refl
or_self false = refl

both : (a b : Bool) → a && b ≡ true → (a ≡ true) × (b ≡ true)
both true true e = (refl, refl)
both true false e = absurd (ground arith)
both false b e = absurd (ground arith)

module _ {y : Sylvan} (laws : SylvanLaws y) (n : ℕ) where
  keep_result-Made :
      (dst l r res a b : ℕ) (f : ℕ → Bool) (s : State y)
      → 3 ≤ dst
      → 3 ≤ l
      → 3 ≤ r
      → dst < n
      → l < n
      → r < n
      → s.vars dst ≡ none
      → s.vars l ≡ some a
      → s.vars r ≡ some b
      → IsCounted n s
      → 0 < s.heap.room
      → ((k : ℕ) → tag_set laws s l k || tag_set laws s r k ≡ f k)
      → ((k : ℕ) → laws.member s.bdds res k ≡ f k)
      → (s' : State y) × (keep_result dst l r res s ≡ some s') × Made laws n dst f s s'
  unfolding keep_result
  keep_result-Made dst l r res a b f s d3 l3 r3 dn ln rn e la rb w room union value =
      elim (Bool-cases (res == bdd_at s.heap (s.vars l))) [
        | inl left ↦ rw left (
          _,
          refl,
          cached_copy-Made laws n dst l r l f s d3 l3 r3 l3 dn ln rn ln e w union
              (λ k. of_cell l a k la left),
        )
        | inr not_left ↦ elim (Bool-cases (res == bdd_at s.heap (s.vars r))) [
          | inl right ↦
              rw (not_left, right)
                (
                  _,
                  refl,
                  cached_copy-Made laws n dst l r r f s d3 l3 r3 r3 dn ln rn rn e w union
                      (λ k. of_cell r b k rb right),
                )
          | inr not_right ↦
              let other : (x p : ℕ) → s.vars x ≡ some p → x ≢ dst =
                λ x p xp same. let null : s.vars x ≡ none = rw same e in absurd cc in
              let (s1, stored, made) =
                new_cell-Made laws n dst l r res f s d3 l3 r3 dn ln rn (other l a la) (other r b rb)
                  e w room union value in
              rw (not_left, not_right, stored) (_, refl, made)
        ]
      ]
    where
      of_cell :
          (x p k : ℕ)
          → s.vars x ≡ some p
          → (res == bdd_at s.heap (s.vars x)) ≡ true
          → tag_set laws s x k ≡ f k
      of_cell x p k xp hit =
          let hit' : (res == (s.heap.cells p).bdd) ≡ true = rw xp at hit in
          let eq : (s.heap.cells p).bdd ≡ res = ground arith in
          rw xp (ap (λ c. laws.member s.bdds c k) eq ∙ value k)

  module _ (s : State y) (w : IsCounted n s) where
    joined : ℕ → ℕ → State y
    joined a b = record s {
      bdds = (y.join (s.heap.cells a).bdd (s.heap.cells b).bdd (roots s.heap) s.bdds).1;
    }

    joined-kept : (a b x : ℕ) → x < n → (k : ℕ) → tag_set laws (joined a b) x k ≡ tag_set laws s x k
    unfolding joined
    joined-kept a b x le k = elim (Option-cases (s.vars x)) [
      | inl null ↦ rw null refl
      | inr (p, xp) ↦ rw xp (laws.join_keeps _ _ _ s.bdds p _ k (protected laws n s w x le p xp))
    ]

    -- Sylvan is asked: no shortcut was taken.
    asked-Made :
        (dst l r a b : ℕ)
        → 3 ≤ dst
        → 3 ≤ l
        → 3 ≤ r
        → dst < n
        → l < n
        → r < n
        → s.vars dst ≡ none
        → s.vars l ≡ some a
        → s.vars r ≡ some b
        → 0 < s.heap.room
        → (let made = y.join (s.heap.cells a).bdd (s.heap.cells b).bdd (roots s.heap) s.bdds in
            (s' : State y) × (keep_result dst l r made.0 (record s { bdds = made.1 }) ≡ some s')
            × Made laws n dst (λ k. tag_set laws s l k || tag_set laws s r k) s s')
    unfolding joined
    asked-Made dst l r a b d3 l3 r3 dn ln rn e la rb room =
        let made = y.join (s.heap.cells a).bdd (s.heap.cells b).bdd (roots s.heap) s.bdds in
        let f : ℕ → Bool = λ k. tag_set laws s l k || tag_set laws s r k in
        let (s', eq, m) =
          keep_result-Made dst l r made.0 a b f (joined a b) d3 l3 r3 dn ln rn e la rb
            (record { few = w.few; heap = w.heap }) room
            (λ k. rw (joined-kept a b l ln k, joined-kept a b r rn k) refl)
            (λ k.
              rw (la, rb)
                (laws.join_union _ _ _ s.bdds a b k (protected laws n s w l ln a la)
                  (protected laws n s w r rn b rb))) in
        (
          s',
          eq,
          Made-after laws n dst f s (joined a b) s' (λ x le. refl)
              (λ x le le' k. joined-kept a b x le' k) refl m,
        )

  same_tag-set :
      (s : State y) (x z k : ℕ) → same_tag s x z ≡ true → tag_set laws s x k ≡ tag_set laws s z k
  unfolding same_tag
  same_tag-set s x z k e = same_ref-set laws s (s.vars x) (s.vars z) k e

  -- The ways through `ssa_tag_combine`.
  module _ (dst l r : ℕ) (s : State y) where
    left_null : s.vars l ≡ none → ssa_tag_combine dst l r s ≡ some (copy_ctor dst r s)
    unfolding ssa_tag_combine
    left_null e = rw (ap null_ref e) refl

    right_null :
        (a : ℕ)
        → s.vars l ≡ some a
        → s.vars r ≡ none
        → ssa_tag_combine dst l r s ≡ some (copy_ctor dst l s)
    unfolding ssa_tag_combine
    right_null a la e = rw (ap null_ref la, ap null_ref e) refl

    module _ (a b : ℕ) (la : s.vars l ≡ some a) (rb : s.vars r ≡ some b) where
      equal_tags : same_tag s l r ≡ true → ssa_tag_combine dst l r s ≡ some (copy_ctor dst l s)
      unfolding ssa_tag_combine
      equal_tags e = rw (ap null_ref la, ap null_ref rb, e) refl

      cache_hit :
          same_tag s l r ≡ false
          → same_tag s cache_l l && same_tag s cache_r r ≡ true
          → ssa_tag_combine dst l r s ≡ some (copy_ctor dst cache_v s)
      unfolding ssa_tag_combine
      cache_hit e hit = rw (ap null_ref la, ap null_ref rb, e, hit) refl

      asked :
          same_tag s l r ≡ false
          → same_tag s cache_l l && same_tag s cache_r r ≡ false
          → (let made = y.join (s.heap.cells a).bdd (s.heap.cells b).bdd (roots s.heap) s.bdds in
              ssa_tag_combine dst l r s ≡ keep_result dst l r made.0 (record s { bdds = made.1 }))
      unfolding ssa_tag_combine
      asked e missed =
          rw
            (
              ap null_ref la,
              ap null_ref rb,
              e,
              missed,
              ap (bdd_at s.heap) la,
              ap (bdd_at s.heap) rb,
            )
            refl

  -- While `malloc` has a block left, `ssa_tag_combine` makes `dst` the union of its arguments.
  pub ssa_tag_combine-Made :
      (dst l r : ℕ) (s : State y)
      → 3 ≤ dst
      → 3 ≤ l
      → 3 ≤ r
      → dst < n
      → l < n
      → r < n
      → s.vars dst ≡ none
      → IsCounted n s
      → IsCached laws s
      → 0 < s.heap.room
      → (s' : State y) × (ssa_tag_combine dst l r s ≡ some s')
        × Made laws n dst (λ k. tag_set laws s l k || tag_set laws s r k) s s'
  ssa_tag_combine-Made dst l r s d3 l3 r3 dn ln rn e w c room = elim (Option-cases (s.vars l)) [
    | inl l_null ↦ (
      _,
      left_null dst l r s l_null,
      copy_ctor-Made laws n dst r _ s d3 dn rn e w c λ k. rw l_null refl,
    )
    | inr (a, la) ↦ elim (Option-cases (s.vars r)) [
      | inl r_null ↦ (
        _,
        right_null dst l r s a la r_null,
        copy_ctor-Made laws n dst l _ s d3 dn ln e w c
            λ k. rw r_null (or_false (tag_set laws s l k)),
      )
      | inr (b, rb) ↦ elim (Bool-cases (same_tag s l r)) [
        | inl same ↦ (
          _,
          equal_tags dst l r s a b la rb same,
          copy_ctor-Made laws n dst l _ s d3 dn ln e w c
              λ k. rw (← same_tag-set s l r k same) (or_self (tag_set laws s l k)),
        )
        | inr differ ↦ elim (Bool-cases (same_tag s cache_l l && same_tag s cache_r r)) [
          | inl hit ↦
              let (hit_l, hit_r) = both _ _ hit in
              (
                _,
                cache_hit dst l r s a b la rb differ hit,
                copy_ctor-Made laws n dst cache_v _ s d3 dn (omega arith) e w c λ k.
                    rw (← same_tag-set s cache_l l k hit_l, ← same_tag-set s cache_r r k hit_r)
                      (c k),
              )
          | inr missed ↦
              let (s', kept, m) = asked-Made s w dst l r a b d3 l3 r3 dn ln rn e la rb room in
              (s', asked dst l r s a b la rb differ missed ∙ kept, m)
        ]
      ]
    ]
  ]
