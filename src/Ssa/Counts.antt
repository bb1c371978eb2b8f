-- ===== src/Ssa/Counts.antt =====
-- The heap of src/ssa_tag_gc.cpp: its counts against the tags that refer to its cells.
use libdft64_ect.Prelude.{
  ℕ, ◌+◌, ◌-◌, ◌%◌, ◌^◌, ◌<◌, ◌≡◌, refl, ◌⊎◌, Option, none, some, ◌==◌, arith, Bool-cases, inl, inr,
}
use libdft64_ect.Ssa.{Cell, Heap, cell_count, never, retain, release}
use libdft64_ect.Ssa.Refs.{points_to}
use libdft64_ect.Ssa.Ring.{IsRing, entry}

-- The count is that of the tags, or the cell was never used.
abbrev pub Counted : ℕ → ℕ → Type 0
Counted count tags = (count ≡ tags) ⊎ ((count ≡ never) × (tags ≡ 0))

-- Every count is right for `f` tags, a cell with a tag is in a block and protected, and the ring has
-- only cells without tags, each once.
pub record IsHeap (f : ℕ → ℕ) (hp : Heap) : Type 0 where
  pub counts : (p : ℕ) → p < cell_count hp → Counted (hp.cells p).ref_count (f p)
  pub bounded : (p : ℕ) → f p < never
  pub below : (p : ℕ) → 0 < f p → p < cell_count hp
  pub guarded : (p : ℕ) → 0 < f p → 0 < hp.held p
  pub len : ℕ
  pub ring : IsRing hp.q hp.h hp.t len (cell_count hp) f

pub Counted-more :
    (count tags : ℕ)
    → 0 < tags
    → tags + 1 < never
    → Counted count tags
    → Counted ((count + 1) % 2 ^ 64) (tags + 1)
Counted-more count tags pos small (inl e) = inl (omega arith)
Counted-more count tags pos small (inr (e, z)) = absurd (omega arith)

pub Counted-less :
    (count tags : ℕ)
    → 0 < tags
    → tags < never
    → Counted count tags
    → Counted ((count + (2 ^ 64 - 1)) % 2 ^ 64) (tags - 1)
Counted-less count tags pos small (inl e) = inl (omega arith)
Counted-less count tags pos small (inr (e, z)) = absurd (omega arith)

module _ (f : ℕ → ℕ) (hp : Heap) (w : IsHeap f hp) where
  -- Other counts for other numbers of tags, none for a cell that had none.
  pub IsHeap-recount :
      (g : ℕ → ℕ) (cells : ℕ → Cell)
      → ((p : ℕ) → p < cell_count hp → Counted (cells p).ref_count (g p))
      → ((p : ℕ) → g p < never)
      → ((p : ℕ) → 0 < g p → 0 < f p)
      → IsHeap g (record hp { cells = cells })
  IsHeap-recount g cells counts bounded older = record {
    counts = counts;
    bounded = bounded;
    below = λ p pos. w.below p (older p pos);
    guarded = λ p pos. w.guarded p (older p pos);
    len = w.len;
    ring = record {
      first = w.ring.first;
      short = w.ring.short;
      tail_at = w.ring.tail_at;
      free = λ k le.
          let none_f = w.ring.free k le in let old = older (entry hp.q hp.h k) in ground arith;
      within = w.ring.within;
      distinct = w.ring.distinct;
    };
  }

  -- What the heap says of its tags depends on their numbers alone.
  pub IsHeap-same : (g : ℕ → ℕ) → ((p : ℕ) → f p ≡ g p) → IsHeap g hp
  IsHeap-same g same =
      IsHeap-recount g hp.cells (λ p le. rw (← same p) (w.counts p le))
        (λ p. rw (← same p) (w.bounded p)) λ p pos. rw (same p) pos

  -- One more tag to a cell that has one.
  pub retain-IsHeap :
      (r : Option ℕ)
      → ((p : ℕ) → r ≡ some p → (0 < f p) × (f p + 1 < never))
      → IsHeap (λ p. f p + points_to r p) (retain r hp)
  retain-IsHeap none h = IsHeap-same _ λ p. omega arith
  retain-IsHeap (some r) h =
      let (pos, small) = h r refl in
      IsHeap-recount (λ p. f p + points_to (some r) p) (retain (some r) hp).cells
        (λ p le. elim (Bool-cases (p == r)) [
          | inl here ↦
              let e : p ≡ r = ground arith in
              let one : points_to (some r) p ≡ 1 = ground arith in
              rw (here, one)
                (Counted-more (hp.cells p).ref_count (f p) (rw e pos) (rw e small) (w.counts p le))
          | inr other ↦
              let no : f p ≡ f p + points_to (some r) p = ground arith in
              rw (other, ← no) (w.counts p le)
        ])
        (λ p.
          let b = w.bounded p in
          elim (Bool-cases (r == p)) [
            | inl here ↦ let e : r ≡ p = ground arith in rw (here, ← e) small
            | inr other ↦ ground arith
          ])
        λ p pos'. elim (Bool-cases (r == p)) [
          | inl here ↦ let e : r ≡ p = ground arith in rw (← e) pos
          | inr other ↦ ground arith
        ]

  -- One tag less.
  pub release-IsHeap :
      (r : Option ℕ)
      → ((p : ℕ) → r ≡ some p → 0 < f p)
      → IsHeap (λ p. f p - points_to r p) (release r hp)
  release-IsHeap none h = IsHeap-same _ λ p. omega arith
  release-IsHeap (some r) h =
      IsHeap-recount (λ p. f p - points_to (some r) p) (release (some r) hp).cells
        (λ p le. elim (Bool-cases (p == r)) [
          | inl here ↦
              let e : p ≡ r = ground arith in
              let one : points_to (some r) p ≡ 1 = ground arith in
              rw (here, one)
                (Counted-less (hp.cells p).ref_count (f p) (rw e (h r refl)) (w.bounded p)
                  (w.counts p le))
          | inr other ↦
              let no : f p ≡ f p - points_to (some r) p = ground arith in
              rw (other, ← no) (w.counts p le)
        ])
        (λ p. let b = w.bounded p in omega arith) λ p pos. omega arith
