-- ===== src/Ssa/History.antt =====
-- Histories of one thread's calls on tags: src/ssa_tag_gc.h and src/ssa_tag_gc.cpp together.
use libdft64_ect.Prelude.{
  ℕ, ◌+◌, ◌-◌, ◌%◌, ◌≤◌, ◌<◌, ◌≡◌, refl, sym, ◌∙◌, ◌≢◌, Option, none, some, arith, inl, inr,
}
use libdft64_ect.Ssa.{
  State, Heap, cell_count, never, ssa_blk, retain, release, set_ref, ssa_tag_alloc, ssa_tag_combine,
  thread_start, thread_fini, copy_ctor, move_ctor, destroy, copy_assign, move_assign, cache_l,
  cache_r, cache_v,
}
use libdft64_ect.Ssa.Worker.{Sylvan, SylvanLaws}
use libdft64_ect.Ssa.Refs.{refs, refs_positive}
use libdft64_ect.Ssa.Ring.{entry}
use libdft64_ect.Ssa.Counts.{IsHeap}
use libdft64_ect.Ssa.Assign.{
  IsCounted, Assignment, copies, moves, destroys, copy_assigns, move_assigns, Assignment-IsCounted,
}
use libdft64_ect.Ssa.Sets.{IsCached, tag_set, ref_set-bdd, retain-bdd, release-bdd}
use libdft64_ect.Ssa.Combine.{ssa_tag_combine-Made}
use libdft64_ect.Ssa.Create.{ssa_tag_alloc-Made}
use libdft64_ect.Ssa.Start.{
  begin, begin-IsCounted, thread_start-IsCounted, thread_start-IsCached, thread_fini-IsCounted,
  thread_fini-IsCached,
}

-- One call on objects from 3 up to `n`: those before are the cache.
pub data Step {y : Sylvan} (n : ℕ) (s : State y) : State y → Type 0 where
  assigned : {s' : State y} → Assignment n 3 s s' → Step n s s'
  allocated :
      {s' : State y} (dst offset : ℕ)
      → 3 ≤ dst
      → dst < n
      → s.vars dst ≡ none
      → 0 < s.heap.room
      → ssa_tag_alloc dst offset s ≡ some s'
      → Step n s s'
  combined :
      {s' : State y} (dst l r : ℕ)
      → 3 ≤ dst
      → 3 ≤ l
      → 3 ≤ r
      → dst < n
      → l < n
      → r < n
      → s.vars dst ≡ none
      → 0 < s.heap.room
      → ssa_tag_combine dst l r s ≡ some s'
      → Step n s s'
  started :
      s.vars cache_l ≡ none
      → s.vars cache_r ≡ none
      → s.vars cache_v ≡ none
      → Step n s (thread_start s)
  ended : Step n s (thread_fini s)

pub data History {y : Sylvan} (n : ℕ) (s : State y) : State y → Type 0 where
  here : History n s s
  later : {s1 s2 : State y} → History n s s1 → Step n s1 s2 → History n s s2

module _ {y : Sylvan} (laws : SylvanLaws y) where
  IsCached-kept :
      (s : State y) (hp : Heap) (vars : ℕ → Option ℕ)
      → ((p : ℕ) → (hp.cells p).bdd ≡ (s.heap.cells p).bdd)
      → ((x : ℕ) → x < 3 → vars x ≡ s.vars x)
      → IsCached laws s
      → IsCached laws (record s { heap = hp; vars = vars })
  IsCached-kept s hp vars bdds same c k =
      let set : (x : ℕ)
          → x < 3
          → (k : ℕ) → tag_set laws (record s { heap = hp; vars = vars }) x k ≡ tag_set laws s x k =
        λ x le k. rw (same x le) (ref_set-bdd laws s hp vars bdds (s.vars x) k) in
      rw (set cache_v (omega arith) k, set cache_l (omega arith) k, set cache_r (omega arith) k)
        (c k)

  Assignment-IsCached :
      (n : ℕ) (s s' : State y) → Assignment n 3 s s' → IsCached laws s → IsCached laws s'
  unfolding copy_ctor move_ctor destroy copy_assign move_assign
  Assignment-IsCached n s _ (copies x z h _ _ _) c =
      IsCached-kept s (retain (s.vars z) s.heap) (set_ref x (s.vars z) s.vars)
        (retain-bdd (s.vars z) s.heap) (λ i le. ground arith) c
  Assignment-IsCached n s _ (moves x z h h' _ _ _) c =
      IsCached-kept s s.heap (set_ref z none (set_ref x (s.vars z) s.vars)) (λ p. refl)
        (λ i le. ground arith) c
  Assignment-IsCached n s _ (destroys x h _) c =
      IsCached-kept s (release (s.vars x) s.heap) (set_ref x none s.vars)
        (release-bdd (s.vars x) s.heap) (λ i le. ground arith) c
  Assignment-IsCached n s _ (copy_assigns x z h _ _) c =
      IsCached-kept s (release (s.vars x) (retain (s.vars z) s.heap)) (set_ref x (s.vars z) s.vars)
        (λ p. release-bdd (s.vars x) (retain (s.vars z) s.heap) p ∙ retain-bdd (s.vars z) s.heap p)
        (λ i le. ground arith) c
  Assignment-IsCached n s _ (move_assigns x z h h' _ _) c =
      IsCached-kept s (release (s.vars x) s.heap) (set_ref z none (set_ref x (s.vars z) s.vars))
        (release-bdd (s.vars x) s.heap) (λ i le. ground arith) c

  -- The counts are exact and the cache holds a union.
  pub record IsValid (n : ℕ) (s : State y) : Type 0 where
    pub some_objects : 2 < n
    pub counted : IsCounted n s
    pub cached : IsCached laws s

  Step-IsValid : (n : ℕ) (s s' : State y) → Step n s s' → IsValid n s → IsValid n s'
  Step-IsValid n s s' (assigned a) v = record {
    some_objects = v.some_objects;
    counted = Assignment-IsCounted n 3 s s' a v.counted;
    cached = Assignment-IsCached n s s' a v.cached;
  }
  Step-IsValid n s s' (allocated dst offset d3 dn e room eq) v =
      let (s1, eq1, m) = ssa_tag_alloc-Made laws n dst offset s d3 dn e v.counted v.cached room in
      let both : some s1 ≡ some s' = sym eq1 ∙ eq in
      let same : s1 ≡ s' = cc in
      rw (← same) (record { some_objects = v.some_objects; counted = m.counted; cached = m.cached })
  Step-IsValid n s s' (combined dst l r d3 l3 r3 dn ln rn e room eq) v =
      let (s1, eq1, m) =
        ssa_tag_combine-Made laws n dst l r s d3 l3 r3 dn ln rn e v.counted v.cached room in
      let both : some s1 ≡ some s' = sym eq1 ∙ eq in
      let same : s1 ≡ s' = cc in
      rw (← same) (record { some_objects = v.some_objects; counted = m.counted; cached = m.cached })
  Step-IsValid n s _ (started el er ev) v = record {
    some_objects = v.some_objects;
    counted = thread_start-IsCounted n s v.some_objects v.counted el er ev;
    cached = thread_start-IsCached laws s;
  }
  Step-IsValid n s _ ended v = record {
    some_objects = v.some_objects;
    counted = thread_fini-IsCounted n s v.some_objects v.counted;
    cached = thread_fini-IsCached laws s;
  }

  -- The counts stay exact, and the cache right, in every history.
  pub History-IsValid : (n : ℕ) (s s' : State y) → History n s s' → IsValid n s → IsValid n s'
  History-IsValid n s _ here v = v
  History-IsValid n s s' (later {s1} h step) v =
      Step-IsValid n s1 s' step (History-IsValid n s s1 h v)

-- The cells in the ring, by the code's `_h` and `_t`.
abbrev pub waiting : Heap → ℕ
waiting hp = (hp.t + ssa_blk - hp.h) % ssa_blk

-- The cell `p` stands in a block, is counted right, protected, and not in the ring.
pub record IsLive {y : Sylvan} (n : ℕ) (s : State y) (p : ℕ) : Type 0 where
  pub inside : p < cell_count s.heap
  pub exact : (s.heap.cells p).ref_count ≡ refs n s.vars p
  pub protected : 0 < s.heap.held p
  pub not_free : (k : ℕ) → k < waiting s.heap → entry s.heap.q s.heap.h k ≢ p

IsCounted-IsLive :
    {y : Sylvan} (n : ℕ) (s : State y)
    → IsCounted n s
    → (x p : ℕ) → x < n
    → s.vars x ≡ some p
    → IsLive n s p
IsCounted-IsLive n s w x p le e =
    let pos = refs_positive n x s.vars p le e in
    let inside = w.heap.below p pos in
    record {
      inside = inside;
      exact = elim (w.heap.counts p inside) [
        | inl right ↦ right
        | inr (_, z) ↦ absurd (omega arith)
      ];
      protected = w.heap.guarded p pos;
      not_free = λ k lt same.
          let a = w.heap.ring.first in
          let b = w.heap.ring.short in
          let c = w.heap.ring.tail_at in
          let z : refs n s.vars p ≡ 0 = rw (← same) (w.heap.ring.free k (omega arith)) in
          absurd (omega arith);
    }

-- In every history from a heap to which no object refers, as `ssa_init` makes it, an object refers to
-- a live cell.
pub History-IsLive :
    {y : Sylvan} (laws : SylvanLaws y) (n : ℕ) (hp : Heap) (st : y.Store) (s : State y)
    → 2 < n
    → n + 1 < never
    → IsHeap (λ _. 0) hp
    → History n (begin hp st) s
    → (x p : ℕ) → x < n
    → s.vars x ≡ some p
    → IsLive n s p
History-IsLive laws n hp st s le few w h =
    IsCounted-IsLive n s
      (History-IsValid laws n (begin hp st) s h (record {
        some_objects = le;
        counted = begin-IsCounted n hp st few w;
        cached = λ k. refl;
      })).counted
