-- ===== src/Ssa/Start.antt =====
-- `ssa_init`, and the cache of a thread in src/ssa_tag_gc.cpp.
use libdft64_ect.Prelude.{ℕ, ◌+◌, ◌<◌, ◌≡◌, refl, ◌∙◌, ◌≢◌, none, some, arith}
use libdft64_ect.Ssa.{
  State, Heap, never, set_ref, empty_count, init, destroy, thread_start, thread_fini, cache_l,
  cache_r, cache_v,
}
use libdft64_ect.Ssa.Worker.{Sylvan, SylvanLaws}
use libdft64_ect.Ssa.Refs.{refs, refs-set_null, refs-none}
use libdft64_ect.Ssa.Ring.{IsRing-empty}
use libdft64_ect.Ssa.Counts.{IsHeap, IsHeap-same}
use libdft64_ect.Ssa.Gc.{add_ssa_blk-Refilled}
use libdft64_ect.Ssa.Assign.{IsCounted, destroy-IsCounted}
use libdft64_ect.Ssa.Sets.{IsCached}

no_left_zero : empty_count 0 0 ≢ 0
unfolding empty_count
no_left_zero = ground arith

-- If `malloc` has a block, `ssa_init` makes a heap to whose cells no tag refers.
pub init-IsHeap :
    (blocks : ℕ) → 0 < blocks → (hp : Heap) × (init blocks ≡ some hp) × IsHeap (λ _. 0) hp
unfolding init
init-IsHeap blocks pos =
    let (hp, e, c) =
      add_ssa_blk-Refilled (λ _. 0)
        (record {
          cells = λ _. record { ref_count = 0; bdd = 0 };
          blocks = 0;
          room = blocks;
          h = 0;
          t = 0;
          q = λ _. 0;
          held = λ _. 0;
        })
        (record {
          counts = λ p le. absurd (omega arith);
          bounded = λ p. omega arith;
          below = λ p le. absurd (omega arith);
          guarded = λ p le. absurd (omega arith);
          len = 0;
          ring = IsRing-empty (λ _. 0) 0 0 (λ _. 0) (omega arith) refl;
        })
        pos no_left_zero in
    (hp, e, c.heap)

module _ {y : Sylvan} where
  -- No object has a reference.
  abbrev pub begin : Heap → y.Store → State y
  begin hp st = record { heap = hp; vars = λ _. none; bdds = st }

  pub begin-IsCounted :
      (n : ℕ) (hp : Heap) (st : y.Store)
      → n + 1 < never
      → IsHeap (λ _. 0) hp
      → IsCounted n (begin hp st)
  begin-IsCounted n hp st few w = record {
    few = few;
    heap = IsHeap-same (λ _. 0) hp w (refs n λ _. none) (refs-none n);
  }

  module _ (n : ℕ) (s : State y) (le : 2 < n) (w : IsCounted n s) where
    -- The `memset` loses no reference of a cache that has none.
    pub thread_start-IsCounted :
        s.vars cache_l ≡ none
        → s.vars cache_r ≡ none
        → s.vars cache_v ≡ none
        → IsCounted n (thread_start s)
    unfolding thread_start
    thread_start-IsCounted el er ev = record {
      few = w.few;
      heap = IsHeap-same (refs n s.vars) s.heap w.heap _ λ p.
          refs-set_null n cache_l s.vars p (omega arith) el
          ∙ refs-set_null n cache_r (set_ref cache_l none s.vars) p (omega arith) er
          ∙ refs-set_null n cache_v (set_ref cache_r none (set_ref cache_l none s.vars)) p le ev;
    }

    -- `ssa_thread_fini` gives the references of the cache back.
    pub thread_fini-IsCounted : IsCounted n (thread_fini s)
    unfolding thread_fini
    thread_fini-IsCounted =
        destroy-IsCounted n _
          (destroy-IsCounted n _ (destroy-IsCounted n s w cache_l (omega arith)) cache_r
            (omega arith))
          cache_v le

  pub thread_start-IsCached : (laws : SylvanLaws y) (s : State y) → IsCached laws (thread_start s)
  unfolding thread_start
  thread_start-IsCached laws s k = refl

  pub thread_fini-IsCached : (laws : SylvanLaws y) (s : State y) → IsCached laws (thread_fini s)
  unfolding thread_fini destroy
  thread_fini-IsCached laws s k = refl
