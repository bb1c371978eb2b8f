-- ===== src/Ssa/Create.antt =====
-- `ssa_tag_alloc` of src/ssa_tag_gc.cpp.
use libdft64_ect.Prelude.{
  ℕ, ◌%◌, ◌^◌, ◌≤◌, ◌<◌, ◌≡◌, refl, ap, ◌∙◌, ◌≢◌, none, some, ◌==◌, false, arith, Option-cases, inl,
  inr,
}
use libdft64_ect.Ssa.{State, Heap, roots, ssa_tag_alloc, cache_l, cache_r, cache_v}
use libdft64_ect.Ssa.Worker.{Sylvan, SylvanLaws}
use libdft64_ect.Ssa.Offset.{offset_bits, bits_offset-offset_bits}
use libdft64_ect.Ssa.Refs.{refs, refs_positive}
use libdft64_ect.Ssa.Alloc.{Taken, take_cell-Taken}
use libdft64_ect.Ssa.Assign.{IsCounted}
use libdft64_ect.Ssa.Fresh.{filled, filled-IsCounted, filled-result, filled-others}
use libdft64_ect.Ssa.Sets.{tag_set, IsCached}
use libdft64_ect.Ssa.Made.{Made}

module _ {y : Sylvan} (laws : SylvanLaws y) (n : ℕ) where
  cube_kept :
      (s : State y) (victim : ℕ) (hp : Heap)
      → IsCounted n s
      → Taken (refs n s.vars) s.heap victim hp
      → (offset x : ℕ) → x < n
      → (k : ℕ)
      → tag_set laws (record s { bdds = (y.cube (offset_bits offset) (roots hp) s.bdds).1 }) x k
        ≡ tag_set laws s x k
  cube_kept s victim hp w t offset x le k = elim (Option-cases (s.vars x)) [
    | inl null ↦ rw null refl
    | inr (p, xp) ↦
        let pos = refs_positive n x s.vars p le xp in
        let held = w.heap.guarded p pos in
        let there : (hp.held p == 0) ≡ false = rw (t.same_held p pos) (ground arith) in
        let root : roots hp p ≡ some (s.heap.cells p).bdd =
          rw there (ap (λ c. some c.bdd) (t.same_cells p pos)) in
        rw xp (laws.cube_keeps (offset_bits offset) (roots hp) s.bdds p _ k root)
  ]

  -- While `malloc` has a block left, `ssa_tag_alloc` makes `dst` the tag of the one offset, less what
  -- is above 24 bits.
  pub ssa_tag_alloc-Made :
      (dst offset : ℕ) (s : State y)
      → 3 ≤ dst
      → dst < n
      → s.vars dst ≡ none
      → IsCounted n s
      → IsCached laws s
      → 0 < s.heap.room
      → (s' : State y) × (ssa_tag_alloc dst offset s ≡ some s')
        × Made laws n dst (λ k. k == offset % 2 ^ 24) s s'
  unfolding ssa_tag_alloc
  ssa_tag_alloc-Made dst offset s d3 dn e w c room =
      let (victim, hp, taken_eq, t) = take_cell-Taken (refs n s.vars) s.heap w.heap room in
      let made = y.cube (offset_bits offset) (roots hp) s.bdds in
      let kept : (x : ℕ)
          → x < n
          → x ≢ dst
          → (k : ℕ)
          → tag_set laws (filled laws n s w victim hp t dst made.0 made.1) x k
            ≡ tag_set laws s x k =
        λ x le other k.
          filled-others laws n s w victim hp t dst made.0 made.1 x le other k
          ∙ cube_kept s victim hp w t offset x le k in
      (
        _,
        rw taken_eq refl,
        record {
          counted = filled-IsCounted laws n s w victim hp t dst made.0 made.1 dn e;
          cached = λ k.
              rw
                (
                  kept cache_v (omega arith) (omega arith) k,
                  kept cache_l (omega arith) (omega arith) k,
                  kept cache_r (omega arith) (omega arith) k,
                )
                (c k);
          result = λ k.
              filled-result laws n s w victim hp t dst made.0 made.1 k
              ∙ laws.cube_single (offset_bits offset) (roots hp) s.bdds k
              ∙ ap (λ m. k == m) (bits_offset-offset_bits offset);
          refs_kept = λ x le other. ground arith;
          sets_kept = λ x le le' other k. kept x le' other k;
          memory = t.memory;
        },
      )
