-- ===== src/Ssa/Fresh.antt =====
-- A new cell of src/ssa_tag_gc.cpp behind a tag object that had no reference.
use libdft64_ect.Prelude.{
  ℕ, ◌+◌, ◌<◌, ◌≡◌, refl, ap, ◌≢◌, Option, none, some, ◌==◌, false, arith, Bool-cases, inl, inr,
}
use libdft64_ect.Ssa.{State, Heap, set_ref, fill_cell}
use libdft64_ect.Ssa.Worker.{Sylvan, SylvanLaws}
use libdft64_ect.Ssa.Refs.{points_to, refs, refs-set, refs_positive}
use libdft64_ect.Ssa.Counts.{IsHeap-same}
use libdft64_ect.Ssa.Alloc.{Taken}
use libdft64_ect.Ssa.Assign.{IsCounted}
use libdft64_ect.Ssa.Sets.{ref_set, tag_set}

module _ {y : Sylvan} (laws : SylvanLaws y) (n : ℕ) (s : State y) (w : IsCounted n s) (victim : ℕ)
    (hp : Heap) (t : Taken (refs n s.vars) s.heap victim hp) (dst res : ℕ) (st : y.Store) where
  abbrev pub filled : State y
  filled = record {
    heap = fill_cell victim res hp;
    vars = set_ref dst (some victim) s.vars;
    bdds = st;
  }

  pub filled-IsCounted : dst < n → s.vars dst ≡ none → IsCounted n filled
  filled-IsCounted le e = record {
    few = w.few;
    heap =
        IsHeap-same (λ p. refs n s.vars p + points_to (some victim) p) (fill_cell victim res hp)
          (t.filled res) (refs n (set_ref dst (some victim) s.vars))
          λ p.
            let one = refs-set n dst (some victim) s.vars p le in
            let nothing : points_to (s.vars dst) p ≡ 0 = rw e refl in omega arith;
  }

  pub filled-result : (k : ℕ) → tag_set laws filled dst k ≡ laws.member st res k
  filled-result k =
      let here : set_ref dst (some victim) s.vars dst ≡ some victim = ground arith in
      let cell : ((fill_cell victim res hp).cells victim).bdd ≡ res = ground arith in
      rw here (ap (λ b. laws.member st b k) cell)

  old_ref :
      (r : Option ℕ) (k : ℕ)
      → ((p : ℕ) → r ≡ some p → 0 < refs n s.vars p)
      → ref_set laws filled r k ≡ ref_set laws (record s { bdds = st }) r k
  old_ref none k pos = refl
  old_ref (some p) k pos =
      let other : (p == victim) ≡ false = elim (Bool-cases (p == victim)) [
        | inl same ↦
            let e : p ≡ victim = ground arith in
            let z : refs n s.vars p ≡ 0 = rw e t.unused in
            let pos' = pos p refl in absurd (omega arith)
        | inr other ↦ other
      ] in
      let cell : ((fill_cell victim res hp).cells p).bdd ≡ (s.heap.cells p).bdd =
        rw other (ap (λ c. c.bdd) (t.same_cells p (pos p refl))) in
      ap (λ b. laws.member st b k) cell

  pub filled-others :
      (x : ℕ)
      → x < n
      → x ≢ dst
      → (k : ℕ) → tag_set laws filled x k ≡ tag_set laws (record s { bdds = st }) x k
  filled-others x le other k =
      let kept : set_ref dst (some victim) s.vars x ≡ s.vars x = ground arith in
      rw kept (old_ref (s.vars x) k λ p e. refs_positive n x s.vars p le e)
