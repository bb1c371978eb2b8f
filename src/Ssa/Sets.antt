-- ===== src/Ssa/Sets.antt =====
-- The offsets of the tags of src/ssa_tag_gc.h, and what leaves them alone.
use libdft64_ect.Prelude.{
  ℕ, ◌≤◌, ◌<◌, ◌≡◌, refl, ap, ◌∙◌, Bool, true, false, ◌||◌, Option, none, some, ◌==◌, arith,
  Bool-cases, inl, inr,
}
use libdft64_ect.Ssa.{
  State, Heap, retain, release, roots, set_ref, same_ref, copy_ctor, copy_assign, fill_cache,
  cache_l, cache_r, cache_v,
}
use libdft64_ect.Ssa.Worker.{Sylvan, SylvanLaws}
use libdft64_ect.Ssa.Refs.{refs_positive}
use libdft64_ect.Ssa.Assign.{IsCounted, copy_assign-IsCounted}

pub retain-bdd : (r : Option ℕ) (hp : Heap) (p : ℕ) → ((retain r hp).cells p).bdd ≡ (hp.cells p).bdd
retain-bdd none hp p = refl
retain-bdd (some r) hp p = elim (Bool-cases (p == r)) [ inl e ↦ rw e refl | inr e ↦ rw e refl ]

pub release-bdd :
    (r : Option ℕ) (hp : Heap) (p : ℕ) → ((release r hp).cells p).bdd ≡ (hp.cells p).bdd
release-bdd none hp p = refl
release-bdd (some r) hp p = elim (Bool-cases (p == r)) [ inl e ↦ rw e refl | inr e ↦ rw e refl ]

module _ {y : Sylvan} (laws : SylvanLaws y) where
  abbrev pub ref_set : State y → Option ℕ → ℕ → Bool
  ref_set s none k = false
  ref_set s (some p) k = laws.member s.bdds (s.heap.cells p).bdd k

  -- The offsets of an object.
  abbrev pub tag_set : State y → ℕ → ℕ → Bool
  tag_set s x = ref_set s (s.vars x)

  -- The third object of the cache is the union of the others.
  abbrev pub IsCached : State y → Type 0
  IsCached s = (k : ℕ) → tag_set s cache_v k ≡ tag_set s cache_l k || tag_set s cache_r k

  -- No reference changes its meaning.
  pub record Keeps (s s' : State y) : Type 0 where
    pub same : (r : Option ℕ) (k : ℕ) → ref_set s' r k ≡ ref_set s r k
    pub room : s'.heap.room ≡ s.heap.room

  pub ref_set-bdd :
      (s : State y) (hp : Heap) (vars : ℕ → Option ℕ)
      → ((p : ℕ) → (hp.cells p).bdd ≡ (s.heap.cells p).bdd)
      → (r : Option ℕ) (k : ℕ) → ref_set (record s { heap = hp; vars = vars }) r k ≡ ref_set s r k
  ref_set-bdd s hp vars e none k = refl
  ref_set-bdd s hp vars e (some p) k = ap (λ b. laws.member s.bdds b k) (e p)

  retain-room : (r : Option ℕ) (hp : Heap) → (retain r hp).room ≡ hp.room
  retain-room none hp = refl
  retain-room (some r) hp = refl

  release-room : (r : Option ℕ) (hp : Heap) → (release r hp).room ≡ hp.room
  release-room none hp = refl
  release-room (some r) hp = refl

  pub copy_ctor-Keeps : (x z : ℕ) (s : State y) → Keeps s (copy_ctor x z s)
  unfolding copy_ctor
  copy_ctor-Keeps x z s = record {
    same =
        ref_set-bdd s (retain (s.vars z) s.heap) (set_ref x (s.vars z) s.vars)
          (retain-bdd (s.vars z) s.heap);
    room = retain-room (s.vars z) s.heap;
  }

  copy_assign-Keeps : (x z : ℕ) (s : State y) → Keeps s (copy_assign x z s)
  unfolding copy_assign
  copy_assign-Keeps x z s =
      let more = retain (s.vars z) s.heap in
      record {
        same =
            ref_set-bdd s (release (s.vars x) more) (set_ref x (s.vars z) s.vars)
              λ p. release-bdd (s.vars x) more p ∙ retain-bdd (s.vars z) s.heap p;
        room = release-room (s.vars x) more ∙ retain-room (s.vars z) s.heap;
      }

  pub same_ref-set :
      (s : State y) (a b : Option ℕ) (k : ℕ)
      → same_ref s.heap a b ≡ true
      → ref_set s a k ≡ ref_set s b k
  same_ref-set s none none k e = refl
  same_ref-set s none (some b) k e = absurd (ground arith)
  same_ref-set s (some a) none k e = absurd (ground arith)
  same_ref-set s (some a) (some b) k e = elim (Bool-cases (a == b)) [
    | inl hit ↦
        let e' : a ≡ b = ground arith in ap (λ p. laws.member s.bdds (s.heap.cells p).bdd k) e'
    | inr miss ↦
        let e' : ((s.heap.cells a).bdd == (s.heap.cells b).bdd) ≡ true = rw miss at e in
        ap (λ x. laws.member s.bdds x k) (ground arith)
  ]

  -- What `fill_cache` does.
  pub record Filled (l r v : ℕ) (s s' : State y) : Type 0 where
    pub keeps : Keeps s s'
    pub left : s'.vars cache_l ≡ s.vars l
    pub right : s'.vars cache_r ≡ s.vars r
    pub value : s'.vars cache_v ≡ s.vars v
    pub others : (x : ℕ) → 3 ≤ x → s'.vars x ≡ s.vars x

  pub fill_cache-Filled :
      (l r v : ℕ) (s : State y) → 3 ≤ l → 3 ≤ r → 3 ≤ v → Filled l r v s (fill_cache l r v s)
  unfolding fill_cache copy_assign
  fill_cache-Filled l r v s hl hr hv =
      let s1 = copy_assign cache_l l s in
      let s2 = copy_assign cache_r r s1 in
      let k1 = copy_assign-Keeps cache_l l s in
      let k2 = copy_assign-Keeps cache_r r s1 in
      let k3 = copy_assign-Keeps cache_v v s2 in
      record {
        keeps = record {
          same = λ x k. k3.same x k ∙ k2.same x k ∙ k1.same x k;
          room = k3.room ∙ k2.room ∙ k1.room;
        };
        left = refl;
        right = ground arith;
        value = ground arith;
        others = λ x le. ground arith;
      }

  pub Filled-IsCached :
      (l r v : ℕ) (s s' : State y)
      → Filled l r v s s'
      → ((k : ℕ) → tag_set s v k ≡ tag_set s l k || tag_set s r k)
      → IsCached s'
  Filled-IsCached l r v s s' f union k =
      rw
        (
          f.left,
          f.right,
          f.value,
          f.keeps.same (s.vars l) k,
          f.keeps.same (s.vars r) k,
          f.keeps.same (s.vars v) k,
        )
        (union k)

  module _ (n : ℕ) (s : State y) (w : IsCounted n s) where
    pub fill_cache-IsCounted :
        (l r v : ℕ) → 2 < n → l < n → r < n → v < n → IsCounted n (fill_cache l r v s)
    unfolding fill_cache copy_assign
    fill_cache-IsCounted l r v le hl hr hv =
        copy_assign-IsCounted n _
          (copy_assign-IsCounted n _ (copy_assign-IsCounted n s w cache_l l (omega arith) hl)
            cache_r r (omega arith) hr)
          cache_v v (omega arith) hv

    -- Sylvan keeps the BDD of every object.
    pub protected :
        (x : ℕ) → x < n → (p : ℕ) → s.vars x ≡ some p → roots s.heap p ≡ some (s.heap.cells p).bdd
    protected x le p e =
        let pos = w.heap.guarded p (refs_positive n x s.vars p le e) in
        let there : (s.heap.held p == 0) ≡ false = ground arith in rw there refl
