-- ===== src/Ssa/Made.antt =====
-- A tag object of src/ssa_tag_gc.cpp that was given a set of offsets: by a copy, out of the cache, or
-- with a new cell.
use libdft64_ect.Prelude.{ℕ, ◌+◌, ◌≤◌, ◌<◌, ◌≡◌, refl, sym, ◌∙◌, ◌≢◌, Bool, ◌||◌, none, some, arith}
use libdft64_ect.Ssa.{
  State, set_ref, copy_ctor, fill_cache, store_result, cache_l, cache_r, cache_v,
}
use libdft64_ect.Ssa.Worker.{Sylvan, SylvanLaws}
use libdft64_ect.Ssa.Refs.{refs}
use libdft64_ect.Ssa.Alloc.{take_cell-Taken}
use libdft64_ect.Ssa.Assign.{IsCounted, copy_ctor-IsCounted}
use libdft64_ect.Ssa.Fresh.{filled, filled-IsCounted, filled-result, filled-others}
use libdft64_ect.Ssa.Sets.{
  tag_set, IsCached, copy_ctor-Keeps, fill_cache-Filled, Filled-IsCached, fill_cache-IsCounted,
}

module _ {y : Sylvan} (laws : SylvanLaws y) (n : ℕ) where
  -- The object `dst` has the offsets `f`; the counts and the cache are right, and every other object
  -- is as before.
  pub record Made (dst : ℕ) (f : ℕ → Bool) (s s' : State y) : Type 0 where
    pub counted : IsCounted n s'
    pub cached : IsCached laws s'
    pub result : (k : ℕ) → tag_set laws s' dst k ≡ f k
    pub refs_kept : (x : ℕ) → 3 ≤ x → x ≢ dst → s'.vars x ≡ s.vars x
    pub sets_kept :
        (x : ℕ) → 3 ≤ x → x < n → x ≢ dst → (k : ℕ) → tag_set laws s' x k ≡ tag_set laws s x k
    pub memory : s.heap.room ≤ s'.heap.room + 1

  pub copy_ctor-Made :
      (dst z : ℕ) (f : ℕ → Bool) (s : State y)
      → 3 ≤ dst
      → dst < n
      → z < n
      → s.vars dst ≡ none
      → IsCounted n s
      → IsCached laws s
      → ((k : ℕ) → tag_set laws s z k ≡ f k)
      → Made dst f s (copy_ctor dst z s)
  unfolding copy_ctor
  copy_ctor-Made dst z f s h1 h2 h3 e w c union =
      let k = copy_ctor-Keeps laws dst z s in
      let kept : (x : ℕ) → x ≢ dst → set_ref dst (s.vars z) s.vars x ≡ s.vars x =
        λ x other. ground arith in
      let kept_set : (x : ℕ)
          → x ≢ dst
          → (i : ℕ) → tag_set laws (copy_ctor dst z s) x i ≡ tag_set laws s x i =
        λ x other i. rw (kept x other) (k.same (s.vars x) i) in
      record {
        counted = copy_ctor-IsCounted n s w dst z h2 h3 e;
        cached = λ i.
            rw
              (
                kept_set cache_v (omega arith) i,
                kept_set cache_l (omega arith) i,
                kept_set cache_r (omega arith) i,
              )
              (c i);
        result = λ i.
            let here : set_ref dst (s.vars z) s.vars dst ≡ s.vars z = ground arith in
            rw here (k.same (s.vars z) i ∙ union i);
        refs_kept = λ x le other. kept x other;
        sets_kept = λ x le le' other i. kept_set x other i;
        memory = rw k.room (omega arith);
      }

  -- Steps before that change no object from 3 on.
  pub Made-after :
      (dst : ℕ) (f : ℕ → Bool) (s s1 s' : State y)
      → ((x : ℕ) → 3 ≤ x → s1.vars x ≡ s.vars x)
      → ((x : ℕ) → 3 ≤ x → x < n → (k : ℕ) → tag_set laws s1 x k ≡ tag_set laws s x k)
      → s1.heap.room ≡ s.heap.room
      → Made dst f s1 s'
      → Made dst f s s'
  Made-after dst f s s1 s' same_refs same_sets room m = record {
    counted = m.counted;
    cached = m.cached;
    result = m.result;
    refs_kept = λ x le other. m.refs_kept x le other ∙ same_refs x le;
    sets_kept = λ x le le' other k. m.sets_kept x le le' other k ∙ same_sets x le le' k;
    memory = rw (← room) m.memory;
  }

  -- Into the cache, and then a copy of one of the two arguments.
  pub cached_copy-Made :
      (dst l r v : ℕ) (f : ℕ → Bool) (s : State y)
      → 3 ≤ dst
      → 3 ≤ l
      → 3 ≤ r
      → 3 ≤ v
      → dst < n
      → l < n
      → r < n
      → v < n
      → s.vars dst ≡ none
      → IsCounted n s
      → ((k : ℕ) → tag_set laws s l k || tag_set laws s r k ≡ f k)
      → ((k : ℕ) → tag_set laws s v k ≡ f k)
      → Made dst f s (copy_ctor dst v (fill_cache l r v s))
  cached_copy-Made dst l r v f s d3 l3 r3 v3 dn ln rn vn e w union value =
      let s1 = fill_cache l r v s in
      let fl = fill_cache-Filled laws l r v s l3 r3 v3 in
      let sets : (x : ℕ) → 3 ≤ x → (k : ℕ) → tag_set laws s1 x k ≡ tag_set laws s x k =
        λ x le k. rw (fl.others x le) (fl.keeps.same (s.vars x) k) in
      Made-after dst f s s1 (copy_ctor dst v s1) fl.others (λ x le le' k. sets x le k) fl.keeps.room
        (copy_ctor-Made dst v f s1 d3 dn vn (fl.others dst d3 ∙ e)
          (fill_cache-IsCounted laws n s w l r v (omega arith) ln rn vn)
          (Filled-IsCached laws l r v s s1 fl (λ k. value k ∙ sym (union k)))
          (λ k. sets v v3 k ∙ value k))

  -- A new cell, which goes into the cache too.
  pub new_cell-Made :
      (dst l r res : ℕ) (f : ℕ → Bool) (s : State y)
      → 3 ≤ dst
      → 3 ≤ l
      → 3 ≤ r
      → dst < n
      → l < n
      → r < n
      → l ≢ dst
      → r ≢ dst
      → s.vars dst ≡ none
      → IsCounted n s
      → 0 < s.heap.room
      → ((k : ℕ) → tag_set laws s l k || tag_set laws s r k ≡ f k)
      → ((k : ℕ) → laws.member s.bdds res k ≡ f k)
      → (s1 : State y) × (store_result dst res s ≡ some s1) × Made dst f s (fill_cache l r dst s1)
  unfolding store_result
  new_cell-Made dst l r res f s d3 l3 r3 dn ln rn ld rd e w room union value =
      let (victim, hp, taken_eq, t) = take_cell-Taken (refs n s.vars) s.heap w.heap room in
      let s1 = filled laws n s w victim hp t dst res s.bdds in
      let counted = filled-IsCounted laws n s w victim hp t dst res s.bdds dn e in
      let made : (k : ℕ) → tag_set laws s1 dst k ≡ f k =
        λ k. filled-result laws n s w victim hp t dst res s.bdds k ∙ value k in
      let old = filled-others laws n s w victim hp t dst res s.bdds in
      let fl = fill_cache-Filled laws l r dst s1 l3 r3 d3 in
      let sets : (x : ℕ)
          → 3 ≤ x
          → (k : ℕ) → tag_set laws (fill_cache l r dst s1) x k ≡ tag_set laws s1 x k =
        λ x le k. rw (fl.others x le) (fl.keeps.same (s1.vars x) k) in
      (
        s1,
        rw taken_eq refl,
        record {
          counted = fill_cache-IsCounted laws n s1 counted l r dst (omega arith) ln rn dn;
          cached =
              Filled-IsCached laws l r dst s1 (fill_cache l r dst s1) fl
                λ k. made k ∙ sym (rw (old l ln ld k, old r rn rd k) (union k));
          result = λ k. sets dst d3 k ∙ made k;
          refs_kept = λ x le other. fl.others x le ∙ ground arith;
          sets_kept = λ x le le' other k. sets x le k ∙ old x le' other k;
          memory = rw fl.keeps.room t.memory;
        },
      )
