-- ===== src/Ssa/Ring.antt =====
-- The ring of free cells of src/ssa_tag_gc.cpp, for the loops that fill it.
use libdft64_ect.Prelude.{
  ℕ, ◌+◌, ◌-◌, ◌%◌, ◌≤◌, ◌<◌, ◌≡◌, refl, sym, ap, ◌∙◌, ◌≢◌, true, false, ◌==◌, if◌then◌else◌, arith,
  Bool-cases, inl, inr,
}
use libdft64_ect.Ssa.{ssa_blk, empty_count}

abbrev pub entry : (ℕ → ℕ) → ℕ → ℕ → ℕ
entry q h k = q ((h + k) % ssa_blk)

-- `len` different cells below `bound` from `h` to `tail`, to none of which a tag refers; `f` counts
-- the tags.
pub record IsRing (q : ℕ → ℕ) (h tail len bound : ℕ) (f : ℕ → ℕ) : Type 0 where
  pub first : h < ssa_blk
  pub short : len < ssa_blk
  pub tail_at : tail ≡ (h + len) % ssa_blk
  pub free : (k : ℕ) → k < len → f (entry q h k) ≡ 0
  pub within : (k : ℕ) → k < len → entry q h k < bound
  pub distinct : (j k : ℕ) → j < k → k < len → entry q h j ≢ entry q h k

abbrev pub put : (ℕ → ℕ) → ℕ → ℕ → ℕ → ℕ
put q tail p j = if j == tail then p else q j

pub IsRing-empty :
    (q : ℕ → ℕ) (h tail : ℕ) (f : ℕ → ℕ) → h < ssa_blk → h ≡ tail → IsRing q h tail 0 0 f
IsRing-empty q h tail f first e = record {
  first = first;
  short = omega arith;
  tail_at = omega arith;
  free = λ k h'. absurd (omega arith);
  within = λ k h'. absurd (omega arith);
  distinct = λ j k h1 h2. absurd (omega arith);
}

pub IsRing-mono :
    (q : ℕ → ℕ) (h tail len bound more : ℕ) (f : ℕ → ℕ)
    → bound ≤ more
    → IsRing q h tail len bound f
    → IsRing q h tail len more f
IsRing-mono q h tail len bound more f le w = record {
  first = w.first;
  short = w.short;
  tail_at = w.tail_at;
  free = w.free;
  within = λ k h'. let below = w.within k h' in omega arith;
  distinct = w.distinct;
}

pub IsRing-empty_count :
    (q : ℕ → ℕ) (h tail len bound : ℕ) (f : ℕ → ℕ)
    → IsRing q h tail len bound f
    → empty_count h tail + len + 1 ≡ ssa_blk
unfolding empty_count
IsRing-empty_count q h tail len bound f w =
    let a = w.first in let b = w.short in let c = w.tail_at in ground arith

module _ (q : ℕ → ℕ) (h tail len bound p : ℕ) (f : ℕ → ℕ) (w : IsRing q h tail len bound f)
    (room : len + 1 < ssa_blk) where
  entry-put_old : (k : ℕ) → k < len → entry (put q tail p) h k ≡ entry q h k
  entry-put_old k le =
      let a = w.first in
      let c = w.tail_at in
      let miss : ((h + k) % ssa_blk == tail) ≡ false = ground arith in rw miss refl

  entry-put_new : entry (put q tail p) h len ≡ p
  entry-put_new =
      let c = w.tail_at in
      let hit : ((h + len) % ssa_blk == tail) ≡ true = ground arith in rw hit refl

  -- One more cell, above those in the ring.
  pub IsRing-put :
      f p ≡ 0 → bound ≤ p → IsRing (put q tail p) h ((tail + 1) % ssa_blk) (len + 1) (p + 1) f
  IsRing-put none above = record {
    first = w.first;
    short = room;
    tail_at = let c = w.tail_at in omega arith;
    free = λ k le. elim (Bool-cases (k == len)) [
      | inl last ↦ let e : k ≡ len = ground arith in rw (e, entry-put_new) none
      | inr other ↦ let lt : k < len = ground arith in rw (entry-put_old k lt) (w.free k lt)
    ];
    within = λ k le. elim (Bool-cases (k == len)) [
      | inl last ↦ let e : k ≡ len = ground arith in rw (e, entry-put_new) (omega arith)
      | inr other ↦
          let lt : k < len = ground arith in
          let below = w.within k lt in rw (entry-put_old k lt) (omega arith)
    ];
    distinct = λ j k lt le. elim (Bool-cases (k == len)) [
      | inl last ↦
          let e : k ≡ len = ground arith in
          let lt' : j < len = omega arith in
          let below = w.within j lt' in
          rw (e, entry-put_new, entry-put_old j lt') λ eq. absurd (omega arith)
      | inr other ↦
          let lt' : k < len = ground arith in
          rw (entry-put_old k lt', entry-put_old j (omega arith)) (w.distinct j k lt lt')
    ];
  }

module _ (q : ℕ → ℕ) (h tail len bound : ℕ) (f : ℕ → ℕ) (w : IsRing q h tail len bound f)
    (some_left : h ≢ tail) where
  pub IsRing-nonempty : 0 < len
  IsRing-nonempty = let a = w.first in let c = w.tail_at in ground arith

  -- The ring without its first cell, which one tag may refer to from then on.
  pub IsRing-next :
      (g : ℕ → ℕ)
      → ((p : ℕ) → p ≢ entry q h 0 → g p ≡ f p)
      → IsRing q ((h + 1) % ssa_blk) tail (len - 1) bound g
  IsRing-next g same = record {
    first = omega arith;
    short = let b = w.short in omega arith;
    tail_at = let c = w.tail_at in let n = IsRing-nonempty in omega arith;
    free = λ k le. rw (shift k) (
        same (entry q h (k + 1)) (λ e. w.distinct 0 (k + 1) (omega arith) (omega arith) (sym e))
        ∙ w.free (k + 1) (omega arith));
    within = λ k le. rw (shift k) (w.within (k + 1) (omega arith));
    distinct =
        λ j k lt le. rw (shift j, shift k) (w.distinct (j + 1) (k + 1) (omega arith) (omega arith));
  }
    where
      shift : (k : ℕ) → entry q ((h + 1) % ssa_blk) k ≡ entry q h (k + 1)
      shift k = ap q (omega arith)
