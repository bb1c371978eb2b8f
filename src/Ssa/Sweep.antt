-- ===== src/Ssa/Sweep.antt =====
-- The loops of `ssa_gc` and `add_ssa_blk` of src/ssa_tag_gc.cpp.
use libdft64_ect.Prelude.{
  ℕ, zero, suc, ◌+◌, ◌-◌, ◌%◌, ◌^◌, ◌≤◌, ◌<◌, ◌≡◌, refl, ◌∙◌, ◌==◌, not, ◌&&◌, ◌||◌, true, false,
  arith, Bool-cases, inl, inr,
}
use native.Mathlib.Nat.{add-zero}
use libdft64_ect.Ssa.{
  Heap, Scan, cell_count, never, ssa_blk, enqueue, collect, is_free, gc_loop, add_loop,
}
use libdft64_ect.Ssa.Ring.{IsRing, IsRing-put, IsRing-mono}
use libdft64_ect.Ssa.Counts.{Counted}

-- A loop put cells without tags into the ring and left the rest of the heap as it was.
pub record Filled (f : ℕ → ℕ) (hp : Heap) (r : Scan) (len : ℕ) : Type 0 where
  pub ring : IsRing r.heap.q hp.h r.temp_t len (cell_count hp) f
  pub cells : r.heap.cells ≡ hp.cells
  pub blocks : r.heap.blocks ≡ hp.blocks
  pub room : r.heap.room ≡ hp.room
  pub h : r.heap.h ≡ hp.h
  pub guarded : (p : ℕ) → 0 < f p → r.heap.held p ≡ hp.held p

free-Counted :
    (count tags : ℕ)
    → Counted count tags
    → tags < never
    → (count == 0 || count == never) ≡ true
    → tags ≡ 0
free-Counted count tags (inl e) small free = ground arith
free-Counted count tags (inr (e, z)) small free = z

module _ (f : ℕ → ℕ) where
  Filled-done :
      (hp : Heap) (temp_t empty len p : ℕ)
      → p ≤ cell_count hp
      → IsRing hp.q hp.h temp_t len p f
      → Filled f hp (record { heap = hp; temp_t = temp_t; empty = empty }) len
  Filled-done hp temp_t empty len p le ring = record {
    ring = IsRing-mono hp.q hp.h temp_t len p (cell_count hp) f le ring;
    cells = refl;
    blocks = refl;
    room = refl;
    h = refl;
    guarded = λ p' pos. refl;
  }

  -- The cell `p` has no tag, so it does not matter whether it is protected.
  Filled-collect :
      (hp : Heap) (temp_t p : ℕ)
      → f p ≡ 0
      → (r : Scan) (len : ℕ) → Filled f (collect hp temp_t p) r len
      → Filled f hp r len
  Filled-collect hp temp_t p none_f r len w = record {
    ring = w.ring;
    cells = w.cells;
    blocks = w.blocks;
    room = w.room;
    h = w.h;
    guarded = λ p' pos.
        w.guarded p' pos
        ∙ elim (Bool-cases ((hp.cells p).ref_count == 0 && not ((hp.cells p).bdd == 0))) [
          | inl used ↦
              let other : (p' == p) ≡ false = elim (Bool-cases (p' == p)) [
                | inl same ↦
                    let e : p' ≡ p = ground arith in
                    let z : f p' ≡ 0 = rw e none_f in absurd (omega arith)
                | inr other ↦ other
              ] in
              rw (used, other) refl
          | inr unused ↦ rw unused refl
        ];
  }

  -- The sweep stops when the ring is full.
  pub record Swept (hp : Heap) (r : Scan) : Type 0 where
    pub len : ℕ
    pub filled : Filled f hp r len
    pub left : r.empty + len + 1 ≡ ssa_blk

  pub gc_loop-Swept :
      (rounds p : ℕ) (hp : Heap) (temp_t empty len : ℕ)
      → p + rounds ≡ cell_count hp
      → ((j : ℕ) → j < cell_count hp → Counted (hp.cells j).ref_count (f j))
      → ((j : ℕ) → f j < never)
      → IsRing hp.q hp.h temp_t len p f
      → empty + len + 1 ≡ ssa_blk
      → 0 < empty
      → Swept hp (gc_loop rounds p hp temp_t empty)
  unfolding gc_loop
  gc_loop-Swept zero p hp temp_t empty len e counts small ring left pos = record {
    len = len;
    filled = Filled-done hp temp_t empty len p (omega arith) ring;
    left = left;
  }
  gc_loop-Swept (suc rounds) p hp temp_t empty len e counts small ring left pos =
      elim (Bool-cases (is_free (hp.cells p))) [
        | inl free ↦
            let none_f : f p ≡ 0 =
              free-Counted (hp.cells p).ref_count (f p) (counts p (omega arith)) (small p) free in
            let next =
              IsRing-put hp.q hp.h temp_t len p p f ring (omega arith) none_f (omega arith) in
            let down : (empty + (2 ^ 64 - 1)) % 2 ^ 64 ≡ empty - 1 = omega arith in
            let hp1 = collect hp temp_t p in
            let t1 = (temp_t + 1) % ssa_blk in
            elim (Bool-cases (empty - 1 == 0)) [
              | inl full ↦
                  rw (free, down, full)
                    (record {
                      len = len + 1;
                      filled =
                          Filled-collect hp temp_t p none_f _ (len + 1)
                            (Filled-done hp1 t1 0 (len + 1) (p + 1) (omega arith) next);
                      left = ground arith;
                    })
              | inr some_left ↦
                  let rest =
                    gc_loop-Swept rounds (p + 1) hp1 t1 (empty - 1) (len + 1) (omega arith) counts
                      small next (omega arith) (ground arith) in
                  rw (free, down, some_left)
                    (record {
                      len = rest.len;
                      filled = Filled-collect hp temp_t p none_f _ rest.len rest.filled;
                      left = rest.left;
                    })
            ]
        | inr used ↦ rw used (
            gc_loop-Swept rounds (p + 1) hp temp_t empty len (omega arith) counts small
              (IsRing-mono hp.q hp.h temp_t len p (p + 1) f (omega arith) ring) left pos)
      ]

  pub add_loop-Filled :
      (rounds p : ℕ) (hp : Heap) (temp_t len : ℕ)
      → p + rounds ≤ cell_count hp
      → ((j : ℕ) → p ≤ j → f j ≡ 0)
      → IsRing hp.q hp.h temp_t len p f
      → len + rounds < ssa_blk
      → Filled f hp (add_loop rounds p hp temp_t) (len + rounds)
  unfolding add_loop
  add_loop-Filled zero p hp temp_t len le fresh ring short =
      rw (add-zero len) (Filled-done hp temp_t 0 len p (omega arith) ring)
  add_loop-Filled (suc rounds) p hp temp_t len le fresh ring short =
      let next =
        IsRing-put hp.q hp.h temp_t len p p f ring (omega arith) (fresh p (omega arith))
          (omega arith) in
      let hp1 = enqueue hp temp_t p in
      let rest : Filled f hp1 (add_loop rounds (p + 1) hp1 ((temp_t + 1) % ssa_blk))
          (len + 1 + rounds) =
        add_loop-Filled rounds (p + 1) hp1 ((temp_t + 1) % ssa_blk) (len + 1) (omega arith)
          (λ j le'. fresh j (omega arith)) next (omega arith) in
      let e : len + 1 + rounds ≡ len + suc rounds = omega arith in
      record {
        ring = rw (← e) rest.ring;
        cells = rest.cells;
        blocks = rest.blocks;
        room = rest.room;
        h = rest.h;
        guarded = rest.guarded;
      }
