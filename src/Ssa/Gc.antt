-- ===== src/Ssa/Gc.antt =====
-- `ssa_gc` and `add_ssa_blk` of src/ssa_tag_gc.cpp.
use libdft64_ect.Prelude.{
  ℕ, ◌+◌, ◌≤◌, ◌<◌, ◌≡◌, refl, ap, ◌∙◌, ◌≢◌, some, ◌==◌, ltb, leb, false, arith, Bool-cases, inl,
  inr,
}
use libdft64_ect.Ssa.{
  Heap, Scan, cell_count, never, ssa_blk, ssa_gc_threshold, empty_count, gc_loop, add_loop,
  new_block, add_ssa_blk, ssa_gc,
}
use libdft64_ect.Ssa.Ring.{IsRing-empty, IsRing-empty_count}
use libdft64_ect.Ssa.Counts.{Counted, IsHeap}
use libdft64_ect.Ssa.Sweep.{Filled, Swept, gc_loop-Swept, add_loop-Filled}

-- What a collection leaves: a cell to take, and the cells of the blocks as they were.
pub record Refilled (f : ℕ → ℕ) (hp hp' : Heap) : Type 0 where
  pub heap : IsHeap f hp'
  pub some_left : hp'.h ≢ hp'.t
  pub same_cells : (p : ℕ) → p < cell_count hp → hp'.cells p ≡ hp.cells p
  pub grown : cell_count hp ≤ cell_count hp'
  pub memory : hp.room ≤ hp'.room + 1
  pub same_held : (p : ℕ) → 0 < f p → hp'.held p ≡ hp.held p

module _ (f : ℕ → ℕ) where
  module _ (hp : Heap) (r : Scan) (len : ℕ) (filled : Filled f hp r len) where
    Filled-IsHeap :
        ((p : ℕ) → p < cell_count hp → Counted (hp.cells p).ref_count (f p))
        → ((p : ℕ) → f p < never)
        → ((p : ℕ) → 0 < f p → p < cell_count hp)
        → ((p : ℕ) → 0 < f p → 0 < hp.held p)
        → IsHeap f (record r.heap { t = r.temp_t })
    Filled-IsHeap counts bounded below guarded = record {
      counts = λ p le.
          let le' : p < cell_count hp = rw filled.blocks at le in rw filled.cells (counts p le');
      bounded = bounded;
      below = λ p pos. rw filled.blocks (below p pos);
      guarded = λ p pos. rw (filled.guarded p pos) (guarded p pos);
      len = len;
      ring = rw (filled.h, filled.blocks) filled.ring;
    }

    Filled-some_left : 0 < len → r.heap.h ≢ r.temp_t
    Filled-some_left pos = rw filled.h λ e.
        let a = filled.ring.first in
        let b = filled.ring.short in let c = filled.ring.tail_at in absurd (omega arith)

  -- A block is added to a ring that is not full.
  pub add_ssa_blk-Refilled :
      (hp : Heap)
      → IsHeap f hp
      → 0 < hp.room
      → empty_count hp.h hp.t ≢ 0
      → (hp' : Heap) × (add_ssa_blk hp ≡ some hp') × Refilled f hp hp'
  unfolding add_ssa_blk
  add_ssa_blk-Refilled hp w room left =
      let count : empty_count hp.h hp.t + w.len + 1 ≡ ssa_blk =
        IsRing-empty_count hp.q hp.h hp.t w.len (cell_count hp) f w.ring in
      let there : (hp.room == 0) ≡ false = ground arith in
      let fresh : (j : ℕ) → cell_count hp ≤ j → f j ≡ 0 =
        λ j le. let b = w.below j in ground arith in
      let done = add_loop (empty_count hp.h hp.t) (cell_count hp) (new_block hp) hp.t in
      let len = w.len + empty_count hp.h hp.t in
      let r : Filled f (new_block hp) done len =
        add_loop-Filled f (empty_count hp.h hp.t) (cell_count hp) (new_block hp) hp.t w.len
          (omega arith) fresh w.ring (omega arith) in
      let old : (p : ℕ) → p < cell_count hp → (new_block hp).cells p ≡ hp.cells p =
        λ p le. let no : leb (cell_count hp) p ≡ false = ground arith in rw no refl in
      (
        record done.heap { t = done.temp_t },
        rw there refl,
        record {
          heap =
              Filled-IsHeap (new_block hp) done len r
                (λ p le. elim (Bool-cases (leb (cell_count hp) p)) [
                  | inl new ↦ rw new (inr (refl, fresh p (ground arith)))
                  | inr older ↦ rw older (w.counts p (ground arith))
                ])
                w.bounded (λ p pos. let b = w.below p pos in omega arith) w.guarded;
          some_left = Filled-some_left (new_block hp) done len r (ground arith);
          same_cells = λ p le. ap (λ c. c p) r.cells ∙ old p le;
          grown = rw r.blocks (omega arith);
          memory = rw r.room (omega arith);
          same_held = λ p pos. r.guarded p pos;
        },
      )

  -- The collection of an empty ring.
  pub ssa_gc-Refilled :
      (hp : Heap)
      → IsHeap f hp
      → 0 < hp.room
      → hp.h ≡ hp.t
      → (hp' : Heap) × (ssa_gc hp ≡ some hp') × Refilled f hp hp'
  unfolding ssa_gc
  ssa_gc-Refilled hp w room none_left =
      let ring = IsRing-empty hp.q hp.h hp.t f w.ring.first none_left in
      let full : empty_count hp.h hp.t + 0 + 1 ≡ ssa_blk =
        IsRing-empty_count hp.q hp.h hp.t 0 0 f ring in
      let scan = gc_loop (cell_count hp) 0 hp hp.t (empty_count hp.h hp.t) in
      let r : Swept f hp scan =
        gc_loop-Swept f (cell_count hp) 0 hp hp.t (empty_count hp.h hp.t) 0 (omega arith) w.counts
          w.bounded ring full (omega arith) in
      let swept : Heap = record scan.heap { t = scan.temp_t } in
      let w1 : IsHeap f swept =
        Filled-IsHeap hp scan r.len r.filled w.counts w.bounded w.below w.guarded in
      elim (Bool-cases (ltb ssa_gc_threshold scan.empty)) [
        | inl few ↦
            let here : empty_count swept.h swept.t + r.len + 1 ≡ ssa_blk =
              IsRing-empty_count swept.q swept.h swept.t r.len (cell_count swept) f
                (rw (r.filled.h, r.filled.blocks) r.filled.ring) in
            let (hp', e, c) =
              add_ssa_blk-Refilled swept w1 (rw r.filled.room room)
                (let left = r.left in ground arith) in
            rw few (
              hp',
              e,
              record {
                heap = c.heap;
                some_left = c.some_left;
                same_cells =
                    λ p le. c.same_cells p (rw r.filled.blocks le) ∙ ap (λ x. x p) r.filled.cells;
                grown = let g = c.grown in rw r.filled.blocks at g;
                memory = let m = c.memory in rw r.filled.room at m;
                same_held = λ p pos. c.same_held p pos ∙ r.filled.guarded p pos;
              },
            )
        | inr enough ↦ rw enough (
          swept,
          refl,
          record {
            heap = w1;
            some_left = Filled-some_left hp scan r.len r.filled (let left = r.left in ground arith);
            same_cells = λ p le. ap (λ c. c p) r.filled.cells;
            grown = rw r.filled.blocks (omega arith);
            memory = rw r.filled.room (omega arith);
            same_held = λ p pos. r.filled.guarded p pos;
          },
        )
      ]
