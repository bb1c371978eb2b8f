-- ===== src/Ssa/Alloc.antt =====
-- The loops of `ssa_tag_alloc` and `ssa_tag_combine` of src/ssa_tag_gc.cpp that take a free cell.
use libdft64_ect.Prelude.{
  ℕ, suc, ◌+◌, ◌-◌, ◌%◌, ◌≤◌, ◌<◌, ◌≡◌, refl, sym, ap, ◌∙◌, ◌≢◌, some, ◌==◌, if◌then◌else◌, false,
  arith, Bool-cases, inl, inr,
}
use libdft64_ect.Ssa.{Heap, cell_count, ssa_blk, take_cell, fill_cell}
use libdft64_ect.Ssa.Refs.{points_to}
use libdft64_ect.Ssa.Ring.{IsRing-next, IsRing-nonempty, entry}
use libdft64_ect.Ssa.Counts.{IsHeap}
use libdft64_ect.Ssa.Gc.{ssa_gc-Refilled}

-- A cell that no tag refers to was taken: once filled, one tag may refer to it, and the cells with
-- tags are as they were.
pub record Taken (f : ℕ → ℕ) (hp : Heap) (victim : ℕ) (hp' : Heap) : Type 0 where
  pub unused : f victim ≡ 0
  pub filled : (res : ℕ) → IsHeap (λ p. f p + points_to (some victim) p) (fill_cell victim res hp')
  pub same_cells : (p : ℕ) → 0 < f p → hp'.cells p ≡ hp.cells p
  pub same_held : (p : ℕ) → 0 < f p → hp'.held p ≡ hp.held p
  pub memory : hp.room ≤ hp'.room + 1

module _ (f : ℕ → ℕ) (hp : Heap) (w : IsHeap f hp) where
  abbrev popped : Heap
  popped = record hp {
    h = (hp.h + 1) % ssa_blk;
    cells = λ j. if j == hp.q hp.h then record (hp.cells j) { ref_count = 1 } else hp.cells j;
  }

  pop-Taken : hp.h ≢ hp.t → Taken f hp (hp.q hp.h) popped
  pop-Taken some_left = record {
    unused = unused;
    filled = λ res. record {
      counts = λ p le. elim (Bool-cases (p == hp.q hp.h)) [
        | inl here ↦
            let e : p ≡ hp.q hp.h = ground arith in
            let one : points_to (some (hp.q hp.h)) p ≡ 1 = ground arith in
            let z : f p ≡ 0 = rw e unused in rw (here, one, z) (inl refl)
        | inr other ↦
            let none_new : f p ≡ f p + points_to (some (hp.q hp.h)) p = ground arith in
            rw (other, ← none_new) (w.counts p le)
      ];
      bounded = λ p. elim (Bool-cases (hp.q hp.h == p)) [
        | inl here ↦
            let e : hp.q hp.h ≡ p = ground arith in
            let z : f p ≡ 0 = rw (← e) unused in rw (here, z) (omega arith)
        | inr other ↦ let b = w.bounded p in rw other (omega arith)
      ];
      below = λ p pos. elim (Bool-cases (hp.q hp.h == p)) [
        | inl here ↦ let e : hp.q hp.h ≡ p = ground arith in rw (← e) inside
        | inr other ↦ let b = w.below p in ground arith
      ];
      guarded = λ p pos. elim (Bool-cases (p == hp.q hp.h)) [
        | inl here ↦ rw here (omega arith)
        | inr other ↦ let b = w.guarded p in rw other (ground arith)
      ];
      len = w.len - 1;
      ring =
          IsRing-next hp.q hp.h hp.t w.len (cell_count hp) f w.ring some_left
            (λ p. f p + points_to (some (hp.q hp.h)) p)
            (λ p other. let no_e : p ≢ hp.q hp.h = λ e. other (e ∙ sym head) in ground arith);
    };
    same_cells = λ p pos. elim (Bool-cases (p == hp.q hp.h)) [
      | inl here ↦
          let e : p ≡ hp.q hp.h = ground arith in
          let z : f p ≡ 0 = rw e unused in absurd (omega arith)
      | inr other ↦ rw other refl
    ];
    same_held = λ p pos. refl;
    memory = omega arith;
  }
    where
      head : entry hp.q hp.h 0 ≡ hp.q hp.h
      head = let a = w.ring.first in ap hp.q (omega arith)

      unused : f (hp.q hp.h) ≡ 0
      unused =
          rw (← head) (
            w.ring.free 0 (IsRing-nonempty hp.q hp.h hp.t w.len (cell_count hp) f w.ring some_left))

      inside : hp.q hp.h < cell_count hp
      inside = rw (← head) (
          w.ring.within 0 (IsRing-nonempty hp.q hp.h hp.t w.len (cell_count hp) f w.ring some_left))

take_now :
    (fuel : ℕ) (hp : Heap)
    → hp.h ≢ hp.t
    → take_cell (suc fuel) hp
      ≡ some (
        hp.q hp.h,
        record hp {
          h = (hp.h + 1) % ssa_blk;
          cells = λ j. if j == hp.q hp.h then record (hp.cells j) { ref_count = 1 } else hp.cells j;
        },
      )
unfolding take_cell
take_now fuel hp some_left = let other : (hp.h == hp.t) ≡ false = ground arith in rw other refl

-- While `malloc` has a block left, a free cell is found, after one collection at most; no tag refers
-- to it, and it can be filled.
pub take_cell-Taken :
    (f : ℕ → ℕ) (hp : Heap)
    → IsHeap f hp
    → 0 < hp.room
    → (victim : ℕ) × (hp' : Heap) × (take_cell 2 hp ≡ some (victim, hp')) × Taken f hp victim hp'
unfolding take_cell
take_cell-Taken f hp w room = elim (Bool-cases (hp.h == hp.t)) [
  | inl none_left ↦
      let (hp1, e, c) = ssa_gc-Refilled f hp w room (ground arith) in
      let taken = pop-Taken f hp1 c.heap c.some_left in
      rw (none_left, e)
        (
          hp1.q hp1.h,
          _,
          take_now 0 hp1 c.some_left,
          record {
            unused = taken.unused;
            filled = taken.filled;
            same_cells = λ p pos. taken.same_cells p pos ∙ c.same_cells p (w.below p pos);
            same_held = λ p pos. taken.same_held p pos ∙ c.same_held p pos;
            memory = c.memory;
          },
        )
  | inr some_left ↦ rw some_left (hp.q hp.h, _, refl, pop-Taken f hp w (ground arith))
]
