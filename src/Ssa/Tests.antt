-- ===== src/Ssa/Tests.antt =====
-- Runs of src/ssa_tag_gc.cpp with sets of offsets written as numbers in the place of BDDs.
use libdft64_ect.Prelude.{
  ℕ, zero, suc, ◌+◌, ◌/◌, ◌%◌, ◌^◌, ◌≡◌, refl, ◌∙◌, Bool, false, ◌||◌, none, some, ◌==◌,
  if◌then◌else◌, arith, inr,
}
use libdft64_ect.Prelude.Bits.{bit_or_digit}
use Prim.Native.Nat.{bit_or}
use native.Mathlib.Nat.{pow-suc}
use libdft64_ect.Ssa.{
  Heap, State, fill_cell, set_ref, never, take_cell, ssa_tag_alloc, ssa_tag_combine, fill_cache,
  copy_assign, destroy, thread_fini,
}
use libdft64_ect.Ssa.Worker.{Sylvan, SylvanLaws}
use libdft64_ect.Ssa.Offset.{offset_bits, bits_offset, bits_offset-offset_bits}
use libdft64_ect.Ssa.Ring.{IsRing-empty}
use libdft64_ect.Ssa.Counts.{IsHeap}
use libdft64_ect.Ssa.Alloc.{Taken, take_cell-Taken}
use libdft64_ect.Ssa.Assign.{IsCounted, destroys}
use libdft64_ect.Ssa.Made.{Made}
use libdft64_ect.Ssa.Combine.{ssa_tag_combine-Made}
use libdft64_ect.Ssa.Create.{ssa_tag_alloc-Made}
use libdft64_ect.Ssa.Start.{begin, begin-IsCounted}
use libdft64_ect.Ssa.History.{
  History, History-IsValid, here, later, assigned, allocated, combined, ended, IsLive,
  History-IsLive,
}

-- The binary digit `k`.
bit : ℕ → ℕ → Bool
bit zero b = b % 2 == 1
bit (suc k) b = bit k (b / 2)

bit_none : (k : ℕ) → bit k 0 ≡ false
unfolding bit
bit_none zero = refl
bit_none (suc k) = bit_none k

bit-pow : (k m : ℕ) → bit k (2 ^ m) ≡ k == m
unfolding bit
bit-pow zero zero = refl
bit-pow zero (suc m) = rw (pow-suc 2 m) (ground arith)
bit-pow (suc k) zero = bit_none k ∙ ground arith
bit-pow (suc k) (suc m) =
    let half : 2 ^ suc m / 2 ≡ 2 ^ m = rw (pow-suc 2 m) (omega arith) in
    rw half (bit-pow k m ∙ ground arith)

bit-bit_or : (k a b : ℕ) → bit k (bit_or a b) ≡ bit k a || bit k b
unfolding bit
bit-bit_or zero a b = let d = bit_or_digit a b in ground arith
bit-bit_or (suc k) a b =
    let half : bit_or a b / 2 ≡ bit_or (a / 2) (b / 2) = let d = bit_or_digit a b in ground arith in
    rw half (bit-bit_or k (a / 2) (b / 2))

abbrev numbers : Sylvan
numbers = record {
  Store = Unit {0};
  cube = λ bits at st. (2 ^ bits_offset bits, st);
  join = λ a b at st. (bit_or a b, st);
}

abbrev numbers_laws : SylvanLaws numbers
numbers_laws = record {
  member = λ st b k. bit k b;
  cube_single = λ bits at st k. bit-pow k (bits_offset bits);
  cube_keeps = λ bits at st p b k e. refl;
  join_union = λ a b at st p r k e e'. bit-bit_or k a b;
  join_keeps = λ a b at st p c k e. refl;
}

-- One block, no cell used, all but its last cell in the ring.
abbrev block : Heap
block = record {
  cells = λ _. record { ref_count = never; bdd = never };
  blocks = 1;
  room = 3;
  h = 0;
  t = 65_535;
  q = λ j. j;
  held = λ _. 0;
}

block-IsHeap : IsHeap (λ _. 0) block
block-IsHeap = record {
  counts = λ p le. inr (refl, refl);
  bounded = λ p. omega arith;
  below = λ p pos. absurd (omega arith);
  guarded = λ p pos. absurd (omega arith);
  len = 65_535;
  ring = record {
    first = omega arith;
    short = omega arith;
    tail_at = omega arith;
    free = λ k le. refl;
    within = λ k le. omega arith;
    distinct = λ j k lt le e. absurd (omega arith);
  };
}

bits_offset-offset_bits_example : bits_offset (offset_bits 16_777_221) ≡ 5
bits_offset-offset_bits_example = bits_offset-offset_bits 16_777_221

-- No block yet and so no cell in the ring.
abbrev no_block : Heap
no_block = record block { blocks = 0; t = 0 }

no_block-IsHeap : IsHeap (λ _. 0) no_block
no_block-IsHeap = record {
  counts = λ p le. inr (refl, refl);
  bounded = λ p. omega arith;
  below = λ p pos. absurd (omega arith);
  guarded = λ p pos. absurd (omega arith);
  len = 0;
  ring = IsRing-empty (λ j. j) 0 0 (λ _. 0) (omega arith) refl;
}

take_cell-Taken_example :
    (victim : ℕ) × (hp : Heap) × (take_cell 2 no_block ≡ some (victim, hp))
    × Taken (λ _. 0) no_block victim hp
take_cell-Taken_example = take_cell-Taken (λ _. 0) no_block no_block-IsHeap (omega arith)

-- Ten objects, none of which has a reference.
abbrev blank : State numbers
blank = begin block tt

blank-IsCounted : IsCounted 10 blank
blank-IsCounted = begin-IsCounted 10 block tt (omega arith) block-IsHeap

ssa_tag_alloc-Made_example :
    (s' : State numbers) × (ssa_tag_alloc 3 5 blank ≡ some s')
    × Made numbers_laws 10 3 (λ k. k == 5) blank s'
ssa_tag_alloc-Made_example =
    ssa_tag_alloc-Made numbers_laws 10 3 5 blank (omega arith) (omega arith) refl blank-IsCounted
      (λ k. refl) (omega arith)

-- The heap after cell `p` was taken and filled with `res`, the ring's first cell being `p`.
abbrev used : ℕ → ℕ → Heap → Heap
used p res hp = fill_cell p res (record hp {
  h = p + 1;
  cells = λ j. if j == p then record (hp.cells j) { ref_count = 1 } else hp.cells j;
})

-- The object 3 has the offset 5, and then the object 4 the offset 9.
abbrev with_five : State numbers
with_five = record { heap = used 0 32 block; vars = set_ref 3 (some 0) λ _. none; bdds = tt }

abbrev with_nine : State numbers
with_nine = record {
  heap = used 1 512 with_five.heap;
  vars = set_ref 4 (some 1) with_five.vars;
  bdds = tt;
}

five_made : ssa_tag_alloc 3 5 blank ≡ some with_five
unfolding ssa_tag_alloc take_cell offset_bits bits_offset
five_made = refl

nine_made : ssa_tag_alloc 4 9 with_five ≡ some with_nine
unfolding ssa_tag_alloc take_cell offset_bits bits_offset
nine_made = refl

two_tags : History 10 blank with_nine
two_tags =
    later (later here (allocated 3 5 (omega arith) (omega arith) refl (omega arith) five_made))
      (allocated 4 9 (omega arith) (omega arith) refl (omega arith) nine_made)

with_nine-IsCounted : IsCounted 10 with_nine
with_nine-IsCounted =
    (History-IsValid numbers_laws 10 blank with_nine two_tags (record {
      some_objects = omega arith;
      counted = blank-IsCounted;
      cached = λ k. refl;
    })).counted

ssa_tag_combine-Made_example :
    (s' : State numbers) × (ssa_tag_combine 5 3 4 with_nine ≡ some s')
    × Made numbers_laws 10 5 (λ k. bit k 32 || bit k 512) with_nine s'
ssa_tag_combine-Made_example =
    ssa_tag_combine-Made numbers_laws 10 5 3 4 with_nine (omega arith) (omega arith) (omega arith)
      (omega arith) (omega arith) (omega arith) refl with_nine-IsCounted (λ k. refl) (omega arith)

-- The object 5 has both offsets.
abbrev with_both : State numbers
unfolding fill_cache
with_both = fill_cache 3 4 5 (record {
  heap = used 2 544 with_nine.heap;
  vars = set_ref 5 (some 2) with_nine.vars;
  bdds = tt;
})

both_made : ssa_tag_combine 5 3 4 with_nine ≡ some with_both
unfolding ssa_tag_combine take_cell
both_made = refl

History-IsLive_example : IsLive 10 (thread_fini (destroy 3 with_both)) 2
unfolding thread_fini destroy fill_cache copy_assign
History-IsLive_example =
    History-IsLive numbers_laws 10 block tt (thread_fini (destroy 3 with_both)) (omega arith)
      (omega arith) block-IsHeap
      (later
        (later
          (later two_tags (
            combined 5 3 4 (omega arith) (omega arith) (omega arith) (omega arith) (omega arith)
              (omega arith) refl (omega arith) both_made))
          (assigned (destroys 3 (omega arith) (omega arith))))
        ended)
      5 2 (omega arith) refl
