-- ===== src/Ssa.antt =====
-- The tags of src/ssa_tag_gc.h and src/ssa_tag_gc.cpp: counted references to cells that hold a
-- BDD, and the ring of free cells. One thread runs; Sylvan and its worker are a parameter.
pub mod Worker
pub mod Offset
pub mod Refs
pub mod Ring
pub mod Counts
pub mod Sweep
pub mod Gc
pub mod Alloc
pub mod Assign
pub mod Sets
pub mod Made
pub mod Combine
pub mod Fresh
pub mod Create
pub mod Start
pub mod History
mod Tests
use libdft64_ect.Prelude.{
  ℕ, zero, suc, ◌+◌, ◌-◌, ◌*◌, ◌%◌, ◌^◌, Bool, true, false, not, ◌&&◌, ◌||◌, Option, none, some,
  List, [], ◌∷◌, ltb, leb, ◌==◌, if◌then◌else◌, ◌>>=◌,
}
use Worker.{Sylvan}
use Offset.{offset_bits}

-- `SSA_BLK` and `SSA_GC_THRESHOLD`.
abbrev pub ssa_blk : ℕ
ssa_blk = 65_536

abbrev pub ssa_gc_threshold : ℕ
ssa_gc_threshold = 32_768

-- The count of a cell that was never used.
abbrev pub never : ℕ
never = 18_446_744_073_709_551_615

-- `class ssa`.
pub record Cell : Type 0 where
  pub ref_count : ℕ
  pub bdd : ℕ

-- The blocks, the ring `free_ssa` and the pointers that Sylvan was told to protect. Cell `i` of
-- the block number `b` is the cell `b * ssa_blk + i`; `malloc` has `room` blocks left.
pub record Heap : Type 0 where
  pub cells : ℕ → Cell
  pub blocks : ℕ
  pub room : ℕ
  pub h : ℕ
  pub t : ℕ
  pub q : ℕ → ℕ
  pub held : ℕ → ℕ

abbrev pub cell_count : Heap → ℕ
cell_count hp = hp.blocks * ssa_blk

-- `ref_count++` and `ref_count--` through a tag that is not null.
abbrev pub retain : Option ℕ → Heap → Heap
retain none hp = hp
retain (some p) hp = record hp {
  cells = λ j.
      if j == p
      then record (hp.cells j) { ref_count = ((hp.cells j).ref_count + 1) % 2 ^ 64 }
      else hp.cells j;
}

abbrev pub release : Option ℕ → Heap → Heap
release none hp = hp
release (some p) hp = record hp {
  cells = λ j.
      if j == p
      then record (hp.cells j) { ref_count = ((hp.cells j).ref_count + (2 ^ 64 - 1)) % 2 ^ 64 }
      else hp.cells j;
}

-- The places left in the ring from `h` to `t`.
pub empty_count : ℕ → ℕ → ℕ
empty_count h t = if leb h t then ssa_blk - 1 - (t - h) else h - t - 1

-- `free_ssa._q[temp_t] = &cell`.
abbrev pub enqueue : Heap → ℕ → ℕ → Heap
enqueue hp temp_t p = record hp { q = λ j. if j == temp_t then p else hp.q j }

-- `sylvan_protect` and `mtbdd_unprotect`: how often each cell is protected.
abbrev pub protect : ℕ → (ℕ → ℕ) → ℕ → ℕ
protect p held j = if j == p then held j + 1 else held j

abbrev pub unprotect : ℕ → (ℕ → ℕ) → ℕ → ℕ
unprotect p held j = if j == p then held j - 1 else held j

-- A heap with the local variables of a loop.
pub record Scan : Type 0 where
  pub heap : Heap
  pub temp_t : ℕ
  pub empty : ℕ

-- The loop of `add_ssa_blk` from the cell `p` on.
pub add_loop : ℕ → ℕ → Heap → ℕ → Scan
add_loop zero p hp temp_t = record { heap = hp; temp_t = temp_t; empty = 0 }
add_loop (suc rounds) p hp temp_t =
    add_loop rounds (p + 1) (enqueue hp temp_t p) ((temp_t + 1) % ssa_blk)

-- The new block, all bits of its cells set.
abbrev pub new_block : Heap → Heap
new_block hp = record hp {
  cells =
      λ j. if leb (cell_count hp) j then record { ref_count = never; bdd = never } else hp.cells j;
  blocks = hp.blocks + 1;
  room = hp.room - 1;
}

-- `none` where `malloc` has no block left.
pub add_ssa_blk : Heap → Option Heap
unfolding add_loop empty_count
add_ssa_blk hp =
    let done = add_loop (empty_count hp.h hp.t) (cell_count hp) (new_block hp) hp.t in
    if hp.room == 0 then none else some (record done.heap { t = done.temp_t })

abbrev pub is_free : Cell → Bool
is_free c = c.ref_count == 0 || c.ref_count == never

-- What the loop of `ssa_gc` does with a free cell.
abbrev pub collect : Heap → ℕ → ℕ → Heap
collect hp temp_t p = record (enqueue hp temp_t p) {
  held =
      if (hp.cells p).ref_count == 0 && not ((hp.cells p).bdd == 0)
      then unprotect p hp.held
      else hp.held;
}

-- The two loops of `ssa_gc`, over the cells of all blocks from `p` on.
pub gc_loop : ℕ → ℕ → Heap → ℕ → ℕ → Scan
gc_loop zero p hp temp_t empty = record { heap = hp; temp_t = temp_t; empty = empty }
gc_loop (suc rounds) p hp temp_t empty =
    let left = (empty + (2 ^ 64 - 1)) % 2 ^ 64 in
    let next_t = (temp_t + 1) % ssa_blk in
    let taken = gc_loop rounds (p + 1) (collect hp temp_t p) next_t left in
    let passed = gc_loop rounds (p + 1) hp temp_t empty in
    if is_free (hp.cells p)
    then (if left == 0
        then record { heap = collect hp temp_t p; temp_t = next_t; empty = 0 }
        else taken)
    else passed

-- The jump to `exit_gc` leaves `empty_count` at 0, which is not above the threshold.
pub ssa_gc : Heap → Option Heap
unfolding gc_loop empty_count add_ssa_blk
ssa_gc hp =
    let scan = gc_loop (cell_count hp) 0 hp hp.t (empty_count hp.h hp.t) in
    let swept = record scan.heap { t = scan.temp_t } in
    if ltb ssa_gc_threshold scan.empty then add_ssa_blk swept else some swept

-- The loops that take a cell from the ring, on fuel: `while (idx == _t) ssa_gc();`.
pub take_cell : ℕ → Heap → Option (ℕ × Heap)
unfolding ssa_gc
take_cell zero hp = none
take_cell (suc fuel) hp =
    let again = ssa_gc hp >>= take_cell fuel in
    let victim = hp.q hp.h in
    if hp.h == hp.t
    then again
    else some (
      victim,
      record hp {
        h = (hp.h + 1) % ssa_blk;
        cells = λ j. if j == victim then record (hp.cells j) { ref_count = 1 } else hp.cells j;
      },
    )

-- `victim->bdd = t->res; sylvan_protect(&victim->bdd);`.
abbrev pub fill_cell : ℕ → ℕ → Heap → Heap
fill_cell p res hp = record hp {
  cells = λ j. if j == p then record (hp.cells j) { bdd = res } else hp.cells j;
  held = protect p hp.held;
}

-- What Sylvan finds at the protected pointers.
abbrev pub roots : Heap → ℕ → Option ℕ
roots hp p = if hp.held p == 0 then none else some (hp.cells p).bdd

-- The heap, the `ssa_tag` objects by number, each with its `ssa_ref`, and Sylvan's store.
pub record State (y : Sylvan) : Type 0 where
  pub heap : Heap
  pub vars : ℕ → Option ℕ
  pub bdds : y.Store

-- `cb_cache_l`, `cb_cache_r` and `cb_cache_v`.
abbrev pub cache_l : ℕ
cache_l = 0

abbrev pub cache_r : ℕ
cache_r = 1

abbrev pub cache_v : ℕ
cache_v = 2

abbrev pub set_ref : ℕ → Option ℕ → (ℕ → Option ℕ) → ℕ → Option ℕ
set_ref x r vars j = if j == x then r else vars j

abbrev pub null_ref : Option ℕ → Bool
null_ref none = true
null_ref (some p) = false

abbrev pub same_ref : Heap → Option ℕ → Option ℕ → Bool
same_ref hp none none = true
same_ref hp none (some b) = false
same_ref hp (some a) none = false
same_ref hp (some a) (some b) = a == b || (hp.cells a).bdd == (hp.cells b).bdd

abbrev pub bdd_at : Heap → Option ℕ → ℕ
bdd_at hp none = 0
bdd_at hp (some p) = (hp.cells p).bdd

module _ {y : Sylvan} where
  -- `ssa_tag(const ssa_tag &rhs)`.
  pub copy_ctor : ℕ → ℕ → State y → State y
  copy_ctor this rhs s = record s {
    heap = retain (s.vars rhs) s.heap;
    vars = set_ref this (s.vars rhs) s.vars;
  }

  -- `ssa_tag(ssa_tag &&rhs)`.
  pub move_ctor : ℕ → ℕ → State y → State y
  move_ctor this rhs s = record s { vars = set_ref rhs none (set_ref this (s.vars rhs) s.vars) }

  -- `~ssa_tag()`.
  pub destroy : ℕ → State y → State y
  destroy this s = record s { heap = release (s.vars this) s.heap; vars = set_ref this none s.vars }

  -- `operator=(const ssa_tag &rhs)`.
  pub copy_assign : ℕ → ℕ → State y → State y
  copy_assign this rhs s = record s {
    heap = release (s.vars this) (retain (s.vars rhs) s.heap);
    vars = set_ref this (s.vars rhs) s.vars;
  }

  -- `operator=(ssa_tag &&rhs)`.
  pub move_assign : ℕ → ℕ → State y → State y
  move_assign this rhs s = record s {
    heap = release (s.vars this) s.heap;
    vars = set_ref rhs none (set_ref this (s.vars rhs) s.vars);
  }

  -- `operator==`.
  pub same_tag : State y → ℕ → ℕ → Bool
  same_tag s x z = same_ref s.heap (s.vars x) (s.vars z)

  -- `cb_cache_l = l; cb_cache_r = r; cb_cache_v = v;`.
  pub fill_cache : ℕ → ℕ → ℕ → State y → State y
  unfolding copy_assign
  fill_cache l r v s = copy_assign cache_v v (copy_assign cache_r r (copy_assign cache_l l s))

  -- The new object `dst` gets the result.
  pub ssa_tag_alloc : ℕ → ℕ → State y → Option (State y)
  unfolding take_cell
  ssa_tag_alloc dst offset s = do
    (victim, hp) ← take_cell 2 s.heap
    let made = y.cube (offset_bits offset) (roots hp) s.bdds
    some (record {
      heap = fill_cell victim made.0 hp;
      vars = set_ref dst (some victim) s.vars;
      bdds = made.1;
    })

  -- A new cell for the result `res`.
  pub store_result : ℕ → ℕ → State y → Option (State y)
  unfolding take_cell
  store_result dst res s = do
    (victim, hp) ← take_cell 2 s.heap
    some (record s { heap = fill_cell victim res hp; vars = set_ref dst (some victim) s.vars })

  -- The part of `ssa_tag_combine` after Sylvan's answer.
  pub keep_result : ℕ → ℕ → ℕ → ℕ → State y → Option (State y)
  unfolding copy_ctor fill_cache store_result
  keep_result dst lhs rhs res s =
      if res == bdd_at s.heap (s.vars lhs)
      then some (copy_ctor dst lhs (fill_cache lhs rhs lhs s))
      else if res == bdd_at s.heap (s.vars rhs)
      then some (copy_ctor dst rhs (fill_cache lhs rhs rhs s))
      else (do s1 ← store_result dst res s; some (fill_cache lhs rhs dst s1))

  pub ssa_tag_combine : ℕ → ℕ → ℕ → State y → Option (State y)
  unfolding copy_ctor same_tag keep_result
  ssa_tag_combine dst lhs rhs s =
      let made =
        y.join (bdd_at s.heap (s.vars lhs)) (bdd_at s.heap (s.vars rhs)) (roots s.heap) s.bdds in
      if null_ref (s.vars lhs)
      then some (copy_ctor dst rhs s)
      else if null_ref (s.vars rhs) || same_tag s lhs rhs
      then some (copy_ctor dst lhs s)
      else if same_tag s cache_l lhs && same_tag s cache_r rhs
      then some (copy_ctor dst cache_v s)
      else keep_result dst lhs rhs made.0 (record s { bdds = made.1 })

  -- `ssa_thread_start` and `ssa_thread_fini`, as far as they touch the cache.
  pub thread_start : State y → State y
  thread_start s = record s {
    vars = set_ref cache_v none (set_ref cache_r none (set_ref cache_l none s.vars));
  }

  pub thread_fini : State y → State y
  unfolding destroy
  thread_fini s = destroy cache_v (destroy cache_r (destroy cache_l s))

-- `ssa_init`, with `blocks` blocks for `malloc`.
pub init : ℕ → Option Heap
unfolding add_ssa_blk
init blocks = add_ssa_blk (record {
  cells = λ _. record { ref_count = 0; bdd = 0 };
  blocks = 0;
  room = blocks;
  h = 0;
  t = 0;
  q = λ _. 0;
  held = λ _. 0;
})
