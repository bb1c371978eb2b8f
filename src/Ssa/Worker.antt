-- ===== src/Ssa/Worker.antt =====
-- What src/ssa_tag_gc.cpp uses of Sylvan: the worker's two tasks.
use libdft64_ect.Prelude.{ℕ, ◌≡◌, Bool, ◌||◌, Option, some, List, ◌==◌}
use libdft64_ect.Ssa.Offset.{bits_offset}

-- Each task is given what stands at the protected pointers; `Store` is Sylvan's state.
pub record Sylvan : Type 1 where
  pub Store : Type 0
  -- Task 1: the BDD of one assignment to the variables of `var_set`.
  pub cube : List Bool → (ℕ → Option ℕ) → Store → ℕ × Store
  -- Task 2: the disjunction of two BDDs.
  pub join : ℕ → ℕ → (ℕ → Option ℕ) → Store → ℕ × Store

-- The documented behaviour: a task gives the BDD it is asked for, and what stands at a protected
-- pointer keeps its meaning. `member st b n` holds if `n` is an offset of the BDD `b`.
pub record SylvanLaws (y : Sylvan) : Type 0 where
  pub member : y.Store → ℕ → ℕ → Bool
  pub cube_single :
      (bits : List Bool) (at : ℕ → Option ℕ) (st : y.Store) (n : ℕ)
      → let made = y.cube bits at st in member made.1 made.0 n ≡ n == bits_offset bits
  pub cube_keeps :
      (bits : List Bool) (at : ℕ → Option ℕ) (st : y.Store) (p b n : ℕ)
      → at p ≡ some b
      → member (y.cube bits at st).1 b n ≡ member st b n
  pub join_union :
      (a b : ℕ) (at : ℕ → Option ℕ) (st : y.Store) (p r n : ℕ)
      → at p ≡ some a
      → at r ≡ some b
      → let made = y.join a b at st in member made.1 made.0 n ≡ member st a n || member st b n
  pub join_keeps :
      (a b : ℕ) (at : ℕ → Option ℕ) (st : y.Store) (p c n : ℕ)
      → at p ≡ some c
      → member (y.join a b at st).1 c n ≡ member st c n
