-- ===== src/Bdd/Returns.antt =====
-- The outcome of an operation of src/bdd_tag.cpp: a result, or the fault of a full vector.
use libdft64_ect.Prelude.{ℕ, ◌+◌, ◌≤◌, ◌<◌, ◌≡◌, refl, true, Option, none, some, arith, ◌>>=◌}
use libdft64_ect.Bdd.{Nodes, max_lb}
use libdft64_ect.Bdd.Inv.{Shape, begin, end, parent, last_one, IsTrie, Extends}

-- A result has `P`; a fault needs at least `max_lb` nodes, where the operation needs `need` at most.
pub data Returns {A : Type 0} (P : A → Type 0) (need : ℕ) : Option A → Type 0 where
  returns : {a : A} → P a → Returns P need (some a)
  full : max_lb ≤ need → Returns P need none

module _ {A : Type 0} {P : A → Type 0} {need : ℕ} where
  pub bind :
      {B : Type 0} {Q : B → Type 0} {most : ℕ} {o : Option A} {k : A → Option B}
      → need ≤ most
      → Returns P need o
      → ((a : A) → P a → Returns Q most (k a))
      → Returns Q most (o >>= k)
  bind le (returns p) next = next _ p
  bind le (full h) next = full (omega arith)

  pub mono :
      {Q : A → Type 0} {most : ℕ} {o : Option A}
      → need ≤ most
      → Returns P need o
      → ((a : A) → P a → Q a)
      → Returns Q most o
  mono le (returns p) weaken = returns (weaken _ p)
  mono le (full h) weaken = full (omega arith)

  -- What the caller of an operation has.
  pub result : {o : Option A} {a : A} → Returns P need o → o ≡ some a → P a
  result {a} (returns {a = b} p) e = let same : b ≡ a = cc in rw (← same) p
  result (full h) e = absurd (ground arith)

  pub total : {o : Option A} → Returns P need o → need < max_lb → (a : A) × (o ≡ some a)
  total (returns {a} p) room = (a, refl)
  total (full h) room = absurd (omega arith)

-- The node for `num` more zeros behind `cur`.
pub record Zeros (ns : Nodes) (g : Shape) (cur num : ℕ) (r : Nodes × ℕ) : Type 0 where
  pub shape : Shape
  pub trie : IsTrie r.0 shape
  pub extends : Extends ns g r.0 shape
  pub inside : r.1 < r.0.size
  pub last : last_one r.0 shape r.1 ≡ last_one ns g cur
  pub ends : end r.0 r.1 ≡ end ns cur + num
  pub size_le : r.0.size ≤ ns.size + 1

-- The node for a one behind `cur`.
pub record One (ns : Nodes) (g : Shape) (cur : ℕ) (r : Nodes × ℕ) : Type 0 where
  pub shape : Shape
  pub trie : IsTrie r.0 shape
  pub extends : Extends ns g r.0 shape
  pub inside : r.1 < r.0.size
  pub positive : 0 < r.1
  pub ones : shape.one r.1 ≡ true
  pub last : parent r.0 r.1 ≡ last_one ns g cur
  pub starts : begin r.0 r.1 ≡ end ns cur
  pub size_le : r.0.size ≤ ns.size + 1
