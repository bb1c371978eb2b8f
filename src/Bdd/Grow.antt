-- ===== src/Bdd/Grow.antt =====
-- The three ways in which src/bdd_tag.cpp adds a node.
use libdft64_ect.Prelude.{ℕ, ◌+◌, ◌≤◌, ◌<◌, ◌≡◌, ◌≢◌, true, false, arith, if◌then◌else◌, ◌==◌}
use libdft64_ect.Bdd.{Nodes, max_lb, new_node, put, set_left, set_right, set_begin}
use libdft64_ect.Bdd.Inv.{Shape, end, last_one, IsNode, IsTrie, Extends}

abbrev pub grown : Nodes → ℕ → ℕ → ℕ → Nodes
grown ns p b e = record (put ns ns.size (new_node p b e)) { size = ns.size + 1 }

-- A new node of zeros below `cur`.
abbrev pub with_left : Nodes → ℕ → ℕ → ℕ → Nodes
with_left ns p cur num = set_left (grown ns p (end ns cur) (end ns cur + num)) cur ns.size

abbrev pub with_right : Nodes → ℕ → ℕ → Nodes
with_right ns p cur = set_right (grown ns p (end ns cur) (end ns cur + 1)) cur ns.size

abbrev pub new_zeros : Nodes → Shape → ℕ → Shape
new_zeros ns g cur = record {
  one = λ j. if j == ns.size then false else g.one j;
  up = λ j. if j == ns.size then cur else g.up j;
}

abbrev pub new_ones : Nodes → Shape → Shape
new_ones ns g = record g { one = λ j. if j == ns.size then true else g.one j }

pub record CanGrow (ns : Nodes) (g : Shape) (cur num : ℕ) : Type 0 where
  pub trie : IsTrie ns g
  pub inside : cur < ns.size
  pub room : ns.size < max_lb
  pub pos : 0 < num
  pub fits : end ns cur + num ≤ max_lb

module _ (ns : Nodes) (g : Shape) (p cur num : ℕ) (e : p ≡ last_one ns g cur)
    (can : CanGrow ns g cur num) where
  open can use {trie, inside, room, pos, fits}

  left-IsNode : (i : ℕ) → i < ns.size + 1 → IsNode (with_left ns p cur num) (new_zeros ns g cur) i
  left-IsNode i h = record {
    parent_lt = ground (arith, trie.node i, trie.node cur);
    parent_one = ground (arith, trie.node i, trie.node cur);
    parent_end = ground (arith, trie.node i, trie.node cur);
    one_end = ground (arith, trie.node i);
    zero_end = ground (arith, trie.node i);
    limit = ground (arith, trie.node i);
    left_ok = ground (arith, trie.node i, trie.node cur);
    right_ok = ground (arith, trie.node i, trie.node cur);
  }

  pub left-IsTrie : IsTrie (with_left ns p cur num) (new_zeros ns g cur)
  left-IsTrie = record {
    has_root = omega arith;
    small = omega arith;
    root_one = ground arith;
    root_end = ground arith;
    root_begin = ground arith;
    root_parent = ground arith;
    node = left-IsNode;
  }

  pub left-Extends : Extends ns g (with_left ns p cur num) (new_zeros ns g cur)
  left-Extends = record {
    size_le = omega arith;
    one_eq = λ i h. ground arith;
    parent_eq = λ i h. ground arith;
    end_eq = λ i h. ground arith;
    begin_eq = λ i h o. ground arith;
  }

  right-IsNode :
      num ≡ 1 → (i : ℕ) → i < ns.size + 1 → IsNode (with_right ns p cur) (new_ones ns g) i
  right-IsNode one i h = record {
    parent_lt = ground (arith, trie.node i, trie.node cur);
    parent_one = ground (arith, trie.node i, trie.node cur);
    parent_end = ground (arith, trie.node i, trie.node cur);
    one_end = ground (arith, trie.node i);
    zero_end = ground (arith, trie.node i);
    limit = ground (arith, trie.node i);
    left_ok = ground (arith, trie.node i, trie.node cur);
    right_ok = ground (arith, trie.node i, trie.node cur);
  }

  pub right-IsTrie : num ≡ 1 → IsTrie (with_right ns p cur) (new_ones ns g)
  right-IsTrie one = record {
    has_root = omega arith;
    small = omega arith;
    root_one = ground arith;
    root_end = ground arith;
    root_begin = ground arith;
    root_parent = ground arith;
    node = right-IsNode one;
  }

  pub right-Extends : Extends ns g (with_right ns p cur) (new_ones ns g)
  right-Extends = record {
    size_le = omega arith;
    one_eq = λ i h. ground arith;
    parent_eq = λ i h. ground arith;
    end_eq = λ i h. ground arith;
    begin_eq = λ i h o. ground arith;
  }

-- A node of zeros to which no node leads by `left` may lose some of its zeros.
module _ (ns : Nodes) (g : Shape) (z v : ℕ) (t : IsTrie ns g) (zeros : g.one z ≡ false)
    (short : v < end ns z) (orphan : (i : ℕ) → i < ns.size → (ns.at i).left ≢ z) where
  trim-IsNode : (i : ℕ) → i < ns.size → IsNode (set_begin ns z v) g i
  trim-IsNode i h = record {
    parent_lt = ground (arith, t.node i);
    parent_one = ground (arith, t.node i);
    parent_end = ground (arith, t.node i);
    one_end = ground (arith, t.node i);
    zero_end = ground (arith, t.node i);
    limit = ground (arith, t.node i);
    left_ok = ground (arith, t.node i, orphan i);
    right_ok = ground (arith, t.node i);
  }

  pub trim-IsTrie : IsTrie (set_begin ns z v) g
  trim-IsTrie = record {
    has_root = omega arith;
    small = omega arith;
    root_one = ground arith;
    root_end = ground arith;
    root_begin = ground arith;
    root_parent = ground arith;
    node = trim-IsNode;
  }

  pub trim-Extends : Extends ns g (set_begin ns z v) g
  trim-Extends = record {
    size_le = omega arith;
    one_eq = λ i h. ground arith;
    parent_eq = λ i h. ground arith;
    end_eq = λ i h. ground arith;
    begin_eq = λ i h o. ground arith;
  }
