-- ===== src/Bdd/Insert.antt =====
-- `alloc_node`, `insert_n_zeros` and `insert_n_ones` of src/bdd_tag.cpp keep the trie.
use libdft64_ect.Prelude.{
  ℕ, zero, suc, ◌+◌, ◌-◌, ◌≤◌, ◌<◌, ◌≡◌, refl, ◌≢◌, false, some, arith, ltb, ◌==◌, inl, inr,
  Bool-cases, ◌%◌, ◌^◌, none, Option, ◌>>=◌,
}
use libdft64_ect.Bdd.{
  Nodes, max_lb, get_seg_size, alloc_node, zeros_loop, insert_n_zeros, ones_loop, insert_n_ones,
  set_begin, sub32,
}
use libdft64_ect.Bdd.Inv.{Shape, end, last_one, IsTrie, Extends-refl, Extends-trans}
use libdft64_ect.Bdd.Grow.{
  grown, with_left, with_right, new_zeros, new_ones, CanGrow, left-IsTrie, left-Extends,
  right-IsTrie, right-Extends, trim-IsTrie, trim-Extends,
}
use libdft64_ect.Bdd.Returns
use libdft64_ect.Bdd.Returns.{Returns, returns, full, Zeros, One}

pub alloc_node-some :
    (ns : Nodes) (p b e : ℕ)
    → ns.size < max_lb
    → alloc_node ns p b e ≡ some (grown ns p b e, ns.size)
unfolding alloc_node
alloc_node-some ns p b e h = ground arith

alloc_node-none : (ns : Nodes) (p b e : ℕ) → ns.size ≡ max_lb → alloc_node ns p b e ≡ none
unfolding alloc_node
alloc_node-none ns p b e h = ground arith

-- An allocation, and what is done with the new node.
alloc_node-Returns :
    {P : Nodes × ℕ → Type 0} (ns : Nodes) (p b e : ℕ) (k : Nodes × ℕ → Option (Nodes × ℕ))
    → ns.size ≤ max_lb
    → (ns.size < max_lb → Returns P ns.size (k (grown ns p b e, ns.size)))
    → Returns P ns.size (alloc_node ns p b e >>= k)
alloc_node-Returns ns p b e k small next = elim (Bool-cases (ltb ns.size max_lb)) [
  | inl room ↦ rw (alloc_node-some ns p b e (ground arith)) (next (ground arith))
  | inr no_room ↦ rw (alloc_node-none ns p b e (ground arith)) (full (ground arith))
]

new_left-Zeros :
    (ns : Nodes) (g : Shape) (p cur num : ℕ)
    → p ≡ last_one ns g cur
    → CanGrow ns g cur num
    → Zeros ns g cur num (with_left ns p cur num, ns.size)
new_left-Zeros ns g p cur num e can = record {
  shape = new_zeros ns g cur;
  trie = left-IsTrie ns g p cur num e can;
  extends = left-Extends ns g p cur num e can;
  inside = omega arith;
  last = ground (arith, can.inside, can.trie.node cur);
  ends = ground (arith, can.inside);
  size_le = omega arith;
}

split_left-Zeros :
    (ns : Nodes) (g : Shape) (p cur num : ℕ)
    → p ≡ last_one ns g cur
    → CanGrow ns g cur num
    → (ns.at cur).left ≢ 0
    → end ns cur + num < end ns (ns.at cur).left
    → Zeros ns g cur num
        (set_begin (with_left ns p cur num) (ns.at cur).left (end ns cur + num), ns.size)
split_left-Zeros ns g p cur num e can ne short = record {
  shape = new_zeros ns g cur;
  trie = trim-IsTrie _ _ (ns.at cur).left (end ns cur + num) trie zeros below orphan;
  extends =
      Extends-trans (left-Extends ns g p cur num e can)
        (trim-Extends _ _ (ns.at cur).left (end ns cur + num) trie zeros below orphan);
  inside = omega arith;
  last = ground (arith, can.inside, can.trie.node cur);
  ends = ground (arith, can.inside);
  size_le = omega arith;
}
  where
    trie : IsTrie (with_left ns p cur num) (new_zeros ns g cur)
    trie = left-IsTrie ns g p cur num e can

    zeros : (new_zeros ns g cur).one (ns.at cur).left ≡ false
    zeros = ground (arith, can.inside, can.trie.node cur)

    below : end ns cur + num < end (with_left ns p cur num) (ns.at cur).left
    below = ground (arith, can.inside, can.trie.node cur)

    orphan : (i : ℕ) → i < ns.size + 1 → ((with_left ns p cur num).at i).left ≢ (ns.at cur).left
    orphan i h = ground (arith, can.inside, can.trie.node cur, can.trie.node i)

module _ (ns : Nodes) (g : Shape) (cur num : ℕ) (t : IsTrie ns g) (inside : cur < ns.size) where
  same-Zeros : num ≡ 0 → Zeros ns g cur num (ns, cur)
  same-Zeros e = record {
    shape = g;
    trie = t;
    extends = Extends-refl ns g;
    inside = inside;
    last = refl;
    ends = omega arith;
    size_le = omega arith;
  }

  -- The walk goes on from the left child.
  step-Zeros :
      {r : Nodes × ℕ}
      → (ns.at cur).left ≢ 0
      → get_seg_size (ns.at (ns.at cur).left) ≤ num
      → Zeros ns g (ns.at cur).left (num - get_seg_size (ns.at (ns.at cur).left)) r
      → Zeros ns g cur num r
  step-Zeros ne le z = record {
    shape = z.shape;
    trie = z.trie;
    extends = z.extends;
    inside = z.inside;
    last = ground (arith, t.node cur);
    ends = ground (arith, t.node cur, t.node (ns.at cur).left);
    size_le = z.size_le;
  }

-- Below the limit the sum of `tag_off` does not wrap.
no_wrap : (a b : ℕ) → a + b ≤ max_lb → (a + b) % 2 ^ 32 ≡ a + b
no_wrap a b h = omega arith

zeros_loop-Returns :
    (fuel : ℕ) (ns : Nodes) (g : Shape) (cur num last : ℕ)
    → IsTrie ns g
    → cur < ns.size
    → last ≡ last_one ns g cur
    → end ns cur + num ≤ max_lb
    → num ≤ fuel
    → Returns (Zeros ns g cur num) ns.size (zeros_loop fuel ns cur num last)
unfolding zeros_loop
zeros_loop-Returns zero ns g cur num last t inside e fits enough =
    rw (let z : num ≡ 0 = omega arith in z) (returns (same-Zeros ns g cur 0 t inside refl))
zeros_loop-Returns (suc fuel) ns g cur num last t inside e fits enough =
    elim (Bool-cases (num == 0)) [
      | inl done ↦ rw done (returns (same-Zeros ns g cur num t inside (ground arith)))
      | inr more ↦
          rw (more, no_wrap (end ns cur) num fits)
            (elim (Bool-cases ((ns.at cur).left == 0)) [
              | inl leaf ↦ rw leaf (
                  alloc_node-Returns ns last (end ns cur) _ _ t.small
                    λ room. returns (new_left-Zeros ns g last cur num e (can room (ground arith))))
              | inr inner ↦
                  rw inner (elim (Bool-cases (ltb num (get_seg_size (ns.at (ns.at cur).left)))) [
                    | inl long ↦ rw long (
                        alloc_node-Returns ns last (end ns cur) _ _ t.small λ room. returns (
                          split_left-Zeros ns g last cur num e (can room (ground arith))
                            (ground arith) (ground (arith, t.node cur, t.node (ns.at cur).left))))
                    | inr short ↦ rw short (
                        Returns.mono (omega arith)
                          (zeros_loop-Returns fuel ns g (ns.at cur).left
                            (num - get_seg_size (ns.at (ns.at cur).left)) last t
                            (ground (arith, t.node cur)) (ground (arith, t.node cur))
                            (ground (arith, t.node cur, t.node (ns.at cur).left))
                            (ground (arith, t.node cur, t.node (ns.at cur).left)))
                          λ r z. step-Zeros ns g cur num t inside (ground arith) (ground arith) z)
                  ])
            ])
    ]
  where
    can : ns.size < max_lb → 0 < num → CanGrow ns g cur num
    can room pos = record { trie = t; inside = inside; room = room; pos = pos; fits = fits }

pub insert_n_zeros-Returns :
    (ns : Nodes) (g : Shape) (cur num last : ℕ)
    → IsTrie ns g
    → cur < ns.size
    → last ≡ last_one ns g cur
    → end ns cur + num ≤ max_lb
    → Returns (Zeros ns g cur num) ns.size (insert_n_zeros ns cur num last)
unfolding insert_n_zeros
insert_n_zeros-Returns ns g cur num last t inside e fits =
    zeros_loop-Returns num ns g cur num last t inside e fits (omega arith)

new_right-One :
    (ns : Nodes) (g : Shape) (p cur : ℕ)
    → p ≡ last_one ns g cur
    → CanGrow ns g cur 1
    → One ns g cur (with_right ns p cur, ns.size)
new_right-One ns g p cur e can = record {
  shape = new_ones ns g;
  trie = right-IsTrie ns g p cur 1 e can refl;
  extends = right-Extends ns g p cur 1 e can;
  inside = omega arith;
  positive = omega arith;
  ones = ground arith;
  last = ground (arith, can.inside);
  starts = ground (arith, can.inside);
  size_le = omega arith;
}

-- The child of ones that is there.
old_right-One :
    (ns : Nodes) (g : Shape) (cur : ℕ)
    → IsTrie ns g
    → cur < ns.size
    → (ns.at cur).right ≢ 0
    → One ns g cur (ns, (ns.at cur).right)
old_right-One ns g cur t inside ne = record {
  shape = g;
  trie = t;
  extends = Extends-refl ns g;
  inside = ground (arith, t.node cur);
  positive = ground (arith, t.node cur);
  ones = ground (arith, t.node cur);
  last = ground (arith, t.node cur);
  starts = ground (arith, t.node cur);
  size_le = omega arith;
}

pub insert_n_ones-Returns :
    (ns : Nodes) (g : Shape) (cur last : ℕ)
    → IsTrie ns g
    → cur < ns.size
    → last ≡ last_one ns g cur
    → end ns cur + 1 ≤ max_lb
    → Returns (One ns g cur) ns.size (insert_n_ones ns cur 1 last)
unfolding insert_n_ones ones_loop
insert_n_ones-Returns ns g cur last t inside e fits =
    rw (no_wrap (end ns cur) 1 fits) (elim (Bool-cases ((ns.at cur).right == 0)) [
      | inl leaf ↦ rw leaf (
          alloc_node-Returns ns last (end ns cur) _ _ t.small
            λ room. returns (new_right-One ns g last cur e (can room)))
      | inr inner ↦
          rw (inner, size_one (ground arith))
            (returns (old_right-One ns g cur t inside (ground arith)))
    ])
  where
    can : ns.size < max_lb → CanGrow ns g cur 1
    can room = record { trie = t; inside = inside; room = room; pos = omega arith; fits = fits }

    size_one : (ns.at cur).right ≢ 0 → sub32 (end ns (ns.at cur).right) (end ns cur) ≡ 1
    size_one ne = ground (arith, t.node cur, t.node (ns.at cur).right)
