-- ===== src/Bdd/Holds.antt =====
-- The second loop of `BDDTag::combine` in src/bdd_tag.cpp.
use libdft64_ect.Prelude.{ℕ, ◌+◌, ◌≤◌, ◌<◌, ◌≡◌, refl, Bool, true, false, ◌||◌, arith, ◌==◌, ◌∙◌}
use libdft64_ect.Bdd.{Nodes, set_sign, keep_sign}
use libdft64_ect.Bdd.Inv.{Shape, end, last_one, IsNode, IsTrie, Extends, Extends-trans}
use libdft64_ect.Bdd.Returns.{One}
use libdft64_ect.Bdd.Labels.{IsLabel, has, has-step, has-Extends, IsLabel-Extends}

-- The vector and label that hold the offsets `member`, the last of which ends at `last_end`.
pub record Holds (ns : Nodes) (g : Shape) (member : ℕ → Bool) (last_end most : ℕ) (r : Nodes × ℕ)
    : Type 0 where
  pub shape : Shape
  pub trie : IsTrie r.0 shape
  pub extends : Extends ns g r.0 shape
  pub label : IsLabel r.0 shape r.1
  pub ends : end r.0 r.1 ≤ last_end
  pub offsets : (n : ℕ) → has r.0 r.1 n ≡ member n
  pub size_le : r.0.size ≤ most

module _ (ns : Nodes) (g : Shape) (lb : ℕ) (t : IsTrie ns g) where
  sign-IsNode : (i : ℕ) → i < ns.size → IsNode (set_sign ns lb) g i
  unfolding set_sign
  sign-IsNode i h = record {
    parent_lt = ground (arith, t.node i);
    parent_one = ground (arith, t.node i);
    parent_end = ground (arith, t.node i);
    one_end = ground (arith, t.node i);
    zero_end = ground (arith, t.node i);
    limit = ground (arith, t.node i);
    left_ok = ground (arith, t.node i);
    right_ok = ground (arith, t.node i);
  }

  sign-IsTrie : IsTrie (set_sign ns lb) g
  unfolding set_sign
  sign-IsTrie = record {
    has_root = omega (arith, t.has_root);
    small = omega (arith, t.small);
    root_one = t.root_one;
    root_end = ground (arith, t.root_end);
    root_begin = ground (arith, t.root_begin);
    root_parent = ground (arith, t.root_parent);
    node = sign-IsNode;
  }

  sign-Extends : Extends ns g (set_sign ns lb) g
  unfolding set_sign
  sign-Extends = record {
    size_le = omega arith;
    one_eq = λ i h. refl;
    parent_eq = λ i h. ground arith;
    end_eq = λ i h. ground arith;
    begin_eq = λ i h o. ground arith;
  }

module _ {ns : Nodes} {g : Shape} (member : ℕ → Bool) (last_end most : ℕ) where
  set_sign-Holds :
      {r : Nodes × ℕ}
      → Holds ns g member last_end most r
      → Holds ns g member last_end most (set_sign r.0 r.1, r.1)
  unfolding set_sign
  set_sign-Holds {r} h = record {
    shape = h.shape;
    trie = sign-IsTrie r.0 h.shape r.1 h.trie;
    extends = Extends-trans h.extends (sign-Extends r.0 h.shape r.1 h.trie);
    label = IsLabel-Extends r.1 (sign-Extends r.0 h.shape r.1 h.trie) h.label;
    ends = ground (arith, h.ends);
    offsets = λ n.
        has-Extends r.0 (set_sign r.0 r.1) h.shape h.shape h.trie
          (sign-IsTrie r.0 h.shape r.1 h.trie) (sign-Extends r.0 h.shape r.1 h.trie) r.1 n h.label
        ∙ h.offsets n;
    size_le = h.size_le;
  }

  pub keep_sign-Holds :
      (sign : Bool) {r : Nodes × ℕ}
      → Holds ns g member last_end most r
      → Holds ns g member last_end most (keep_sign sign r)
  unfolding keep_sign
  keep_sign-Holds true h = set_sign-Holds h
  keep_sign-Holds false h = h

  -- Another name for the offsets, and a larger bound.
  pub Holds-mono :
      (member' : ℕ → Bool) (most' : ℕ) {r : Nodes × ℕ}
      → ((n : ℕ) → member n ≡ member' n)
      → most ≤ most'
      → Holds ns g member last_end most r
      → Holds ns g member' last_end most' r
  Holds-mono member' most' same le h = record {
    shape = h.shape;
    trie = h.trie;
    extends = h.extends;
    label = h.label;
    ends = h.ends;
    offsets = λ n. h.offsets n ∙ same n;
    size_le = omega (arith, h.size_le);
  }

pub Holds-Extends :
    {ns ns1 : Nodes} {g g1 : Shape} (member : ℕ → Bool) (last_end most : ℕ) {r : Nodes × ℕ}
    → Extends ns g ns1 g1
    → Holds ns1 g1 member last_end most r
    → Holds ns g member last_end most r
Holds-Extends member last_end most x h = record {
  shape = h.shape;
  trie = h.trie;
  extends = Extends-trans x h.extends;
  label = h.label;
  ends = h.ends;
  offsets = h.offsets;
  size_le = h.size_le;
}

-- A one behind `cur`, where the last node of ones there is the label `l`.
pub One-Holds :
    (ns : Nodes) (g : Shape) (cur l : ℕ) {r : Nodes × ℕ}
    → IsTrie ns g
    → IsLabel ns g l
    → l ≡ last_one ns g cur
    → One ns g cur r
    → Holds ns g (λ n. (n == end ns cur) || has ns l n) (end ns cur + 1) (ns.size + 1) r
One-Holds ns g cur l {r} t b e o = record {
  shape = o.shape;
  trie = o.trie;
  extends = o.extends;
  label = lab;
  ends = ground (arith, o.trie.node r.1);
  offsets = λ n. ground (
    arith,
    has-step r.0 o.shape o.trie r.1 n lab o.positive,
    has-Extends ns r.0 g o.shape t o.trie o.extends l n b,
  );
  size_le = o.size_le;
}
  where
    lab : IsLabel r.0 o.shape r.1
    lab = record { inside = o.inside; ones = o.ones }
