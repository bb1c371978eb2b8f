-- ===== src/Bdd/Inv.antt =====
-- The well-formed node vectors of src/bdd_tag.cpp while labels are one offset wide, which they are
-- as long as `set_size` is not called.
use libdft64_ect.Prelude.{
  ℕ, ◌+◌, ◌≤◌, ◌<◌, ◌≡◌, refl, ◌≢◌, ◌∙◌, Bool, true, false, arith, if◌then◌else◌,
}
use libdft64_ect.Bdd.{Nodes, max_lb, root, init}

-- What the vector does not record: which nodes end a run of ones (the root counts as one), and the
-- node from which a node of zeros was first reached.
pub record Shape : Type 0 where
  pub one : ℕ → Bool
  pub up : ℕ → ℕ

abbrev pub begin : Nodes → ℕ → ℕ
begin ns i = (ns.at i).seg.begin

abbrev pub end : Nodes → ℕ → ℕ
end ns i = (ns.at i).seg.end

abbrev pub parent : Nodes → ℕ → ℕ
parent ns i = (ns.at i).parent

-- The last node of ones on the way from the root to `i`.
abbrev pub last_one : Nodes → Shape → ℕ → ℕ
last_one ns g i = if g.one i then i else parent ns i

pub record IsLeft (ns : Nodes) (g : Shape) (i l : ℕ) : Type 0 where
  pub positive : 0 < l
  pub inside : l < ns.size
  pub zeros : g.one l ≡ false
  pub last : parent ns l ≡ last_one ns g i
  pub starts : begin ns l ≡ end ns i
  pub above : g.up l ≡ i

pub record IsRight (ns : Nodes) (g : Shape) (i r : ℕ) : Type 0 where
  pub positive : 0 < r
  pub inside : r < ns.size
  pub ones : g.one r ≡ true
  pub last : parent ns r ≡ last_one ns g i
  pub starts : begin ns r ≡ end ns i

-- The segment of node `i`, and where its links lead.
pub record IsNode (ns : Nodes) (g : Shape) (i : ℕ) : Type 0 where
  pub parent_lt : 0 < i → parent ns i < i
  pub parent_one : g.one (parent ns i) ≡ true
  pub parent_end : end ns (parent ns i) ≤ (if g.one i then begin ns i else end ns i)
  pub one_end : g.one i ≡ true → 0 < i → end ns i ≡ begin ns i + 1
  pub zero_end : g.one i ≡ false → begin ns i < end ns i
  pub limit : end ns i ≤ max_lb
  pub left_ok : (ns.at i).left ≢ 0 → IsLeft ns g i (ns.at i).left
  pub right_ok : (ns.at i).right ≢ 0 → IsRight ns g i (ns.at i).right

pub record IsTrie (ns : Nodes) (g : Shape) : Type 0 where
  pub has_root : 0 < ns.size
  pub small : ns.size ≤ max_lb
  pub root_one : g.one root ≡ true
  pub root_end : end ns root ≡ 0
  pub root_begin : begin ns root ≡ 0
  pub root_parent : parent ns root ≡ root
  pub node : (i : ℕ) → i < ns.size → IsNode ns g i

-- What an operation may do to the nodes that are there: it keeps parents, ends and the segments of
-- ones.
pub record Extends (ns : Nodes) (g : Shape) (ns' : Nodes) (g' : Shape) : Type 0 where
  pub size_le : ns.size ≤ ns'.size
  pub one_eq : (i : ℕ) → i < ns.size → g'.one i ≡ g.one i
  pub parent_eq : (i : ℕ) → i < ns.size → parent ns' i ≡ parent ns i
  pub end_eq : (i : ℕ) → i < ns.size → end ns' i ≡ end ns i
  pub begin_eq : (i : ℕ) → i < ns.size → g.one i ≡ true → begin ns' i ≡ begin ns i

pub Extends-refl : (ns : Nodes) (g : Shape) → Extends ns g ns g
Extends-refl ns g = record {
  size_le = omega arith;
  one_eq = λ i h. refl;
  parent_eq = λ i h. refl;
  end_eq = λ i h. refl;
  begin_eq = λ i h o. refl;
}

pub Extends-trans :
    {ns1 ns2 ns3 : Nodes} {g1 g2 g3 : Shape}
    → Extends ns1 g1 ns2 g2
    → Extends ns2 g2 ns3 g3
    → Extends ns1 g1 ns3 g3
Extends-trans {ns2 = ns2} p q = record {
  size_le = omega arith;
  one_eq = λ i h. cc (q.one_eq i (omega arith), p.one_eq i h);
  parent_eq = λ i h. cc (q.parent_eq i (omega arith), p.parent_eq i h);
  end_eq = λ i h. cc (q.end_eq i (omega arith), p.end_eq i h);
  begin_eq = λ i h o. cc (q.begin_eq i (omega arith) (p.one_eq i h ∙ o), p.begin_eq i h o);
}

-- The shape of a new vector.
abbrev pub init_shape : Shape
init_shape = record { one = λ _. true; up = λ _. 0 }

-- The vector that the constructor makes is well formed.
pub init-IsTrie : IsTrie init init_shape
unfolding init
init-IsTrie = record {
  has_root = omega arith;
  small = omega arith;
  root_one = refl;
  root_end = refl;
  root_begin = refl;
  root_parent = refl;
  node = λ i h. record {
    parent_lt = λ p. p;
    parent_one = refl;
    parent_end = omega arith;
    one_end = λ o p. absurd (omega arith);
    zero_end = λ z. absurd (ground arith);
    limit = omega arith;
    left_ok = λ n. absurd (n refl);
    right_ok = λ n. absurd (n refl);
  };
}
