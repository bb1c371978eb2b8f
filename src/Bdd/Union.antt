-- ===== src/Bdd/Union.antt =====
-- `BDDTag::combine` and `BDDTag::insert` of src/bdd_tag.cpp: unions and single offsets.
use libdft64_ect.Prelude.{
  ℕ, ◌+◌, ◌*◌, ◌%◌, ◌<◌, ◌≡◌, refl, ap, Bool, true, false, ◌||◌, some, arith, ltb, ◌==◌, ◌⊎◌, inl,
  inr, Bool-cases, ◌∙◌, sym, ◌>>=◌, if◌then◌else◌,
}
use libdft64_ect.Prelude.Bits.{bit_or-eq-add}
use Prim.Native.Nat.{bit_or}
use libdft64_ect.Bdd.{
  Nodes, max_lb, lb_range, len_lb, root, has_len_lb, combine_labels, combine, insert,
}
use libdft64_ect.Bdd.Inv.{Shape, end, last_one, IsTrie, Extends}
use libdft64_ect.Bdd.Returns
use libdft64_ect.Bdd.Returns.{Returns, returns, One, Zeros}
use libdft64_ect.Bdd.Insert.{insert_n_zeros-Returns, insert_n_ones-Returns}
use libdft64_ect.Bdd.Labels.{IsLabel, has, has-root, has-Extends, IsLabel-Extends}
use libdft64_ect.Bdd.Holds.{Holds, Holds-mono, Holds-Extends, One-Holds}
use libdft64_ect.Bdd.Collect.{base, collect-Split}
use libdft64_ect.Bdd.Rebuild.{rebuild-Returns}

abbrev pub union : Nodes → ℕ → ℕ → ℕ → Bool
union ns l1 l2 n = has ns l1 n || has ns l2 n

combine_labels-Returns :
    (ns : Nodes) (g : Shape) (l1 l2 : ℕ)
    → IsTrie ns g
    → IsLabel ns g l1
    → IsLabel ns g l2
    → Returns
        (Holds ns g (union ns l1 l2) max_lb (ns.size + 2 * (l1 + l2)))
        (ns.size + 2 * (l1 + l2))
        (combine_labels ns l1 l2)
unfolding combine_labels
combine_labels-Returns ns g l1 l2 t b1 b2 =
    let (c, e, s) = collect-Split ns g t l1 l2 b1 b2 in
    rw e (
      Returns.mono (omega (arith, s.few)) (rebuild-Returns c.lb_st ns g (base c) t s.label s.stack)
        λ r h.
          Holds-mono _ max_lb _ (union ns l1 l2) _ (λ n. s.same n ∙ ground arith)
            (omega (arith, s.few)) h)

-- A tag: a label with or without the flag `LEN_LB`.
abbrev pub label : ℕ → ℕ
label lb = lb % lb_range

pub record IsTag (ns : Nodes) (g : Shape) (lb : ℕ) : Type 0 where
  pub known : IsLabel ns g (label lb)
  pub flag : (lb ≡ label lb) ⊎ (lb ≡ label lb + len_lb)

-- What an operation gives back: a tag for the offsets `member`, in a vector that keeps the tags it had.
pub record IsTagOf (ns : Nodes) (g : Shape) (member : ℕ → Bool) (r : Nodes × ℕ) : Type 0 where
  pub shape : Shape
  pub trie : IsTrie r.0 shape
  pub tag : IsTag r.0 shape r.1
  pub offsets : (n : ℕ) → has r.0 (label r.1) n ≡ member n
  pub kept :
      (lb n : ℕ) → IsTag ns g lb → IsTag r.0 shape lb × (has r.0 (label lb) n ≡ has ns (label lb) n)

abbrev flagged : ℕ → Bool → ℕ
flagged cur flag = if flag then bit_or cur len_lb else cur

label-flagged :
    (cur : ℕ) (flag : Bool)
    → cur < max_lb
    → (label (flagged cur flag) ≡ cur)
      × ((flagged cur flag ≡ cur) ⊎ (flagged cur flag ≡ cur + len_lb))
label-flagged cur true h = rw (bit_or-eq-add 28 cur 15 (omega arith)) (omega arith, inr refl)
label-flagged cur false h = (omega arith, inl refl)

IsTag-Extends :
    {ns ns' : Nodes} {g g' : Shape} (lb : ℕ) → Extends ns g ns' g' → IsTag ns g lb → IsTag ns' g' lb
IsTag-Extends lb x b = record { known = IsLabel-Extends (label lb) x b.known; flag = b.flag }

-- A tag from its label.
Holds-IsTagOf :
    (ns : Nodes) (g : Shape) (member : ℕ → Bool) (last_end most lb : ℕ) {r : Nodes × ℕ}
    → IsTrie ns g
    → Holds ns g member last_end most r
    → (label lb ≡ r.1) × ((lb ≡ r.1) ⊎ (lb ≡ r.1 + len_lb))
    → IsTagOf ns g member (r.0, lb)
Holds-IsTagOf ns g member last_end most lb {r} t h (same, flag) = record {
  shape = h.shape;
  trie = h.trie;
  tag = record { known = rw same h.label; flag = rw same flag };
  offsets = λ n. rw same (h.offsets n);
  kept = λ l n b. (
    IsTag-Extends l h.extends b,
    has-Extends ns r.0 g h.shape t h.trie h.extends (label l) n b.known,
  );
}

-- A tag that the vector has.
old-IsTagOf :
    (ns : Nodes) (g : Shape) (member : ℕ → Bool) (lb : ℕ)
    → IsTrie ns g
    → IsTag ns g lb
    → ((n : ℕ) → has ns (label lb) n ≡ member n)
    → IsTagOf ns g member (ns, lb)
old-IsTagOf ns g member lb t b e = record {
  shape = g;
  trie = t;
  tag = b;
  offsets = e;
  kept = λ l n b'. (b', refl);
}

module _ (ns : Nodes) (g : Shape) (l1 l2 : ℕ) (t : IsTrie ns g) (b1 : IsTag ns g l1)
    (b2 : IsTag ns g l2) where
  abbrev IsUnion : Nodes × ℕ → Type 0
  IsUnion = IsTagOf ns g (union ns (label l1) (label l2))

  abbrev most_nodes : ℕ
  most_nodes = ns.size + 2 * (label l1 + label l2)

  -- Both loops at two labels, and the flag.
  loops-Returns :
      (flag : Bool) (m1 m2 : ℕ)
      → IsLabel ns g m1
      → IsLabel ns g m2
      → m1 + m2 ≡ label l1 + label l2
      → ((n : ℕ) → union ns m1 m2 n ≡ union ns (label l1) (label l2) n)
      → Returns IsUnion most_nodes (combine_labels ns m1 m2 >>= λ r. some (r.0, flagged r.1 flag))
  loops-Returns flag m1 m2 k1 k2 sum same =
      Returns.bind (omega arith) (combine_labels-Returns ns g m1 m2 t k1 k2) λ r h. returns (
        Holds-IsTagOf ns g (union ns (label l1) (label l2)) max_lb most_nodes (flagged r.1 flag) t
          (Holds-mono (union ns m1 m2) max_lb (ns.size + 2 * (m1 + m2))
            (union ns (label l1) (label l2)) most_nodes same (omega arith) h)
          (label-flagged r.1 flag (omega (arith, h.label.inside, h.trie.small))))

  -- The labels in ascending order.
  ordered-Returns :
      (flag : Bool)
      → Returns IsUnion most_nodes (
          combine_labels ns
            (if ltb (label l2) (label l1) then label l2 else label l1)
            (if ltb (label l2) (label l1) then label l1 else label l2)
          >>= λ r. some (r.0, flagged r.1 flag))
  ordered-Returns flag = elim (Bool-cases (ltb (label l2) (label l1))) [
    | inl swap ↦
        rw swap (
          loops-Returns flag (label l2) (label l1) b2.known b1.known (omega arith)
            λ n. ground arith)
    | inr keep ↦ rw keep (loops-Returns flag (label l1) (label l2) b1.known b2.known refl λ n. refl)
  ]

  has-zero : (l n : ℕ) → l ≡ 0 → has ns (label l) n ≡ false
  has-zero l n e = ap (λ k. has ns (label k) n) e ∙ has-root ns n

  -- The second early return.
  early-union :
      l2 == 0 || l1 == l2 ≡ true → (n : ℕ) → has ns (label l1) n ≡ union ns (label l1) (label l2) n
  early-union e n = elim (Bool-cases (l2 == 0)) [
    | inl z ↦ ground (arith, has-zero l2 n (ground arith))
    | inr nz ↦
        let same : l1 ≡ l2 = ground arith in
        let same_has : has ns (label l1) n ≡ has ns (label l2) n =
          ap (λ k. has ns (label k) n) same in
        ground arith
  ]

  -- `combine` of two tags of a well-formed vector returns a tag for exactly the offsets of either,
  -- in a well-formed vector in which every old tag is a tag of the same offsets. It faults only if
  -- the vector has, with two nodes for each parent that the loop may visit, no room.
  pub combine-IsUnion : Returns IsUnion most_nodes (combine ns l1 l2)
  unfolding combine
  combine-IsUnion = elim (Bool-cases (l1 == 0)) [
    | inl z ↦
        rw z
          (returns (old-IsTagOf ns g _ l2 t b2 λ n. ground (arith, has-zero l1 n (ground arith))))
    | inr nz ↦ rw nz (elim (Bool-cases (l2 == 0 || l1 == l2)) [
      | inl early ↦ rw early (returns (old-IsTagOf ns g _ l1 t b1 (early-union early)))
      | inr late ↦ rw late (ordered-Returns (has_len_lb l1 || has_len_lb l2))
    ])
  ]

root-IsLabel : (ns : Nodes) (g : Shape) → IsTrie ns g → IsLabel ns g root
root-IsLabel ns g t = record { inside = t.has_root; ones = t.root_one }

-- The empty tag.
pub root-IsTag : (ns : Nodes) (g : Shape) → IsTrie ns g → IsTag ns g root
root-IsTag ns g t = record { known = root-IsLabel ns g t; flag = inl refl }

module _ (ns : Nodes) (g : Shape) (pos : ℕ) (t : IsTrie ns g) (fits : pos < max_lb) where
  root_last : root ≡ last_one ns g root
  root_last = ground (arith, t.root_one)

  finish :
      (r : Nodes × ℕ) (z : Zeros ns g root pos r) (r' : Nodes × ℕ)
      → end r.0 r.1 ≡ pos
      → One r.0 z.shape r.1 r'
      → IsTagOf ns g (λ n. n == pos) r'
  finish r z r' at_pos o =
      Holds-IsTagOf ns g (λ n. n == pos) (end r.0 r.1 + 1) (r.0.size + 1) r'.1 t
        (Holds-mono _ (end r.0 r.1 + 1) (r.0.size + 1) (λ n. n == pos) (r.0.size + 1)
          (λ n. rw at_pos (ground (arith, has-root r.0 n))) (omega arith)
          (Holds-Extends _ (end r.0 r.1 + 1) (r.0.size + 1) z.extends (
            One-Holds r.0 z.shape r.1 root z.trie
              (IsLabel-Extends root z.extends (root-IsLabel ns g t)) (root_last ∙ sym z.last) o)))
        (omega (arith, o.inside, o.trie.small), inl refl)

  -- On a well-formed vector, `insert` of an offset below `MAX_LB` returns a tag for exactly that
  -- offset, in a well-formed vector in which every old tag is a tag of the same offsets. It faults
  -- only if the vector has no room for two more nodes.
  pub insert-single : Returns (IsTagOf ns g (λ n. n == pos)) (ns.size + 1) (insert ns pos)
  unfolding insert
  insert-single =
      Returns.bind (omega arith)
        (insert_n_zeros-Returns ns g root pos root t t.has_root root_last
          (omega (arith, t.root_end)))
        λ r z.
          let at_pos : end r.0 r.1 ≡ pos = omega (arith, z.ends, t.root_end) in
          Returns.mono (omega (arith, z.size_le))
            (insert_n_ones-Returns r.0 z.shape r.1 root z.trie z.inside (root_last ∙ sym z.last)
              (omega (arith, at_pos)))
            λ r' o. finish r z r' at_pos o
