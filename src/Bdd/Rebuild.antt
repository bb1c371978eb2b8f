-- ===== src/Bdd/Rebuild.antt =====
-- The second loop of `BDDTag::combine` in src/bdd_tag.cpp.
use libdft64_ect.Prelude.{
  ℕ, ◌+◌, ◌-◌, ◌*◌, ◌≤◌, ◌<◌, ◌≡◌, Bool, ◌||◌, List, [], ◌∷◌, arith, ltb, leb, ◌==◌, inl, inr,
  length, Bool-cases, ◌∙◌, sym, ◌>>=◌,
}
use libdft64_ect.Bdd.{
  Nodes, max_lb, insert_n_zeros, insert_n_ones, sub32, place, rebuild_step, rebuild,
}
use libdft64_ect.Bdd.Inv.{Shape, begin, end, last_one, IsTrie, Extends, Extends-refl, Extends-trans}
use libdft64_ect.Bdd.Returns
use libdft64_ect.Bdd.Returns.{Returns, returns, One, Zeros}
use libdft64_ect.Bdd.Insert.{insert_n_zeros-Returns, insert_n_ones-Returns}
use libdft64_ect.Bdd.Labels.{
  IsLabel, has, has-step, has-Extends, IsLabel-Extends, IsStack, in_stack, IsStack-mono,
  IsStack-Extends, in_stack-Extends,
}
use libdft64_ect.Bdd.Holds.{Holds, keep_sign-Holds, One-Holds}

-- The offsets of `cur` and the one of `x`.
abbrev with_offset : Nodes → ℕ → ℕ → ℕ → Bool
with_offset ns cur x n = (n == begin ns x) || has ns cur n

module _ (ns : Nodes) (g : Shape) (cur x : ℕ) (t : IsTrie ns g) (c : IsLabel ns g cur)
    (b : IsLabel ns g x) (pos : 0 < x) (near : end ns cur - 1 ≤ begin ns x) where
  abbrev Held : Nodes × ℕ → Type 0
  Held = Holds ns g (with_offset ns cur x) (begin ns x + 1) (ns.size + 2)

  end-x : (end ns x ≡ begin ns x + 1) × (end ns x ≤ max_lb)
  end-x = ground (arith, t.node x)

  last-cur : cur ≡ last_one ns g cur
  last-cur = ground (arith, c.ones)

  -- A one for `x` behind the node `mid`, which lies where `x` begins.
  One-Held :
      {ns1 : Nodes} {g1 : Shape} (mid : ℕ) {r : Nodes × ℕ}
      → IsTrie ns1 g1
      → Extends ns g ns1 g1
      → ns1.size ≤ ns.size + 1
      → end ns1 mid ≡ begin ns x
      → cur ≡ last_one ns1 g1 mid
      → One ns1 g1 mid r
      → Held r
  One-Held {ns1} {g1} mid {r} t1 x1 le e l o = record {
    shape = h.shape;
    trie = h.trie;
    extends = Extends-trans x1 h.extends;
    label = h.label;
    ends = omega (arith, h.ends);
    offsets = λ n. h.offsets n ∙ ground (arith, has-Extends ns ns1 g g1 t t1 x1 cur n c);
    size_le = omega (arith, h.size_le);
  }
    where
      h : Holds ns1 g1 (λ n. (n == end ns1 mid) || has ns1 cur n) (end ns1 mid + 1) (ns1.size + 1) r
      h = One-Holds ns1 g1 mid cur t1 (IsLabel-Extends cur x1 c) l o

  -- The segment of `x` follows that of `cur`.
  touching : begin ns x ≡ end ns cur → Returns Held ns.size (insert_n_ones ns cur 1 cur)
  touching e =
      Returns.mono (omega arith)
        (insert_n_ones-Returns ns g cur cur t c.inside last-cur (omega (arith, end-x)))
        λ r o. One-Held cur t (Extends-refl ns g) (omega arith) (sym e) last-cur o

  -- It is that of `cur`.
  covered : end ns cur ≡ begin ns x + 1 → Held (ns, cur)
  covered e = record {
    shape = g;
    trie = t;
    extends = Extends-refl ns g;
    label = c;
    ends = omega arith;
    offsets = λ n. ground (arith, t.root_end, t.node cur, has-step ns g t cur n c);
    size_le = omega arith;
  }

  -- It starts after a gap.
  apart :
      end ns cur < begin ns x
      → Returns Held
          (ns.size + 1)
          (insert_n_zeros ns cur (begin ns x - end ns cur) cur >>= λ r. insert_n_ones r.0 r.1 1 cur)
  apart h =
      Returns.bind (omega arith)
        (insert_n_zeros-Returns ns g cur (begin ns x - end ns cur) cur t c.inside last-cur
          (omega (arith, end-x)))
        λ r z.
          Returns.mono (omega (arith, z.size_le))
            (insert_n_ones-Returns r.0 z.shape r.1 cur z.trie z.inside (last-cur ∙ sym z.last)
              (omega (arith, end-x, z.ends)))
            λ r' o.
              One-Held r.1 z.trie z.extends z.size_le (omega (arith, z.ends))
                (last-cur ∙ sym z.last) o

  sub32-gap : end ns cur < begin ns x → sub32 (begin ns x) (end ns cur) ≡ begin ns x - end ns cur
  sub32-gap h = omega (arith, end-x)

  sub32-end : begin ns x ≡ end ns cur → sub32 (end ns x) (end ns cur) ≡ 1
  sub32-end e = omega (arith, end-x)

  sub32-one : sub32 (end ns x) (begin ns x) ≡ 1
  sub32-one = omega (arith, end-x)

  place-Returns : Returns Held (ns.size + 1) (place ns cur (ns.at cur).seg (ns.at x).seg)
  unfolding place
  place-Returns = elim (Bool-cases (leb (begin ns x) (end ns cur))) [
    | inr gap ↦ rw (gap, sub32-gap (ground arith), sub32-one) (apart (ground arith))
    | inl near_by ↦ rw near_by (elim (Bool-cases (ltb (end ns cur) (end ns x))) [
      | inl more ↦
          rw (more, sub32-end (ground (arith, end-x)))
            (Returns.mono (omega arith) (touching (ground (arith, end-x))) λ r h. h)
      | inr none_left ↦ rw none_left (returns (covered (ground (arith, end-x))))
    ])
  ]

  pub rebuild_step-Returns : Returns Held (ns.size + 1) (rebuild_step ns cur x)
  unfolding rebuild_step
  rebuild_step-Returns = Returns.bind (omega arith) place-Returns λ r h.
      returns
        (keep_sign-Holds (with_offset ns cur x) (begin ns x + 1) (ns.size + 2) (ns.at x).seg.sign h)

-- The offsets of the stack and of `cur`.
abbrev pub stacked : Nodes → ℕ → List ℕ → ℕ → Bool
stacked ns cur st n = has ns cur n || in_stack ns st n

pub rebuild-Returns :
    (st : List ℕ) (ns : Nodes) (g : Shape) (cur : ℕ)
    → IsTrie ns g
    → IsLabel ns g cur
    → IsStack ns g (end ns cur - 1) st
    → Returns
        (Holds ns g (stacked ns cur st) max_lb (ns.size + 2 * length st))
        (ns.size + 2 * length st)
        (rebuild ns cur st)
unfolding rebuild
rebuild-Returns [] ns g cur t c s = returns (record {
  shape = g;
  trie = t;
  extends = Extends-refl ns g;
  label = c;
  ends = ground (arith, t.node cur, c.inside);
  offsets = λ n. ground arith;
  size_le = omega arith;
})
rebuild-Returns (x ∷ st) ns g cur t c s =
    Returns.bind (omega arith) (rebuild_step-Returns ns g cur x t c s.0 s.1 s.2) λ r h.
      Returns.mono (omega (arith, h.size_le))
        (rebuild-Returns st r.0 h.shape r.1 h.trie h.label (
          IsStack-mono r.0 h.shape (begin ns x + 1) (end r.0 r.1 - 1) st (omega (arith, h.ends))
            (IsStack-Extends ns r.0 g h.shape h.extends (begin ns x + 1) st s.3)))
        λ r' h'. record {
          shape = h'.shape;
          trie = h'.trie;
          extends = Extends-trans h.extends h'.extends;
          label = h'.label;
          ends = h'.ends;
          offsets = λ n.
              h'.offsets n
              ∙ ground (
                arith,
                h.offsets n,
                in_stack-Extends ns r.0 g h.shape h.extends (begin ns x + 1) st n s.3,
              );
          size_le = omega (arith, h.size_le, h'.size_le);
        }
