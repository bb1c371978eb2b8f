-- ===== src/Bdd/Labels.antt =====
-- The offsets for which a label of src/bdd_tag.cpp stands: the segments of its node and of the
-- nodes that `parent` leads to.
use libdft64_ect.Prelude.{
  ℕ, zero, suc, ◌+◌, ◌≤◌, ◌<◌, ◌≡◌, refl, Bool, true, false, ◌&&◌, ◌||◌, List, [], ◌∷◌, arith, ltb,
  leb, ◌==◌, ◌⊎◌,
}
use libdft64_ect.Bdd.{Nodes, max_lb, root}
use libdft64_ect.Bdd.Inv.{Shape, begin, end, parent, IsTrie, Extends}

-- A label is the root, the empty tag, or a node of ones.
pub record IsLabel (ns : Nodes) (g : Shape) (lb : ℕ) : Type 0 where
  pub inside : lb < ns.size
  pub ones : g.one lb ≡ true

has_fuel : ℕ → Nodes → ℕ → ℕ → Bool
has_fuel zero ns lb n = false
has_fuel (suc f) ns lb n =
    ltb 0 lb && ((leb (begin ns lb) n && ltb n (end ns lb)) || has_fuel f ns (parent ns lb) n)

-- Parents have smaller labels, so the label is fuel enough.
pub has : Nodes → ℕ → ℕ → Bool
unfolding has_fuel
has ns lb n = has_fuel lb ns lb n

pub has-root : (ns : Nodes) (n : ℕ) → has ns root n ≡ false
unfolding has
has-root ns n = refl

module _ (ns : Nodes) (g : Shape) (t : IsTrie ns g) where
  has_fuel-eq :
      (f f' lb n : ℕ) → lb < ns.size → lb ≤ f → lb ≤ f' → has_fuel f ns lb n ≡ has_fuel f' ns lb n
  unfolding has_fuel
  has_fuel-eq zero zero lb n h p q = refl
  has_fuel-eq zero (suc f') lb n h p q = ground arith
  has_fuel-eq (suc f) zero lb n h p q = ground arith
  has_fuel-eq (suc f) (suc f') lb n h p q =
      ground (arith, t.node lb, has_fuel-eq f f' (parent ns lb) n)

  pub has-step :
      (lb n : ℕ)
      → IsLabel ns g lb
      → 0 < lb
      → has ns lb n ≡ (n == begin ns lb) || has ns (parent ns lb) n
  unfolding has
  has-step zero n l p = absurd (omega arith)
  has-step (suc lb) n l p =
      ground (arith, t.node (suc lb), has_fuel-eq lb (parent ns (suc lb)) (parent ns (suc lb)) n)

  pub IsLabel-parent : (lb : ℕ) → IsLabel ns g lb → IsLabel ns g (parent ns lb)
  IsLabel-parent zero l = record {
    inside = omega (arith, t.root_parent);
    ones = ground (arith, t.node 0);
  }
  IsLabel-parent (suc lb) l = record {
    inside = ground (arith, t.node (suc lb));
    ones = ground (arith, t.node (suc lb));
  }

  -- Along the parents the offsets fall.
  pub begin-parent :
      (lb : ℕ)
      → IsLabel ns g lb
      → 0 < lb
      → (parent ns lb ≡ 0) ⊎ (begin ns (parent ns lb) < begin ns lb)
  begin-parent lb l p = ground (arith, t.node lb, t.node (parent ns lb))

  pub begin-lt-max_lb : (lb : ℕ) → IsLabel ns g lb → begin ns lb < max_lb
  begin-lt-max_lb lb l = ground (arith, t.node lb)

module _ (ns ns' : Nodes) (g g' : Shape) (t : IsTrie ns g) (t' : IsTrie ns' g')
    (x : Extends ns g ns' g') where
  has_fuel-Extends : (f lb n : ℕ) → IsLabel ns g lb → has_fuel f ns' lb n ≡ has_fuel f ns lb n
  unfolding has_fuel
  has_fuel-Extends zero lb n l = refl
  has_fuel-Extends (suc f) lb n l = ground (
    arith,
    x.begin_eq lb,
    x.end_eq lb,
    x.parent_eq lb,
    has_fuel-Extends f (parent ns lb) n (IsLabel-parent ns g t lb l),
  )

  -- What the vector gains leaves the old labels as they were.
  pub has-Extends : (lb n : ℕ) → IsLabel ns g lb → has ns' lb n ≡ has ns lb n
  unfolding has
  has-Extends lb n l = has_fuel-Extends lb lb n l

pub IsLabel-Extends :
    {ns ns' : Nodes} {g g' : Shape} (lb : ℕ)
    → Extends ns g ns' g'
    → IsLabel ns g lb
    → IsLabel ns' g' lb
IsLabel-Extends lb x l = record {
  inside = omega (arith, x.size_le);
  ones = ground (arith, x.one_eq lb);
}

-- Labels with rising offsets, each at least `lo`.
abbrev pub IsStack : Nodes → Shape → ℕ → List ℕ → Type 0
IsStack ns g lo [] = Unit {0}
IsStack ns g lo (x ∷ xs) =
    IsLabel ns g x × (0 < x) × (lo ≤ begin ns x) × IsStack ns g (begin ns x + 1) xs

abbrev pub in_stack : Nodes → List ℕ → ℕ → Bool
in_stack ns [] n = false
in_stack ns (x ∷ xs) n = (n == begin ns x) || in_stack ns xs n

pub IsStack-mono :
    (ns : Nodes) (g : Shape) (lo lo' : ℕ) (st : List ℕ)
    → lo' ≤ lo
    → IsStack ns g lo st
    → IsStack ns g lo' st
IsStack-mono ns g lo lo' [] h s = tt
IsStack-mono ns g lo lo' (x ∷ xs) h s = (s.0, s.1, omega arith, s.3)

module _ (ns ns' : Nodes) (g g' : Shape) (x : Extends ns g ns' g') where
  pub IsStack-Extends : (lo : ℕ) (st : List ℕ) → IsStack ns g lo st → IsStack ns' g' lo st
  IsStack-Extends lo [] s = tt
  IsStack-Extends lo (l ∷ st) s =
      let same : begin ns' l ≡ begin ns l = x.begin_eq l s.0.inside s.0.ones in
      (IsLabel-Extends l x s.0, s.1, rw same s.2, rw same (IsStack-Extends (begin ns l + 1) st s.3))

  pub in_stack-Extends :
      (lo : ℕ) (st : List ℕ) (n : ℕ) → IsStack ns g lo st → in_stack ns' st n ≡ in_stack ns st n
  in_stack-Extends lo [] n s = refl
  in_stack-Extends lo (l ∷ st) n s =
      ground (arith, x.begin_eq l, in_stack-Extends (begin ns l + 1) st n s.3)
