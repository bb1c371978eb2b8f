-- ===== src/Bdd/Collect.antt =====
-- The first loop of `BDDTag::combine` in src/bdd_tag.cpp.
use libdft64_ect.Prelude.{
  ℕ, zero, suc, ◌+◌, ◌-◌, ◌≤◌, ◌<◌, ◌≡◌, refl, Bool, true, false, ◌&&◌, ◌||◌, List, [], ◌∷◌, some,
  arith, ltb, ◌==◌, ap, ◌∙◌, ◌⊎◌, inl, inr, length, if◌then◌else◌, Bool-cases,
}
use libdft64_ect.Bdd.{Nodes, max_lb, Collected, collect_loop}
use libdft64_ect.Bdd.Inv.{Shape, begin, end, parent, IsTrie}
use libdft64_ect.Bdd.Labels.{
  IsLabel, has, has-root, has-step, IsLabel-parent, begin-parent, begin-lt-max_lb, IsStack,
  in_stack, IsStack-mono,
}

-- The label that the second loop starts from.
abbrev pub base : Collected → ℕ
base c = if ltb 0 c.l1 then c.l1 else c.l2

-- A state of the loop: the stack rises from `last_begin`, which is the offset on its top.
record IsState (ns : Nodes) (g : Shape) (l1 l2 : ℕ) (st : List ℕ) (last : ℕ) : Type 0 where
  label1 : IsLabel ns g l1
  label2 : IsLabel ns g l2
  le1 : begin ns l1 ≤ last
  le2 : begin ns l2 ≤ last
  stack : IsStack ns g last st
  top : (last ≡ max_lb) ⊎ (in_stack ns st last ≡ true)

-- The offsets of both labels and of the stack.
abbrev offsets : Nodes → ℕ → ℕ → List ℕ → ℕ → Bool
offsets ns l1 l2 st n = (has ns l1 n || has ns l2 n) || in_stack ns st n

pub record Split (ns : Nodes) (g : Shape) (l1 l2 : ℕ) (st : List ℕ) (c : Collected) : Type 0 where
  pub label : IsLabel ns g (base c)
  pub stack : IsStack ns g (end ns (base c) - 1) c.lb_st
  pub same :
      (n : ℕ)
      → has ns (base c) n || in_stack ns c.lb_st n
        ≡ (has ns l1 n || has ns l2 n) || in_stack ns st n
  pub few : length c.lb_st ≤ length st + l1 + l2

-- The stack and `last_begin` after the segment of `l`.
abbrev pushed : Nodes → ℕ → ℕ → List ℕ → List ℕ
pushed ns l last st = if ltb (begin ns l) last then l ∷ st else st

abbrev lowered : Nodes → ℕ → ℕ → ℕ
lowered ns l last = if ltb (begin ns l) last then begin ns l else last

length-pushed :
    (ns : Nodes) (l last : ℕ) (st : List ℕ) → length (pushed ns l last st) ≤ length st + 1
length-pushed ns l last st = ground arith

module _ (ns : Nodes) (g : Shape) (t : IsTrie ns g) where
  begin-parent-le : (l : ℕ) → IsLabel ns g l → begin ns (parent ns l) ≤ begin ns l
  begin-parent-le zero b = omega (arith, t.root_begin, ap (begin ns) t.root_parent)
  begin-parent-le (suc l) b = elim (begin-parent ns g t (suc l) b (omega arith)) [
    | inl e ↦ rw (e, t.root_begin) (omega arith)
    | inr lt ↦ omega arith
  ]

  IsStack-pushed :
      (l last : ℕ) (st : List ℕ)
      → IsLabel ns g l
      → 0 < l
      → IsStack ns g last st
      → IsStack ns g (lowered ns l last) (pushed ns l last st)
  IsStack-pushed l last st b p s = elim (Bool-cases (ltb (begin ns l) last)) [
    | inl new ↦
        rw new (b, p, omega arith, IsStack-mono ns g last (begin ns l + 1) st (ground arith) s)
    | inr old ↦ rw old s
  ]

  -- The offset of `l` is on the stack afterwards, pushed or already there.
  in_stack-pushed :
      (l last : ℕ) (st : List ℕ) (n : ℕ)
      → IsLabel ns g l
      → begin ns l ≤ last
      → (last ≡ max_lb) ⊎ (in_stack ns st last ≡ true)
      → in_stack ns (pushed ns l last st) n ≡ (n == begin ns l) || in_stack ns st n
  in_stack-pushed l last st n b h (inl e) = ground (arith, begin-lt-max_lb ns g t l b)
  in_stack-pushed l last st n b h (inr e) = elim (Bool-cases (ltb (begin ns l) last)) [
    | inl new ↦ rw new
    | inr old ↦ rw old (
        let same : last ≡ begin ns l = ground arith in
        let top : in_stack ns st (begin ns l) ≡ true = rw (← same) e in
        elim (Bool-cases (n == begin ns l)) [
          | inl hit ↦ rw hit (let n' : n ≡ begin ns l = ground arith in rw n' top)
          | inr miss ↦ rw miss
        ])
  ]

  top-pushed :
      (l last : ℕ) (st : List ℕ)
      → (last ≡ max_lb) ⊎ (in_stack ns st last ≡ true)
      → (lowered ns l last ≡ max_lb)
        ⊎ (in_stack ns (pushed ns l last st) (lowered ns l last) ≡ true)
  top-pushed l last st top = elim (Bool-cases (ltb (begin ns l) last)) [
    | inl new ↦ rw new (inr (ground arith))
    | inr old ↦ rw old top
  ]

  pos-of-begin : (l1 l : ℕ) → begin ns l1 < begin ns l → 0 < l
  pos-of-begin l1 zero h = absurd (omega (arith, t.root_begin))
  pos-of-begin l1 (suc l) h = omega arith

  parent-lt : (l : ℕ) → IsLabel ns g l → 0 < l → parent ns l < l
  parent-lt l b p = ground (arith, t.node l)

  step1 :
      (l1 l2 last : ℕ) (st : List ℕ)
      → IsState ns g l1 l2 st last
      → begin ns l1 < begin ns l2
      → IsState ns g l1 (parent ns l2) (pushed ns l2 last st) (lowered ns l2 last)
  step1 l1 l2 last st s lt = record {
    label1 = s.label1;
    label2 = IsLabel-parent ns g t l2 s.label2;
    le1 = ground arith;
    le2 = ground (arith, begin-parent-le l2 s.label2);
    stack = IsStack-pushed l2 last st s.label2 (pos-of-begin l1 l2 lt) s.stack;
    top = top-pushed l2 last st s.top;
  }

  step2 :
      (l1 l2 last : ℕ) (st : List ℕ)
      → IsState ns g l1 l2 st last
      → begin ns l2 ≤ begin ns l1
      → 0 < l1
      → IsState ns g (parent ns l1) l2 (pushed ns l1 last st) (lowered ns l1 last)
  step2 l1 l2 last st s le p = record {
    label1 = IsLabel-parent ns g t l1 s.label1;
    label2 = s.label2;
    le1 = ground (arith, begin-parent-le l1 s.label1);
    le2 = ground arith;
    stack = IsStack-pushed l1 last st s.label1 p s.stack;
    top = top-pushed l1 last st s.top;
  }

  end-le : (l last : ℕ) → IsLabel ns g l → begin ns l ≤ last → end ns l - 1 ≤ last
  end-le zero last b h = omega (arith, t.root_end)
  end-le (suc l) last b h = ground (arith, t.node (suc l))

  -- The state in which the loop ends: one label is used up, or both have met.
  done-Split :
      (l1 l2 last : ℕ) (st : List ℕ)
      → IsState ns g l1 l2 st last
      → (l1 ≡ 0) ⊎ (l1 ≡ l2)
      → Split ns g l1 l2 st (record { l1 = l1; l2 = l2; lb_st = st })
  done-Split l1 l2 last st s d = record {
    label = elim (Bool-cases (ltb 0 l1)) [ inl p ↦ rw p s.label1 | inr p ↦ rw p s.label2 ];
    stack = elim (Bool-cases (ltb 0 l1)) [
      | inl p ↦
          rw p (IsStack-mono ns g last (end ns l1 - 1) st (end-le l1 last s.label1 s.le1) s.stack)
      | inr p ↦
          rw p (IsStack-mono ns g last (end ns l2 - 1) st (end-le l2 last s.label2 s.le2) s.stack)
    ];
    same = λ n. met n (has-root ns n) (Bool-cases (ltb 0 l1)) d;
    few = omega arith;
  }
    where
      met :
          (n : ℕ)
          → has ns 0 n ≡ false
          → (ltb 0 l1 ≡ true) ⊎ (ltb 0 l1 ≡ false)
          → (l1 ≡ 0) ⊎ (l1 ≡ l2)
          → has ns (if ltb 0 l1 then l1 else l2) n || in_stack ns st n ≡ offsets ns l1 l2 st n
      met n e (inl p) (inl z) = absurd (ground arith)
      met n e (inl p) (inr q) = rw (p, ← q) (ground arith)
      met n e (inr p) d = let z : l1 ≡ 0 = ground arith in rw (p, z, e)

  -- A step of the loop, and what is left of it afterwards.
  Split-step1 :
      (l1 l2 last : ℕ) (st : List ℕ) {c : Collected}
      → IsState ns g l1 l2 st last
      → begin ns l1 < begin ns l2
      → Split ns g l1 (parent ns l2) (pushed ns l2 last st) c
      → Split ns g l1 l2 st c
  Split-step1 l1 l2 last st s lt r = record {
    label = r.label;
    stack = r.stack;
    same = λ n.
        r.same n
        ∙ ground (
          arith,
          has-step ns g t l2 n s.label2 (pos-of-begin l1 l2 lt),
          in_stack-pushed l2 last st n s.label2 s.le2 s.top,
        );
    few =
        omega (
          arith,
          r.few,
          length-pushed ns l2 last st,
          parent-lt l2 s.label2 (pos-of-begin l1 l2 lt),
        );
  }

  Split-step2 :
      (l1 l2 last : ℕ) (st : List ℕ) {c : Collected}
      → IsState ns g l1 l2 st last
      → 0 < l1
      → Split ns g (parent ns l1) l2 (pushed ns l1 last st) c
      → Split ns g l1 l2 st c
  Split-step2 l1 l2 last st s p r = record {
    label = r.label;
    stack = r.stack;
    same = λ n.
        r.same n
        ∙ ground (
          arith,
          has-step ns g t l1 n s.label1 p,
          in_stack-pushed l1 last st n s.label1 s.le1 s.top,
        );
    few = omega (arith, r.few, length-pushed ns l1 last st, parent-lt l1 s.label1 p);
  }

  collect_loop-Split :
      (fuel l1 l2 last : ℕ) (st : List ℕ)
      → IsState ns g l1 l2 st last
      → l1 + l2 ≤ fuel
      → (c : Collected) × (collect_loop fuel ns l1 l2 st last ≡ some c) × Split ns g l1 l2 st c
  unfolding collect_loop
  collect_loop-Split zero l1 l2 last st s enough =
      let z : l1 ≡ 0 = omega arith in
      (record { l1 = l1; l2 = l2; lb_st = st }, ground arith, done-Split l1 l2 last st s (inl z))
  collect_loop-Split (suc fuel) l1 l2 last st s enough =
      elim (Bool-cases (ltb 0 l1 && (if l1 == l2 then false else true))) [
        | inr stop ↦ (
          record { l1 = l1; l2 = l2; lb_st = st },
          rw stop,
          done-Split l1 l2 last st s (ground arith),
        )
        | inl go ↦ elim (Bool-cases (ltb (begin ns l1) (begin ns l2))) [
          | inl lt ↦
              let p : 0 < l2 = pos-of-begin l1 l2 (ground arith) in
              let (c, e, r) =
                collect_loop-Split fuel l1 (parent ns l2) (lowered ns l2 last)
                  (pushed ns l2 last st) (step1 l1 l2 last st s (ground arith))
                  (omega (arith, parent-lt l2 s.label2 p)) in
              (c, rw (go, lt) e, Split-step1 l1 l2 last st s (ground arith) r)
          | inr le ↦
              let p : 0 < l1 = ground arith in
              let (c, e, r) =
                collect_loop-Split fuel (parent ns l1) l2 (lowered ns l1 last)
                  (pushed ns l1 last st) (step2 l1 l2 last st s (ground arith) p)
                  (omega (arith, parent-lt l1 s.label1 p)) in
              (c, rw (go, le) e, Split-step2 l1 l2 last st s p r)
        ]
      ]

  -- Two labels are split into the stack and a label that they share, or what is left of one.
  pub collect-Split :
      (l1 l2 : ℕ)
      → IsLabel ns g l1
      → IsLabel ns g l2
      → (c : Collected) × (collect_loop (l1 + l2) ns l1 l2 [] max_lb ≡ some c)
        × Split ns g l1 l2 [] c
  collect-Split l1 l2 b1 b2 =
      collect_loop-Split (l1 + l2) l1 l2 max_lb []
        (record {
          label1 = b1;
          label2 = b2;
          le1 = omega (arith, begin-lt-max_lb ns g t l1 b1);
          le2 = omega (arith, begin-lt-max_lb ns g t l2 b2);
          stack = tt;
          top = inl refl;
        })
        (omega arith)
