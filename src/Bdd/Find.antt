-- ===== src/Bdd/Find.antt =====
-- `BDDTag::find` of src/bdd_tag.cpp.
use libdft64_ect.Prelude.{
  ℕ, zero, suc, ◌+◌, ◌≤◌, ◌<◌, ◌≡◌, Bool, true, false, ◌&&◌, ◌||◌, List, [], ◌∷◌, some, arith, ltb,
  leb, ◌⊎◌, inl, inr, Bool-cases, ◌∙◌,
}
use libdft64_ect.Bdd.{TagSeg, Nodes, max_lb, find_loop, find}
use libdft64_ect.Bdd.Inv.{Shape, begin, end, parent, IsTrie}
use libdft64_ect.Bdd.Labels.{
  IsLabel, has, has-root, has-step, IsLabel-parent, begin-parent, begin-lt-max_lb,
}
use libdft64_ect.Bdd.Union.{label, IsTag}

abbrev pub covers : List TagSeg → ℕ → Bool
covers [] n = false
covers (s ∷ ss) n = (leb s.begin n && ltb n s.end) || covers ss n

-- Segments of one offset each, from `lo` on, none before the end of the one ahead of it.
abbrev pub IsRising : ℕ → List TagSeg → Type 0
IsRising lo [] = Unit {0}
IsRising lo (s ∷ ss) = (lo ≤ s.begin) × (s.end ≡ s.begin + 1) × IsRising s.end ss

IsRising-mono : (lo lo' : ℕ) (ss : List TagSeg) → lo' ≤ lo → IsRising lo ss → IsRising lo' ss
IsRising-mono lo lo' [] h r = tt
IsRising-mono lo lo' (s ∷ ss) h r = (omega arith, r.1, r.2)

module _ (ns : Nodes) (g : Shape) (t : IsTrie ns g) where
  record Listed (lb : ℕ) (tags : List TagSeg) (out : List TagSeg) : Type 0 where
    rising : IsRising 0 out
    same : (n : ℕ) → covers out n ≡ has ns lb n || covers tags n

  ltb_of : {a b : ℕ} → a < b → ltb a b ≡ true
  ltb_of h = ground arith

  -- The parent lies ahead of the segment that was listed.
  parent-below :
      (lb : ℕ)
      → IsLabel ns g lb
      → 0 < lb
      → (parent ns lb ≡ 0) ⊎ (begin ns (parent ns lb) < begin ns lb)
  parent-below lb b p = begin-parent ns g t lb b p

  find_loop-Listed :
      (fuel lb last : ℕ) (tags : List TagSeg)
      → IsLabel ns g lb
      → lb ≤ fuel
      → (lb ≡ 0) ⊎ (begin ns lb < last)
      → IsRising last tags
      → (out : List TagSeg) × (find_loop fuel ns lb tags last ≡ some out) × Listed lb tags out
  unfolding find_loop
  find_loop-Listed zero lb last tags b enough below r =
      let z : lb ≡ 0 = omega arith in
      (
        tags,
        ground arith,
        record {
          rising = IsRising-mono last 0 tags (omega arith) r;
          same = λ n. rw z (ground (arith, has-root ns n));
        },
      )
  find_loop-Listed (suc fuel) lb last tags b enough below r = elim (Bool-cases (ltb 0 lb)) [
    | inr stop ↦
        let z : lb ≡ 0 = ground arith in
        (
          tags,
          rw stop,
          record {
            rising = IsRising-mono last 0 tags (omega arith) r;
            same = λ n. rw z (ground (arith, has-root ns n));
          },
        )
    | inl go ↦
        let p : 0 < lb = ground arith in
        let lt : begin ns lb < last = ground arith in
        let one : end ns lb ≡ begin ns lb + 1 = ground (arith, t.node lb) in
        let (out, e, l) =
          find_loop-Listed fuel (parent ns lb) (begin ns lb) ((ns.at lb).seg ∷ tags)
            (IsLabel-parent ns g t lb b) (ground (arith, t.node lb)) (parent-below lb b p)
            (omega arith, one, IsRising-mono last (end ns lb) tags (omega arith) r) in
        (
          out,
          rw (go, ltb_of lt) e,
          record {
            rising = l.rising;
            same = λ n. l.same n ∙ ground (arith, has-step ns g t lb n b p);
          },
        )
  ]

  -- `find` of a tag of a well-formed vector ends, and lists exactly its offsets, each in a segment of
  -- its own, in ascending order.
  pub find-has :
      (lb : ℕ)
      → IsTag ns g lb
      → (tags : List TagSeg) × (find ns lb ≡ some tags)
        × ((n : ℕ) → covers tags n ≡ has ns (label lb) n)
        × IsRising 0 tags
  unfolding find
  find-has lb b =
      let (out, e, l) =
        find_loop-Listed (label lb) (label lb) max_lb [] b.known (omega arith)
          (inr (begin-lt-max_lb ns g t (label lb) b.known)) tt in
      (out, e, (λ n. l.same n ∙ ground arith), l.rising)
