-- ===== src/Ssa/Assign.antt =====
-- The members of `ssa_tag` in src/ssa_tag_gc.h: constructors, destructor and assignments.
use libdft64_ect.Prelude.{
  ℕ, ◌+◌, ◌-◌, ◌≤◌, ◌<◌, ◌≡◌, refl, Option, none, ◌==◌, arith, Bool-cases, inl, inr,
}
use libdft64_ect.Ssa.{
  State, Heap, never, retain, release, set_ref, copy_ctor, move_ctor, destroy, copy_assign,
  move_assign,
}
use libdft64_ect.Ssa.Worker.{Sylvan}
use libdft64_ect.Ssa.Refs.{points_to, refs, refs-set, refs_bound, refs_positive}
use libdft64_ect.Ssa.Counts.{IsHeap, IsHeap-same, retain-IsHeap, release-IsHeap}

module _ {y : Sylvan} (n : ℕ) where
  -- The heap counts the references of the first `n` objects.
  pub record IsCounted (s : State y) : Type 0 where
    pub few : n + 1 < never
    pub heap : IsHeap (refs n s.vars) s.heap

  -- The calls on objects from `lo` up to, and without, `n`; a constructor is called on an object
  -- without a reference.
  pub data Assignment (lo : ℕ) (s : State y) : State y → Type 0 where
    copies :
        (x z : ℕ) → lo ≤ x → x < n → z < n → s.vars x ≡ none → Assignment lo s (copy_ctor x z s)
    moves :
        (x z : ℕ)
        → lo ≤ x
        → lo ≤ z
        → x < n
        → z < n
        → s.vars x ≡ none
        → Assignment lo s (move_ctor x z s)
    destroys : (x : ℕ) → lo ≤ x → x < n → Assignment lo s (destroy x s)
    copy_assigns : (x z : ℕ) → lo ≤ x → x < n → z < n → Assignment lo s (copy_assign x z s)
    move_assigns : (x z : ℕ) → lo ≤ x → lo ≤ z → x < n → z < n → Assignment lo s (move_assign x z s)

  module _ (s : State y) (w : IsCounted s) where
    held-retain :
        (z : ℕ)
        → z < n
        → IsHeap (λ p. refs n s.vars p + points_to (s.vars z) p) (retain (s.vars z) s.heap)
    held-retain z le = retain-IsHeap (refs n s.vars) s.heap w.heap (s.vars z) λ p e.
        let b = refs_bound n s.vars p in
        let few = w.few in (refs_positive n z s.vars p le e, omega arith)

    held-release :
        (x : ℕ)
        → x < n
        → IsHeap (λ p. refs n s.vars p - points_to (s.vars x) p) (release (s.vars x) s.heap)
    held-release x le =
        release-IsHeap (refs n s.vars) s.heap w.heap (s.vars x)
          λ p e. refs_positive n x s.vars p le e

    recount :
        (f : ℕ → ℕ) (hp : Heap) (vars : ℕ → Option ℕ)
        → ((p : ℕ) → f p ≡ refs n vars p)
        → IsHeap f hp
        → IsCounted (record s { heap = hp; vars = vars })
    recount f hp vars same h = record { few = w.few; heap = IsHeap-same f hp h (refs n vars) same }

    -- A move takes the reference from `z`.
    moved :
        (x z p : ℕ)
        → x < n
        → z < n
        → refs n (set_ref z none (set_ref x (s.vars z) s.vars)) p + points_to (s.vars x) p
          ≡ refs n s.vars p
    moved x z p le1 le2 =
        let there : set_ref x (s.vars z) s.vars z ≡ s.vars z = elim (Bool-cases (z == x)) [
          | inl e ↦ rw e refl
          | inr e ↦ rw e refl
        ] in
        let first = refs-set n x (s.vars z) s.vars p le1 in
        let second = refs-set n z none (set_ref x (s.vars z) s.vars) p le2 in
        let second' : refs n (set_ref z none (set_ref x (s.vars z) s.vars)) p
              + points_to (s.vars z) p
            ≡ refs n (set_ref x (s.vars z) s.vars) p + 0 =
          rw there at second in
        omega arith

    pub copy_ctor-IsCounted :
        (x z : ℕ) → x < n → z < n → s.vars x ≡ none → IsCounted (copy_ctor x z s)
    unfolding copy_ctor
    copy_ctor-IsCounted x z le1 le2 e =
        recount (λ p. refs n s.vars p + points_to (s.vars z) p) (retain (s.vars z) s.heap)
          (set_ref x (s.vars z) s.vars)
          (λ p.
            let moved_one = refs-set n x (s.vars z) s.vars p le1 in
            let nothing : points_to (s.vars x) p ≡ 0 = rw e refl in omega arith)
          (held-retain z le2)

    move_ctor-IsCounted : (x z : ℕ) → x < n → z < n → s.vars x ≡ none → IsCounted (move_ctor x z s)
    unfolding move_ctor
    move_ctor-IsCounted x z le1 le2 e =
        recount (refs n s.vars) s.heap (set_ref z none (set_ref x (s.vars z) s.vars))
          (λ p.
            let same = moved x z p le1 le2 in
            let nothing : points_to (s.vars x) p ≡ 0 = rw e refl in omega arith)
          w.heap

    pub destroy-IsCounted : (x : ℕ) → x < n → IsCounted (destroy x s)
    unfolding destroy
    destroy-IsCounted x le =
        recount (λ p. refs n s.vars p - points_to (s.vars x) p) (release (s.vars x) s.heap)
          (set_ref x none s.vars)
          (λ p.
            let one = refs-set n x none s.vars p le in
            let one' : refs n (set_ref x none s.vars) p + points_to (s.vars x) p
                ≡ refs n s.vars p + 0 =
              one in
            omega arith)
          (held-release x le)

    pub copy_assign-IsCounted : (x z : ℕ) → x < n → z < n → IsCounted (copy_assign x z s)
    unfolding copy_assign
    copy_assign-IsCounted x z le1 le2 =
        recount (λ p. refs n s.vars p + points_to (s.vars z) p - points_to (s.vars x) p)
          (release (s.vars x) (retain (s.vars z) s.heap)) (set_ref x (s.vars z) s.vars)
          (λ p. let one = refs-set n x (s.vars z) s.vars p le1 in omega arith)
          (release-IsHeap (λ p. refs n s.vars p + points_to (s.vars z) p) (retain (s.vars z) s.heap)
            (held-retain z le2) (s.vars x)
            λ p e. let pos = refs_positive n x s.vars p le1 e in omega arith)

    move_assign-IsCounted : (x z : ℕ) → x < n → z < n → IsCounted (move_assign x z s)
    unfolding move_assign
    move_assign-IsCounted x z le1 le2 =
        recount (λ p. refs n s.vars p - points_to (s.vars x) p) (release (s.vars x) s.heap)
          (set_ref z none (set_ref x (s.vars z) s.vars))
          (λ p. let same = moved x z p le1 le2 in omega arith) (held-release x le1)

  -- A constructor, the destructor and an assignment, to itself too, keep the counts exact.
  pub Assignment-IsCounted :
      (lo : ℕ) (s s' : State y) → Assignment lo s s' → IsCounted s → IsCounted s'
  Assignment-IsCounted lo s _ (copies x z _ le1 le2 e) w = copy_ctor-IsCounted s w x z le1 le2 e
  Assignment-IsCounted lo s _ (moves x z _ _ le1 le2 e) w = move_ctor-IsCounted s w x z le1 le2 e
  Assignment-IsCounted lo s _ (destroys x _ le) w = destroy-IsCounted s w x le
  Assignment-IsCounted lo s _ (copy_assigns x z _ le1 le2) w = copy_assign-IsCounted s w x z le1 le2
  Assignment-IsCounted lo s _ (move_assigns x z _ _ le1 le2) w =
      move_assign-IsCounted s w x z le1 le2
