-- ===== src/Ssa/Refs.antt =====
-- How many tag objects of src/ssa_tag_gc.h point to a cell.
use libdft64_ect.Prelude.{
  ℕ, zero, suc, ◌+◌, ◌≤◌, ◌<◌, ◌≡◌, refl, Option, none, some, ◌==◌, if◌then◌else◌, arith,
  Bool-cases, inl, inr,
}
use libdft64_ect.Ssa.{set_ref}

abbrev pub points_to : Option ℕ → ℕ → ℕ
points_to none p = 0
points_to (some r) p = if r == p then 1 else 0

-- Among the first `n` objects.
pub refs : ℕ → (ℕ → Option ℕ) → ℕ → ℕ
refs zero vars p = 0
refs (suc n) vars p = refs n vars p + points_to (vars n) p

refs-set_above :
    (n x : ℕ) (r : Option ℕ) (vars : ℕ → Option ℕ) (p : ℕ)
    → n ≤ x
    → refs n (set_ref x r vars) p ≡ refs n vars p
unfolding refs
refs-set_above zero x r vars p h = refl
refs-set_above (suc n) x r vars p h = ground (arith, refs-set_above n x r vars p)

-- An assignment moves one reference.
pub refs-set :
    (n x : ℕ) (r : Option ℕ) (vars : ℕ → Option ℕ) (p : ℕ)
    → x < n
    → refs n (set_ref x r vars) p + points_to (vars x) p ≡ refs n vars p + points_to r p
unfolding refs
refs-set zero x r vars p h = absurd (omega arith)
refs-set (suc n) x r vars p h = elim (Bool-cases (n == x)) [
  | inl last ↦
      let e : n ≡ x = ground arith in
      rw (last, refs-set_above n x r vars p (omega arith), e) (omega arith)
  | inr other ↦ rw other (omega (arith, refs-set n x r vars p (ground arith)))
]

pub refs_bound : (n : ℕ) (vars : ℕ → Option ℕ) (p : ℕ) → refs n vars p ≤ n
unfolding refs
refs_bound zero vars p = omega arith
refs_bound (suc n) vars p = ground (arith, refs_bound n vars p)

pub refs_positive :
    (n x : ℕ) (vars : ℕ → Option ℕ) (p : ℕ) → x < n → vars x ≡ some p → 0 < refs n vars p
unfolding refs
refs_positive zero x vars p h e = absurd (omega arith)
refs_positive (suc n) x vars p h e = elim (Bool-cases (n == x)) [
  | inl last ↦ let e' : n ≡ x = ground arith in rw (e', e) (ground arith)
  | inr other ↦ omega (arith, refs_positive n x vars p (ground arith) e)
]

pub refs-set_null :
    (n x : ℕ) (vars : ℕ → Option ℕ) (p : ℕ)
    → x < n
    → vars x ≡ none
    → refs n vars p ≡ refs n (set_ref x none vars) p
refs-set_null n x vars p h e =
    let one = refs-set n x none vars p h in
    let nothing : points_to (vars x) p ≡ 0 = rw e refl in omega arith

pub refs-none : (n p : ℕ) → 0 ≡ refs n (λ _. none) p
unfolding refs
refs-none zero p = refl
refs-none (suc n) p = omega (arith, refs-none n p)
