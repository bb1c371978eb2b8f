-- ===== src/Machine/Loop.antt =====
-- The rule for the counted loops of the analysis functions.
use libdft64_ect.Prelude.{ℕ, zero, suc, ◌+◌, ◌<◌, ◌≡◌, refl, some, arith}
use libdft64_ect.Tag.{TagTraits}
use libdft64_ect.Machine.{State, Cmd, for_up, ◌>>◌}

-- A run that returns, in a state with `P`.
abbrev pub Ends : {o : TagTraits} → (State o → Type 0) → State o → Cmd o (Unit {0}) → Type 0
Ends {o} P s m = (s' : State o) × (m s ≡ some (tt, s')) × P s'

module _ {o : TagTraits} (P : ℕ → State o → Type 0) (body : ℕ → Cmd o (Unit {0})) (last : ℕ) where
  -- If a round at `i` leads from `P i` to `P (i + 1)`, the loop leads from `P i` to `P last`.
  pub for_up-Ends :
      ((i : ℕ) (s : State o) → i < last → P i s → Ends (P (i + 1)) s (body i))
      → (rounds i : ℕ) (s : State o) → i + rounds ≡ last
      → P i s
      → Ends (P last) s (for_up rounds i body)
  unfolding for_up
  for_up-Ends keep zero i s e p = let e' : i ≡ last = omega arith in (s, refl, rw (← e') p)
  for_up-Ends keep (suc rounds) i s e p =
      let (s1, e1, p1) = keep i s (omega arith) p in
      let (s2, e2, p2) = for_up-Ends keep rounds (i + 1) s1 (omega arith) p1 in (s2, rw e1 e2, p2)

module _ {o : TagTraits} {P Q : State o → Type 0} where
  -- One command after another.
  pub >>-Ends :
      (s : State o) (m1 m2 : Cmd o (Unit {0}))
      → Ends P s m1
      → ((s' : State o) → P s' → Ends Q s' m2)
      → Ends Q s (m1 >> m2)
  >>-Ends s m1 m2 (s1, e1, p1) next = let (s2, e2, q) = next s1 p1 in (s2, rw e1 e2, q)

  pub mono-Ends :
      (s : State o) (m : Cmd o (Unit {0}))
      → Ends P s m
      → ((s' : State o) → P s' → Q s')
      → Ends Q s m
  mono-Ends s m (s1, e1, p1) weaken = (s1, e1, weaken s1 p1)
