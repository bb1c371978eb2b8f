-- ===== src/Machine/Clear.antt =====
-- `tagmap_clrb` and `tagmap_clrn` of src/tagmap.cpp.
use libdft64_ect.Prelude.{ℕ, ◌+◌, ◌-◌, ◌≤◌, ◌<◌, ◌≡◌, refl, true, Option, some, arith}
use libdft64_ect.Tag.{TagTraits}
use libdft64_ect.TagMap.{max_addr}
use libdft64_ect.Machine.{State, add64, for_up, tagmap_setb, tagmap_clrb, tagmap_clrn}
use libdft64_ect.Machine.Loop.{Ends, for_up-Ends, mono-Ends}
use libdft64_ect.Machine.Effect.{EmptyIsCleared, to_mem, Became, Became-none_mem, setb_within-next}

module _ {o : TagTraits} (s : State o) where
  -- `tagmap_clrn` clears the tags of its range, and no other, and allocates nothing, if the range is
  -- user memory, and the cleared tag and no other is empty.
  pub tagmap_clrn-clears :
      (addr n : ℕ)
      → EmptyIsCleared o
      → o.tag_is_empty o.cleared_val ≡ true
      → addr + n ≤ max_addr + 1
      → Ends (Became s 0 (to_mem addr n (λ _. some o.cleared_val) s)) s (tagmap_clrn addr n)
  unfolding tagmap_clrn tagmap_clrb
  tagmap_clrn-clears addr n empty_eq cleared fits =
      let rounds : add64 addr n - addr ≡ n = omega arith in
      let all : addr + n - addr ≡ n = omega arith in
      rw rounds (
        mono-Ends s (for_up n addr tagmap_clrb)
          (for_up-Ends Upto tagmap_clrb (addr + n) step n addr s refl (omega arith, start))
          λ s' p. rw all at p.1)
    where
      tag : ℕ → Option o.Tag
      tag _ = some o.cleared_val

      Upto : ℕ → State o → Type 0
      Upto i s' = (addr ≤ i) × Became s 0 (to_mem addr (i - addr) tag s) s'

      start : Became s 0 (to_mem addr (addr - addr) tag s) s
      start =
          let none_yet : addr - addr ≡ 0 = omega arith in rw none_yet (Became-none_mem s addr tag)

      step :
          (i : ℕ) (s' : State o) → i < addr + n → Upto i s' → Ends (Upto (i + 1)) s' (tagmap_clrb i)
      step i s' h (le, b) =
          let here : addr + (i - addr) ≡ i = omega arith in
          let next : i - addr + 1 ≡ i + 1 - addr = omega arith in
          let done : Ends (Became s 0 (to_mem addr (i - addr + 1) tag s)) s'
              (tagmap_setb (addr + (i - addr)) o.cleared_val) =
            setb_within-next s s' addr (i - addr) 0 0 tag o.cleared_val empty_eq (omega arith)
              (rw cleared (omega arith)) (omega arith) b refl in
          let (s'', e, b') = rw (here, next) at done in (s'', e, (omega arith, b'))
