-- ===== src/Machine/Meaning.antt =====
-- The abstract view of the state: the set of input offsets that each location depends on.
use libdft64_ect.Prelude.{
  ℕ, ◌≡◌, refl, Bool, false, ◌&&◌, ◌||◌, Option, none, some, ◌==◌, Option-cases, inl, inr,
}
use libdft64_ect.Prelude.{◌>>=◌ as and_then}
use libdft64_ect.Tag.{TagTraits}
use libdft64_ect.Tag.Laws.{TagModel, IsTagOf, Fault, TagLaws}
use libdft64_ect.Machine.{State, combine}
use libdft64_ect.Machine.Effect.{Loc, reg, mem, look}

-- A run that returns with `P`, or at a fault of the tag library.
pub data Outcome {o : TagTraits} (m : TagModel o) {A : Type 0} (P : A × State o → Type 0)
    : Option (A × State o) → Type 0 where
  returns : {r : A × State o} → P r → Outcome m P (some r)
  faults : Fault m → Outcome m P none

module _ {o : TagTraits} {m : TagModel o} {A : Type 0} {P : A × State o → Type 0} where
  pub bind :
      {B : Type 0} {Q : B × State o → Type 0} {x : Option (A × State o)}
      {k : A × State o → Option (B × State o)}
      → Outcome m P x
      → ((r : A × State o) → P r → Outcome m Q (k r))
      → Outcome m Q (and_then x k)
  bind (returns p) next = next _ p
  bind (faults f) next = faults f

  pub mono :
      {Q : A × State o → Type 0} {x : Option (A × State o)}
      → Outcome m P x
      → ((r : A × State o) → P r → Q r)
      → Outcome m Q x
  mono (returns p) weaken = returns (weaken _ p)
  mono (faults f) weaken = faults f

abbrev pub same_loc : Loc → Loc → Bool
same_loc (mem a) (mem b) = a == b
same_loc (reg t q i) (reg t' q' i') = t == t' && (q == q' && i == i')
same_loc (mem a) (reg t q i) = false
same_loc (reg t q i) (mem a) = false

module _ {o : TagTraits} (laws : TagLaws o) where
  -- The offsets of a location: none where it cannot be read.
  abbrev pub offsets : State o → Loc → ℕ → Bool
  offsets s l n = elim (look s l) [ none ↦ false | some t ↦ laws.model.member s.store t n ]

  -- A well-formed store, and no tag that is not one of it.
  pub record IsState (s : State o) (g : laws.model.Ghost) : Type 0 where
    pub store : laws.model.IsStore s.store g
    pub tags : (l : Loc) (t : o.Tag) → look s l ≡ some t → laws.model.IsTag s.store g t

  -- A tag for the set `f`, in a state that is `s` but for new tags in the store.
  pub record Combined (s : State o) (g : laws.model.Ghost) (f : ℕ → Bool) (r : o.Tag × State o)
      : Type 0 where
    pub meaning : IsTagOf laws.model s.store g f (r.0, r.1.store)
    pub rest : r.1 ≡ record s { store = r.1.store }

  -- `tag_combine` of two tags of the state.
  pub combine-Outcome :
      (s : State o) (g : laws.model.Ghost) (a b : o.Tag) (tid : ℕ)
      → laws.model.IsStore s.store g
      → laws.model.IsTag s.store g a
      → laws.model.IsTag s.store g b
      → Outcome laws.model
          (Combined s g (λ n. laws.model.member s.store a n || laws.model.member s.store b n))
          (combine a b tid s)
  unfolding combine
  combine-Outcome s g a b tid st ta tb = elim (Option-cases (o.tag_combine a b tid s.store)) [
    | inl e ↦ rw e (
        faults record {
          st = s.store;
          ghost = g;
          store = st;
          a = a;
          b = b;
          a_tag = ta;
          b_tag = tb;
          tid = tid;
          fails = e;
        })
    | inr (r, e) ↦
        rw e
          (returns record { meaning = laws.combine_ok s.store g a b tid r st ta tb e; rest = refl })
  ]
