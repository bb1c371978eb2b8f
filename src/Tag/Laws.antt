-- ===== src/Tag/Laws.antt =====
-- What the tag map and the instruction handlers rely on of a tag library: its tags stand for sets
-- of offsets of the input, and `tag_combine` is the union.
use libdft64_ect.Prelude.{ℕ, ◌≡◌, ◌≤◌, ◌<◌, ◌^◌, ◌==◌, Bool, true, false, ◌||◌, none, some}
use libdft64_ect.Tag.{TagTraits}

-- The meaning of tags. A store is well formed as its ghost describes it, and a tag is one of it.
pub record TagModel (o : TagTraits) : Type 1 where
  pub Ghost : Type 0
  pub IsStore : o.Store → Ghost → Type 0
  pub IsTag : o.Store → Ghost → o.Tag → Type 0
  pub member : o.Store → o.Tag → ℕ → Bool

module _ {o : TagTraits} (m : TagModel o) where
  -- A tag for the set `offsets`, in a store in which the tags of the old one mean the same.
  pub record IsTagOf (st : o.Store) (g : m.Ghost) (offsets : ℕ → Bool) (r : o.Tag × o.Store)
      : Type 0 where
    pub ghost : m.Ghost
    pub store : m.IsStore r.1 ghost
    pub tag : m.IsTag r.1 ghost r.0
    pub same : (n : ℕ) → m.member r.1 r.0 n ≡ offsets n
    pub kept :
        (t : o.Tag)
        → m.IsTag st g t
        → m.IsTag r.1 ghost t × ((n : ℕ) → m.member r.1 t n ≡ m.member st t n)

  -- A fault of the library: two tags of a well-formed store that it cannot combine.
  pub record Fault : Type 0 where
    pub st : o.Store
    pub ghost : m.Ghost
    pub store : m.IsStore st ghost
    pub a : o.Tag
    pub b : o.Tag
    pub a_tag : m.IsTag st ghost a
    pub b_tag : m.IsTag st ghost b
    pub tid : ℕ
    pub fails : o.tag_combine a b tid st ≡ none

pub record TagLaws (o : TagTraits) : Type 1 where
  pub model : TagModel o
  pub cleared_tag :
      (st : o.Store) (g : model.Ghost) → model.IsStore st g → model.IsTag st g o.cleared_val
  pub cleared_none : (st : o.Store) (n : ℕ) → model.member st o.cleared_val n ≡ false
  pub empty_eq : (t : o.Tag) → o.tag_is_empty t ≡ true → t ≡ o.cleared_val
  pub combine_ok :
      (st : o.Store) (g : model.Ghost) (a b : o.Tag) (tid : ℕ) (r : o.Tag × o.Store)
      → model.IsStore st g
      → model.IsTag st g a
      → model.IsTag st g b
      → o.tag_combine a b tid st ≡ some r
      → IsTagOf model st g (λ n. model.member st a n || model.member st b n) r

-- What `tag_alloc` promises: a tag for one offset below `limit`.
pub record AllocLaws {o : TagTraits} (laws : TagLaws o) : Type 0 where
  pub limit : ℕ
  pub small : limit ≤ 2 ^ 32
  pub alloc_ok :
      (st : o.Store) (g : laws.model.Ghost) (offset tid : ℕ) (r : o.Tag × o.Store)
      → laws.model.IsStore st g
      → offset < limit
      → o.tag_alloc offset tid st ≡ some r
      → IsTagOf laws.model st g (λ n. n == offset) r
