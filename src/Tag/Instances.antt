-- ===== src/Tag/Instances.antt =====
-- Two tag libraries of src/tag_trait.cpp: `uint8_t` and `lb_type`.
use libdft64_ect.Prelude.{
  ℕ, ◌≡◌, refl, inr, ◌⊎◌, not, Bool, Option, ◌<◌, >>=-eq-some, true, ◌||◌, some, ltb, ◌==◌,
  if◌then◌else◌, arith, inl, ◌>>=◌,
}
use Prim.Native.Nat.{bit_or}
use libdft64_ect.Tag.{TagTraits}
use libdft64_ect.Tag.Laws
use libdft64_ect.Tag.Laws.{TagModel, TagLaws, AllocLaws}
use libdft64_ect.Bdd.{Nodes, max_lb, insert, combine}
use libdft64_ect.Bdd.Inv.{Shape, IsTrie}
use libdft64_ect.Bdd.Labels.{has, has-root}
use libdft64_ect.Bdd.Returns
use libdft64_ect.Bdd.Union.{
  root-IsTag, union, IsTag, IsTagOf, label, insert-single, combine-IsUnion,
}

-- One bit of taint.
abbrev pub uint8_traits : TagTraits
uint8_traits = record {
  Tag = ℕ;
  Store = Unit {0};
  cleared_val = 0;
  tag_is_empty = λ t. t == 0;
  tag_alloc = λ offset tid st. some (if ltb 0 offset then 1 else 0, st);
  tag_combine = λ a b tid st. some (bit_or a b, st);
}

-- The global `bdd_tag` is the store.
abbrev pub bdd_traits : TagTraits
bdd_traits = record {
  Tag = ℕ;
  Store = Nodes;
  cleared_val = 0;
  tag_is_empty = λ t. t == 0;
  tag_alloc = λ offset tid st. insert st offset >>= λ r. some (r.1, r.0);
  tag_combine = λ a b tid st. combine st a b >>= λ r. some (r.1, r.0);
}

abbrev pub bdd_model : TagModel bdd_traits
bdd_model = record {
  Ghost = Shape;
  IsStore = IsTrie;
  IsTag = IsTag;
  member = λ ns t n. has ns (label t) n;
}

-- What src/bdd_tag.cpp gives back, with the tag first.
module _ (ns : Nodes) (g : Shape) (member : ℕ → Bool) (got : Option (Nodes × ℕ)) where
  swap-IsTagOf :
      ((x : Nodes × ℕ) → got ≡ some x → IsTagOf ns g member x)
      → (r : ℕ × Nodes) → got >>= (λ x. some (x.1, x.0)) ≡ some r
      → Laws.IsTagOf bdd_model ns g member r
  swap-IsTagOf known r e =
      let (x, e1, e2) = >>=-eq-some got _ e in
      let u : IsTagOf ns g member x = known x e1 in
      let swap : (x.1, x.0) ≡ r = cc in
      rw (← swap) record {
        ghost = u.shape;
        store = u.trie;
        tag = u.tag;
        same = u.offsets;
        kept = λ l k. ((u.kept l 0 k).0, λ n. (u.kept l n k).1);
      }

module _ (ns : Nodes) (g : Shape) (t : IsTrie ns g) where
  pub combine_bdd-IsTagOf :
      (a b tid : ℕ) (r : ℕ × Nodes)
      → IsTag ns g a
      → IsTag ns g b
      → bdd_traits.tag_combine a b tid ns ≡ some r
      → Laws.IsTagOf bdd_model ns g (λ n. has ns (label a) n || has ns (label b) n) r
  combine_bdd-IsTagOf a b tid r ta tb e =
      swap-IsTagOf ns g (union ns (label a) (label b)) (combine ns a b)
        (λ x e1. Returns.result (combine-IsUnion ns g a b t ta tb) e1) r e

  pub alloc_bdd-IsTagOf :
      (offset tid : ℕ) (r : ℕ × Nodes)
      → offset < max_lb
      → bdd_traits.tag_alloc offset tid ns ≡ some r
      → Laws.IsTagOf bdd_model ns g (λ n. n == offset) r
  alloc_bdd-IsTagOf offset tid r h e =
      swap-IsTagOf ns g (λ n. n == offset) (insert ns offset)
        (λ x e1. Returns.result (insert-single ns g offset t h) e1) r e

pub zero_of : (t : ℕ) → t == 0 ≡ true → t ≡ 0
zero_of t e = ground arith

abbrev pub bdd_laws : TagLaws bdd_traits
bdd_laws = record {
  model = bdd_model;
  cleared_tag = root-IsTag;
  cleared_none = has-root;
  empty_eq = zero_of;
  combine_ok = λ ns g a b tid r t ta tb e. combine_bdd-IsTagOf ns g t a b tid r ta tb e;
}

abbrev pub bdd_allocs : AllocLaws bdd_laws
bdd_allocs = record {
  limit = max_lb;
  small = omega arith;
  alloc_ok = λ ns g offset tid r t h e. alloc_bdd-IsTagOf ns g t offset tid r h e;
}

-- The tags of `uint8_t` are no sets: each stands for the one question whether there is taint.
abbrev pub uint8_model : TagModel uint8_traits
uint8_model = record {
  Ghost = Unit {0};
  IsStore = λ st g. Unit {0};
  IsTag = λ st g t. (t ≡ 0) ⊎ (t ≡ 1);
  member = λ st t n. not (t == 0);
}

bit_or-taint :
    (a b : ℕ)
    → (a ≡ 0) ⊎ (a ≡ 1)
    → (b ≡ 0) ⊎ (b ≡ 1)
    → ((bit_or a b ≡ 0) ⊎ (bit_or a b ≡ 1))
      × (not (bit_or a b == 0) ≡ (not (a == 0) || not (b == 0)))
bit_or-taint a b (inl x) (inl y) = rw (x, y) (inl refl, refl)
bit_or-taint a b (inl x) (inr y) = rw (x, y) (inr refl, refl)
bit_or-taint a b (inr x) (inl y) = rw (x, y) (inr refl, refl)
bit_or-taint a b (inr x) (inr y) = rw (x, y) (inr refl, refl)

pub combine_uint8-IsTagOf :
    (a b tid : ℕ) (r : ℕ × Unit {0})
    → (a ≡ 0) ⊎ (a ≡ 1)
    → (b ≡ 0) ⊎ (b ≡ 1)
    → uint8_traits.tag_combine a b tid tt ≡ some r
    → Laws.IsTagOf uint8_model tt tt (λ n. not (a == 0) || not (b == 0)) r
combine_uint8-IsTagOf a b tid r ta tb e =
    let res : (bit_or a b, tt) ≡ r = cc in
    rw (← res) record {
      ghost = tt;
      store = tt;
      tag = (bit_or-taint a b ta tb).0;
      same = λ n. (bit_or-taint a b ta tb).1;
      kept = λ t k. (k, λ n. refl);
    }

abbrev pub uint8_laws : TagLaws uint8_traits
uint8_laws = record {
  model = uint8_model;
  cleared_tag = λ st g h. inl refl;
  cleared_none = λ st n. refl;
  empty_eq = zero_of;
  combine_ok = λ st g a b tid r h ta tb e. combine_uint8-IsTagOf a b tid r ta tb e;
}
