-- ===== src/Tag.antt =====
-- The tag interface of src/tag_traits.h: what the tag map and the instruction handlers use of a
-- tag type, and what they rely on.
pub mod Laws
pub mod Instances
use libdft64_ect.Prelude.{ℕ, Bool, Option}

-- `tag_traits<T>` with `tag_alloc`, `tag_combine` and `tag_is_empty`. A tag library with a global
-- state, such as `bdd_tag`, keeps it in `Store`; `none` is a fault of the library.
pub record TagTraits : Type 1 where
  pub Tag : Type 0
  pub Store : Type 0
  pub cleared_val : Tag
  pub tag_is_empty : Tag → Bool
  pub tag_alloc : ℕ → ℕ → Store → Option (Tag × Store)
  pub tag_combine : Tag → Tag → ℕ → Store → Option (Tag × Store)
