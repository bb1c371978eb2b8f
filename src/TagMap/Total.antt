-- ===== src/TagMap/Total.antt =====
-- When a write to the page tables of src/tagmap.cpp succeeds, and the memory that it takes.
use libdft64_ect.Prelude.{
  ℕ, ◌+◌, ◌≤◌, ◌≡◌, ◌≢◌, Bool, none, some, if◌then◌else◌, arith, inl, inr, Option-cases,
}
use libdft64_ect.TagMap.{TagDir, tag_dir_setb_save_mem}

module _ {T : Type 0} (cleared_val : T) where
  abbrev blocks : Bool → ℕ
  blocks empty = if empty then 0 else 2

  -- The variant that saves memory takes at most two blocks, and none for an empty tag.
  setb_save_mem-mem_left :
      (tag_is_empty : T → Bool) (dir dir' : TagDir T) (addr : ℕ) (tag : T)
      → tag_dir_setb_save_mem cleared_val tag_is_empty dir addr tag ≡ some dir'
      → dir.mem_left ≤ dir'.mem_left + blocks (tag_is_empty tag)
  unfolding tag_dir_setb_save_mem
  setb_save_mem-mem_left tag_is_empty dir dir' addr tag e = ground arith

  setb_save_mem-ne-none :
      (tag_is_empty : T → Bool) (dir : TagDir T) (addr : ℕ) (tag : T)
      → blocks (tag_is_empty tag) ≤ dir.mem_left
      → tag_dir_setb_save_mem cleared_val tag_is_empty dir addr tag ≢ none
  unfolding tag_dir_setb_save_mem
  setb_save_mem-ne-none tag_is_empty dir addr tag h = ground arith

  -- `tag_dir_setb_save_mem` dies only for want of memory: it succeeds if two blocks are left, and
  -- for an empty tag in any case, and takes two blocks at most, for an empty tag none.
  pub setb_save_mem-total :
      (tag_is_empty : T → Bool) (dir : TagDir T) (addr : ℕ) (tag : T)
      → (if tag_is_empty tag then 0 else 2) ≤ dir.mem_left
      → (dir' : TagDir T) × (tag_dir_setb_save_mem cleared_val tag_is_empty dir addr tag
          ≡ some dir')
        × (dir.mem_left ≤ dir'.mem_left + (if tag_is_empty tag then 0 else 2))
  setb_save_mem-total tag_is_empty dir addr tag h =
      elim (Option-cases (tag_dir_setb_save_mem cleared_val tag_is_empty dir addr tag)) [
        | inl e ↦ absurd (setb_save_mem-ne-none tag_is_empty dir addr tag h e)
        | inr (dir', e) ↦ (dir', e, setb_save_mem-mem_left tag_is_empty dir dir' addr tag e)
      ]
