-- ===== src/TagMap.antt =====
-- The page tables of src/tagmap.h and src/tagmap.cpp, which hold a tag for each byte of memory.
pub mod Laws
pub mod Total
mod Tests
use libdft64_ect.Prelude.{
  ℕ, zero, suc, ◌+◌, ◌-◌, ◌/◌, ◌%◌, ◌^◌, Bool, true, false, ◌&&◌, Option, none, some, ltb, ◌==◌,
  if◌then◌else◌, ◌>>=◌,
}

-- `VIRT2PAGETABLE`, `VIRT2PAGE` and `VIRT2OFFSET`: `>> k` is `/ 2 ^ k`, and the masks are `% 2 ^ k`.
abbrev pub virt2pagetable : ℕ → ℕ
virt2pagetable addr = addr / 2 ^ 24

abbrev pub virt2page : ℕ → ℕ
virt2page addr = addr % 2 ^ 24 / 2 ^ 12

abbrev pub virt2offset : ℕ → ℕ
virt2offset addr = addr % 2 ^ 12

abbrev pub top_dir_sz : ℕ
top_dir_sz = 0x800000

abbrev pub pagetable_sz : ℕ
pagetable_sz = 0x1000

abbrev pub page_size : ℕ
page_size = 4096

abbrev pub max_addr : ℕ
max_addr = 0x7fffffffffff

-- The assignment `f[i] = v`.
abbrev pub update {ℓ} : {A : Type ℓ} → (ℕ → A) → ℕ → A → ℕ → A
update f i v j = if j == i then v else f j

abbrev pub is_null {ℓ} : {A : Type ℓ} → Option A → Bool
is_null none = true
is_null (some _) = false

-- `tag_page_t`, `tag_table_t`, and `tag_dir_t` with the number of `new` that still succeed.
abbrev pub TagPage : Type 0 → Type 0
TagPage T = ℕ → T

abbrev pub TagTable : Type 0 → Type 0
TagTable T = ℕ → Option (TagPage T)

pub record TagDir (T : Type 0) : Type 0 where
  pub table : ℕ → Option (TagTable T)
  pub mem_left : ℕ

module _ {T : Type 0} where
  -- `dir.table[i]` where there is one, and else a new one; `none` is `libdft_die`.
  pub need_table : TagDir T → ℕ → Option (TagTable T × TagDir T)
  need_table dir i = elim (dir.table i) [
    | some t ↦ some (t, dir)
    | none ↦
        if dir.mem_left == 0
        then none
        else some (
          λ _. none,
          record { table = update dir.table i (some (λ _. none)); mem_left = dir.mem_left - 1 },
        )
  ]

  -- The same for a page of the table, which starts out cleared.
  pub need_page : T → TagTable T → ℕ → ℕ → TagDir T → Option (TagPage T × TagDir T)
  need_page cleared_val table i j dir = elim (table j) [
    | some p ↦ some (p, dir)
    | none ↦
        if dir.mem_left == 0
        then none
        else some (
          λ _. cleared_val,
          record {
            table = update dir.table i (some (update table j (some (λ _. cleared_val))));
            mem_left = dir.mem_left - 1;
          },
        )
  ]

  -- `(*page).tag[VIRT2OFFSET(addr)] = tag`, through both pointers.
  pub store_tag : TagTable T → TagPage T → ℕ → T → TagDir T → TagDir T
  store_tag table page addr tag dir = record dir {
    table =
        update dir.table (virt2pagetable addr)
          (some (update table (virt2page addr) (some (update page (virt2offset addr) tag))));
  }

  pub tag_dir_setb : T → TagDir T → ℕ → T → Option (TagDir T)
  unfolding need_table need_page store_tag
  tag_dir_setb cleared_val dir addr tag = if ltb max_addr addr then some dir else (do
    (table, dir1) ← need_table dir (virt2pagetable addr)
    (page, dir2) ← need_page cleared_val table (virt2pagetable addr) (virt2page addr) dir1
    some (store_tag table page addr tag dir2))

  -- The variant that allocates nothing for an empty tag.
  unfoldable pub tag_dir_setb_save_mem : T → (T → Bool) → TagDir T → ℕ → T → Option (TagDir T)
  unfolding need_table need_page store_tag
  tag_dir_setb_save_mem cleared_val tag_is_empty dir addr tag =
      if ltb max_addr addr
      then some dir
      else if is_null (dir.table (virt2pagetable addr)) && tag_is_empty tag
      then some dir
      else (do
        (table, dir1) ← need_table dir (virt2pagetable addr)
        (if is_null (table (virt2page addr)) && tag_is_empty tag then some dir1 else (do
          (page, dir2) ← need_page cleared_val table (virt2pagetable addr) (virt2page addr) dir1
          some (store_tag table page addr tag dir2))))

  -- `none` is the null pointer.
  unfoldable pub tag_dir_getb_as_ptr : T → TagDir T → ℕ → Option T
  tag_dir_getb_as_ptr cleared_val dir addr =
      if ltb max_addr addr then none else elim (dir.table (virt2pagetable addr)) [
        | none ↦ some cleared_val
        | some table ↦ elim (table (virt2page addr)) [
          | none ↦ some cleared_val
          | some page ↦ some (page (virt2offset addr))
        ]
      ]
