-- ===== src/TagMap/Tests.antt =====
-- Runs of src/tagmap.cpp.
use libdft64_ect.Prelude.{ℕ, ◌+◌, ◌≤◌, ◌<◌, ◌≡◌, refl, Bool, true, Option, none, some, ◌==◌, arith}
use libdft64_ect.TagMap.{
  TagDir, virt2pagetable, virt2page, virt2offset, top_dir_sz, pagetable_sz, page_size, max_addr,
  need_table, need_page, store_tag, tag_dir_setb, tag_dir_setb_save_mem, tag_dir_getb_as_ptr,
}
use libdft64_ect.TagMap.Laws.{
  index_bounds, read, Written, setb-Written, setb_save_mem-Written, setb_save_mem-eq-setb,
}
use libdft64_ect.TagMap.Total.{setb_save_mem-total}

index_bounds_example :
    (virt2pagetable max_addr < top_dir_sz)
    × (virt2page max_addr < pagetable_sz)
    × (virt2offset max_addr < page_size)
index_bounds_example = index_bounds max_addr (omega arith)

abbrev empty_dir : TagDir ℕ
empty_dir = record { table = λ _. none; mem_left = 100 }

-- A write of taint to a page that there is not.
from_some : Option (TagDir ℕ) → TagDir ℕ
from_some none = empty_dir
from_some (some d) = d

abbrev is_zero : ℕ → Bool
is_zero t = t == 0

written : TagDir ℕ
unfolding from_some
written = from_some (tag_dir_setb 0 empty_dir 4096 1)

written_save : TagDir ℕ
unfolding from_some
written_save = from_some (tag_dir_setb_save_mem 0 is_zero empty_dir 4096 1)

written_eq : tag_dir_setb 0 empty_dir 4096 1 ≡ some written
unfolding written from_some tag_dir_setb need_table need_page store_tag
written_eq = refl

written_save_eq : tag_dir_setb_save_mem 0 is_zero empty_dir 4096 1 ≡ some written_save
unfolding written_save from_some tag_dir_setb_save_mem need_table need_page store_tag
written_save_eq = refl

read-written : (read 0 written 4096 ≡ some 1) × (read 0 written 4097 ≡ some 0)
unfolding written from_some tag_dir_setb tag_dir_getb_as_ptr need_table need_page store_tag
read-written = (refl, refl)

-- An address above the user space gives no tag, but a null pointer.
read_high : tag_dir_getb_as_ptr 0 written 0x800000000000 ≡ none
unfolding tag_dir_getb_as_ptr
read_high = refl

is_zero-eq : (t : ℕ) → is_zero t ≡ true → t ≡ 0
is_zero-eq t e = ground arith

setb-Written_example : Written 0 empty_dir 4096 1 written
setb-Written_example = setb-Written 0 empty_dir written 4096 1 written_eq

setb_save_mem-Written_example : Written 0 empty_dir 4096 1 written_save
setb_save_mem-Written_example =
    setb_save_mem-Written 0 is_zero is_zero-eq empty_dir written_save 4096 1 written_save_eq

setb_save_mem-eq-setb_example : read 0 written_save 4096 ≡ read 0 written 4096
setb_save_mem-eq-setb_example =
    setb_save_mem-eq-setb 0 is_zero is_zero-eq empty_dir written written_save 4096 1 written_eq
      written_save_eq 4096

setb_save_mem-total_example :
    (dir' : TagDir ℕ) × (tag_dir_setb_save_mem 0 is_zero empty_dir 4096 1 ≡ some dir')
    × (100 ≤ dir'.mem_left + 2)
setb_save_mem-total_example = setb_save_mem-total 0 is_zero empty_dir 4096 1 (omega arith)
