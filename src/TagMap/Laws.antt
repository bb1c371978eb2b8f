-- ===== src/TagMap/Laws.antt =====
-- What a write to the page tables of src/tagmap.cpp does to every read.
use libdft64_ect.Prelude.{
  ℕ, ◌≤◌, ◌<◌, ◌≡◌, Bool, true, ◌&&◌, Option, none, some, ltb, leb, ◌==◌, if◌then◌else◌, ◌>>=◌,
  arith, inl, inr, Bool-cases, >>=-eq-some, ◌∙◌, ap, sym,
}
use libdft64_ect.TagMap.{
  virt2pagetable, virt2page, virt2offset, top_dir_sz, pagetable_sz, page_size, max_addr, TagPage,
  TagTable, TagDir, need_table, need_page, store_tag, tag_dir_setb, is_null, tag_dir_setb_save_mem,
  tag_dir_getb_as_ptr,
}

-- Every index that the macros take from a user address into the directory, a table and a page is in
-- range.
pub index_bounds :
    (addr : ℕ)
    → addr ≤ max_addr
    → (virt2pagetable addr < top_dir_sz)
      × (virt2page addr < pagetable_sz)
      × (virt2offset addr < page_size)
index_bounds addr h = omega arith

-- The three indices tell addresses apart.
index-injective :
    (a b : ℕ)
    → virt2pagetable a ≡ virt2pagetable b
    → virt2page a ≡ virt2page b
    → virt2offset a ≡ virt2offset b
    → a ≡ b
index-injective a b h k l = omega arith

module _ {T : Type 0} (cleared_val : T) where
  -- What a read sees of a directory.
  abbrev pub read : TagDir T → ℕ → Option T
  read dir a = tag_dir_getb_as_ptr cleared_val dir a

  -- The tag at the place of `a` in the tables.
  abbrev tag_at : TagDir T → ℕ → ℕ → ℕ → T
  tag_at dir i j k = elim (dir.table i) [
    | none ↦ cleared_val
    | some table ↦ elim (table j) [ none ↦ cleared_val | some page ↦ page k ]
  ]

  read-eq-tag_at :
      (dir : TagDir T) (a : ℕ)
      → read dir a ≡ (
          if ltb max_addr a
          then none
          else some (tag_at dir (virt2pagetable a) (virt2page a) (virt2offset a)))
  unfolding tag_dir_getb_as_ptr
  read-eq-tag_at dir a = ground arith

  -- A user address can be read, and no other.
  pub read-some : (dir : TagDir T) (a : ℕ) → a ≤ max_addr → (t : T) × (read dir a ≡ some t)
  read-some dir a h = (
    tag_at dir (virt2pagetable a) (virt2page a) (virt2offset a),
    ground (arith, read-eq-tag_at dir a),
  )

  need_table-tag_at :
      (dir dir' : TagDir T) (t : TagTable T) (i : ℕ)
      → need_table dir i ≡ some (t, dir')
      → (dir'.table i ≡ some t) × ((i' j k : ℕ) → tag_at dir' i' j k ≡ tag_at dir i' j k)
  unfolding need_table
  need_table-tag_at dir dir' t i e = (ground arith, λ i' j k. ground arith)

  -- A write through the pointers to the table and the page.
  store_tag-tag_at :
      (dir dir' : TagDir T) (t : TagTable T) (p : TagPage T) (addr : ℕ) (tag : T)
      → dir.table (virt2pagetable addr) ≡ some t
      → need_page cleared_val t (virt2pagetable addr) (virt2page addr) dir ≡ some (p, dir')
      → (i j k : ℕ)
      → tag_at (store_tag t p addr tag dir') i j k ≡ (
          if i == virt2pagetable addr && (j == virt2page addr && k == virt2offset addr)
          then tag
          else tag_at dir i j k)
  unfolding need_page store_tag
  store_tag-tag_at dir dir' t p addr tag h e i j k = ground arith

  same_place :
      (a addr : ℕ)
      → virt2pagetable a == virt2pagetable addr
          && (virt2page a == virt2page addr && virt2offset a == virt2offset addr)
        ≡ a == addr
  same_place a addr = elim (Bool-cases (a == addr)) [
    | inl hit ↦ let e : a ≡ addr = ground arith in rw e (ground arith)
    | inr miss ↦ ground (arith, index-injective a addr)
  ]

  -- A write that was made, in terms of reads.
  store_tag-read :
      (dir dir1 dir2 : TagDir T) (t : TagTable T) (p : TagPage T) (addr : ℕ) (tag : T)
      → addr ≤ max_addr
      → need_table dir (virt2pagetable addr) ≡ some (t, dir1)
      → need_page cleared_val t (virt2pagetable addr) (virt2page addr) dir1 ≡ some (p, dir2)
      → (a : ℕ)
      → read (store_tag t p addr tag dir2) a ≡ (if a == addr then some tag else read dir a)
  store_tag-read dir dir1 dir2 t p addr tag h e1 e2 a = ground (
    arith,
    read-eq-tag_at (store_tag t p addr tag dir2) a,
    read-eq-tag_at dir a,
    need_table-tag_at dir dir1 t (virt2pagetable addr) e1,
    (need_table-tag_at dir dir1 t (virt2pagetable addr) e1).1 (virt2pagetable a) (virt2page a)
        (virt2offset a),
    store_tag-tag_at dir1 dir2 t p addr tag
        (need_table-tag_at dir dir1 t (virt2pagetable addr) e1).0 e2 (virt2pagetable a)
        (virt2page a) (virt2offset a),
    same_place a addr,
  )

  -- A write to `addr`, or nothing if no user address is so high.
  abbrev pub Written : TagDir T → ℕ → T → TagDir T → Type 0
  Written dir addr tag dir' =
      (a : ℕ) → read dir' a ≡ (if a == addr && leb a max_addr then some tag else read dir a)

  high-Written :
      (dir : TagDir T) (addr : ℕ) (tag : T) → ltb max_addr addr ≡ true → Written dir addr tag dir
  high-Written dir addr tag h a = ground arith

  -- The write behind both allocations.
  chain-Written :
      (dir dir' : TagDir T) (addr : ℕ) (tag : T)
      → addr ≤ max_addr
      → (need_table dir (virt2pagetable addr) >>= λ r.
          need_page cleared_val r.0 (virt2pagetable addr) (virt2page addr) r.1 >>= λ r'.
          some (store_tag r.0 r'.0 addr tag r'.1))
        ≡ some dir'
      → Written dir addr tag dir'
  chain-Written dir dir' addr tag h e a =
      let ((t, dir1), e1, e') = >>=-eq-some (need_table dir (virt2pagetable addr)) _ e in
      let ((p, dir2), e2, e'') =
        >>=-eq-some (need_page cleared_val t (virt2pagetable addr) (virt2page addr) dir1) _ e' in
      ground (arith, store_tag-read dir dir1 dir2 t p addr tag h e1 e2 a)

  -- `tag_dir_setb`, where it returns, changes the tag that is read at `addr`, and no other; at an
  -- address above the user space it changes none.
  pub setb-Written :
      (dir dir' : TagDir T) (addr : ℕ) (tag : T)
      → tag_dir_setb cleared_val dir addr tag ≡ some dir'
      → Written dir addr tag dir'
  unfolding tag_dir_setb
  setb-Written dir dir' addr tag e = elim (Bool-cases (ltb max_addr addr)) [
    | inl high ↦ let same : dir' ≡ dir = ground arith in rw same (high-Written dir addr tag high)
    | inr low ↦ chain-Written dir dir' addr tag (ground arith) (rw low at e)
  ]

  -- Writing what is read changes nothing.
  idle-Written :
      (dir : TagDir T) (addr : ℕ) (tag : T)
      → addr ≤ max_addr
      → read dir addr ≡ some tag
      → Written dir addr tag dir
  idle-Written dir addr tag h e a = elim (Bool-cases (a == addr)) [
    | inl hit ↦ let same : a ≡ addr = ground arith in rw same (e ∙ ground arith)
    | inr miss ↦ rw miss
  ]

  no_table-read :
      (dir : TagDir T) (addr : ℕ)
      → addr ≤ max_addr
      → is_null (dir.table (virt2pagetable addr)) ≡ true
      → read dir addr ≡ some cleared_val
  unfolding tag_dir_getb_as_ptr
  no_table-read dir addr h e = ground arith

  no_page-read :
      (dir dir1 : TagDir T) (t : TagTable T) (addr : ℕ)
      → addr ≤ max_addr
      → need_table dir (virt2pagetable addr) ≡ some (t, dir1)
      → is_null (t (virt2page addr)) ≡ true
      → read dir1 addr ≡ some cleared_val
  unfolding tag_dir_getb_as_ptr
  no_page-read dir dir1 t addr h e n =
      ground (arith, (need_table-tag_at dir dir1 t (virt2pagetable addr) e).0)

  need_table-read :
      (dir dir1 : TagDir T) (t : TagTable T) (i a : ℕ)
      → need_table dir i ≡ some (t, dir1)
      → read dir1 a ≡ read dir a
  need_table-read dir dir1 t i a e = ground (
    arith,
    read-eq-tag_at dir1 a,
    read-eq-tag_at dir a,
    (need_table-tag_at dir dir1 t i e).1 (virt2pagetable a) (virt2page a) (virt2offset a),
  )

  module _ (tag_is_empty : T → Bool)
      (empty_eq : (t : T) → tag_is_empty t ≡ true → t ≡ cleared_val) where
    -- The part of it behind the first allocation.
    after_table-Written :
        (dir dir1 dir' : TagDir T) (t : TagTable T) (addr : ℕ) (tag : T)
        → addr ≤ max_addr
        → need_table dir (virt2pagetable addr) ≡ some (t, dir1)
        → (if is_null (t (virt2page addr)) && tag_is_empty tag
            then some dir1
            else need_page cleared_val t (virt2pagetable addr) (virt2page addr) dir1 >>= λ r.
                some (store_tag t r.0 addr tag r.1))
          ≡ some dir'
        → Written dir addr tag dir'
    after_table-Written dir dir1 dir' t addr tag h e1 e a =
        elim (Bool-cases (is_null (t (virt2page addr)) && tag_is_empty tag)) [
          | inl skip ↦
              let same : dir1 ≡ dir' = ground arith in
              let empty : tag ≡ cleared_val = ground (arith, empty_eq tag) in
              let null : is_null (t (virt2page addr)) ≡ true = ground arith in
              rw (← same) (
                idle-Written dir1 addr tag h
                  (no_page-read dir dir1 t addr h e1 null ∙ ap some (sym empty)) a
                ∙ rw (need_table-read dir dir1 t (virt2pagetable addr) a e1))
          | inr go ↦
              let ((p, dir2), e2, e') =
                >>=-eq-some (need_page cleared_val t (virt2pagetable addr) (virt2page addr) dir1) _
                  (rw go at e) in
              ground (arith, store_tag-read dir dir1 dir2 t p addr tag h e1 e2 a)
        ]

    -- If the empty tag is the cleared one, `tag_dir_setb_save_mem`, where it returns, changes the tag
    -- that is read at `addr`, and no other; at an address above the user space it changes none.
    pub setb_save_mem-Written :
        (dir dir' : TagDir T) (addr : ℕ) (tag : T)
        → tag_dir_setb_save_mem cleared_val tag_is_empty dir addr tag ≡ some dir'
        → Written dir addr tag dir'
    unfolding tag_dir_setb_save_mem
    setb_save_mem-Written dir dir' addr tag e = elim (Bool-cases (ltb max_addr addr)) [
      | inl high ↦ let same : dir' ≡ dir = ground arith in rw same (high-Written dir addr tag high)
      | inr low ↦
          let h : addr ≤ max_addr = ground arith in
          elim (Bool-cases (is_null (dir.table (virt2pagetable addr)) && tag_is_empty tag)) [
            | inl skip ↦
                let same : dir ≡ dir' = ground arith in
                let empty : tag ≡ cleared_val = ground (arith, empty_eq tag) in
                let null : is_null (dir.table (virt2pagetable addr)) ≡ true = ground arith in
                rw (← same) (
                  idle-Written dir addr tag h (no_table-read dir addr h null ∙ ap some (sym empty)))
            | inr go ↦
                let ((t, dir1), e1, e') =
                  >>=-eq-some (need_table dir (virt2pagetable addr)) _ (rw (low, go) at e) in
                after_table-Written dir dir1 dir' t addr tag h e1 e'
          ]
    ]

    -- If the empty tag is the cleared one, both variants, where they return, leave the same tags to be
    -- read.
    pub setb_save_mem-eq-setb :
        (dir dir1 dir2 : TagDir T) (addr : ℕ) (tag : T)
        → tag_dir_setb cleared_val dir addr tag ≡ some dir1
        → tag_dir_setb_save_mem cleared_val tag_is_empty dir addr tag ≡ some dir2
        → (a : ℕ) → read dir2 a ≡ read dir1 a
    setb_save_mem-eq-setb dir dir1 dir2 addr tag e1 e2 a =
        setb_save_mem-Written dir dir2 addr tag e2 a ∙ sym (setb-Written dir dir1 addr tag e1 a)
