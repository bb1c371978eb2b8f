-- ===== src/Machine.antt =====
-- The process state that the analysis functions share, `tag_dir` and `threads_ctx` of
-- src/tagmap.cpp and src/libdft_api.h, and the functions of src/tagmap.cpp on it.
pub mod Loop
pub mod Effect
pub mod Clear
pub mod Meaning
pub mod Getn
pub mod Join
use libdft64_ect.Prelude.{
  ℕ, zero, suc, ◌+◌, ◌-◌, ◌%◌, ◌^◌, Option, none, some, ◌&&◌, ltb, ◌==◌, if◌then◌else◌,
}
use libdft64_ect.Prelude.{◌>>=◌ as and_then}
use libdft64_ect.Tag.{TagTraits}
use libdft64_ect.TagMap.{TagDir, tag_dir_setb_save_mem, tag_dir_getb_as_ptr}

-- `gpr tid reg off` is `threads_ctx[tid].vcpu.gpr[reg][off]`; `store` is the state of the tag
-- library.
pub record State (o : TagTraits) : Type 0 where
  pub gpr : ℕ → ℕ → ℕ → o.Tag
  pub dir : TagDir o.Tag
  pub store : o.Store

-- `none` is the end of the process: a null pointer that is read, `libdft_die`, or a fault of the
-- tag library.
abbrev pub Cmd : TagTraits → Type 0 → Type 0
Cmd o A = State o → Option (A × State o)

-- `ADDRINT` addition.
abbrev pub add64 : ℕ → ℕ → ℕ
add64 a b = (a + b) % 2 ^ 64

-- The register file after a write.
abbrev pub write_reg : {T : Type 0} → (ℕ → ℕ → ℕ → T) → ℕ → ℕ → ℕ → T → ℕ → ℕ → ℕ → T
write_reg gpr tid reg off tag t r i = if t == tid && (r == reg && i == off) then tag else gpr t r i

module _ {o : TagTraits} where
  abbrev pub pure : {A : Type 0} → A → Cmd o A
  pure a s = some (a, s)

  infixl 5 ◌>>=◌ ◌>>◌
  abbrev pub ◌>>=◌ : {A B : Type 0} → Cmd o A → (A → Cmd o B) → Cmd o B
  ◌>>=◌ m f s = and_then (m s) (λ r. f r.0 r.1)

  abbrev pub ◌>>◌ : {B : Type 0} → Cmd o (Unit {0}) → Cmd o B → Cmd o B
  m >> k = m >>= λ _. k

  -- `for (i = from; rounds > 0; i++, rounds--) body(i)`.
  unfoldable pub for_up : ℕ → ℕ → (ℕ → Cmd o (Unit {0})) → Cmd o (Unit {0})
  for_up zero i body = pure tt
  for_up (suc rounds) i body = body i >> for_up rounds (i + 1) body

  unfoldable pub tagmap_getb_reg : ℕ → ℕ → ℕ → Cmd o o.Tag
  tagmap_getb_reg tid reg off s = some (s.gpr tid reg off, s)

  unfoldable pub tagmap_setb_reg : ℕ → ℕ → ℕ → o.Tag → Cmd o (Unit {0})
  tagmap_setb_reg tid reg off tag s = some (tt, record s { gpr = write_reg s.gpr tid reg off tag })

  -- `*tag_dir_getb_as_ptr(tag_dir, addr)`.
  unfoldable pub tagmap_getb : ℕ → Cmd o o.Tag
  tagmap_getb addr s =
      and_then (tag_dir_getb_as_ptr o.cleared_val s.dir addr) (λ tag. some (tag, s))

  unfoldable pub tagmap_setb : ℕ → o.Tag → Cmd o (Unit {0})
  tagmap_setb addr tag s =
      and_then (tag_dir_setb_save_mem o.cleared_val o.tag_is_empty s.dir addr tag)
        (λ dir. some (tt, record s { dir = dir }))

  unfoldable pub combine : o.Tag → o.Tag → ℕ → Cmd o o.Tag
  combine a b tid s =
      and_then (o.tag_combine a b tid s.store) (λ r. some (r.0, record s { store = r.1 }))

  -- `tag_alloc<tag_t>(offset, tid)`.
  unfoldable pub alloc : ℕ → ℕ → Cmd o o.Tag
  alloc offset tid s =
      and_then (o.tag_alloc offset tid s.store) (λ r. some (r.0, record s { store = r.1 }))

  unfoldable pub tagmap_clrb : ℕ → Cmd o (Unit {0})
  unfolding tagmap_setb
  tagmap_clrb addr = tagmap_setb addr o.cleared_val

  -- `for (i = addr; i < addr + n; i++)`, where `addr + n` may wrap.
  unfoldable pub tagmap_clrn : ℕ → ℕ → Cmd o (Unit {0})
  unfolding for_up tagmap_clrb
  tagmap_clrn addr n = for_up (add64 addr n - addr) addr tagmap_clrb

  -- The loops of `tagmap_getn` and `tagmap_getn_reg`: `rounds` bytes from the `i`th on.
  unfoldable pub getn_loop : ℕ → ℕ → (ℕ → Cmd o o.Tag) → o.Tag → Cmd o o.Tag
  unfolding combine
  getn_loop zero i get ts = pure ts
  getn_loop (suc rounds) i get ts = get i >>= λ t.
      (if o.tag_is_empty t then pure ts else combine ts t 0) >>= getn_loop rounds (i + 1) get

  unfoldable pub tagmap_getn : ℕ → ℕ → Cmd o o.Tag
  unfolding getn_loop tagmap_getb
  tagmap_getn addr n = getn_loop n 0 (λ i. tagmap_getb (add64 addr i)) o.cleared_val

  unfoldable pub tagmap_getn_reg : ℕ → ℕ → ℕ → Cmd o o.Tag
  unfolding getn_loop tagmap_getb_reg
  tagmap_getn_reg tid reg n = getn_loop n 0 (tagmap_getb_reg tid reg) o.cleared_val
