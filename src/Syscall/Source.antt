-- ===== src/Syscall/Source.antt =====
-- The taint source: `read` of the input in src/syscall_hook.cpp.
use libdft64_ect.Prelude.{
  ℕ, zero, suc, ◌+◌, ◌-◌, ◌*◌, ◌%◌, ◌^◌, ◌≤◌, ◌<◌, ◌≡◌, refl, ◌∙◌, Bool, true, false, ◌&&◌, Option,
  none, some, ltb, leb, ◌==◌, if◌then◌else◌, arith, Bool-cases, Option-cases, inl, inr,
}
use libdft64_ect.Prelude.{◌>>=◌ as and_then}
use libdft64_ect.Tag.{TagTraits}
use libdft64_ect.Tag.Laws.{TagLaws, AllocLaws}
use libdft64_ect.TagMap.{max_addr}
use libdft64_ect.Machine.{State, Cmd, add64, alloc, tagmap_setb, for_up, ◌>>=◌}
use libdft64_ect.Machine.Effect.{Loc, reg, mem, look, to_mem, Became, setb-Ends}
use libdft64_ect.Machine.Meaning.{IsState, offsets, same_loc}
use libdft64_ect.Machine.Join.{Joined, Joined-mono, with_offsets, written-Joined}
use libdft64_ect.Syscall.{taint_loop}

module _ {o : TagTraits} (laws : TagLaws o) (allocs : AllocLaws laws) where
  -- The library has no tag for an offset in a well-formed store.
  pub record NoTag : Type 0 where
    pub st : o.Store
    pub ghost : laws.model.Ghost
    pub store : laws.model.IsStore st ghost
    pub offset : ℕ
    pub below : offset < allocs.limit
    pub tid : ℕ
    pub fails : o.tag_alloc offset tid st ≡ none

  -- A run that returns with `P`, or ends because the library has no tag for an offset.
  pub data Sourced {A : Type 0} (P : A → Type 0) : Option A → Type 0 where
    returns : {r : A} → P r → Sourced P (some r)
    fails : NoTag → Sourced P none

  pub bind :
      {A B : Type 0} {P : A → Type 0} {Q : B → Type 0} {x : Option A} {k : A → Option B}
      → Sourced P x
      → ((r : A) → P r → Sourced Q (k r))
      → Sourced Q (and_then x k)
  bind (returns p) next = next _ p
  bind (fails f) next = fails f

  -- The offsets after the bytes of memory from `buf` to `buf + n` became those of the input from
  -- `read_off` on.
  abbrev pub input_at : ℕ → ℕ → ℕ → State o → Loc → ℕ → Bool
  input_at buf n read_off s (reg t q i) k = offsets laws s (reg t q i) k
  input_at buf n read_off s (mem a) k =
      if leb buf a && ltb a (buf + n) then k == read_off + (a - buf) else offsets laws s (mem a) k

  module _ (s : State o) (tid buf read_off : ℕ) where
    byte_set :
        (i : ℕ) (s' : State o)
        → buf + i ≤ max_addr
        → read_off + i < allocs.limit
        → 2 ≤ s'.dir.mem_left
        → Joined laws s (2 * i) (input_at buf i read_off s) s'
        → Sourced
            (λ r. Joined laws s (2 * (i + 1)) (input_at buf (i + 1) read_off s) r.1)
            ((alloc (read_off + i) tid >>= tagmap_setb (buf + i)) s')
    unfolding alloc
    byte_set i s' h below room j = elim (Option-cases (o.tag_alloc (read_off + i) tid s'.store)) [
      | inl e ↦ rw e (
          fails (record {
            st = s'.store;
            ghost = j.ghost;
            store = j.wf.store;
            offset = read_off + i;
            below = below;
            tid = tid;
            fails = e;
          }))
      | inr (r, e) ↦
          let u = allocs.alloc_ok s'.store j.ghost (read_off + i) tid r j.wf.store below e in
          let mid : State o = record s' { store = r.1 } in
          let (after, e', b) = setb-Ends mid (buf + i) r.0 2 laws.empty_eq h (ground arith) room in
          rw (e, e')
            (returns (
              Joined-mono laws s after (2 * i + 2) (2 * (i + 1)) _ _ next (omega arith) (
                written-Joined laws s s' after (2 * i) (2 * i + 2) (input_at buf i read_off s)
                  (mem (buf + i)) (λ n. n == read_off + i) r.0 j (rw (← b.store) at u)
                  (tags r after b) (omega (arith, b.memory, j.memory)))))
    ]
      where
        tags :
            (r : o.Tag × o.Store) (after : State o)
            → Became
                (record s' { store = r.1 })
                2
                (to_mem (buf + i) 1 (λ _. some r.0) (record s' { store = r.1 }))
                after
            → (l : Loc)
            → look after l ≡ (if same_loc l (mem (buf + i)) then some r.0 else look s' l)
        tags r after b (reg t q x) = b.tags (reg t q x)
        tags r after b (mem x) = b.tags (mem x) ∙ ground arith

        next :
            (l : Loc) (k : ℕ)
            → with_offsets (mem (buf + i)) (λ n. n == read_off + i) (input_at buf i read_off s) l k
              ≡ input_at buf (i + 1) read_off s l k
        next (reg t q x) k = refl
        next (mem x) k = elim (Bool-cases (x == buf + i)) [
          | inl hit ↦
              let same : x ≡ buf + i = ground arith in
              let at : buf + i - buf ≡ i = omega arith in rw (same, at) (ground arith)
          | inr miss ↦ ground arith
        ]

    -- The body of the loop at byte `i`: neither addition wraps.
    loop_body : ℕ → Cmd o (Unit {0})
    unfolding alloc tagmap_setb
    loop_body i = alloc ((read_off + i) % 2 ^ 32) tid >>= λ t. tagmap_setb (add64 buf i) t

    loop_body-eq :
        (i : ℕ) (s' : State o)
        → buf + i ≤ max_addr
        → read_off + i < allocs.limit
        → loop_body i s' ≡ (alloc (read_off + i) tid >>= tagmap_setb (buf + i)) s'
    unfolding loop_body
    loop_body-eq i s' h below =
        let offset : (read_off + i) % 2 ^ 32 ≡ read_off + i = omega (arith, allocs.small) in
        let address : add64 buf i ≡ buf + i = omega arith in rw (offset, address) refl

    loop_sets :
        (count rounds i : ℕ) (s' : State o)
        → i + rounds ≡ count
        → buf + count ≤ max_addr + 1
        → read_off + count ≤ allocs.limit
        → 2 * count ≤ s.dir.mem_left
        → Joined laws s (2 * i) (input_at buf i read_off s) s'
        → Sourced
            (λ r. Joined laws s (2 * count) (input_at buf count read_off s) r.1)
            (for_up rounds i loop_body s')
    unfolding for_up
    loop_sets count zero i s' e h below room j =
        let e' : i ≡ count = omega arith in returns (rw (← e') j)
    loop_sets count (suc rounds) i s' e h below room j =
        rw (loop_body-eq i s' (omega arith) (omega arith)) (
          bind (byte_set i s' (omega arith) (omega arith) (omega (arith, j.memory)) j)
            λ r j'. loop_sets count rounds (i + 1) r.1 (omega arith) h below room j')

  module _ (s : State o) (g : laws.model.Ghost) (w : IsState laws s g) where
    begun : (buf read_off : ℕ) → Joined laws s (2 * 0) (input_at buf 0 read_off s) s
    begun buf read_off = record { ghost = g; wf = w; same = before; memory = omega arith }
      where
        before : (l : Loc) (n : ℕ) → offsets laws s l n ≡ input_at buf 0 read_off s l n
        before (reg t q x) n = refl
        before (mem x) n =
            let never : (leb buf x && ltb x (buf + 0)) ≡ false = ground arith in rw never refl

    -- The loop sets the tags of `count` bytes to those of the offsets from `read_off` on.
    pub taint_loop-sets :
        (count buf read_off tid : ℕ)
        → buf + count ≤ max_addr + 1
        → count < 2 ^ 32
        → read_off + count ≤ allocs.limit
        → 2 * count ≤ s.dir.mem_left
        → Sourced
            (λ r. Joined laws s (2 * count) (input_at buf count read_off s) r.1)
            (taint_loop count buf read_off tid s)
    unfolding taint_loop loop_body
    taint_loop-sets count buf read_off tid h short below room =
        let ends : leb count (2 ^ 32 - 1) ≡ true = ground arith in
        rw ends (
          loop_sets s tid buf read_off count count 0 s (omega arith) h below room
            (begun buf read_off))
