-- ===== src/Syscall/Read.antt =====
-- `post_read_hook` of src/syscall_hook.cpp, after a `read` that gave some bytes.
use libdft64_ect.Prelude.{
  ℕ, ◌+◌, ◌-◌, ◌*◌, ◌%◌, ◌^◌, ◌≤◌, ◌<◌, ◌≡◌, refl, sym, ap, ◌∙◌, Bool, true, false, ◌&&◌, Option,
  none, some, ltb, leb, ◌==◌, if◌then◌else◌, arith, Bool-cases, inl, inr,
}
use libdft64_ect.Tag.{TagTraits}
use libdft64_ect.Tag.Laws.{TagLaws, AllocLaws}
use libdft64_ect.TagMap.{max_addr}
use libdft64_ect.Machine.{State, Cmd, tagmap_clrn}
use libdft64_ect.Machine.Effect.{Loc, reg, mem, look, to_mem, Became}
use libdft64_ect.Machine.Meaning.{IsState, offsets}
use libdft64_ect.Machine.Join.{Joined, Joined-mono}
use libdft64_ect.Machine.Clear.{tagmap_clrn-clears}
use libdft64_ect.Syscall.{
  SyscallCtx, Kernel, Files, World, to_int, is_fuzzing_fd, clip, on_machine, taint_loop,
  post_read_hook,
}
use libdft64_ect.Syscall.Source.{Sourced, returns, bind, input_at, taint_loop-sets}

module _ {o : TagTraits} (laws : TagLaws o) (allocs : AllocLaws laws) where
  -- The offsets after the bytes of memory from `buf` to `buf + n` lost theirs.
  abbrev pub cleared_at : ℕ → ℕ → State o → Loc → ℕ → Bool
  cleared_at buf n s (reg t q i) k = offsets laws s (reg t q i) k
  cleared_at buf n s (mem a) k =
      if leb buf a && ltb a (buf + n) then false else offsets laws s (mem a) k

  abbrev members : o.Store → ℕ → Option o.Tag → Bool
  members st k x = elim x [ none ↦ false | some t ↦ laws.model.member st t k ]

  offsets_same :
      (s s' : State o) (l : Loc) (k : ℕ)
      → look s' l ≡ look s l
      → s'.store ≡ s.store
      → offsets laws s' l k ≡ offsets laws s l k
  offsets_same s s' l k same store =
      ap (λ x. members s'.store k x) same ∙ ap (λ st. members st k (look s l)) store

  Became-cleared :
      (s s' : State o) (g : laws.model.Ghost) (buf n kk : ℕ)
      → IsState laws s g
      → Became s 0 (to_mem buf n (λ _. some o.cleared_val) s) s'
      → Joined laws s kk (cleared_at buf n s) s'
  Became-cleared s s' g buf n kk w b = record {
    ghost = g;
    wf = record {
      store = rw b.store w.store;
      tags = λ l t e. rw b.store (known l t (sym (b.tags l) ∙ e));
    };
    same = meaning;
    memory = omega (arith, b.memory);
  }
    where
      known :
          (l : Loc) (t : o.Tag)
          → to_mem buf n (λ _. some o.cleared_val) s l ≡ some t
          → laws.model.IsTag s.store g t
      known (reg t' q i) t e = w.tags (reg t' q i) t e
      known (mem a) t e = elim (Bool-cases (leb buf a && ltb a (buf + n))) [
        | inl hit ↦
            let eq : some o.cleared_val ≡ some t = rw hit at e in
            let eq' : o.cleared_val ≡ t = cc in rw (← eq') (laws.cleared_tag s.store g w.store)
        | inr miss ↦ w.tags (mem a) t (rw miss at e)
      ]

      meaning : (l : Loc) (k : ℕ) → offsets laws s' l k ≡ cleared_at buf n s l k
      meaning (reg t q i) k = offsets_same s s' (reg t q i) k (b.tags (reg t q i)) b.store
      meaning (mem a) k = elim (Bool-cases (leb buf a && ltb a (buf + n))) [
        | inl hit ↦
            let here : look s' (mem a) ≡ some o.cleared_val = rw hit at (b.tags (mem a)) in
            rw hit (ap (members s'.store k) here ∙ laws.cleared_none s'.store k)
        | inr miss ↦
            let there : look s' (mem a) ≡ look s (mem a) = rw miss at (b.tags (mem a)) in
            rw miss (offsets_same s s' (mem a) k there b.store)
      ]

  module _ (kernel : Kernel) (tid : ℕ) (ctx : SyscallCtx) (w : World o) where
    -- The descriptor, the buffer, and the first offset of the input that the call has read.
    abbrev pub fd : ℕ
    fd = to_int (ctx.arg 0)

    abbrev pub buf : ℕ
    buf = ctx.arg 1

    abbrev pub first : ℕ
    first =
        if fd == 0
        then w.files.stdin_read_off
        else (kernel.lseek_cur fd + 2 ^ 64 - ctx.ret) % 2 ^ 32

    -- The bytes that get a tag: the buffer, but 32 after those that were read at most.
    abbrev pub count : ℕ
    count = clip (ctx.arg 2) ctx.ret

    abbrev pub offsets_after : Loc → ℕ → Bool
    offsets_after l n =
        if is_fuzzing_fd w.files fd
        then input_at laws allocs buf count first w.machine l n
        else cleared_at buf ctx.ret w.machine l n

    abbrev pub files_after : Files
    files_after =
        if is_fuzzing_fd w.files fd
        then record w.files {
          tainted = true;
          stdin_read_off =
              if fd == 0
              then (w.files.stdin_read_off + ctx.ret) % 2 ^ 32
              else w.files.stdin_read_off;
        }
        else w.files

    -- What is left after the hook.
    pub record ReadDone (r : World o) : Type 0 where
      pub machine : Joined laws w.machine (2 * count) offsets_after r.machine
      pub files : r.files ≡ files_after

    tainted_run :
        (files : Files) (m : Cmd o (Unit {0})) (f : Loc → ℕ → Bool)
        → Sourced laws allocs (λ r. Joined laws w.machine (2 * count) f r.1) (m w.machine)
        → ((l : Loc) (n : ℕ) → f l n ≡ offsets_after l n)
        → files ≡ files_after
        → Sourced laws allocs ReadDone (on_machine files m w.machine)
    tainted_run files m f run same e = bind laws allocs run λ r j. returns record {
      machine = Joined-mono laws w.machine r.1 (2 * count) (2 * count) f offsets_after same refl j;
      files = e;
    }

    module _ (g : laws.model.Ghost) (wf : IsState laws w.machine g)
        (cleared : o.tag_is_empty o.cleared_val ≡ true) (some_read : 0 < ctx.ret)
        (read_le : ctx.ret ≤ ctx.arg 2) (fits : ctx.arg 2 ≤ max_addr)
        (user : buf + ctx.arg 2 ≤ max_addr + 1) (short : count < 2 ^ 32)
        (below : first + count ≤ allocs.limit) (room : 2 * count ≤ w.machine.dir.mem_left) where
      -- The loop sets all that was read, and nothing behind the buffer.
      ret_le : ctx.ret ≤ count
      ret_le = ground arith

      count_le : count ≤ ctx.arg 2
      count_le = ground arith

      -- After a `read` that gave some bytes into a buffer in user memory, `post_read_hook` gives the
      -- buffer, up to 32 bytes behind those that were read, the offsets of the input from the first that
      -- was read on, notes the taint and moves the offset of standard input on, if the descriptor is one
      -- of the input, and otherwise clears the bytes that were read and notes nothing; the offsets of all
      -- else stay, and the state is well formed, if it was so, there are fewer than two to the 32nd bytes
      -- to tag, all of their offsets have tags, there is memory for the pages and the cleared tag is
      -- empty. It fails only where the tag library has no tag for an offset.
      pub post_read_hook-ReadDone : Sourced laws allocs ReadDone (post_read_hook kernel tid ctx w)
      unfolding post_read_hook
      post_read_hook-ReadDone =
          let positive : ctx.ret == 0 ≡ false = ground arith in
          elim (Bool-cases (is_fuzzing_fd w.files fd)) [
            | inl source ↦
                rw (positive, source)
                  (tainted_run _ (taint_loop count buf first tid)
                    (input_at laws allocs buf count first w.machine)
                    (taint_loop-sets laws allocs w.machine g wf count buf first tid
                      (omega (arith, count_le)) short below room)
                    (λ l n. rw source refl) (rw source refl))
            | inr other ↦
                rw (positive, other)
                  (let (s', e, b) =
                      tagmap_clrn-clears w.machine buf ctx.ret laws.empty_eq cleared
                        (omega arith) in
                    let all : ctx.ret % 2 ^ 32 ≡ ctx.ret = omega (arith, ret_le, short) in
                    tainted_run w.files (tagmap_clrn buf (ctx.ret % 2 ^ 32))
                      (cleared_at buf ctx.ret w.machine)
                      (rw (all, e)
                        (returns (Became-cleared w.machine s' g buf ctx.ret (2 * count) wf b)))
                      (λ l n. rw other refl) (rw other refl))
          ]
