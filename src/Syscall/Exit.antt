-- ===== src/Syscall/Exit.antt =====
-- A system call without callbacks, from `sysenter_save` to `sysexit_save` of src/libdft_api.cpp.
use libdft64_ect.Prelude.{
  ℕ, zero, suc, ◌+◌, ◌%◌, ◌^◌, ◌≤◌, ◌<◌, ◌≡◌, refl, ◌∙◌, Bool, true, false, ◌&&◌, ◌||◌, not, Option,
  none, some, ltb, leb, ◌==◌, if◌then◌else◌, arith, Bool-cases, inl, inr,
}
use libdft64_ect.Prelude.{◌>>=◌ as and_then}
use libdft64_ect.Tag.{TagTraits}
use libdft64_ect.TagMap.{max_addr}
use libdft64_ect.Machine.{State}
use libdft64_ect.Machine.Loop.{Ends, for_up-Ends}
use libdft64_ect.Machine.Effect.{Loc, reg, mem, look, to_mem, Became, EmptyIsCleared}
use libdft64_ect.Machine.Clear.{tagmap_clrn-clears}
use libdft64_ect.Syscall.{SyscallCtx}
use libdft64_ect.Syscall.Notify.{
  SyscallDesc, Saved, Session, is_saved, set_saved, save_arguments, clear_argument, clear_arguments,
  sysenter_save, sysexit_save,
}

module _ {o : TagTraits} (desc : SyscallDesc o) (args : ℕ → ℕ) where
  -- The byte at `a` is one that argument `i` points to.
  abbrev pub is_written : ℕ → ℕ → Bool
  is_written i a =
      (ltb 0 (desc.map_args i) && not (args i == 0))
      && (leb (args i) a && ltb a (args i + desc.map_args i))

  -- The same for the first `n` arguments.
  abbrev pub any_written : ℕ → ℕ → Bool
  any_written zero a = false
  any_written (suc n) a = any_written n a || is_written n a

  abbrev pub cleared_args : ℕ → State o → Loc → Option o.Tag
  cleared_args n s (reg t q i) = look s (reg t q i)
  cleared_args n s (mem a) = if any_written n a then some o.cleared_val else look s (mem a)

  module _ (s : State o) (empty_eq : EmptyIsCleared o)
      (cleared : o.tag_is_empty o.cleared_val ≡ true)
      (user : (i : ℕ) → i < desc.nargs → args i + desc.map_args i ≤ max_addr + 1)
      (short : (i : ℕ) → i < desc.nargs → desc.map_args i < 2 ^ 32) where
    next_arg :
        (i : ℕ) (s' : State o)
        → i < desc.nargs
        → Became s 0 (cleared_args i s) s'
        → Ends (Became s 0 (cleared_args (suc i) s)) s' (clear_argument desc args i)
    unfolding clear_argument
    next_arg i s' h b = elim (Bool-cases (ltb 0 (desc.map_args i) && not (args i == 0))) [
      | inl does ↦
          let (s2, e, b2) =
            tagmap_clrn-clears s' (args i) (desc.map_args i) empty_eq cleared (user i h) in
          let whole : desc.map_args i % 2 ^ 32 ≡ desc.map_args i = omega (arith, short i h) in
          rw (does, whole)
            (
              s2,
              e,
              record {
                tags = after s2 does b2.tags;
                store = b2.store ∙ b.store;
                memory = omega (arith, b.memory, b2.memory);
              },
            )
      | inr not_it ↦
          rw not_it (s', refl, record { tags = stays not_it; store = b.store; memory = b.memory })
    ]
      where
        after :
            (s2 : State o)
            → (ltb 0 (desc.map_args i) && not (args i == 0)) ≡ true
            → ((l : Loc)
                → look s2 l ≡ to_mem (args i) (desc.map_args i) (λ _. some o.cleared_val) s' l)
            → (l : Loc) → look s2 l ≡ cleared_args (suc i) s l
        after s2 does tags (reg t q x) = tags (reg t q x) ∙ b.tags (reg t q x)
        after s2 does tags (mem a) = tags (mem a) ∙ ground (arith, b.tags (mem a))

        stays :
            (ltb 0 (desc.map_args i) && not (args i == 0)) ≡ false
            → (l : Loc) → look s' l ≡ cleared_args (suc i) s l
        stays not_it (reg t q x) = b.tags (reg t q x)
        stays not_it (mem a) = b.tags (mem a) ∙ ground arith

    pub clear_arguments-Ends :
        Ends (Became s 0 (cleared_args desc.nargs s)) s (clear_arguments desc args)
    unfolding clear_arguments
    clear_arguments-Ends =
        for_up-Ends (λ i. Became s 0 (cleared_args i s)) (clear_argument desc args) desc.nargs
          (λ i s' h b. let e : suc i ≡ i + 1 = omega arith in rw e at (next_arg i s' h b))
          desc.nargs 0 s (omega arith) record { tags = start; store = refl; memory = omega arith }
      where
        start : (l : Loc) → look s l ≡ cleared_args 0 s l
        start (reg t q x) = refl
        start (mem a) = refl

module _ {o : TagTraits} (max tid nr ret : ℕ) (table : ℕ → SyscallDesc o) (args : ℕ → ℕ)
    (session : Session o) where
  -- The entry and the exit of a call.
  abbrev pub whole_call : Option (Session o)
  whole_call =
      and_then (sysenter_save max table tid nr args session) (λ t. sysexit_save table tid ret t)

  -- The bytes that the arguments point to have lost their tags.
  pub record CallDone (t : Session o) : Type 0 where
    pub machine :
        Became session.world.machine 0
          (cleared_args (table nr) args (table nr).nargs session.world.machine)
          t.world.machine
    pub files : t.world.files ≡ session.world.files

  module _ (succeeded : ret < 2 ^ 63) (known : nr < max) (small : nr < 2 ^ 31)
      (nargs_le : (table nr).nargs ≤ 6) (saved : is_saved (table nr) ≡ true)
      (no_pre : (table nr).pre ≡ none) (no_post : (table nr).post ≡ none)
      (empty_eq : EmptyIsCleared o) (cleared : o.tag_is_empty o.cleared_val ≡ true)
      (user : (i : ℕ) → i < (table nr).nargs → args i + (table nr).map_args i ≤ max_addr + 1)
      (short : (i : ℕ) → i < (table nr).nargs → (table nr).map_args i < 2 ^ 32) where
    -- The context and the session after the result is known.
    abbrev with_ret : SyscallCtx → SyscallCtx
    with_ret ctx = record { arg = ctx.arg; ret = ret }

    abbrev after_ret : SyscallCtx → Session o → Session o
    after_ret ctx t = set_saved tid (record { nr = nr; ctx = with_ret ctx }) t

    abbrev in_call : Saved
    in_call = record { nr = nr; ctx = save_arguments (table nr).nargs args (session.saved tid).ctx }
