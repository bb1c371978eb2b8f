-- ===== src/Syscall/Notify.antt =====
-- The notifications of src/libdft_api.cpp before and after a system call, `sysenter_save` and
-- `sysexit_save`, and the descriptors of src/syscall_desc.h.
use libdft64_ect.Prelude.{
  ℕ, ◌-◌, ◌%◌, ◌^◌, Bool, ◌&&◌, Option, none, some, ltb, leb, ◌==◌, not, if◌then◌else◌,
}
use libdft64_ect.Prelude.{◌>>=◌ as and_then}
use libdft64_ect.Tag.{TagTraits}
use libdft64_ect.Machine.{Cmd, pure, for_up, tagmap_clrn}
use libdft64_ect.Syscall.{SyscallCtx, World, on_machine, is_negative, to_int}

-- A callback gets the thread and the context of the call.
abbrev pub Callback : TagTraits → Type 0
Callback o = ℕ → SyscallCtx → World o → Option (World o)

-- `syscall_desc_t`; a null pointer to a callback is `none`.
pub record SyscallDesc (o : TagTraits) : Type 0 where
  pub nargs : ℕ
  pub save_args : ℕ
  pub retval_args : ℕ
  pub map_args : ℕ → ℕ
  pub pre : Option (Callback o)
  pub post : Option (Callback o)

-- The context that a thread keeps from the entry of a call to its exit: the number, an `int`, and
-- the arguments and result.
pub record Saved : Type 0 where
  pub nr : ℕ
  pub ctx : SyscallCtx

-- `threads_ctx[tid].syscall_ctx`, and what the callbacks change.
pub record Session (o : TagTraits) : Type 0 where
  pub saved : ℕ → Saved
  pub world : World o

-- The switch on the number of arguments: none of more than six.
abbrev pub save_arguments : ℕ → (ℕ → ℕ) → SyscallCtx → SyscallCtx
save_arguments nargs args ctx = record ctx {
  arg = λ i. if leb nargs 6 && ltb i nargs then args i else ctx.arg i;
}

module _ {o : TagTraits} where
  -- `save_args | retval_args` is not 0.
  abbrev pub is_saved : SyscallDesc o → Bool
  is_saved desc = not (desc.save_args == 0 && desc.retval_args == 0)

  abbrev pub set_saved : ℕ → Saved → Session o → Session o
  set_saved tid saved session = record session {
    saved = λ t. if t == tid then saved else session.saved t;
  }

  -- A callback, if there is one.
  abbrev pub run_callback : Option (Callback o) → ℕ → Session o → Option (Session o)
  run_callback callback tid session = elim callback [
    | none ↦ some session
    | some fn ↦
        and_then (fn tid (session.saved tid).ctx session.world)
          (λ w. some (record session { world = w }))
  ]

  -- `syscall_nr` and `args` are what Pin gives; `max` is `SYSCALL_MAX`. The number -1 is a hint for
  -- `sysexit_save`.
  unfoldable pub sysenter_save :
      ℕ → (ℕ → SyscallDesc o) → ℕ → ℕ → (ℕ → ℕ) → Session o → Option (Session o)
  sysenter_save max table tid syscall_nr args session =
      let old = session.saved tid in
      let desc = table syscall_nr in
      if leb max syscall_nr
      then some (set_saved tid (record old { nr = 2 ^ 32 - 1 }) session)
      else if is_saved desc
      then run_callback desc.pre tid (
          set_saved tid
            (record { nr = to_int syscall_nr; ctx = save_arguments desc.nargs args old.ctx })
            session)
      else some (set_saved tid (record old { nr = to_int syscall_nr }) session)

  -- The default handling of one argument. The `size_t` of the map becomes a `UINT32` at the call.
  unfoldable pub clear_argument : SyscallDesc o → (ℕ → ℕ) → ℕ → Cmd o (Unit {0})
  unfolding tagmap_clrn
  clear_argument desc arg i =
      if ltb 0 (desc.map_args i) && not (arg i == 0)
      then tagmap_clrn (arg i) (desc.map_args i % 2 ^ 32)
      else pure tt

  unfoldable pub clear_arguments : SyscallDesc o → (ℕ → ℕ) → Cmd o (Unit {0})
  unfolding for_up clear_argument
  clear_arguments desc arg = for_up desc.nargs 0 (clear_argument desc arg)

  -- The callback, or else the default handling of the arguments. The test of the result is one of an
  -- unsigned word, as in the source.
  unfoldable pub post_or_clear :
      Option (Callback o) → SyscallDesc o → ℕ → SyscallCtx → Session o → Option (Session o)
  unfolding clear_arguments
  post_or_clear (some fn) desc tid ctx session = run_callback (some fn) tid session
  post_or_clear none desc tid ctx session =
      if ltb ctx.ret 0
      then some session
      else and_then
          (on_machine session.world.files (clear_arguments desc ctx.arg) session.world.machine)
          (λ w. some (record session { world = w }))

  -- The exit of the call that the thread has saved; `ret` is what Pin gives.
  unfoldable pub exit_saved : (ℕ → SyscallDesc o) → ℕ → ℕ → Saved → Session o → Option (Session o)
  unfolding post_or_clear
  exit_saved table tid ret saved session =
      if is_negative saved.nr
      then some session
      else if is_saved (table saved.nr)
      then (let ctx : SyscallCtx = record { arg = saved.ctx.arg; ret = ret } in
          post_or_clear (table saved.nr).post (table saved.nr) tid ctx
            (set_saved tid (record saved { ctx = ctx }) session))
      else some session

  unfoldable pub sysexit_save : (ℕ → SyscallDesc o) → ℕ → ℕ → Session o → Option (Session o)
  unfolding exit_saved
  sysexit_save table tid ret session = exit_saved table tid ret (session.saved tid) session
