-- ===== src/Syscall.antt =====
-- The hooks of src/syscall_hook.cpp, which run after system calls on files.
pub mod Source
pub mod Read
pub mod Notify
pub mod Exit
mod Tests
use libdft64_ect.Prelude.{
  ℕ, ◌+◌, ◌-◌, ◌%◌, ◌/◌, ◌^◌, Bool, true, false, not, ◌&&◌, ◌||◌, Option, none, some, ltb, leb,
  ◌==◌, if◌then◌else◌,
}
use libdft64_ect.Prelude.{◌>>=◌ as and_then}
use libdft64_ect.Tag.{TagTraits}
use libdft64_ect.Machine.{State, Cmd, pure, add64, ◌>>=◌, for_up, alloc, tagmap_setb, tagmap_clrn}

-- `syscall_ctx_t`: words of 64 bits.
pub record SyscallCtx : Type 0 where
  pub arg : ℕ → ℕ
  pub ret : ℕ

-- What the hooks ask of the process: whether the string at an address has the name of the input in
-- it, and `lseek(fd, 0, SEEK_CUR)`.
pub record Kernel : Type 0 where
  pub names_input : ℕ → Bool
  pub lseek_cur : ℕ → ℕ

-- The variables of src/syscall_hook.cpp. A file descriptor is an `int`, here a word of 32 bits.
pub record Files : Type 0 where
  pub fuzzing_fd_set : ℕ → Bool
  pub stdin_read_off : ℕ
  pub tainted : Bool

-- The conversion to `int`, and whether it is negative.
abbrev pub to_int : ℕ → ℕ
to_int x = x % 2 ^ 32

abbrev pub is_negative : ℕ → Bool
is_negative fd = leb (2 ^ 31) fd

abbrev pub is_fuzzing_fd : Files → ℕ → Bool
is_fuzzing_fd files fd = fd == 0 || files.fuzzing_fd_set fd

pub add_fuzzing_fd : ℕ → Files → Files
add_fuzzing_fd fd files =
    if ltb 0 fd && not (is_negative fd)
    then record files { fuzzing_fd_set = λ x. if x == fd then true else files.fuzzing_fd_set x }
    else files

pub remove_fuzzing_fd : ℕ → Files → Files
remove_fuzzing_fd fd files = record files {
  fuzzing_fd_set = λ x. if x == fd then false else files.fuzzing_fd_set x;
}

module _ (kernel : Kernel) where
  pub post_open_hook : SyscallCtx → Files → Files
  unfolding add_fuzzing_fd
  post_open_hook ctx files =
      let fd = to_int ctx.ret in
      if is_negative fd
      then files
      else if kernel.names_input (ctx.arg 0)
      then add_fuzzing_fd fd files
      else files

  pub post_openat_hook : SyscallCtx → Files → Files
  unfolding add_fuzzing_fd
  post_openat_hook ctx files =
      if kernel.names_input (ctx.arg 1) then add_fuzzing_fd (to_int ctx.ret) files else files

pub post_dup_hook : SyscallCtx → Files → Files
unfolding add_fuzzing_fd
post_dup_hook ctx files =
    let ret = to_int ctx.ret in
    if is_negative ret
    then files
    else if is_fuzzing_fd files (to_int (ctx.arg 0))
    then add_fuzzing_fd ret files
    else files

pub post_dup2_hook : SyscallCtx → Files → Files
unfolding add_fuzzing_fd
post_dup2_hook ctx files =
    if is_negative (to_int ctx.ret)
    then files
    else if is_fuzzing_fd files (to_int (ctx.arg 0))
    then add_fuzzing_fd (to_int (ctx.arg 1)) files
    else files

pub post_close_hook : SyscallCtx → Files → Files
unfolding remove_fuzzing_fd
post_close_hook ctx files =
    let fd = to_int (ctx.arg 0) in
    if leb (2 ^ 63) ctx.ret
    then files
    else if is_fuzzing_fd files fd
    then remove_fuzzing_fd fd files
    else files

-- The variables of the hooks and the state of the tag map.
pub record World (o : TagTraits) : Type 0 where
  pub files : Files
  pub machine : State o

-- `if (count > nr + 32) count = nr + 32;`.
abbrev pub clip : ℕ → ℕ → ℕ
clip count nr = if ltb (add64 nr 32) count then add64 nr 32 else count

module _ {o : TagTraits} where
  abbrev pub on_machine : Files → Cmd o (Unit {0}) → State o → Option (World o)
  on_machine files m s = and_then (m s) (λ r. some (record { files = files; machine = r.1 }))

  -- The loop that sets the tags of `count` bytes. Its variable is an `unsigned int`, which never gets
  -- to a larger count; `none` is the loop that does not end.
  unfoldable pub taint_loop : ℕ → ℕ → ℕ → ℕ → Cmd o (Unit {0})
  unfolding for_up alloc tagmap_setb
  taint_loop count buf read_off tid =
      if leb count (2 ^ 32 - 1)
      then for_up count 0
          (λ i. alloc ((read_off + i) % 2 ^ 32) tid >>= λ t. tagmap_setb (add64 buf i) t)
      else λ s. none

  -- The `size_t` of the result is 0 or above it, so a failed call, whose result is -1, goes on.
  unfoldable pub post_read_hook : Kernel → ℕ → SyscallCtx → World o → Option (World o)
  unfolding taint_loop tagmap_clrn
  post_read_hook kernel tid ctx w =
      let nr = ctx.ret in
      let fd = to_int (ctx.arg 0) in
      let buf = ctx.arg 1 in
      let stdin = fd == 0 in
      let read_off =
        if stdin then w.files.stdin_read_off else (kernel.lseek_cur fd + 2 ^ 64 - nr) % 2 ^ 32 in
      if nr == 0
      then some w
      else if is_fuzzing_fd w.files fd
      then on_machine
          (record w.files {
            tainted = true;
            stdin_read_off =
                if stdin then (w.files.stdin_read_off + nr) % 2 ^ 32 else w.files.stdin_read_off;
          })
          (taint_loop (clip (ctx.arg 2) nr) buf read_off tid) w.machine
      else on_machine w.files (tagmap_clrn buf (nr % 2 ^ 32)) w.machine

  unfoldable pub post_pread64_hook : ℕ → SyscallCtx → World o → Option (World o)
  unfolding taint_loop tagmap_clrn
  post_pread64_hook tid ctx w =
      let nr = ctx.ret in
      let count = ctx.arg 2 in
      let buf = ctx.arg 1 in
      if nr == 0
      then some w
      else if is_fuzzing_fd w.files (to_int (ctx.arg 0))
      then on_machine (record w.files { tainted = true })
          (taint_loop (clip count nr) buf (ctx.arg 3 % 2 ^ 32) tid) w.machine
      else on_machine w.files (tagmap_clrn buf (count % 2 ^ 32)) w.machine

  -- `PROT_READ` is the lowest bit of the protection.
  pub post_mmap_hook : ℕ → SyscallCtx → World o → Option (World o)
  unfolding taint_loop tagmap_clrn
  post_mmap_hook tid ctx w =
      let buf = ctx.arg 0 in
      let nr = ctx.arg 1 in
      if ctx.ret == 2 ^ 64 - 1 || ctx.arg 2 % 2 == 0
      then some w
      else if is_fuzzing_fd w.files (to_int (ctx.arg 4))
      then on_machine (record w.files { tainted = true }) (taint_loop nr buf (ctx.arg 5) tid)
          w.machine
      else on_machine w.files (tagmap_clrn buf (nr % 2 ^ 32)) w.machine

  pub post_munmap_hook : SyscallCtx → World o → Option (World o)
  unfolding tagmap_clrn
  post_munmap_hook ctx w =
      if ctx.ret == 2 ^ 64 - 1
      then some w
      else on_machine w.files (tagmap_clrn (ctx.arg 0) (ctx.arg 1 % 2 ^ 32)) w.machine
