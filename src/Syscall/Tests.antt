-- ===== src/Syscall/Tests.antt =====
-- Runs of the hooks of src/syscall_hook.cpp.
use libdft64_ect.Prelude.{
  ℕ, ◌-◌, ◌^◌, ◌≡◌, refl, true, false, Option, none, some, ◌==◌, if◌then◌else◌, arith, ◌>>=◌,
}
use libdft64_ect.Tag.Instances.{bdd_traits, bdd_laws, bdd_allocs, uint8_traits}
use libdft64_ect.Bdd.{init}
use libdft64_ect.Bdd.Inv.{init_shape, init-IsTrie}
use libdft64_ect.Bdd.Union.{root-IsTag}
use libdft64_ect.TagMap.{TagDir, tag_dir_getb_as_ptr, tag_dir_setb_save_mem}
use libdft64_ect.Machine.{State}
use libdft64_ect.Machine.Effect.{Loc, reg, mem, look}
use libdft64_ect.Machine.Meaning.{IsState}
use libdft64_ect.Syscall.{
  SyscallCtx, Kernel, Files, World, post_open_hook, post_dup2_hook, post_close_hook, post_read_hook,
}
use libdft64_ect.Syscall.Source.{Sourced}
use libdft64_ect.Syscall.Notify.{SyscallDesc, Session, sysenter_save, sysexit_save}
use libdft64_ect.Syscall.Exit.{whole_call}
use libdft64_ect.Syscall.Read.{ReadDone, post_read_hook-ReadDone}

-- Only the string at 0x2000 names the input.
abbrev kernel : Kernel
kernel = record { names_input = λ a. a == 0x2000; lseek_cur = λ fd. 7 }

abbrev files : Files
files = record { fuzzing_fd_set = λ fd. false; stdin_read_off = 3; tainted = false }

abbrev empty_dir : TagDir ℕ
empty_dir = record { table = λ _. none; mem_left = 100 }

abbrev sys_call : ℕ → ℕ → ℕ → ℕ → SyscallCtx
sys_call a b c ret = record { arg = λ i. if i == 0 then a else if i == 1 then b else c; ret = ret }

abbrev start : State bdd_traits
start = record { gpr = λ t q i. 0; dir = empty_dir; store = init }

start-IsState : IsState bdd_laws start init_shape
unfolding tag_dir_getb_as_ptr
start-IsState = record { store = init-IsTrie; tags = known }
  where
    known : (l : Loc) (t : ℕ) → look start l ≡ some t → bdd_laws.model.IsTag init init_shape t
    known (reg t' q i) t e =
        let zero_tag : t ≡ 0 = ground arith in rw zero_tag (root-IsTag init init_shape init-IsTrie)
    known (mem a) t e =
        let zero_tag : t ≡ 0 = ground arith in rw zero_tag (root-IsTag init init_shape init-IsTrie)

-- A `read` of 2 bytes of standard input, of which 3 were read before, into a buffer of 4.
abbrev two_bytes : SyscallCtx
two_bytes = sys_call 0 0x1000 4 2

abbrev world : World bdd_traits
world = record { files = files; machine = start }

post_read_hook-ReadDone_example :
    Sourced bdd_laws bdd_allocs
      (ReadDone bdd_laws bdd_allocs kernel 0 two_bytes world)
      (post_read_hook kernel 0 two_bytes world)
post_read_hook-ReadDone_example =
    post_read_hook-ReadDone bdd_laws bdd_allocs kernel 0 two_bytes world init_shape start-IsState
      refl (omega arith) (omega arith) (omega arith) (omega arith) (omega arith) (omega arith)
      (omega arith)

-- A descriptor of the input that is opened as 4, copied to 5 and closed: 5 is one still.
files_then : Files
unfolding post_open_hook post_dup2_hook post_close_hook
files_then =
    post_close_hook (sys_call 4 0 0 0)
      (post_dup2_hook (sys_call 4 5 0 5) (post_open_hook kernel (sys_call 0x2000 0 0 4) files))

copy_stays : (files_then.fuzzing_fd_set 5 ≡ true) × (files_then.fuzzing_fd_set 4 ≡ false)
unfolding files_then
copy_stays = (refl, refl)

-- A `read` of 4 bytes that fails, with the result -1, taints the buffer, here its third byte, and
-- takes the offset back.
abbrev clean : World uint8_traits
clean = record { files = files; machine = record { gpr = λ t q i. 0; dir = empty_dir; store = tt } }

after_failure : Option (Option ℕ × ℕ)
unfolding post_read_hook tag_dir_getb_as_ptr tag_dir_setb_save_mem
after_failure = post_read_hook kernel 0 (sys_call 0 0x1000 4 (2 ^ 64 - 1)) clean >>= λ w.
    some (look w.machine (mem 0x1002), w.files.stdin_read_off)

failed_read : after_failure ≡ some (some 1, 2)
unfolding after_failure
failed_read = refl

-- The entry and the exit of a call with one argument, which points to 4 bytes at 0x1000.
abbrev uname : SyscallDesc uint8_traits
uname = record {
  nargs = 1;
  save_args = 0;
  retval_args = 1;
  map_args = λ i. if i == 0 then 4 else 0;
  pre = none;
  post = none;
}

abbrev all_tainted : TagDir ℕ
all_tainted = record { table = λ i. some (λ j. some (λ _. 1)); mem_left = 0 }

abbrev before_call : Session uint8_traits
before_call = record {
  saved = λ t. record { nr = 0; ctx = sys_call 0 0 0 0 };
  world = record {
    files = files;
    machine = record { gpr = λ t q i. 0; dir = all_tainted; store = tt };
  };
}

-- The same call, but it fails with the result -1: the bytes lose their tags all the same.
failed_call :
    whole_call 300 0 63 (2 ^ 64 - 1) (λ _. uname) (λ _. 0x1000) before_call
      >>= (λ t. some (look t.world.machine (mem 0x1002)))
    ≡ some (some 0)
unfolding sysenter_save sysexit_save tag_dir_getb_as_ptr tag_dir_setb_save_mem
failed_call = refl
