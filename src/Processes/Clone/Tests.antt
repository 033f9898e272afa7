-- ===== src/Processes/Clone/Tests.antt =====
-- A process with one other beside it makes a child by `sys_clone` of src/syscalls.js.
use noopsys.Base.{ℕ, ◌+◌, ◌<◌, ◌≡◌, refl, false, none, [], ◌∷◌, arith, ◌==◌, if◌then◌else◌}
use noopsys.Base.Int.{◌+ℤ◌}
use noopsys.Base.Word.{byte_of, has, meets}
use noopsys.Base.Result.{ok, err}
use noopsys.Base.Seal.{pure, ◌>>=◌, ◌>>◌, gets, modify, throw_if}
use noopsys.Physical.{
  find_page, allocate_page, duplicate_page, free_page, allocate_state_entry, find_entry,
  cow_dup_page, zero_page,
}
use noopsys.Physical.Words.{write_word, read_word}
use noopsys.Space.{Vm, cached, remember, copy_on_write, invalidate_hacks}
use noopsys.Space.Safe.{view}
use noopsys.Space.Translate.{translate, translate_miss, reach, resolve, take_over}
use noopsys.Space.Accessors.{stored, stored_word, store32, read32, write32}
use noopsys.Space.Fork.{fork_memory, init_memory, clone_pages, clone_page}
use noopsys.Space.Tests.{phys, parent, child, world-IsSafe}
use noopsys.Descriptors.{reader, clone_fds}
use noopsys.Processes.Clone.{
  Task, System, new_task, new_ids, invalidate_task, return_zero, clone_from, set_tid, start_child,
  sys_clone,
}
use noopsys.Processes.Clone.Memory.{CanFork}
use noopsys.Processes.Clone.Child.{IsStarted, sys_clone-IsStarted}

-- A task with this page table; its flags ask for the child's number.
abbrev task : Vm → Task
task vm = record {
  ids = record {
    pid = 1;
    ppid = 0;
    pgid = 1;
    sid = 1;
    uid = 5;
    euid = 5;
    gid = 5;
    egid = 5;
    brk = 0x800_0000;
    tls_addr = 0;
    leader = false;
    controlling = none;
    has_exited = false;
  };
  state = λ n. if n == 4 then 0x120_0011 else 0;
  vm = vm;
  mmap_hack_start = 0x200_0000;
  cwd = 47 ∷ [];
  fds = record { table = λ _. 0; size = 0; bound = 0 };
  actions = λ _. record { sa_handler = 0; sa_flags = 0; sa_mask = 0 };
  queue = [];
}

abbrev two : System
two = record {
  phys = phys;
  objects = record { kinds = λ _. reader; next = 1 };
  caller = task parent;
  others = task child ∷ [];
}

abbrev outcome : ℕ × System
outcome = elim (sys_clone 20 two) [ ok r ↦ r | err _ ↦ (0, two) ]

abbrev three : System
three = outcome.1

clone_run : sys_clone 20 two ≡ ok (3, three)
unfolding sys_clone start_child clone_from new_task new_ids invalidate_task return_zero set_tid
    clone_fds fork_memory init_memory allocate_state_entry find_entry allocate_page find_page
    clone_pages clone_page cow_dup_page zero_page read32 write32 store32 stored_word ◌+ℤ◌ translate
    cached translate_miss reach resolve take_over copy_on_write duplicate_page free_page
    invalidate_hacks remember stored write_word read_word ◌>>=◌ ◌>>◌ modify gets pure throw_if has
    meets
clone_run = refl

shut : has 5 2 ≡ false
unfolding has
shut = refl

two-CanFork : CanFork 20 two
two-CanFork = record {
  not_none = omega arith;
  not_zero = omega arith;
  shut = shut;
  room = λ p. ground arith;
  safe = world-IsSafe;
}

stack_word : (k : ℕ) → k < 4 → view phys parent (16 + k) ≡ byte_of 0 k
unfolding write_word
stack_word k lt = ground arith

sys_clone-IsStarted_example : IsStarted 0x120_0011 0 two 3 three
sys_clone-IsStarted_example =
    sys_clone-IsStarted 20 0 3 two three two-CanFork refl (omega arith) (omega arith) stack_word
      refl (omega arith) clone_run
