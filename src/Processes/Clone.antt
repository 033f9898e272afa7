-- ===== src/Processes/Clone.antt =====
-- `sys_clone` of src/syscalls.js, with what `Process()` and `cloneFrom` of src/process.js give the new
-- process.
pub mod Memory
pub mod Child
pub mod Tests
use noopsys.Base.{
  ℕ, ◌+◌, ◌*◌, Bool, false, Option, none, List, [], ◌∷◌, map, length, if◌then◌else◌, ltb, update,
}
use noopsys.Base.Int.{pos}
use noopsys.Base.Word.{u32, meets}
use noopsys.Base.Result.{Result, ok, err, Action}
use noopsys.Base.Seal.{pure}
use noopsys.Constants.{clone_child_settid}
use noopsys.Physical.{Phys}
use noopsys.Space.{Vm, Space, invalidate_hacks}
use noopsys.Space.Accessors.{read32, write32}
use noopsys.Space.Fork.{fork_memory}
use noopsys.Signals.{nsig, sig_dfl, SigAction, state_copy_count}
use noopsys.Descriptors.{Objects, Fds, clone_fds}
use noopsys.Session.{Proc}

-- `state` are the registers, with the program counter and the pending branch among them, and `ids`
-- the numbers of the process with its break, its thread area and its terminal.
pub record Task : Type 0 where
  pub ids : Proc
  pub state : ℕ → ℕ
  pub vm : Vm
  pub mmap_hack_start : ℕ
  pub cwd : List ℕ
  pub fds : Fds
  pub actions : ℕ → SigAction
  pub queue : List ℕ

-- The process that makes the call, and the others in `processes`, the newest first.
pub record System : Type 0 where
  pub phys : Phys
  pub objects : Objects
  pub caller : Task
  pub others : List Task

-- The numbers that `Process()` sets, changed by `sys_clone` and `cloneFrom`.
unfoldable pub new_ids : (pid : ℕ) → Proc → Proc
new_ids pid source = record {
  pid = pid;
  ppid = source.pid;
  pgid = source.pgid;
  sid = source.sid;
  uid = 0;
  euid = 0;
  gid = 0;
  egid = 0;
  brk = source.brk;
  tls_addr = source.tls_addr;
  leader = false;
  controlling = source.controlling;
  has_exited = false;
}

abbrev default_action : SigAction
default_action = record { sa_handler = sig_dfl; sa_flags = 0; sa_mask = 0 }

-- The new process, with the table that `cloneFrom` has made.
unfoldable pub new_task : (pid : ℕ) → Vm → Fds → Task → Task
new_task pid vm fds source = record {
  ids = new_ids pid source.ids;
  state = λ n. if ltb n state_copy_count then source.state n else 0;
  vm = vm;
  mmap_hack_start = source.mmap_hack_start;
  cwd = source.cwd;
  fds = fds;
  actions = λ n. if ltb n nsig then source.actions n else default_action;
  queue = [];
}

unfoldable pub invalidate_task : Task → Task
invalidate_task t = record t { vm = invalidate_hacks t.vm }

-- `newProcess.registers[2] = 0; newProcess.registers[7] = 0`
unfoldable pub return_zero : Task → Task
return_zero t = record t { state = update (update t.state 2 0) 7 0 }

-- `cloneFrom`: the new process is in `processes` already.
unfoldable pub clone_from : (vdso_page pid : ℕ) → System → Result (Task × System)
clone_from vdso_page pid s = elim (fork_memory 14 vdso_page s.caller.vm s.phys) [
  | ok (vm, phys) ↦
      let fds =
        clone_fds s.caller.fds.size 0 s.caller.fds.table
          (record { table = λ _. 0; size = 0; bound = 0 }) s.objects in
      ok (
        new_task pid (invalidate_hacks vm) fds.0 s.caller,
        record {
          phys = phys;
          objects = fds.1;
          caller = invalidate_task s.caller;
          others = map invalidate_task s.others;
        },
      )
  | err e ↦ err e
]

-- `if (flags & CLONE_CHILD_SETTID)`, in the memory of the new process.
unfoldable pub set_tid : (flags ctid pid : ℕ) → Action Space (Unit {0})
set_tid flags ctid pid = if meets flags clone_child_settid then write32 (pos ctid) pid else pure tt

-- The call, once the word `ctid` has been read from the caller's stack.
unfoldable pub start_child : (vdso_page flags ctid : ℕ) → System → Result (ℕ × System)
start_child vdso_page flags ctid s =
    let pid = length s.others + 2 in
    elim (clone_from vdso_page pid s) [
      | ok (child, t) ↦ elim (set_tid flags ctid pid (record { phys = t.phys; vm = child.vm })) [
        | ok (_, m) ↦ ok (
          pid,
          record t { phys = m.phys; others = return_zero (record child { vm = m.vm }) ∷ t.others },
        )
        | err e ↦ err e
      ]
      | err e ↦ err e
    ]

unfoldable pub sys_clone : (vdso_page : ℕ) → System → Result (ℕ × System)
sys_clone vdso_page s =
    elim (read32 (pos (s.caller.state 29 + 16)) (record { phys = s.phys; vm = s.caller.vm })) [
      | ok (ctid, m) ↦
          start_child vdso_page (s.caller.state 4) ctid
            (record s { phys = m.phys; caller = record s.caller { vm = m.vm } })
      | err e ↦ err e
    ]
