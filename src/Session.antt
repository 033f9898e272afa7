-- ===== src/Session.antt =====
-- Who a process is: the calls of src/syscalls.js about the numbers of processes, groups, sessions
-- and users, the break, and what `syscall` of src/process.js does with the value that a call
-- returns.
pub mod Laws
pub mod Tests
use noopsys.Base.{
  ℕ, zero, suc, ◌+◌, ◌-◌, ◌^◌, Bool, true, false, not, ◌&&◌, ◌||◌, Option, none, some, ltb, leb,
  ◌==◌, if◌then◌else◌, update,
}
use noopsys.Base.Int.{ℤ, pos, negsuc, to_uint32, to_int32}
use noopsys.Base.Word.{u32}

-- `controlling` is `pinfo.tty`, the number of a terminal; `leader` is `pinfo.leader`.
pub record Proc : Type 0 where
  pub pid : ℕ
  pub ppid : ℕ
  pub pgid : ℕ
  pub sid : ℕ
  pub uid : ℕ
  pub euid : ℕ
  pub gid : ℕ
  pub egid : ℕ
  pub brk : ℕ
  pub tls_addr : ℕ
  pub leader : Bool
  pub controlling : Option ℕ
  pub has_exited : Bool

-- `processes`: the entry of a process is one below its number.
pub record Table : Type 0 where
  pub procs : ℕ → Proc
  pub size : ℕ

-- What a call returns: a number, or one of `-EPERM` and `-ESRCH`. Where the source follows a
-- process that is not there it throws, which is no answer here.
pub data Answer : Type 0 where
  returned : ℕ → Answer
  eperm esrch : Answer

unfoldable pub set_proc : ℕ → Proc → Table → Table
set_proc i p t = record t { procs = update t.procs i p }

abbrev pub brk_low : ℕ
brk_low = 0x800_0000

abbrev pub brk_high : ℕ
brk_high = 0x900_0000

unfoldable pub sys_brk : (newbrk : ℕ) → Proc → ℕ × Proc
sys_brk newbrk p =
    if newbrk == 0
    then (p.brk, p)
    else if ltb newbrk brk_low || leb brk_high newbrk
    then (p.brk, p)
    else (newbrk, record p { brk = newbrk })

unfoldable pub sys_set_thread_area : (addr : ℕ) → Proc → Answer × Proc
sys_set_thread_area addr p = (returned 0, record p { tls_addr = addr })

-- `sys_setpgid`, called by the process of entry `me`.
unfoldable pub sys_setpgid : (me pid pgid : ℕ) → Table → Option (Answer × Table)
sys_setpgid me pid pgid t =
    if pid == 0
    then some (returned 0, set_proc me (record (t.procs me) { pgid = pgid }) t)
    else if leb pid t.size
    then some (returned 0, set_proc (pid - 1) (record (t.procs (pid - 1)) { pgid = pgid }) t)
    else none

unfoldable pub sys_setsid : Proc → Answer × Proc
sys_setsid p =
    if p.leader
    then (eperm, p)
    else (returned 0, record p { leader = true; controlling = none; sid = p.pid; pgid = p.pid })

unfoldable pub sys_setuid : (uid : ℕ) → Proc → Answer × Proc
sys_setuid uid p = (returned 0, record p { uid = uid })

unfoldable pub sys_setgid : (gid : ℕ) → Proc → Answer × Proc
sys_setgid gid p = (returned 0, record p { gid = gid })

-- The calls that return a field of the process.
unfoldable pub sys_getpid : Proc → Answer
sys_getpid p = returned p.pid

unfoldable pub sys_getppid : Proc → Answer
sys_getppid p = returned p.ppid

unfoldable pub sys_getpgrp : Proc → Answer
sys_getpgrp p = returned p.pgid

unfoldable pub sys_getuid : Proc → Answer
sys_getuid p = returned p.uid

unfoldable pub sys_geteuid : Proc → Answer
sys_geteuid p = returned p.euid

unfoldable pub sys_getgid : Proc → Answer
sys_getgid p = returned p.gid

unfoldable pub sys_getegid : Proc → Answer
sys_getegid p = returned p.egid

-- `sys_kill` looks whether there is such a process, and sends nothing.
unfoldable pub sys_kill : (pid : ℕ) → Table → Answer
sys_kill pid t =
    if (pid == 0) || not (leb pid t.size)
    then esrch
    else if (t.procs (pid - 1)).has_exited
    then esrch
    else returned 0

-- `TIOCSCTTY` of `sys_ioctl`: a session leader without a terminal takes the terminal `tty`, whose
-- session is `session`, 0 if it has none; the new session of the terminal, or none with `-EPERM`.
-- The terminal's `pgrp` is set from a field that no process has, so it is left undefined.
unfoldable pub set_controlling : (tty session : ℕ) → Proc → Option ℕ × Proc
set_controlling tty session p = if not p.leader then (none, p) else elim p.controlling [
  | some other ↦ (none, p)
  | none ↦ if session == 0 then (some p.sid, record p { controlling = some tty }) else (none, p)
]

-- `-ret`
unfoldable pub negated : ℤ → ℤ
negated (pos zero) = pos zero
negated (pos (suc k)) = negsuc k
negated (negsuc k) = pos (k + 1)

-- The end of `syscall`: the registers 2 and 7 with the value that a call returned, for a process
-- that still runs. For a number that is no call's, `syscall` ends before this, and the process goes
-- on with its registers as they were.
unfoldable pub put_result : (running : Bool) → (ret : ℤ) → (ℕ → ℕ) → ℕ → ℕ
put_result running ret regs = if not running then regs else (elim (to_int32 (to_uint32 ret)) [
  | negsuc k ↦ update (update regs 2 (to_uint32 (negated ret))) 7 1
  | pos k ↦ update (update regs 2 (to_uint32 ret)) 7 0
])
