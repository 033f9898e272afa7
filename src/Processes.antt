-- ===== src/Processes.antt =====
-- The life of processes: `sys_waitpid` and `sys_exit` of src/syscalls.js, `exit_notify` of
-- src/process.js, and the scheduler's `myLoop` of src/startup.js. The entry of a process in the
-- array `processes` is one below its number. What `freeResources` gives back is the business of
-- Space/Exit, and what `closeFds` closes that of Descriptors; here a process is freed or not.
pub mod Clone
pub mod Wakes
pub mod Waiting
pub mod Tests
use noopsys.Base.{
  ℕ, zero, suc, ◌+◌, ◌-◌, ◌*◌, ◌%◌, Bool, true, false, not, ◌&&◌, List, [], ◌∷◌, ◌++◌, ltb, ◌==◌,
  if◌then◌else◌, update,
}
use noopsys.Base.Int.{pos}
use noopsys.Base.Result.{Result, ok, err}
use noopsys.Constants.{sigchld}
use noopsys.Space.Accessors.{write32}
use noopsys.Cpu.{Cpu, on_space}
use noopsys.Signals.{Process, send_signal}

-- `reaped` is the exit code `'x'`; `callbacks` are the entries of the processes that `exitCallbacks`
-- wake.
pub record Proc : Type 0 where
  pub signals : Process
  pub pid : ℕ
  pub ppid : ℕ
  pub reaped : Bool
  pub freed : Bool
  pub callbacks : List ℕ

pub record Table : Type 0 where
  pub procs : ℕ → Proc
  pub size : ℕ

abbrev pub is_running : Proc → Bool
is_running p = p.signals.cpu.running

abbrev pub has_exited : Proc → Bool
has_exited p = p.signals.cpu.exited

unfoldable pub set_proc : ℕ → Proc → Table → Table
set_proc i p t = record t { procs = update t.procs i p }

unfoldable pub with_running : Bool → Proc → Proc
with_running b p = record p {
  signals = record p.signals { cpu = record p.signals.cpu { running = b } };
}

unfoldable pub set_running : ℕ → Bool → Table → Table
set_running i b t = set_proc i (with_running b (t.procs i)) t

-- `sys_exit` and `sys_exit_group`.
unfoldable pub exit : (i code : ℕ) → Table → Table
exit i code t =
    let p = t.procs i in
    set_proc i
      (record p {
        signals = record p.signals {
          cpu = record p.signals.cpu { running = false; exited = true };
          exit_code = code;
        };
      })
      t

pub data Waited : Type 0 where
  child : (pid : ℕ) → Waited
  no_change echild : Waited

-- `if (status) proc.write32(status, statusvar)`
unfoldable pub put_status : (me status code : ℕ) → Table → Result Table
put_status me status code t =
    let p = t.procs me in
    if status == 0
    then ok t
    else elim (on_space (write32 (pos status) (code % 256 * 256)) p.signals.cpu) [
      | ok (_, cpu) ↦ ok (set_proc me (record p { signals = record p.signals { cpu = cpu } }) t)
      | err e ↦ err e
    ]

-- A child that has exited is taken: its status is stored, and it is not taken again.
unfoldable pub reap : (me status n : ℕ) → Table → Result (Waited × Table)
reap me status n t = elim (put_status me status (t.procs n).signals.exit_code t) [
  | ok t' ↦ ok (child (t.procs n).pid, set_proc n (record (t'.procs n) { reaped = true }) t')
  | err e ↦ err e
]

-- The process is woken when the child exits.
unfoldable pub watch : (me n : ℕ) → Table → Table
watch me n t = set_proc n (record (t.procs n) { callbacks = (t.procs n).callbacks ++ (me ∷ []) }) t

-- The end of `sys_waitpid`, when no child was taken.
unfoldable pub keep_waiting : (me : ℕ) → (hang found : Bool) → Table → Result (Waited × Table)
keep_waiting me hang found t =
    if not found
    then ok (echild, t)
    else if hang
    then ok (no_change, set_running me false t)
    else ok (no_change, t)

-- What the loop of `sys_waitpid` finds in an entry: a process that is no child of the caller's, a
-- child that has exited, one that was taken before, or one that lives.
pub data Look : Type 0 where
  stranger zombie gone alive : Look

unfoldable pub look : (parent : ℕ) → Proc → Look
look parent p =
    if not (p.ppid == parent)
    then stranger
    else if has_exited p && not p.reaped
    then zombie
    else if has_exited p
    then gone
    else alive

-- The loop of `sys_waitpid`, from the entry `n` down to 1; `hang` is that WNOHANG is not given. The
-- argument `pid` has no effect: every child is looked at.
unfoldable pub wait_loop :
    (n me : ℕ) → (hang : Bool) → (status : ℕ) → (found : Bool) → Table → Result (Waited × Table)
wait_loop zero me hang status found t = keep_waiting me hang found t
wait_loop (suc k) me hang status found t = elim (look (t.procs me).pid (t.procs (suc k))) [
  | stranger ↦ wait_loop k me hang status found t
  | zombie ↦ reap me status (suc k) t
  | gone ↦ wait_loop k me hang status found t
  | alive ↦ wait_loop k me hang status true (if hang then watch me (suc k) t else t)
]

unfoldable pub sys_waitpid :
    (me : ℕ) → (hang : Bool) → (status : ℕ) → Table → Result (Waited × Table)
sys_waitpid me hang status t = wait_loop (t.size - 1) me hang status false t

-- The `exitCallbacks`.
unfoldable pub run_all : List ℕ → Table → Table
run_all [] t = t
run_all (i ∷ is) t = run_all is (set_running i true t)

-- `exit_notify`: the parent gets SIGCHLD. A process without a parent has the number 0 for it.
unfoldable pub exit_notify : ℕ → Table → Result Table
exit_notify i t =
    let parent = (t.procs i).ppid - 1 in
    let p = t.procs parent in
    if (t.procs i).ppid == 0 then ok t else elim (send_signal sigchld p.signals) [
      | ok s ↦ ok (set_proc parent (record p { signals = s }) t)
      | err e ↦ err e
    ]

-- The end of what the scheduler does with a process that has exited: its `exitCallbacks`, and
-- `exit_notify`.
unfoldable pub notify : ℕ → Table → Result Table
notify i t = exit_notify i (run_all (t.procs i).callbacks t)

-- Whether the system is halted, or whether some process runs.
pub data Turn : Type 0 where
  halted : Turn
  goes_on : (busy : Bool) → Turn

-- `myLoop`, where `slice` is `runInstLoop` and `release` is `freeResources` followed by `closeFds`,
-- which are in Space/Exit and Descriptors, over the pages and the objects that they change.
module _ (slice release : ℕ → Table → Result Table) where
  -- What the scheduler does with a process that has exited and is not freed yet.
  unfoldable pub finish : ℕ → Table → Result Table
  finish i t = elim (release i t) [
    | ok t' ↦ notify i (set_proc i (record (t'.procs i) { freed = true }) t')
    | err e ↦ err e
  ]

  -- One process's turn, after its slice.
  unfoldable pub after_slice : ℕ → (busy : Bool) → Table → Result (Turn × Table)
  after_slice i busy t =
      let p = t.procs i in
      if has_exited p && not p.freed
      then elim (finish i t) [
        | ok t' ↦ ok (if i == 0 then halted else goes_on (if is_running p then true else busy), t')
        | err e ↦ err e
      ]
      else ok (goes_on (if is_running p then true else busy), t)

  unfoldable pub take_turn : ℕ → (busy : Bool) → Table → Result (Turn × Table)
  take_turn i busy t =
      let p = t.procs i in
      if has_exited p && p.freed
      then ok (goes_on busy, t)
      else if is_running p
      then elim (slice i t) [ ok t' ↦ after_slice i busy t' | err e ↦ err e ]
      else after_slice i busy t

  -- With `n` turns left, from the entry `i` on. A slice may add processes: the turns are for these
  -- too, and the loop is cut short where they run out.
  unfoldable pub my_loop : (n i : ℕ) → (busy : Bool) → Table → Result (Turn × Table)
  my_loop zero i busy t = ok (goes_on busy, t)
  my_loop (suc n) i busy t =
      let rest : Bool → Table → Result (Turn × Table) = my_loop n (i + 1) in
      if ltb i t.size
      then elim (take_turn i busy t) [
        | ok (halted, t') ↦ ok (halted, t')
        | ok (goes_on busy', t') ↦ rest busy' t'
        | err e ↦ err e
      ]
      else ok (goes_on busy, t)
