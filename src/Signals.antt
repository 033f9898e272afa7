-- ===== src/Signals.antt =====
-- Signals (src/process.js): `sendSignal` to `popFrameAfterSignal`. The registers with the numbers of
-- `pc` and of the pending branch are the fields of the processor.
pub mod Trampoline
pub mod Returns
pub mod Sigaction
pub mod Queue
pub mod Saved
pub mod Frame
pub mod Tests
use noopsys.Base.{
  ℕ, zero, suc, ◌+◌, ◌-◌, ◌*◌, Bool, true, false, not, ◌&&◌, ◌||◌, List, [], ◌∷◌, ◌++◌, ltb, leb,
  ◌==◌, if◌then◌else◌, update,
}
use noopsys.Base.Int.{ℤ, pos, negsuc, ◌+ℤ◌, sub_ℕ, to_uint32}
use noopsys.Base.Word.{u32, meets}
use noopsys.Base.Result.{no_action, Result, ok, err, Action, pure, ◌>>=◌, ◌>>◌, gets, modify}
use noopsys.Constants.{
  sigchld, sigwinch, sigurg, sigstop, sigtstp, sigcont, sigttin, sigttou, sigrtmin, sa_oneshot,
  sa_siginfo,
}
use noopsys.Space.Accessors.{read32, write32}
use noopsys.Cpu.{Cpu, state_pc, state_pending_branch, on_space}

abbrev pub nsig : ℕ
nsig = 128

abbrev pub sig_dfl : ℕ
sig_dfl = 0

abbrev pub sig_ign : ℕ
sig_ign = 1

pub record SigAction : Type 0 where
  pub sa_handler : ℕ
  pub sa_flags : ℕ
  pub sa_mask : ℕ

-- `queue` is `signalQueue`, an entry of which holds its number only; `woken` tells that `wakeup` has
-- been called.
pub record Process : Type 0 where
  pub cpu : Cpu
  pub actions : ℕ → SigAction
  pub queue : List ℕ
  pub exit_code : ℕ
  pub woken : Bool

unfoldable pub is_ignored_signal : ℕ → Bool
is_ignored_signal signo =
    (signo == sigcont) || (signo == sigchld) || (signo == sigwinch) || (signo == sigurg)

unfoldable pub is_stop_signal : ℕ → Bool
is_stop_signal signo =
    (signo == sigstop) || (signo == sigtstp) || (signo == sigttin) || (signo == sigttou)

unfoldable pub is_fatal_signal : Process → ℕ → Bool
is_fatal_signal p signo =
    not (is_stop_signal signo)
    && not (is_ignored_signal signo)
    && ((p.actions (signo - 1)).sa_handler == sig_dfl)

unfoldable pub is_queued : ℕ → List ℕ → Bool
is_queued signo [] = false
is_queued signo (other ∷ rest) = (other == signo) || is_queued signo rest

-- The end of `sendSignal`: the signal ends the process, or wakes it. There is no action for a number
-- outside 1 to 128, for the signals that are fatal if they are not handled.
unfoldable pub complete : ℕ → Process → Result Process
complete signo p =
    let has_action = not (signo == 0) && leb signo nsig in
    if not (is_stop_signal signo) && not (is_ignored_signal signo) && not has_action
    then err no_action
    else if is_fatal_signal p signo
    then ok (record p { cpu = record p.cpu { running = false; exited = true }; exit_code = signo })
    else ok (record p { cpu = record p.cpu { running = true }; woken = true })

-- `sendSignal`: a signal below SIGRTMIN is dropped while one like it is queued.
unfoldable pub send_signal : ℕ → Process → Result Process
send_signal signo p =
    if ltb signo sigrtmin && is_queued signo p.queue
    then ok p
    else complete signo (record p { queue = p.queue ++ (signo ∷ []) })

abbrev pub state_copy_count : ℕ
state_copy_count = 68

abbrev pub vdso_mapped_at : ℕ
vdso_mapped_at = 0xe0000

-- `this.registers[n]`
unfoldable pub state_word : Cpu → ℕ → ℕ
state_word c n =
    if n == state_pc then c.pc else if n == state_pending_branch then c.pending else c.regs n

unfoldable pub put_state_word : ℕ → ℕ → Cpu → Cpu
put_state_word n v c =
    if n == state_pc
    then record c { pc = v }
    else if n == state_pending_branch
    then record c { pending = v }
    else record c { regs = update c.regs n v }

-- The loop that saves the registers, `n` of them from number `k` on.
unfoldable pub save_frame : (n k : ℕ) → ℤ → Action Cpu (Unit {0})
save_frame zero k sp = pure tt
save_frame (suc n) k sp = do
  v ← gets λ c. state_word c k
  on_space (write32 (sp +ℤ pos (k * 4)) v)
  save_frame n (k + 1) sp

-- `setupFrameForSignal`, for a signal whose action has this handler.
unfoldable pub setup_frame : (is_rt : Bool) → (signo handler : ℕ) → Action Cpu (Unit {0})
setup_frame is_rt signo handler = do
  sp ← gets λ c. sub_ℕ (c.regs 29) (state_copy_count * 4)
  save_frame state_copy_count 0 sp
  modify (put_state_word 4 (u32 signo))
  modify (put_state_word 29 (to_uint32 sp))
  modify (put_state_word 5 0)
  modify (put_state_word 31 (if is_rt then vdso_mapped_at + 8 else vdso_mapped_at))
  modify (put_state_word 25 handler)
  modify (put_state_word state_pc handler)
  modify (put_state_word state_pending_branch 0)

-- The loop that restores the registers.
unfoldable pub load_frame : (n k sp : ℕ) → Action Cpu (Unit {0})
load_frame zero k sp = pure tt
load_frame (suc n) k sp = do
  v ← on_space (read32 (pos (sp + k * 4)))
  modify (put_state_word k v)
  load_frame n (k + 1) sp

unfoldable pub pop_frame : Action Cpu (Unit {0})
pop_frame = do sp ← gets λ c. c.regs 29; load_frame state_copy_count 0 sp

-- The end of `handleSignal` for a handler of the program.
unfoldable pub deliver : ℕ → Process → Result Process
deliver signo p =
    let action = p.actions (signo - 1) in
    let reset =
      if meets action.sa_flags sa_oneshot
      then update p.actions (signo - 1) (record action { sa_handler = sig_dfl })
      else p.actions in
    elim (setup_frame (meets action.sa_flags sa_siginfo) signo action.sa_handler p.cpu) [
      | ok (_, cpu) ↦ ok (record p { cpu = cpu; actions = reset })
      | err e ↦ err e
    ]

-- `handleSignal`. A signal that the program neither ignores nor handles does nothing: the test
-- `if (isIgnoredSignal)` is on the function, which is never false, and not on its answer.
unfoldable pub handle_signal : Process → Result Process
handle_signal p = elim p.queue [
  | [] ↦ err no_action
  | signo ∷ rest ↦
      let handler = (p.actions (signo - 1)).sa_handler in
      let taken : Process = record p { queue = rest } in
      if (signo == 0) || ltb nsig signo
      then err no_action
      else if handler == sig_ign
      then ok taken
      else if handler == sig_dfl
      then ok taken
      else deliver signo taken
]
