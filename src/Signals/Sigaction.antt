-- ===== src/Signals/Sigaction.antt =====
-- `sys_rt_sigaction` of src/syscalls.js.
pub mod Kept
pub mod Tests
use noopsys.Base.{ℕ, ◌+◌, ◌-◌, Bool, Option, none, some, ltb, ◌==◌, ◌||◌, if◌then◌else◌, update}
use noopsys.Base.Int.{pos}
use noopsys.Base.Result.{Result, ok, err, Action}
use noopsys.Base.Seal.{pure, ◌>>=◌, ◌>>◌}
use noopsys.Space.{Space}
use noopsys.Space.Accessors.{read32, write32}
use noopsys.Cpu.{Cpu}
use noopsys.Signals.{nsig, SigAction, Process}

-- What the call returns: `-EINVAL`, or 0.
pub data Outcome : Type 0 where
  einval done : Outcome

unfoldable pub save_action : (oldact : ℕ) → SigAction → Action Space (Unit {0})
save_action oldact action = do
  write32 (pos (oldact + 0)) action.sa_flags
  write32 (pos (oldact + 4)) action.sa_handler
  write32 (pos (oldact + 8)) action.sa_mask
  pure tt

unfoldable pub read_action : (act : ℕ) → Action Space SigAction
read_action act = do
  flags ← read32 (pos (act + 0))
  handler ← read32 (pos (act + 4))
  mask ← read32 (pos (act + 8))
  pure (record { sa_handler = handler; sa_flags = flags; sa_mask = mask })

-- The old action is saved before the new one is read; an address of 0 stands for neither.
unfoldable pub swap_action : (act oldact : ℕ) → SigAction → Action Space SigAction
swap_action act oldact action =
    (if oldact == 0 then pure tt else save_action oldact action)
    >> (if act == 0 then pure action else read_action act)

abbrev pub with_action : Process → (signum : ℕ) → SigAction → Space → Process
with_action p signum action s = record p {
  cpu = record p.cpu { space = s };
  actions = update p.actions (signum - 1) action;
}

unfoldable pub swapped :
    Process → (signum : ℕ) → Result (SigAction × Space) → Result (Outcome × Process)
swapped p signum (ok (action, s)) = ok (done, with_action p signum action s)
swapped p signum (err e) = err e

unfoldable pub sys_rt_sigaction : (signum act oldact : ℕ) → Process → Result (Outcome × Process)
sys_rt_sigaction signum act oldact p =
    if ltb signum 1 || ltb nsig signum
    then ok (einval, p)
    else swapped p signum (swap_action act oldact (p.actions (signum - 1)) p.cpu.space)
