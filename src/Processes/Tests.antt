-- ===== src/Processes/Tests.antt =====
-- Runs of the waiting of src/syscalls.js.
use noopsys.Base.{suc, ◌≡◌, refl, true, false, [], ◌∷◌, arith, if◌then◌else◌, ◌==◌}
use noopsys.Base.Result.{ok}
use noopsys.Space.{empty_tlb}
use noopsys.Signals.{Process}
use noopsys.Processes.{
  Table, is_running, set_proc, set_running, exit, look, watch, keep_waiting, wait_loop, sys_waitpid,
  notify, with_running,
}
use noopsys.Processes.Waiting.{sys_waitpid-notify}

abbrev running_process : Process
running_process = record {
  cpu = record {
    regs = λ _. 0;
    pc = 0;
    pending = 0;
    space = record {
      phys = record { refs = λ _. 0; flags = λ _. 0; mem = λ _. 0; in_use = λ _. false };
      vm = record { pagemap = λ _. 0; pageflags = λ _. 0; tlb = empty_tlb };
    };
    running = true;
    exited = false;
    tls_addr = 0;
  };
  actions = λ _. record { sa_handler = 0; sa_flags = 0; sa_mask = 0 };
  queue = [];
  exit_code = 0;
  woken = false;
}

-- The first process, with two children.
abbrev family : Table
family = record {
  procs = λ i. record {
    signals = running_process;
    pid = suc i;
    ppid = if i == 0 then 0 else 1;
    reaped = false;
    freed = false;
    callbacks = [];
  };
  size = 3;
}

-- The table in which it waits for them.
abbrev waiting : Table
waiting = set_running 0 false (watch 0 1 (watch 0 2 family))

-- The second child exits, and something else waits for it too.
abbrev later : Table
later = watch 1 2 (exit 2 7 waiting)

sys_waitpid-notify_example :
    (is_running (waiting.procs 0) ≡ false)
    × ((t : Table) × (notify 2 later ≡ ok t) × (is_running (t.procs 0) ≡ true))
unfolding sys_waitpid wait_loop look keep_waiting set_proc watch set_running with_running exit
sys_waitpid-notify_example =
    sys_waitpid-notify 0 2 0 family waiting later (1 ∷ []) (omega arith) (omega arith) refl refl
      refl refl
