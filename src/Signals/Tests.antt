-- ===== src/Signals/Tests.antt =====
-- Runs of the queue of signals of src/process.js.
use noopsys.Base.{◌≡◌, true, false, [], ◌∷◌, arith}
use noopsys.Base.Result.{ok}
use noopsys.Constants.{sigchld, sigint}
use noopsys.Space.{empty_tlb}
use noopsys.Base.{ℕ, ◌+◌, ◌<◌, ◌^◌, refl, ◌==◌, if◌then◌else◌}
use noopsys.Base.Int.{◌+ℤ◌}
use noopsys.Base.Word.{has, meets}
use noopsys.Base.Result.{Result, err}
use noopsys.Base.Seal.{pure, ◌>>=◌, ◌>>◌, gets, modify, throw_if}
use noopsys.Physical.{find_page, allocate_page, duplicate_page, free_page}
use noopsys.Physical.Words.{write_word, read_word}
use noopsys.Space.{cached, remember, copy_on_write, invalidate_hacks}
use noopsys.Space.Safe.{IsSafe}
use noopsys.Space.Translate.{take_over, resolve, reach, translate_miss, translate}
use noopsys.Space.Accessors.{stored, stored_word, store32, write32, read32}
use noopsys.Space.Tests.{world, child, world-IsSafe}
use noopsys.Cpu.{Cpu, on_space}
use noopsys.Signals.{
  Process, is_queued, send_signal, state_copy_count, state_word, put_state_word, save_frame,
  setup_frame, load_frame, pop_frame,
}
use noopsys.Signals.Saved.{setup_frame-IsFrame}
use noopsys.Signals.Frame.{pop_frame-setup_frame}
use noopsys.Signals.Queue.{IsOnce, occurrences, standard_count, send_signal-IsOnce}

-- A process that sleeps, with SIGCHLD in its queue.
abbrev sleeping : Process
sleeping = record {
  cpu = record {
    regs = λ _. 0;
    pc = 0;
    pending = 0;
    space = record {
      phys = record { refs = λ _. 0; flags = λ _. 0; mem = λ _. 0; in_use = λ _. false };
      vm = record { pagemap = λ _. 0; pageflags = λ _. 0; tlb = empty_tlb };
    };
    running = false;
    exited = false;
    tls_addr = 0;
  };
  actions = λ _. record { sa_handler = 0; sa_flags = 0; sa_mask = 0 };
  queue = sigchld ∷ [];
  exit_code = 0;
  woken = false;
}

sleeping_IsOnce : IsOnce sleeping.queue
unfolding standard_count occurrences
sleeping_IsOnce = record { once = λ signo. ground arith }

send_signal-IsOnce_example :
    (q : Process) × (send_signal sigint sleeping ≡ ok q)
    × (is_queued sigint q.queue ≡ true)
    × IsOnce q.queue
send_signal-IsOnce_example =
    send_signal-IsOnce sigint sleeping (omega arith) (omega arith) sleeping_IsOnce

-- The processor of a process whose stack lies in a page that it shares.
abbrev busy : Cpu
busy = record {
  regs = λ r. if r == 29 then 0x8000 else r + 7;
  pc = 64;
  pending = 0;
  space = world;
  running = true;
  exited = false;
  tls_addr = 0;
}

abbrev after : Result (Unit {0} × Cpu) → Cpu
after r = elim r [ ok (_, c) ↦ c | err e ↦ busy ]

abbrev called : Cpu
called = after (setup_frame false sigint 0x400 busy)

set_runs : setup_frame false sigint 0x400 busy ≡ ok (tt, called)
unfolding setup_frame save_frame put_state_word state_word on_space ◌+ℤ◌ write32 store32 stored_word
    translate cached translate_miss reach resolve take_over copy_on_write duplicate_page
    allocate_page free_page find_page invalidate_hacks remember stored write_word read_word ◌>>=◌
    ◌>>◌ modify gets pure throw_if has meets
set_runs = refl

abbrev back : Cpu
back = after (pop_frame called)

pop_runs : pop_frame called ≡ ok (tt, back)
unfolding setup_frame save_frame put_state_word state_word on_space ◌+ℤ◌ write32 store32 stored_word
    translate cached translate_miss reach resolve take_over copy_on_write duplicate_page
    allocate_page free_page find_page invalidate_hacks remember stored write_word read_word ◌>>=◌
    ◌>>◌ modify gets pure throw_if has meets read32 pop_frame load_frame
pop_runs = refl

busy_words : (j : ℕ) → j < state_copy_count → state_word busy j < 2 ^ 32
unfolding state_word
busy_words j h = ground arith

called-IsSafe : IsSafe called.space.phys (called.space.vm ∷ child ∷ [])
called-IsSafe =
    (setup_frame-IsFrame (child ∷ []) false sigint 0x400 busy called refl (omega arith)
      (omega arith) world-IsSafe set_runs).2

pop_frame-setup_frame_example : state_word back 31 ≡ 38
unfolding state_word
pop_frame-setup_frame_example =
    pop_frame-setup_frame (child ∷ []) false sigint 0x400 busy called called back refl (omega arith)
      busy_words world-IsSafe set_runs
      (record { safe = called-IsSafe; stack = refl; present = λ a l h p. p; bytes = λ a l h. refl })
      pop_runs 31 (omega arith)
