-- ===== src/Signals/Sigaction/Tests.antt =====
-- The action of a signal that `sys_rt_sigaction` of src/syscalls.js gives, and takes back after
-- another one was set.
use noopsys.Base.{ℕ, ◌≡◌, ◌≢◌, ◌==◌, if◌then◌else◌, refl, true, false, [], ◌∷◌, arith, update}
use noopsys.Base.Int.{◌+ℤ◌}
use noopsys.Base.Word.{has, meets}
use noopsys.Base.Result.{Result, ok, err}
use noopsys.Base.Seal.{pure, ◌>>=◌, ◌>>◌, gets, modify, throw_if}
use noopsys.Physical.{find_page, allocate_page, duplicate_page, free_page}
use noopsys.Physical.Words.{write_word, read_word}
use noopsys.Space.{Space, cached, remember, copy_on_write, invalidate_hacks}
use noopsys.Space.Safe.{IsSafe}
use noopsys.Space.Translate.{translate, translate_miss, reach, resolve, take_over}
use noopsys.Space.Accessors.{stored, stored_word, store32, read32, write32}
use noopsys.Space.Tests.{child, world, world-IsSafe}
use noopsys.Signals.{SigAction, Process}
use noopsys.Signals.Sigaction.{
  Outcome, done, save_action, read_action, swap_action, swapped, sys_rt_sigaction,
}
use noopsys.Signals.Sigaction.Kept.{IsAction, save_action-IsFilled, sys_rt_sigaction-restored}

abbrev custom : SigAction
custom = record { sa_handler = 0x40_0100; sa_flags = 4; sa_mask = 2 }

abbrev ignoring : SigAction
ignoring = record { sa_handler = 1; sa_flags = 0; sa_mask = 0 }

abbrev asking : Process
asking = record {
  cpu = record {
    regs = λ _. 0;
    pc = 0;
    pending = 0;
    space = world;
    running = true;
    exited = false;
    tls_addr = 0;
  };
  actions = λ n. if n == 1 then custom else ignoring;
  queue = [];
  exit_code = 0;
  woken = false;
}

abbrev after : Result (Outcome × Process) → Process
after r = elim r [ ok (_, p) ↦ p | err e ↦ asking ]

abbrev answered : Process
answered = after (sys_rt_sigaction 2 0 64 asking)

abbrev saved : Space
saved = answered.cpu.space

query_run : sys_rt_sigaction 2 0 64 asking ≡ ok (done, answered)
unfolding sys_rt_sigaction swap_action swapped save_action write32 store32 stored_word ◌+ℤ◌
    translate cached translate_miss reach resolve take_over copy_on_write duplicate_page
    allocate_page free_page find_page invalidate_hacks remember stored write_word read_word ◌>>=◌
    ◌>>◌ modify gets pure throw_if has meets
query_run = refl

save_run : save_action 64 custom world ≡ ok (tt, saved)
unfolding sys_rt_sigaction swap_action swapped save_action write32 store32 stored_word ◌+ℤ◌
    translate cached translate_miss reach resolve take_over copy_on_write duplicate_page
    allocate_page free_page find_page invalidate_hacks remember stored write_word read_word ◌>>=◌
    ◌>>◌ modify gets pure throw_if has meets
save_run = refl

-- The program has set another action in between.
abbrev changed : Process
changed = record answered { actions = update answered.actions 1 ignoring }

abbrev restored : Process
restored = after (sys_rt_sigaction 2 64 0 changed)

restore_run : sys_rt_sigaction 2 64 0 changed ≡ ok (done, restored)
unfolding sys_rt_sigaction swap_action swapped save_action read_action write32 read32 store32
    stored_word ◌+ℤ◌ translate cached translate_miss reach resolve take_over copy_on_write
    duplicate_page allocate_page free_page find_page invalidate_hacks remember stored write_word
    read_word ◌>>=◌ ◌>>◌ modify gets pure throw_if has meets
restore_run = refl

custom-IsAction : IsAction custom
custom-IsAction = record { handler = omega arith; flags = omega arith; mask = omega arith }

saved-IsSafe : IsSafe saved.phys (saved.vm ∷ child ∷ [])
saved-IsSafe =
    (save_action-IsFilled (child ∷ []) custom 64 world saved custom-IsAction refl (omega arith)
      world-IsSafe save_run).safe

abbrev action_of : Process → ℕ → SigAction
action_of p n = p.actions n

sys_rt_sigaction-restored_example :
    (action_of restored 1 ≡ custom) × ((n : ℕ) → n ≢ 1 → action_of restored n ≡ action_of changed n)
sys_rt_sigaction-restored_example =
    sys_rt_sigaction-restored (child ∷ []) 2 64 asking answered changed restored custom-IsAction
      (omega arith) refl (omega arith) world-IsSafe query_run (λ a r m. (m, refl)) saved-IsSafe
      restore_run
