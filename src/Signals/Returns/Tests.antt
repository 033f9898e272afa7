-- ===== src/Signals/Returns/Tests.antt =====
-- A child of a process, which returns from a handler of an action with siginfo (src/process.js).
use noopsys.Base.{
  ℕ, ◌+◌, ◌≡◌, refl, true, false, some, [], ◌∷◌, arith, ◌==◌, if◌then◌else◌, List, get_elem?,
}
use noopsys.Base.Word.{has}
use noopsys.Base.Result.{Result, ok, err}
use noopsys.Base.Seal.{pure}
use noopsys.Constants.{prot_write}
use noopsys.Physical.{
  Phys, find_page, allocate_page, allocate_state_entry, find_entry, cow_dup_page, zero_page,
}
use noopsys.Physical.Words.{write_word}
use noopsys.Space.{Vm, invalidate_hacks}
use noopsys.Space.Safe.{IsSafe, IsCoherent}
use noopsys.Space.Fork.{fork_memory, init_memory, clone_pages, clone_page, invalidate_all}
use noopsys.Space.Fork.Child.{IsForked, fork_memory-IsForked}
use noopsys.Space.Tests.{phys, parent, child, world-IsSafe}
use noopsys.Cpu.{Cpu, Step}
use noopsys.Cpu.Decode.{Fields}
use noopsys.Signals.Trampoline.{HasTrampolines, put_trampolines}
use noopsys.Signals.Returns.{Calls, trampoline-Calls}

-- The pages of the other tests, with the trampolines in page 20.
abbrev booted : Phys
booted = record phys { mem = put_trampolines 20 (λ _. 0) }

booted-IsSafe : IsSafe booted (parent ∷ child ∷ [])
unfolding put_trampolines write_word
booted-IsSafe = record {
  counted = world-IsSafe.counted;
  exclusive = world-IsSafe.exclusive;
  zero_base = world-IsSafe.zero_base;
  zero_flags = world-IsSafe.zero_flags;
  zero_clean = λ i h. ground arith;
  coherent = λ k vm e. kept k vm e;
}
  where
    kept : (k : ℕ) (vm : Vm) → get_elem? (parent ∷ child ∷ []) k ≡ some vm → IsCoherent booted vm
    kept k vm e =
        let c = world-IsSafe.coherent k vm e in
        record {
          old = c.old;
          older = c.older;
          writes = c.writes;
          code = c.code;
          older_code = c.older_code;
          writable = c.writable;
        }

abbrev forked : Result (Vm × Phys)
forked = fork_memory 14 20 parent booted

abbrev new_vm : Vm
new_vm = elim forked [ ok (vm, _) ↦ vm | err _ ↦ parent ]

abbrev new_phys : Phys
new_phys = elim forked [ ok (_, p) ↦ p | err _ ↦ booted ]

fork_run : fork_memory 14 20 parent booted ≡ ok (new_vm, new_phys)
unfolding fork_memory init_memory allocate_state_entry find_entry allocate_page find_page
    clone_pages clone_page cow_dup_page zero_page
fork_run = refl

write_shut : has 5 prot_write ≡ false
unfolding has
write_shut = refl

fork-IsForked : IsForked parent new_vm (child ∷ []) booted new_phys
fork-IsForked =
    fork_memory-IsForked 14 20 parent new_vm (child ∷ []) booted new_phys (omega arith)
      (omega arith) (omega arith) write_shut (λ p. ground arith) booted-IsSafe fork_run

abbrev others : List Vm
others = invalidate_hacks parent ∷ invalidate_hacks child ∷ []

abbrev handled : Cpu
handled = record {
  regs = λ r. if r == 0 then 0 else r + 5;
  pc = 0xe_0008;
  pending = 0;
  space = record { phys = new_phys; vm = invalidate_hacks new_vm };
  running = true;
  exited = false;
  tls_addr = 0;
}

handled-HasTrampolines : HasTrampolines others 20 handled.space
unfolding invalidate_all invalidate_hacks fork_memory init_memory allocate_state_entry find_entry
    allocate_page find_page clone_pages clone_page cow_dup_page zero_page has
handled-HasTrampolines = record {
  safe = fork-IsForked.safe;
  mapped = refl;
  used = omega arith;
  allowed = refl;
  executable = refl;
  stored = λ a h. refl;
}

abbrev no_call : Step
no_call = pure tt

abbrev no_fpu : Fields → Step
no_fpu _ = pure tt

trampoline-Calls_example : Calls others 20 no_call no_fpu 2 handled.regs handled
trampoline-Calls_example =
    trampoline-Calls others 20 no_call no_fpu true handled handled-HasTrampolines refl refl refl
      refl
