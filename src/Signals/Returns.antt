-- ===== src/Signals/Returns.antt =====
-- What a process runs that returns to the page of trampolines of src/process.js.
pub mod Tests
use noopsys.Base.{
  ℕ, zero, suc, ◌+◌, ◌*◌, ◌/◌, ◌%◌, ◌^◌, ◌<◌, ◌≡◌, ◌≢◌, refl, ap, sym, ◌∙◌, Bool, true, false, List,
  ◌∷◌, arith, inl, inr, Bool-cases, ◌==◌, if◌then◌else◌, update,
}
use noopsys.Base.Int.{pos, ◌+ℤ◌}
use noopsys.Base.Word.{u32, has, meets, ◌>>>◌, u32}
use noopsys.Base.Result.{Result, ok, err}
use noopsys.Base.Seal.{pure, ◌>>=◌, ◌>>◌, modify, gets}
use noopsys.Physical.Words.{read_word}
use noopsys.Space.{Vm, Space, exec}
use noopsys.Space.Translate.{translate}
use noopsys.Signals.{vdso_mapped_at}
use noopsys.Signals.Trampoline.{
  HasTrampolines, HasTrampolines-word, trampoline_word, translate-runs,
}
use noopsys.Cpu.{Cpu, Step, on_space, write_reg, put_reg}
use noopsys.Cpu.Alu.{offset}
use noopsys.Cpu.Decode.{Fields, decode, special_label}
use noopsys.Cpu.Special.{exec_special, with_saved_pc}
use noopsys.Cpu.Immediate.{addi}
use noopsys.Cpu.Loop.{fetch_address, fetch, advance, execute, exec_immediate, step, run_insts}

module _ (others : List Vm) (page : ℕ) where
  fetch_address-runs :
      (i : ℕ) (s : Space)
      → HasTrampolines others page s
      → i < 65536
      → (t : Space) × (fetch_address (14 * 65536 + i) s ≡ ok (page * 65536 + i, t))
        × HasTrampolines others page t
  unfolding fetch_address
  fetch_address-runs i s t small =
      let local : u32 (14 * 65536 + i) >>> 16 ≡ 14 = omega arith in
      let rest : (14 * 65536 + i) % 2 ^ 16 ≡ i = omega arith in
      elim (Bool-cases (14 == s.vm.tlb.opt_old_code_addr)) [
        | inl here ↦
            let c = t.safe.coherent 0 s.vm refl in
            let is_14 : s.vm.tlb.opt_old_code_addr ≡ 14 = ground arith in
            let (below, used, is_page) = c.code (omega (arith, is_14)) in
            let maps : s.vm.pagemap s.vm.tlb.opt_old_code_addr ≡ page =
              ap s.vm.pagemap is_14 ∙ t.mapped in
            (s, rw (local, rest) (ground (arith, here, is_page, maps)), t)
        | inr other ↦
            let (u, runs, still) = translate-runs others page i s t small in
            (u, rw (local, rest) (ground (arith, other, runs)), still)
      ]

  fetch-runs :
      (j : ℕ) (c : Cpu)
      → HasTrampolines others page c.space
      → j < 8
      → c.pc ≡ vdso_mapped_at + 4 * j
      → (t : Space) × (fetch c ≡ ok (trampoline_word j, record c { space = t }))
        × HasTrampolines others page t
  unfolding fetch on_space ◌>>=◌ gets
  fetch-runs j c t small is_pc =
      let (u, runs, still) = fetch_address-runs (4 * j) c.space t (omega arith) in
      let index : (page * 65536 + 4 * j) >>> 2 ≡ page * 16384 + j = omega arith in
      let word = HasTrampolines-word others page u j still small in
      let at : fetch_address c.pc c.space ≡ ok (page * 65536 + 4 * j, u) =
        ap (λ n. fetch_address n c.space) is_pc ∙ runs in
      (u, ground (arith, at, index, word), still)

  module _ (syscall : Step) (fpu : Fields → Step) where
    -- An instruction of the trampolines outside a delay slot.
    step-runs :
        (j : ℕ) (c : Cpu)
        → HasTrampolines others page c.space
        → j < 8
        → c.pc ≡ vdso_mapped_at + 4 * j
        → c.pending ≡ 0
        → (t : Space) × (step syscall fpu c
            ≡ execute syscall fpu
                (decode (trampoline_word j))
                (record c { space = t; pc = vdso_mapped_at + 4 * (j + 1) }))
          × HasTrampolines others page t
    unfolding step ◌>>=◌ ◌>>◌ modify advance
    step-runs j c t small is_pc no_branch =
        let (u, runs, still) = fetch-runs j c t small is_pc in
        let after : c.pc + 4 ≡ vdso_mapped_at + 4 * (j + 1) = omega (arith, is_pc) in
        (u, ground (arith, runs, no_branch, after), still)

    nop-runs : (c : Cpu) → execute syscall fpu (decode 0) c ≡ ok (tt, c)
    unfolding execute decode special_label exec_special write_reg modify gets ◌>>=◌ ◌>>◌
    nop-runs c = refl

    li-runs :
        (c : Cpu)
        → c.regs 0 ≡ 0
        → execute syscall fpu (decode 0x2002_1017) c
          ≡ ok (tt, record c { regs = update c.regs 2 0x1017 })
    unfolding execute decode exec_immediate addi write_reg put_reg modify gets ◌>>=◌ ◌>>◌ offset
        ◌+ℤ◌
    li-runs c zero_reg = rw zero_reg refl

    syscall-runs : (c : Cpu) → execute syscall fpu (decode 0xc) c ≡ with_saved_pc syscall c
    unfolding execute decode special_label exec_special
    syscall-runs c = refl

    run_insts-step :
        (n insts : ℕ) (c c' : Cpu)
        → step syscall fpu c ≡ ok (tt, c')
        → c'.running ≡ true
        → run_insts syscall fpu (suc n) insts c ≡ run_insts syscall fpu n (insts + 1) c'
    unfolding run_insts
    run_insts-step n insts c c' e running = ground (arith, e, running)

    -- The loop comes in this many rounds to the instruction `syscall`, with these registers, and then
    -- makes the call.
    pub record Calls (rounds : ℕ) (regs : ℕ → ℕ) (c : Cpu) : Type 0 where
      pub space : Space
      pub after : Space
      pub reached :
          (n insts : ℕ)
          → run_insts syscall fpu (rounds + n) insts c
            ≡ run_insts syscall fpu n
                (insts + rounds)
                (record c { regs = regs; space = space; pc = vdso_mapped_at + 16 })
      pub call :
          step syscall fpu (record c { regs = regs; space = space; pc = vdso_mapped_at + 16 })
          ≡ with_saved_pc syscall
              (record c { regs = regs; space = after; pc = vdso_mapped_at + 20 })

    Calls-here :
        (c : Cpu)
        → HasTrampolines others page c.space
        → c.pc ≡ vdso_mapped_at + 16
        → c.pending ≡ 0
        → Calls 0 c.regs c
    Calls-here c t is_pc no_branch =
        let (u, runs, still) = step-runs 4 c t (omega arith) is_pc no_branch in
        let same : record c { pc = vdso_mapped_at + 16 } ≡ c =
          ap (λ (n : ℕ). record c { pc = n }) (sym is_pc) in
        record {
          space = c.space;
          after = u;
          reached = λ n insts.
              let rounds : 0 + n ≡ n = omega arith in
              let count : insts + 0 ≡ insts = omega arith in
              ap (λ k. run_insts syscall fpu k insts c) rounds
              ∙ ap (run_insts syscall fpu n insts) (sym same)
              ∙ ap (λ k. run_insts syscall fpu n k (record c { pc = vdso_mapped_at + 16 }))
                  (sym count);
          call =
              ap (step syscall fpu) same
              ∙ runs
              ∙ syscall-runs (record c { space = u; pc = vdso_mapped_at + 20 });
        }

    -- One more instruction before, which keeps everything but the program counter and the registers.
    Calls-before :
        (j rounds : ℕ) (regs regs' : ℕ → ℕ) (c : Cpu) (u : Space)
        → c.running ≡ true
        → step syscall fpu c
          ≡ ok (tt, record c { regs = regs'; space = u; pc = vdso_mapped_at + 4 * (j + 1) })
        → Calls rounds regs
            (record c { regs = regs'; space = u; pc = vdso_mapped_at + 4 * (j + 1) })
        → Calls (suc rounds) regs c
    Calls-before j rounds regs regs' c u running e later = record {
      space = later.space;
      after = later.after;
      reached = λ n insts.
          let sum : insts + 1 + rounds ≡ insts + suc rounds = omega arith in
          let more : suc rounds + n ≡ suc (rounds + n) = omega arith in
          ap (λ k. run_insts syscall fpu k insts c) more
          ∙ run_insts-step (rounds + n) insts c
              (record c { regs = regs'; space = u; pc = vdso_mapped_at + 4 * (j + 1) }) e running
          ∙ rw sum at (later.reached n (insts + 1));
      call = later.call;
    }

    -- The register in which a call's number is passed, after `n` instructions of the trampolines.
    nop_before :
        (j rounds : ℕ) (regs : ℕ → ℕ) (c : Cpu)
        → HasTrampolines others page c.space
        → trampoline_word j ≡ 0
        → j < 8
        → c.pc ≡ vdso_mapped_at + 4 * j
        → c.pending ≡ 0
        → c.running ≡ true
        → ((u : Space)
            → HasTrampolines others page u
            → Calls rounds regs (record c { space = u; pc = vdso_mapped_at + 4 * (j + 1) }))
        → Calls (suc rounds) regs c
    nop_before j rounds regs c t zero_word small is_pc no_branch running later =
        let (u, runs, still) = step-runs j c t small is_pc no_branch in
        let next = record c { space = u; pc = vdso_mapped_at + 4 * (j + 1) } in
        Calls-before j rounds regs c.regs c u running
          (runs ∙ ap (λ w. execute syscall fpu (decode w) next) zero_word ∙ nop-runs next)
          (later u still)

    -- From byte 8, where setupFrameForSignal lets a handler of an action with siginfo return, the loop
    -- makes a system call with the registers as they are; from the start of the page it makes one
    -- with the number of sigreturn.
    pub trampoline-Calls :
        (is_rt : Bool) (c : Cpu)
        → HasTrampolines others page c.space
        → c.pc ≡ (if is_rt then vdso_mapped_at + 8 else vdso_mapped_at)
        → c.pending ≡ 0
        → c.running ≡ true
        → c.regs 0 ≡ 0
        → Calls (if is_rt then 2 else 4) (if is_rt then c.regs else update c.regs 2 4119) c
    trampoline-Calls true c t is_pc no_branch running zero_reg =
        nop_before 2 1 c.regs c t refl (omega arith) is_pc no_branch running (λ u still.
          nop_before 3 0 c.regs _ still refl (omega arith) refl no_branch running
            (λ v still'. Calls-here _ still' refl no_branch))
    trampoline-Calls false c t is_pc no_branch running zero_reg =
        let (u, runs, still) = step-runs 0 c t (omega arith) is_pc no_branch in
        let next = record c { space = u; pc = vdso_mapped_at + 4 } in
        Calls-before 0 3 (update c.regs 2 4119) (update c.regs 2 4119) c u running
          (runs ∙ li-runs next zero_reg)
          (nop_before 1 2 (update c.regs 2 4119) _ still refl (omega arith) refl no_branch running
            (λ v s1.
              nop_before 2 1 (update c.regs 2 4119) _ s1 refl (omega arith) refl no_branch running
                (λ w s2.
                  nop_before 3 0 (update c.regs 2 4119) _ s2 refl (omega arith) refl no_branch
                    running (λ x s3. Calls-here _ s3 refl no_branch))))
