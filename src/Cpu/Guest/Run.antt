-- ===== src/Cpu/Guest/Run.antt =====
-- The interpreter as a whole (`runInstLoop` in src/process.js): one instruction, and many.
use noopsys.Base.{
  ℕ, ◌≤◌, ◌∷◌, zero, suc, ◌+◌, true, false, List, refl, arith, ◌==◌, ◌≡◌, ◌⊎◌, inl, inr, Bool-cases,
}
use noopsys.Base.Int.{pos}
use noopsys.Base.Word.{u32, ◌>>>◌}
use noopsys.Base.Result.{Result, ok, err, not_implemented}
use noopsys.Base.Seal.{Keeps, modify, throw, Keeps-gets, Keeps-if, Keeps-throw, Keeps->>=, Keeps->>}
use noopsys.Space.{Vm, Space, exec}
use noopsys.Space.Safe.{IsSafe}
use noopsys.Space.Kept.{Kept, IsolatedFrom, isolated_refl, translate-Kept}
use noopsys.Cpu.{Cpu, Step, put_reg, save_pc, restore_pc, state_pc, state_pending_branch}
use noopsys.Cpu.Decode.{Fields, special_label}
use noopsys.Cpu.Branch.{with_kept_pc, exec_regimm}
use noopsys.Cpu.Special.{exec_special, with_saved_pc}
use noopsys.Cpu.Loop.{
  fetch_address, fetch, advance, exec_extra, execute, step, rewind, run_insts, run_inst_loop,
}
use noopsys.Cpu.Guest.{
  IsSound, Guest, Guest-refl, Guest-trans, put_reg-Guest, write_reg-Keeps, on_space-Keeps,
  flow-Keeps, save_pc-Guest,
}
use noopsys.Cpu.Guest.Flow.{
  exec_branch-Keeps, exec_immediate-Keeps, exec_regimm-Keeps, with_kept_pc-Keeps, jump-Keeps,
  jump_and_link-Keeps,
}
use noopsys.Cpu.Guest.Special.{exec_special-Keeps, with_saved_pc-Keeps}
use noopsys.Cpu.Guest.Transfer.{exec_load-Keeps, exec_store-Keeps, exec_linked-Keeps}

module _ (others : List Vm) where
  fetch_address-Kept : (pc : ℕ) → Keeps (IsolatedFrom others) (fetch_address pc)
  unfolding fetch_address
  fetch_address-Kept pc = record { holds = λ s s' at h. go s s' at h (Bool-cases _) }
    where
      go :
          (s s' : Space) (at : ℕ)
          → fetch_address pc s ≡ ok (at, s')
          → (((u32 pc >>> 16) == s.vm.tlb.opt_old_code_addr) ≡ true)
            ⊎ (((u32 pc >>> 16) == s.vm.tlb.opt_old_code_addr) ≡ false)
          → IsolatedFrom others s s'
      go s s' at h (inl hit) = let e : s ≡ s' = ground arith in rw (← e) (isolated_refl others s)
      go s s' at h (inr miss) = (translate-Kept others (pos pc) exec).holds s s' at (ground arith)

  fetch-Keeps : Keeps (Guest others) fetch
  unfolding fetch
  fetch-Keeps =
      search (Keeps->>=, Keeps-gets, Guest-refl, Guest-trans, on_space-Keeps, fetch_address-Kept)
        depth 10

  advance-Keeps : Keeps (Guest others) (modify advance)
  unfolding advance
  advance-Keeps = flow-Keeps others advance (λ c. ground arith) (λ c. ground arith)

  exec_extra-Keeps : (f : Fields) → Keeps (Guest others) (exec_extra f)
  unfolding exec_extra
  exec_extra-Keeps f =
      search
        (Keeps->>=, Keeps-gets, Keeps-if, Keeps-throw, Guest-refl, Guest-trans, write_reg-Keeps)
        depth 12

  module _ (syscall : Step) (fpu : Fields → Step) (syscall-Keeps : Keeps (Guest others) syscall)
      (fpu-Keeps : (f : Fields) → Keeps (Guest others) (fpu f)) where
    special-Keeps :
        (f : Fields) → Keeps (Guest others) (exec_special syscall (special_label f.sub_opcode) f)
    special-Keeps f = exec_special-Keeps others syscall syscall-Keeps (special_label f.sub_opcode) f

    regimm-Keeps : (f : Fields) → Keeps (Guest others) (with_kept_pc (exec_regimm f))
    regimm-Keeps f = with_kept_pc-Keeps others (exec_regimm f) (exec_regimm-Keeps others f)

    float-Keeps : (f : Fields) → Keeps (Guest others) (with_saved_pc (fpu f))
    float-Keeps f = with_saved_pc-Keeps others (fpu f) (fpu-Keeps f)

    execute-Keeps : (f : Fields) → Keeps (Guest others) (execute syscall fpu f)
    unfolding execute
    execute-Keeps f =
        search
          (
            Keeps-if, Keeps-throw, Guest-refl, Guest-trans, special-Keeps, regimm-Keeps, jump-Keeps,
            jump_and_link-Keeps, exec_branch-Keeps, exec_immediate-Keeps, float-Keeps,
            exec_extra-Keeps, exec_load-Keeps, exec_store-Keeps, exec_linked-Keeps,
          )
          depth 20

    pub step-Keeps : Keeps (Guest others) (step syscall fpu)
    unfolding step
    step-Keeps =
        search
          (Keeps->>=, Keeps->>, Guest-refl, Guest-trans, fetch-Keeps, advance-Keeps, execute-Keeps)
          depth 10

    rewind-Guest : (pc pending : ℕ) (c : Cpu) → Guest others c (rewind syscall fpu pc pending c)
    unfolding rewind
    rewind-Guest pc pending c = elim (Bool-cases c.exited) [
      | inl gone ↦
          let e : c ≡ rewind syscall fpu pc pending c = ground arith in
          rw (← e) (Guest-refl others c)
      | inr stopped ↦
          let e : put_reg state_pending_branch pending (put_reg state_pc pc c)
              ≡ rewind syscall fpu pc pending c =
            ground arith in
          rw (← e) (
            Guest-trans others c (put_reg state_pc pc c) _
              (put_reg-Guest others state_pc pc c (omega arith))
              (put_reg-Guest others state_pending_branch pending (put_reg state_pc pc c)
                (omega arith)))
    ]

    pub run_insts-Guest : (n insts : ℕ) → Keeps (Guest others) (run_insts syscall fpu n insts)
    unfolding run_insts
    run_insts-Guest zero insts = record {
      holds =
          λ c c' k h. let e : save_pc c ≡ c' = ground arith in rw (← e) (save_pc-Guest others c);
    }
    run_insts-Guest (suc n) insts = record {
      holds = λ c c' k h. go (run_insts-Guest n (insts + 1)) c c' k (step syscall fpu c) refl h;
    }
      where
        go :
            Keeps (Guest others) (run_insts syscall fpu n (insts + 1))
            → (c c' : Cpu) (k : ℕ) (r : Result (Unit {0} × Cpu)) → step syscall fpu c ≡ r
            → run_insts syscall fpu (suc n) insts c ≡ ok (k, c')
            → Guest others c c'
        go rest c c' k (ok (u, d)) e h =
            Guest-trans others c d c' (step-Keeps.holds c d u e) (elim (Bool-cases d.running) [
              | inl on ↦ rest.holds d c' k (ground arith)
              | inr off ↦
                  let g : rewind syscall fpu c.pc c.pending d ≡ c' = ground arith in
                  rw (← g) (rewind-Guest c.pc c.pending d)
            ])
        go rest c c' k (err x) e h = absurd (ground arith)

    -- The loop reports no more instructions than it was given.
    run_insts-count :
        (n insts k : ℕ) (c c' : Cpu)
        → run_insts syscall fpu n insts c ≡ ok (k, c')
        → (insts ≤ k) × (k ≤ insts + n)
    unfolding run_insts
    run_insts-count zero insts k c c' h = ground arith
    run_insts-count (suc n) insts k c c' h =
        go (run_insts-count n (insts + 1) k) (step syscall fpu c) refl
      where
        go :
            ((d d' : Cpu)
              → run_insts syscall fpu n (insts + 1) d ≡ ok (k, d')
              → (insts + 1 ≤ k) × (k ≤ insts + 1 + n))
            → (r : Result (Unit {0} × Cpu)) → step syscall fpu c ≡ r
            → (insts ≤ k) × (k ≤ insts + suc n)
        go rest (ok (u, d)) e = elim (Bool-cases d.running) [
          | inl on ↦ let r = rest d c' (ground arith) in ground arith
          | inr off ↦ ground arith
        ]
        go rest (err x) e = absurd (ground arith)

run_insts-Kept :
    (others : List Vm) (syscall : Step) (fpu : Fields → Step)
    → Keeps (Guest others) syscall
    → ((f : Fields) → Keeps (Guest others) (fpu f))
    → (n k : ℕ) (c c' : Cpu) → IsSound c
    → IsSafe c.space.phys (c.space.vm ∷ others)
    → run_insts syscall fpu n 0 c ≡ ok (k, c')
    → (k ≤ n) × IsSound c' × Kept others c.space c'.space
run_insts-Kept others syscall fpu syscall_keeps fpu_keeps n k c c' sound safe h =
    let e =
      (run_insts-Guest others syscall fpu syscall_keeps fpu_keeps n 0).holds c c' k h sound safe in
    (
      omega (arith, (run_insts-count others syscall fpu syscall_keeps fpu_keeps n 0 k c c' h).1),
      e.sound,
      e.kept,
    )

-- What ends a stretch of instructions that are neither system calls nor floating-point ones.
abbrev pub ends : Step
ends = throw not_implemented

-- Whatever instructions a process runs that are neither system calls nor floating-point
-- instructions, for whatever number of them: if the loop returns without having met one of those, it
-- reports no more instructions than it was given, register 0 is 0, the registers are words, the
-- page tables of all processes are safe, and no other process sees a byte of its memory change.
-- Before the loop register 0 is 0, the registers are words and the page tables are safe.
pub run_inst_loop-isolated :
    (others : List Vm) (n k : ℕ) (c c' : Cpu)
    → IsSound c
    → IsSafe c.space.phys (c.space.vm ∷ others)
    → run_inst_loop ends (λ _. ends) n c ≡ ok (k, c')
    → (k ≤ n) × IsSound c' × Kept others c.space c'.space
unfolding run_inst_loop restore_pc
run_inst_loop-isolated others n k c c' sound safe h =
    run_insts-Kept others ends (λ _. ends) ends-Keeps (λ _. ends-Keeps) n k (restore_pc c) c'
      (record { zero_reg = sound.zero_reg; words = sound.words }) safe h
  where
    ends-Keeps : Keeps (Guest others) ends
    ends-Keeps = search (Keeps-throw, Guest-refl, Guest-trans) depth 4
