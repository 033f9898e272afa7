-- ===== src/Cpu/Loop.antt =====
-- `runInstLoop` of src/process.js: fetch, the delay slot, the dispatch on the opcode, and the loop.
-- The delivery of queued signals before it is left out.
use noopsys.Base.{ℕ, zero, suc, ◌+◌, ◌%◌, ◌^◌, Bool, not, ◌&&◌, ◌||◌, ltb, leb, ◌==◌, if◌then◌else◌}
use noopsys.Base.Int.{pos}
use noopsys.Base.Word.{u32, ◌>>>◌}
use noopsys.Base.Result.{bad_instruction, unhandled_rdhwr, coprocessor, ok, err, Action}
use noopsys.Base.Seal.{throw, ◌>>=◌, ◌>>◌, gets, modify}
use noopsys.Physical.Words.{read_word}
use noopsys.Space.{Space, exec}
use noopsys.Space.Translate.{translate}
use noopsys.Cpu.{
  Cpu, Step, put_reg, write_reg, reg, on_space, save_pc, restore_pc, state_pc, state_pending_branch,
}
use noopsys.Cpu.Decode.{Fields, decode, special_label}
use noopsys.Cpu.Special.{exec_special, with_saved_pc}
use noopsys.Cpu.Branch.{
  is_neg, branch, branch_likely, with_kept_pc, exec_regimm, jump, jump_and_link,
}
use noopsys.Cpu.Immediate.{addi, slti, sltiu, andi, ori, xori, lui}
use noopsys.Cpu.Transfer.{
  lb, lh, lwl, lw, lbu, lhu, lwr, sb, sh, swl, sw, swr, ll, sc, lwc1, ldc1, swc1, sdc1,
}

-- The address that an instruction is fetched from: the newest code page is tried in the loop.
unfoldable pub fetch_address : ℕ → Action Space ℕ
fetch_address pc s =
    if (u32 pc >>> 16) == s.vm.tlb.opt_old_code_addr
    then ok (s.vm.tlb.opt_old_code_phys_page + pc % 2 ^ 16, s)
    else translate (pos pc) exec s

unfoldable pub fetch : Action Cpu ℕ
unfolding fetch_address
fetch = do
  pc ← gets λ c. c.pc
  at ← on_space (fetch_address pc)
  gets λ c. read_word c.space.phys.mem (at >>> 2)

-- After the fetch: the next instruction is the one at a branch that was pending, `pending >>> 0`.
unfoldable pub advance : Cpu → Cpu
advance c =
    if c.pending == 0
    then record c { pc = c.pc + 4 }
    else record c { pc = u32 c.pending; pending = 0 }

-- `rdhwr` is emulated for the thread pointer only.
unfoldable pub exec_extra : Fields → Step
unfolding write_reg
exec_extra f =
    if not (f.sub_opcode == 59)
    then throw bad_instruction
    else if not (f.rd == 29)
    then throw unhandled_rdhwr
    else (do t ← gets λ c. c.tls_addr; write_reg f.rt t)

unfoldable pub exec_branch : Fields → Step
unfolding branch branch_likely
exec_branch f = do
  s ← reg f.rs
  t ← reg f.rt
  if f.opcode == 4
      then branch (s == t) f.imm
      else if f.opcode == 20
      then branch_likely (s == t) f.imm
      else if f.opcode == 5
      then branch (not (s == t)) f.imm
      else if f.opcode == 21
      then branch_likely (not (s == t)) f.imm
      else if f.opcode == 6
      then branch (is_neg s || (s == 0)) f.imm
      else if f.opcode == 22
      then branch_likely (is_neg s || (s == 0)) f.imm
      else if f.opcode == 7
      then branch (not (is_neg s || (s == 0))) f.imm
      else branch_likely (not (is_neg s || (s == 0))) f.imm

unfoldable pub exec_immediate : Fields → Step
exec_immediate f =
    if f.opcode == 8 || f.opcode == 9
    then addi f
    else if f.opcode == 10
    then slti f
    else if f.opcode == 11
    then sltiu f
    else if f.opcode == 12
    then andi f
    else if f.opcode == 13
    then ori f
    else if f.opcode == 14
    then xori f
    else lui f

unfoldable pub exec_load : Fields → Step
exec_load f =
    if f.opcode == 32
    then lb f
    else if f.opcode == 33
    then lh f
    else if f.opcode == 34
    then lwl f
    else if f.opcode == 35
    then lw f
    else if f.opcode == 36
    then lbu f
    else if f.opcode == 37
    then lhu f
    else if f.opcode == 38
    then lwr f
    else throw bad_instruction

unfoldable pub exec_store : Fields → Step
exec_store f =
    if f.opcode == 40
    then sb f
    else if f.opcode == 41
    then sh f
    else if f.opcode == 42
    then swl f
    else if f.opcode == 43
    then sw f
    else if f.opcode == 46
    then swr f
    else throw bad_instruction

unfoldable pub exec_linked : Fields → Step
exec_linked f =
    if f.opcode == 48
    then ll f
    else if f.opcode == 49
    then lwc1 f
    else if f.opcode == 53
    then ldc1 f
    else if f.opcode == 56
    then sc f
    else if f.opcode == 57
    then swc1 f
    else if f.opcode == 61
    then sdc1 f
    else if f.opcode == 54 || f.opcode == 55 || f.opcode == 62 || f.opcode == 63
    then throw coprocessor
    else throw bad_instruction

abbrev pub is_branch : ℕ → Bool
is_branch op = leb 4 op && leb op 7 || leb 20 op && leb op 23

abbrev pub is_immediate : ℕ → Bool
is_immediate op = leb 8 op && leb op 15

module _ (syscall : Step) (fpu : Fields → Step) where
  -- The `switch` on the opcode. `syscall` is the method that dispatches system calls, and `fpu`
  -- is `runFpuInst`.
  unfoldable pub execute : Fields → Step
  execute f =
      if f.opcode == 0
      then exec_special syscall (special_label f.sub_opcode) f
      else if f.opcode == 1
      then with_kept_pc (exec_regimm f)
      else if f.opcode == 2
      then jump f.target
      else if f.opcode == 3
      then jump_and_link f.target
      else if is_branch f.opcode
      then exec_branch f
      else if is_immediate f.opcode
      then exec_immediate f
      else if f.opcode == 17
      then with_saved_pc (fpu f)
      else if leb 16 f.opcode && ltb f.opcode 31
      then throw coprocessor
      else if f.opcode == 31
      then exec_extra f
      else if leb 32 f.opcode && leb f.opcode 39
      then exec_load f
      else if leb 40 f.opcode && leb f.opcode 47
      then exec_store f
      else exec_linked f

  unfoldable pub step : Step
  unfolding fetch advance decode execute ◌>>=◌ ◌>>◌ modify gets
  step = do inst ← fetch; modify advance; execute (decode inst)

  -- A process that stopped in a system call is put back to the instruction, to run it again.
  unfoldable pub rewind : (oldpc oldpending : ℕ) → Cpu → Cpu
  unfolding put_reg
  rewind oldpc oldpending c =
      if c.exited then c else put_reg state_pending_branch oldpending (put_reg state_pc oldpc c)

  -- The loop with `n` rounds left; the result is the number of instructions run before the one
  -- that stopped the process, or of all.
  unfoldable pub run_insts : ℕ → ℕ → Action Cpu ℕ
  unfolding step rewind save_pc
  run_insts zero insts c = ok (insts, save_pc c)
  run_insts (suc n) insts c = elim (step c) [
    | ok (_, c') ↦
        let rest = run_insts n (insts + 1) c' in
        if c'.running then rest else ok (insts, rewind c.pc c.pending c')
    | err e ↦ err e
  ]

  -- `runInstLoop` for `n` instructions: the two variables start with what the registers hold.
  unfoldable pub run_inst_loop : ℕ → Action Cpu ℕ
  unfolding run_insts restore_pc
  run_inst_loop n c = run_insts n 0 (restore_pc c)
