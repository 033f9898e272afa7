-- ===== src/Cpu/Guest/Flow.antt =====
-- Branches, jumps and immediate operands (`runInstLoop` and `doRegImmInst` in src/process.js).
use noopsys.Base.{ℕ, ◌+◌, Bool, true, false, List, refl, arith}
use noopsys.Base.Seal.{
  Keeps, Keeps-gets, Keeps-if, Keeps-throw, Keeps-modify, Keeps->>=, Keeps->>, ◌>>◌,
}
use noopsys.Space.{Vm}
use noopsys.Cpu.{Step, branch_to, skip}
use noopsys.Cpu.Guest.{
  Guest, Guest-refl, Guest-trans, put_reg-Guest, write_reg-Keeps, flow-Keeps, save_pc-Keeps,
  restore_pc-Keeps,
}
use noopsys.Cpu.Branch.{
  branch, branch_likely, link, bgezal, bltzal, with_kept_pc, exec_regimm, jump, jump_and_link,
}
use noopsys.Cpu.Immediate.{addi, slti, sltiu, andi, ori, xori, lui}
use noopsys.Cpu.Decode.{Fields}
use noopsys.Cpu.Alu.{simm}
use noopsys.Cpu.Loop.{exec_branch, exec_immediate}

module _ (others : List Vm) where
  branch-Keeps : (taken : Bool) (imm : ℕ) → Keeps (Guest others) (branch taken imm)
  unfolding branch branch_to
  branch-Keeps true imm = flow-Keeps others (branch_to (simm imm)) (λ c. refl) (λ c. refl)
  branch-Keeps false imm = flow-Keeps others (λ c. c) (λ c. refl) (λ c. refl)

  branch_likely-Keeps : (taken : Bool) (imm : ℕ) → Keeps (Guest others) (branch_likely taken imm)
  unfolding branch_likely branch_to skip
  branch_likely-Keeps true imm = flow-Keeps others (branch_to (simm imm)) (λ c. refl) (λ c. refl)
  branch_likely-Keeps false imm = flow-Keeps others skip (λ c. refl) (λ c. refl)

  link-Keeps : Keeps (Guest others) link
  unfolding link
  link-Keeps =
      Keeps-modify (Guest others) (Guest-refl others) (Guest-trans others) _
        (λ c. put_reg-Guest others 31 (c.pc + 4) c (omega arith))

  pub jump-Keeps : (target : ℕ) → Keeps (Guest others) (jump target)
  unfolding jump
  jump-Keeps target = flow-Keeps others _ (λ c. refl) (λ c. refl)

  pub jump_and_link-Keeps : (target : ℕ) → Keeps (Guest others) (jump_and_link target)
  unfolding jump_and_link
  jump_and_link-Keeps target =
      search (Keeps->>, Guest-refl, Guest-trans, jump-Keeps, link-Keeps) depth 8

  bgezal-Keeps : (f : Fields) → Keeps (Guest others) (bgezal f)
  unfolding bgezal
  bgezal-Keeps f =
      search (Keeps->>=, Keeps->>, Keeps-gets, Guest-refl, Guest-trans, link-Keeps, branch-Keeps)
        depth 12

  bltzal-Keeps : (f : Fields) → Keeps (Guest others) (bltzal f)
  unfolding bltzal
  bltzal-Keeps f =
      search
        (
          Keeps->>=, Keeps->>, Keeps-gets, Guest-refl, Guest-trans, link-Keeps, branch-Keeps,
          bgezal-Keeps,
        )
        depth 12

  pub exec_regimm-Keeps : (f : Fields) → Keeps (Guest others) (exec_regimm f)
  unfolding exec_regimm
  exec_regimm-Keeps f =
      search
        (
          Keeps->>=, Keeps->>, Keeps-gets, Keeps-if, Keeps-throw, Guest-refl, Guest-trans,
          branch-Keeps, branch_likely-Keeps, bgezal-Keeps, bltzal-Keeps,
        )
        depth 20

  pub with_kept_pc-Keeps :
      (body : Step) → Keeps (Guest others) body → Keeps (Guest others) (with_kept_pc body)
  with_kept_pc-Keeps body k = then_Keeps (save_pc-Keeps others) (
      then_Keeps (restore_pc-Keeps others)
        (then_Keeps k (then_Keeps (save_pc-Keeps others) (restore_pc-Keeps others))))
    where
      then_Keeps :
          {m k : Step}
          → Keeps (Guest others) m
          → Keeps (Guest others) k
          → Keeps (Guest others) (m >> k)
      then_Keeps = Keeps->> (Guest others) (Guest-refl others) (Guest-trans others)

  pub exec_branch-Keeps : (f : Fields) → Keeps (Guest others) (exec_branch f)
  unfolding exec_branch
  exec_branch-Keeps f =
      search
        (
          Keeps->>=, Keeps-gets, Keeps-if, Guest-refl, Guest-trans, branch-Keeps,
          branch_likely-Keeps,
        )
        depth 20

  pub exec_immediate-Keeps : (f : Fields) → Keeps (Guest others) (exec_immediate f)
  unfolding exec_immediate addi slti sltiu andi ori xori lui
  exec_immediate-Keeps f =
      search (Keeps->>=, Keeps-gets, Keeps-if, Guest-refl, Guest-trans, write_reg-Keeps) depth 20
