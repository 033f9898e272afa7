-- ===== src/Cpu/Delay.antt =====
-- Where the branches of src/process.js go, and when.
use noopsys.Base.{ℕ, ◌+◌, ◌%◌, ◌^◌, ◌≡◌, ◌≢◌, arith, Bool, true, false, if◌then◌else◌}
use noopsys.Base.Int.{pos, ◌+ℤ◌, to_uint32}
use noopsys.Base.Result.{ok}
use noopsys.Base.Seal.{◌>>=◌, ◌>>◌, gets, modify}
use noopsys.Cpu.{Cpu, put_reg, branch_to, skip}
use noopsys.Cpu.Alu.{simm}
use noopsys.Cpu.Decode.{Fields}
use noopsys.Cpu.Branch.{branch, branch_likely, link, bgezal, bltzal}
use noopsys.Cpu.Loop.{advance}

-- The address of the instruction after the next, from the address after a branch.
abbrev pub target_of : ℕ → ℕ → ℕ
target_of pc imm = to_uint32 (pos pc +ℤ simm imm +ℤ simm imm +ℤ simm imm +ℤ simm imm)

-- A branch at `c.pc` with nothing pending: the instruction in its delay slot runs next in any
-- case, then the one at the target if the branch is taken and the one after the delay slot if not.
branch-delay :
    (taken : Bool) (imm : ℕ) (c d : Cpu)
    → c.pending ≡ 0
    → target_of (c.pc + 4) imm ≢ 0
    → branch taken imm (advance c) ≡ ok (tt, d)
    → (d.pc ≡ c.pc + 4)
      × ((advance d).pc ≡ (if taken then target_of (c.pc + 4) imm else c.pc + 8))
      × ((advance d).pending ≡ 0)
unfolding branch branch_to advance modify
branch-delay true imm c d still target h = ground arith
branch-delay false imm c d still target h = ground arith

-- A likely branch that is not taken skips its delay slot.
branch_likely-delay :
    (taken : Bool) (imm : ℕ) (c d : Cpu)
    → c.pending ≡ 0
    → branch_likely taken imm (advance c) ≡ ok (tt, d)
    → (d.pc ≡ (if taken then c.pc + 4 else c.pc + 8))
      × (d.pending % 2 ^ 32 ≡ (if taken then target_of (c.pc + 4) imm else 0))
unfolding branch_likely branch_to skip advance modify
branch_likely-delay true imm c d still h = ground arith
branch_likely-delay false imm c d still h = ground arith

-- `bltzal` branches whatever its operand is, as its label falls through to the one of `bgezal`.
bltzal-always :
    (f : Fields) (c d : Cpu)
    → f.rs ≢ 31
    → bltzal f c ≡ ok (tt, d)
    → (d.pending % 2 ^ 32 ≡ target_of c.pc f.imm) × (d.regs 31 ≡ (c.pc + 4) % 2 ^ 32)
unfolding bltzal bgezal branch branch_to link put_reg ◌>>=◌ ◌>>◌ gets modify
bltzal-always f c d apart h = ground arith
