-- ===== src/Cpu/Branch.antt =====
-- Branches, among them `doRegImmInst`, and the jumps (src/process.js).
use noopsys.Base.{ℕ, ◌+◌, ◌^◌, bit_and, bit_or, Bool, not, ◌||◌, leb, ◌==◌, if◌then◌else◌}
use noopsys.Base.Word.{◌<<◌}
use noopsys.Base.Result.{bad_regimm, not_implemented}
use noopsys.Base.Seal.{throw, ◌>>=◌, ◌>>◌, modify}
use noopsys.Cpu.{Step, put_reg, reg, branch_to, skip, save_pc, restore_pc}
use noopsys.Cpu.Decode.{Fields}
use noopsys.Cpu.Alu.{simm}

-- `(v >> 0) < 0`
abbrev pub is_neg : ℕ → Bool
is_neg v = leb (2 ^ 31) v

-- A plain branch, and a likely one, which skips the next instruction if it is not taken.
unfoldable pub branch : Bool → ℕ → Step
unfolding branch_to simm
branch taken imm = modify λ c. if taken then branch_to (simm imm) c else c

unfoldable pub branch_likely : Bool → ℕ → Step
unfolding branch_to simm skip
branch_likely taken imm = modify λ c. if taken then branch_to (simm imm) c else skip c

-- `doRegImmInst` works on the words of the register array that `pc` and `pending` are stored in,
-- and the loop reads them back: what it adds to `registers[STATE_PC]` wraps.
abbrev pub with_kept_pc : Step → Step
with_kept_pc body = do modify save_pc; modify restore_pc; body; modify save_pc; modify restore_pc

unfoldable pub link : Step
unfolding put_reg
link = modify λ c. put_reg 31 (c.pc + 4) c

-- `doRegImmInst`. The label of `bltzal` has no `break`, so `bgezal` follows it.
unfoldable pub bgezal : Fields → Step
unfolding branch link
bgezal f = do link; s ← reg f.rs; branch (not (is_neg s)) f.imm

unfoldable pub bltzal : Fields → Step
unfolding bgezal
bltzal f = do link; s ← reg f.rs; branch (is_neg s) f.imm; bgezal f

unfoldable pub exec_regimm : Fields → Step
unfolding branch branch_likely bltzal
exec_regimm f = do
  s ← reg f.rs
  if f.rt == 0
      then branch (is_neg s) f.imm
      else if f.rt == 1
      then branch (not (is_neg s)) f.imm
      else if f.rt == 2
      then branch_likely (is_neg s) f.imm
      else if f.rt == 3
      then branch_likely (not (is_neg s)) f.imm
      else if f.rt == 16
      then bltzal f
      else if f.rt == 17
      then bgezal f
      else if f.rt == 18 || f.rt == 19
      then throw not_implemented
      else throw bad_regimm

-- `pending = (pc & 0xf0000000) | (target << 2)`
unfoldable pub jump : ℕ → Step
jump target = modify λ c. record c { pending = bit_or (bit_and c.pc 0xf000_0000) (target << 2) }

unfoldable pub jump_and_link : ℕ → Step
unfolding jump link
jump_and_link target = do jump target; link
