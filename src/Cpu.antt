-- ===== src/Cpu.antt =====
-- The processor of src/process.js: the registers, and the local variables of `runInstLoop`.
-- `pc` is the number that the variable holds, which may pass 2^32 in the delay slot of a jump to the
-- end of the address space; where the program stores it in its registers and reads it back, it wraps.
-- `pending` is the number of its variable too, but a negative one is kept as the word that
-- `pending >>> 0` makes of it, since that is all that is read of it.
pub mod Alu
pub mod Multiply
pub mod Merge
pub mod Divide
pub mod Formats
pub mod Delay
pub mod Decode
pub mod Special
pub mod Branch
pub mod Immediate
pub mod Transfer
pub mod Loop
pub mod Guest
pub mod Tests
use noopsys.Base.{
  ℕ, ◌+◌, ◌*◌, ◌≡◌, Bool, true, false, Option, none, some, if◌then◌else◌, ◌==◌, update,
}
use noopsys.Base.Int.{ℤ, pos, negsuc, ◌+ℤ◌, to_uint32}
use noopsys.Base.Word.{u32}
use noopsys.Base.Result.{Result, ok, err, Action}
use noopsys.Base.Seal.{pure, ◌>>=◌, ◌>>◌, gets, modify}
use noopsys.Space.{Space}

-- Indices into the register array: 32 integer and 32 floating-point registers come first.
abbrev pub state_pc : ℕ
state_pc = 64

abbrev pub state_pending_branch : ℕ
state_pending_branch = 65

abbrev pub state_reg_low : ℕ
state_reg_low = 66

abbrev pub state_reg_high : ℕ
state_reg_high = 67

pub record Cpu : Type 0 where
  pub regs : ℕ → ℕ
  pub pc : ℕ
  pub pending : ℕ
  pub space : Space
  pub running : Bool
  pub exited : Bool
  pub tls_addr : ℕ

abbrev pub Step : Type 0
Step = Action Cpu (Unit {0})

-- `registers[r] = v`
unfoldable pub put_reg : ℕ → ℕ → Cpu → Cpu
put_reg r v c = record c { regs = update c.regs r (u32 v) }

-- `if (r == 0) break; registers[r] = v`
unfoldable pub write_reg : ℕ → ℕ → Step
unfolding put_reg
write_reg r v = modify λ c. if r == 0 then c else put_reg r v c

abbrev pub reg : ℕ → Action Cpu ℕ
reg r = gets λ c. c.regs r

-- A memory access of the process.
unfoldable pub on_space : {A : Type 0} → Action Space A → Action Cpu A
on_space m c = elim (m c.space) [ ok (a, s) ↦ ok (a, record c { space = s }) | err e ↦ err e ]

-- The value of `pending`: a sum that is not negative may pass 2^32, and is no 0 then.
abbrev pub kept_pending : ℤ → ℕ
kept_pending (pos n) = n
kept_pending (negsuc n) = to_uint32 (negsuc n)

-- `pending = pc + (simm << 2)`
unfoldable pub branch_to : ℤ → Cpu → Cpu
branch_to simm c = record c { pending = kept_pending (pos c.pc +ℤ simm +ℤ simm +ℤ simm +ℤ simm) }

-- What a likely branch that is not taken skips.
unfoldable pub skip : Cpu → Cpu
skip c = record c { pc = c.pc + 4 }

-- `registers[STATE_PC] = pc; registers[STATE_PENDINGBRANCH] = pending`
unfoldable pub save_pc : Cpu → Cpu
unfolding put_reg
save_pc c = put_reg state_pending_branch c.pending (put_reg state_pc c.pc c)

-- `pc = registers[STATE_PC]; pending = registers[STATE_PENDINGBRANCH]`
unfoldable pub restore_pc : Cpu → Cpu
restore_pc c = record c { pc = c.regs state_pc; pending = c.regs state_pending_branch }
