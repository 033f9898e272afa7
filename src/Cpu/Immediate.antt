-- ===== src/Cpu/Immediate.antt =====
-- The instructions with an immediate operand (src/process.js). `addi` does not trap on overflow, as
-- `addiu`.
use noopsys.Base.{bit_and, bit_or, bit_xor, ltb, if◌then◌else◌}
use noopsys.Base.Int.{to_uint32, to_int32, ltb_ℤ}
use noopsys.Base.Word.{◌<<◌}
use noopsys.Base.Seal.{◌>>=◌}
use noopsys.Cpu.{Step, write_reg, reg}
use noopsys.Cpu.Alu.{simm, offset}
use noopsys.Cpu.Decode.{Fields}

unfoldable pub addi : Fields → Step
unfolding write_reg
addi f = do s ← reg f.rs; write_reg f.rt (to_uint32 (offset s f.imm))

unfoldable pub slti : Fields → Step
unfolding write_reg
slti f = do s ← reg f.rs; write_reg f.rt (if ltb_ℤ (to_int32 s) (simm f.imm) then 1 else 0)

unfoldable pub sltiu : Fields → Step
unfolding write_reg
sltiu f = do s ← reg f.rs; write_reg f.rt (if ltb s (to_uint32 (simm f.imm)) then 1 else 0)

unfoldable pub andi : Fields → Step
unfolding write_reg
andi f = do s ← reg f.rs; write_reg f.rt (bit_and s f.imm)

unfoldable pub ori : Fields → Step
unfolding write_reg
ori f = do s ← reg f.rs; write_reg f.rt (bit_or s f.imm)

unfoldable pub xori : Fields → Step
unfolding write_reg
xori f = do s ← reg f.rs; write_reg f.rt (bit_xor s f.imm)

unfoldable pub lui : Fields → Step
unfolding write_reg
lui f = write_reg f.rt (f.imm << 16)
