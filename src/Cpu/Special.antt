-- ===== src/Cpu/Special.antt =====
-- The instructions under opcode 0 (src/process.js). `add` and `sub` do not trap on overflow, as
-- `addu` and `subu`.
use noopsys.Base.{ℕ, ◌+◌, ◌/◌, ◌%◌, ◌^◌, bit_and, bit_or, bit_xor, true, false, ◌==◌, if◌then◌else◌}
use noopsys.Base.Word.{u32, ◌>>>◌, ◌<<◌}
use noopsys.Base.Result.{breakpoint as breakpoint_error, trap, bad_instruction, not_implemented}
use noopsys.Base.Seal.{pure, throw, ◌>>=◌, ◌>>◌, gets, modify, throw_if}
use noopsys.Cpu.{Step, put_reg, write_reg, reg, save_pc, restore_pc, state_reg_low, state_reg_high}
use noopsys.Cpu.Alu.{
  asr, sub32, nor as nor_word, slt as slt_word, sltu as sltu_word, div_low, div_high, signed_mult,
  unsigned_mult,
}
use noopsys.Cpu.Decode.{
  Special, sll, srl, sra, sllv, srlv, srav, jr, jalr, syscall, breakpoint, sync, mfhi, mthi, mflo,
  mtlo, mult, multu, div, divu, add, addu, sub, subu, and, or, xor, nor, slt, sltu, tge, tgeu, tlt,
  tltu, teq, tne, unknown, Fields,
}

abbrev pub put_product : ℕ × ℕ → Step
put_product p = modify λ c. put_reg state_reg_high p.1 (put_reg state_reg_low p.0 c)

-- `this.syscall()`, between saving and restoring the two variables of the loop.
abbrev pub with_saved_pc : Step → Step
with_saved_pc handler = do modify save_pc; handler; modify restore_pc

-- The system calls are handled outside the processor: `handler` is `this.syscall`.
unfoldable pub exec_special : Step → Special → Fields → Step
unfolding put_reg write_reg asr sub32 nor_word slt_word sltu_word
exec_special handler sll f = do t ← reg f.rt; write_reg f.rd (t << f.sa)
exec_special handler srl f = do t ← reg f.rt; write_reg f.rd (t >>> f.sa)
exec_special handler sra f = do t ← reg f.rt; write_reg f.rd (asr t f.sa)
exec_special handler sllv f = do t ← reg f.rt; s ← reg f.rs; write_reg f.rd (t << s % 2 ^ 5)
exec_special handler srlv f = do t ← reg f.rt; s ← reg f.rs; write_reg f.rd (t >>> s % 2 ^ 5)
exec_special handler srav f = do t ← reg f.rt; s ← reg f.rs; write_reg f.rd (asr t (s % 2 ^ 5))
exec_special handler jr f = do s ← reg f.rs; modify λ c. record c { pending = s }
exec_special handler jalr f = do
  s ← reg f.rs
  modify λ c. record c { pending = s }
  pc ← gets λ c. c.pc
  write_reg f.rd (pc + 4)
exec_special handler syscall f = with_saved_pc handler
exec_special handler breakpoint f = throw breakpoint_error
exec_special handler sync f = pure tt
exec_special handler mfhi f = do h ← reg state_reg_high; write_reg f.rd h
exec_special handler mthi f = do s ← reg f.rs; modify (put_reg state_reg_high s)
exec_special handler mflo f = do l ← reg state_reg_low; write_reg f.rd l
exec_special handler mtlo f = do s ← reg f.rs; modify (put_reg state_reg_low s)
exec_special handler mult f = do t ← reg f.rt; s ← reg f.rs; put_product (signed_mult t s)
exec_special handler multu f = do t ← reg f.rt; s ← reg f.rs; put_product (unsigned_mult t s)
exec_special handler div f = do
  t ← reg f.rt
  s ← reg f.rs
  if t == 0 then pure tt else put_product (div_low s t, div_high s t)
exec_special handler divu f = do
  t ← reg f.rt
  s ← reg f.rs
  if t == 0 then pure tt else put_product (s / t, s % t)
exec_special handler add f = do t ← reg f.rt; s ← reg f.rs; write_reg f.rd (u32 (t + s))
exec_special handler addu f = do t ← reg f.rt; s ← reg f.rs; write_reg f.rd (u32 (t + s))
exec_special handler sub f = do t ← reg f.rt; s ← reg f.rs; write_reg f.rd (sub32 s t)
exec_special handler subu f = do t ← reg f.rt; s ← reg f.rs; write_reg f.rd (sub32 s t)
exec_special handler and f = do t ← reg f.rt; s ← reg f.rs; write_reg f.rd (bit_and t s)
exec_special handler or f = do t ← reg f.rt; s ← reg f.rs; write_reg f.rd (bit_or t s)
exec_special handler xor f = do t ← reg f.rt; s ← reg f.rs; write_reg f.rd (bit_xor t s)
exec_special handler nor f = do t ← reg f.rt; s ← reg f.rs; write_reg f.rd (nor_word t s)
exec_special handler slt f = do t ← reg f.rt; s ← reg f.rs; write_reg f.rd (slt_word s t)
exec_special handler sltu f = do t ← reg f.rt; s ← reg f.rs; write_reg f.rd (sltu_word s t)
exec_special handler tge f = throw not_implemented
exec_special handler tgeu f = throw not_implemented
exec_special handler tlt f = throw not_implemented
exec_special handler tltu f = throw not_implemented
exec_special handler teq f = do t ← reg f.rt; s ← reg f.rs; throw_if (s == t) trap
exec_special handler tne f = do
  t ← reg f.rt
  s ← reg f.rs
  throw_if (if s == t then false else true) trap
exec_special handler unknown f = throw bad_instruction
