-- ===== src/Cpu/Transfer.antt =====
-- Loads and stores (src/process.js). A load into register 0 does not touch memory.
use noopsys.Base.{ℕ, ◌+◌, ◌-◌, ◌%◌, Bool, leb, ◌==◌, if◌then◌else◌}
use noopsys.Base.Int.{ℤ, pos, ◌+ℤ◌, ◌-ℤ◌, to_uint32, to_int32}
use noopsys.Base.Word.{◌>>>◌}
use noopsys.Base.Result.{Action}
use noopsys.Base.Seal.{pure, ◌>>=◌, ◌>>◌, gets, modify}
use noopsys.Space.Accessors.{read8, read16, read32, write8, write16, write32}
use noopsys.Cpu.{Cpu, Step, put_reg, write_reg, reg, on_space}
use noopsys.Cpu.Alu.{offset, sign_extend8, sign_extend16, merge_left, merge_right}
use noopsys.Cpu.Decode.{Fields}

-- `registers[rs] + simm`, and the same `>>> 0`.
abbrev pub address : Fields → Action Cpu ℤ
address f = gets λ c. offset (c.regs f.rs) f.imm

abbrev pub unsigned_address : Fields → Action Cpu ℤ
unsigned_address f = gets λ c. pos (to_uint32 (offset (c.regs f.rs) f.imm))

-- `if (rt == 0) break;`
abbrev pub unless_zero : ℕ → Step → Step
unless_zero r step = if r == 0 then pure tt else step

unfoldable pub lb : Fields → Step
unfolding sign_extend8 write_reg
lb f = unless_zero f.rt do a ← address f; v ← on_space (read8 a); write_reg f.rt (sign_extend8 v)

unfoldable pub lbu : Fields → Step
unfolding write_reg
lbu f = unless_zero f.rt do a ← address f; v ← on_space (read8 a); write_reg f.rt v

unfoldable pub lh : Fields → Step
unfolding sign_extend16 write_reg
lh f =
    unless_zero f.rt
      do a ← unsigned_address f; v ← on_space (read16 a); write_reg f.rt (sign_extend16 v)

unfoldable pub lhu : Fields → Step
unfolding write_reg
lhu f = unless_zero f.rt do a ← unsigned_address f; v ← on_space (read16 a); write_reg f.rt v

unfoldable pub lw : Fields → Step
unfolding write_reg
lw f = unless_zero f.rt do a ← unsigned_address f; v ← on_space (read32 a); write_reg f.rt v

-- `addr & 0xfffffffc`, a signed number, and `addr & 0x3`.
abbrev pub aligned : ℕ → ℤ
aligned a = to_int32 (a - a % 4)

unfoldable pub lwl : Fields → Step
unfolding merge_left write_reg
lwl f = unless_zero f.rt do
  a ← gets λ c. to_uint32 (offset (c.regs f.rs) f.imm)
  v ← on_space (read32 (aligned a))
  old ← reg f.rt
  write_reg f.rt (merge_left old v (a % 4))

unfoldable pub lwr : Fields → Step
unfolding merge_right write_reg
lwr f = unless_zero f.rt do
  a ← gets λ c. to_uint32 (offset (c.regs f.rs) f.imm)
  v ← on_space (read32 (aligned a))
  old ← reg f.rt
  write_reg f.rt (merge_right old v (a % 4))

unfoldable pub sb : Fields → Step
sb f = do a ← unsigned_address f; v ← reg f.rt; on_space (write8 a v)

unfoldable pub sh : Fields → Step
sh f = do a ← unsigned_address f; v ← reg f.rt; on_space (write16 a v)

unfoldable pub sw : Fields → Step
sw f = do a ← unsigned_address f; v ← reg f.rt; on_space (write32 a v)

abbrev pub store_if : Bool → ℤ → ℕ → Step
store_if test a v = if test then on_space (write8 a v) else pure tt

-- `(addr & 3) ^ 3`
abbrev pub flipped : ℤ → ℕ
flipped a = 3 - to_uint32 a % 4

unfoldable pub swl : Fields → Step
swl f = do
  a ← address f
  v ← reg f.rt
  on_space (write8 a (v >>> 24))
  store_if (leb (flipped a) 2) (a -ℤ pos 1) (v >>> 16)
  store_if (leb (flipped a) 1) (a -ℤ pos 2) (v >>> 8)
  store_if (flipped a == 0) (a -ℤ pos 3) v

unfoldable pub swr : Fields → Step
swr f = do
  a ← address f
  v ← reg f.rt
  on_space (write8 a v)
  store_if (leb 1 (flipped a)) (a +ℤ pos 1) (v >>> 8)
  store_if (leb 2 (flipped a)) (a +ℤ pos 2) (v >>> 16)
  store_if (flipped a == 3) (a +ℤ pos 3) (v >>> 24)

-- Everything is atomic, so `ll` is a load and `sc` a store that succeeds.
unfoldable pub ll : Fields → Step
unfolding lw
ll f = lw f

unfoldable pub sc : Fields → Step
unfolding write_reg
sc f = do a ← unsigned_address f; v ← reg f.rt; on_space (write32 a v); write_reg f.rt 1

unfoldable pub lwc1 : Fields → Step
unfolding put_reg
lwc1 f = do a ← unsigned_address f; v ← on_space (read32 a); modify (put_reg (32 + f.rt) v)

unfoldable pub ldc1 : Fields → Step
unfolding put_reg
ldc1 f = do
  a ← address f
  low ← on_space (read32 (pos (to_uint32 a)))
  modify (put_reg (32 + f.rt) low)
  high ← on_space (read32 (pos (to_uint32 (a +ℤ pos 4))))
  modify (put_reg (33 + f.rt) high)

unfoldable pub swc1 : Fields → Step
swc1 f = do a ← unsigned_address f; v ← reg (32 + f.rt); on_space (write32 a v)

unfoldable pub sdc1 : Fields → Step
sdc1 f = do
  a ← address f
  low ← reg (32 + f.rt)
  on_space (write32 (pos (to_uint32 a)) low)
  high ← reg (33 + f.rt)
  on_space (write32 (pos (to_uint32 (a +ℤ pos 4))) high)
