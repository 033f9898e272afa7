-- ===== src/Cpu/Formats.antt =====
-- The fields of an instruction word (`runInstLoop` in src/process.js) against the formats of MIPS.
use noopsys.Base.{ℕ, ◌+◌, ◌*◌, ◌^◌, ◌<◌, ◌≡◌, arith}
use noopsys.Cpu.Decode.{Fields, decode}

-- The fields of each of the three formats make up the word, and a register number is below 32.
pub record IsDecoded (inst : ℕ) (f : Fields) : Type 0 where
  pub register_format :
      f.opcode * 2 ^ 26
        + f.rs * 2 ^ 21
        + f.rt * 2 ^ 16
        + f.rd * 2 ^ 11
        + f.sa * 2 ^ 6
        + f.sub_opcode
      ≡ inst
  pub immediate_format : f.opcode * 2 ^ 26 + f.rs * 2 ^ 21 + f.rt * 2 ^ 16 + f.imm ≡ inst
  pub jump_format : f.opcode * 2 ^ 26 + f.target ≡ inst
  pub opcode_below : f.opcode < 64
  pub registers_below : (f.rs < 32) × (f.rt < 32) × (f.rd < 32)

-- The fields that the interpreter takes out of an instruction word are those of the formats.
decode-IsDecoded : (inst : ℕ) → inst < 2 ^ 32 → IsDecoded inst (decode inst)
unfolding decode
decode-IsDecoded inst h = record {
  register_format = omega arith;
  immediate_format = omega arith;
  jump_format = omega arith;
  opcode_below = omega arith;
  registers_below = (omega arith, omega arith, omega arith);
}
