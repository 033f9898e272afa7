-- ===== src/Cpu/Tests.antt =====
-- A program of two instructions for the interpreter of src/process.js, run by the parent of
-- `Space/Tests`, and single instructions.
use noopsys.Base.{ℕ, ◌+◌, ◌*◌, ◌^◌, ◌≤◌, ◌≡◌, refl, true, false, [], ◌∷◌, arith}
use noopsys.Base.Result.{Result, ok, err}
use noopsys.Base.Seal.{pure, ◌>>=◌, ◌>>◌, gets, modify, throw_if}
use noopsys.Physical.{find_page, allocate_page, duplicate_page, free_page}
use noopsys.Physical.Words.{write_word, read_word}
use noopsys.Space.{cached, remember, copy_on_write, invalidate_hacks}
use noopsys.Base.Word.{has, meets}
use noopsys.Base.Int.{◌+ℤ◌}
use noopsys.Space.Translate.{take_over, resolve, reach, translate_miss, translate}
use noopsys.Space.Accessors.{stored, write8}
use noopsys.Space.Tests.{child, world, world-IsSafe}
use noopsys.Space.Kept.{Kept}
use noopsys.Cpu.{Cpu, put_reg, write_reg, on_space, save_pc, restore_pc}
use noopsys.Cpu.Alu.{offset, simm}
use noopsys.Cpu.Decode.{Fields, decode, special_label}
use noopsys.Cpu.Immediate.{addi}
use noopsys.Cpu.Transfer.{sb}
use noopsys.Cpu.Loop.{
  fetch_address, fetch, advance, execute, exec_immediate, exec_store, step, run_insts,
  run_inst_loop,
}
use noopsys.Cpu.Guest.{IsSound}
use noopsys.Cpu.{branch_to, skip}
use noopsys.Cpu.Alu.{unsigned_mult, merge_left, merge_right, div_low, div_high}
use noopsys.Cpu.Branch.{branch, branch_likely, link, bgezal, bltzal}
use noopsys.Cpu.Multiply.{unsigned_mult-product}
use noopsys.Cpu.Merge.{merge_right-merge_left}
use noopsys.Cpu.Divide.{div-negative}
use noopsys.Cpu.Guest.Run.{ends, run_inst_loop-isolated}

abbrev start : Cpu
start = record {
  regs = λ _. 0;
  pc = 0;
  pending = 0;
  space = world;
  running = true;
  exited = false;
  tls_addr = 0;
}

abbrev after : Result (ℕ × Cpu) → Cpu
after (ok (_, c)) = c
after (err e) = start

abbrev end : Cpu
end = after (run_inst_loop ends (λ _. ends) 2 start)

-- `addi $2, $0, 300; sb $2, 64($0)`
program_runs : run_inst_loop ends (λ _. ends) 2 start ≡ ok (2, end)
unfolding run_inst_loop run_insts restore_pc step fetch fetch_address advance decode execute
    exec_immediate exec_store addi sb offset simm ◌+ℤ◌ write_reg put_reg on_space save_pc
    special_label write_word read_word pure ◌>>=◌ ◌>>◌ gets modify throw_if has meets write8
    translate cached translate_miss reach resolve take_over copy_on_write duplicate_page
    allocate_page free_page find_page invalidate_hacks remember stored
program_runs = refl

start-IsSound : IsSound start
start-IsSound = record { zero_reg = refl; words = λ r. omega arith }

run_inst_loop-isolated_example : (2 ≤ 2) × IsSound end × Kept (child ∷ []) world end.space
run_inst_loop-isolated_example =
    run_inst_loop-isolated (child ∷ []) 2 2 start end start-IsSound world-IsSafe program_runs

unsigned_mult-product_example :
    (unsigned_mult 0xffff_ffff 0xffff_fffe).0 + 2 ^ 32 * (unsigned_mult 0xffff_ffff 0xffff_fffe).1
    ≡ 0xffff_ffff * 0xffff_fffe
unsigned_mult-product_example =
    unsigned_mult-product 0xffff_ffff 0xffff_fffe (omega arith) (omega arith)

-- The word at an address one byte into 0x44332211, followed by 0x88776655.
merge_right-merge_left_example :
    merge_right (merge_left 9 0x8877_6655 0) 0x4433_2211 1 ≡ 0x5544_3322
merge_right-merge_left_example =
    merge_right-merge_left 9 0x4433_2211 0x8877_6655 1 (omega arith) (omega arith) (omega arith)
      (omega arith)

-- -17 by 5: the quotient is -3, and the remainder stored is 3 where -2 belongs to it.
div-negative_example : (div_low 0xffff_ffef 5 ≡ 0xffff_fffd) × (div_high 0xffff_ffef 5 ≡ 3)
div-negative_example =
    div-negative 0xffff_ffef 5 (omega arith) (omega arith) (omega arith) (omega arith)

abbrev cpu_after : Result (Unit {0} × Cpu) → Cpu
cpu_after (ok (_, c)) = c
cpu_after (err e) = start

-- A branch back over three instructions, to address 0xfff8 from 0x10000.
abbrev looping : Cpu
looping = record start { pc = 0x10000 }

abbrev branched : Cpu
branched = cpu_after (branch true 0xfffd (advance looping))

branches : branch true 0xfffd (advance looping) ≡ ok (tt, branched)
unfolding branch branch_to advance modify
branches = refl

abbrev skipped : Cpu
skipped = cpu_after (branch_likely false 0xfffd (advance looping))

skips : branch_likely false 0xfffd (advance looping) ≡ ok (tt, skipped)
unfolding branch_likely skip advance modify
skips = refl

-- `bltzal $0, 3`, with an operand that is not negative.
abbrev calling : Fields
calling = decode 0x0410_0003

abbrev called : Cpu
called = cpu_after (bltzal calling looping)

calls : bltzal calling looping ≡ ok (tt, called)
unfolding decode bltzal bgezal branch branch_to link put_reg ◌>>=◌ ◌>>◌ gets modify
calls = refl
