-- ===== src/Cpu/Decode.antt =====
-- The fields of an instruction word, and the `case` labels under opcode 0 (src/process.js).
use noopsys.Base.{ℕ, ◌/◌, ◌%◌, ◌^◌, ◌==◌, if◌then◌else◌}
use noopsys.Base.Word.{◌>>>◌}

pub record Fields : Type 0 where
  pub opcode : ℕ
  pub rs : ℕ
  pub rt : ℕ
  pub rd : ℕ
  pub sa : ℕ
  pub imm : ℕ
  pub sub_opcode : ℕ
  pub target : ℕ

unfoldable pub decode : ℕ → Fields
decode inst = record {
  opcode = inst >>> 26;
  rs = (inst >>> 21) % 2 ^ 5;
  rt = (inst >>> 16) % 2 ^ 5;
  rd = (inst >>> 11) % 2 ^ 5;
  sa = (inst >>> 6) % 2 ^ 5;
  imm = inst % 2 ^ 16;
  sub_opcode = inst % 2 ^ 6;
  target = inst % 2 ^ 26;
}

-- The labels under opcode 0.
pub data Special : Type 0 where
  sll srl sra sllv srlv srav jr jalr syscall breakpoint sync : Special
  mfhi mthi mflo mtlo mult multu div divu : Special
  add addu sub subu and or xor nor slt sltu : Special
  tge tgeu tlt tltu teq tne unknown : Special

abbrev pub shift_label : ℕ → Special
shift_label n =
    if n == 0
    then sll
    else if n == 2
    then srl
    else if n == 3
    then sra
    else if n == 4
    then sllv
    else if n == 6
    then srlv
    else if n == 7
    then srav
    else if n == 8
    then jr
    else if n == 9
    then jalr
    else if n == 12
    then syscall
    else if n == 13
    then breakpoint
    else if n == 15
    then sync
    else unknown

abbrev pub product_label : ℕ → Special
product_label n =
    if n == 16
    then mfhi
    else if n == 17
    then mthi
    else if n == 18
    then mflo
    else if n == 19
    then mtlo
    else if n == 24
    then mult
    else if n == 25
    then multu
    else if n == 26
    then div
    else if n == 27
    then divu
    else unknown

abbrev pub sum_label : ℕ → Special
sum_label n =
    if n == 32
    then add
    else if n == 33
    then addu
    else if n == 34
    then sub
    else if n == 35
    then subu
    else if n == 36
    then and
    else if n == 37
    then or
    else if n == 38
    then xor
    else if n == 39
    then nor
    else if n == 42
    then slt
    else if n == 43
    then sltu
    else if n == 48
    then tge
    else if n == 49
    then tgeu
    else if n == 50
    then tlt
    else if n == 51
    then tltu
    else if n == 52
    then teq
    else if n == 53
    then tne
    else unknown

unfoldable pub special_label : ℕ → Special
special_label n =
    if n / 16 == 0 then shift_label n else if n / 16 == 1 then product_label n else sum_label n
