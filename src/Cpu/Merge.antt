-- ===== src/Cpu/Merge.antt =====
-- The unaligned loads `lwl` and `lwr` of src/process.js, as a pair.
use noopsys.Base.{ℕ, zero, suc, ◌+◌, ◌-◌, ◌*◌, ◌/◌, ◌%◌, ◌^◌, ◌<◌, ◌≡◌, ◌∙◌, arith, bit_and, bit_or}
use noopsys.Base.Bits.{bit_and_low, bit_and_high, bit_or_join, bit_or_join_low}
use native.Mathlib.Nat.{mod-lt, mod-eq_of_lt, one-le-pow}
use noopsys.Base.Word.{◌>>>◌, ◌<<◌}
use noopsys.Cpu.Alu.{merge_left, merge_right}

-- High bits stored over a register, and low bits over the result.
replace_both :
    (p q reg hi lo : ℕ)
    → hi < 2 ^ q
    → lo < 2 ^ p
    → bit_or (bit_and (bit_or (reg % 2 ^ p) (hi * 2 ^ p)) ((2 ^ q - 1) * 2 ^ p)) lo
      ≡ hi * 2 ^ p + lo
replace_both p q reg hi lo hq hp =
    let low_fits : reg % 2 ^ p < 2 ^ p = mod-lt reg (one-le-pow p 2 (omega arith)) in
    let all : bit_and hi (2 ^ q - 1) ≡ hi = bit_and_low q hi ∙ mod-eq_of_lt hq in
    rw
      (
        bit_or_join_low p hi (reg % 2 ^ p) low_fits,
        bit_and_high p hi (reg % 2 ^ p) (2 ^ q - 1) low_fits,
        all,
      )
      (bit_or_join p hi lo hp)

-- `lwr` of the aligned word `low` and `lwl` of the next aligned word `high`, for an address `k`
-- bytes into the first word, load the four bytes from that address on, whatever the register
-- held.
pub merge_right-merge_left :
    (reg low high k : ℕ)
    → reg < 2 ^ 32
    → low < 2 ^ 32
    → high < 2 ^ 32
    → k < 4
    → merge_right (merge_left reg high ((k + 3) % 4)) low k
      ≡ (low + high * 2 ^ 32) / 2 ^ (8 * k) % 2 ^ 32
unfolding merge_left merge_right
merge_right-merge_left reg low high zero hr hl hh hk = ground arith
merge_right-merge_left reg low high (suc zero) hr hl hh hk =
    let shifted : high << 24 ≡ high % 256 * 2 ^ 24 = omega arith in
    rw (bit_and_low 24 reg, shifted)
      (replace_both 24 8 reg (high % 256) (low >>> 8) (omega arith) (omega arith) ∙ omega arith)
merge_right-merge_left reg low high (suc (suc zero)) hr hl hh hk =
    let shifted : high << 16 ≡ high % 2 ^ 16 * 2 ^ 16 = omega arith in
    rw (bit_and_low 16 reg, shifted)
      (replace_both 16 16 reg (high % 2 ^ 16) (low >>> 16) (omega arith) (omega arith)
        ∙ omega arith)
merge_right-merge_left reg low high (suc (suc (suc zero))) hr hl hh hk =
    let shifted : high << 8 ≡ high % 2 ^ 24 * 2 ^ 8 = omega arith in
    rw (bit_and_low 8 reg, shifted)
      (replace_both 8 24 reg (high % 2 ^ 24) (low >>> 24) (omega arith) (omega arith) ∙ omega arith)
merge_right-merge_left reg low high (suc (suc (suc (suc k)))) hr hl hh hk = absurd (omega arith)
