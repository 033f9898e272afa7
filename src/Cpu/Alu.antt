-- ===== src/Cpu/Alu.antt =====
-- The arithmetic of the interpreter (src/process.js) on register values, words below 2^32.
use noopsys.Base.{
  ℕ, ◌+◌, ◌-◌, ◌*◌, ◌/◌, ◌%◌, ◌^◌, bit_and, bit_or, Bool, true, false, ltb, ◌==◌, if◌then◌else◌,
}
use noopsys.Base.Int.{
  ℤ, pos, negsuc, pos_part, neg_part, sub_ℕ, ◌+ℤ◌, ◌*ℤ◌, to_uint32, to_int32, ltb_ℤ,
}
use noopsys.Base.Word.{u32, ◌>>>◌, ◌<<◌}

-- `(v >> k) >>> 0`: the sign bit moves in.
unfoldable pub asr : ℕ → ℕ → ℕ
asr w k = if ltb w (2 ^ 31) then w / 2 ^ k else 2 ^ 32 - 1 - (2 ^ 32 - 1 - w) / 2 ^ k

-- `(a - b) >>> 0`
unfoldable pub sub32 : ℕ → ℕ → ℕ
sub32 a b = u32 (a + 2 ^ 32 - b)

-- `~(a | b)`
unfoldable pub nor : ℕ → ℕ → ℕ
nor a b = 2 ^ 32 - 1 - bit_or a b

unfoldable pub slt : ℕ → ℕ → ℕ
slt a b = if ltb_ℤ (to_int32 a) (to_int32 b) then 1 else 0

unfoldable pub sltu : ℕ → ℕ → ℕ
sltu a b = if ltb a b then 1 else 0

-- The signed immediate of an instruction.
unfoldable pub simm : ℕ → ℤ
simm imm = if ltb imm 0x8000 then pos imm else negsuc (0x10000 - imm - 1)

-- `registers[rs] + simm`
unfoldable pub offset : ℕ → ℕ → ℤ
unfolding simm
offset base imm = pos base +ℤ simm imm

-- `(v & 0x80) ? v | 0xffffff00 : v`
unfoldable pub sign_extend8 : ℕ → ℕ
sign_extend8 v = if bit_and v 0x80 == 0 then v else bit_or v 0xffff_ff00

unfoldable pub sign_extend16 : ℕ → ℕ
sign_extend16 v = if bit_and v 0x8000 == 0 then v else bit_or v 0xffff_0000

-- JavaScript's `/` truncated, and its `%`, which takes the sign of the dividend.
abbrev pub magnitude : ℤ → ℕ
magnitude v = pos_part v + neg_part v

abbrev pub with_sign : Bool → ℕ → ℤ
with_sign negative m = if negative then sub_ℕ 0 m else pos m

abbrev pub is_negative : ℤ → Bool
is_negative (pos _) = false
is_negative (negsuc _) = true

abbrev pub differ : Bool → Bool → Bool
differ true b = if b then false else true
differ false b = b

unfoldable pub js_quot : ℤ → ℤ → ℤ
js_quot a b = with_sign (differ (is_negative a) (is_negative b)) (magnitude a / magnitude b)

unfoldable pub js_rem : ℤ → ℤ → ℤ
js_rem a b = with_sign (is_negative a) (magnitude a % magnitude b)

-- The two results of `div`.
unfoldable pub div_low : ℕ → ℕ → ℕ
unfolding js_quot
div_low rs rt = to_uint32 (js_quot (to_int32 rs) (to_int32 rt))

unfoldable pub div_high : ℕ → ℕ → ℕ
unfolding js_rem
div_high rs rt =
    let divisor = to_int32 rt in
    to_uint32 (js_rem (js_rem (to_int32 rs) divisor +ℤ divisor) divisor)

-- The low and the high word of a product. From Hacker's Delight.
unfoldable pub signed_mult : ℕ → ℕ → ℕ × ℕ
unfolding asr
signed_mult a b =
    let u1 = a % 2 ^ 16 in
    let v1 = b % 2 ^ 16 in
    let u0 = to_int32 (asr a 16) in
    let v0 = to_int32 (asr b 16) in
    let t1 = u32 (u1 * v1) in
    let w3 = t1 % 2 ^ 16 in
    let k1 = t1 >>> 16 in
    let t2 = to_uint32 (u0 *ℤ pos v1 +ℤ pos k1) in
    let w2 = t2 % 2 ^ 16 in
    let w1 = asr t2 16 in
    let t3 = to_uint32 (pos u1 *ℤ v0 +ℤ pos w2) in
    let k2 = asr t3 16 in (u32 ((t3 << 16) + w3), to_uint32 (u0 *ℤ v0 +ℤ pos w1 +ℤ pos k2))

unfoldable pub unsigned_mult : ℕ → ℕ → ℕ × ℕ
unsigned_mult a b =
    let tl = a % 2 ^ 16 in
    let sl = b % 2 ^ 16 in
    let th = (a >>> 16) % 2 ^ 16 in
    let sh = (b >>> 16) % 2 ^ 16 in
    let low = tl * sl in
    let mid = th * sl + sh * tl in
    let tmp = mid + (low >>> 16) in
    let high = u32 (th * sh + (u32 tmp >>> 16)) in
    (u32 ((mid << 16) + low), if ltb 0xffff_ffff tmp then u32 (high + 0x10000) else high)

-- `lwl` and `lwr`: the aligned word `value` merged into the register, for the low bits `mask` of
-- the address.
unfoldable pub merge_left : ℕ → ℕ → ℕ → ℕ
merge_left reg value mask =
    if mask == 3
    then value
    else bit_or (bit_and reg (0xffff_ffff >>> ((1 + mask) * 8))) (value << ((3 - mask) * 8))

unfoldable pub merge_right : ℕ → ℕ → ℕ → ℕ
merge_right reg value mask =
    if mask == 0
    then value
    else bit_or (bit_and reg (0xffff_ffff << ((4 - mask) * 8))) (value >>> (mask * 8))
