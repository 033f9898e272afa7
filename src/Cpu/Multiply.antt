-- ===== src/Cpu/Multiply.antt =====
-- `unsignedMult` of src/process.js against the product.
use mathlib.Core.Path.{subst₂}
use noopsys.Base.{sym, ℕ, ◌+◌, ◌*◌, ◌/◌, ◌%◌, ◌^◌, ◌≤◌, ◌<◌, ◌≡◌, ◌∙◌, arith, ltb, if◌then◌else◌}
use noopsys.Base.Word.{u32, ◌>>>◌, ◌<<◌}
use noopsys.Cpu.Alu.{unsigned_mult}

mul-le : (a b m : ℕ) → a ≤ m → b ≤ m → a * b ≤ m * m
mul-le a b m h k = grind arith

-- A product by halves of the factors.
product_halves :
    (th tl sh sl : ℕ)
    → (th * 65536 + tl) * (sh * 65536 + sl)
      ≡ th * sh * 4294967296 + (th * sl + sh * tl) * 65536 + tl * sl
product_halves th tl sh sl = omega arith

-- The words that `multu` stores, from the four partial products.
words_of_product :
    (hh hl lh ll : ℕ)
    → hh ≤ 65535 * 65535
    → hl ≤ 65535 * 65535
    → lh ≤ 65535 * 65535
    → ll ≤ 65535 * 65535
    → let mid = hl + lh in
      let tmp = mid + (ll >>> 16) in
      let high = u32 (hh + (u32 tmp >>> 16)) in
      u32 ((mid << 16) + ll) + 2 ^ 32 * (if ltb 0xffff_ffff tmp then u32 (high + 0x10000) else high)
      ≡ hh * 4294967296 + mid * 65536 + ll
words_of_product hh hl lh ll h1 h2 h3 h4 = ground arith

abbrev joined : ℕ → ℕ → ℕ
joined hi lo = hi * 65536 + lo

unsigned_mult-joined :
    (th tl sh sl : ℕ)
    → th < 65536
    → tl < 65536
    → sh < 65536
    → sl < 65536
    → (unsigned_mult (joined th tl) (joined sh sl)).0
        + 2 ^ 32 * (unsigned_mult (joined th tl) (joined sh sl)).1
      ≡ joined th tl * joined sh sl
unfolding unsigned_mult
unsigned_mult-joined th tl sh sl h1 h2 h3 h4 =
    let e1 : joined th tl % 65536 ≡ tl = omega arith in
    let e2 : joined th tl / 65536 % 65536 ≡ th = omega arith in
    let e3 : joined sh sl % 65536 ≡ sl = omega arith in
    let e4 : joined sh sl / 65536 % 65536 ≡ sh = omega arith in
    rw (e1, e2, e3, e4)
      (words_of_product (th * sh) (th * sl) (sh * tl) (tl * sl)
          (mul-le th sh 65535 (omega arith) (omega arith))
          (mul-le th sl 65535 (omega arith) (omega arith))
          (mul-le sh tl 65535 (omega arith) (omega arith))
          (mul-le tl sl 65535 (omega arith) (omega arith))
        ∙ sym (product_halves th tl sh sl))

-- `multu`: the two words are the product of the operands.
pub unsigned_mult-product :
    (a b : ℕ)
    → a < 2 ^ 32
    → b < 2 ^ 32
    → (unsigned_mult a b).0 + 2 ^ 32 * (unsigned_mult a b).1 ≡ a * b
unsigned_mult-product a b ha hb =
    let ea : joined (a / 65536) (a % 65536) ≡ a = omega arith in
    let eb : joined (b / 65536) (b % 65536) ≡ b = omega arith in
    subst₂ (λ x y. (unsigned_mult x y).0 + 2 ^ 32 * (unsigned_mult x y).1 ≡ x * y) ea eb
      (unsigned_mult-joined (a / 65536) (a % 65536) (b / 65536) (b % 65536) (omega arith)
        (omega arith) (omega arith) (omega arith))
