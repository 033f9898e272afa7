-- ===== src/Cpu/Divide.antt =====
-- The `div` of src/process.js against quotient and remainder.
use noopsys.Base.{ℕ, suc, ◌+◌, ◌-◌, ◌/◌, ◌%◌, ◌^◌, ◌<◌, ◌≤◌, ◌≡◌, ◌≢◌, ap, ◌∙◌, arith}
use native.Mathlib.Nat.{mod-lt, mod-mod, add-mod_right, div-le_self}
use mathlib.Core.Path.{ap₂}
use noopsys.Base.Int.{sub_ℕ, pos, negsuc, ◌+ℤ◌, to_uint32, to_int32}
use noopsys.Cpu.Alu.{js_quot, js_rem, div_low, div_high}

-- The remainder is taken twice.
twice : (a b : ℕ) → (a % b + b) % b ≡ a % b
twice a b = add-mod_right (a % b) b ∙ mod-mod a b

js_rem-pos : (a b : ℕ) → js_rem (pos a) (pos b) ≡ pos (a % b)
unfolding js_rem
js_rem-pos a b = ground arith

js_rem-negsuc : (n b : ℕ) → js_rem (negsuc n) (pos b) ≡ sub_ℕ 0 (suc n % b)
unfolding js_rem
js_rem-negsuc n b = ground arith

js_quot-pos : (a b : ℕ) → js_quot (pos a) (pos b) ≡ pos (a / b)
unfolding js_quot
js_quot-pos a b = ground arith

js_quot-negsuc : (n b : ℕ) → js_quot (negsuc n) (pos b) ≡ sub_ℕ 0 (suc n / b)
unfolding js_quot
js_quot-negsuc n b = ground arith

pos+ℤpos : (a b : ℕ) → pos a +ℤ pos b ≡ pos (a + b)
unfolding ◌+ℤ◌
pos+ℤpos a b = ground arith

-- What is left of a negative dividend, with the divisor added, is not negative.
negative_part : (r b : ℕ) → r ≤ b → sub_ℕ 0 r +ℤ pos b ≡ pos (b - r)
unfolding ◌+ℤ◌
negative_part r b h = ground arith

to_int32-pos : (a : ℕ) → a < 2 ^ 31 → to_int32 a ≡ pos a
to_int32-pos a h = ground arith

to_int32-negsuc : (a : ℕ) → 2 ^ 31 ≤ a → to_int32 a ≡ negsuc (2 ^ 32 - 1 - a)
to_int32-negsuc a h = ground arith

-- Of operands that are not negative, `div` gives the quotient and the remainder.
div-positive :
    (a b : ℕ) → a < 2 ^ 31 → b < 2 ^ 31 → b ≢ 0 → (div_low a b ≡ a / b) × (div_high a b ≡ a % b)
unfolding div_low div_high
div-positive a b ha hb ne =
    let below : a % b < b = mod-lt a (omega arith) in
    let quotient : a / b ≤ a = div-le_self a b in
    (
      ap₂ (λ x y. to_uint32 (js_quot x y)) (to_int32-pos a ha) (to_int32-pos b hb)
          ∙ ap to_uint32 (js_quot-pos a b)
          ∙ omega arith,
      ap₂ (λ x y. to_uint32 (js_rem (js_rem x y +ℤ y) y)) (to_int32-pos a ha) (to_int32-pos b hb)
          ∙ ap (λ r. to_uint32 (js_rem (r +ℤ pos b) (pos b))) (js_rem-pos a b)
          ∙ ap (λ r. to_uint32 (js_rem r (pos b))) (pos+ℤpos (a % b) b)
          ∙ ap to_uint32 (js_rem-pos (a % b + b) b)
          ∙ ap (λ r. r % 2 ^ 32) (twice a b)
          ∙ omega arith,
    )

-- Of a negative dividend -m and a positive divisor b, `div` gives the quotient rounded towards
-- zero, but what it gives as the remainder is that of a quotient rounded down: (b - m % b) % b,
-- where the two should belong to one division.
pub div-negative :
    (a b : ℕ)
    → 2 ^ 31 ≤ a
    → a < 2 ^ 32
    → b < 2 ^ 31
    → b ≢ 0
    → (div_low a b ≡ (2 ^ 32 - (2 ^ 32 - a) / b) % 2 ^ 32)
      × (div_high a b ≡ (b - (2 ^ 32 - a) % b) % b)
unfolding div_low div_high
div-negative a b low ha hb ne =
    let n = 2 ^ 32 - 1 - a in
    let same : suc n ≡ 2 ^ 32 - a = omega arith in
    let below : suc n % b < b = mod-lt (suc n) (omega arith) in
    let quotient : suc n / b ≤ suc n = div-le_self (suc n) b in
    let small : (b - suc n % b) % b < b = mod-lt (b - suc n % b) (omega arith) in
    rw (← same) (
      ap₂ (λ x y. to_uint32 (js_quot x y)) (to_int32-negsuc a low) (to_int32-pos b hb)
          ∙ ap to_uint32 (js_quot-negsuc n b)
          ∙ ground arith,
      ap₂ (λ x y. to_uint32 (js_rem (js_rem x y +ℤ y) y)) (to_int32-negsuc a low)
            (to_int32-pos b hb)
          ∙ ap (λ r. to_uint32 (js_rem (r +ℤ pos b) (pos b))) (js_rem-negsuc n b)
          ∙ ap (λ r. to_uint32 (js_rem r (pos b))) (negative_part (suc n % b) b (omega arith))
          ∙ ap to_uint32 (js_rem-pos (b - suc n % b) b)
          ∙ omega arith,
    )
