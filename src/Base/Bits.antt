-- ===== src/Base/Bits.antt =====
-- The bit operations at variables, one binary digit at a time, and what the masks of the program
-- do to a number.
use Prim.Native.Nat.{
  ℕ, zero, suc, ◌+◌, ◌-◌, ◌*◌, ◌/◌, ◌%◌, ◌^◌, ◌≤◌, ◌<◌, min, max, bit_and, bit_or, digits, bitwise,
  bit_and-bitwise, bit_or-bitwise,
}
use mathlib.Core.Path.{◌≡◌, refl, ap}
use native.Mathlib.Nat.{le_refl, pow-suc, one-le-pow}
use native.Mathlib.Omega.{arith}

-- Fuel beyond the number itself changes nothing.
module _ (pad : ℕ → ℕ) (join : ℕ → ℕ → ℕ) where
  digits-enough : (n m a b : ℕ) → a ≤ n → a ≤ m → digits pad join n a b ≡ digits pad join m a b
  digits-enough zero zero a b p q = refl
  digits-enough zero (suc m) zero b p q = refl
  digits-enough zero (suc m) (suc a) b p q = absurd (omega arith)
  digits-enough (suc n) zero zero b p q = refl
  digits-enough (suc n) zero (suc a) b p q = absurd (omega arith)
  digits-enough (suc n) (suc m) zero b p q = refl
  digits-enough (suc n) (suc m) (suc a) b p q =
      let halves = digits-enough n m (suc a / 2) (b / 2) (omega arith) (omega arith) in rw halves

  bitwise-halve :
      (a b : ℕ)
      → bitwise pad join (suc a) b
        ≡ bitwise pad join (suc a / 2) (b / 2) * 2 + join (suc a % 2) (b % 2)
  bitwise-halve a b =
      let enough = digits-enough a (suc a / 2) (suc a / 2) (b / 2) (omega arith) (le_refl _) in
      omega (arith, enough)

pub bit_and-halve : (a b : ℕ) → bit_and a b ≡ bit_and (a / 2) (b / 2) * 2 + min (a % 2) (b % 2)
bit_and-halve zero b = simp bit_and-bitwise (omega arith)
bit_and-halve (suc a) b = simp bit_and-bitwise (bitwise-halve (λ _. 0) min a b)

pub bit_or-halve : (a b : ℕ) → bit_or a b ≡ bit_or (a / 2) (b / 2) * 2 + max (a % 2) (b % 2)
bit_or-halve zero b = simp bit_or-bitwise (omega arith)
bit_or-halve (suc a) b = simp bit_or-bitwise (bitwise-halve (λ x. x) max a b)

-- The bound is there for the recursion only.
and_zero_below : (n a : ℕ) → a ≤ n → bit_and a 0 ≡ 0
and_zero_below n zero h = refl
and_zero_below zero (suc a) h = absurd (omega arith)
and_zero_below (suc n) (suc a) h =
    omega (arith, bit_and-halve (suc a) 0, and_zero_below n (suc a / 2) (omega arith))

or_zero_below : (n a : ℕ) → a ≤ n → bit_or a 0 ≡ a
or_zero_below n zero h = refl
or_zero_below zero (suc a) h = absurd (omega arith)
or_zero_below (suc n) (suc a) h =
    omega (arith, bit_or-halve (suc a) 0, or_zero_below n (suc a / 2) (omega arith))

pub bit_and-zero : (a : ℕ) → bit_and a 0 ≡ 0
bit_and-zero a = and_zero_below a a (le_refl _)

pub bit_or-zero : (a : ℕ) → bit_or a 0 ≡ a
bit_or-zero a = or_zero_below a a (le_refl _)

double-shift : (k q : ℕ) → q * 2 ^ suc k ≡ 2 * (q * 2 ^ k)
double-shift k q = omega (arith, ap (λ (t : ℕ). q * t) (pow-suc 2 k))

low_of_join : (k hi lo : ℕ) → lo < 2 ^ k → bit_and (hi * 2 ^ k + lo) (2 ^ k - 1) ≡ lo
low_of_join zero hi lo h = rw bit_and-zero (omega arith)
low_of_join (suc k) hi lo h = ground (
  arith,
  bit_and-halve (hi * 2 ^ suc k + lo) (2 ^ suc k - 1),
  double-shift k hi,
  pow-suc 2 k,
  low_of_join k hi (lo / 2),
)

-- `a & (2^k - 1)` keeps the low `k` bits.
pub bit_and_low : (k a : ℕ) → bit_and a (2 ^ k - 1) ≡ a % 2 ^ k
bit_and_low k a = ground (arith, one-le-pow k 2, low_of_join k (a / 2 ^ k) (a % 2 ^ k))

-- `|` of a number shifted by `k` and one that fits in `k` bits is their sum.
pub bit_or_join : (k hi lo : ℕ) → lo < 2 ^ k → bit_or (hi * 2 ^ k) lo ≡ hi * 2 ^ k + lo
bit_or_join zero hi lo h = ground (arith, bit_or-zero hi)
bit_or_join (suc k) hi lo h =
    ground (arith, bit_or-halve (hi * 2 ^ suc k) lo, double-shift k hi, bit_or_join k hi (lo / 2))

zero-bit_or : (b : ℕ) → bit_or 0 b ≡ b
zero-bit_or b = simp bit_or-bitwise refl

-- The same with the low bits first.
pub bit_or_join_low : (k hi lo : ℕ) → lo < 2 ^ k → bit_or lo (hi * 2 ^ k) ≡ hi * 2 ^ k + lo
bit_or_join_low zero hi lo h =
    let e : lo ≡ 0 = omega arith in rw e (ground (arith, zero-bit_or (hi * 2 ^ zero)))
bit_or_join_low (suc k) hi lo h =
    ground
      (arith, bit_or-halve lo (hi * 2 ^ suc k), double-shift k hi, bit_or_join_low k hi (lo / 2))

-- `&` with a mask that has no low bits.
pub bit_and_high :
    (k hi lo m : ℕ) → lo < 2 ^ k → bit_and (hi * 2 ^ k + lo) (m * 2 ^ k) ≡ bit_and hi m * 2 ^ k
bit_and_high zero hi lo m h = let e : hi * 2 ^ zero + lo ≡ hi = omega arith in rw e (ground arith)
bit_and_high (suc k) hi lo m h = ground (
  arith,
  bit_and-halve (hi * 2 ^ suc k + lo) (m * 2 ^ suc k),
  double-shift k hi,
  double-shift k m,
  double-shift k (bit_and hi m),
  bit_and_high k hi (lo / 2) m,
)

-- The tests of single flags.
pub bit_and_one : (a : ℕ) → bit_and a 1 ≡ a % 2
bit_and_one a = omega (arith, bit_and-halve a 1, bit_and-zero (a / 2))

pub bit_and_two : (a : ℕ) → bit_and a 2 ≡ a / 2 % 2 * 2
bit_and_two a = omega (arith, bit_and-halve a 2, bit_and_one (a / 2))

pub bit_and_four : (a : ℕ) → bit_and a 4 ≡ a / 4 % 2 * 4
bit_and_four a = omega (arith, bit_and-halve a 4, bit_and_two (a / 2))

pub bit_and_eight : (a : ℕ) → bit_and a 8 ≡ a / 8 % 2 * 8
bit_and_eight a = omega (arith, bit_and-halve a 8, bit_and_four (a / 2))

-- Clearing bit 1 of a word, and setting bit 3, seen from bit 1.
pub clear_two : (a : ℕ) → bit_and a 0xffff_fffd / 2 % 2 ≡ 0
clear_two a = omega (arith, bit_and-halve a 0xffff_fffd, bit_and-halve (a / 2) 0x7fff_fffe)

pub set_eight : (a : ℕ) → bit_or a 8 / 2 % 2 ≡ a / 2 % 2
set_eight a = omega (arith, bit_or-halve a 8, bit_or-halve (a / 2) 4)

pub clear_eight : (a : ℕ) → bit_and a 0xffff_fff7 / 2 % 2 ≡ a / 2 % 2
clear_eight a = omega (arith, bit_and-halve a 0xffff_fff7, bit_and-halve (a / 2) 0x7fff_fffb)
