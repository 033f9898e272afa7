-- ===== src/Base/Word.antt =====
-- 32-bit words as JavaScript's bit operators see them, for operands below 2^32.
use Prim.Native.Nat.{ℕ, ◌+◌, ◌*◌, ◌/◌, ◌%◌, ◌^◌, ◌<◌, bit_and}
use mathlib.Core.Path.{◌≡◌}
use mathlib.Core.Bool.{Bool, true, false}
use native.Mathlib.Omega.{arith}
use noopsys.Base.Tests.{◌==◌}

-- What a store into a `Uint32Array` keeps.
abbrev pub u32 : ℕ → ℕ
u32 n = n % 2 ^ 32

-- `v >>> k`
infixl 60 ◌>>>◌ ◌<<◌
abbrev pub ◌>>>◌ : ℕ → ℕ → ℕ
v >>> k = v / 2 ^ k

-- `(v << k) >>> 0`
abbrev pub ◌<<◌ : ℕ → ℕ → ℕ
v << k = u32 (v * 2 ^ k)

-- `(flags & bits) == bits`
unfoldable pub has : ℕ → ℕ → Bool
has flags bits = bit_and flags bits == bits

-- `flags & bits`, as a condition
unfoldable pub meets : ℕ → ℕ → Bool
meets flags bits = if_nonzero (bit_and flags bits)
  where
    if_nonzero : ℕ → Bool
    if_nonzero n = elim (n == 0) [ true ↦ false | false ↦ true ]

-- The bytes of a word, least significant first, and a word of four bytes.
abbrev pub byte_of : ℕ → ℕ → ℕ
byte_of w k = w / 2 ^ (8 * k) % 256

abbrev pub word_of : ℕ → ℕ → ℕ → ℕ → ℕ
word_of b0 b1 b2 b3 = b0 + b1 * 2 ^ 8 + b2 * 2 ^ 16 + b3 * 2 ^ 24

pub word_of-byte_of :
    (w : ℕ) → w < 2 ^ 32 → word_of (byte_of w 0) (byte_of w 1) (byte_of w 2) (byte_of w 3) ≡ w
word_of-byte_of w h = omega arith
