-- ===== src/Endian/Swap.antt =====
-- The swaps as arithmetic on bytes, and their laws.
use xdrpp.Common.{ℕ, ◌+◌, ◌*◌, ◌/◌, ◌%◌, ◌^◌, ◌<◌, ◌≡◌, refl, Bool, true, false, arith, bit_or}
use xdrpp.Common.Bits.{bit_or_disjoint, bit_and_second_byte}
use xdrpp.Endian.{swap32, swap64, swap32le, swap32be, swap64le, swap64be}

-- Four bytes put side by side by `|`.
or_bytes :
    (a b c d : ℕ)
    → b < 256
    → c < 256
    → d < 256
    → bit_or (bit_or (bit_or (a * 2 ^ 24) (b * 2 ^ 16)) (c * 2 ^ 8)) d
      ≡ a * 2 ^ 24 + b * 2 ^ 16 + c * 2 ^ 8 + d
or_bytes a b c d hb hc hd = ground (
  arith,
  bit_or_disjoint 24 a (b * 2 ^ 16),
  bit_or_disjoint 16 (a * 256 + b) (c * 2 ^ 8),
  bit_or_disjoint 8 (a * 65536 + b * 256 + c) d,
)

-- `swap32` of a 32-bit number has the number's four bytes in the opposite order.
pub swap32_as_bytes :
    (v : ℕ)
    → v < 2 ^ 32
    → swap32 v ≡ v % 256 * 2 ^ 24 + v / 2 ^ 8 % 256 * 2 ^ 16 + v / 2 ^ 16 % 256 * 2 ^ 8 + v / 2 ^ 24
unfolding swap32
swap32_as_bytes v h = ground (
  arith,
  bit_and_second_byte v,
  bit_and_second_byte (v / 2 ^ 8),
  or_bytes (v % 256) (v / 2 ^ 8 % 256) (v / 2 ^ 16 % 256) (v / 2 ^ 24),
)

-- The swap of a word built from bytes.
pub swap32_bytes :
    (a b c d : ℕ)
    → a < 256
    → b < 256
    → c < 256
    → d < 256
    → swap32 (a * 2 ^ 24 + b * 2 ^ 16 + c * 2 ^ 8 + d) ≡ d * 2 ^ 24 + c * 2 ^ 16 + b * 2 ^ 8 + a
swap32_bytes a b c d ha hb hc hd =
    omega (arith, swap32_as_bytes (a * 2 ^ 24 + b * 2 ^ 16 + c * 2 ^ 8 + d) (omega arith))

pub swap32-lt : (v : ℕ) → v < 2 ^ 32 → swap32 v < 2 ^ 32
swap32-lt v h = omega (arith, swap32_as_bytes v h)

-- Swapping twice gives the word back.
pub swap32-swap32 : (v : ℕ) → v < 2 ^ 32 → swap32 (swap32 v) ≡ v
swap32-swap32 v h = ground (
  arith,
  swap32_as_bytes v h,
  swap32_bytes (v % 256) (v / 2 ^ 8 % 256) (v / 2 ^ 16 % 256) (v / 2 ^ 24),
)

-- A 64-bit swap swaps each word, and the words.
pub swap64_as_words :
    (v : ℕ) → v < 2 ^ 64 → swap64 v ≡ swap32 (v % 2 ^ 32) * 2 ^ 32 + swap32 (v / 2 ^ 32)
unfolding swap64
swap64_as_words v h = ground (
  arith,
  swap32-lt (v % 2 ^ 32),
  swap32-lt (v / 2 ^ 32),
  bit_or_disjoint 32 (swap32 (v % 2 ^ 32)) (swap32 (v / 2 ^ 32)),
)

-- Swapping the bytes of a 64-bit number twice gives the number back.
pub swap64-swap64 : (v : ℕ) → v < 2 ^ 64 → swap64 (swap64 v) ≡ v
swap64-swap64 v h =
    let hi : ℕ = swap32 (v % 2 ^ 32) in
    let lo : ℕ = swap32 (v / 2 ^ 32) in
    ground (
      arith,
      swap64_as_words v h,
      swap32-lt (v % 2 ^ 32),
      swap32-lt (v / 2 ^ 32),
      swap64_as_words (hi * 2 ^ 32 + lo),
      swap32-swap32 (v % 2 ^ 32),
      swap32-swap32 (v / 2 ^ 32),
    )

-- On either machine exactly one of the two conversions swaps.
pub swap32be-swap32le : (be : Bool) (v : ℕ) → swap32be be (swap32le be v) ≡ swap32 v
unfolding swap32be swap32le
swap32be-swap32le true v = refl
swap32be-swap32le false v = refl

pub swap64be-swap64le : (be : Bool) (v : ℕ) → swap64be be (swap64le be v) ≡ swap64 v
unfolding swap64be swap64le
swap64be-swap64le true v = refl
swap64be-swap64le false v = refl
