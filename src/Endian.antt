-- ===== src/Endian.antt =====
-- xdrpp/endian.h: the byte swaps, and the choice between them by the machine's byte order.
pub mod Swap
use xdrpp.Common.{ℕ, ◌*◌, ◌/◌, ◌%◌, ◌^◌, Bool, bit_and, bit_or, if◌then◌else◌}

-- Shifts of an unsigned integer of `w` bits: what leaves the word is lost.
abbrev pub shl : ℕ → ℕ → ℕ → ℕ
shl w v k = v * 2 ^ k % 2 ^ w

abbrev pub shr : ℕ → ℕ → ℕ
shr v k = v / 2 ^ k

unfoldable pub swap32 : ℕ → ℕ
swap32 v =
    bit_or (bit_or (bit_or (shl 32 v 24) (shl 32 (bit_and v 0xff00) 8)) (bit_and (shr v 8) 0xff00))
      (shr v 24)

-- `std::uint32_t(v)` of a 64-bit value is its low word.
unfoldable pub swap64 : ℕ → ℕ
swap64 v = bit_or (shl 64 (swap32 (v % 2 ^ 32)) 32) (swap32 (shr v 32 % 2 ^ 32))

-- The byte order of the machine, `XDRPP_WORDS_BIGENDIAN`, is an argument, `is_big_endian`.
unfoldable pub swap32le : Bool → ℕ → ℕ
swap32le is_big_endian v = if is_big_endian then v else swap32 v

unfoldable pub swap32be : Bool → ℕ → ℕ
swap32be is_big_endian v = if is_big_endian then swap32 v else v

unfoldable pub swap64le : Bool → ℕ → ℕ
swap64le is_big_endian v = if is_big_endian then v else swap64 v

unfoldable pub swap64be : Bool → ℕ → ℕ
swap64be is_big_endian v = if is_big_endian then swap64 v else v
