-- ===== src/Common/Bits.antt =====
-- `|` of disjoint fields and `&` with the masks of xdrpp/endian.h, as arithmetic.
use Prim.Native.Nat.{digits, bitwise, bit_and-bitwise, bit_or-bitwise}
use Prim.Native.Nat.{
  ℕ, zero, suc, ◌+◌, ◌-◌, ◌*◌, ◌/◌, ◌%◌, ◌^◌, ◌≤◌, ◌<◌, min, max, bit_and, bit_or,
}
use mathlib.Core.Path.{◌≡◌, refl, ap}
use native.Mathlib.Nat.{pow-suc, one-le-pow}
use native.Mathlib.Omega.{arith}

-- The count of digits that the recursion carries does not matter once it is large enough.
module _ (z : ℕ → ℕ) (f : ℕ → ℕ → ℕ) where
  digits_count : (n m a b : ℕ) → a ≤ n → a ≤ m → digits z f n a b ≡ digits z f m a b
  digits_count zero zero zero b p q = refl
  digits_count zero zero (suc a) b p q = refl
  digits_count zero (suc m) zero b p q = refl
  digits_count zero (suc m) (suc a) b p q = absurd (omega arith)
  digits_count (suc n) zero zero b p q = refl
  digits_count (suc n) zero (suc a) b p q = absurd (omega arith)
  digits_count (suc n) (suc m) zero b p q = refl
  digits_count (suc n) (suc m) (suc a) b p q =
      omega (arith, digits_count n m (suc a / 2) (b / 2) (omega arith) (omega arith))

  bitwise_digit :
      (a b : ℕ)
      → bitwise z f (suc a) b ≡ bitwise z f (suc a / 2) (b / 2) * 2 + f (suc a % 2) (b % 2)
  bitwise_digit a b =
      omega (arith, digits_count a (suc a / 2) (suc a / 2) (b / 2) (omega arith) (omega arith))

or_digit : (a b : ℕ) → bit_or a b ≡ bit_or (a / 2) (b / 2) * 2 + max (a % 2) (b % 2)
or_digit zero b = simp bit_or-bitwise (omega arith)
or_digit (suc a) b = simp bit_or-bitwise (bitwise_digit (λ y. y) max a b)

and_digit : (a b : ℕ) → bit_and a b ≡ bit_and (a / 2) (b / 2) * 2 + min (a % 2) (b % 2)
and_digit zero b = simp bit_and-bitwise (omega arith)
and_digit (suc a) b = simp bit_and-bitwise (bitwise_digit (λ y. 0) min a b)

or_zero_below : (n a : ℕ) → a ≤ n → bit_or a 0 ≡ a
or_zero_below zero zero h = refl
or_zero_below zero (suc a) h = absurd (omega arith)
or_zero_below (suc n) zero h = refl
or_zero_below (suc n) (suc a) h =
    omega (arith, or_digit (suc a) 0, or_zero_below n (suc a / 2) (omega arith))

and_zero_below : (n a : ℕ) → a ≤ n → bit_and a 0 ≡ 0
and_zero_below zero zero h = refl
and_zero_below zero (suc a) h = absurd (omega arith)
and_zero_below (suc n) zero h = refl
and_zero_below (suc n) (suc a) h =
    omega (arith, and_digit (suc a) 0, and_zero_below n (suc a / 2) (omega arith))

double_pow : (q k : ℕ) → q * 2 ^ suc k ≡ 2 * (q * 2 ^ k)
double_pow q k = omega (arith, ap (λ (t : ℕ). q * t) (pow-suc 2 k))

-- `q << k | r` is a sum when `r` fits below bit `k`.
pub bit_or_disjoint : (k q r : ℕ) → r < 2 ^ k → bit_or (q * 2 ^ k) r ≡ q * 2 ^ k + r
bit_or_disjoint zero q r h = ground (arith, or_zero_below q q)
bit_or_disjoint (suc k) q r h =
    ground (arith, or_digit (q * 2 ^ suc k) r, double_pow q k, bit_or_disjoint k q (r / 2))

-- `r | 1 << k` is a sum when `r` fits below bit `k`.
pub bit_or_top : (k r : ℕ) → r < 2 ^ k → bit_or r (2 ^ k) ≡ r + 2 ^ k
bit_or_top zero r h = ground (arith, or_digit 0 1)
bit_or_top (suc k) r h = ground (arith, or_digit r (2 ^ suc k), pow-suc 2 k, bit_or_top k (r / 2))

-- `&` with a mask of `k` ones keeps what stands below bit `k`.
and_low_ones : (k q r : ℕ) → r < 2 ^ k → bit_and (q * 2 ^ k + r) (2 ^ k - 1) ≡ r
and_low_ones zero q r h = ground (arith, and_zero_below (q * 1 + r) (q * 1 + r))
and_low_ones (suc k) q r h = ground (
  arith,
  and_digit (q * 2 ^ suc k + r) (2 ^ suc k - 1),
  double_pow q k,
  pow-suc 2 k,
  one-le-pow k 2,
  and_low_ones k q (r / 2),
)

pub bit_and_low_byte : (v : ℕ) → bit_and v 0xff ≡ v % 256
bit_and_low_byte v = ground (arith, and_low_ones 8 (v / 256) (v % 256))

and_even : (v m : ℕ) → bit_and v (2 * m) ≡ bit_and (v / 2) m * 2
and_even v m = ground (arith, and_digit v (2 * m))

and_shift_four : (v m : ℕ) → bit_and v (16 * m) ≡ bit_and (v / 16) m * 16
and_shift_four v m = ground (
  arith,
  and_even v (8 * m),
  and_even (v / 2) (4 * m),
  and_even (v / 4) (2 * m),
  and_even (v / 8) m,
)

quarters : (v : ℕ) → v / 16 / 16 ≡ v / 256
quarters v = omega arith

-- `v & 0xff00` is the second byte, in place.
pub bit_and_second_byte : (v : ℕ) → bit_and v 0xff00 ≡ v / 256 % 256 * 256
bit_and_second_byte v = omega (
  arith,
  and_shift_four v 0xff0,
  and_shift_four (v / 16) 0xff,
  ap (λ (t : ℕ). bit_and t 0xff) (quarters v),
  bit_and_low_byte (v / 256),
)
