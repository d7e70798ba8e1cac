-- ===== src/Printer/Dump.antt =====
-- Reading back what `hexdump` prints.
use xdrpp.Common.{
  ℕ, ◌+◌, ◌*◌, ◌-◌, ◌/◌, ◌%◌, ◌<◌, ◌≡◌, refl, ap₂, arith, List, [], ◌∷◌, leb, All, if◌then◌else◌,
}
use xdrpp.Printer.{hex_digit, hexdump}

abbrev pub hex_value : ℕ → ℕ
hex_value c = if leb 97 c then c - 87 else c - 48

abbrev pub IsByte : ℕ → Type 0
IsByte b = b < 256

-- The bytes that pairs of digits stand for.
pub read_hex : List ℕ → List ℕ
read_hex [] = []
read_hex (c ∷ []) = []
read_hex (c ∷ d ∷ cs) = (hex_value c * 16 + hex_value d) ∷ read_hex cs

hex_value-hex_digit : (d : ℕ) → d < 16 → hex_value (hex_digit d) ≡ d
hex_value-hex_digit d h = ground arith

read_byte :
    (b : ℕ) → b < 256 → hex_value (hex_digit (b / 16)) * 16 + hex_value (hex_digit (b % 16)) ≡ b
read_byte b h =
    rw (hex_value-hex_digit (b / 16) (omega (arith, h)), hex_value-hex_digit (b % 16) (omega arith))
      (omega arith)

-- The dump of bytes is read back, by pairs of hexadecimal digits, as the same bytes.
pub read_hex-hexdump : (bs : List ℕ) → All IsByte bs → read_hex (hexdump bs) ≡ bs
unfolding read_hex hexdump
read_hex-hexdump [] a = refl
read_hex-hexdump (b ∷ bs) a = ap₂ ◌∷◌ (read_byte b a.0) (read_hex-hexdump bs a.1)
