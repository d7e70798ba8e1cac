-- ===== src/Printer.antt =====
-- xdrpp/printer.cc: the escaping of strings and the dump of opaque data.
pub mod Literal
pub mod Dump
use xdrpp.Common.{ℕ, ◌+◌, ◌/◌, ◌%◌, ◌&&◌, List, [], ◌∷◌, ◌++◌, ltb, leb, ◌==◌, if◌then◌else◌}

-- A number below 256 in base 8, with `setw(2)` and `setfill('0')`.
abbrev pub octal : ℕ → List ℕ
octal c =
    if ltb c 64
    then (48 + c / 8) ∷ (48 + c % 8) ∷ []
    else (48 + c / 64) ∷ (48 + c / 8 % 8) ∷ (48 + c % 8) ∷ []

-- The `switch` on a character that is not printable.
abbrev pub escape_control : ℕ → List ℕ
escape_control c =
    if c == 9
    then 92 ∷ 116 ∷ []
    else if c == 13
    then 92 ∷ 114 ∷ []
    else if c == 10
    then 92 ∷ 110 ∷ []
    else if c == 34
    then 92 ∷ 34 ∷ []
    else 92 ∷ 120 ∷ octal c

-- A character; one from 128 on is negative as a `char`, and so not printable either.
unfoldable pub escape_char : ℕ → List ℕ
escape_char c =
    if leb 32 c && ltb c 127
    then (if c == 34 then 92 ∷ c ∷ [] else if c == 92 then 92 ∷ c ∷ [] else c ∷ [])
    else escape_control c

unfoldable pub escape_chars : List ℕ → List ℕ
escape_chars [] = []
escape_chars (c ∷ s) = escape_char c ++ escape_chars s

unfoldable pub escape_string : List ℕ → List ℕ
escape_string s = 34 ∷ escape_chars s ++ (34 ∷ [])

-- A digit of base 16 as `std::hex` prints it.
abbrev pub hex_digit : ℕ → ℕ
hex_digit d = if ltb d 10 then 48 + d else 87 + d

unfoldable pub hexdump : List ℕ → List ℕ
hexdump [] = []
hexdump (b ∷ bs) = hex_digit (b / 16) ∷ hex_digit (b % 16) ∷ hexdump bs
