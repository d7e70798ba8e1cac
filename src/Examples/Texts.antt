-- ===== src/Examples/Texts.antt =====
-- Strings and dumps.
use xdrpp.Common.{ℕ, ◌≡◌, refl, arith, some, List, [], ◌∷◌, ◌++◌}
use xdrpp.Printer.{escape_string}
use xdrpp.Printer.Literal.{read_literal, read_literal-escape_string, printable, tab, newline}

-- A quote, a tab, a backslash and a newline.
abbrev text : List ℕ
text = 34 ∷ 9 ∷ 92 ∷ 10 ∷ []

read_literal-escape_string_example :
    read_literal (escape_string text ++ (34 ∷ 44 ∷ [])) ≡ some (text, 34 ∷ 44 ∷ [])
read_literal-escape_string_example = read_literal-escape_string text (34 ∷ 44 ∷ []) (
  printable (omega arith) (omega arith),
  (tab refl, (printable (omega arith) (omega arith), (newline refl, tt))),
)
