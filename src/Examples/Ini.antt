-- ===== src/Examples/Ini.antt =====
-- A small ini file.
use xdrpp.Common.{ℕ, Bool, if◌then◌else◌, ◌≡◌, refl, arith, false, true, none, some, List, [], ◌∷◌}
use xdrpp.IniParse.{IniLine, Run, user, equal_text, ini_runparse}
use xdrpp.IniParse.Words.{argv, print_words, argv-print_words}
use xdrpp.IniParse.Document.{Item, section, property, print_all, run_items, ini_runparse-print_all}

-- Callbacks never throw.
abbrev throws : ℕ → IniLine → Bool
throws n line = false

-- Group "g" has a callback for the key "k".
abbrev start : Run
start = record {
  actions = λ g. if equal_text g (103 ∷ []) then some (λ k. some (user 1)) else none;
  at_end = true;
  line = record {
    error = false;
    lineno = 0;
    group = [];
    property = record { key = []; value = []; rawvalue = [] };
  };
  events = [];
}

-- "[g]", "k = " with a value of a space and a newline, and a last line "k" without its end.
abbrev items : List Item
items = section (103 ∷ []) ∷ property 107 [] (32 ∷ 10 ∷ []) ∷ []

ini_runparse-print_all_example :
    ini_runparse throws (print_all items (107 ∷ [])) start ≡ run_items throws items start
ini_runparse-print_all_example =
    ini_runparse-print_all throws items (107 ∷ []) start
      ((λ e. absurd (cc), (omega arith, tt)), ((omega arith, omega arith, (refl, tt)), tt))
      (omega arith, tt)

argv-print_words_example :
    argv (print_words ((97 ∷ 32 ∷ []) ∷ (98 ∷ 9 ∷ []) ∷ []))
    ≡ some ((97 ∷ 32 ∷ []) ∷ (98 ∷ 9 ∷ []) ∷ [])
argv-print_words_example =
    argv-print_words ((97 ∷ 32 ∷ []) ∷ (98 ∷ 9 ∷ []) ∷ []) (omega arith, (omega arith, tt))
