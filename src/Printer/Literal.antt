-- ===== src/Printer/Literal.antt =====
-- Reading back what `escape_string` prints.
use xdrpp.Common.{
  sym, subst, Bool-cases, inl, inr, ==_iff, append_assoc, ℕ, ◌≤◌, ◌<◌, ◌≡◌, refl, ap, ◌∙◌, arith,
  Bool, true, false, Option, none, some, List, [], ◌∷◌, ◌++◌, ◌==◌, All, if◌then◌else◌,
}
use xdrpp.Printer.{escape_char, escape_chars, escape_string}

-- A character of a string literal: the closing quote, a backslash, or one that stands for a character.
data Seen : Type 0 where
  closing backslash unknown : Seen
  char : ℕ → Seen

seen : Bool → ℕ → Seen
seen false c = if c == 34 then closing else if c == 92 then backslash else char c
seen true c =
    if c == 116
    then char 9
    else if c == 114
    then char 13
    else if c == 110
    then char 10
    else if c == 34
    then char 34
    else if c == 92
    then char 92
    else unknown

push : ℕ → Option (List ℕ × List ℕ) → Option (List ℕ × List ℕ)
push c none = none
push c (some (s, rest)) = some (c ∷ s, rest)

-- The string up to the closing quote, and what follows; the flag is set behind a backslash.
read_chars : Bool → List ℕ → Option (List ℕ × List ℕ)
read_chars b [] = none
read_chars b (c ∷ cs) = elim (seen b c) [
  | closing ↦ some ([], cs)
  | backslash ↦ read_chars true cs
  | unknown ↦ none
  | char d ↦ push d (read_chars false cs)
]

pub read_literal : List ℕ → Option (List ℕ × List ℕ)
read_literal [] = none
read_literal (c ∷ cs) = if c == 34 then read_chars false cs else none

-- The characters that are printed without `\x`.
pub data IsText (c : ℕ) : Type 0 where
  printable : 32 ≤ c → c < 127 → IsText c
  tab : c ≡ 9 → IsText c
  carriage_return : c ≡ 13 → IsText c
  newline : c ≡ 10 → IsText c

-- What the reader does with an escaped character.
abbrev IsRead : ℕ → Type 0
IsRead c = (xs : List ℕ) → read_chars false (escape_char c ++ xs) ≡ push c (read_chars false xs)

escape_plain :
    (c : ℕ) → 32 ≤ c → c < 127 → (c == 34) ≡ false → (c == 92) ≡ false → escape_char c ≡ c ∷ []
unfolding escape_char
escape_plain c l u n m = ground arith

seen_plain : (c : ℕ) → (c == 34) ≡ false → (c == 92) ≡ false → seen false c ≡ char c
unfolding seen
seen_plain c n m = rw (n, m) refl

read_plain :
    (c : ℕ) (xs : List ℕ)
    → (c == 34) ≡ false
    → (c == 92) ≡ false
    → read_chars false (c ∷ xs) ≡ push c (read_chars false xs)
unfolding read_chars
read_plain c xs n m = rw (seen_plain c n m, read_chars) refl

known : (d : ℕ) → IsRead d → (c : ℕ) → c ≡ d → IsRead c
known d r c e = subst IsRead (sym e) r

printable-IsRead : (c : ℕ) → 32 ≤ c → c < 127 → IsRead c
unfolding escape_char read_chars seen push
printable-IsRead c l u = elim (Bool-cases (c == 34)) [
  | inl e ↦ known 34 (λ xs. refl) c ((==_iff c 34).0 e)
  | inr n ↦ elim (Bool-cases (c == 92)) [
    | inl e ↦ known 92 (λ xs. refl) c ((==_iff c 92).0 e)
    | inr m ↦
        λ xs. ap (λ es. read_chars false (es ++ xs)) (escape_plain c l u n m) ∙ read_plain c xs n m
  ]
]

escape_char-IsRead : (c : ℕ) → IsText c → IsRead c
unfolding escape_char read_chars seen push
escape_char-IsRead c (printable l u) = printable-IsRead c l u
escape_char-IsRead c (tab e) = known 9 (λ xs. refl) c e
escape_char-IsRead c (carriage_return e) = known 13 (λ xs. refl) c e
escape_char-IsRead c (newline e) = known 10 (λ xs. refl) c e

read_chars-escape_chars :
    (s rest : List ℕ)
    → All IsText s
    → read_chars false (escape_chars s ++ 34 ∷ rest) ≡ some (s, rest)
unfolding escape_chars read_chars seen push
read_chars-escape_chars [] rest t = refl
read_chars-escape_chars (c ∷ s) rest t =
    ap (read_chars false) (append_assoc (escape_char c) (escape_chars s) (34 ∷ rest))
    ∙ escape_char-IsRead c t.0 (escape_chars s ++ 34 ∷ rest)
    ∙ ap (push c) (read_chars-escape_chars s rest t.1)

-- For a string of printable ASCII characters, tabs, carriage returns and newlines, quotes and
-- backslashes included, the literal that `escape_string` prints is read back as the same string, and
-- it ends at its own closing quote whatever follows.
pub read_literal-escape_string :
    (s rest : List ℕ) → All IsText s → read_literal (escape_string s ++ rest) ≡ some (s, rest)
unfolding escape_string read_literal
read_literal-escape_string s rest t =
    ap (read_chars false) (append_assoc (escape_chars s) (34 ∷ []) rest)
    ∙ read_chars-escape_chars s rest t
