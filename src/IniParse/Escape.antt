-- ===== src/IniParse/Escape.antt =====
-- Values with escapes, and the properties that have them.
use xdrpp.Common.{
  ℕ, ◌≡◌, ◌≢◌, refl, ap, ◌∙◌, sym, subst, arith, Bool, true, false, ◌||◌, some, [], ◌∷◌, ◌++◌, ◌==◌,
  All, All-append, Bool-cases, inl, inr, ==_iff, ne_of_==, if_true, if_false, if◌then◌else◌,
}
use xdrpp.IniParse.{
  Text, isspace, unescape_char, push, unescape_from, ini_unescape, skip_spaces, with_first,
  take_key, to_property, parse_value, parse_key, parsekv,
}

-- A character of a value: those that would be taken for spaces are escaped, and the backslash.
unfoldable pub escape_char : ℕ → Text
escape_char c =
    if c == 10
    then 92 ∷ 110 ∷ []
    else if c == 13
    then 92 ∷ 114 ∷ []
    else if c == 32
    then 92 ∷ 115 ∷ []
    else if isspace c || (c == 92)
    then 92 ∷ c ∷ []
    else c ∷ []

unfoldable pub escape : Text → Text
unfolding escape_char
escape [] = []
escape (c ∷ cs) = escape_char c ++ escape cs

-- What is read of an escaped character.
abbrev IsRead : ℕ → Type 0
IsRead c = (xs : Text) → unescape_from false (escape_char c ++ xs) ≡ push c (unescape_from false xs)

known : (d : ℕ) → IsRead d → (c : ℕ) → c ≡ d → IsRead c
known d r c e = subst IsRead (sym e) r

kept : (c : ℕ) → (isspace c || (c == 92)) ≡ true → unescape_char c ≡ c
kept c h = ground arith

plain :
    (c : ℕ) (xs : Text)
    → (c == 92) ≡ false
    → unescape_from false (c ∷ xs) ≡ push c (unescape_from false xs)
unfolding unescape_from
plain c xs h = rw (h, unescape_from) refl

escape_char-IsRead : (c : ℕ) → IsRead c
unfolding escape_char unescape_from
escape_char-IsRead c = elim (Bool-cases (c == 10)) [
  | inl e ↦ known 10 (λ xs. refl) c ((==_iff c 10).0 e)
  | inr a ↦ elim (Bool-cases (c == 13)) [
    | inl e ↦ known 13 (λ xs. refl) c ((==_iff c 13).0 e)
    | inr b ↦ elim (Bool-cases (c == 32)) [
      | inl e ↦ known 32 (λ xs. refl) c ((==_iff c 32).0 e)
      | inr d ↦ elim (Bool-cases (isspace c || (c == 92))) [
        | inl e ↦ λ xs.
            ap (λ es. unescape_from false (es ++ xs)) (escaped c a b d e)
            ∙ ap (λ x. push x (unescape_from false xs)) (kept c e)
        | inr n ↦ λ xs.
            ap (λ es. unescape_from false (es ++ xs)) (unescaped c a b d n)
            ∙ plain c xs (no_backslash c n)
      ]
    ]
  ]
]
  where
    escaped :
        (c : ℕ)
        → (c == 10) ≡ false
        → (c == 13) ≡ false
        → (c == 32) ≡ false
        → (isspace c || (c == 92)) ≡ true
        → escape_char c ≡ 92 ∷ c ∷ []
    escaped c a b d e = if_false _ _ a ∙ if_false _ _ b ∙ if_false _ _ d ∙ if_true _ _ e

    unescaped :
        (c : ℕ)
        → (c == 10) ≡ false
        → (c == 13) ≡ false
        → (c == 32) ≡ false
        → (isspace c || (c == 92)) ≡ false
        → escape_char c ≡ c ∷ []
    unescaped c a b d e = if_false _ _ a ∙ if_false _ _ b ∙ if_false _ _ d ∙ if_false _ _ e

    no_backslash : (c : ℕ) → (isspace c || (c == 92)) ≡ false → (c == 92) ≡ false
    no_backslash c h = ground arith

pub ini_unescape-escape : (v : Text) → ini_unescape (escape v) ≡ some v
unfolding ini_unescape escape unescape_from
ini_unescape-escape [] = refl
ini_unescape-escape (c ∷ v) = escape_char-IsRead c (escape v) ∙ ap (push c) (ini_unescape-escape v)

-- The first character of an escaped text is no space.
skip_spaces-escape_char :
    (c : ℕ) (xs : Text) → skip_spaces (escape_char c ++ xs) ≡ escape_char c ++ xs
unfolding skip_spaces escape_char
skip_spaces-escape_char c xs = ground arith

pub skip_spaces-escape : (v : Text) → skip_spaces (escape v) ≡ escape v
unfolding escape skip_spaces
skip_spaces-escape [] = refl
skip_spaces-escape (c ∷ v) = skip_spaces-escape_char c (escape v)

abbrev pub NoNewline : Text → Type 0
NoNewline = All (λ c. c ≢ 10)

if_NoNewline :
    (b : Bool) (xs ys : Text) → NoNewline xs → NoNewline ys → NoNewline (if b then xs else ys)
if_NoNewline true xs ys h k = h
if_NoNewline false xs ys h k = k

escape_char-NoNewline : (c : ℕ) → NoNewline (escape_char c)
unfolding escape_char
escape_char-NoNewline c = elim (Bool-cases (c == 10)) [
  | inl e ↦
      subst (λ d. NoNewline (escape_char d)) (sym ((==_iff c 10).0 e))
        (omega arith, (omega arith, tt))
  | inr a ↦ subst NoNewline (sym (if_false _ _ a)) (
      if_NoNewline (c == 13) _ _ (omega arith, (omega arith, tt))
        (if_NoNewline (c == 32) _ _ (omega arith, (omega arith, tt))
          (if_NoNewline (isspace c || (c == 92)) _ _ (omega arith, (ne_of_== c 10 a, tt))
            (ne_of_== c 10 a, tt))))
]

pub escape-NoNewline : (v : Text) → NoNewline (escape v)
unfolding escape
escape-NoNewline [] = tt
escape-NoNewline (c ∷ v) =
    All-append (λ c. c ≢ 10) (escape_char c) (escape v) (escape_char-NoNewline c)
      (escape-NoNewline v)

-- A character of a key.
abbrev pub IsKeyChar : ℕ → Type 0
IsKeyChar c = (isspace c || (c == 61)) ≡ false

no_space : (c : ℕ) → IsKeyChar c → isspace c ≡ false
no_space c h = ground arith

take_key_lem : (k rest : Text) → All IsKeyChar k → take_key (k ++ 32 ∷ rest) ≡ (k, 32 ∷ rest)
unfolding take_key
take_key_lem [] rest h = refl
take_key_lem (c ∷ k) rest h = if_false _ _ h.0 ∙ ap (with_first c) (take_key_lem k rest h.1)

-- A line with a key, an equals sign between spaces and an escaped value is read as that key and
-- that value.
pub parsekv_lem :
    (c : ℕ) (k v : Text)
    → All IsKeyChar (c ∷ k)
    → parsekv (c ∷ k ++ 32 ∷ 61 ∷ 32 ∷ escape v)
      ≡ some (record { key = c ∷ k; value = v; rawvalue = escape v })
unfolding parsekv parse_value skip_spaces
parsekv_lem c k v h =
    ap (λ t. parse_key (take_key t)) (if_false _ _ (no_space c h.0))
    ∙ ap parse_key (take_key_lem (c ∷ k) (61 ∷ 32 ∷ escape v) h)
    ∙ ap (λ t. to_property (c ∷ k) t (ini_unescape t)) (skip_spaces-escape v)
    ∙ ap (to_property (c ∷ k) (escape v)) (ini_unescape-escape v)
