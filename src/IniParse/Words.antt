-- ===== src/IniParse/Words.antt =====
-- `IniLine::argv`, which takes a raw value apart into words (xdrpp/iniparse.cc).
use xdrpp.Common.{
  ℕ, zero, suc, ◌≤◌, ◌≡◌, ◌≢◌, refl, sym, ap, subst, ◌∙◌, arith, Bool, true, false, not, ◌&&◌, ◌||◌,
  ◌⊎◌, inl, inr, Option, none, some, List, [], ◌∷◌, ◌++◌, length, length-append, ◌==◌, All,
  Bool-cases, ne→==, if_true, if_false, if◌then◌else◌,
}
use xdrpp.IniParse.{Text, is_blank, isspace, with_first, ini_unescape, drop_blanks}
use xdrpp.IniParse.Escape.{escape_char, escape, ini_unescape-escape}

-- The rest of a word whose last character is `prev`, up to the next blank without a backslash in
-- front of it, and what follows it.
unfoldable pub take_word : ℕ → Text → Text × Text
take_word prev [] = ([], [])
take_word prev (c ∷ cs) =
    if is_blank c && not (prev == 92) then ([], c ∷ cs) else with_first c (take_word c cs)

abbrev pub push_word : Option Text → Option (List Text) → Option (List Text)
push_word (some a) (some av) = some (a ∷ av)
push_word _ _ = none

-- `none` is an `invalid_argument`.
unfoldable pub words_from : ℕ → Text → Option (List Text)
unfolding take_word ini_unescape drop_blanks
words_from fuel [] = some []
words_from zero (c ∷ cs) = none
words_from (suc fuel) (c ∷ cs) =
    push_word (ini_unescape (c ∷ (take_word c cs).0))
      (words_from fuel (drop_blanks (take_word c cs).1))

unfoldable pub argv : Text → Option (List Text)
unfolding words_from
argv rawvalue = words_from (length rawvalue) rawvalue

-- What an escaped character looks like: itself, or a backslash and another.
EscapeForm : ℕ → Type 0
EscapeForm c =
    ((escape_char c ≡ c ∷ []) × (is_blank c ≡ false))
    ⊎ ((d : ℕ) × (escape_char c ≡ 92 ∷ d ∷ []) × (c ≢ 92 → d ≢ 92))

form : (c : ℕ) → EscapeForm c
unfolding escape_char EscapeForm
form c = elim (Bool-cases (c == 10)) [
  | inl e ↦ inr (110, if_true _ _ e, λ n. omega arith)
  | inr a ↦ elim (Bool-cases (c == 13)) [
    | inl e ↦ inr (114, if_false _ _ a ∙ if_true _ _ e, λ n. omega arith)
    | inr b ↦ elim (Bool-cases (c == 32)) [
      | inl e ↦ inr (115, if_false _ _ a ∙ if_false _ _ b ∙ if_true _ _ e, λ n. omega arith)
      | inr d ↦ elim (Bool-cases (isspace c || (c == 92))) [
        | inl e ↦ inr (c, if_false _ _ a ∙ if_false _ _ b ∙ if_false _ _ d ∙ if_true _ _ e, λ n. n)
        | inr n ↦
            inl (if_false _ _ a ∙ if_false _ _ b ∙ if_false _ _ d ∙ if_false _ _ n, no_blank c n)
      ]
    ]
  ]
]
  where
    no_blank : (c : ℕ) → (isspace c || (c == 92)) ≡ false → is_blank c ≡ false
    no_blank c h = ground arith

-- The last character, if any behind `c`, is no backslash.
abbrev pub EndsPlain : ℕ → Text → Type 0
EndsPlain c [] = c ≢ 92
EndsPlain c (d ∷ w) = EndsPlain d w

EndsPlain-last : (c d : ℕ) (w : Text) → (c ≢ 92 → d ≢ 92) → EndsPlain c w → EndsPlain d w
EndsPlain-last c d [] k h = k h
EndsPlain-last c d (x ∷ w) k h = h

-- What may follow a word.
abbrev Stops : Text → Type 0
Stops rest = (prev : ℕ) → prev ≢ 92 → take_word prev rest ≡ ([], rest)

take_plain :
    (prev c : ℕ) (cs : Text)
    → is_blank c ≡ false
    → take_word prev (c ∷ cs) ≡ with_first c (take_word c cs)
unfolding take_word
take_plain prev c cs h = if_false _ _ (ap (λ b. b && not (prev == 92)) h)

-- A backslash makes a blank part of the word.
take_behind : (d : ℕ) (cs : Text) → take_word 92 (d ∷ cs) ≡ with_first d (take_word d cs)
unfolding take_word
take_behind d cs = if_false _ _ (and_false (is_blank d))
  where
    and_false : (b : Bool) → (b && false) ≡ false
    and_false true = refl
    and_false false = refl

take_escaped :
    (prev d : ℕ) (cs : Text)
    → take_word prev (92 ∷ d ∷ cs) ≡ with_first 92 (with_first d (take_word d cs))
unfolding take_word
take_escaped prev d cs = ap (with_first 92) (take_behind d cs)

take_word-escape :
    (prev : ℕ) (w rest : Text)
    → Stops rest
    → EndsPlain prev w
    → take_word prev (escape w ++ rest) ≡ (escape w, rest)
unfolding escape EscapeForm
take_word-escape prev [] rest s h = s prev h
take_word-escape prev (c ∷ w) rest s h = elim (form c) [
  | inl (e, b) ↦
      ap (λ x. take_word prev ((x ++ escape w) ++ rest)) e
      ∙ take_plain prev c (escape w ++ rest) b
      ∙ ap (with_first c) (take_word-escape c w rest s h)
      ∙ ap (λ x. (x ++ escape w, rest)) (sym e)
  | inr (d, e, k) ↦
      ap (λ x. take_word prev ((x ++ escape w) ++ rest)) e
      ∙ take_escaped prev d (escape w ++ rest)
      ∙ ap (λ p. with_first 92 (with_first d p))
          (take_word-escape d w rest s (EndsPlain-last c d w k h))
      ∙ ap (λ x. (x ++ escape w, rest)) (sym e)
]

-- The text of a word has a first character that is no blank, and the word goes on from it.
FirstWord : ℕ → Text → Text → Type 0
FirstWord c w rest =
    (x : ℕ) × (xs : Text) × (escape (c ∷ w) ≡ x ∷ xs)
    × (is_blank x ≡ false)
    × (take_word x (xs ++ rest) ≡ (xs, rest))

first_word : (c : ℕ) (w rest : Text) → Stops rest → EndsPlain c w → FirstWord c w rest
unfolding escape FirstWord EscapeForm
first_word c w rest s h = elim (form c) [
  | inl (e, b) ↦ (c, escape w, ap (λ x. x ++ escape w) e, b, take_word-escape c w rest s h)
  | inr (d, e, k) ↦ (
    92,
    d ∷ escape w,
    ap (λ x. x ++ escape w) e,
    refl,
    take_behind d (escape w ++ rest)
        ∙ ap (with_first d) (take_word-escape d w rest s (EndsPlain-last c d w k h)),
  )
]

-- A word that is not empty and does not end with a backslash.
abbrev pub IsWord : Text → Type 0
IsWord [] = ⊥
IsWord (c ∷ w) = EndsPlain c w

-- Words with a blank in front of each, and with blanks between them.
abbrev pub print_more : List Text → Text
print_more [] = []
print_more (w ∷ ws) = 32 ∷ escape w ++ print_more ws

abbrev pub print_words : List Text → Text
print_words [] = []
print_words (w ∷ ws) = escape w ++ print_more ws

print_more-Stops : (ws : List Text) → Stops (print_more ws)
unfolding take_word
print_more-Stops [] prev h = refl
print_more-Stops (w ∷ ws) prev h = if_true _ _ (ap not (ne→== prev 92 h))

drop_blanks-print_more :
    (ws : List Text) → All IsWord ws → drop_blanks (print_more ws) ≡ print_words ws
unfolding drop_blanks FirstWord
drop_blanks-print_more [] h = refl
drop_blanks-print_more ([] ∷ ws) h = absurd h.0
drop_blanks-print_more ((c ∷ w) ∷ ws) h =
    let (x, xs, e, b, t) = first_word c w (print_more ws) (print_more-Stops ws) h.0 in
    ap (λ l. drop_blanks (l ++ print_more ws)) e
    ∙ if_false _ _ b
    ∙ ap (λ l. l ++ print_more ws) (sym e)

count_more : (ws : List Text) → length ws ≤ length (print_more ws)
count_more [] = omega arith
count_more (w ∷ ws) = omega (arith, count_more ws, length-append (escape w) (print_more ws))

count_words : (ws : List Text) → All IsWord ws → length ws ≤ length (print_words ws)
unfolding FirstWord
count_words [] h = omega arith
count_words ([] ∷ ws) h = absurd h.0
count_words ((c ∷ w) ∷ ws) h =
    let (x, xs, e, b, t) = first_word c w (print_more ws) (print_more-Stops ws) h.0 in
    subst (λ l. length ((c ∷ w) ∷ ws) ≤ length (l ++ print_more ws)) (sym e)
      (omega (arith, count_more ws, length-append xs (print_more ws)))

words_from-print_words :
    (fuel : ℕ) (ws : List Text)
    → All IsWord ws
    → length ws ≤ fuel
    → words_from fuel (print_words ws) ≡ some ws
unfolding words_from FirstWord
words_from-print_words fuel [] h n = words_none fuel
  where
    words_none : (fuel : ℕ) → words_from fuel [] ≡ some []
    words_none zero = refl
    words_none (suc fuel) = refl
words_from-print_words fuel ([] ∷ ws) h n = absurd h.0
words_from-print_words zero ((c ∷ w) ∷ ws) h n = absurd (omega arith)
words_from-print_words (suc fuel) ((c ∷ w) ∷ ws) h n =
    let (x, xs, e, b, t) = first_word c w (print_more ws) (print_more-Stops ws) h.0 in
    ap (λ l. words_from (suc fuel) (l ++ print_more ws)) e
    ∙ ap (λ p. push_word (ini_unescape (x ∷ p.0)) (words_from fuel (drop_blanks p.1))) t
    ∙ ap (λ l. push_word (ini_unescape l) (words_from fuel (drop_blanks (print_more ws)))) (sym e)
    ∙ ap (λ o. push_word o (words_from fuel (drop_blanks (print_more ws))))
        (ini_unescape-escape (c ∷ w))
    ∙ ap (λ l. push_word (some (c ∷ w)) (words_from fuel l)) (drop_blanks-print_more ws h.1)
    ∙ ap (push_word (some (c ∷ w))) (words_from-print_words fuel ws h.1 (omega arith))

-- Words that are printed with their escapes and a blank between them are read back as those words,
-- where none is empty and none ends with a backslash.
pub argv-print_words : (ws : List Text) → All IsWord ws → argv (print_words ws) ≡ some ws
unfolding argv
argv-print_words ws h = words_from-print_words (length (print_words ws)) ws h (count_words ws h)
