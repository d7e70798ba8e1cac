-- ===== src/IniParse.antt =====
-- xdrpp/iniparse.cc and iniparse.h: the parser of ini files. A text is a list of its bytes.
pub mod Escape
pub mod Document
pub mod Words
use xdrpp.Common.{
  ℕ, ◌+◌, Bool, true, false, not, ◌&&◌, ◌||◌, Option, none, some, List, [], ◌∷◌, ◌++◌, drop, length,
  leb, ◌==◌, if◌then◌else◌,
}

abbrev pub Text : Type 0
Text = List ℕ

abbrev pub is_empty : Text → Bool
is_empty [] = true
is_empty (c ∷ cs) = false

-- One of "\t\r ".
abbrev pub is_blank : ℕ → Bool
is_blank c = (c == 9) || ((c == 13) || (c == 32))

-- `isspace` in the locale "C".
abbrev pub isspace : ℕ → Bool
isspace c = (leb 9 c && leb c 13) || (c == 32)

abbrev pub unescape_char : ℕ → ℕ
unescape_char c =
    if c == 110
    then 10
    else if c == 114
    then 13
    else if c == 115
    then 32
    else if c == 116
    then 9
    else c

abbrev pub push : ℕ → Option Text → Option Text
push c none = none
push c (some v) = some (c ∷ v)

-- The loop of `ini_unescape`; the flag is `escape`. What comes out is in the order of the text, where
-- the code appends to `v`.
unfoldable pub unescape_from : Bool → Text → Option Text
unescape_from true [] = none
unescape_from false [] = some []
unescape_from true (c ∷ cs) = push (unescape_char c) (unescape_from false cs)
unescape_from false (c ∷ cs) = elim (c == 92) [
  | true ↦ unescape_from true cs
  | false ↦ push c (unescape_from false cs)
]

unfoldable pub ini_unescape : Text → Option Text
unfolding unescape_from
ini_unescape cs = unescape_from false cs

unfoldable pub skip_spaces : Text → Text
skip_spaces [] = []
skip_spaces (c ∷ cs) = if isspace c then skip_spaces cs else c ∷ cs

-- The characters of a key, and what follows them.
abbrev pub with_first : ℕ → Text × Text → Text × Text
with_first c (k, rest) = (c ∷ k, rest)

unfoldable pub take_key : Text → Text × Text
take_key [] = ([], [])
take_key (c ∷ cs) = if isspace c || (c == 61) then ([], c ∷ cs) else with_first c (take_key cs)

-- A property: its key, its value, and its raw value.
pub record Property : Type 0 where
  pub key : Text
  pub value : Text
  pub rawvalue : Text

abbrev pub to_property : Text → Text → Option Text → Option Property
to_property k raw none = none
to_property k raw (some v) = some (record { key = k; value = v; rawvalue = raw })

-- Behind the key.
unfoldable pub parse_value : Text → Text → Option Property
unfolding ini_unescape skip_spaces
parse_value k [] = none
parse_value k (c ∷ cs) =
    if is_empty k || not (c == 61)
    then none
    else to_property k (skip_spaces cs) (ini_unescape (skip_spaces cs))

abbrev pub parse_key : Text × Text → Option Property
unfolding parse_value
parse_key (k, rest) = parse_value k (skip_spaces rest)

unfoldable pub parsekv : Text → Option Property
unfolding take_key skip_spaces parse_value
parsekv line = parse_key (take_key (skip_spaces line))

-- A callback of a group: one that the application has added, or `ignoreline`.
pub data Callback : Type 0 where
  user : ℕ → Callback
  ignoreline : Callback

-- `cbs_` of a group, and the groups.
abbrev pub IniGroup : Type 0
IniGroup = Text → Option Callback

abbrev pub IniActions : Type 0
IniActions = Text → Option IniGroup

pub record IniLine : Type 0 where
  pub error : Bool
  pub lineno : ℕ
  pub group : Text
  pub property : Property

-- What can be seen of a run: the calls of the application's callbacks, and the messages.
pub data Event : Type 0 where
  called : ℕ → IniLine → Event
  unknown_property unknown_group syntax_error key_precedes_group call_failed : ℕ → Event

-- `at_end` is `group == a.end()`; otherwise the iterator stands at the group of the line.
pub record Run : Type 0 where
  pub actions : IniActions
  pub at_end : Bool
  pub line : IniLine
  pub events : List Event

unfoldable pub equal_text : Text → Text → Bool
equal_text [] [] = true
equal_text (a ∷ xs) (b ∷ ys) = (a == b) && equal_text xs ys
equal_text _ _ = false

abbrev pub log : Event → Run → Run
log e r = record r { events = r.events ++ (e ∷ []) }

-- `fail`, with the message that is then printed.
abbrev pub fail : (ℕ → Event) → Run → Run
fail e r = record r {
  line = record r.line { error = true };
  events = r.events ++ (e r.line.lineno ∷ []);
}

-- `st.lineno_++`
abbrev pub count_line : Run → Run
count_line r = record r { line = record r.line { lineno = r.line.lineno + 1 } }

-- `cbs_.emplace(key, ignoreline)` in the group.
unfoldable pub ignore_key : Text → Text → IniActions → IniActions
unfolding equal_text
ignore_key group key actions name = elim (actions name) [
  | none ↦ none
  | some cbs ↦
      if equal_text group name
      then some (λ k. if equal_text key k then some ignoreline else cbs k)
      else some cbs
]

-- The line in front of its last bracket, and behind it.
unfoldable pub split_last : Text → Option (Text × Text)
split_last [] = none
split_last (c ∷ cs) = elim (split_last cs) [
  | some (b, a) ↦ some (c ∷ b, a)
  | none ↦ if c == 93 then some ([], cs) else none
]

unfoldable pub all_blank : Text → Bool
all_blank [] = true
all_blank (c ∷ cs) = is_blank c && all_blank cs

unfoldable pub drop_blanks : Text → Text
drop_blanks [] = []
drop_blanks (c ∷ cs) = if is_blank c then drop_blanks cs else c ∷ cs

-- The lines that `getline(s, line).good()` gives: what stands behind the last newline is none, since
-- the end of the file has been met then.
unfoldable pub lines_from : Text → Text → List Text
lines_from line [] = []
lines_from line (c ∷ cs) = elim (c == 10) [
  | true ↦ line ∷ lines_from [] cs
  | false ↦ lines_from (line ++ (c ∷ [])) cs
]

-- `throws n line` says whether callback `n` throws a `std::logic_error`.
module _ (throws : ℕ → IniLine → Bool) where
  abbrev pub call_user : ℕ → Run → Run
  call_user n r =
      if throws n r.line
      then fail call_failed (log (called n r.line) r)
      else log (called n r.line) r

  -- `IniGroup::parse`, with the `catch` around it.
  unfoldable pub parse_property : Option Callback → Run → Run
  unfolding ignore_key
  parse_property none r = record (log (unknown_property r.line.lineno) r) {
    actions = ignore_key r.line.group r.line.property.key r.actions;
  }
  parse_property (some ignoreline) r = r
  parse_property (some (user n)) r = call_user n r

  abbrev pub set_property : Property → Run → Run
  set_property p r = record r { line = record r.line { property = p } }

  unfoldable pub known_property : IniGroup → Option Property → Run → Run
  unfolding parse_property
  known_property cbs none r = fail syntax_error r
  known_property cbs (some p) r = parse_property (cbs p.key) (set_property p r)

  abbrev pub group_property : Option IniGroup → Option Property → Run → Run
  unfolding known_property
  group_property none p r = r
  group_property (some cbs) p r = known_property cbs p r

  -- A line that is no group.
  unfoldable pub property_line : Option Property → Run → Run
  unfolding known_property
  property_line p r =
      if is_empty r.line.group
      then fail key_precedes_group r
      else if r.at_end
      then r
      else group_property (r.actions r.line.group) p r

  abbrev pub warn_unknown : Option IniGroup → Run → Run
  warn_unknown none r = record (log (unknown_group r.line.lineno) r) { at_end = true }
  warn_unknown (some cbs) r = record r { at_end = false }

  unfoldable pub enter_group : Text → Run → Run
  enter_group g r = warn_unknown (r.actions g) (record r { line = record r.line { group = g } })

  unfoldable pub group_line : Option (Text × Text) → Run → Run
  unfolding all_blank enter_group
  group_line none r = fail syntax_error r
  group_line (some (b, a)) r =
      if (length b == 1) || not (all_blank a) then fail syntax_error r else enter_group (drop 1 b) r

  unfoldable pub parse_line : Text → Run → Run
  unfolding split_last group_line parsekv property_line
  parse_line [] r = r
  parse_line (c ∷ cs) r =
      if c == 35
      then r
      else if c == 91
      then group_line (split_last (c ∷ cs)) r
      else property_line (parsekv (c ∷ cs)) r

  unfoldable pub run_lines : List Text → Run → Run
  unfolding drop_blanks parse_line
  run_lines [] r = r
  run_lines (line ∷ lines) r = run_lines lines (parse_line (drop_blanks line) (count_line r))

  unfoldable pub ini_runparse : Text → Run → Run
  unfolding lines_from run_lines
  ini_runparse s r = run_lines (lines_from [] s) (record r { at_end = true })
