-- ===== src/IniParse/Document.antt =====
-- Whole ini files.
use xdrpp.Common.{
  ℕ, suc, ◌+◌, ◌&&◌, Option, none, if◌then◌else◌, fun_ext, ◌≡◌, ◌≢◌, refl, ap, ◌∙◌, sym, arith,
  Bool, true, false, not, ◌||◌, some, List, [], ◌∷◌, ◌++◌, ◌==◌, length, All, All-append,
  append_assoc, append-nil, ne→==, if_false,
}
use xdrpp.IniParse.{
  Text, is_empty, is_blank, IniLine, Property, Callback, user, ignoreline, IniGroup, IniActions,
  called, unknown_property, unknown_group, key_precedes_group, call_failed, Run, equal_text, fail,
  ignore_key, parse_property, known_property, group_property, warn_unknown, count_line,
  property_line, enter_group, split_last, all_blank, group_line, drop_blanks, parse_line,
  lines_from, run_lines, ini_runparse,
}
use xdrpp.IniParse.Escape.{escape, NoNewline, escape-NoNewline, IsKeyChar, parsekv_lem}

-- What a line is: the name of a group in brackets, or a key, an equals sign between spaces and an
-- escaped value.
pub data Item : Type 0 where
  section : Text → Item
  property : ℕ → Text → Text → Item

abbrev pub print : Item → Text
print (section g) = 91 ∷ g ++ (93 ∷ [])
print (property c k v) = c ∷ k ++ 32 ∷ 61 ∷ 32 ∷ escape v

abbrev pub print_all : List Item → Text → Text
print_all [] rest = rest
print_all (i ∷ items) rest = print i ++ 10 ∷ print_all items rest

-- Names that can stand in a line.
abbrev pub IsItem : Item → Type 0
IsItem (section g) = (g ≢ []) × NoNewline g
IsItem (property c k v) = (c ≢ 35) × (c ≢ 91) × All IsKeyChar (c ∷ k)

abbrev as_property : ℕ → Text → Text → Property
as_property c k v = record { key = c ∷ k; value = v; rawvalue = escape v }

lines_from_line :
    (acc l rest : Text)
    → NoNewline l
    → lines_from acc (l ++ 10 ∷ rest) ≡ (acc ++ l) ∷ lines_from [] rest
unfolding lines_from
lines_from_line acc [] rest h = ap (λ a. a ∷ lines_from [] rest) (sym (append-nil acc))
lines_from_line acc (c ∷ l) rest h =
    rw (ne→== c 10 h.0, lines_from)
      (lines_from_line (acc ++ (c ∷ [])) l rest h.1
        ∙ ap (λ a. a ∷ lines_from [] rest) (append_assoc acc (c ∷ []) l))

lines_from_tail : (acc l : Text) → NoNewline l → lines_from acc l ≡ []
unfolding lines_from
lines_from_tail acc [] h = refl
lines_from_tail acc (c ∷ l) h =
    rw (ne→== c 10 h.0, lines_from) (lines_from_tail (acc ++ (c ∷ [])) l h.1)

key-NoNewline : (k : Text) → All IsKeyChar k → NoNewline k
key-NoNewline [] h = tt
key-NoNewline (c ∷ k) h = (no_newline c h.0, key-NoNewline k h.1)
  where
    no_newline : (c : ℕ) → IsKeyChar c → c ≢ 10
    no_newline c h = ground arith

print-NoNewline : (i : Item) → IsItem i → NoNewline (print i)
print-NoNewline (section g) (n, h) =
    (omega arith, All-append (λ c. c ≢ 10) g (93 ∷ []) h (omega arith, tt))
print-NoNewline (property c k v) (n, m, h) =
    All-append (λ c. c ≢ 10) (c ∷ k) (32 ∷ 61 ∷ 32 ∷ escape v) (key-NoNewline (c ∷ k) h)
      (omega arith, (omega arith, (omega arith, escape-NoNewline v)))

split_last-end : (g : Text) → split_last (g ++ (93 ∷ [])) ≡ some (g, [])
unfolding split_last
split_last-end [] = refl
split_last-end (c ∷ g) = rw (split_last-end g, split_last) refl

two_chars : (n : ℕ) → ((suc (suc n) == 1) || not true) ≡ false
two_chars n = ground arith

-- The line of the state with the next number, in a group.
abbrev pub next_line : Run → Text → Property → IniLine
next_line r g p = record {
  error = r.line.error;
  lineno = r.line.lineno + 1;
  group = g;
  property = p;
}

-- The groups where the properties of one key are ignored in one group from now on.
abbrev ignoring_in : Bool → Text → Option IniGroup → Option IniGroup
ignoring_in here key none = none
ignoring_in here key (some cbs) =
    some (λ k. if here && equal_text key k then some ignoreline else cbs k)

abbrev pub ignoring : Text → Text → IniActions → IniActions
ignoring group key actions name = ignoring_in (equal_text group name) key (actions name)

-- The group that the lines belong to, if the application knows it.
abbrev pub current : Run → Option IniGroup
current r = if r.at_end then none else r.actions r.line.group

-- A section without callbacks is reported, and its lines are passed over.
abbrev pub run_section : Option IniGroup → Text → Run → Run
run_section none g r = record {
  actions = r.actions;
  at_end = true;
  line = next_line r g r.line.property;
  events = r.events ++ (unknown_group (r.line.lineno + 1) ∷ []);
}
run_section (some cbs) g r = record {
  actions = r.actions;
  at_end = false;
  line = next_line r g r.line.property;
  events = r.events;
}

module _ (throws : ℕ → IniLine → Bool) where
  -- A property goes to the callback of its key; a key without one is reported once.
  abbrev pub hand_on : Option Callback → IniLine → Run → Run
  hand_on none line r = record r {
    actions = ignoring line.group line.property.key r.actions;
    line = line;
    events = r.events ++ (unknown_property line.lineno ∷ []);
  }
  hand_on (some ignoreline) line r = record r { line = line }
  hand_on (some (user n)) line r =
      if throws n line
      then record r {
        line = record line { error = true };
        events = r.events ++ (called n line ∷ call_failed line.lineno ∷ []);
      }
      else record r { line = line; events = r.events ++ (called n line ∷ []) }

  abbrev pub run_property : Option IniGroup → Property → Run → Run
  run_property none p r = record r { line = next_line r r.line.group r.line.property }
  run_property (some cbs) p r = hand_on (cbs p.key) (next_line r r.line.group p) r

  -- A property in front of all sections is an error.
  abbrev pub misplaced : Run → Run
  misplaced r = record r {
    line = record (next_line r r.line.group r.line.property) { error = true };
    events = r.events ++ (key_precedes_group (r.line.lineno + 1) ∷ []);
  }

  -- What an item does.
  abbrev pub run_item : Item → Run → Run
  run_item (section g) r = run_section (r.actions g) g r
  run_item (property c k v) r =
      if is_empty r.line.group then misplaced r else run_property (current r) (as_property c k v) r

  abbrev pub run_items : List Item → Run → Run
  run_items [] r = r
  run_items (i ∷ items) r = run_items items (run_item i r)

  enter_group_lem :
      (g : Text) (r : Run) → enter_group throws g (count_line r) ≡ run_item (section g) r
  unfolding enter_group
  enter_group_lem g r = by_group (r.actions g)
    where
      by_group :
          (o : Option IniGroup)
          → warn_unknown throws o
              (record (count_line r) { line = record (count_line r).line { group = g } })
            ≡ run_section o g r
      by_group none = refl
      by_group (some cbs) = refl

  ignore_key-ignoring :
      (group key : Text) (actions : IniActions)
      → ignore_key group key actions ≡ ignoring group key actions
  unfolding ignore_key
  ignore_key-ignoring group key actions =
      fun_ext λ name. by_group (actions name) (equal_text group name)
    where
      by_group :
          (o : Option IniGroup) (b : Bool)
          → elim o [
            | none ↦ none
            | some cbs ↦
                if b
                then some (λ k. if equal_text key k then some ignoreline else cbs k)
                else some cbs
          ]
            ≡ ignoring_in b key o
      by_group none b = refl
      by_group (some cbs) true = refl
      by_group (some cbs) false = refl

  parse_property_lem :
      (o : Option Callback) (line : IniLine) (r : Run)
      → parse_property throws o (record r { line = line }) ≡ hand_on o line r
  unfolding parse_property
  parse_property_lem none line r =
      ap
        (λ a. record r {
          actions = a;
          line = line;
          events = r.events ++ (unknown_property line.lineno ∷ []);
        })
        (ignore_key-ignoring line.group line.property.key r.actions)
  parse_property_lem (some ignoreline) line r = refl
  parse_property_lem (some (user n)) line r =
      ap
        (λ es.
          if throws n line
          then record r { line = record line { error = true }; events = es }
          else record r { line = line; events = r.events ++ (called n line ∷ []) })
        (append_assoc r.events (called n line ∷ []) (call_failed line.lineno ∷ []))

  group_property_lem :
      (o : Option IniGroup) (p : Property) (r : Run)
      → group_property throws o (some p) (count_line r) ≡ run_property o p r
  unfolding known_property
  group_property_lem none p r = refl
  group_property_lem (some cbs) p r = parse_property_lem (cbs p.key) (next_line r r.line.group p) r

  property_line_lem :
      (c : ℕ) (k v : Text) (r : Run)
      → property_line throws (some (as_property c k v)) (count_line r) ≡ run_item (property c k v) r
  unfolding property_line
  property_line_lem c k v r = by_end r.at_end
    where
      by_end :
          (b : Bool)
          → (if is_empty r.line.group
              then fail key_precedes_group (count_line r)
              else if b
              then count_line r
              else group_property throws
                  (r.actions r.line.group)
                  (some (as_property c k v))
                  (count_line r))
            ≡ (if is_empty r.line.group
                then misplaced r
                else run_property
                    (if b then none else r.actions r.line.group)
                    (as_property c k v)
                    r)
      by_end true = refl
      by_end false =
          ap (λ q. if is_empty r.line.group then misplaced r else q)
            (group_property_lem (r.actions r.line.group) (as_property c k v) r)

  section_line :
      (g : Text) (r : Run)
      → g ≢ []
      → parse_line throws (drop_blanks (print (section g))) r ≡ enter_group throws g r
  unfolding parse_line drop_blanks group_line all_blank
  section_line [] r n = absurd (n refl)
  section_line (c ∷ g) r n =
      ap (λ s. group_line throws s r) (split_last-end (91 ∷ c ∷ g))
      ∙ if_false _ _ (two_chars (length g))

  property_item :
      (c : ℕ) (k v : Text) (r : Run)
      → c ≢ 35
      → c ≢ 91
      → All IsKeyChar (c ∷ k)
      → parse_line throws (drop_blanks (print (property c k v))) r
        ≡ property_line throws (some (as_property c k v)) r
  unfolding parse_line drop_blanks
  property_item c k v r n m h =
      ap (λ l. parse_line throws l r) (if_false _ _ (no_blank c h.0))
      ∙ if_false _ _ (ne→== c 35 n)
      ∙ if_false _ _ (ne→== c 91 m)
      ∙ ap (λ p. property_line throws p r) (parsekv_lem c k v h)
    where
      no_blank : (c : ℕ) → IsKeyChar c → is_blank c ≡ false
      no_blank c h = ground arith

  line_item :
      (i : Item) (r : Run)
      → IsItem i
      → parse_line throws (drop_blanks (print i)) (count_line r) ≡ run_item i r
  line_item (section g) r (n, h) = section_line g (count_line r) n ∙ enter_group_lem g r
  line_item (property c k v) r (n, m, h) =
      property_item c k v (count_line r) n m h ∙ property_line_lem c k v r

  run_lines-print_all :
      (items : List Item) (rest : Text) (r : Run)
      → All IsItem items
      → NoNewline rest
      → run_lines throws (lines_from [] (print_all items rest)) r ≡ run_items items r
  unfolding run_lines
  run_lines-print_all [] rest r h n = ap (λ ls. run_lines throws ls r) (lines_from_tail [] rest n)
  run_lines-print_all (i ∷ items) rest r h n =
      ap (λ ls. run_lines throws ls r)
        (lines_from_line [] (print i) (print_all items rest) (print-NoNewline i h.0))
      ∙ ap (run_lines throws (lines_from [] (print_all items rest))) (line_item i r h.0)
      ∙ run_lines-print_all items rest (run_item i r) h.1 n

  -- A file of groups and properties, one to a line, does what they stand for, in order, and nothing
  -- else. A group is entered, or reported as unknown and its properties passed over. A property, with
  -- its own key and the value that its escapes stand for, goes to the callback of its key in the group
  -- it stands in, an error if that throws; a key without a callback is reported, and ignored in that
  -- group from then on; a property in front of all groups is an error. What stands behind the last
  -- newline is ignored, whatever it is: a last line that does not end with a newline is lost.
  pub ini_runparse-print_all :
      (items : List Item) (rest : Text) (r : Run)
      → All IsItem items
      → NoNewline rest
      → ini_runparse throws (print_all items rest) r ≡ run_items items (record r { at_end = true })
  unfolding ini_runparse
  ini_runparse-print_all items rest r h n =
      run_lines-print_all items rest (record r { at_end = true }) h n
