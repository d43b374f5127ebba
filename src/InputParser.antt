-- ===== src/InputParser.antt =====
-- platform/input-parser/src/inputParser.js: parseInputText. A text is the list of its UTF-16 units.
-- `fields` is kept as the fields before the last and the last one, which is `fields[fieldIndex]`;
-- `quotedField`, which nothing reads, is left out. The errors of the file carry the details that
-- the source gives them.
pub mod Print
pub mod RoundTrip
pub mod Mapping
pub mod Definitions
use web_action_recorder_exte.Common.{
  ℕ, String, Bool, true, false, not, ◌&&◌, ◌||◌, ◌==◌, ◌+◌, List, [], ◌∷◌, ◌++◌, map, length,
  is_empty, if◌then◌else◌, Option, none, some,
}

abbrev pub Units : Type 0
Units = List ℕ

pub data InputError : Type 0 where
  -- the line and the column at which the text ends
  unclosed_quote : ℕ → ℕ → InputError
  no_devices : InputError
  -- the rows expected and given
  missing_row extra_row : ℕ → ℕ → InputError
  row_without_fields : Option ℕ → InputError
  -- the fields expected and given, and the row
  missing_field extra_field : ℕ → ℕ → ℕ → InputError
  -- the name and the index of the required input, and whether it is sensitive
  missing_input : String → ℕ → Bool → InputError
  -- the fields expected and given
  extra_input : ℕ → ℕ → InputError
  -- the position of the definition
  definition_not_object definition_without_name definition_name_too_long : ℕ → InputError
  duplicate_input_name invalid_input_index : String → InputError
  duplicate_input_index : ℕ → InputError
  sensitive_default_value : String → ℕ → InputError

pub data Parsed {ℓ} (A : Type ℓ) : Type ℓ where
  parsed : A → Parsed A
  failed : InputError → Parsed A

pub record Row : Type 0 where
  pub fields : List Units
  pub source_row_index : ℕ
  pub start_offset : ℕ
  pub start_line : ℕ

pub record Place : Type 0 where
  pub row_start_offset : ℕ
  pub row_start_line : ℕ
  pub line : ℕ
  pub column : ℕ

pub record State : Type 0 where
  pub rows : List Row
  pub before : List Units
  pub field : Units
  pub in_quotes : Bool
  pub place : Place

abbrev pub quote : ℕ
quote = 34

abbrev pub bar : ℕ
bar = 124

abbrev pub line_feed : ℕ
line_feed = 10

abbrev pub carriage_return : ℕ
carriage_return = 13

abbrev pub is_next : ℕ → Units → Bool
is_next c [] = false
is_next c (d ∷ rest) = d == c

abbrev pub make_row : List Units → ℕ → ℕ → ℕ → Row
make_row fields index offset line = record {
  fields = fields;
  source_row_index = index;
  start_offset = offset;
  start_line = line;
}

abbrev pub pass : ℕ → Place → Place
pass n p = record {
  row_start_offset = p.row_start_offset;
  row_start_line = p.row_start_line;
  line = p.line;
  column = p.column + n;
}

abbrev pub new_line : Place → Place
new_line p = record {
  row_start_offset = p.row_start_offset;
  row_start_line = p.row_start_line;
  line = p.line + 1;
  column = 1;
}

abbrev pub add_unit : ℕ → State → Place → State
add_unit c s p = record {
  rows = s.rows;
  before = s.before;
  field = s.field ++ c ∷ [];
  in_quotes = s.in_quotes;
  place = p;
}

abbrev pub set_in_quotes : Bool → State → State
set_in_quotes b s = record {
  rows = s.rows;
  before = s.before;
  field = s.field;
  in_quotes = b;
  place = pass 1 s.place;
}

abbrev pub next_field : State → State
next_field s = record {
  rows = s.rows;
  before = s.before ++ s.field ∷ [];
  field = [];
  in_quotes = s.in_quotes;
  place = pass 1 s.place;
}

-- The row so far, as `rows.push(makeRow(…))` adds it.
abbrev pub push_row : State → List Row
push_row s =
    s.rows
    ++ make_row (s.before ++ s.field ∷ []) (length s.rows) s.place.row_start_offset
        s.place.row_start_line
      ∷ []

-- `index` is the one of the line end's last unit.
abbrev pub next_row : ℕ → State → State
next_row index s = record {
  rows = push_row s;
  before = [];
  field = [];
  in_quotes = s.in_quotes;
  place = record {
    row_start_offset = index + 1;
    row_start_line = s.place.line + 1;
    line = s.place.line + 1;
    column = 1;
  };
}

-- One turn of the loop: the state after it, and whether the turn took the next unit too
-- (`index += 1` in the body).
unfoldable pub quoted_turn : State → ℕ → Units → State × Bool
quoted_turn s c rest =
    if c == quote && is_next quote rest
    then (add_unit quote s (pass 2 s.place), true)
    else if c == quote
    then (set_in_quotes false s, false)
    else if c == line_feed
    then (add_unit c s (new_line s.place), false)
    else (add_unit c s (pass 1 s.place), false)

unfoldable pub plain_turn : State → ℕ → ℕ → Units → State × Bool
plain_turn s index c rest =
    if c == quote
    then if is_empty s.field
      then (set_in_quotes true s, false)
      else (add_unit c s (pass 1 s.place), false)
    else if c == bar
    then (next_field s, false)
    else if c == carriage_return || c == line_feed
    then if c == carriage_return && is_next line_feed rest
      then (next_row (index + 1) s, true)
      else (next_row index s, false)
    else (add_unit c s (pass 1 s.place), false)

unfoldable pub turn : State → ℕ → ℕ → Units → State × Bool
unfolding quoted_turn plain_turn
turn s index c rest = if s.in_quotes then quoted_turn s c rest else plain_turn s index c rest

-- The loop: the Boolean says that the unit at the index is taken already.
unfoldable pub parse_from : State → Bool → ℕ → Units → State
unfolding turn
parse_from s taken index [] = s
parse_from s true index (c ∷ rest) = parse_from s false (index + 1) rest
parse_from s false index (c ∷ rest) =
    parse_from ((turn s index c rest).0) ((turn s index c rest).1) (index + 1) rest

abbrev pub start : State
start = record {
  rows = [];
  before = [];
  field = [];
  in_quotes = false;
  place = record { row_start_offset = 0; row_start_line = 1; line = 1; column = 1 };
}

unfoldable pub finish : State → Parsed (List Row)
finish s =
    if s.in_quotes then failed (unclosed_quote s.place.line s.place.column) else parsed (push_row s)

unfoldable pub parse_input_text : Units → Parsed (List Row)
unfolding parse_from finish
parse_input_text text = finish (parse_from start false 0 text)
