-- ===== src/InputParser/Print.antt =====
-- How a table is written as a text that platform/input-parser/src/inputParser.js reads: a field as
-- it is or in quotes, the fields of a row with `|` between them, the rows with `\n` or `\r\n`
-- between them. The repository has no such function: this is the format that the parser is for.
use web_action_recorder_exte.Common.{
  ℕ, Bool, true, not, ◌&&◌, ◌||◌, ◌==◌, List, [], ◌∷◌, ◌++◌, map, all, if◌then◌else◌,
}
use web_action_recorder_exte.InputParser.{Units, quote, bar, line_feed, carriage_return, is_next}

pub data Written : Type 0 where
  as_it_is quoted : Units → Written

pub data LineEnd : Type 0 where
  lf crlf : LineEnd

-- A row has a first field, a table has a first row.
pub record Line : Type 0 where
  pub first : Written
  pub others : List Written

pub record Table : Type 0 where
  pub top : Line
  pub below : List (LineEnd × Line)

abbrev pub content : Written → Units
content (as_it_is f) = f
content (quoted f) = f

abbrev pub line_fields : Line → List Units
line_fields l = content l.first ∷ map content l.others

abbrev pub table_fields : Table → List (List Units)
table_fields t = line_fields t.top ∷ map (λ x. line_fields (x.1)) t.below

-- A quote is doubled.
abbrev pub escape : Units → Units
escape [] = []
escape (c ∷ f) = let rest = escape f in if c == quote then quote ∷ quote ∷ rest else c ∷ rest

-- A text, and the rest of the file behind it.
abbrev pub print_field : Written → Units → Units
print_field (as_it_is f) rest = f ++ rest
print_field (quoted f) rest = quote ∷ (escape f ++ quote ∷ rest)

abbrev pub print_others : List Written → Units → Units
print_others [] rest = rest
print_others (w ∷ ws) rest = bar ∷ print_field w (print_others ws rest)

abbrev pub print_line : Line → Units → Units
print_line l rest = print_field l.first (print_others l.others rest)

abbrev pub print_end : LineEnd → Units → Units
print_end lf rest = line_feed ∷ rest
print_end crlf rest = carriage_return ∷ line_feed ∷ rest

abbrev pub print_below : List (LineEnd × Line) → Units
print_below [] = []
print_below (x ∷ xs) = print_end (x.0) (print_line (x.1) (print_below xs))

abbrev pub print_table : Table → Units
print_table t = print_line t.top (print_below t.below)

-- A field can be written as it is when it has no separator and does not begin with a quote.
abbrev pub is_separator : ℕ → Bool
is_separator c = c == bar || c == carriage_return || c == line_feed

abbrev pub fits : Written → Bool
fits (as_it_is f) = all (λ c. not (is_separator c)) f && not (is_next quote f)
fits (quoted f) = true

abbrev pub line_fits : Line → Bool
line_fits l = fits l.first && all fits l.others

abbrev pub table_fits : Table → Bool
table_fits t = line_fits t.top && all (λ x. line_fits (x.1)) t.below
