-- ===== src/InputParser/RoundTrip.antt =====
-- platform/input-parser/src/inputParser.js: parseInputText on a text that a table is written as.
use web_action_recorder_exte.Common.{
  ℕ, Bool, true, false, not, ◌&&◌, ◌||◌, ◌==◌, ◌+◌, List, [], ◌∷◌, ◌++◌, map, all, ◌≡◌, refl, arith,
  ap, sym, Bool-cases, inl, inr, ◌∙◌, is_empty,
}
use mathlib.Core.List.{append_assoc, append-nil, map-append}
use web_action_recorder_exte.InputParser.{
  Units, quote, bar, line_feed, carriage_return, is_next, State, Place, Row, Parsed, parsed, failed,
  turn, quoted_turn, plain_turn, parse_from, finish, start, parse_input_text, pass, new_line,
}
use web_action_recorder_exte.InputParser.Print.{
  Written, as_it_is, quoted, LineEnd, lf, crlf, Line, Table, content, line_fields, table_fields,
  escape, print_field, print_others, print_line, print_end, print_below, print_table, is_separator,
  fits, line_fits, table_fits,
}

abbrev at : List Row → List Units → Units → Bool → Place → State
at rs b f q p = record { rows = rs; before = b; field = f; in_quotes = q; place = p }

-- The parser goes from one state and text to another, whatever the index and the place are.
abbrev Goes : (Place → State) → Units → (Place → State) → Units → Type 0
Goes s text t rest =
    (i : ℕ) (p : Place)
    → (j : ℕ) × (q : Place) × (parse_from (s p) false i text ≡ parse_from (t q) false j rest)

Goes-trans : (s t u : Place → State) (a b c : Units) → Goes s a t b → Goes t b u c → Goes s a u c
Goes-trans s t u a b c f g i p = let x = f i p in let y = g (x.0) (x.1) in (y.0, y.1, x.2 ∙ y.2)

is_empty-snoc : (g : Units) (c : ℕ) → is_empty (g ++ c ∷ []) ≡ false
is_empty-snoc [] c = refl
is_empty-snoc (x ∷ g) c = refl

and_false : (b : Bool) → (b && false) ≡ false
and_false b = ground arith

module _ (rs : List Row) (b : List Units) where
  quoted_unit :
      (g : Units) (c : ℕ) (rest : Units)
      → (c == quote) ≡ false
      → Goes (at rs b g true) (c ∷ rest) (at rs b (g ++ c ∷ []) true) rest
  unfolding parse_from turn quoted_turn
  quoted_unit g c rest h i p = elim (Bool-cases (c == line_feed)) [
    | inl e ↦ (i + 1, new_line p, rw (h, e) refl)
    | inr e ↦ (i + 1, pass 1 p, rw (h, e) refl)
  ]

  escaped_quote :
      (g rest : Units)
      → Goes (at rs b g true) (quote ∷ quote ∷ rest) (at rs b (g ++ quote ∷ []) true) rest
  unfolding parse_from turn quoted_turn
  escaped_quote g rest i p = (i + 1 + 1, pass 2 p, refl)

  closing_quote :
      (g rest : Units)
      → is_next quote rest ≡ false
      → Goes (at rs b g true) (quote ∷ rest) (at rs b g false) rest
  unfolding parse_from turn quoted_turn
  closing_quote g rest h i p = (i + 1, pass 1 p, rw h refl)

  opening_quote : (rest : Units) → Goes (at rs b [] false) (quote ∷ rest) (at rs b [] true) rest
  unfolding parse_from turn plain_turn
  opening_quote rest i p = (i + 1, pass 1 p, refl)

  bar_unit :
      (g rest : Units) → Goes (at rs b g false) (bar ∷ rest) (at rs (b ++ g ∷ []) [] false) rest
  unfolding parse_from turn plain_turn
  bar_unit g rest i p = (i + 1, pass 1 p, refl)

  plain_unit :
      (g : Units) (c : ℕ) (rest : Units)
      → is_separator c ≡ false
      → (c == quote && is_empty g) ≡ false
      → Goes (at rs b g false) (c ∷ rest) (at rs b (g ++ c ∷ []) false) rest
  unfolding parse_from turn plain_turn
  plain_unit g c rest h k i p =
      let off : ((c == bar) ≡ false) × ((c == carriage_return || c == line_feed) ≡ false) =
        ground arith in
      elim (Bool-cases (c == quote)) [
        | inl e ↦
            let full : is_empty g ≡ false = ground arith in (i + 1, pass 1 p, rw (e, full) refl)
        | inr e ↦ (i + 1, pass 1 p, rw (e, off.0, off.1) refl)
      ]

  quoted_units :
      (g f rest : Units) → Goes (at rs b g true) (escape f ++ rest) (at rs b (g ++ f) true) rest
  quoted_units g [] rest = λ i p. (i, p, rw (append-nil g) refl)
  quoted_units g (c ∷ f) rest =
      let more : Goes (at rs b (g ++ c ∷ []) true) (escape f ++ rest) (at rs b (g ++ c ∷ f) true)
          rest =
        rw (sym (append_assoc g (c ∷ []) f)) (quoted_units (g ++ c ∷ []) f rest) in
      elim (Bool-cases (c == quote)) [
        | inl e ↦
            let same : quote ≡ c = ground arith in
            let twice : Goes (at rs b g true) (quote ∷ quote ∷ (escape f ++ rest))
                (at rs b (g ++ c ∷ []) true) (escape f ++ rest) =
              rw (sym same) (escaped_quote g (escape f ++ rest)) in
            rw e (Goes-trans _ _ _ _ _ _ twice more)
        | inr e ↦ rw e (Goes-trans _ _ _ _ _ _ (quoted_unit g c (escape f ++ rest) e) more)
      ]

  plain_units :
      (g f rest : Units)
      → all (λ c. not (is_separator c)) f ≡ true
      → (is_next quote f && is_empty g) ≡ false
      → Goes (at rs b g false) (f ++ rest) (at rs b (g ++ f) false) rest
  plain_units g [] rest h k = λ i p. (i, p, rw (append-nil g) refl)
  plain_units g (c ∷ f) rest h k =
      let first : is_separator c ≡ false = ground arith in
      let more : Goes (at rs b (g ++ c ∷ []) false) (f ++ rest) (at rs b (g ++ c ∷ f) false) rest =
        rw (sym (append_assoc g (c ∷ []) f)) (
          plain_units (g ++ c ∷ []) f rest (ground arith)
            (rw (is_empty-snoc g c, and_false (is_next quote f)) refl)) in
      Goes-trans _ _ _ _ _ _ (plain_unit g c (f ++ rest) first k) more

  field_read :
      (w : Written) (rest : Units)
      → fits w ≡ true
      → is_next quote rest ≡ false
      → Goes (at rs b [] false) (print_field w rest) (at rs b (content w) false) rest
  field_read (as_it_is f) rest h k = plain_units [] f rest (ground arith) (ground arith)
  field_read (quoted f) rest h k =
      Goes-trans _ _ _ _ _ _ (opening_quote (escape f ++ quote ∷ rest))
        (Goes-trans _ _ _ _ _ _ (quoted_units [] f (quote ∷ rest)) (closing_quote f rest k))

abbrev Ends : List Row → List Units → Units → Units → List Units → Units → Type 0
Ends rs b g text fields rest =
    (c : List Units) × (f : Units) × (c ++ f ∷ [] ≡ fields)
    × Goes (at rs b g false) text (at rs c f false) rest

is_next-print_others :
    (ws : List Written) (rest : Units)
    → is_next quote rest ≡ false
    → is_next quote (print_others ws rest) ≡ false
is_next-print_others [] rest h = h
is_next-print_others (w ∷ ws) rest h = refl

others_read :
    (rs : List Row) (b : List Units) (g : Units) (ws : List Written) (rest : Units)
    → all fits ws ≡ true
    → is_next quote rest ≡ false
    → Ends rs b g (print_others ws rest) (b ++ g ∷ map content ws) rest
others_read rs b g [] rest h k = (b, g, refl, λ i p. (i, p, refl))
others_read rs b g (w ∷ ws) rest h k =
    let next : Goes (at rs b g false) (bar ∷ print_field w (print_others ws rest))
        (at rs (b ++ g ∷ []) (content w) false) (print_others ws rest) =
      Goes-trans _ _ _ _ _ _ (bar_unit rs b g (print_field w (print_others ws rest))) (
        field_read rs (b ++ g ∷ []) w (print_others ws rest) (ground arith)
          (is_next-print_others ws rest k)) in
    let more = others_read rs (b ++ g ∷ []) (content w) ws rest (ground arith) k in
    (
      more.0,
      more.1,
      more.2 ∙ append_assoc b (g ∷ []) (content w ∷ map content ws),
      Goes-trans _ _ _ _ _ _ next (more.3),
    )

line_read :
    (rs : List Row) (l : Line) (rest : Units)
    → line_fits l ≡ true
    → is_next quote rest ≡ false
    → Ends rs [] [] (print_line l rest) (line_fields l) rest
line_read rs l rest h k =
    let more = others_read rs [] (content l.first) l.others rest (ground arith) k in
    (
      more.0,
      more.1,
      more.2,
      Goes-trans _ _ _ _ _ _
          (field_read rs [] l.first (print_others l.others rest) (ground arith)
            (is_next-print_others l.others rest k))
          (more.3),
    )

abbrev pub row_fields : Parsed (List Row) → Parsed (List (List Units))
row_fields (parsed rows) = parsed (map Row.fields rows)
row_fields (failed e) = failed e

abbrev Reads : List Row → List Units → Units → LineEnd → Units → Type 0
Reads rs b f e rest =
    (i : ℕ) (p : Place)
    → (r : Row) × (j : ℕ) × (q : Place) × (r.fields ≡ b ++ f ∷ [])
      × (parse_from (at rs b f false p) false i (print_end e rest)
          ≡ parse_from (at (rs ++ r ∷ []) [] [] false q) false j rest)

end_read :
    (rs : List Row) (b : List Units) (f : Units) (e : LineEnd) (rest : Units) → Reads rs b f e rest
unfolding parse_from turn plain_turn
end_read rs b f lf rest i p = (_, _, _, refl, refl)
end_read rs b f crlf rest i p = (_, _, _, refl, refl)

is_next-print_end : (e : LineEnd) (rest : Units) → is_next quote (print_end e rest) ≡ false
is_next-print_end lf rest = refl
is_next-print_end crlf rest = refl

is_next-print_below : (xs : List (LineEnd × Line)) → is_next quote (print_below xs) ≡ false
is_next-print_below [] = refl
is_next-print_below (x ∷ xs) = is_next-print_end (x.0) (print_line (x.1) (print_below xs))

fields_snoc :
    (rs : List Row) (r : Row) → map Row.fields (rs ++ r ∷ []) ≡ map Row.fields rs ++ r.fields ∷ []
fields_snoc rs r = map-append Row.fields rs (r ∷ [])

below_read :
    (rs : List Row) (b : List Units) (f : Units) (xs : List (LineEnd × Line)) (i : ℕ) (p : Place)
    → all (λ x. line_fits (x.1)) xs ≡ true
    → row_fields (finish (parse_from (at rs b f false p) false i (print_below xs)))
      ≡ parsed (map Row.fields rs ++ (b ++ f ∷ []) ∷ map (λ x. line_fields (x.1)) xs)
unfolding parse_from finish
below_read rs b f [] i p h = ap parsed (map-append _ rs _)
below_read rs b f (x ∷ xs) i p h =
    let ended = end_read rs b f (x.0) (print_line (x.1) (print_below xs)) i p in
    let rs' : List Row = rs ++ (ended.0) ∷ [] in
    let line = line_read rs' (x.1) (print_below xs) (ground arith) (is_next-print_below xs) in
    let moved = line.3 (ended.1) (ended.2) in
    let rest = below_read rs' (line.0) (line.1) xs (moved.0) (moved.1) (ground arith) in
    let same = ap parsed (
      rw
        (
          fields_snoc rs (ended.0),
          ended.3,
          line.2,
          append_assoc (map Row.fields rs) ((b ++ f ∷ []) ∷ [])
              (line_fields (x.1) ∷ map (λ x. line_fields (x.1)) xs),
        )
        refl) in
    rw (ended.4, moved.2) (rest ∙ same)

-- Reading gives back what is written: a table of fields whose rows are separated by `\n` or `\r\n`,
-- in which every field is in quotes (its quotes doubled) or, when it has no `|`, `\r` and `\n` and
-- does not begin with a quote, as it is, is parsed without an error into rows with those fields.
pub parse_input_text-print_table :
    (t : Table)
    → table_fits t ≡ true
    → row_fields (parse_input_text (print_table t)) ≡ parsed (table_fields t)
unfolding parse_input_text
parse_input_text-print_table t h =
    let line =
      line_read [] t.top (print_below t.below) (ground arith) (is_next-print_below t.below) in
    let moved = line.3 0 start.place in
    let rest = below_read [] (line.0) (line.1) t.below (moved.0) (moved.1) (ground arith) in
    rw (moved.2, rest, line.2) refl
