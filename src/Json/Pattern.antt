-- ===== src/Json/Pattern.antt =====
-- The case-insensitive searches for sensitive keys: `/a|b|c/i.test(key)`. A pattern is an
-- alternation of words; a word is made of characters, and of optional characters (`.?`, `[_-]?`).
-- Without the `u` flag, ASCII letters are the only characters that `i` makes equal to ASCII ones.
use Prim.Native.Char.{code}
use web_action_recorder_exte.Common.{
  ℕ, String, Bool, true, false, not, ◌&&◌, ◌||◌, ◌==◌, leb, ◌+◌, List, [], ◌∷◌, map, any,
  if◌then◌else◌, elem,
}

abbrev pub codes : String → List ℕ
codes String.[] = []
codes (String.◌∷◌ c s) = code c ∷ codes s

abbrev pub to_lower : ℕ → ℕ
to_lower c = if leb b'A' c && leb c b'Z' then c + 32 else c

pub data Item : Type 0 where
  char : ℕ → Item
  -- `.?`: any character but a line terminator, or none
  any_opt : Item
  -- `[…]?`: one of these, or none
  one_of_opt : List ℕ → Item

abbrev is_line_end : ℕ → Bool
is_line_end c = c == 10 || c == 13 || c == 0x2028 || c == 0x2029

-- The word at the front of the (lower-case) text.
unfoldable pub match_here : List Item → List ℕ → Bool
match_here [] text = true
match_here (char c ∷ w) [] = false
match_here (char c ∷ w) (d ∷ text) = c == d && match_here w text
match_here (any_opt ∷ w) [] = match_here w []
match_here (any_opt ∷ w) (d ∷ text) =
    (not (is_line_end d) && match_here w text) || match_here w (d ∷ text)
match_here (one_of_opt cs ∷ w) [] = match_here w []
match_here (one_of_opt cs ∷ w) (d ∷ text) =
    (elem cs d && match_here w text) || match_here w (d ∷ text)

unfoldable pub match_anywhere : List Item → List ℕ → Bool
unfolding match_here
match_anywhere w [] = match_here w []
match_anywhere w (c ∷ text) = match_here w (c ∷ text) || match_anywhere w text

abbrev pub word : String → List Item
word s = map char (codes s)

unfoldable pub test_words : List (List Item) → String → Bool
unfolding match_anywhere
test_words words key = any (λ w. match_anywhere w (map to_lower (codes key))) words
