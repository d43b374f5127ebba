-- ===== src/Json/Order.antt =====
-- The order of `Array.prototype.sort` on texts: by UTF-16 units. A character of two units sorts
-- among those below U+E000's, by its number; the others sort by theirs.
use Prim.Native.Char.{Char, code}
use text.Mathlib.TextEquality.{Char-path}
use web_action_recorder_exte.Common.{
  ℕ, String, Bool, true, false, ◌&&◌, ◌||◌, ◌==◌, ltb, if◌then◌else◌, ◌≡◌, refl, arith,
}

abbrev unit_class : ℕ → ℕ
unit_class c = if ltb c 0xE000 then 0 else if ltb c 0x10000 then 2 else 1

unfoldable pub char_less : ℕ → ℕ → Bool
char_less c d = ltb (unit_class c) (unit_class d) || (unit_class c == unit_class d && ltb c d)

unfoldable pub text_less : String → String → Bool
text_less String.[] String.[] = false
text_less String.[] (String.◌∷◌ d t) = true
text_less (String.◌∷◌ c s) String.[] = false
text_less (String.◌∷◌ c s) (String.◌∷◌ d t) =
    char_less (code c) (code d) || (code c == code d && text_less s t)

char_less-connected : (c d : ℕ) → char_less c d ≡ false → char_less d c ≡ false → c ≡ d
unfolding char_less
char_less-connected c d h k = ground arith

char_less_trans : (c d e : ℕ) → char_less c d ≡ true → char_less d e ≡ true → char_less c e ≡ true
unfolding char_less
char_less_trans c d e h k = ground arith

char_less-asym : (c d : ℕ) → char_less c d ≡ true → char_less d c ≡ false
unfolding char_less
char_less-asym c d h = ground arith

char_less_irrefl : (c d : ℕ) → c ≡ d → char_less c d ≡ false
unfolding char_less
char_less_irrefl c d h = ground arith

same_tail : (c d : Char) (s t : String) → code c ≡ code d → s ≡ t → String.◌∷◌ c s ≡ String.◌∷◌ d t
same_tail c d s t h k = λ i. String.◌∷◌ (Char-path c d h i) (k i)

pub text_less-connected : (s t : String) → text_less s t ≡ false → text_less t s ≡ false → s ≡ t
unfolding text_less
text_less-connected String.[] String.[] h k = refl
text_less-connected String.[] (String.◌∷◌ d t) h k = absurd (cc)
text_less-connected (String.◌∷◌ c s) String.[] h k = absurd (cc)
text_less-connected (String.◌∷◌ c s) (String.◌∷◌ d t) h k =
    let heads : code c ≡ code d =
      char_less-connected (code c) (code d) (ground arith) (ground arith) in
    same_tail c d s t heads
      (text_less-connected s t (ground (arith, heads)) (ground (arith, heads)))

pub text_less-asym : (s t : String) → text_less s t ≡ true → text_less t s ≡ false
unfolding text_less
text_less-asym String.[] String.[] h = refl
text_less-asym String.[] (String.◌∷◌ d t) h = refl
text_less-asym (String.◌∷◌ c s) String.[] h = absurd (cc)
text_less-asym (String.◌∷◌ c s) (String.◌∷◌ d t) h = ground (
  arith,
  char_less-asym (code c) (code d),
  char_less_irrefl (code d) (code c),
  text_less-asym s t,
)

-- From `s ≤ t` and `t < u`.
pub text_less-le_trans :
    (s t u : String) → text_less t s ≡ false → text_less t u ≡ true → text_less s u ≡ true
unfolding text_less
text_less-le_trans String.[] t String.[] h k = absurd (ground arith)
text_less-le_trans String.[] t (String.◌∷◌ e u) h k = refl
text_less-le_trans (String.◌∷◌ c s) String.[] u h k = absurd (cc)
text_less-le_trans (String.◌∷◌ c s) (String.◌∷◌ d t) String.[] h k = absurd (cc)
text_less-le_trans (String.◌∷◌ c s) (String.◌∷◌ d t) (String.◌∷◌ e u) h k = ground (
  arith,
  text_less-le_trans s t u,
  char_less-connected (code c) (code d),
  char_less_trans (code c) (code d) (code e),
)
