-- ===== src/Common/Text.antt =====
-- JavaScript's `length`, `trim` and `slice(0, n)` of texts. A text is made of characters; where
-- `slice` would cut a character of two UTF-16 units in half, it is left out here.
use Prim.Native.Nat.{ℕ, ◌+◌, ◌-◌}
use Prim.Native.Char.{code, Char}
use Prim.Native.String.{String}
use mathlib.Core.Bool.{Bool, true, false, ◌&&◌, ◌||◌}
use mathlib.Core.Path.{◌≡◌, ap}
use native.Mathlib.Omega.{arith}
use text.Mathlib.TextEquality.{eq_iff}
use web_action_recorder_exte.Common.Tests.{if◌then◌else◌, leb, ltb, ◌==◌, str_eq, Bool-cases}
use mathlib.Core.Logic.{inl, inr}

abbrev units : ℕ → ℕ
units c = if leb 0x10000 c then 2 else 1

abbrev pub text_length : String → ℕ
text_length String.[] = 0
text_length (String.◌∷◌ c s) = units (code c) + text_length s

-- White space and line ends.
abbrev pub is_space : ℕ → Bool
is_space c =
    (leb 9 c && leb c 13)
    || c == 32
    || c == 0xA0
    || c == 0x1680
    || (leb 0x2000 c && leb c 0x200A)
    || c == 0x2028
    || c == 0x2029
    || c == 0x202F
    || c == 0x205F
    || c == 0x3000
    || c == 0xFEFF

abbrev trim_start : String → String
trim_start String.[] = String.[]
trim_start (String.◌∷◌ c s) = if is_space (code c) then trim_start s else String.◌∷◌ c s

abbrev trim_end : String → String
trim_end String.[] = String.[]
trim_end (String.◌∷◌ c s) =
    let rest = trim_end s in
    if is_space (code c) && str_eq rest "" then String.[] else String.◌∷◌ c rest

abbrev pub trim : String → String
trim s = trim_end (trim_start s)

abbrev pub slice : ℕ → String → String
slice n String.[] = String.[]
slice n (String.◌∷◌ c s) =
    let rest = slice (n - units (code c)) s in
    if ltb n (units (code c)) then String.[] else String.◌∷◌ c rest

-- `+` on texts.
abbrev pub append_text : String → String → String
append_text String.[] t = t
append_text (String.◌∷◌ c s) t = String.◌∷◌ c (append_text s t)

is_cons : String → Bool
is_cons String.[] = false
is_cons (String.◌∷◌ c s) = true

text-not_empty : (c : Char) (s : String) → str_eq (String.◌∷◌ c s) "" ≡ false
unfolding is_cons
text-not_empty c s = elim (Bool-cases (str_eq (String.◌∷◌ c s) "")) [
  | inr e ↦ e
  | inl e ↦
      let same : String.◌∷◌ c s ≡ "" = ground (arith, e, eq_iff (String.◌∷◌ c s) "") in
      let off : is_cons (String.◌∷◌ c s) ≡ is_cons "" = ap is_cons same in absurd (cc)
]

pub append_text-not_empty :
    (x t : String) → str_eq x "" ≡ false → str_eq (append_text x t) "" ≡ false
append_text-not_empty String.[] t h = absurd (ground arith)
append_text-not_empty (String.◌∷◌ c s) t h = text-not_empty c (append_text s t)
