-- ===== src/Core/Network/Text.antt =====
-- platform/controller-core/src/networkConfig.js: texts of groups with colons between them.
use web_action_recorder_exte.Common.{
  ℕ, Bool, true, false, not, ◌&&◌, ◌||◌, ◌==◌, List, [], ◌∷◌, ◌++◌, map, length, all, is_empty,
  is_space, ◌≡◌, refl, ap, ◌∙◌, arith,
}
use web_action_recorder_exte.Json.Pattern.{to_lower}
use web_action_recorder_exte.Core.Network.{
  Units, colon, trim_front, trim_back, normal_text, prepend, split, starts, split_double, is_hex,
  join,
}

-- A text of hexadecimal digits and colons is what it is in lower case and without white space.
abbrev pub is_plain : ℕ → Bool
is_plain c = is_hex c || c == colon

is_plain-kept : (c : ℕ) → is_plain c ≡ true → (is_space c ≡ false) × (to_lower c ≡ c)
is_plain-kept c h = (ground arith, ground arith)

map_lower-plain : (s : Units) → all is_plain s ≡ true → map to_lower s ≡ s
map_lower-plain [] h = refl
map_lower-plain (c ∷ s) h =
    let first : is_plain c ≡ true = ground arith in
    let rest : all is_plain s ≡ true = ground arith in
    λ i. (is_plain-kept c first).1 i ∷ map_lower-plain s rest i

trim_back-plain : (s : Units) → all is_plain s ≡ true → trim_back s ≡ s
trim_back-plain [] h = refl
trim_back-plain (c ∷ s) h =
    let first : is_plain c ≡ true = ground arith in
    let rest : all is_plain s ≡ true = ground arith in
    rw ((is_plain-kept c first).0) (ap (λ t. c ∷ t) (trim_back-plain s rest))

trim_front-plain : (s : Units) → all is_plain s ≡ true → trim_front s ≡ s
trim_front-plain [] h = refl
trim_front-plain (c ∷ s) h =
    let first : is_plain c ≡ true = ground arith in rw ((is_plain-kept c first).0) refl

pub normal_text-plain : (s : Units) → all is_plain s ≡ true → normal_text s ≡ s
normal_text-plain s h = rw (trim_front-plain s h, trim_back-plain s h) (map_lower-plain s h)

is_hex-other : (c : ℕ) → is_hex c ≡ true → (c == colon) ≡ false
is_hex-other c h = ground arith

split-hex : (part : Units) → all is_hex part ≡ true → split colon part ≡ part ∷ []
unfolding split
split-hex [] h = refl
split-hex (c ∷ part) h =
    let first : is_hex c ≡ true = ground arith in
    let rest : all is_hex part ≡ true = ground arith in
    rw (is_hex-other c first, split-hex part rest) refl

split-append :
    (part s : Units)
    → all is_hex part ≡ true
    → split colon (part ++ colon ∷ s) ≡ part ∷ split colon s
unfolding split
split-append [] s h = refl
split-append (c ∷ part) s h =
    let first : is_hex c ≡ true = ground arith in
    let rest : all is_hex part ≡ true = ground arith in
    rw (is_hex-other c first, split-append part s rest) refl

-- Parts that are hexadecimal and not empty.
abbrev pub are_hex : List Units → Bool
are_hex parts = all (λ part. not (is_empty part) && all is_hex part) parts

pub split-join :
    (part : Units) (parts : List Units)
    → are_hex (part ∷ parts) ≡ true
    → split colon (join (part ∷ parts)) ≡ part ∷ parts
unfolding join
split-join part [] h = split-hex part (ground arith)
split-join part (other ∷ parts) h =
    let own : all is_hex part ≡ true = ground arith in
    split-append part (join (other ∷ parts)) own
    ∙ ap (λ l. part ∷ l) (split-join other parts (ground arith))

starts-hex :
    (part s : Units)
    → (not (is_empty part) && all is_hex part) ≡ true
    → starts colon (part ++ s) ≡ false
starts-hex [] s h = absurd (ground arith)
starts-hex (c ∷ part) s h = is_hex-other c (ground arith)

split_double-hex : (part : Units) → all is_hex part ≡ true → split_double false part ≡ part ∷ []
unfolding split_double
split_double-hex [] h = refl
split_double-hex (c ∷ part) h =
    let first : is_hex c ≡ true = ground arith in
    let rest : all is_hex part ≡ true = ground arith in
    rw (is_hex-other c first, split_double-hex part rest) refl

length-prepend : (c : ℕ) (parts : List Units) → length parts ≡ 1 → length (prepend c parts) ≡ 1
length-prepend c [] h = absurd (omega arith)
length-prepend c (part ∷ parts) h = h

split_double-append :
    (part s : Units)
    → all is_hex part ≡ true
    → starts colon s ≡ false
    → length (split_double false s) ≡ 1
    → length (split_double false (part ++ colon ∷ s)) ≡ 1
unfolding split_double
split_double-append [] s h k l = rw k (length-prepend colon (split_double false s) l)
split_double-append (c ∷ part) s h k l =
    let first : is_hex c ≡ true = ground arith in
    let rest : all is_hex part ≡ true = ground arith in
    rw (is_hex-other c first) (
      length-prepend c (split_double false (part ++ colon ∷ s))
        (split_double-append part s rest k l))

starts-join :
    (part : Units) (parts : List Units)
    → are_hex (part ∷ parts) ≡ true
    → starts colon (join (part ∷ parts)) ≡ false
unfolding join
starts-join (c ∷ part) [] h = is_hex-other c (ground arith)
starts-join (c ∷ part) (other ∷ parts) h = is_hex-other c (ground arith)
starts-join [] parts h = absurd (ground arith)

pub length-split_double :
    (part : Units) (parts : List Units)
    → are_hex (part ∷ parts) ≡ true
    → length (split_double false (join (part ∷ parts))) ≡ 1
unfolding join
length-split_double part [] h = rw (split_double-hex part (ground arith)) refl
length-split_double part (other ∷ parts) h =
    split_double-append part (join (other ∷ parts)) (ground arith)
      (starts-join other parts (ground arith)) (length-split_double other parts (ground arith))

all-append :
    (p : ℕ → Bool) (xs ys : Units) → all p xs ≡ true → all p ys ≡ true → all p (xs ++ ys) ≡ true
all-append p [] ys h k = k
all-append p (x ∷ xs) ys h k = ground (arith, all-append p xs ys (ground arith) k)

all-plain : (part : Units) → all is_hex part ≡ true → all is_plain part ≡ true
all-plain [] h = refl
all-plain (c ∷ part) h = ground (arith, all-plain part (ground arith))

pub join-plain : (parts : List Units) → are_hex parts ≡ true → all is_plain (join parts) ≡ true
unfolding join
join-plain [] h = refl
join-plain (part ∷ []) h = all-plain part (ground arith)
join-plain (part ∷ other ∷ parts) h =
    all-append is_plain part (colon ∷ join (other ∷ parts)) (all-plain part (ground arith))
      (join-plain (other ∷ parts) (ground arith))
