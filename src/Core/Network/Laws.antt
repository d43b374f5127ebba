-- ===== src/Core/Network/Laws.antt =====
-- platform/controller-core/src/networkConfig.js: suffixes in their normal form, and MAC addresses.
use web_action_recorder_exte.Common.{
  ℕ, zero, suc, Bool, true, false, not, ◌&&◌, ◌||◌, ◌==◌, ltb, ◌+◌, ◌-◌, ◌<◌, ◌≤◌, List, [], ◌∷◌,
  ◌++◌, map, length, length-append, length-drop, length-map, take, replicate, all, is_empty, All,
  All-append, All-drop, ◌≡◌, refl, ap, arith, Bool-cases, if-both, inl, inr,
}
use web_action_recorder_exte.Core.Errors.{Result, ok, err, ◌>>=◌}
use web_action_recorder_exte.Core.Network.{
  Units, colon, normal_text, split, prepend, split_double, hex_value, is_hex, is_group, parse_group,
  to_hex, split_groups, fill, parse_halves, parse_ipv6_address, all_zero, last_64, suffix_groups,
  first_part,
}
use web_action_recorder_exte.Core.Network.Hex.{parse_group-to_hex, is_group-to_hex}
use web_action_recorder_exte.Core.Network.Text.{are_hex}

-- Groups of 16 bits.
abbrev pub Are16 : List ℕ → Type 0
Are16 groups = All (λ g. g < 65536) groups

pub are_hex-to_hex : (gs : List ℕ) → Are16 gs → are_hex (map to_hex gs) ≡ true
are_hex-to_hex [] h = refl
are_hex-to_hex (g ∷ gs) h = ground (arith, is_group-to_hex g (h.0), are_hex-to_hex gs (h.1))

pub groups-to_hex : (gs : List ℕ) → Are16 gs → all is_group (map to_hex gs) ≡ true
groups-to_hex [] h = refl
groups-to_hex (g ∷ gs) h = rw (is_group-to_hex g (h.0)) (groups-to_hex gs (h.1))

pub parse-to_hex : (gs : List ℕ) → Are16 gs → map parse_group (map to_hex gs) ≡ gs
parse-to_hex [] h = refl
parse-to_hex (g ∷ gs) h = λ i. parse_group-to_hex g (h.0) i ∷ parse-to_hex gs (h.1) i

-- What a digit and four digits come to at most.
hex_value-lt : (c : ℕ) → is_hex c ≡ true → hex_value c < 16
hex_value-lt c h = ground arith

parse_group-lt : (part : Units) → is_group part ≡ true → parse_group part < 65536
unfolding parse_group
parse_group-lt [] h = absurd (ground arith)
parse_group-lt (a ∷ []) h = omega (arith, hex_value-lt a (ground arith))
parse_group-lt (a ∷ b ∷ []) h =
    omega (arith, hex_value-lt a (ground arith), hex_value-lt b (ground arith))
parse_group-lt (a ∷ b ∷ c ∷ []) h = omega (
  arith,
  hex_value-lt a (ground arith),
  hex_value-lt b (ground arith),
  hex_value-lt c (ground arith),
)
parse_group-lt (a ∷ b ∷ c ∷ d ∷ []) h = omega (
  arith,
  hex_value-lt a (ground arith),
  hex_value-lt b (ground arith),
  hex_value-lt c (ground arith),
  hex_value-lt d (ground arith),
)
parse_group-lt (a ∷ b ∷ c ∷ d ∷ e ∷ s) h = absurd (ground arith)

Are16-parse : (parts : List Units) → all is_group parts ≡ true → Are16 (map parse_group parts)
Are16-parse [] h = tt
Are16-parse (part ∷ parts) h =
    (parse_group-lt part (ground arith), Are16-parse parts (ground arith))

Are16-zero : (n : ℕ) → Are16 (replicate n 0)
Are16-zero zero = tt
Are16-zero (suc n) = (omega arith, Are16-zero n)

length-replicate : (n : ℕ) → length {A = ℕ} (replicate n 0) ≡ n
length-replicate zero = refl
length-replicate (suc n) = ap suc (length-replicate n)

-- The groups of an address: eight, of 16 bits.
abbrev pub IsAddress : ℕ → Result (List ℕ) → Type 0
IsAddress n (ok groups) = (length groups ≡ n) × Are16 groups
IsAddress n (err e) = Unit

abbrev AreGroups : Result (List ℕ) → Type 0
AreGroups (ok groups) = Are16 groups
AreGroups (err e) = Unit

AreGroups-split : (text : Units) → AreGroups (split_groups text)
unfolding split_groups
AreGroups-split [] = tt
AreGroups-split (c ∷ s) = elim (Bool-cases (all is_group (split colon (c ∷ s)))) [
  | inl e ↦ rw e (Are16-parse (split colon (c ∷ s)) e)
  | inr e ↦ rw e tt
]

IsAddress-fill :
    (short : Bool) (front back : List ℕ)
    → Are16 front
    → Are16 back
    → IsAddress 8 (fill short front back)
IsAddress-fill short front back h k =
    let omitted = 8 - (length front + length back) in
    elim (Bool-cases (ltb 8 (length front + length back))) [
      | inl e ↦ rw e tt
      | inr e ↦
          let whole : IsAddress 8 (ok (front ++ replicate omitted 0 ++ back)) = (
            ground (
              arith,
              length-append (front ++ replicate omitted 0) back,
              length-append front (replicate omitted 0),
              length-replicate omitted,
            ),
            All-append _ (front ++ replicate omitted 0) back
                (All-append _ front (replicate omitted 0) h (Are16-zero omitted)) k,
          ) in
          rw e (
            if-both (IsAddress 8) (not short && not (omitted == 0)) tt
              (if-both (IsAddress 8) (short && omitted == 0) tt whole))
    ]

bind-IsAddress :
    (n : ℕ) (r : Result (List ℕ)) (f : List ℕ → Result (List ℕ))
    → AreGroups r
    → ((groups : List ℕ) → Are16 groups → IsAddress n (f groups))
    → IsAddress n (r >>= f)
bind-IsAddress n (ok groups) f h k = k groups h
bind-IsAddress n (err e) f h k = tt

IsAddress-halves : (parts : List Units) → IsAddress 8 (parse_halves parts)
IsAddress-halves [] = tt
IsAddress-halves (whole ∷ []) =
    bind-IsAddress 8 (split_groups whole) (λ front. fill false front []) (AreGroups-split whole)
      (λ front h. IsAddress-fill false front [] h tt)
IsAddress-halves (front ∷ back ∷ []) =
    bind-IsAddress 8 (split_groups front) _ (AreGroups-split front) (λ x h.
      bind-IsAddress 8 (split_groups back) (λ y. fill true x y) (AreGroups-split back)
        (λ y k. IsAddress-fill true x y h k))
IsAddress-halves (a ∷ b ∷ c ∷ parts) = tt

-- `parseIpv6Address` returns eight groups of 16 bits, if it returns.
IsAddress-parse : (value : Units) → IsAddress 8 (parse_ipv6_address value)
unfolding parse_ipv6_address
IsAddress-parse value =
    let text = first_part (split 37 (normal_text value)) in
    elim (Bool-cases (is_empty text || not (all (λ c. is_hex c || c == colon) text))) [
      | inl e ↦ rw e tt
      | inr e ↦ rw e (IsAddress-halves (split_double false text))
    ]

IsAddress-last : (r : Result (List ℕ)) → IsAddress 8 r → IsAddress 4 (r >>= last_64)
IsAddress-last (err e) h = tt
IsAddress-last (ok groups) h =
    if-both (IsAddress 4) (all_zero (take 4 groups))
      (ground (arith, h.0, length-drop 4 groups), All-drop _ 4 groups (h.1)) tt

prepend-some : (c : ℕ) (parts : List Units) → 1 ≤ length (prepend c parts)
prepend-some c [] = omega arith
prepend-some c (part ∷ parts) = omega arith

split-some : (sep : ℕ) (s : Units) → 1 ≤ length (split sep s)
unfolding split
split-some sep [] = omega arith
split-some sep (c ∷ s) = elim (Bool-cases (c == sep)) [
  | inl e ↦ rw e (omega arith)
  | inr e ↦ rw e (prepend-some c (split sep s))
]

pub IsAddress-suffix : (text : Units) → IsAddress 4 (suffix_groups text)
IsAddress-suffix text =
    let parts = split colon text in
    elim (Bool-cases (ltb 1 (length (split_double false text)) || ltb 4 (length parts))) [
      | inl e ↦ rw e (IsAddress-last (parse_ipv6_address text) (IsAddress-parse text))
      | inr e ↦ elim (Bool-cases (all is_group parts)) [
        | inl e' ↦
            rw (e, e')
              (
                ground (
                  arith,
                  e,
                  length-append (replicate (4 - length parts) 0) (map parse_group parts),
                  length-replicate (4 - length parts),
                  length-map parse_group parts,
                ),
                All-append _ (replicate (4 - length parts) 0) (map parse_group parts)
                    (Are16-zero (4 - length parts)) (Are16-parse parts e'),
              )
        | inr e' ↦ rw (e, e') tt
      ]
    ]
