-- ===== src/Core/Network/Suffix.antt =====
-- platform/controller-core/src/networkConfig.js: suffixes in their normal form.
use web_action_recorder_exte.Common.{
  ℕ, true, false, ◌||◌, ◌<◌, List, [], ◌∷◌, ◌++◌, map, length, all, is_empty, All, ◌≡◌, refl, ap,
  arith, Bool-cases, inl, inr,
}
use web_action_recorder_exte.Core.Errors.{Result, ok, err, ◌>>=◌}
use web_action_recorder_exte.Core.Network.{
  Units, colon, normal_text, split, parse_group, to_hex, to_hex2, join, print_groups, all_zero,
  is_gateway, suffix_groups, check_suffix, normalize_ipv6_suffix, flip_local, is_byte,
  suffix_of_bytes, ipv6_eui64_suffix_from_mac_address,
}
use web_action_recorder_exte.Core.Network.Hex.{parse_group-to_hex2, is_hex-to_hex2}
use web_action_recorder_exte.Core.Network.Text.{
  normal_text-plain, are_hex, split-join, length-split_double, join-plain,
}
use web_action_recorder_exte.Core.Network.Laws.{
  Are16, are_hex-to_hex, groups-to_hex, parse-to_hex, IsAddress, IsAddress-suffix,
}

-- The groups that a suffix in its normal form stands for.
abbrev pub NormalSuffix : Units → List ℕ → Type 0
NormalSuffix s gs =
    (length gs ≡ 4) × Are16 gs × ((all_zero gs || is_gateway gs) ≡ false) × (s ≡ print_groups gs)

check_suffix-eq-ok :
    (gs : List ℕ) (s : Units)
    → check_suffix gs ≡ ok s
    → ((all_zero gs || is_gateway gs) ≡ false) × (s ≡ print_groups gs)
check_suffix-eq-ok gs s h = ground arith

NormalSuffix-check :
    (r : Result (List ℕ)) (s : Units)
    → IsAddress 4 r
    → (r >>= check_suffix) ≡ ok s
    → (gs : List ℕ) × NormalSuffix s gs
NormalSuffix-check (err e) s h k = absurd (cc)
NormalSuffix-check (ok gs) s h k =
    let checked = check_suffix-eq-ok gs s k in (gs, (h.0, h.1, checked.0, checked.1))

pub NormalSuffix-normalize :
    (value s : Units) → normalize_ipv6_suffix value ≡ ok s → (gs : List ℕ) × NormalSuffix s gs
unfolding normalize_ipv6_suffix
NormalSuffix-normalize value s h = elim (Bool-cases (is_empty (normal_text value))) [
  | inl e ↦ absurd (ground arith)
  | inr e ↦
      NormalSuffix-check (suffix_groups (normal_text value)) s
        (IsAddress-suffix (normal_text value)) (rw e at h)
]

-- Such a suffix is read back.
abbrev pub four : ℕ → ℕ → ℕ → ℕ → List ℕ
four a b c d = a ∷ b ∷ c ∷ d ∷ []

is_empty-append : (xs ys : Units) → is_empty (xs ++ colon ∷ ys) ≡ false
is_empty-append [] ys = refl
is_empty-append (x ∷ xs) ys = refl

module _ (a b c d : ℕ) (h : Are16 (four a b c d)) where
  hex : are_hex (map to_hex (four a b c d)) ≡ true
  hex = are_hex-to_hex (four a b c d) h

  pub split-print : split colon (print_groups (four a b c d)) ≡ map to_hex (four a b c d)
  split-print = split-join (to_hex a) (to_hex b ∷ to_hex c ∷ to_hex d ∷ []) hex

  normal_text-print : normal_text (print_groups (four a b c d)) ≡ print_groups (four a b c d)
  normal_text-print =
      normal_text-plain (print_groups (four a b c d)) (join-plain (map to_hex (four a b c d)) hex)

  suffix_groups-print : suffix_groups (print_groups (four a b c d)) ≡ ok (four a b c d)
  suffix_groups-print =
      rw
        (
          length-split_double (to_hex a) (to_hex b ∷ to_hex c ∷ to_hex d ∷ []) hex,
          split-print,
          groups-to_hex (four a b c d) h,
        )
        (ap ok (parse-to_hex (four a b c d) h))

  is_empty-print : is_empty (print_groups (four a b c d)) ≡ false
  unfolding join
  is_empty-print = is_empty-append (to_hex a) _

  normalize-print :
      (all_zero (four a b c d) || is_gateway (four a b c d)) ≡ false
      → normalize_ipv6_suffix (print_groups (four a b c d)) ≡ ok (print_groups (four a b c d))
  unfolding normalize_ipv6_suffix
  normalize-print k = rw (normal_text-print, is_empty-print, suffix_groups-print, k) refl

normal_again : (gs : List ℕ) (s : Units) → NormalSuffix s gs → normalize_ipv6_suffix s ≡ ok s
normal_again [] s n = absurd (ground (arith, n.0))
normal_again (a ∷ []) s n = absurd (ground (arith, n.0))
normal_again (a ∷ b ∷ []) s n = absurd (ground (arith, n.0))
normal_again (a ∷ b ∷ c ∷ []) s n = absurd (ground (arith, n.0))
normal_again (a ∷ b ∷ c ∷ d ∷ []) s n = rw (n.3) (normalize-print a b c d (n.1) (n.2))
normal_again (a ∷ b ∷ c ∷ d ∷ e ∷ gs) s n = absurd (omega (arith, n.0))

-- Normalizing a suffix once more changes nothing.
pub normalize_ipv6_suffix_idem :
    (value s : Units) → normalize_ipv6_suffix value ≡ ok s → normalize_ipv6_suffix s ≡ ok s
normalize_ipv6_suffix_idem value s h =
    let (gs, n) = NormalSuffix-normalize value s h in normal_again gs s n

pub flip_local-twice : (b : ℕ) → b < 256 → (flip_local b < 256) × (flip_local (flip_local b) ≡ b)
flip_local-twice b h = (ground arith, ground arith)

are_hex-to_hex2 : (bs : List ℕ) → All (λ b. b < 256) bs → are_hex (map to_hex2 bs) ≡ true
are_hex-to_hex2 [] h = refl
are_hex-to_hex2 (b ∷ bs) h = rw (is_hex-to_hex2 b (h.0)) (are_hex-to_hex2 bs (h.1))

bytes-to_hex2 : (bs : List ℕ) → All (λ b. b < 256) bs → all is_byte (map to_hex2 bs) ≡ true
bytes-to_hex2 [] h = refl
bytes-to_hex2 (b ∷ bs) h = rw (is_hex-to_hex2 b (h.0)) (bytes-to_hex2 bs (h.1))

parse-to_hex2 : (bs : List ℕ) → All (λ b. b < 256) bs → map parse_group (map to_hex2 bs) ≡ bs
parse-to_hex2 [] h = refl
parse-to_hex2 (b ∷ bs) h = λ i. parse_group-to_hex2 b (h.0) i ∷ parse-to_hex2 bs (h.1) i

-- The bytes of a MAC address are read back from its text.
pub mac_read :
    (a b c d e f : ℕ)
    → All (λ b. b < 256) (a ∷ b ∷ c ∷ d ∷ e ∷ f ∷ [])
    → ipv6_eui64_suffix_from_mac_address (join (map to_hex2 (a ∷ b ∷ c ∷ d ∷ e ∷ f ∷ [])))
      ≡ ok (suffix_of_bytes (a ∷ b ∷ c ∷ d ∷ e ∷ f ∷ []))
unfolding ipv6_eui64_suffix_from_mac_address
mac_read a b c d e f h =
    let bytes = a ∷ b ∷ c ∷ d ∷ e ∷ f ∷ [] in
    let hexes = are_hex-to_hex2 bytes h in
    rw
      (
        normal_text-plain (join (map to_hex2 bytes)) (join-plain (map to_hex2 bytes) hexes),
        split-join (to_hex2 a) (map to_hex2 (b ∷ c ∷ d ∷ e ∷ f ∷ [])) hexes,
        bytes-to_hex2 bytes h,
      )
      (ap (λ x. ok (suffix_of_bytes x)) (parse-to_hex2 bytes h))
