-- ===== src/Core/Network/Mac.antt =====
-- platform/controller-core/src/networkConfig.js: an EUI-64 suffix and the MAC address it stands for.
use mathlib.Core.Path.{subst}
use web_action_recorder_exte.Common.{
  ℕ, true, ◌+◌, ◌*◌, ◌/◌, ◌%◌, ◌<◌, List, [], ◌∷◌, map, All, ◌≡◌, ap, sym, ◌∙◌, arith, Bool-cases,
  inl, inr,
}
use web_action_recorder_exte.Core.Errors.{ok, Result-cases}
use web_action_recorder_exte.Core.Network.{
  Units, colon, split, parse_group, print_groups, normalize_ipv6_suffix, is_eui64, check_eui64,
  normalize_ipv6_eui64_suffix, flip_local, mac_text, mac_address_from_ipv6_eui64_suffix,
  suffix_of_bytes, ipv6_eui64_suffix_from_mac_address,
}
use web_action_recorder_exte.Core.Network.Laws.{Are16, parse-to_hex}
use web_action_recorder_exte.Core.Network.Suffix.{
  NormalSuffix, NormalSuffix-normalize, four, split-print, flip_local-twice, mac_read,
}

abbrev bytes_of : ℕ → ℕ → ℕ → ℕ → List ℕ
bytes_of a b c d = flip_local (a / 256) ∷ a % 256 ∷ b / 256 ∷ c % 256 ∷ d / 256 ∷ d % 256 ∷ []

bytes_of-lt : (a b c d : ℕ) → Are16 (four a b c d) → All (λ x. x < 256) (bytes_of a b c d)
bytes_of-lt a b c d h = (
  (flip_local-twice (a / 256) (omega (arith, h.0))).0,
  (
    omega arith,
    (omega (arith, h.1.0), (omega arith, (omega (arith, h.1.1.1.0), (omega arith, tt)))),
  ),
)

joined_again :
    (a b c d : ℕ)
    → Are16 (four a b c d)
    → is_eui64 (four a b c d) ≡ true
    → suffix_of_bytes (bytes_of a b c d) ≡ print_groups (four a b c d)
joined_again a b c d h e =
    let form : (b % 256 ≡ 255) × (c / 256 ≡ 254) = ground arith in
    let first : flip_local (flip_local (a / 256)) * 256 + a % 256 ≡ a =
      omega (arith, (flip_local-twice (a / 256) (omega (arith, h.0))).1) in
    let second : b / 256 * 256 + 255 ≡ b = omega (arith, form.0) in
    let third : 254 * 256 + c % 256 ≡ c = omega (arith, form.1) in
    let last : d / 256 * 256 + d % 256 ≡ d = omega arith in
    λ i. print_groups (first i ∷ second i ∷ third i ∷ last i ∷ [])

-- What a suffix of the right form gives, there and back.
abbrev pub BothWays : Units → Units → Type 0
BothWays value s =
    (mac : Units) × (mac_address_from_ipv6_eui64_suffix value ≡ ok mac)
    × (ipv6_eui64_suffix_from_mac_address mac ≡ ok s)

check_eui64-eq-ok :
    (t s : Units)
    → check_eui64 t ≡ ok s
    → (is_eui64 (map parse_group (split colon t)) ≡ true) × (t ≡ s)
check_eui64-eq-ok t s h = elim (Bool-cases (is_eui64 (map parse_group (split colon t)))) [
  | inl e ↦ (e, ground arith)
  | inr e ↦ absurd (ground arith)
]

both_ways :
    (value s : Units) (gs : List ℕ)
    → normalize_ipv6_suffix value ≡ ok s
    → NormalSuffix s gs
    → is_eui64 (map parse_group (split colon s)) ≡ true
    → BothWays value s
unfolding mac_address_from_ipv6_eui64_suffix normalize_ipv6_eui64_suffix
both_ways value s [] v n e = absurd (ground (arith, n.0))
both_ways value s (a ∷ []) v n e = absurd (ground (arith, n.0))
both_ways value s (a ∷ b ∷ []) v n e = absurd (ground (arith, n.0))
both_ways value s (a ∷ b ∷ c ∷ []) v n e = absurd (ground (arith, n.0))
both_ways value s (a ∷ b ∷ c ∷ d ∷ f ∷ gs) v n e = absurd (omega (arith, n.0))
both_ways value s (a ∷ b ∷ c ∷ d ∷ []) v n e =
    let groups : map parse_group (split colon s) ≡ four a b c d =
      rw (n.3, split-print a b c d (n.1)) (parse-to_hex (four a b c d) (n.1)) in
    let form : is_eui64 (four a b c d) ≡ true = subst (λ x. is_eui64 x ≡ true) groups e in
    (
      mac_text (four a b c d),
      rw (v, e) (ap (λ x. ok (mac_text x)) groups),
      mac_read (flip_local (a / 256)) (a % 256) (b / 256) (c % 256) (d / 256) (d % 256)
            (bytes_of-lt a b c d (n.1))
          ∙ ap ok (joined_again a b c d (n.1) form ∙ sym (n.3)),
    )

-- For every value that is accepted as an EUI-64 suffix there is a MAC address, and from its text
-- `ipv6Eui64SuffixFromMacAddress` gives the suffix back in its normal form.
pub mac_address-eui64_suffix :
    (value s : Units) → normalize_ipv6_eui64_suffix value ≡ ok s → BothWays value s
unfolding normalize_ipv6_eui64_suffix
mac_address-eui64_suffix value s h = elim (Result-cases (normalize_ipv6_suffix value)) [
  | inl (t, e) ↦
      let checked = check_eui64-eq-ok t s (rw e at h) in
      let same : normalize_ipv6_suffix value ≡ ok s = e ∙ ap ok (checked.1) in
      let (gs, n) = NormalSuffix-normalize value s same in
      both_ways value s gs same n
        (subst (λ x. is_eui64 (map parse_group (split colon x)) ≡ true) (checked.1) (checked.0))
  | inr (x, e) ↦ absurd (cc)
]
