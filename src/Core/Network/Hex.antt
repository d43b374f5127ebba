-- ===== src/Core/Network/Hex.antt =====
-- platform/controller-core/src/networkConfig.js: hexadecimal groups and texts of groups.
use web_action_recorder_exte.Common.{
  ℕ, true, ltb, ◌+◌, ◌*◌, ◌/◌, ◌%◌, ◌<◌, [], ◌∷◌, all, ◌≡◌, refl, ◌∙◌, arith, Bool-cases, inl, inr,
}
use web_action_recorder_exte.Core.Network.{
  Units, hex_value, is_hex, hex_digit, is_group, parse_group, to_hex, to_hex2,
}

hex_digit-is_hex : (n : ℕ) → n < 16 → is_hex (hex_digit n) ≡ true
hex_digit-is_hex n h = ground arith

hex_value-hex_digit : (n : ℕ) → n < 16 → hex_value (hex_digit n) ≡ n
hex_value-hex_digit n h = ground arith

-- The digits of a group, from the first that counts.
module _ (P : Units → Type 0) (n : ℕ) where
  to_hex-cases :
      n < 65536
      → (n < 16 → P (hex_digit n ∷ []))
      → (n < 256 → P (hex_digit (n / 16) ∷ hex_digit (n % 16) ∷ []))
      → (n < 4096 → P (hex_digit (n / 256) ∷ hex_digit (n / 16 % 16) ∷ hex_digit (n % 16) ∷ []))
      → P (
          hex_digit (n / 4096)
          ∷ hex_digit (n / 256 % 16)
          ∷ hex_digit (n / 16 % 16)
          ∷ hex_digit (n % 16)
          ∷ [])
      → P (to_hex n)
  unfolding to_hex
  to_hex-cases h one two three four = elim (Bool-cases (ltb n 16)) [
    | inl e ↦ rw e (one (ground arith))
    | inr e ↦ elim (Bool-cases (ltb n 256)) [
      | inl e' ↦ rw (e, e') (two (ground arith))
      | inr e' ↦ elim (Bool-cases (ltb n 4096)) [
        | inl e'' ↦ rw (e, e', e'') (three (ground arith))
        | inr e'' ↦ rw (e, e', e'') four
      ]
    ]
  ]

digits_value :
    (a b c d : ℕ)
    → a < 16
    → b < 16
    → c < 16
    → d < 16
    → parse_group (hex_digit a ∷ hex_digit b ∷ hex_digit c ∷ hex_digit d ∷ [])
      ≡ a * 4096 + b * 256 + c * 16 + d
unfolding parse_group
digits_value a b c d ha hb hc hd =
    rw
      (
        hex_value-hex_digit a ha,
        hex_value-hex_digit b hb,
        hex_value-hex_digit c hc,
        hex_value-hex_digit d hd,
      )
      (omega arith)

pub parse_group-to_hex : (n : ℕ) → n < 65536 → parse_group (to_hex n) ≡ n
unfolding parse_group
parse_group-to_hex n h =
    to_hex-cases (λ t. parse_group t ≡ n) n h (λ l. rw (hex_value-hex_digit n l) (omega arith))
      (λ l.
        rw (hex_value-hex_digit (n / 16) (omega arith), hex_value-hex_digit (n % 16) (omega arith))
          (omega arith))
      (λ l.
        rw
          (
            hex_value-hex_digit (n / 256) (omega arith),
            hex_value-hex_digit (n / 16 % 16) (omega arith),
            hex_value-hex_digit (n % 16) (omega arith),
          )
          (omega arith))
      (digits_value (n / 4096) (n / 256 % 16) (n / 16 % 16) (n % 16) (omega arith) (omega arith)
          (omega arith) (omega arith)
        ∙ omega arith)

pub is_group-to_hex : (n : ℕ) → n < 65536 → is_group (to_hex n) ≡ true
is_group-to_hex n h =
    to_hex-cases (λ t. is_group t ≡ true) n h (λ l. rw (hex_digit-is_hex n l) refl)
      (λ l.
        rw (hex_digit-is_hex (n / 16) (omega arith), hex_digit-is_hex (n % 16) (omega arith)) refl)
      (λ l.
        rw
          (
            hex_digit-is_hex (n / 256) (omega arith),
            hex_digit-is_hex (n / 16 % 16) (omega arith),
            hex_digit-is_hex (n % 16) (omega arith),
          )
          refl)
      (rw
        (
          hex_digit-is_hex (n / 4096) (omega arith),
          hex_digit-is_hex (n / 256 % 16) (omega arith),
          hex_digit-is_hex (n / 16 % 16) (omega arith),
          hex_digit-is_hex (n % 16) (omega arith),
        )
        refl)

pub parse_group-to_hex2 : (n : ℕ) → n < 256 → parse_group (to_hex2 n) ≡ n
unfolding parse_group
parse_group-to_hex2 n h =
    rw (hex_value-hex_digit (n / 16) (omega arith), hex_value-hex_digit (n % 16) (omega arith))
      (omega arith)

pub is_hex-to_hex2 : (n : ℕ) → n < 256 → all is_hex (to_hex2 n) ≡ true
is_hex-to_hex2 n h =
    rw (hex_digit-is_hex (n / 16) (omega arith), hex_digit-is_hex (n % 16) (omega arith)) refl
