-- ===== src/Core/Pairing/Digest.antt =====
-- platform/controller-core/src/pairingService.js: `timingSafeDigestEqual` and `isCredential`, the
-- tests of secrets. `Buffer.from(text, 'hex')` reads two digits at a time and drops a last odd one;
-- `crypto.timingSafeEqual` compares the bytes.
use web_action_recorder_exte.Common.{
  ◌≡◌, ◌≤◌, refl, arith, ℕ, ◌+◌, ◌-◌, ◌*◌, String, Bool, true, false, not, ◌&&◌, ◌||◌, leb, ◌==◌,
  List, [], ◌∷◌, length, all, any, is_empty, if◌then◌else◌,
}
use web_action_recorder_exte.Json.Pattern.{codes, to_lower}

abbrev is_digit : ℕ → Bool
is_digit c = leb b'0' c && leb c b'9'

-- `/^[a-f0-9]+$/i`, one character
abbrev is_hex : ℕ → Bool
is_hex c = is_digit c || (leb b'a' (to_lower c) && leb (to_lower c) b'f')

abbrev hex_value : ℕ → ℕ
hex_value c = if is_digit c then c - b'0' else to_lower c - b'a' + 10

abbrev hex_bytes : List ℕ → List ℕ
hex_bytes [] = []
hex_bytes (c ∷ []) = []
hex_bytes (c ∷ d ∷ rest) = (hex_value c * 16 + hex_value d) ∷ hex_bytes rest

abbrev bytes_eq : List ℕ → List ℕ → Bool
bytes_eq [] [] = true
bytes_eq (a ∷ rest) (b ∷ bs) = a == b && bytes_eq rest bs
bytes_eq [] (b ∷ bs) = false
bytes_eq (a ∷ rest) [] = false

abbrev is_hex_text : List ℕ → Bool
is_hex_text text = not (is_empty text) && all is_hex text

-- `timingSafeDigestEqual`, on two texts
unfoldable pub timing_safe_digest_equal : String → String → Bool
timing_safe_digest_equal stored_digest candidate_digest =
    let stored = hex_bytes (codes stored_digest) in
    let candidate = hex_bytes (codes candidate_digest) in
    is_hex_text (codes stored_digest)
    && is_hex_text (codes candidate_digest)
    && length stored == length candidate
    && not (is_empty stored)
    && bytes_eq stored candidate

-- A JavaScript string is measured in UTF-16 units.
abbrev utf16_length : List ℕ → ℕ
utf16_length [] = 0
utf16_length (c ∷ rest) = (if leb 0x10000 c then 2 else 1) + utf16_length rest

-- `isCredential`, on a text
unfoldable pub is_credential : String → Bool
is_credential value =
    leb 24 (utf16_length (codes value))
    && leb (utf16_length (codes value)) 512
    && not (any (λ c. c == 10 || c == 13) (codes value))

-- What `createHash('sha256')…digest('hex')` returns: 64 hexadecimal digits.
abbrev pub IsDigest : String → Type 0
IsDigest d = (all is_hex (codes d) ≡ true) × (length (codes d) ≡ 64)

bytes_eq_refl : (xs : List ℕ) → bytes_eq xs xs ≡ true
bytes_eq_refl [] = refl
bytes_eq_refl (x ∷ xs) = ground (arith, bytes_eq_refl xs)

not_empty :
    (xs : List ℕ) → 2 ≤ length xs → (is_empty xs ≡ false) × (is_empty (hex_bytes xs) ≡ false)
not_empty [] h = absurd (omega arith)
not_empty (x ∷ []) h = absurd (omega arith)
not_empty (x ∷ y ∷ xs) h = (refl, refl)

-- A digest is equal to itself.
pub timing_safe_digest_equal_refl : (d : String) → IsDigest d → timing_safe_digest_equal d d ≡ true
unfolding timing_safe_digest_equal
timing_safe_digest_equal_refl d h =
    let (p, q) = not_empty (codes d) (omega (arith, h.1)) in
    rw (p, q, h.0, bytes_eq_refl (hex_bytes (codes d))) ground arith
