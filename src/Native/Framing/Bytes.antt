-- ===== src/Native/Framing/Bytes.antt =====
-- native-host/framing.js: lists of bytes, and the frames of payloads.
use web_action_recorder_exte.Common.{
  ℕ, zero, suc, ◌+◌, ◌<◌, ◌≤◌, List, [], ◌∷◌, ◌++◌, length, take, drop, All, ◌≡◌, refl, arith, ap,
  sym, ◌∙◌,
}
use web_action_recorder_exte.Native.Framing.{write_uint32_le, read_uint32_le}

abbrev pub frame : List ℕ → List ℕ
frame p = write_uint32_le (length p) ++ p

abbrev pub frames : List (List ℕ) → List ℕ
frames [] = []
frames (p ∷ ps) = frame p ++ frames ps

abbrev pub joined : List (List ℕ) → List ℕ
joined [] = []
joined (c ∷ cs) = c ++ joined cs

pub All-behind : (P : List ℕ → Type 0) (xs ys : List (List ℕ)) → All P (xs ++ ys) → All P ys
All-behind P [] ys h = h
All-behind P (x ∷ xs) ys h = All-behind P xs ys (h.1)

-- A payload that can be sent.
abbrev pub Sendable : ℕ → List ℕ → Type 0
Sendable max_bytes p = (0 < length p) × (length p ≤ max_bytes)

pub read-write_uint32_le :
    (n : ℕ) (rest : List ℕ) → n < 4294967296 → read_uint32_le (write_uint32_le n ++ rest) ≡ n
read-write_uint32_le n rest h = omega arith

pub append_split :
    (xs r ys zs : List ℕ)
    → xs ++ r ≡ ys ++ zs
    → length ys ≤ length xs
    → (xs ≡ ys ++ drop (length ys) xs) × (drop (length ys) xs ++ r ≡ zs)
append_split xs r [] zs e h = (refl, e)
append_split [] r (y ∷ ys) zs e h = absurd (omega arith)
append_split (x ∷ xs) r (y ∷ ys) zs e h =
    let heads : x ≡ y = ground arith in
    let tails : xs ++ r ≡ ys ++ zs = ground arith in
    let rest = append_split xs r ys zs tails (omega arith) in
    (rw heads (ap (λ l. y ∷ l) (rest.0)), rest.1)

drop-nil : (n : ℕ) → drop {A = ℕ} n [] ≡ []
drop-nil zero = refl
drop-nil (suc n) = refl

pub take-append : (xs ys : List ℕ) → take (length xs) (xs ++ ys) ≡ xs
take-append [] ys = refl
take-append (x ∷ xs) ys = ap (λ l. x ∷ l) (take-append xs ys)

pub drop-drop : (m n : ℕ) (xs : List ℕ) → drop n (drop m xs) ≡ drop (m + n) xs
drop-drop zero n xs = let same : n ≡ zero + n = omega arith in ap (λ k. drop k xs) same
drop-drop (suc m) n [] = drop-nil n ∙ sym (drop-nil (suc m + n))
drop-drop (suc m) n (x ∷ xs) =
    let same : suc (m + n) ≡ suc m + n = omega arith in
    drop-drop m n xs ∙ ap (λ k. drop k (x ∷ xs)) same
