-- ===== src/Common/Select.antt =====
-- `find`, `filter` and the in-place change of the object that `find` returns.
use Prim.Native.Nat.{ℕ, zero, suc, ◌-◌, ◌≤◌}
use mathlib.Core.Path.{◌≡◌, refl, ap}
use mathlib.Core.Bool.{Bool, true, false}
use mathlib.Core.List.{List, [], ◌∷◌, ◌++◌}
use mathlib.Core.Logic.{inl, inr, ◌⊎◌}
use mathlib.Core.Option.{Option, none, some}
use native.Mathlib.Omega.{arith}
use web_action_recorder_exte.Common.Tests.{if◌then◌else◌, Bool-cases, if-both}
use web_action_recorder_exte.Common.Lists.{
  length, All, any, drop, push_bounded, length-append, All-append, All-drop,
}

module _ {ℓ} {A : Type ℓ} where
  abbrev pub find_first : (A → Bool) → List A → Option A
  find_first p [] = none
  find_first p (x ∷ xs) = if p x then some x else find_first p xs

  -- The object that `find` returns is changed where it stands.
  abbrev pub update_first : (A → Bool) → (A → A) → List A → List A
  update_first p f [] = []
  update_first p f (x ∷ xs) = if p x then f x ∷ xs else x ∷ update_first p f xs

  abbrev pub keep_if : (A → Bool) → List A → List A
  keep_if p [] = []
  keep_if p (x ∷ xs) = if p x then x ∷ keep_if p xs else keep_if p xs

module _ {ℓ} {A : Type ℓ} (p : A → Bool) where
  pub find_first-holds : (xs : List A) {x : A} → find_first p xs ≡ some x → p x ≡ true
  find_first-holds [] h = cc
  find_first-holds (x ∷ xs) h = elim (Bool-cases (p x)) [
    | inl e ↦ ground arith
    | inr e ↦ find_first-holds xs (rw e at h)
  ]

  pub find_first-All {κ} :
      (P : A → Type κ) (xs : List A) {x : A} → find_first p xs ≡ some x → All P xs → P x
  find_first-All P [] h a = absurd (cc)
  find_first-All P (x ∷ xs) h a = elim (Bool-cases (p x)) [
    | inl e ↦ ground arith
    | inr e ↦ find_first-All P xs (rw e at h) a.1
  ]

  pub find_first-none : (xs : List A) → find_first p xs ≡ none → All (λ x. p x ≡ false) xs
  find_first-none [] h = tt
  find_first-none (x ∷ xs) h = elim (Bool-cases (p x)) [
    | inl e ↦ absurd (ground arith)
    | inr e ↦ (e, find_first-none xs (rw e at h))
  ]

  -- The only match is the one that is found.
  pub find_first-only :
      (x : A) (xs : List A)
      → All (λ y. (y ≡ x) ⊎ (p y ≡ false)) xs
      → any p xs ≡ true
      → find_first p xs ≡ some x
  find_first-only x [] h k = absurd (ground arith)
  find_first-only x (y ∷ ys) h k = elim (Bool-cases (p y)) [
    | inl e ↦ elim (h.0) [ inl same ↦ rw e (ap some same) | inr off ↦ absurd (ground arith) ]
    | inr e ↦ rw e (find_first-only x ys (h.1) (rw e at k))
  ]

  pub length-update_first : (f : A → A) (xs : List A) → length (update_first p f xs) ≡ length xs
  length-update_first f [] = refl
  length-update_first f (x ∷ xs) = ground (arith, length-update_first f xs)

  -- The first match, changed, is found again by any test that the change keeps.
  pub find_first-update_first :
      (f : A → A) (xs : List A) {x : A}
      → find_first p xs ≡ some x
      → p (f x) ≡ true
      → find_first p (update_first p f xs) ≡ some (f x)
  find_first-update_first f [] h k = cc
  find_first-update_first f (x ∷ xs) h k = elim (Bool-cases (p x)) [
    | inl e ↦ rw e ground arith
    | inr e ↦ rw (e, e) (find_first-update_first f xs (rw e at h) k)
  ]

  pub update_first-All {κ} :
      (P : A → Type κ) (f : A → A) (xs : List A)
      → ((a : A) → p a ≡ true → P a → P (f a))
      → All P xs
      → All P (update_first p f xs)
  update_first-All P f [] g a = tt
  update_first-All P f (x ∷ xs) g a = elim (Bool-cases (p x)) [
    | inl e ↦ rw e (g x e a.0, a.1)
    | inr e ↦ rw e (a.0, update_first-All P f xs g a.1)
  ]

  pub keep_if-All {κ} : (P : A → Type κ) (xs : List A) → All P xs → All P (keep_if p xs)
  keep_if-All P [] a = tt
  keep_if-All P (x ∷ xs) a = elim (Bool-cases (p x)) [
    | inl e ↦ rw e (a.0, keep_if-All P xs a.1)
    | inr e ↦ rw e (keep_if-All P xs a.1)
  ]

  pub keep_if-holds : (xs : List A) → All (λ a. p a ≡ true) (keep_if p xs)
  keep_if-holds [] = tt
  keep_if-holds (x ∷ xs) = elim (Bool-cases (p x)) [
    | inl e ↦ rw e (e, keep_if-holds xs)
    | inr e ↦ rw e (keep_if-holds xs)
  ]

  pub length-keep_if : (xs : List A) → length (keep_if p xs) ≤ length xs
  length-keep_if [] = omega arith
  length-keep_if (x ∷ xs) = ground (arith, length-keep_if xs)

module _ {ℓ} {A : Type ℓ} (p : A → Bool) where
  find_first-pushed :
      (n : ℕ) (xs : List A) (a : A)
      → n ≤ length xs
      → find_first p xs ≡ none
      → p a ≡ true
      → find_first p (drop n (xs ++ a ∷ [])) ≡ some a
  find_first-pushed zero [] a b h k = rw k
  find_first-pushed (suc n) [] a b h k = absurd (omega arith)
  find_first-pushed zero (x ∷ xs) a b h k =
      ground (arith, find_first-pushed zero xs a (omega arith))
  find_first-pushed (suc n) (x ∷ xs) a b h k = ground (arith, find_first-pushed n xs a)

  -- What a bounded log did not hold is found in it once pushed, if the log holds anything.
  pub find_first-push_bounded :
      (n : ℕ) (xs : List A) (a : A)
      → 1 ≤ n
      → find_first p xs ≡ none
      → p a ≡ true
      → find_first p (push_bounded n xs a) ≡ some a
  find_first-push_bounded n xs a b h k = ground (
    arith,
    find_first-pushed zero xs a,
    find_first-pushed (length (xs ++ a ∷ []) - n) xs a,
    length-append xs (a ∷ []),
  )

pub All-push_bounded {ℓ κ} :
    {A : Type ℓ} (P : A → Type κ) (n : ℕ) (xs : List A) (a : A)
    → All P xs
    → P a
    → All P (push_bounded n xs a)
All-push_bounded P n xs a h k =
    let both = All-append P xs (a ∷ []) h (k, tt) in
    if-both (All P) _ (All-drop P (length (xs ++ a ∷ []) - n) (xs ++ a ∷ []) both) both
