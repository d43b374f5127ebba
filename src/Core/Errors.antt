-- ===== src/Core/Errors.antt =====
-- platform/controller-core/src/errors.js: the error codes and the HTTP status of each, and the
-- shape of a call: it returns or throws, and the state that it leaves is kept in both cases, since
-- the store hands its own object to the mutator. The texts and details of errors are left out.
use web_action_recorder_exte.Common.{
  ℕ, Bool, true, false, if◌then◌else◌, Option, none, some, ◌≡◌, refl, ◌⊎◌, inl, inr, arith,
}

pub data Code : Type 0 where
  device_not_found device_revoked workflow_not_found workflow_hash_mismatch group_not_found : Code
  invalid_target duplicate_job job_terminal job_expired invalid_transition auth_denied : Code
  managed_agent_credential_required store_corrupt capacity_exceeded : Code
  -- an `Error` with no code of its own
  plain_error : Code

pub record Error : Type 0 where
  pub code : Code
  pub status : ℕ

abbrev pub status_for_code : Code → ℕ
status_for_code auth_denied = 401
status_for_code device_not_found = 404
status_for_code workflow_not_found = 404
status_for_code group_not_found = 404
status_for_code device_revoked = 409
status_for_code job_terminal = 409
status_for_code managed_agent_credential_required = 409
status_for_code capacity_exceeded = 413
status_for_code _ = 400

abbrev pub domain_error : Code → Error
domain_error c = record { code = c; status = status_for_code c }

abbrev pub domain_error_with : Code → ℕ → Error
domain_error_with c s = record { code = c; status = s }

pub data Result {ℓ} (A : Type ℓ) : Type ℓ where
  ok : A → Result A
  err : Error → Result A

pub data Outcome (S A : Type 0) : Type 0 where
  returns : A → S → Outcome S A
  throws : Error → S → Outcome S A

abbrev pub state_of : {S A : Type 0} → Outcome S A → S
state_of (returns a s) = s
state_of (throws e s) = s

abbrev pub result_of : {S A : Type 0} → Outcome S A → Result A
result_of (returns a s) = ok a
result_of (throws e s) = err e

infixl 5 ◌>>=◌
abbrev pub ◌>>=◌ : {A B : Type 0} → Result A → (A → Result B) → Result B
ok a >>= f = f a
err e >>= f = err e

-- To split on a computed result and keep the equation.
pub Result-cases {ℓ} :
    {A : Type ℓ} (r : Result A) → ((a : A) × (r ≡ ok a)) ⊎ ((e : Error) × (r ≡ err e))
Result-cases (ok a) = inl (a, refl)
Result-cases (err e) = inr (e, refl)

-- A step that may throw, in a call that then stands at `s`; and what `find` may not return.
abbrev pub or_throw : {S A B : Type 0} → S → Result A → (A → Outcome S B) → Outcome S B
or_throw s (ok a) next = next a
or_throw s (err e) next = throws e s

abbrev pub if_found : {S A B : Type 0} → Option A → Outcome S B → (A → Outcome S B) → Outcome S B
if_found none missing next = missing
if_found (some a) missing next = next a

-- The state that such a call leaves.
pub or_throw-state {ℓ} :
    {S A B : Type 0} (P : S → Type ℓ) (s : S) (r : Result A) (next : A → Outcome S B)
    → P s
    → ((a : A) → r ≡ ok a → P (state_of (next a)))
    → P (state_of (or_throw s r next))
or_throw-state P s (ok a) next h k = k a refl
or_throw-state P s (err e) next h k = h

pub if_found-state {ℓ} :
    {S A B : Type 0} (P : S → Type ℓ) (o : Option A) (missing : Outcome S B)
    (next : A → Outcome S B)
    → P (state_of missing)
    → ((a : A) → o ≡ some a → P (state_of (next a)))
    → P (state_of (if_found o missing next))
if_found-state P none missing next h k = h
if_found-state P (some a) missing next h k = k a refl

pub ok-injective {ℓ} : {A : Type ℓ} {a b : A} → ok a ≡ ok b → a ≡ b
ok-injective h = ground arith

pub if-state {ℓ} :
    {S A : Type 0} (P : S → Type ℓ) (b : Bool) (x y : Outcome S A)
    → P (state_of x)
    → P (state_of y)
    → P (state_of (if b then x else y))
if-state P true x y h k = h
if-state P false x y h k = k

-- Inversion of a call that returns.
module _ {S A B : Type 0} {b : B} {t : S} where
  pub or_throw-eq-returns :
      (s : S) (r : Result A) (next : A → Outcome S B)
      → or_throw s r next ≡ returns b t
      → (a : A) × (r ≡ ok a) × (next a ≡ returns b t)
  or_throw-eq-returns s (ok a) next h = (a, refl, h)
  or_throw-eq-returns s (err e) next h = absurd (cc)

  pub if_found-eq-returns :
      (o : Option A) (missing : Outcome S B) (next : A → Outcome S B)
      → if_found o missing next ≡ returns b t
      → ((o ≡ none) × (missing ≡ returns b t)) ⊎ ((a : A) × (o ≡ some a) × (next a ≡ returns b t))
  if_found-eq-returns none missing next h = inl (refl, h)
  if_found-eq-returns (some a) missing next h = inr (a, refl, h)

pub returns-injective :
    {S A : Type 0} {a b : A} {s t : S} → returns a s ≡ returns b t → (a ≡ b) × (s ≡ t)
returns-injective h = ground arith

pub throws-ne-returns : {S A : Type 0} {e : Error} {a : A} {s t : S} → throws e s ≡ returns a t → ⊥
throws-ne-returns h = cc
