-- ===== src/Core/Jobs/Keys.antt =====
-- Idempotency keys of commands: a call that is made again.
use web_action_recorder_exte.Common.{
  ℕ, ◌≡◌, refl, Bool, true, String, Option, none, some, List, [], ◌∷◌, ◌++◌, arith, find_first,
  Bool-cases, inl, inr, str_eq_refl, opt_eq_refl, sym, ◌∙◌, any, any-append, truthy, text_or,
  if◌then◌else◌, Option-cases,
}
use web_action_recorder_exte.Core.Errors.{returns, returns-injective, throws-ne-returns}
use web_action_recorder_exte.Core.State.{State, Command, Device}
use web_action_recorder_exte.Core.Commands.{is_device, create_command}
use web_action_recorder_exte.Core.Jobs.{
  EnqueueBody, enqueue_legacy_command, enqueue_in, enqueue_fields, ensure_device, has_key,
  first_device_or, legacy_device, is_command_type,
}

any-ensure_device :
    (now : ℕ) (id : String) (s : State) → any (is_device id) (ensure_device now id s).devices ≡ true
any-ensure_device now id s = elim (Bool-cases (any (is_device id) s.devices)) [
  | inl e ↦ rw e e
  | inr e ↦ rw e (
      ground
        (arith, any-append (is_device id) s.devices (legacy_device now id ∷ []), str_eq_refl id))
]

find_first-append :
    (p : Command → Bool) (cs : List Command) (c : Command)
    → find_first p cs ≡ none
    → p c ≡ true
    → find_first p (cs ++ c ∷ []) ≡ some c
find_first-append p [] c n h = rw h
find_first-append p (x ∷ xs) c n h = ground (arith, find_first-append p xs c)

-- The first device that `enqueueLegacyCommand` falls back to is the same once it is stored.
first_device-ensure :
    (now : ℕ) (o : Option String) (ds : List Device)
    → let id = text_or o (first_device_or "legacy" ds) in
      text_or o (
        first_device_or "legacy"
          (if any (is_device id) ds then ds else ds ++ legacy_device now id ∷ []))
      ≡ id
first_device-ensure now none [] = refl
first_device-ensure now (some x) [] = ground arith
first_device-ensure now o (d ∷ ds) = ground arith

devices-ensure_device :
    (now : ℕ) (id : String) (s : State)
    → (ensure_device now id s).devices
      ≡ (if any (is_device id) s.devices then s.devices else s.devices ++ legacy_device now id ∷ [])
devices-ensure_device now id s = elim (Bool-cases (any (is_device id) s.devices)) [
  | inl e ↦ rw e
  | inr e ↦ rw e
]

-- What the first call returns is found by its key in the state that it leaves.
enqueue_in-found :
    (key : Option String) (s t : State) (command : Command) {c : Command}
    → has_key key command ≡ true
    → enqueue_in s (find_first (has_key key) s.commands) command ≡ returns c t
    → (find_first (has_key key) t.commands ≡ some c) × (t.devices ≡ s.devices)
enqueue_in-found key s t command k h = elim (Option-cases (find_first (has_key key) s.commands)) [
  | inl e ↦
      let (p, q) = returns-injective (rw (e, enqueue_in) at h) in
      rw (← p, ← q) (find_first-append (has_key key) s.commands command e k, refl)
  | inr (x, e) ↦ ground (arith, e)
]

abbrev device_for : EnqueueBody → State → String
device_for body s = text_or body.device_id (first_device_or "legacy" s.devices)

-- With a known type and a key, the call is the look-up by key.
enqueue-eq :
    (now : ℕ) (id : String) (body : EnqueueBody) (s : State)
    → is_command_type body.kind ≡ true
    → truthy body.idempotency_key ≡ true
    → let s' = ensure_device now (device_for body s) s in
      enqueue_legacy_command now id body s
      ≡ enqueue_in s'
          (find_first (has_key body.idempotency_key) s'.commands)
          (create_command now (enqueue_fields id (device_for body s) body))
unfolding enqueue_legacy_command
enqueue-eq now id body s e k = rw (e, k)

-- A repeated `enqueueLegacyCommand` with the same body and a key, at any later time, returns the
-- command of the first call and changes nothing.
pub enqueue-repeated :
    (now later : ℕ) (id id' : String) (body : EnqueueBody) (s t : State) {c : Command}
    → truthy body.idempotency_key ≡ true
    → enqueue_legacy_command now id body s ≡ returns c t
    → enqueue_legacy_command later id' body t ≡ returns c t
unfolding enqueue_legacy_command
enqueue-repeated now later id id' body s t k h = elim (Bool-cases (is_command_type body.kind)) [
  | inr e ↦ absurd (throws-ne-returns (rw e at h))
  | inl e ↦
      let s' = ensure_device now (device_for body s) s in
      let (f, d) =
        enqueue_in-found body.idempotency_key s' t _ (opt_eq_refl body.idempotency_key)
          (sym (enqueue-eq now id body s e k) ∙ h) in
      let same : device_for body t ≡ device_for body s =
        rw (d, devices-ensure_device now (device_for body s) s)
          (first_device-ensure now body.device_id s.devices) in
      let known : any (is_device (device_for body t)) t.devices ≡ true =
        rw (same, d) (any-ensure_device now (device_for body s) s) in
      let kept : ensure_device later (device_for body t) t ≡ t = rw known in
      enqueue-eq later id' body t e k ∙ rw (kept, f) refl
]
