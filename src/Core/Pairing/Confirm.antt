-- ===== src/Core/Pairing/Confirm.antt =====
-- platform/controller-core/src/pairingService.js: confirmPairing.
use web_action_recorder_exte.Common.{
  ◌≡◌, refl, sym, ap, arith, ℕ, ◌≤◌, String, Bool, true, false, not, inl, inr, none, some, List, [],
  ◌∷◌, ◌++◌, leb, any, str_eq_refl, find_first, update_first, keep_if, find_first-update_first,
  find_first-holds, Bool-cases,
}
use web_action_recorder_exte.Core.Errors.{
  ok, returns, throws, state_of, domain_error_with, auth_denied, job_expired, or_throw-eq-returns,
  returns-injective, throws-ne-returns,
}
use web_action_recorder_exte.Core.State.{
  State, Device, PairingDevice, PendingPairing, PairedAgent, expired, accepted,
}
use web_action_recorder_exte.Core.Commands.{is_device, require_device}
use web_action_recorder_exte.Core.Pairing.{
  confirm_pairing, require_pending_pairing, has_request, was_used, is_agent, is_active_agent,
  put_agent, paired_device, assign_paired, upsert_device_from_pairing, find_active, write_pairing,
}
use web_action_recorder_exte.Core.Pairing.Agents.{verify_credential}
use web_action_recorder_exte.Core.Pairing.Digest.{
  timing_safe_digest_equal, timing_safe_digest_equal_refl, IsDigest,
}

require_pending_pairing-find :
    (s : State) (id : String) {r : PendingPairing}
    → require_pending_pairing s id ≡ ok r
    → find_first (has_request id) s.pending_pairings ≡ some r
require_pending_pairing-find s id h = ground arith

find-require_pending_pairing :
    (s : State) (id : String) {r : PendingPairing}
    → find_first (has_request id) s.pending_pairings ≡ some r
    → require_pending_pairing s id ≡ ok r
find-require_pending_pairing s id h = ground arith

-- A used request is refused, and the state is kept.
confirm_pairing-used :
    (hash : String → String) (now : ℕ) (credential id code : String) (s : State)
    {r : PendingPairing}
    → find_first (has_request id) s.pending_pairings ≡ some r
    → was_used r ≡ true
    → confirm_pairing hash now credential id code s ≡ throws (domain_error_with auth_denied 409) s
unfolding confirm_pairing
confirm_pairing-used hash now credential id code s h k =
    rw (find-require_pending_pairing s id h, k) refl

confirm_late :
    (hash : String → String) (now : ℕ) (credential id code : String) (s : State)
    {r : PendingPairing}
    → find_first (has_request id) s.pending_pairings ≡ some r
    → was_used r ≡ false
    → r.expires_at ≤ now
    → confirm_pairing hash now credential id code s
      ≡ throws
          (domain_error_with job_expired 410)
          (write_pairing id (λ item. record item { status = expired }) s)
unfolding confirm_pairing
confirm_late hash now credential id code s {r = r} f u le =
    let late : leb r.expires_at now ≡ true = ground arith in
    rw (find-require_pending_pairing s id f, u, late) refl

-- The state of a call that returns.
confirm_pairing-returns :
    (hash : String → String) (now : ℕ) (credential id code : String) (s t : State)
    {d : String × String}
    → confirm_pairing hash now credential id code s ≡ returns d t
    → (r : PendingPairing) × (find_first (has_request id) s.pending_pairings ≡ some r)
      × (was_used r ≡ false)
      × (d ≡ (r.device.device_id, credential))
      × (t.pending_pairings
          ≡ update_first
              (has_request id)
              (λ item. record item { status = accepted; consumed_at = some now })
              s.pending_pairings)
      × (t.paired_agents ≡ (put_agent now r.device.device_id (hash credential) s).paired_agents)
      × (t.devices ≡ (upsert_device_from_pairing now r.device s).devices)
unfolding confirm_pairing upsert_device_from_pairing
confirm_pairing-returns hash now credential id code s t h =
    let (r, e, k) = or_throw-eq-returns s (require_pending_pairing s id) _ h in
    let f = require_pending_pairing-find s id e in
    elim (Bool-cases (was_used r)) [
      | inl u ↦ absurd (throws-ne-returns (rw u at k))
      | inr u ↦ elim (Bool-cases (leb r.expires_at now)) [
        | inl l ↦ absurd (throws-ne-returns (rw (u, l) at k))
        | inr l ↦ elim (Bool-cases (timing_safe_digest_equal r.token_hash (hash code))) [
          | inr m ↦ absurd (throws-ne-returns (rw (u, l, m) at k))
          | inl m ↦
              let (p, q) = returns-injective (rw (u, l, m) at k) in
              (
                r,
                f,
                u,
                sym p,
                ap (λ (z : State). z.pending_pairings) (sym q),
                ap (λ (z : State). z.paired_agents) (sym q),
                ap (λ (z : State). z.devices) (sym q),
              )
        ]
      ]
    ]

-- A request that is confirmed is used: no later confirmation of it, with whatever code and at
-- whatever time, succeeds or changes the state.
pub confirm_pairing-once :
    (hash : String → String) (now later : ℕ) (credential other id code guess : String) (s t : State)
    {d : String × String}
    → confirm_pairing hash now credential id code s ≡ returns d t
    → confirm_pairing hash later other id guess t ≡ throws (domain_error_with auth_denied 409) t
confirm_pairing-once hash now later credential other id code guess s t h =
    let (r, f, _, _, q, _, _) = confirm_pairing-returns hash now credential id code s t h in
    let found =
      find_first-update_first (has_request id)
        (λ item. record item { status = accepted; consumed_at = some now }) s.pending_pairings f
        (find_first-holds (has_request id) s.pending_pairings f) in
    let used : find_first (has_request id) t.pending_pairings
        ≡ some (record r { status = accepted; consumed_at = some now }) =
      rw q found in
    confirm_pairing-used hash later other id guess t used refl

-- A pending request whose time is over cannot be confirmed, even with its code: the call throws
-- JOB_EXPIRED (410) and marks the request, after which no call confirms it, not even one whose
-- clock stands before the end of the request's life.
pub confirm_pairing-expired :
    (hash : String → String) (now later : ℕ) (credential other id code guess : String) (s : State)
    {r : PendingPairing}
    → find_first (has_request id) s.pending_pairings ≡ some r
    → was_used r ≡ false
    → r.expires_at ≤ now
    → let t = state_of (confirm_pairing hash now credential id code s) in
      (confirm_pairing hash now credential id code s ≡ throws (domain_error_with job_expired 410) t)
      × (confirm_pairing hash later other id guess t ≡ throws (domain_error_with auth_denied 409) t)
confirm_pairing-expired hash now later credential other id code guess s {r = r} f u le =
    let t = write_pairing id (λ item. record item { status = expired }) s in
    let first : confirm_pairing hash now credential id code s
        ≡ throws (domain_error_with job_expired 410) t =
      confirm_late hash now credential id code s f u le in
    let found =
      find_first-update_first (has_request id) (λ item. record item { status = expired })
        s.pending_pairings f (find_first-holds (has_request id) s.pending_pairings f) in
    rw first (refl, confirm_pairing-used hash later other id guess t found (ground arith))

find_first-put :
    (p : PairedAgent → Bool) (xs : List PairedAgent) (a : PairedAgent) (q : PairedAgent → Bool)
    → ((x : PairedAgent) → q x ≡ true → p x ≡ false)
    → p a ≡ true
    → find_first p (keep_if q xs ++ a ∷ []) ≡ some a
find_first-put p [] a q h k = rw k
find_first-put p (x ∷ xs) a q h k = elim (Bool-cases (q x)) [
  | inl e ↦ rw (e, h x e) (find_first-put p xs a q h k)
  | inr e ↦ rw e (find_first-put p xs a q h k)
]

-- The agent that `put_agent` stores is the active one of its device.
find_active-put :
    (now : ℕ) (device_id credential_hash : String) (s : State)
    → find_active (put_agent now device_id credential_hash s) device_id
      ≡ some (record {
        device_id = device_id;
        credential_hash = credential_hash;
        paired_at = now;
        revoked_at = none;
      })
find_active-put now device_id credential_hash s =
    find_first-put (is_active_agent device_id) s.paired_agents _
      (λ item. not (is_agent device_id item)) (λ x h. ground arith)
      (ground (arith, str_eq_refl device_id))

find-assign :
    (now : ℕ) (device : PairingDevice) (ds : List Device)
    → any (is_device device.device_id) ds ≡ true
    → (d : Device) × (find_first
          (is_device device.device_id)
          (update_first (is_device device.device_id) (assign_paired now device) ds)
        ≡ some d)
      × (d.revoked ≡ false)
find-assign now device [] h = absurd (cc)
find-assign now device (x ∷ xs) h = elim (Bool-cases (is_device device.device_id x)) [
  | inl e ↦ (assign_paired now device x, rw (e, str_eq_refl device.device_id) refl, refl)
  | inr e ↦ let (d, f, r) = find-assign now device xs (rw e at h) in (d, rw (e, e, f) refl, r)
]

find-appended :
    (now : ℕ) (device : PairingDevice) (ds : List Device)
    → any (is_device device.device_id) ds ≡ false
    → find_first (is_device device.device_id) (ds ++ paired_device now device ∷ [])
      ≡ some (paired_device now device)
find-appended now device [] h = rw (str_eq_refl device.device_id) refl
find-appended now device (x ∷ xs) h = ground (arith, find-appended now device xs)

-- A device that is paired is known and not revoked.
find-upsert :
    (now : ℕ) (device : PairingDevice) (s : State)
    → (d : Device) × (find_first
          (is_device device.device_id)
          (upsert_device_from_pairing now device s).devices
        ≡ some d)
      × (d.revoked ≡ false)
unfolding upsert_device_from_pairing
find-upsert now device s = elim (Bool-cases (any (is_device device.device_id) s.devices)) [
  | inl e ↦ let (d, f, r) = find-assign now device s.devices e in (d, rw (e, f) refl, r)
  | inr e ↦ (paired_device now device, rw (e, find-appended now device s.devices e) refl, refl)
]

verify-ok :
    (hash : String → String) (device_id credential : String) (s : State) {a : PairedAgent}
    {d : Device}
    → find_active s device_id ≡ some a
    → timing_safe_digest_equal a.credential_hash (hash credential) ≡ true
    → find_first (is_device device_id) s.devices ≡ some d
    → d.revoked ≡ false
    → verify_credential hash device_id credential s ≡ ok tt
unfolding verify_credential require_device
verify-ok hash device_id credential s f m g r = ground arith

-- The credential that a confirmed pairing returns verifies for the device it returns, where the
-- hash of the credential is a digest.
pub confirm_pairing-verify_credential :
    (hash : String → String) (now : ℕ) (credential id code : String) (s t : State)
    {d : String × String}
    → IsDigest (hash credential)
    → confirm_pairing hash now credential id code s ≡ returns d t
    → verify_credential hash d.0 d.1 t ≡ ok tt
confirm_pairing-verify_credential hash now credential id code s t g h =
    let (r, f, _, e, _, p, q) = confirm_pairing-returns hash now credential id code s t h in
    let (x, k, l) = find-upsert now r.device s in
    let stored : find_active t r.device.device_id
        ≡ some (record {
          device_id = r.device.device_id;
          credential_hash = hash credential;
          paired_at = now;
          revoked_at = none;
        }) =
      rw p (find_active-put now r.device.device_id (hash credential) s) in
    let known : find_first (is_device r.device.device_id) t.devices ≡ some x = rw q k in
    rw e (
      verify-ok hash r.device.device_id credential t stored
        (timing_safe_digest_equal_refl (hash credential) g) known l)
