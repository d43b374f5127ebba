-- ===== src/Core/Pairing/Capacity.antt =====
-- The limit on pending pairing requests, over any sequence of the service's calls.
use web_action_recorder_exte.Common.{
  ◌≡◌, refl, arith, ℕ, ◌≤◌, String, true, false, Option, List, [], ◌∷◌, length, leb, any, some,
  text_or, not, map, Bool, find_first, Bool-cases, inl, inr, ◌∙◌,
}
use web_action_recorder_exte.Core.Errors.{
  state_of, result_of, ok, err, domain_error_with, capacity_exceeded, if-state, if_found-state,
  or_throw-state,
}
use web_action_recorder_exte.Core.State.{State, PendingPairing, rejected, accepted, expired}
use web_action_recorder_exte.Core.Pairing.{
  DevicePayload, PairingConfig, request_pairing, confirm_pairing, reject_pairing,
  cleanup_expired_pairings, cleanup_expired, expire_pairing, has_request,
  upsert_device_from_pairing, require_pending_pairing, find_active, was_used,
}
use web_action_recorder_exte.Core.Pairing.Consumed.{
  consumed_size, consumed_size-le-length, consumed_size-append, consumed_size-expire,
  consumed_size-keep_if, consumed_size-use, consumed_size-end, is_consumed-was_used,
}
use web_action_recorder_exte.Core.Pairing.Agents.{
  revoke, provision_managed_agent, provision_managed_agent-state,
}
use web_action_recorder_exte.Core.Pairing.Digest.{timing_safe_digest_equal}

-- A call of the service that changes its state, with what it reads of its clock and of its random
-- source.
pub data Call : Type 0 where
  request :
      ℕ → (code random : String) → DevicePayload → (display_name request_id : Option String) → Call
  confirm : ℕ → (credential request_id code : String) → Call
  reject : ℕ → (request_id reason : String) → Call
  provision :
      ℕ → (fresh : String) → DevicePayload → (display_name credential : Option String) → Call
  revoke_agent : ℕ → (device_id : String) → Call
  cleans : ℕ → Call

module _ (hash : String → String) (config : PairingConfig) where
  abbrev pub step : Call → State → State
  step (request now code random device display_name request_id) s =
      state_of (request_pairing hash config now code random device display_name request_id s)
  step (confirm now credential request_id code) s =
      state_of (confirm_pairing hash now credential request_id code s)
  step (reject now request_id reason) s = state_of (reject_pairing now request_id reason s)
  step (provision now fresh device display_name credential) s =
      state_of (provision_managed_agent hash now fresh device display_name credential s)
  step (revoke_agent now device_id) s = state_of (revoke now device_id s)
  step (cleans now) s = state_of (cleanup_expired now s)

  abbrev pub run : List Call → State → State
  run [] s = s
  run (c ∷ cs) s = run cs (step c s)

abbrev size : State → ℕ
size s = consumed_size s.pending_pairings

found_request :
    (request_id : String) (s : State) {r : PendingPairing}
    → require_pending_pairing s request_id ≡ ok r
    → find_first (has_request request_id) s.pending_pairings ≡ some r
found_request request_id s h = ground arith

size-cleanup :
    (now : ℕ) (removes : Bool) (s : State) → size (cleanup_expired_pairings now removes s) ≡ size s
unfolding cleanup_expired_pairings
size-cleanup now true s =
    consumed_size-keep_if (map (expire_pairing now) s.pending_pairings)
    ∙ consumed_size-expire now s.pending_pairings
size-cleanup now false s = consumed_size-expire now s.pending_pairings

module _ (hash : String → String) (config : PairingConfig) (n : ℕ) where
  abbrev AtLeast : State → Type 0
  AtLeast s = n ≤ size s

  request-AtLeast :
      (now : ℕ) (code random : String) (device : DevicePayload)
      (display_name request_id : Option String) (s : State)
      → AtLeast s
      → AtLeast
          (state_of (request_pairing hash config now code random device display_name request_id s))
  unfolding request_pairing
  request-AtLeast now code random device display_name request_id s h =
      let t = cleanup_expired_pairings now false s in
      let k : n ≤ size t = omega (arith, size-cleanup now false s) in
      if-state AtLeast (leb config.max_pending (length t.pending_pairings)) _ _ k (
        if-state AtLeast (any (has_request (text_or request_id random)) t.pending_pairings) _ _ k
          (omega (arith, consumed_size-append t.pending_pairings _)))

  reject-AtLeast :
      (now : ℕ) (request_id reason : String) (s : State)
      → AtLeast s
      → AtLeast (state_of (reject_pairing now request_id reason s))
  unfolding reject_pairing
  reject-AtLeast now request_id reason s h =
      let t = cleanup_expired_pairings now false s in
      let k : n ≤ size t = omega (arith, size-cleanup now false s) in
      or_throw-state AtLeast t (require_pending_pairing t request_id) _ k λ r _.
        if-state AtLeast (was_used r) _ _ k (
          omega (
            arith,
            consumed_size-use (has_request request_id)
                (λ item. record item { status = rejected; consumed_at = some now })
                t.pending_pairings (λ _. refl),
          ))

  confirm-AtLeast :
      (now : ℕ) (credential request_id code : String) (s : State)
      → AtLeast s
      → AtLeast (state_of (confirm_pairing hash now credential request_id code s))
  unfolding confirm_pairing upsert_device_from_pairing
  confirm-AtLeast now credential request_id code s h =
      or_throw-state AtLeast s (require_pending_pairing s request_id) _ h λ r found.
        elim (Bool-cases (was_used r)) [
          | inl e ↦ rw e h
          | inr e ↦ rw e (
              if-state AtLeast (leb r.expires_at now) _ _
                (omega (
                  arith,
                  h,
                  consumed_size-end (has_request request_id)
                      (λ item. record item { status = expired }) s.pending_pairings
                      (found_request request_id s found) (is_consumed-was_used r e),
                ))
                (if-state AtLeast (not (timing_safe_digest_equal r.token_hash (hash code))) _ _ h (
                  omega (
                    arith,
                    h,
                    consumed_size-use (has_request request_id)
                        (λ item. record item { status = accepted; consumed_at = some now })
                        s.pending_pairings (λ _. refl),
                  ))))
        ]

  provision-AtLeast :
      (now : ℕ) (fresh : String) (device : DevicePayload) (display_name supplied : Option String)
      (s : State)
      → AtLeast s
      → AtLeast (state_of (provision_managed_agent hash now fresh device display_name supplied s))
  unfolding upsert_device_from_pairing
  provision-AtLeast now fresh device display_name supplied s h =
      provision_managed_agent-state AtLeast hash now fresh device display_name supplied s h (λ _. h)
        h

  step-AtLeast : (c : Call) (s : State) → AtLeast s → AtLeast (step hash config c s)
  unfolding revoke cleanup_expired
  step-AtLeast (request now code random device display_name request_id) s h =
      request-AtLeast now code random device display_name request_id s h
  step-AtLeast (confirm now credential request_id code) s h =
      confirm-AtLeast now credential request_id code s h
  step-AtLeast (reject now request_id reason) s h = reject-AtLeast now request_id reason s h
  step-AtLeast (provision now fresh device display_name credential) s h =
      provision-AtLeast now fresh device display_name credential s h
  step-AtLeast (revoke_agent now device_id) s h =
      if_found-state AtLeast (find_active s device_id) _ _ h (λ _ _. h)
  step-AtLeast (cleans now) s h = omega (arith, h, size-cleanup now true s)

  run-AtLeast : (cs : List Call) (s : State) → AtLeast s → AtLeast (run hash config cs s)
  run-AtLeast [] s h = h
  run-AtLeast (c ∷ cs) s h = run-AtLeast cs (step hash config c s) (step-AtLeast c s h)

-- Requests that were accepted or rejected keep counting: once the state holds as many of them as the
-- limit on pending requests, every later `requestPairing` throws CAPACITY_EXCEEDED (413), whatever
-- calls of the service come in between, `cleanupExpired` among them, and however long they take.
pub request_pairing-exhausted :
    (hash : String → String) (config : PairingConfig) (cs : List Call) (now : ℕ)
    (code random : String) (device : DevicePayload) (display_name request_id : Option String)
    (s : State)
    → config.max_pending ≤ consumed_size s.pending_pairings
    → result_of (
        request_pairing hash config now code random device display_name request_id
          (run hash config cs s))
      ≡ err (domain_error_with capacity_exceeded 413)
unfolding request_pairing
request_pairing-exhausted hash config cs now code random device display_name request_id s h =
    let t = run hash config cs s in
    let after = cleanup_expired_pairings now false t in
    let k : leb config.max_pending (length after.pending_pairings) ≡ true = ground (
      arith,
      size-cleanup now false t,
      consumed_size-le-length after.pending_pairings,
      run-AtLeast hash config config.max_pending cs s h,
    ) in
    rw k refl
