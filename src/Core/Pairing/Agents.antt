-- ===== src/Core/Pairing/Agents.antt =====
-- platform/controller-core/src/pairingService.js, the calls on agents: `provisionManagedAgent`,
-- `revoke`, `verifyCredential`. The parameters are those of Core/Pairing.antt.
use web_action_recorder_exte.Common.{
  ◌≡◌, inl, inr, none, Option-cases, ℕ, Bool, false, not, ◌&&◌, String, Option, none, some,
  update_first, text_or, is_some, get_or_else, if◌then◌else◌,
}
use web_action_recorder_exte.Json.{obj, end}
use web_action_recorder_exte.Core.Errors.{
  state_of, if-state, Result, err, Outcome, returns, throws, if_found, ◌>>=◌, domain_error_with,
  auth_denied, device_not_found, managed_agent_credential_required,
}
use web_action_recorder_exte.Core.State.{State, Device, PairingDevice, PairedAgent}
use web_action_recorder_exte.Core.Audit.{audit_append, text_field}
use web_action_recorder_exte.Core.Commands.{require_device, reject_revoked}
use web_action_recorder_exte.Core.Devices.{write_device, revoked_at_time}
use web_action_recorder_exte.Core.Pairing.Digest.{timing_safe_digest_equal, is_credential}
use web_action_recorder_exte.Core.Pairing.{
  DevicePayload, sanitize_device, is_active_agent, find_active, put_agent,
  upsert_device_from_pairing,
}

abbrev pub given_credential : Option String → Bool
given_credential none = false
given_credential (some c) = is_credential c

abbrev pub offline : Device → Device
offline d = record d { status = "offline" }

abbrev pub store_offline : ℕ → PairingDevice → State → State
store_offline now device s =
    write_device device.device_id offline (upsert_device_from_pairing now device s)

abbrev pub named_payload : DevicePayload → Option String → DevicePayload
named_payload device display_name = record device {
  display_name = some (text_or display_name (text_or device.display_name ""));
}

abbrev pub chosen_credential : Option String → String → String
chosen_credential supplied fresh =
    if given_credential supplied then get_or_else supplied fresh else fresh

-- The states that the two successful ends of `provisionManagedAgent` leave.
abbrev pub provisioned_state : ℕ → PairingDevice → (credential_hash : String) → State → State
provisioned_state now device credential_hash s =
    audit_append now "pairing.managed_provisioned"
      (obj (text_field "deviceId" device.device_id end))
      (store_offline now device (put_agent now device.device_id credential_hash s))

abbrev pub reused_state : ℕ → PairingDevice → State → State
reused_state now device s =
    audit_append now "pairing.managed_reused" (obj (text_field "deviceId" device.device_id end))
      (store_offline now device s)

abbrev pub refuses : (String → String) → Option String → String → PairedAgent → Bool
refuses hash supplied fresh existing =
    not
      (timing_safe_digest_equal existing.credential_hash (hash (chosen_credential supplied fresh)))

-- `provisionManagedAgent`: the credential, and when it was paired; `fresh` is the random
-- credential of a call that gives none.
unfoldable pub provision_managed_agent :
    (String → String)
    → ℕ
    → (fresh : String) → DevicePayload
    → (display_name : Option String) → (supplied : Option String) → State
    → Outcome State (String × ℕ)
provision_managed_agent hash now fresh device display_name supplied s =
    let safe_device = sanitize_device (named_payload device display_name) in
    let credential = chosen_credential supplied fresh in
    if is_some supplied && not (given_credential supplied)
    then throws (domain_error_with auth_denied 401) s
    else if_found (find_active s safe_device.device_id)
        (returns (credential, now) (provisioned_state now safe_device (hash credential) s))
        (λ existing.
          if not (given_credential supplied)
          then throws (domain_error_with managed_agent_credential_required 409) s
          else if refuses hash supplied fresh existing
          then throws (domain_error_with auth_denied 401) s
          else returns (credential, existing.paired_at) (reused_state now safe_device s))

-- The state that the call leaves is the one it found or one of those two.
pub provision_managed_agent-state :
    (P : State → Type 0) (hash : String → String) (now : ℕ) (fresh : String)
    (device : DevicePayload) (display_name supplied : Option String) (s : State)
    → let safe_device = sanitize_device (named_payload device display_name) in
      P s
      → (find_active s safe_device.device_id ≡ none
          → P (provisioned_state now safe_device (hash (chosen_credential supplied fresh)) s))
      → P (reused_state now safe_device s)
      → P (state_of (provision_managed_agent hash now fresh device display_name supplied s))
unfolding provision_managed_agent
provision_managed_agent-state P hash now fresh device display_name supplied s h k l =
    let safe_device = sanitize_device (named_payload device display_name) in
    if-state P (is_some supplied && not (given_credential supplied)) _ _ h
      (elim (Option-cases (find_active s safe_device.device_id)) [
        | inl e ↦ rw e (k e)
        | inr (a, e) ↦ rw e (
            if-state P (not (given_credential supplied)) _ _ h
              (if-state P (refuses hash supplied fresh a) _ _ h l))
      ])

abbrev pub revoked_agent : ℕ → PairedAgent → PairedAgent
revoked_agent now item = record item { revoked_at = some now }

-- `revoke`
unfoldable pub revoke : ℕ → String → State → Outcome State (Unit {0})
revoke now device_id s =
    if_found (find_active s device_id) (throws (domain_error_with device_not_found 404) s) λ _.
      returns tt (
        audit_append now "pairing.revoked" (obj (text_field "deviceId" device_id end)) (
          write_device device_id (revoked_at_time now) (record s {
            paired_agents =
                update_first (is_active_agent device_id) (revoked_agent now) s.paired_agents;
          })))

-- `verifyCredential`
unfoldable pub verify_credential :
    (String → String) → (device_id credential : String) → State → Result (Unit {0})
verify_credential hash device_id credential s = elim (find_active s device_id) [
  | none ↦ err (domain_error_with auth_denied 401)
  | some record' ↦
      if not (timing_safe_digest_equal record'.credential_hash (hash credential))
      then err (domain_error_with auth_denied 401)
      else require_device s device_id >>= λ d. reject_revoked d
]
