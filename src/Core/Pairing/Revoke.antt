-- ===== src/Core/Pairing/Revoke.antt =====
-- Revoking an agent, and the credential of a managed one.
use web_action_recorder_exte.Common.{
  ◌≡◌, refl, sym, ap, arith, ℕ, String, true, false, inl, inr, Option, none, some, List, [], ◌∷◌,
  find_first, update_first, Bool-cases, Option-cases,
}
use web_action_recorder_exte.Core.Errors.{
  returns, state_of, if_found-eq-returns, returns-injective, throws-ne-returns, ok,
}
use web_action_recorder_exte.Core.State.{State, Device, PairedAgent}
use web_action_recorder_exte.Core.Commands.{is_device, require_device}
use web_action_recorder_exte.Core.Devices.{revoked_at_time}
use web_action_recorder_exte.Core.Pairing.{
  DevicePayload, sanitize_device, find_active, upsert_device_from_pairing,
}
use web_action_recorder_exte.Core.Pairing.Agents.{
  revoke, verify_credential, provision_managed_agent, provision_managed_agent-state, named_payload,
}

find_first-none :
    (id : String) (f : Device → Device) (ds : List Device)
    → find_first (is_device id) ds ≡ none
    → update_first (is_device id) f ds ≡ ds
find_first-none id f [] h = refl
find_first-none id f (d ∷ ds) h = ground (arith, find_first-none id f ds)

-- Whatever device stands under the id after the change, it is a revoked one.
revoked-find :
    (now : ℕ) (id : String) (ds : List Device) {d : Device}
    → find_first (is_device id) (update_first (is_device id) (revoked_at_time now) ds) ≡ some d
    → d.revoked ≡ true
revoked-find now id [] h = absurd (cc)
revoked-find now id (x ∷ xs) h = elim (Bool-cases (is_device id x)) [
  | inl e ↦ ground arith
  | inr e ↦ revoked-find now id xs (rw (e, e) at h)
]

verify-device :
    (hash : String → String) (id credential : String) (s : State)
    → verify_credential hash id credential s ≡ ok tt
    → (d : Device) × (find_first (is_device id) s.devices ≡ some d) × (d.revoked ≡ false)
unfolding verify_credential require_device
verify-device hash id credential s h = elim (Option-cases (find_first (is_device id) s.devices)) [
  | inl e ↦ absurd (ground arith)
  | inr (d, e) ↦ (d, e, ground arith)
]

-- Once an agent is revoked, no credential verifies for its device, the one it had included.
pub revoke-verify_credential :
    (hash : String → String) (now : ℕ) (id credential : String) (s t : State)
    → revoke now id s ≡ returns tt t
    → ¬ (verify_credential hash id credential t ≡ ok tt)
unfolding revoke
revoke-verify_credential hash now id credential s t h k =
    let (d, f, r) = verify-device hash id credential t k in
    elim (if_found-eq-returns (find_active s id) _ _ h) [
      | inl (_, m) ↦ throws-ne-returns m
      | inr (a, _, m) ↦
          let (_, q) = returns-injective m in
          let devices = ap (λ (z : State). z.devices) (sym q) in
          let revoked = revoked-find now id s.devices (rw devices at f) in cc
    ]

-- While a device has an agent that is not revoked, `provisionManagedAgent` keeps every agent's
-- credential hash, whatever it is given, and whether it returns or throws.
pub provision_managed_agent-keeps :
    (hash : String → String) (now : ℕ) (fresh : String) (device : DevicePayload)
    (display_name supplied : Option String) (s : State) {a : PairedAgent}
    → find_active s (sanitize_device (named_payload device display_name)).device_id ≡ some a
    → (state_of
        (provision_managed_agent hash now fresh device display_name supplied s)).paired_agents
      ≡ s.paired_agents
unfolding upsert_device_from_pairing
provision_managed_agent-keeps hash now fresh device display_name supplied s h =
    provision_managed_agent-state (λ z. z.paired_agents ≡ s.paired_agents) hash now fresh device
      display_name supplied s refl (λ e. absurd (cc)) refl
