-- ===== src/Tests/Pairing.antt =====
-- A pairing request, its confirmation and its end.
use web_action_recorder_exte.Common.{◌≡◌, refl, arith, none, some, [], ◌∷◌, List}
use web_action_recorder_exte.Json.{empty_object}
use web_action_recorder_exte.Core.Errors.{
  throws, state_of, result_of, err, ok, domain_error_with, auth_denied, job_expired,
  capacity_exceeded,
}
use web_action_recorder_exte.Core.State.{
  State, empty_state, PairingDevice, PendingPairing, pending, accepted, PairedAgent,
}
use web_action_recorder_exte.Core.Pairing
use web_action_recorder_exte.Core.Pairing.{
  confirm_pairing, request_pairing, PairingConfig, DevicePayload, upsert_device_from_pairing,
}
use web_action_recorder_exte.Core.Pairing.Agents.{verify_credential, revoke}
use web_action_recorder_exte.Core.Pairing.Digest.{timing_safe_digest_equal}
use web_action_recorder_exte.Core.Pairing.Capacity.{run, Call, confirm, cleans}
use web_action_recorder_exte.Tests.Fixtures.{command, holding, hash, digest}

abbrev pairing_device : PairingDevice
pairing_device = record {
  device_id = "d1";
  display_name = "Endpoint";
  host_name = "";
  platform = "";
  architecture = "";
  agent_version = "";
  extension_version = "";
  browser_version = "";
  protocol_version = "";
  capabilities = empty_object;
  labels = [];
  group_ids = [];
}

abbrev payload : DevicePayload
payload = record {
  device_id = some "d1";
  display_name = none;
  host_name = none;
  platform = none;
  architecture = none;
  agent_version = none;
  extension_version = none;
  browser_version = none;
  protocol_version = none;
  capabilities = none;
  labels = none;
  group_ids = none;
}

abbrev pairing : PendingPairing
pairing = record {
  request_id = "p1";
  device = pairing_device;
  display_name = "Endpoint";
  token_hash = digest;
  requested_at = 0;
  expires_at = 100;
  status = pending;
  consumed_at = none;
}

abbrev asked : State
asked = record empty_state { pending_pairings = pairing ∷ [] }

abbrev confirmed : State
confirmed = state_of (confirm_pairing hash 10 "secret" "p1" "code" asked)

confirm_pairing-once_example :
    confirm_pairing hash 20 "other" "p1" "code" confirmed
    ≡ throws (domain_error_with auth_denied 409) confirmed
unfolding confirm_pairing timing_safe_digest_equal
confirm_pairing-once_example =
    Pairing.Confirm.confirm_pairing-once hash 10 20 "secret" "other" "p1" "code" "code" asked
      confirmed refl

abbrev late : State
late = state_of (confirm_pairing hash 100 "secret" "p1" "code" asked)

confirm_pairing-expired_example :
    (confirm_pairing hash 100 "secret" "p1" "code" asked
      ≡ throws (domain_error_with job_expired 410) late)
    × (confirm_pairing hash 50 "other" "p1" "code" late
        ≡ throws (domain_error_with auth_denied 409) late)
confirm_pairing-expired_example =
    Pairing.Confirm.confirm_pairing-expired hash 100 50 "secret" "other" "p1" "code" "code" asked
      refl refl (omega arith)

confirm_pairing-verify_credential_example : verify_credential hash "d1" "secret" confirmed ≡ ok tt
unfolding confirm_pairing timing_safe_digest_equal
confirm_pairing-verify_credential_example =
    Pairing.Confirm.confirm_pairing-verify_credential hash 10 "secret" "p1" "code" asked confirmed
      (refl, refl) refl

abbrev agent : PairedAgent
agent = record { device_id = "d1"; credential_hash = digest; paired_at = 0; revoked_at = none }

abbrev paired : State
paired = record (holding command) { paired_agents = agent ∷ [] }

abbrev unpaired : State
unpaired = state_of (revoke 8 "d1" paired)

revoke-verify_credential_example : ¬ (verify_credential hash "d1" "secret" unpaired ≡ ok tt)
unfolding revoke
revoke-verify_credential_example =
    Pairing.Revoke.revoke-verify_credential hash 8 "d1" "secret" paired unpaired refl

abbrev small : PairingConfig
small = record { ttl_ms = 300000; max_pending = 1 }

-- A state whose only request is accepted.
abbrev used_up : State
used_up = record empty_state {
  pending_pairings = record pairing { status = accepted; consumed_at = some 5 } ∷ [];
}

abbrev calls : List Call
calls = confirm 10 "secret" "p1" "code" ∷ cleans 500 ∷ []

request_pairing-exhausted_example :
    result_of
      (request_pairing hash small 900 "code" "p2" payload none none (run hash small calls used_up))
    ≡ err (domain_error_with capacity_exceeded 413)
request_pairing-exhausted_example =
    Pairing.Capacity.request_pairing-exhausted hash small calls 900 "code" "p2" payload none none
      used_up (omega arith)
