-- ===== src/Core/Pairing.antt =====
-- platform/controller-core/src/pairingService.js: how an agent gets a credential. `hash` is
-- `hashSecret` (Node's SHA-256, in hexadecimal digits); the random codes, credentials and ids are
-- arguments; `now` is the reading of the service's clock, in milliseconds.
pub mod Digest
pub mod Agents
pub mod Confirm
pub mod Revoke
pub mod Capacity
pub mod Consumed
use web_action_recorder_exte.Common.{
  ℕ, ◌+◌, Bool, true, false, not, ◌&&◌, ◌||◌, leb, String, str_eq, Option, none, some, List, [],
  ◌∷◌, ◌++◌, length, find_first, update_first, keep_if, map, any, text_or, truthy, is_some,
  get_or_else, if◌then◌else◌,
}
use web_action_recorder_exte.Json.{Json, Fields, empty_object, obj, num, str, field, end}
use web_action_recorder_exte.Core.Errors.{
  Result, ok, err, Outcome, returns, throws, or_throw, if_found, ◌>>=◌, domain_error_with,
  capacity_exceeded, duplicate_job, auth_denied, job_expired, device_not_found,
  managed_agent_credential_required,
}
use web_action_recorder_exte.Core.State.{
  State, Device, PairingDevice, PendingPairing, PairedAgent, PairingStatus, pending, accepted,
  rejected, expired,
}
use web_action_recorder_exte.Core.Audit.{audit_append, text_field}
use web_action_recorder_exte.Core.Commands.{is_device, require_device, reject_revoked}
use web_action_recorder_exte.Core.Devices.{write_device, revoked_at_time}
use web_action_recorder_exte.Core.Pairing.Digest.{timing_safe_digest_equal, is_credential}

-- The fields of a device payload that `sanitizeDevice` reads.
pub record DevicePayload : Type 0 where
  pub device_id : Option String
  pub display_name : Option String
  pub host_name : Option String
  pub platform : Option String
  pub architecture : Option String
  pub agent_version : Option String
  pub extension_version : Option String
  pub browser_version : Option String
  pub protocol_version : Option String
  pub capabilities : Option Json
  pub labels : Option (List String)
  pub group_ids : Option (List String)

-- `sanitizeDevice`
abbrev pub sanitize_device : DevicePayload → PairingDevice
sanitize_device device = record {
  device_id = text_or device.device_id "";
  display_name = text_or device.display_name (text_or device.device_id "Endpoint");
  host_name = text_or device.host_name "";
  platform = text_or device.platform "";
  architecture = text_or device.architecture "";
  agent_version = text_or device.agent_version "";
  extension_version = text_or device.extension_version "";
  browser_version = text_or device.browser_version "";
  protocol_version = text_or device.protocol_version "";
  capabilities = get_or_else device.capabilities empty_object;
  labels = get_or_else device.labels [];
  group_ids = get_or_else device.group_ids [];
}

abbrev pub is_pending : PairingStatus → Bool
is_pending pending = true
is_pending _ = false

abbrev pub is_expired : PairingStatus → Bool
is_expired expired = true
is_expired _ = false

abbrev pub expire_pairing : ℕ → PendingPairing → PendingPairing
expire_pairing now item =
    if is_pending item.status && leb item.expires_at now
    then record item { status = expired }
    else item

-- `cleanupExpiredPairings`: the state it leaves, and the number of pending requests.
unfoldable pub cleanup_expired_pairings : ℕ → (remove_expired : Bool) → State → State
cleanup_expired_pairings now remove_expired s =
    let marked = map (expire_pairing now) s.pending_pairings in
    record s {
      pending_pairings =
          if remove_expired then keep_if (λ item. not (is_expired item.status)) marked else marked;
    }

unfoldable pub cleanup_expired : ℕ → State → Outcome State ℕ
unfolding cleanup_expired_pairings
cleanup_expired now s =
    let t = cleanup_expired_pairings now true s in
    returns (length (keep_if (λ item. is_pending item.status) t.pending_pairings)) t

abbrev pub has_request : String → PendingPairing → Bool
has_request request_id item = str_eq item.request_id request_id

abbrev pub write_pairing : String → (PendingPairing → PendingPairing) → State → State
write_pairing request_id f s = record s {
  pending_pairings = update_first (has_request request_id) f s.pending_pairings;
}

pub record PairingConfig : Type 0 where
  pub ttl_ms : ℕ
  pub max_pending : ℕ

-- `DEFAULT_TTL_MS`, `DEFAULT_MAX_PENDING`
abbrev pub default_config : PairingConfig
default_config = record { ttl_ms = 300000; max_pending = 32 }

abbrev pub optional_field : String → Option String → Fields → Fields
optional_field key none rest = rest
optional_field key (some v) rest = text_field key v rest

-- `requestPairing`; `random` is the random part of an id that the caller does not give. The call
-- returns the id, the code and the end of the request's life.
unfoldable pub request_pairing :
    (String → String)
    → PairingConfig
    → ℕ
    → (code random : String) → DevicePayload
    → (display_name request_id : Option String) → State
    → Outcome State (String × String × ℕ)
unfolding cleanup_expired_pairings
request_pairing hash config now code random device display_name request_id s =
    let t = cleanup_expired_pairings now false s in
    let id = text_or request_id random in
    let expires_at = now + config.ttl_ms in
    if leb config.max_pending (length t.pending_pairings)
    then throws (domain_error_with capacity_exceeded 413) t
    else if any (has_request id) t.pending_pairings
    then throws (domain_error_with duplicate_job 409) t
    else returns (id, code, expires_at)
        (audit_append now "pairing.requested"
          (obj (
            text_field "requestId" id (
              optional_field "deviceId" device.device_id (field "expiresAt" (num expires_at) end))))
          (record t {
            pending_pairings =
                t.pending_pairings
                ++ record {
                  request_id = id;
                  device = sanitize_device device;
                  display_name = text_or display_name (text_or device.display_name "Endpoint");
                  token_hash = hash code;
                  requested_at = now;
                  expires_at = expires_at;
                  status = pending;
                  consumed_at = none;
                }
                  ∷ [];
          }))

abbrev pub require_pending_pairing : State → String → Result PendingPairing
require_pending_pairing s request_id =
    elim (find_first (has_request request_id) s.pending_pairings) [
      | none ↦ err (domain_error_with device_not_found 404)
      | some request ↦ ok request
    ]

abbrev pub was_used : PendingPairing → Bool
was_used request = is_some request.consumed_at || not (is_pending request.status)

abbrev pub is_agent : String → PairedAgent → Bool
is_agent device_id item = str_eq item.device_id device_id

abbrev pub is_active_agent : String → PairedAgent → Bool
is_active_agent device_id item = is_agent device_id item && not (is_some item.revoked_at)

-- The agent's entry takes the place of every older one of its device.
abbrev pub put_agent : ℕ → (device_id credential_hash : String) → State → State
put_agent now device_id credential_hash s = record s {
  paired_agents =
      keep_if (λ item. not (is_agent device_id item)) s.paired_agents
      ++ record {
        device_id = device_id;
        credential_hash = credential_hash;
        paired_at = now;
        revoked_at = none;
      }
        ∷ [];
}

abbrev pub paired_device : ℕ → PairingDevice → Device
paired_device now device = record {
  id = device.device_id;
  name = device.display_name;
  group_ids = device.group_ids;
  labels = device.labels;
  token_hash = none;
  created_at = now;
  last_seen_at = some now;
  status = "online";
  extension_version = device.extension_version;
  browser = device.browser_version;
  capabilities = device.capabilities;
  profiles = [];
  run_state = none;
  revoked = false;
  revoked_at = none;
}

-- `Object.assign(existing, item, { revoked: false, revokedAt: null })`
abbrev pub assign_paired : ℕ → PairingDevice → Device → Device
assign_paired now device existing = record (paired_device now device) {
  created_at = existing.created_at;
  profiles = existing.profiles;
  token_hash = existing.token_hash;
  run_state = existing.run_state;
}

-- `upsertDeviceFromPairing`
unfoldable pub upsert_device_from_pairing : ℕ → PairingDevice → State → State
upsert_device_from_pairing now device s = record s {
  devices =
      if any (is_device device.device_id) s.devices
      then update_first (is_device device.device_id) (assign_paired now device) s.devices
      else s.devices ++ paired_device now device ∷ [];
}

-- `confirmPairing`: the device and its new credential.
unfoldable pub confirm_pairing :
    (String → String)
    → ℕ
    → (credential request_id code : String) → State
    → Outcome State (String × String)
unfolding upsert_device_from_pairing
confirm_pairing hash now credential request_id code s =
    or_throw s (require_pending_pairing s request_id) λ request.
      if was_used request
      then throws (domain_error_with auth_denied 409) s
      else if leb request.expires_at now
      then throws (domain_error_with job_expired 410)
          (write_pairing request_id (λ item. record item { status = expired }) s)
      else if not (timing_safe_digest_equal request.token_hash (hash code))
      then throws (domain_error_with auth_denied 401) s
      else returns (request.device.device_id, credential)
          (audit_append now "pairing.accepted"
            (obj (
              text_field "requestId" request_id
                (text_field "deviceId" request.device.device_id end)))
            (upsert_device_from_pairing now request.device (
              put_agent now request.device.device_id (hash credential) (
                write_pairing request_id
                  (λ item. record item { status = accepted; consumed_at = some now }) s))))

-- `rejectPairing`
unfoldable pub reject_pairing : ℕ → (request_id reason : String) → State → Outcome State (Unit {0})
unfolding cleanup_expired_pairings
reject_pairing now request_id reason s =
    let t = cleanup_expired_pairings now false s in
    or_throw t (require_pending_pairing t request_id) λ request.
      if was_used request
      then throws (domain_error_with auth_denied 409) t
      else returns tt (
          audit_append now "pairing.rejected"
            (obj (
              text_field "requestId" request_id
                (text_field "deviceId" request.device.device_id (text_field "reason" reason end))))
            (write_pairing request_id
              (λ item. record item { status = rejected; consumed_at = some now }) t))

abbrev pub find_active : State → String → Option PairedAgent
find_active s device_id = find_first (is_active_agent device_id) s.paired_agents

-- `listPendingPairings`, `listPairedAgents`: without the hashes.
unfoldable pub list_pending_pairings : State → List PendingPairing
list_pending_pairings s =
    map (λ (item : PendingPairing). record item { token_hash = "" }) s.pending_pairings

unfoldable pub list_paired_agents : State → List PairedAgent
list_paired_agents s =
    map (λ (item : PairedAgent). record item { credential_hash = "" }) s.paired_agents
