-- ===== src/Core/Devices.antt =====
-- platform/controller-core/src/deviceRegistry.js. A body's field that is absent is `none`; `now` is
-- the reading of the registry's clock. The device that a call returns has no token hash
-- (`publicDevice`).
pub mod Laws
use web_action_recorder_exte.Common.{
  ℕ, String, Bool, true, false, not, Option, none, some, List, [], ◌∷◌, ◌++◌, find_first,
  update_first, keep_if, text_or, str_eq, any, if◌then◌else◌, get_or_else, map,
}
use web_action_recorder_exte.Json.{Json, empty_object, obj, end}
use web_action_recorder_exte.Core.Errors.{
  Result, ok, err, Outcome, returns, throws, or_throw, ◌>>=◌,
}
use web_action_recorder_exte.Core.State.{State, Device}
use web_action_recorder_exte.Core.Audit.{audit_append, text_field}
use web_action_recorder_exte.Core.Commands.{is_device, require_device, reject_revoked}
use web_action_recorder_exte.Core.Jobs.{ensure_device}

-- The fields of a body that `enrollDevice` and `registerDevice` read.
pub record DeviceBody : Type 0 where
  pub device_id : Option String
  pub name : Option String
  pub device_name : Option String
  pub group_ids : Option (List String)
  pub labels : Option (List String)
  pub extension_version : Option String
  pub browser : Option String
  pub capabilities : Option Json
  pub profiles : Option (List Json)

abbrev pub public_device : Device → Device
public_device d = record d { token_hash = none }

abbrev pub enrolled : (now : ℕ) (id token_hash : String) → DeviceBody → Device
enrolled now id token_hash body = record {
  id = text_or body.device_id id;
  name = text_or body.name (text_or body.device_name "Endpoint");
  group_ids = get_or_else body.group_ids [];
  labels = get_or_else body.labels [];
  token_hash = some token_hash;
  created_at = now;
  last_seen_at = some now;
  status = "online";
  extension_version = text_or body.extension_version "";
  browser = text_or body.browser "";
  capabilities = get_or_else body.capabilities empty_object;
  profiles = [];
  run_state = none;
  revoked = false;
  revoked_at = none;
}

-- `enrollDevice`; `id` is what `this.id('dev')` returns. The new entry takes the place of any that
-- has its id, and the raw token goes to the caller only.
unfoldable pub enroll_device :
    (now : ℕ) (id raw_token token_hash : String)
    → DeviceBody
    → State
    → Outcome State (Device × String)
enroll_device now id raw_token token_hash body s =
    let item = enrolled now id token_hash body in
    returns (public_device item, raw_token)
      (audit_append now "device.enrolled" (obj (text_field "deviceId" item.id end))
        (record s { devices = keep_if (λ d. not (is_device item.id d)) s.devices ++ item ∷ [] }))

-- The stored device, changed where it stands.
abbrev pub write_device : String → (Device → Device) → State → State
write_device id f s = record s { devices = update_first (is_device id) f s.devices }

abbrev require_usable : State → String → Result Device
require_usable s id = require_device s id >>= λ d. reject_revoked d >>= λ _. ok d

abbrev pub registered : ℕ → DeviceBody → Device → Device
registered now body d = record d {
  name = text_or body.name d.name;
  group_ids = get_or_else body.group_ids d.group_ids;
  labels = get_or_else body.labels d.labels;
  extension_version = text_or body.extension_version d.extension_version;
  browser = text_or body.browser d.browser;
  profiles = get_or_else body.profiles d.profiles;
  capabilities = get_or_else body.capabilities d.capabilities;
  last_seen_at = some now;
  status = "online";
}

-- `registerDevice`
unfoldable pub register_device : ℕ → String → DeviceBody → State → Outcome State (Unit {0})
register_device now id body s =
    or_throw s (require_usable s id) λ _. returns tt (write_device id (registered now body) s)

abbrev pub beaten : ℕ → Option String → Option Json → Device → Device
beaten now status run_state d = record d {
  status = text_or status "online";
  run_state = run_state;
  last_seen_at = some now;
}

-- `heartbeat`
unfoldable pub heartbeat :
    ℕ → String → Option String → Option Json → State → Outcome State (Unit {0})
heartbeat now id status run_state s =
    or_throw s (require_usable s id)
      λ _. returns tt (write_device id (beaten now status run_state) s)

-- `listDevices`, `getDevice`
unfoldable pub list_devices : State → List Device
list_devices s = map public_device s.devices

unfoldable pub get_device : String → State → Result Device
get_device id s = require_device s id >>= λ d. ok (public_device d)

abbrev pub with_status : ℕ → String → Device → Device
with_status now status d = record d { status = status; last_seen_at = some now }

-- `setStatus`; a revoked device is not refused.
unfoldable pub set_status : ℕ → String → String → State → Outcome State Device
set_status now id status s = or_throw s (require_device s id) λ d.
    returns (public_device (with_status now status d)) (write_device id (with_status now status) s)

abbrev pub revoked_at_time : ℕ → Device → Device
revoked_at_time now d = record d { revoked = true; status = "offline"; revoked_at = some now }

-- `revoke`
unfoldable pub revoke : ℕ → String → State → Outcome State Device
revoke now id s = or_throw s (require_device s id) λ d.
    returns (public_device (revoked_at_time now d)) (
      audit_append now "device.revoked" (obj (text_field "deviceId" id end))
        (write_device id (revoked_at_time now) s))

-- `ensureLegacyDevice`
unfoldable pub ensure_legacy_device : ℕ → String → State → Outcome State Device
ensure_legacy_device now id s =
    let s' = ensure_device now id s in
    or_throw s' (require_device s' id) λ d. returns (public_device d) s'
