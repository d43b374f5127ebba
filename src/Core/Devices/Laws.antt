-- ===== src/Core/Devices/Laws.antt =====
-- What the device registry promises.
use web_action_recorder_exte.Common.{
  ℕ, ◌≡◌, String, Option, some, find_first, find_first-update_first, find_first-holds, ap, sym,
  arith,
}
use web_action_recorder_exte.Json.{Json}
use web_action_recorder_exte.Core.Errors.{
  ok, returns, throws, domain_error_with, device_revoked, or_throw-eq-returns, returns-injective,
}
use web_action_recorder_exte.Core.State.{State, Device}
use web_action_recorder_exte.Core.Commands.{is_device, require_device}
use web_action_recorder_exte.Core.Devices.{
  DeviceBody, register_device, heartbeat, revoke, revoked_at_time,
}

find_device-require_device :
    (s : State) (id : String) {d : Device}
    → require_device s id ≡ ok d
    → find_first (is_device id) s.devices ≡ some d
unfolding require_device
find_device-require_device s id h = ground arith

require_found :
    (id : String) (s : State) {d : Device}
    → find_first (is_device id) s.devices ≡ some d
    → require_device s id ≡ ok d
unfolding require_device
require_found id s h = ground arith

-- Once a device is revoked, it can neither register nor send a heartbeat: both calls throw
-- DEVICE_REVOKED (409) and leave the state as it is.
pub register_device-revoke :
    (now later : ℕ) (id : String) (body : DeviceBody) (status : Option String)
    (run_state : Option Json) (s t : State) {d : Device}
    → revoke now id s ≡ returns d t
    → (register_device later id body t ≡ throws (domain_error_with device_revoked 409) t)
      × (heartbeat later id status run_state t ≡ throws (domain_error_with device_revoked 409) t)
unfolding revoke register_device heartbeat
register_device-revoke now later id body status run_state s t h =
    let (x, e, k) = or_throw-eq-returns s (require_device s id) _ h in
    let (_, q) = returns-injective k in
    let f =
      find_first-update_first (is_device id) (revoked_at_time now) s.devices
        (find_device-require_device s id e)
        (find_first-holds (is_device id) s.devices (find_device-require_device s id e)) in
    let r : require_device t id ≡ ok (revoked_at_time now x) =
      require_found id t (rw (ap (λ (z : State). z.devices) (sym q)) f) in
    (rw r, rw r)
