-- ===== src/Core/Commands.antt =====
-- platform/controller-core/src/jobService.js, the parts that work on one command: its creation, its
-- transition, the end of its lease, and the look-up that guards a lease.
-- `now` is the reading of the service's own `this.now()`, `clock` that of `Date.now()`.
use web_action_recorder_exte.Common.{
  ◌≡◌, arith, ℕ, ◌+◌, String, Bool, true, false, ◌&&◌, ◌||◌, leb, ◌==◌, str_eq, opt_eq,
  if◌then◌else◌, Option, none, some, map, find_first, get_or_else,
}
use web_action_recorder_exte.Json.{Json, empty_object}
use web_action_recorder_exte.Core.Errors.{
  Result, ok, err, ◌>>=◌, domain_error, domain_error_with, invalid_target, device_not_found,
  device_revoked,
}
use web_action_recorder_exte.Core.State.{
  State, Command, Device, TargetSnapshot, Status, queued, dispatched, running, failed,
}
use web_action_recorder_exte.Core.Transitions.{
  assert_transition, status_eq, companion_to_unified, unified_to_companion,
}

-- The fields that a caller of `createCommand` gives.
pub record CommandFields : Type 0 where
  pub id : String
  pub device_id : String
  pub kind : String
  pub profile_id : Option String
  pub run_id : Option String
  pub inputs : Option Json
  pub not_before : Option ℕ
  pub batch_id : Option String
  pub target_snapshot : Option TargetSnapshot
  pub idempotency_key : Option String

-- `createCommand`; no caller gives `dispatchMetadata`.
abbrev pub create_command : ℕ → CommandFields → Command
create_command now fields = record {
  id = fields.id;
  device_id = fields.device_id;
  kind = fields.kind;
  profile_id = fields.profile_id;
  run_id = fields.run_id;
  inputs = get_or_else fields.inputs empty_object;
  status = queued;
  attempt = 0;
  max_attempts = 3;
  created_at = now;
  not_before = get_or_else fields.not_before now;
  batch_id = fields.batch_id;
  target_snapshot = fields.target_snapshot;
  idempotency_key = fields.idempotency_key;
  dispatch_metadata = none;
  lease_id = none;
  lease_until = none;
  started_at = none;
  result = none;
  error = none;
  completed_at = none;
}

-- `a || d` on a number, which is falsy at 0.
abbrev pub number_or : Option ℕ → ℕ → ℕ
number_or none d = d
number_or (some n) d = if n == 0 then d else n

pub record TransitionOptions : Type 0 where
  pub result : Option Json
  pub lease_ms : Option ℕ
  pub now : Option ℕ

abbrev pub no_options : TransitionOptions
no_options = record { result = none; lease_ms = none; now = none }

abbrev pub with_result : Option Json → TransitionOptions
with_result r = record { result = r; lease_ms = none; now = none }

-- The writes of `transition` once the change of status is accepted; `lease` is the new lease's id.
-- The end of a lease is taken to be a time that a `Date` holds, at most 8.64e15: for a later one
-- `toISOString` throws a RangeError, when the status, the attempt and the lease's id are written.
abbrev pub apply_transition :
    (now clock : ℕ) (lease : String) → Status → TransitionOptions → Command → Command
apply_transition now clock lease to options c =
    if status_eq to dispatched
    then record c {
      status = unified_to_companion to;
      attempt = c.attempt + 1;
      lease_id = some lease;
      lease_until = some (get_or_else options.now clock + number_or options.lease_ms 30000);
      started_at = some (get_or_else c.started_at now);
    }
    else record c { status = unified_to_companion to }

-- `transition`: it throws before it writes.
unfoldable pub transition :
    (now clock : ℕ) (lease : String) → Status → TransitionOptions → Command → Result Command
transition now clock lease to options c =
    assert_transition (companion_to_unified c.status) to c.result options.result >>= λ _.
    ok (apply_transition now clock lease to options c)

abbrev pub is_leased : Status → Bool
is_leased s =
    status_eq (companion_to_unified s) dispatched || status_eq (companion_to_unified s) running

-- The lease has an end, and it is not after `now`.
abbrev pub has_expired : ℕ → Option ℕ → Bool
has_expired now none = false
has_expired now (some t) = leb t now

-- The body of the loop of `requeueExpired`.
unfoldable pub requeue_command : ℕ → Command → Command
requeue_command now c =
    if is_leased c.status && has_expired now c.lease_until
    then (if leb (number_or (some c.max_attempts) 3) c.attempt
        then record c {
          status = unified_to_companion failed;
          error = some "Lease expired";
          completed_at = some now;
        }
        else record c {
          status = queued;
          lease_id = none;
          lease_until = none;
          not_before = now + 1000;
        })
    else c

abbrev pub requeue_expired : ℕ → State → State
requeue_expired now s = record s { commands = map (requeue_command now) s.commands }

abbrev pub has_id : String → Command → Bool
has_id id c = str_eq c.id id

abbrev pub is_of_device : String → Command → Bool
is_of_device device_id c = str_eq c.device_id device_id

abbrev pub is_command : String → String → Command → Bool
is_command device_id command_id c = has_id command_id c && is_of_device device_id c

abbrev pub is_device : String → Device → Bool
is_device device_id d = str_eq d.id device_id

-- `requireDevice` and `rejectRevoked` of deviceRegistry.js.
unfoldable pub require_device : State → String → Result Device
require_device s device_id = elim (find_first (is_device device_id) s.devices) [
  | none ↦ err (domain_error_with device_not_found 404)
  | some d ↦ ok d
]

abbrev pub reject_revoked : Device → Result (Unit {0})
reject_revoked d = if d.revoked then err (domain_error_with device_revoked 409) else ok tt

-- `requireCommand`: the device must be known, the command its own, and the lease the current one.
-- A lease id that is absent and one that is null are one value here.
unfoldable pub require_command : State → String → String → Option String → Result Command
unfolding require_device
require_command s device_id command_id lease_id = require_device s device_id >>= λ _.
    elim (find_first (is_command device_id command_id) s.commands) [
      | none ↦ err (domain_error_with invalid_target 404)
      | some c ↦ if opt_eq c.lease_id lease_id then ok c else err (domain_error invalid_target)
    ]

-- What `requireCommand` returns is the stored command under these ids and that lease.
pub find_command-require_command :
    (s : State) (device_id command_id : String) (lease_id : Option String) {c : Command}
    → require_command s device_id command_id lease_id ≡ ok c
    → (find_first (is_command device_id command_id) s.commands ≡ some c)
      × (opt_eq c.lease_id lease_id ≡ true)
unfolding require_command
find_command-require_command s device_id command_id lease_id h = ground arith

-- An accepted transition is carried out.
pub transition_of_ok :
    (now clock : ℕ) (lease : String) (to : Status) (options : TransitionOptions) (c : Command)
    → assert_transition (companion_to_unified c.status) to c.result options.result ≡ ok tt
    → transition now clock lease to options c ≡ ok (apply_transition now clock lease to options c)
unfolding transition
transition_of_ok now clock lease to options c a = rw a
