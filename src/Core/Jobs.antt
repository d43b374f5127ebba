-- ===== src/Core/Jobs.antt =====
-- platform/controller-core/src/jobService.js: the operations of `JobService` on the stored commands.
-- Each takes the readings `now` of `this.now()` and `clock` of `Date.now()`, one for a call, and the
-- texts that `this.id` returns. What the store hands out as a clone is the value itself.
pub mod Listing
pub mod Stops
pub mod Replay
pub mod Batches
pub mod History
pub mod Evolution
pub mod Preservation
pub mod Stopping
pub mod Planning
pub mod Runs
pub mod Leases
pub mod Endings
pub mod Keys
use web_action_recorder_exte.Common.{
  ℕ, String, Bool, true, false, not, ◌&&◌, ◌||◌, leb, str_eq, opt_eq, truthy, text_or, is_some,
  if◌then◌else◌, Option, none, some, List, [], ◌∷◌, ◌++◌, map, find_first, update_first, keep_if,
  any, get_or_else,
}
use mathlib.Core.Option
use web_action_recorder_exte.Json.{Json, empty_object, obj, str, bool, end, field, ok_is_false}
use web_action_recorder_exte.Json.Redact.{redact_result}
use web_action_recorder_exte.Core.Errors.{
  Error, Result, ok, err, Outcome, returns, throws, or_throw, if_found, domain_error,
  domain_error_with, invalid_target,
}
use web_action_recorder_exte.Core.State.{
  State, Command, Device, DispatchPayload, JobResult, Status, queued, dispatched, acknowledged,
  running, succeeded, failed, cancelled, timed_out, leased, timeout,
}
use web_action_recorder_exte.Core.Transitions.{
  is_terminal, status_eq, companion_to_unified, unified_to_companion,
}
use web_action_recorder_exte.Core.Audit.{audit_append, text_field}
use web_action_recorder_exte.Core.Commands.{
  CommandFields, create_command, TransitionOptions, no_options, with_result, transition,
  requeue_expired, is_of_device, is_command, is_device, reject_revoked, require_command,
}

pub record EnqueueBody : Type 0 where
  pub kind : String
  pub device_id : Option String
  pub profile_id : Option String
  pub run_id : Option String
  pub inputs : Option Json
  pub idempotency_key : Option String

-- `COMMAND_TYPES.has(type)`
abbrev pub is_command_type : String → Bool
is_command_type t = str_eq t "run_profile" || str_eq t "stop_run" || str_eq t "get_state"

abbrev pub legacy_device : ℕ → String → Device
legacy_device now id = record {
  id = id;
  name = "Legacy endpoint";
  group_ids = [];
  labels = [];
  token_hash = some "";
  created_at = now;
  last_seen_at = none;
  status = "unknown";
  extension_version = "";
  browser = "";
  capabilities = empty_object;
  profiles = [];
  run_state = none;
  revoked = false;
  revoked_at = none;
}

abbrev first_device_or : String → List Device → String
first_device_or d [] = d
first_device_or d (x ∷ xs) = text_or (some x.id) d

-- Pushes an endpoint for an id that no device has.
abbrev pub ensure_device : ℕ → String → State → State
ensure_device now id s =
    if any (is_device id) s.devices
    then s
    else record s { devices = s.devices ++ legacy_device now id ∷ [] }

abbrev pub has_key : Option String → Command → Bool
has_key key c = opt_eq c.idempotency_key key

abbrev push_command : Command → State → State
push_command c s = record s { commands = s.commands ++ c ∷ [] }

abbrev pub enqueue_fields : (id device_id : String) → EnqueueBody → CommandFields
enqueue_fields id device_id body = record {
  id = id;
  device_id = device_id;
  kind = body.kind;
  profile_id = body.profile_id;
  run_id = body.run_id;
  inputs = body.inputs;
  not_before = none;
  batch_id = none;
  target_snapshot = none;
  idempotency_key = body.idempotency_key;
}

-- An earlier command under the same key is returned in place of the new one.
abbrev pub enqueue_in : State → Option Command → Command → Outcome State Command
enqueue_in s none command = returns command (push_command command s)
enqueue_in s (some existing) command = returns existing s

-- `enqueueLegacyCommand`; `id` is the new command's.
unfoldable pub enqueue_legacy_command :
    (now : ℕ) (id : String) → EnqueueBody → State → Outcome State Command
enqueue_legacy_command now id body s =
    if not (is_command_type body.kind)
    then throws (domain_error invalid_target) s
    else let device_id = text_or body.device_id (first_device_or "legacy" s.devices) in
      let s' = ensure_device now device_id s in
      let existing : Option Command =
        if truthy body.idempotency_key
        then find_first (has_key body.idempotency_key) s'.commands
        else none in
      let command = create_command now (enqueue_fields id device_id body) in
      enqueue_in s' existing command

-- What `leaseNext` picks: a queued command of the device whose time has come.
abbrev pub is_due : ℕ → String → Command → Bool
is_due clock device_id c =
    is_of_device device_id c
    && (status_eq (companion_to_unified c.status) queued && leb c.not_before clock)

-- The chosen command, changed where it stands.
abbrev write_first : (Command → Bool) → Command → State → State
write_first p c s = record s { commands = update_first p (λ _. c) s.commands }

-- The rest of `leaseNext`, after the check of the device.
unfoldable pub lease_due :
    (now clock : ℕ) (lease : String) → String → Option ℕ → State → Outcome State (Option Command)
lease_due now clock lease device_id lease_ms s =
    if_found (find_first (is_due clock device_id) s.commands) (returns none s) λ c.
      or_throw s
        (transition now clock lease dispatched
          (record { result = none; lease_ms = lease_ms; now = none }) c)
        λ c'.
          let held = record c' { status = unified_to_companion dispatched } in
          returns (some held) (write_first (is_due clock device_id) held s)

-- A device that is not stored is not refused.
abbrev pub reject_if_revoked : Option Device → Result (Unit {0})
reject_if_revoked none = ok tt
reject_if_revoked (some d) = reject_revoked d

-- `leaseNext`: the ended leases are requeued also where it throws.
unfoldable pub lease_next :
    (now clock : ℕ) (lease : String) → String → Option ℕ → State → Outcome State (Option Command)
unfolding lease_due
lease_next now clock lease device_id lease_ms s =
    let s' = requeue_expired clock s in
    or_throw s' (reject_if_revoked (find_first (is_device device_id) s'.devices))
      λ _. lease_due now clock lease device_id lease_ms s'

-- A command found and checked by `requireCommand`, changed where it stands.
abbrev pub with_command :
    String
    → String
    → Option String
    → State
    → (Command → Result Command)
    → (Command → State → State)
    → Outcome State Command
with_command device_id command_id lease_id s change after =
    or_throw s (require_command s device_id command_id lease_id) λ c.
      or_throw s (change c)
        λ c'. returns c' (after c' (write_first (is_command device_id command_id) c' s))

-- `acknowledge`
unfoldable pub acknowledge :
    (now clock : ℕ) (lease : String)
    → String
    → String
    → Option String
    → State
    → Outcome State Command
acknowledge now clock lease device_id command_id lease_id s =
    with_command device_id command_id lease_id s (transition now clock lease running no_options)
      (λ _ s'. s')

abbrev pub next_status : Option Json → Status
next_status none = succeeded
next_status (some r) = if ok_is_false r then failed else succeeded

abbrev pub map_result : (Command → Command) → Result Command → Result Command
map_result f (ok c) = ok (f c)
map_result f (err e) = err e

-- The transition to a terminal status with the writes that follow it.
unfoldable pub complete : (now clock : ℕ) (lease : String) → Option Json → Command → Result Command
complete now clock lease result c =
    map_result (λ c'. record c' { result = result; completed_at = some now })
      (transition now clock lease (next_status result) (with_result result) c)

abbrev status_text : Status → String
status_text queued = "queued"
status_text dispatched = "dispatched"
status_text acknowledged = "acknowledged"
status_text running = "running"
status_text succeeded = "succeeded"
status_text failed = "failed"
status_text cancelled = "cancelled"
status_text timed_out = "timed_out"
status_text leased = "leased"
status_text timeout = "timeout"

-- The result is stored redacted, and the end of the job is audited.
abbrev pub record_terminal : ℕ → String → Option Json → Command → State → State
record_terminal now device_id result c s =
    audit_append now "job.terminal"
      (obj (text_field "commandId" c.id (text_field "status" (status_text c.status) end)))
      (record s {
        results =
            s.results
            ++ (record {
              command_id = c.id;
              device_id = device_id;
              result = Option.map redact_result result;
              completed_at = now;
            })
              ∷ [];
      })

-- `finish`
unfoldable pub finish :
    (now clock : ℕ) (lease : String)
    → String
    → String
    → Option String
    → Option Json
    → State
    → Outcome State Command
finish now clock lease device_id command_id lease_id result s =
    with_command device_id command_id lease_id s (complete now clock lease result)
      (record_terminal now device_id result)
