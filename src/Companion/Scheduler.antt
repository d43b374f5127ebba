-- ===== src/Companion/Scheduler.antt =====
-- companion/scheduler.js: the companion's own queue operations, on the state that the job service
-- works on. `now` is the one reading of the clock in a call; a lease id is an argument.
pub mod Laws
use web_action_recorder_exte.Common.{
  ℕ, suc, ◌+◌, Bool, true, false, not, ◌&&◌, ◌||◌, leb, String, opt_eq, Option, none, some, List,
  [], ◌∷◌, ◌++◌, find_first, update_first, get_or_else, if◌then◌else◌, map,
}
use web_action_recorder_exte.Json.{Json, obj, ok_is_false}
use web_action_recorder_exte.Core.Errors.{
  Result, ok, err, Outcome, returns, throws, or_throw, if_found, domain_error, plain_error, ◌>>=◌,
}
use web_action_recorder_exte.Core.State.{
  State, Command, Status, queued, dispatched, running, succeeded, failed, cancelled, JobResult,
}
use web_action_recorder_exte.Core.Transitions.{
  assert_transition, status_eq, companion_to_unified, unified_to_companion,
}
use web_action_recorder_exte.Core.Commands.{
  is_command, is_of_device, requeue_expired, create_command, CommandFields,
}
use web_action_recorder_exte.Core.Dataset.{AssignmentRequest, Assignment, build_dataset_assignments}
use web_action_recorder_exte.Core.Jobs.{next_status}

-- One command of `buildAssignments`: `create_command` with no optional field.
abbrev assigned_command :
    (now : ℕ) (id kind : String) (profile_id : Option String) → Assignment → Command
assigned_command now id kind profile_id assignment = create_command now (record {
  id = id;
  device_id = assignment.device_id;
  kind = kind;
  profile_id = profile_id;
  run_id = none;
  inputs = some (obj assignment.inputs);
  not_before = some now;
  batch_id = none;
  target_snapshot = none;
  idempotency_key = none;
})

abbrev assigned_commands :
    (now : ℕ) (ids : ℕ → String) (kind : String) (profile_id : Option String)
    → ℕ
    → List Assignment
    → List Command
assigned_commands now ids kind profile_id i [] = []
assigned_commands now ids kind profile_id i (a ∷ rest) =
    assigned_command now (ids i) kind profile_id a
    ∷ assigned_commands now ids kind profile_id (suc i) rest

-- `buildAssignments`; `ids` are the random ids, in the order in which they are drawn.
unfoldable pub build_assignments :
    (now : ℕ) (ids : ℕ → String) (kind : String) (profile_id : Option String)
    → AssignmentRequest
    → Result (List Command)
build_assignments now ids kind profile_id r =
    build_dataset_assignments r >>= λ xs. ok (assigned_commands now ids kind profile_id 0 xs)

abbrev pub is_waiting : ℕ → String → Command → Bool
is_waiting now device_id c =
    is_of_device device_id c && (status_eq c.status queued && leb c.not_before now)

abbrev pub leased_command : (now : ℕ) (lease : String) (lease_ms : ℕ) → Command → Command
leased_command now lease lease_ms c = record c {
  status = unified_to_companion dispatched;
  attempt = c.attempt + 1;
  lease_id = some lease;
  lease_until = some (now + lease_ms);
  started_at = some (get_or_else c.started_at now);
}

-- `leaseNextCommand`
unfoldable pub lease_next_command :
    (now : ℕ) (lease device_id : String) (lease_ms : ℕ) → State → Outcome State (Option Command)
lease_next_command now lease device_id lease_ms s =
    let s' = requeue_expired now s in
    if_found (find_first (is_waiting now device_id) s'.commands) (returns none s') λ c.
      or_throw s' (assert_transition (companion_to_unified c.status) dispatched none none) λ _.
        let held = leased_command now lease lease_ms c in
        returns (some held)
          (record s' { commands = update_first (is_waiting now device_id) (λ _. held) s'.commands })

-- `findCommand`
unfoldable pub find_command : State → String → String → Option String → Result Command
find_command s device_id command_id lease_id =
    elim (find_first (is_command device_id command_id) s.commands) [
      | none ↦ err (domain_error plain_error)
      | some c ↦ if opt_eq c.lease_id lease_id then ok c else err (domain_error plain_error)
    ]

abbrev pub put_command : String → String → Command → State → State
put_command device_id command_id c s = record s {
  commands = update_first (is_command device_id command_id) (λ _. c) s.commands;
}

-- `ackCommand`
unfoldable pub ack_command : String → String → Option String → State → Outcome State Command
ack_command device_id command_id lease_id s =
    or_throw s (find_command s device_id command_id lease_id) λ c.
      or_throw s (assert_transition (companion_to_unified c.status) running none none) λ _.
        let c' : Command = record c { status = running } in
        returns c' (put_command device_id command_id c' s)

-- `['succeeded', 'failed', 'cancelled'].includes(status)`
abbrev pub is_finished : Status → Bool
is_finished s = status_eq s succeeded || (status_eq s failed || status_eq s cancelled)

abbrev pub finished_command : ℕ → Option Json → Command → Command
finished_command now result c = record c {
  status = next_status result;
  result = result;
  completed_at = some now;
}

-- The tail of `finishCommand`, once the command is found and the change of status allowed.
abbrev pub finish_checked :
    ℕ → String → String → Option Json → Command → State → Outcome State Command
finish_checked now device_id command_id result c s =
    if is_finished c.status
    then returns c s
    else let c' = finished_command now result c in
      let t = put_command device_id command_id c' s in
      returns c' (record t {
        results =
            t.results
            ++ (record {
              command_id = command_id;
              device_id = device_id;
              result = result;
              completed_at = now;
            })
              ∷ [];
      })

-- `finishCommand`: the result is stored as it is given.
unfoldable pub finish_command :
    (now : ℕ) (device_id command_id : String) (lease_id : Option String)
    → Option Json
    → State
    → Outcome State Command
finish_command now device_id command_id lease_id result s =
    or_throw s (find_command s device_id command_id lease_id) λ c.
      or_throw s
        (assert_transition (companion_to_unified c.status) (next_status result) c.result result)
        λ _. finish_checked now device_id command_id result c s
