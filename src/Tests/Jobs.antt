-- ===== src/Tests/Jobs.antt =====
-- The job service at one command.
use web_action_recorder_exte.Common.{
  find_first, refl, ◌≡◌, ◌≤◌, true, false, none, some, [], ◌∷◌, arith, All, map, get_elem?,
  update_first, ◌↔◌, List,
}
use web_action_recorder_exte.Core.Errors.{
  ok, returns, throws, domain_error, invalid_target, state_of,
}
use web_action_recorder_exte.Core.State.{
  State, Command, leased, queued, dispatched, timed_out, failed,
}
use web_action_recorder_exte.Core.Transitions.{
  companion_to_unified, unified_to_companion, is_terminal, assert_transition,
}
use web_action_recorder_exte.Core.Transitions.Laws
use web_action_recorder_exte.Core.Transitions.Laws.{Accepted}
use web_action_recorder_exte.Companion.Scheduler
use web_action_recorder_exte.Companion.Scheduler.{
  lease_next_command, finish_command, finished_command, find_command,
}
use web_action_recorder_exte.Core.Commands.{
  require_device, transition, requeue_expired, requeue_command, create_command,
}
use web_action_recorder_exte.Core.Jobs.{
  lease_due, finish, acknowledge, lease_next, enqueue_legacy_command, enqueue_fields, is_due,
}
use web_action_recorder_exte.Core.Jobs.Stops.{fail_running_for_device, is_running}
use web_action_recorder_exte.Core.Jobs.Evolution.{IsSound}
use web_action_recorder_exte.Core.Jobs.History.{Readings, Call, run, leases, cancels}
use web_action_recorder_exte.Core.Jobs.Runs
use web_action_recorder_exte.Core.Jobs.Leases
use web_action_recorder_exte.Core.Jobs.Leases.{lease_for}
use web_action_recorder_exte.Core.Jobs.Keys
use web_action_recorder_exte.Core.Jobs.Endings
use web_action_recorder_exte.Tests.Fixtures.{device, command, held, started, done, holding, body}

abbrev readings : Readings
readings = record { now = 10; clock = 10; lease = "l2" }

abbrev calls : List (Readings × Call)
calls = (readings, leases "d1" none) ∷ (readings, cancels "c1") ∷ []

run-terminal_example :
    (d : Command) × (get_elem? (run calls (holding done)).commands 0 ≡ some d)
    × ("c1" ≡ d.id)
    × ("d1" ≡ d.device_id)
    × (1 ≤ d.attempt)
    × (companion_to_unified d.status ≡ companion_to_unified done.status)
run-terminal_example = Runs.run-terminal calls (holding done) 0 refl refl

run-IsSound_example : All IsSound (run calls (holding command)).commands
run-IsSound_example =
    Runs.run-IsSound calls (holding command)
      (record { capped = omega arith; spare = λ _. omega arith; held = λ e. cc }, tt)

finish-ended_lease_example :
    (finish 200 200 "l2" "d1" "c1" (some "l1") none (requeue_expired 150 (holding held))
      ≡ throws (domain_error invalid_target) (requeue_expired 150 (holding held)))
    × (acknowledge 200 200 "l2" "d1" "c1" (some "l1") (requeue_expired 150 (holding held))
        ≡ throws (domain_error invalid_target) (requeue_expired 150 (holding held)))
unfolding require_device
finish-ended_lease_example =
    Leases.finish-ended_lease 200 200 150 "l2" "d1" "c1" "l1" none (holding held) device held 100
      refl refl refl refl (omega arith) (omega arith)

abbrev handed : Command
handed = record command {
  status = leased;
  attempt = 1;
  lease_id = some "l2";
  lease_until = some 30050;
  started_at = some 40;
}

lease_next_lem_example :
    let requeued = map (requeue_command 50) (holding command).commands in
    (x : Command) × (find_first (is_due 50 "d1") requeued ≡ some x)
    × (x.device_id ≡ "d1")
    × (x.not_before ≤ 50)
    × (handed ≡ lease_for 40 50 "l2" none x)
    × (state_of (lease_next 40 50 "l2" "d1" none (holding command))
        ≡ record (requeue_expired 50 (holding command)) {
          commands = update_first (is_due 50 "d1") (λ _. handed) requeued;
        })
unfolding lease_next lease_due transition assert_transition requeue_command
lease_next_lem_example =
    Leases.lease_next_lem 40 50 "l2" "d1" none (holding command)
      (state_of (lease_next 40 50 "l2" "d1" none (holding command))) refl

abbrev enqueued : State
enqueued = state_of (enqueue_legacy_command 5 "c9" body (holding command))

enqueue-repeated_example :
    enqueue_legacy_command 7 "c10" body enqueued
    ≡ returns (create_command 5 (enqueue_fields "c9" "d1" body)) enqueued
unfolding enqueue_legacy_command
enqueue-repeated_example =
    Keys.enqueue-repeated 5 7 "c9" "c10" body (holding command) enqueued refl refl

fail_running-ends_example :
    (listed : List Command) × (t : State) × (fail_running_for_device 9 9 "l" "d1" (holding started)
      ≡ returns listed t)
    × All (λ c. is_running "d1" c ≡ false) t.commands
fail_running-ends_example = Endings.fail_running-ends 9 9 "l" "d1" (holding started)

assert_transition_iff_example :
    (assert_transition queued dispatched none none ≡ ok tt) ↔ Accepted queued dispatched none none
assert_transition_iff_example = Laws.assert_transition_iff queued dispatched none none

companion_round_trip_example :
    (companion_to_unified (unified_to_companion timed_out) ≡ failed)
    × (is_terminal (companion_to_unified (unified_to_companion timed_out)) ≡ true)
companion_round_trip_example = Laws.companion_round_trip timed_out refl

lease_next_command-lease_next_example :
    lease_next_command 50 "l2" "d1" 1000 (holding command)
    ≡ lease_next 50 50 "l2" "d1" (some 1000) (holding command)
lease_next_command-lease_next_example =
    Scheduler.Laws.lease_next_command-lease_next 50 "l2" "d1" 1000 (holding command) (omega arith)
      refl
