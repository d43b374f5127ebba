-- ===== src/Core/Jobs/History.antt =====
-- The calls of `JobService` that change the stored commands, as one step relation's labels, and a
-- history of such calls in any order. A call that throws leaves the state that it had made.
use web_action_recorder_exte.Common.{ℕ, String, Option, List, [], ◌∷◌}
use web_action_recorder_exte.Json.{Json}
use web_action_recorder_exte.Core.Errors.{state_of}
use web_action_recorder_exte.Core.State.{State, Command, DispatchPayload}
use web_action_recorder_exte.Core.Jobs.{
  EnqueueBody, enqueue_legacy_command, lease_next, acknowledge, finish,
}
use web_action_recorder_exte.Core.Jobs.Stops.{
  fail_running_for_device, legacy_result, cancel_command,
}
use web_action_recorder_exte.Core.Jobs.Replay.{set_dispatch_metadata, prepare_replay_dispatches}
use web_action_recorder_exte.Core.Jobs.Batches.{PlanBody, create_dispatch_plan, cancel_batch}

-- The readings of the two clocks and the id of a lease that a call may need.
pub record Readings : Type 0 where
  pub now : ℕ
  pub clock : ℕ
  pub lease : String

pub data Call : Type 0 where
  plans : (batch_id : String) → (ℕ → String) → PlanBody → Call
  enqueues : (id : String) → EnqueueBody → Call
  leases : (device_id : String) → Option ℕ → Call
  acknowledges : (device_id command_id : String) → Option String → Call
  finishes : (device_id command_id : String) → Option String → Option Json → Call
  fails_running : (device_id : String) → Call
  reports : (command_id : String) → Option Json → Call
  cancels : (command_id : String) → Call
  cancels_batch : (batch_id : String) → Call
  keeps_payload : (command_id : String) → DispatchPayload → Call
  replays : (device_id : String) → (Command → String) → (at lease_ms : ℕ) → Call

unfoldable pub step : Readings → Call → State → State
step r (plans b ids body) s = state_of (create_dispatch_plan r.now r.clock b ids body s)
step r (enqueues id body) s = state_of (enqueue_legacy_command r.now id body s)
step r (leases d ms) s = state_of (lease_next r.now r.clock r.lease d ms s)
step r (acknowledges d c l) s = state_of (acknowledge r.now r.clock r.lease d c l s)
step r (finishes d c l result) s = state_of (finish r.now r.clock r.lease d c l result s)
step r (fails_running d) s = state_of (fail_running_for_device r.now r.clock r.lease d s)
step r (reports c result) s = state_of (legacy_result r.now r.clock r.lease c result s)
step r (cancels c) s = state_of (cancel_command r.now r.clock r.lease c s)
step r (cancels_batch b) s = state_of (cancel_batch r.now r.clock r.lease b s)
step r (keeps_payload c payload) s = state_of (set_dispatch_metadata c payload s)
step r (replays d ids at ms) s = state_of (prepare_replay_dispatches r.now r.clock ids at ms d s)

unfoldable pub run : List (Readings × Call) → State → State
unfolding step
run [] s = s
run ((r, c) ∷ calls) s = run calls (step r c s)
