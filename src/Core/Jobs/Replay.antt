-- ===== src/Core/Jobs/Replay.antt =====
-- platform/controller-core/src/jobService.js: `setDispatchMetadata` and `prepareReplayDispatches`,
-- which keep what was dispatched and hand it out again to an agent that comes back.
use web_action_recorder_exte.Common.{
  ℕ, String, Bool, true, false, not, ◌&&◌, Option, none, some, List, [], ◌∷◌, if◌then◌else◌,
  is_some,
}
use web_action_recorder_exte.Core.Errors.{Error, Result, ok, err, Outcome, returns, throws}
use web_action_recorder_exte.Core.State.{State, Command, DispatchPayload, queued, dispatched}
use web_action_recorder_exte.Core.Transitions.{is_terminal, status_eq, companion_to_unified}
use web_action_recorder_exte.Core.Commands.{transition, is_of_device, requeue_expired}
use web_action_recorder_exte.Core.Jobs.Stops.{with_found}

-- `setDispatchMetadata`
unfoldable pub set_dispatch_metadata : String → DispatchPayload → State → Outcome State Command
set_dispatch_metadata command_id payload s =
    with_found command_id s (λ c. ok (record c { dispatch_metadata = some payload })) (λ _ s'. s')

-- The kept payload under the command's present lease.
abbrev pub refreshed : Command → DispatchPayload → DispatchPayload
refreshed c payload = record payload { lease_id = c.lease_id; deadline = c.lease_until }

abbrev pub lease_queued :
    (now clock : ℕ) (lease : String) (at lease_ms : ℕ) → Command → Result Command
lease_queued now clock lease at lease_ms c =
    if status_eq (companion_to_unified c.status) queued
    then transition now clock lease dispatched
        (record { result = none; lease_ms = some lease_ms; now = some at }) c
    else ok c

-- A command that the loop passes over: another device's, a terminal one, one with no payload.
abbrev pub is_replayed : String → Command → Bool
is_replayed device_id c =
    is_of_device device_id c
    && not (is_terminal (companion_to_unified c.status))
    && is_some c.dispatch_metadata

-- The commands and payloads so far, and the error that ended the loop.
pub record Replayed : Type 0 where
  pub commands : List Command
  pub payloads : List DispatchPayload
  pub thrown : Option Error

abbrev keep : Command → Replayed → Replayed
keep c r = record r { commands = c ∷ r.commands }

abbrev pub add_payload : Option DispatchPayload → Command → Replayed → Replayed
add_payload none c r = keep c r
add_payload (some m) c r = record r {
  commands = record c { dispatch_metadata = some (refreshed c m) } ∷ r.commands;
  payloads = refreshed c m ∷ r.payloads;
}

-- The loop of `prepareReplayDispatches`; `lease c` is the id of the new lease of
-- command `c`. A throw would
-- drop the payloads with the call.
unfoldable pub replay_loop :
    (now clock : ℕ) (lease : Command → String) (at lease_ms : ℕ) (device_id : String)
    → List Command
    → Replayed
replay_loop now clock lease at lease_ms device_id [] = record {
  commands = [];
  payloads = [];
  thrown = none;
}
replay_loop now clock lease at lease_ms device_id (c ∷ cs) =
    let rest = replay_loop now clock lease at lease_ms device_id cs in
    elim (is_replayed device_id c) [
      | false ↦ keep c rest
      | true ↦ elim (lease_queued now clock (lease c) at lease_ms c) [
        | err e ↦ record { commands = c ∷ cs; payloads = []; thrown = some e }
        | ok c' ↦ add_payload c.dispatch_metadata c' rest
      ]
    ]

abbrev pub finish_replay : State → Replayed → Outcome State (List DispatchPayload)
finish_replay s r = elim r.thrown [
  | none ↦ returns r.payloads (record s { commands = r.commands })
  | some e ↦ throws e (record s { commands = r.commands })
]

-- `prepareReplayDispatches`; the service calls it with `now`, here `at`, and the default lease.
unfoldable pub prepare_replay_dispatches :
    (now clock : ℕ) (lease : Command → String) (at lease_ms : ℕ) (device_id : String)
    → State
    → Outcome State (List DispatchPayload)
prepare_replay_dispatches now clock lease at lease_ms device_id s =
    let s' = requeue_expired at s in
    finish_replay s' (replay_loop now clock lease at lease_ms device_id s'.commands)
