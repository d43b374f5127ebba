-- ===== src/Tests/Logs.antt =====
-- Execution events, redaction, assignments and the access policy at small inputs.
use mathlib.Core.Option
use web_action_recorder_exte.Common.{
  String, List, ◌∷◌, ◌≡◌, refl, arith, none, some, [], true, false,
}
use web_action_recorder_exte.Json.{Json, empty_object, obj, str, field, end}
use web_action_recorder_exte.Json.Redact
use web_action_recorder_exte.Core.Errors.{state_of, result_of, ok}
use web_action_recorder_exte.Core.State.{State}
use web_action_recorder_exte.Core.Events
use web_action_recorder_exte.Core.Events.{
  EventBody, append_event, list_recent, Query, next_event, is_terminal_acknowledgement,
}
use web_action_recorder_exte.Core.Events.Laws.{IsWellKept, IsNumbered}
use web_action_recorder_exte.Core.Events.Sealed.{IsAnswer}
use web_action_recorder_exte.Tests.Fixtures.{held, done, holding}

abbrev event : EventBody
event = record {
  sequence = none;
  sent_at = none;
  job_id = "c1";
  device_id = some "d1";
  event_type = "job_succeeded";
  idempotency_key = some "e1";
  detail = empty_object;
}

abbrev logged : State
logged = state_of (append_event 5 event false (holding held))

abbrev acknowledged_log : State
acknowledged_log = state_of (append_event 5 event true (holding done))

abbrev late_step : EventBody
late_step = record event { event_type = "step"; idempotency_key = none }

append_event-sealed_example :
    (state_of (append_event 9 late_step false acknowledged_log) ≡ acknowledged_log)
    × IsAnswer late_step acknowledged_log.execution_events
        (result_of (append_event 9 late_step false acknowledged_log))
unfolding append_event is_terminal_acknowledgement
append_event-sealed_example =
    Events.Sealed.append_event-sealed 9 late_step done "job_succeeded" acknowledged_log refl refl
      refl refl

append_event-IsWellKept_example : IsWellKept logged
append_event-IsWellKept_example =
    Events.Laws.append_event-IsWellKept 5 event false (holding held) (omega arith, tt)

abbrev query : Query
query = record { job_id = none; device_id = none; limit = 50; after_sequence = 5001 }

list_recent-after_full_example : IsNumbered logged × (list_recent query logged ≡ ok [])
list_recent-after_full_example =
    Events.Laws.list_recent-after_full 5 event false query (holding held) (omega arith, tt) refl
      (omega arith) (omega arith) (omega arith)

abbrev login : Json
login = obj (field "user" (obj (field "password" (str "hunter2") end)) end)

abbrev login_path : List String
login_path = "user" ∷ []
