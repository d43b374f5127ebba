-- ===== src/Core/Events.antt =====
-- platform/controller-core/src/executionEventStore.js: the log of the jobs' execution events, the
-- last five thousand. The store's clone of an event is the event.
pub mod Laws
pub mod Sealed
use web_action_recorder_exte.Common.{
  ℕ, ◌+◌, Bool, true, false, not, ◌&&◌, ◌||◌, ltb, str_eq, opt_eq, truthy, String, Option, none,
  some, List, length, push_bounded, take_last, find_first, keep_if, get_or_else, if◌then◌else◌,
}
use web_action_recorder_exte.Json.{Json}
use web_action_recorder_exte.Json.Redact.{redact_event}
use web_action_recorder_exte.Core.Errors.{
  Result, ok, err, Outcome, returns, throws, if_found, domain_error, domain_error_with,
  invalid_target, job_terminal,
}
use web_action_recorder_exte.Core.State.{
  State, Command, ExecutionEvent, Status, succeeded, failed, cancelled, timed_out, dispatched,
  leased,
}
use web_action_recorder_exte.Core.Transitions.{status_eq, is_terminal}
use web_action_recorder_exte.Core.Commands.{has_id}

-- What a caller of `appendEvent` hands in. `detail` is the object of all further fields; the names
-- of the fields here match no sensitive word, so that `redactEvent` leaves their texts.
pub record EventBody : Type 0 where
  pub sequence : Option ℕ
  pub sent_at : Option ℕ
  pub job_id : String
  pub device_id : Option String
  pub event_type : String
  pub idempotency_key : Option String
  pub detail : Json

abbrev pub event_limit : ℕ
event_limit = 5000

abbrev pub normalize_status : Status → Status
normalize_status leased = dispatched
normalize_status s = s

unfoldable pub is_terminal_acknowledgement : Status → String → Bool
is_terminal_acknowledgement status event_type =
    status_eq (normalize_status status) cancelled && str_eq event_type "job_cancelled"
    || status_eq (normalize_status status) failed && str_eq event_type "job_failed"
    || status_eq (normalize_status status) succeeded && str_eq event_type "job_succeeded"
    || status_eq (normalize_status status) timed_out && str_eq event_type "job_timed_out"

abbrev pub has_event_key : EventBody → ExecutionEvent → Bool
has_event_key event item =
    str_eq item.job_id event.job_id && opt_eq item.idempotency_key event.idempotency_key

abbrev pub has_event_type : String → String → ExecutionEvent → Bool
has_event_type job_id event_type item =
    str_eq item.job_id job_id && str_eq item.event_type event_type

-- The new entry: `...redactEvent(event)` comes last, so that a `sequence` of the body takes the
-- place of the log's own.
abbrev pub next_event : ℕ → EventBody → List ExecutionEvent → ExecutionEvent
next_event now event log = record {
  sequence = get_or_else event.sequence (length log + 1);
  sent_at = get_or_else event.sent_at now;
  job_id = event.job_id;
  device_id = event.device_id;
  event_type = event.event_type;
  idempotency_key = event.idempotency_key;
  detail = redact_event event.detail;
}

-- The tail of `appendEvent`: the entry is pushed and the log cut.
abbrev pub push_event : ℕ → EventBody → State → Outcome State ExecutionEvent
push_event now event s =
    let next = next_event now event s.execution_events in
    returns next (record s { execution_events = push_bounded event_limit s.execution_events next })

abbrev pub existing_by_key : EventBody → State → Option ExecutionEvent
existing_by_key event s =
    if truthy event.idempotency_key
    then find_first (has_event_key event) s.execution_events
    else none

-- `job && TERMINAL_STATUSES.has(normalizeStatus(job.status)) && !auditOnly`
abbrev pub is_sealed : Option Command → Bool → Bool
is_sealed none audit_only = false
is_sealed (some job) audit_only = is_terminal (normalize_status job.status) && not audit_only

abbrev pub acknowledges : Option Command → EventBody → Bool
acknowledges none event = false
acknowledges (some job) event = is_terminal_acknowledgement job.status event.event_type

abbrev append_new : ℕ → EventBody → Bool → Option Command → State → Outcome State ExecutionEvent
append_new now event audit_only job s =
    if is_sealed job audit_only
    then (if not (acknowledges job event)
        then throws (domain_error_with job_terminal 409) s
        else if_found (find_first (has_event_type event.job_id event.event_type) s.execution_events)
            (push_event now event s) (λ existing. returns existing s))
    else push_event now event s

-- `appendEvent`
unfoldable pub append_event :
    ℕ → EventBody → (audit_only : Bool) → State → Outcome State ExecutionEvent
append_event now event audit_only s =
    if_found (existing_by_key event s)
      (append_new now event audit_only (find_first (has_id event.job_id) s.commands) s)
      (λ existing.
        if not (str_eq existing.event_type event.event_type)
        then throws (domain_error_with invalid_target 409) s
        else returns existing s)

-- `listByJob`, `listByDevice`
abbrev pub list_by_job : String → State → List ExecutionEvent
list_by_job job_id s = keep_if (λ e. str_eq e.job_id job_id) s.execution_events

abbrev pub list_by_device : String → State → List ExecutionEvent
list_by_device device_id s = keep_if (λ e. opt_eq e.device_id (some device_id)) s.execution_events

pub record Query : Type 0 where
  pub job_id : Option String
  pub device_id : Option String
  pub limit : ℕ
  pub after_sequence : ℕ

abbrev pub matches_query : Query → ExecutionEvent → Bool
matches_query q e =
    ltb q.after_sequence e.sequence
    && (not (truthy q.job_id) || opt_eq (some e.job_id) q.job_id)
    && (not (truthy q.device_id) || opt_eq e.device_id q.device_id)

-- `listRecent`, asked with integers.
unfoldable pub list_recent : Query → State → Result (List ExecutionEvent)
list_recent q s =
    if ltb q.limit 1 || ltb 200 q.limit
    then err (domain_error invalid_target)
    else ok (take_last q.limit (keep_if (matches_query q) s.execution_events))
