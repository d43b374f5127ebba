-- ===== src/Core/Events/Sealed.antt =====
-- platform/controller-core/src/executionEventStore.js: a terminal job whose end the log holds.
use web_action_recorder_exte.Common.{
  ◌≡◌, refl, sym, arith, ℕ, zero, suc, Bool, true, false, ◌⊎◌, inl, inr, ◌∷◌, [], String, some,
  List, find_first, find_first-holds, get_elem?, str_eq, eq_iff, Bool-cases, Option-cases, truthy,
}
use web_action_recorder_exte.Core.Errors.{
  Result, ok, err, Outcome, state_of, result_of, domain_error_with, job_terminal, invalid_target,
}
use web_action_recorder_exte.Core.State.{
  State, Command, ExecutionEvent, Status, queued, dispatched, acknowledged, running, succeeded,
  failed, cancelled, timed_out, leased, timeout,
}
use web_action_recorder_exte.Core.Transitions.{is_terminal}
use web_action_recorder_exte.Core.Commands.{has_id}
use web_action_recorder_exte.Core.Events.{
  EventBody, append_event, existing_by_key, is_terminal_acknowledgement, has_event_key,
  has_event_type, normalize_status,
}

-- The type that acknowledges a status.
abbrev acknowledgement : Status → String
acknowledgement cancelled = "job_cancelled"
acknowledgement failed = "job_failed"
acknowledgement succeeded = "job_succeeded"
acknowledgement timed_out = "job_timed_out"
acknowledgement _ = ""

acknowledgement-eq :
    (st : Status) (a : String) → is_terminal_acknowledgement st a ≡ true → a ≡ acknowledgement st
unfolding is_terminal_acknowledgement
acknowledgement-eq cancelled a h = ground (arith, eq_iff a "job_cancelled")
acknowledgement-eq failed a h = ground (arith, eq_iff a "job_failed")
acknowledgement-eq succeeded a h = ground (arith, eq_iff a "job_succeeded")
acknowledgement-eq timed_out a h = ground (arith, eq_iff a "job_timed_out")
acknowledgement-eq queued a h = cc
acknowledgement-eq dispatched a h = cc
acknowledgement-eq acknowledged a h = cc
acknowledgement-eq running a h = cc
acknowledgement-eq leased a h = cc
acknowledgement-eq timeout a h = cc

-- What a call answers that adds nothing: an event of the same job and type, at a place of the log,
-- or one of two errors.
abbrev pub IsAnswer : EventBody → List ExecutionEvent → Result ExecutionEvent → Type 0
IsAnswer event log (ok r) =
    (r.job_id ≡ event.job_id)
    × (r.event_type ≡ event.event_type)
    × ((place : ℕ) × (get_elem? log place ≡ some r))
IsAnswer event log (err e) =
    (e ≡ domain_error_with job_terminal 409) ⊎ (e ≡ domain_error_with invalid_target 409)

abbrev AddsNothing : EventBody → State → Outcome State ExecutionEvent → Type 0
AddsNothing event s o = (state_of o ≡ s) × IsAnswer event s.execution_events (result_of o)

find_first-place :
    (p : ExecutionEvent → Bool) (log : List ExecutionEvent) {x : ExecutionEvent}
    → find_first p log ≡ some x
    → (place : ℕ) × (get_elem? log place ≡ some x)
find_first-place p [] h = absurd (cc)
find_first-place p (y ∷ ys) h = elim (Bool-cases (p y)) [
  | inl e ↦ (zero, rw e at h)
  | inr e ↦ let (place, found) = find_first-place p ys (rw e at h) in (suc place, found)
]

existing-AddsNothing :
    (event : EventBody) (s : State) {y : ExecutionEvent}
    → existing_by_key event s ≡ some y
    → (str_eq y.event_type event.event_type ≡ true)
    → IsAnswer event s.execution_events (ok y)
existing-AddsNothing event s {y} h k = elim (Bool-cases (truthy event.idempotency_key)) [
  | inr e ↦ absurd (ground (arith, rw e at h))
  | inl e ↦
      let found : find_first (has_event_key event) s.execution_events ≡ some y = rw e at h in
      let held = find_first-holds (has_event_key event) s.execution_events found in
      (
        (eq_iff y.job_id event.job_id).0 (ground arith),
        (eq_iff y.event_type event.event_type).0 k,
        find_first-place (has_event_key event) s.execution_events found,
      )
]

-- Once the log holds the acknowledgement of a terminal job's status, a call of `appendEvent` for the
-- job that is not for the audit changes nothing in the state, whatever the event's type and key and
-- the time: it returns an event of that job and type that the log holds, or it throws JOB_TERMINAL
-- (409) or INVALID_TARGET (409).
pub append_event-sealed :
    (now : ℕ) (event : EventBody) (job : Command) (event_type : String) (s : State)
    {x : ExecutionEvent}
    → find_first (has_id event.job_id) s.commands ≡ some job
    → is_terminal (normalize_status job.status) ≡ true
    → is_terminal_acknowledgement job.status event_type ≡ true
    → find_first (has_event_type event.job_id event_type) s.execution_events ≡ some x
    → (state_of (append_event now event false s) ≡ s)
      × IsAnswer event s.execution_events (result_of (append_event now event false s))
unfolding append_event
append_event-sealed now event job event_type s {x} f t a e =
    elim (Option-cases (existing_by_key event s)) [
      | inr (y, h) ↦ elim (Bool-cases (str_eq y.event_type event.event_type)) [
        | inl k ↦ rw (h, k) (refl, existing-AddsNothing event s h k)
        | inr k ↦ rw (h, k) (refl, inr refl)
      ]
      | inl h ↦ elim (Bool-cases (is_terminal_acknowledgement job.status event.event_type)) [
        | inr k ↦ rw (h, f, t, k) (refl, inl refl)
        | inl k ↦
            let same : event_type ≡ event.event_type =
              rw (acknowledgement-eq job.status event_type a)
                (sym (acknowledgement-eq job.status event.event_type k)) in
            let found : find_first (has_event_type event.job_id event.event_type) s.execution_events
                ≡ some x =
              rw same at e in
            let held =
              find_first-holds (has_event_type event.job_id event.event_type) s.execution_events
                found in
            let answer : IsAnswer event s.execution_events (ok x) = (
              (eq_iff x.job_id event.job_id).0 (ground arith),
              (eq_iff x.event_type event.event_type).0 (ground arith),
              find_first-place (has_event_type event.job_id event.event_type) s.execution_events
                  found,
            ) in
            rw (h, f, t, k, found) (refl, answer)
      ]
    ]
