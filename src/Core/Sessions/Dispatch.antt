-- ===== src/Core/Sessions/Dispatch.antt =====
-- platform/controller-core/src/sessionManager.js: the calls on jobs, `dispatch`, `cancel`,
-- `receiveExecutionEvent`, `replayNonTerminal`, and the ledger that `remember` keeps. Readings of
-- clocks: `now` is `this.now()` of the manager and of the services, `clock` is `Date.now()`; `lease`
-- and `id` are the ids that a call draws.
use Prim.Native.String.{◌++◌ as text_append}
use web_action_recorder_exte.Common.{
  ℕ, ◌-◌, max, leb, ltb, Bool, true, false, not, ◌&&◌, String, str_eq, Option, none, some, List, [],
  ◌∷◌, ◌++◌, any, drop, length, find_first, update_first, keep_if, get_or_else, if◌then◌else◌,
}
use web_action_recorder_exte.Json.{Json, obj, bool, field, end}
use web_action_recorder_exte.Core.Errors.{
  Result, ok, err, Outcome, returns, throws, or_throw, if_found, domain_error_with, invalid_target,
  job_expired, workflow_hash_mismatch,
}
use web_action_recorder_exte.Core.State.{
  State, Command, DispatchPayload, ExecutionEvent, dispatched, WorkflowRevision,
}
use web_action_recorder_exte.Core.Transitions.{status_eq, companion_to_unified}
use web_action_recorder_exte.Core.Commands.{has_id}
use web_action_recorder_exte.Core.Events.{EventBody, append_event}
use web_action_recorder_exte.Core.Jobs.{
  EnqueueBody, enqueue_legacy_command, lease_next, acknowledge, finish,
}
use web_action_recorder_exte.Core.Jobs.Stops.{cancel_command}
use web_action_recorder_exte.Core.Jobs.Replay.{set_dispatch_metadata, prepare_replay_dispatches}
use web_action_recorder_exte.Core.Workflows.{get_revision}
use web_action_recorder_exte.Core.Sessions.{
  Manager, Session, SessionConfig, PendingJob, LedgerEntry, Remembered, dispatch_result,
  cancel_result, on_core, require_session, write_session,
}

abbrev pub has_entry : String → LedgerEntry → Bool
has_entry key entry = str_eq entry.key key

abbrev pub set_entry : LedgerEntry → List LedgerEntry → List LedgerEntry
set_entry entry entries =
    if any (has_entry entry.key) entries
    then update_first (has_entry entry.key) (λ _. entry) entries
    else entries ++ entry ∷ []

-- `remember`: past its limit the ledger drops its oldest key.
unfoldable pub remember : SessionConfig → String → Remembered → Manager → Manager
remember config key value m =
    let entries = set_entry (record { key = key; value = value }) m.idempotency in
    record m {
      idempotency = if ltb config.max_idempotency (length entries) then drop 1 entries else entries;
    }

abbrev pub find_remembered : String → Manager → Option LedgerEntry
find_remembered key m = find_first (has_entry key) m.idempotency

abbrev has_job : String → PendingJob → Bool
has_job job_id job = str_eq job.job_id job_id

abbrev set_pending : PendingJob → Session → Session
set_pending job session = record session {
  pending_jobs =
      if any (has_job job.job_id) session.pending_jobs
      then update_first (has_job job.job_id) (λ _. job) session.pending_jobs
      else session.pending_jobs ++ job ∷ [];
}

abbrev delete_pending : String → Session → Session
delete_pending job_id session = record session {
  pending_jobs = keep_if (λ j. not (has_job job_id j)) session.pending_jobs;
}

pub record DispatchRequest : Type 0 where
  pub device_id : String
  pub generation : Option ℕ
  pub workflow_id : String
  pub workflow_revision : ℕ
  pub workflow_content_hash : String
  pub inputs : Json
  pub deadline : Option ℕ
  pub idempotency_key : String

abbrev pub dispatch_key : DispatchRequest → String
dispatch_key r = text_append "dispatch:" r.idempotency_key

abbrev pub dispatch_body : DispatchRequest → EnqueueBody
dispatch_body r = record {
  kind = "run_profile";
  device_id = some r.device_id;
  profile_id = some r.workflow_id;
  run_id = none;
  inputs = some r.inputs;
  idempotency_key = some r.idempotency_key;
}

abbrev pub dispatch_payload : DispatchRequest → ℕ → Command → DispatchPayload
dispatch_payload r deadline leased = record {
  job_id = leased.id;
  workflow_id = r.workflow_id;
  workflow_revision = r.workflow_revision;
  workflow_content_hash = r.workflow_content_hash;
  inputs = r.inputs;
  deadline = some deadline;
  idempotency_key = some r.idempotency_key;
  lease_id = leased.lease_id;
}

-- The job is noted at the session, and the result in the ledger.
abbrev pub note_dispatch :
    SessionConfig
    → DispatchRequest
    → (job_id : String) → Command
    → DispatchPayload
    → Manager
    → Outcome Manager Remembered
note_dispatch config r job_id command payload m =
    let result = dispatch_result command payload in
    returns result (
      remember config (dispatch_key r) result (
        write_session r.device_id
          (set_pending (record { job_id = job_id; payload = payload; generation = r.generation }))
          m))

-- From a leased command on.
abbrev pub dispatch_leased :
    SessionConfig
    → DispatchRequest
    → (deadline : ℕ) → Manager
    → Command
    → Outcome Manager Remembered
dispatch_leased config r deadline m leased =
    let payload = dispatch_payload r deadline leased in
    on_core m (set_dispatch_metadata leased.id payload m.core)
      λ persisted m'. note_dispatch config r leased.id persisted payload m'

-- From the leasing of a command on.
abbrev pub lease_and_note :
    SessionConfig
    → (now clock : ℕ) → (lease : String) → DispatchRequest
    → (deadline : ℕ) → Manager
    → Outcome Manager Remembered
lease_and_note config now clock lease r deadline m =
    on_core m (lease_next now clock lease r.device_id (some (max 1000 (deadline - now))) m.core)
      λ found m'.
        if_found found (throws (domain_error_with invalid_target 409) m')
          (dispatch_leased config r deadline m')

-- From the command that was enqueued, or found under its key, on.
abbrev pub dispatch_enqueued :
    SessionConfig
    → (now clock : ℕ) → (lease : String) → DispatchRequest
    → (deadline : ℕ) → Command
    → Manager
    → Outcome Manager Remembered
dispatch_enqueued config now clock lease r deadline command m =
    if_found command.dispatch_metadata (lease_and_note config now clock lease r deadline m)
      λ kept. note_dispatch config r command.id command kept m

-- From the workflow on.
abbrev pub dispatch_workflow :
    SessionConfig
    → (now clock : ℕ) → (lease id : String) → DispatchRequest
    → (deadline : ℕ) → Manager
    → WorkflowRevision
    → Outcome Manager Remembered
dispatch_workflow config now clock lease id r deadline m workflow =
    if not (str_eq workflow.content_hash r.workflow_content_hash)
    then throws (domain_error_with workflow_hash_mismatch 409) m
    else on_core m (enqueue_legacy_command now id (dispatch_body r) m.core)
        (dispatch_enqueued config now clock lease r deadline)

-- From the look-up of the workflow on.
abbrev pub dispatch_new :
    SessionConfig
    → (now clock : ℕ) → (lease id : String) → DispatchRequest
    → (deadline : ℕ) → Manager
    → Outcome Manager Remembered
dispatch_new config now clock lease id r deadline m =
    or_throw m (get_revision r.workflow_id r.workflow_revision m.core)
      (dispatch_workflow config now clock lease id r deadline m)

-- `!deadline || Date.parse(deadline) <= now`
abbrev pub is_over : ℕ → Option ℕ → Bool
is_over now none = true
is_over now (some deadline) = leb deadline now

-- `dispatch` of a live session
abbrev pub dispatch_live :
    SessionConfig
    → (now clock : ℕ) → (lease id : String) → DispatchRequest
    → Manager
    → Outcome Manager Remembered
dispatch_live config now clock lease id r m =
    if is_over now r.deadline
    then throws (domain_error_with job_expired 408) m
    else if_found (find_remembered (dispatch_key r) m)
        (dispatch_new config now clock lease id r (get_or_else r.deadline 0) m)
        (λ existing. returns existing.value m)

-- `dispatch`
unfoldable pub dispatch :
    SessionConfig
    → (now clock : ℕ) → (lease id : String) → DispatchRequest
    → Manager
    → Outcome Manager Remembered
dispatch config now clock lease id r m =
    or_throw m (require_session m r.device_id r.generation)
      λ _. dispatch_live config now clock lease id r m

abbrev pub get_command : State → String → Result Command
get_command s command_id = elim (find_first (has_id command_id) s.commands) [
  | none ↦ err (domain_error_with invalid_target 404)
  | some c ↦ ok c
]

-- `cancel`
unfoldable pub cancel :
    SessionConfig
    → (now clock : ℕ) → (lease device_id : String) → (generation : Option ℕ)
    → (job_id idempotency_key : String) → Manager
    → Outcome Manager Remembered
unfolding remember
cancel config now clock lease device_id generation job_id idempotency_key m =
    let key = text_append "cancel:" idempotency_key in
    or_throw m (require_session m device_id generation) λ _.
      if_found (find_remembered key m)
        (or_throw m (get_command m.core job_id) λ job.
          if not (str_eq job.device_id device_id)
          then throws (domain_error_with invalid_target 409) m
          else on_core m (cancel_command now clock lease job_id m.core) λ cancelled m'.
            let result = cancel_result cancelled in
            returns result
              (remember config key result (write_session device_id (delete_pending job_id) m')))
        (λ existing. returns existing.value m)

-- `envelope.type`
pub data EnvelopeType : Type 0 where
  agent_execution_event execution_event execution_result execution_cancelled : EnvelopeType

abbrev is_event : EnvelopeType → Bool
is_event agent_execution_event = true
is_event execution_event = true
is_event _ = false

-- An accepted execution envelope; `result` is its payload's.
pub record ExecutionEnvelope : Type 0 where
  pub kind : EnvelopeType
  pub deadline : ℕ
  pub device_id : String
  pub generation : Option ℕ
  pub session_id : String
  pub job_id : String
  pub event : EventBody
  pub result : Option Json

abbrev pub is_dispatched : Command → Bool
is_dispatched c = status_eq (companion_to_unified c.status) dispatched

-- `acknowledge` where the command, as it was read before the event was appended, is dispatched.
abbrev acknowledge_if :
    Bool
    → (now clock : ℕ) → (lease device_id : String) → Command
    → Manager
    → (Manager → Outcome Manager ExecutionEvent)
    → Outcome Manager ExecutionEvent
acknowledge_if false now clock lease device_id c m next = next m
acknowledge_if true now clock lease device_id c m next =
    on_core m (acknowledge now clock lease device_id c.id c.lease_id m.core) (λ _. next)

abbrev pub result_or : Option Json → String → Json
result_or none event_type = obj (field "ok" (bool (str_eq event_type "job_succeeded")) end)
result_or (some r) event_type = r

-- What each type of envelope does once its event is in the log.
abbrev pub apply_envelope :
    (now clock : ℕ)
    → (lease device_id : String) → ExecutionEnvelope
    → Command
    → ExecutionEvent
    → Manager
    → Outcome Manager ExecutionEvent
apply_envelope now clock lease device_id e c event m = elim e.kind [
  | execution_result ↦ acknowledge_if (is_dispatched c) now clock lease device_id c m λ m'.
      on_core m'
        (finish now clock lease device_id c.id c.lease_id
          (some (result_or e.result e.event.event_type)) m'.core)
        λ _ m''. returns event (write_session device_id (delete_pending c.id) m'')
  | execution_cancelled ↦ returns event (write_session device_id (delete_pending c.id) m)
  | _ ↦
      acknowledge_if (str_eq e.event.event_type "job_started" && is_dispatched c) now clock lease
        device_id c m λ m'. returns event m'
]

-- `receiveExecutionEvent`, after the check of the envelope
unfoldable pub receive_execution_event :
    (now clock : ℕ)
    → (lease : String) → ExecutionEnvelope
    → Manager
    → Outcome Manager ExecutionEvent
receive_execution_event now clock lease e m =
    if leb e.deadline now
    then throws (domain_error_with job_expired 408) m
    else or_throw m (require_session m e.device_id e.generation) λ session.
      or_throw m (get_command m.core e.job_id) λ command.
        if not (str_eq command.device_id session.device_id)
        then throws (domain_error_with invalid_target 409) m
        else if not (str_eq e.session_id session.session_id)
        then throws (domain_error_with invalid_target 409) m
        else on_core m
            (append_event now
              (record (e.event) { device_id = some session.device_id; job_id = command.id }) false
              m.core)
            (apply_envelope now clock lease session.device_id e command)

abbrev note_replayed : Option ℕ → List DispatchPayload → Session → Session
note_replayed generation [] session = session
note_replayed generation (p ∷ ps) session =
    note_replayed generation ps
      (set_pending (record { job_id = p.job_id; payload = p; generation = generation }) session)

-- `replayNonTerminal`; `leases` are the ids of the new leases.
unfoldable pub replay_non_terminal :
    (now clock : ℕ)
    → (leases : Command → String) → (device_id : String) → (generation : Option ℕ) → Manager
    → Outcome Manager (List DispatchPayload)
replay_non_terminal now clock leases device_id generation m =
    or_throw m (require_session m device_id generation) λ _.
      on_core m (prepare_replay_dispatches now clock leases now 300000 device_id m.core)
        λ replay m'. returns replay (write_session device_id (note_replayed generation replay) m')
