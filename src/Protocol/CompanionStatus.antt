-- ===== src/Protocol/CompanionStatus.antt =====
-- platform/protocol/src/companionStatusAdapter.js: the companion's commands as execution jobs.
use web_action_recorder_exte.Common.{
  ℕ, String, Bool, true, false, Option, none, some, get_or_else, truthy, if◌then◌else◌, ◌≡◌, refl,
  is_some, Bool-cases, inl, inr,
}
use web_action_recorder_exte.Core.Errors.{Result, ok, err, domain_error, plain_error, ◌>>=◌}
use web_action_recorder_exte.Core.State.{
  Status, queued, dispatched, acknowledged, running, succeeded, failed, cancelled, timed_out,
  leased, timeout, Command,
}
use web_action_recorder_exte.Core.Transitions.{companion_to_unified}

-- `mapCompanionStatusToExecutionJobStatus`, on the texts that a command's status has
unfoldable pub map_companion_status_to_execution_job_status : Status → Result Status
map_companion_status_to_execution_job_status queued = ok queued
map_companion_status_to_execution_job_status leased = ok dispatched
map_companion_status_to_execution_job_status running = ok running
map_companion_status_to_execution_job_status succeeded = ok succeeded
map_companion_status_to_execution_job_status failed = ok failed
map_companion_status_to_execution_job_status cancelled = ok cancelled
map_companion_status_to_execution_job_status timeout = ok timed_out
map_companion_status_to_execution_job_status timed_out = ok timed_out
map_companion_status_to_execution_job_status dispatched = err (domain_error plain_error)
map_companion_status_to_execution_job_status acknowledged = err (domain_error plain_error)

pub record Overrides : Type 0 where
  pub now : Option ℕ
  pub dispatch_plan_id : Option String
  pub workflow_revision : Option ℕ

pub record ExecutionJob : Type 0 where
  pub job_id : String
  pub dispatch_plan_id : String
  pub device_id : String
  pub workflow_id : Option String
  pub workflow_revision : ℕ
  pub status : Status
  pub attempt : ℕ
  pub idempotency_key : String
  pub queued_at : ℕ
  pub dispatched_at : Option ℕ
  pub acknowledged_at : Option ℕ
  pub started_at : Option ℕ
  pub completed_at : Option ℕ
  pub deadline : Option ℕ
  pub error : Option String

abbrev when_running : Status → ℕ → Option ℕ
when_running running t = some t
when_running _ t = none

abbrev pub job_of : Overrides → Command → Status → ExecutionJob
job_of overrides c status = record {
  job_id = c.id;
  dispatch_plan_id =
      get_or_else c.batch_id (get_or_else overrides.dispatch_plan_id "legacy-dispatch");
  device_id = c.device_id;
  workflow_id = c.profile_id;
  workflow_revision = get_or_else overrides.workflow_revision 1;
  status = status;
  attempt = c.attempt;
  idempotency_key = get_or_else c.idempotency_key c.id;
  queued_at = c.not_before;
  dispatched_at = if is_some c.lease_until then some c.not_before else none;
  acknowledged_at = when_running status c.not_before;
  started_at = when_running status c.not_before;
  completed_at = c.completed_at;
  deadline = c.lease_until;
  error = if truthy c.error then c.error else none;
}

-- `createExecutionJobFromCompanionCommand`; a command of the state has no deadline of its own and
-- no last step, and always a time to wait for.
unfoldable pub create_execution_job_from_companion_command :
    Overrides → Command → Result ExecutionJob
create_execution_job_from_companion_command overrides c =
    map_companion_status_to_execution_job_status c.status >>= λ status.
    ok (job_of overrides c status)

-- The unified statuses that the companion's words do not have.
abbrev pub is_refused : Status → Bool
is_refused dispatched = true
is_refused acknowledged = true
is_refused _ = false

mapped :
    (st : Status)
    → map_companion_status_to_execution_job_status st
      ≡ (if is_refused st then err (domain_error plain_error) else ok (companion_to_unified st))
unfolding map_companion_status_to_execution_job_status
mapped queued = refl
mapped dispatched = refl
mapped acknowledged = refl
mapped running = refl
mapped succeeded = refl
mapped failed = refl
mapped cancelled = refl
mapped timed_out = refl
mapped leased = refl
mapped timeout = refl

-- A command becomes an execution job in the status that `companionToUnifiedStatus` gives, unless
-- its status is `dispatched` or `acknowledged`, which the companion's words do not have: then the
-- call throws.
pub create_execution_job_from_companion_command_lem :
    (overrides : Overrides) (c : Command)
    → create_execution_job_from_companion_command overrides c ≡ (
        if is_refused c.status
        then err (domain_error plain_error)
        else ok (job_of overrides c (companion_to_unified c.status)))
unfolding create_execution_job_from_companion_command
create_execution_job_from_companion_command_lem overrides c =
    elim (Bool-cases (is_refused c.status)) [
      | inl e ↦ rw (mapped c.status, e) refl
      | inr e ↦ rw (mapped c.status, e) refl
    ]
