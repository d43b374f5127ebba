-- ===== src/Tests/Requests.antt =====
-- Dispatches, batches, statuses and timeouts at small states.
use web_action_recorder_exte.Common.{
  ◌≡◌, refl, arith, none, some, [], ◌∷◌, All, true, false, truthy, ◌↔◌, ◌⊎◌,
}
use web_action_recorder_exte.Json.{empty_object}
use web_action_recorder_exte.Core.Errors.{
  Outcome, returns, throws, state_of, result_of, ok, err, domain_error, auth_denied,
}
use web_action_recorder_exte.Core.State.{State, Batch, WorkflowRevision, queued}
use web_action_recorder_exte.Core.Transitions.{assert_transition}
use web_action_recorder_exte.Core.Commands.{require_device, transition, requeue_command}
use web_action_recorder_exte.Core.Jobs.{lease_due, lease_next, enqueue_legacy_command}
use web_action_recorder_exte.Core.Jobs.Batches.{cancel_batch, is_open, Summary}
use web_action_recorder_exte.Core.Jobs.Replay.{set_dispatch_metadata}
use web_action_recorder_exte.Core.Jobs.Endings
use web_action_recorder_exte.Core.Workflows.{get_revision}
use web_action_recorder_exte.Core.Sessions
use web_action_recorder_exte.Core.Sessions.{
  Manager, Session, default_limits, require_session, Remembered, cancel_result,
}
use web_action_recorder_exte.Core.Auth
use web_action_recorder_exte.Core.Auth.{AuthPolicy, AuthContext, require, allow}
use web_action_recorder_exte.Core.Sessions.Dispatch.{DispatchRequest, dispatch, remember}
use web_action_recorder_exte.Tests.Fixtures.{command, holding}

abbrev batch : Batch
batch = record {
  id = "b1";
  name = "Batch";
  profile_id = none;
  status = queued;
  assignment_mode = "same";
  allow_duplicate = true;
  created_at = 0;
  command_ids = "c1" ∷ [];
  target_snapshot = record { device_ids = "d1" ∷ []; group_ids = [] };
}

abbrev batched : State
batched = record (holding (record command { batch_id = some "b1" })) { batches = batch ∷ [] }

cancel_batch-ends_example :
    (summary : Summary) × (result_of (cancel_batch 5 5 "l" "b1" batched) ≡ ok summary)
    × All (λ c. is_open "b1" c ≡ false) (state_of (cancel_batch 5 5 "l" "b1" batched)).commands
cancel_batch-ends_example = Endings.cancel_batch-ends 5 5 "l" "b1" batched refl

abbrev revision : WorkflowRevision
revision = record {
  workflow_id = "w1";
  revision = 1;
  content_hash = "h";
  source_device_id = none;
  profile_payload = empty_object;
}

abbrev session : Session
session = record {
  session_id = "s1";
  generation = 1;
  device_id = "d1";
  nonce = "n";
  connected_at = 0;
  last_seen_at = 0;
  status = "online";
  pending_jobs = [];
}

abbrev manager : Manager
manager = record {
  core = record (holding command) { commands = []; workflow_revisions = revision ∷ [] };
  sessions = session ∷ [];
  idempotency = [];
}

abbrev request : DispatchRequest
request = record {
  device_id = "d1";
  generation = some 1;
  workflow_id = "w1";
  workflow_revision = 1;
  workflow_content_hash = "h";
  inputs = empty_object;
  deadline = some 5000;
  idempotency_key = "k";
}

abbrev dispatched_manager : Manager
dispatched_manager = state_of (dispatch default_limits 10 10 "l1" "c5" request manager)

abbrev returned : Outcome Manager Remembered → Remembered
returned (returns value m) = value
returned (throws e m) = cancel_result command

abbrev first_result : Remembered
first_result = returned (dispatch default_limits 10 10 "l1" "c5" request manager)

dispatch-repeated_example :
    dispatch default_limits 20 20 "l2" "c6" request dispatched_manager
    ≡ returns first_result dispatched_manager
unfolding dispatch require_session require_device get_revision enqueue_legacy_command lease_next
    lease_due transition assert_transition set_dispatch_metadata remember requeue_command
dispatch-repeated_example =
    Sessions.Ledger.dispatch-repeated default_limits 10 10 20 20 "l1" "c5" "l2" "c6" request request
      manager dispatched_manager (omega arith) (omega arith) refl refl refl refl

abbrev policy : AuthPolicy
policy = record { verify_credential = none; ip_allowed = λ _. true }

abbrev context : AuthContext
context = record {
  source_address = some "10.0.0.1";
  credential_verified = true;
  actor_type = none;
  actor_id = none;
  requested_action = none;
}

require_iff_example :
    ((require policy context ≡ ok (allow none none none))
      ↔ (((truthy (some "10.0.0.1") ≡ false) ⊎ (true ≡ true)) × ((true ≡ true) ⊎ (false ≡ true))))
    × ((require policy context ≡ ok (allow none none none))
        ⊎ (require policy context ≡ err (domain_error auth_denied)))
require_iff_example = Auth.require_iff policy context
