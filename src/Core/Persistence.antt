-- ===== src/Core/Persistence.antt =====
-- platform/controller-core/src/persistenceAdapter.js: the state is completed before any mutator
-- sees it. A field of the stored object may be absent.
use web_action_recorder_exte.Common.{ℕ, max, Option, List, [], get_or_else}
use web_action_recorder_exte.Core.Errors.{Outcome}
use web_action_recorder_exte.Core.State.{
  State, Device, Command, Batch, JobResult, Group, ExecutionEvent, WorkflowRevision, Container,
  AuditEvent, PendingPairing, PairedAgent,
}

pub record StoredState : Type 0 where
  pub schema_version : Option ℕ
  pub migration_version : Option ℕ
  pub devices : Option (List Device)
  pub commands : Option (List Command)
  pub batches : Option (List Batch)
  pub results : Option (List JobResult)
  pub groups : Option (List Group)
  pub execution_events : Option (List ExecutionEvent)
  pub workflow_revisions : Option (List WorkflowRevision)
  pub managed_containers : Option (List Container)
  pub audit_events : Option (List AuditEvent)
  pub pending_pairings : Option (List PendingPairing)
  pub paired_agents : Option (List PairedAgent)

-- `ensureControllerState`
unfoldable pub ensure_controller_state : StoredState → State
ensure_controller_state s = record {
  schema_version = get_or_else s.schema_version 1;
  migration_version = get_or_else s.migration_version 1;
  devices = get_or_else s.devices [];
  commands = get_or_else s.commands [];
  batches = get_or_else s.batches [];
  results = get_or_else s.results [];
  groups = get_or_else s.groups [];
  execution_events = get_or_else s.execution_events [];
  workflow_revisions = get_or_else s.workflow_revisions [];
  managed_containers = get_or_else s.managed_containers [];
  audit_events = get_or_else s.audit_events [];
  pending_pairings = get_or_else s.pending_pairings [];
  paired_agents = get_or_else s.paired_agents [];
}

-- `migrate`
unfoldable pub migrate : StoredState → State
unfolding ensure_controller_state
migrate s =
    let t = ensure_controller_state s in record t { migration_version = max t.migration_version 1 }

-- `update`
unfoldable pub update : {A : Type 0} → (State → Outcome State A) → StoredState → Outcome State A
unfolding ensure_controller_state
update mutator s = mutator (ensure_controller_state s)

-- `createMemoryStore` of companion/store.js: a store with no file. The mutator works on the store's
-- own object, so that a throw keeps what it has written.
unfoldable pub memory_update : {A : Type 0} → (State → Outcome State A) → State → Outcome State A
memory_update mutator s = mutator s
