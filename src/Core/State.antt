-- ===== src/Core/State.antt =====
-- The state that the controller persists: companion/store.js (`EMPTY_STATE`) with the records that
-- the services of platform/controller-core/src put into it, and `ensureControllerState` of
-- persistenceAdapter.js. A time stamp is the number of milliseconds that its ISO text parses to, and
-- is taken to be one that a `Date` holds.
use web_action_recorder_exte.Common.{ℕ, String, Bool, List, [], Option}
use web_action_recorder_exte.Json.{Json}

-- The texts that stand in the `status` of a command: the unified ones and the companion's.
pub data Status : Type 0 where
  queued dispatched acknowledged running succeeded failed cancelled timed_out : Status
  leased timeout : Status

pub record TargetSnapshot : Type 0 where
  pub device_ids : List String
  pub group_ids : List String

-- What `SessionManager.dispatch` keeps of a dispatch for later replays.
pub record DispatchPayload : Type 0 where
  pub job_id : String
  pub workflow_id : String
  pub workflow_revision : ℕ
  pub workflow_content_hash : String
  pub inputs : Json
  pub deadline : Option ℕ
  pub idempotency_key : Option String
  pub lease_id : Option String

pub record Command : Type 0 where
  pub id : String
  pub device_id : String
  pub kind : String
  pub profile_id : Option String
  pub run_id : Option String
  pub inputs : Json
  pub status : Status
  pub attempt : ℕ
  pub max_attempts : ℕ
  pub created_at : ℕ
  pub not_before : ℕ
  pub batch_id : Option String
  pub target_snapshot : Option TargetSnapshot
  pub idempotency_key : Option String
  pub dispatch_metadata : Option DispatchPayload
  pub lease_id : Option String
  pub lease_until : Option ℕ
  pub started_at : Option ℕ
  pub result : Option Json
  pub error : Option String
  pub completed_at : Option ℕ

-- What a device says of itself (`DeviceRegistry`, `sanitizeDevice`).
pub record Device : Type 0 where
  pub id : String
  pub name : String
  pub group_ids : List String
  pub labels : List String
  pub token_hash : Option String
  pub created_at : ℕ
  pub last_seen_at : Option ℕ
  pub status : String
  pub extension_version : String
  pub browser : String
  pub capabilities : Json
  pub profiles : List Json
  pub run_state : Option Json
  pub revoked : Bool
  pub revoked_at : Option ℕ

pub record Batch : Type 0 where
  pub id : String
  pub name : String
  pub profile_id : Option String
  pub status : Status
  pub assignment_mode : String
  pub allow_duplicate : Bool
  pub created_at : ℕ
  pub command_ids : List String
  pub target_snapshot : TargetSnapshot

pub record JobResult : Type 0 where
  pub command_id : String
  pub device_id : String
  pub result : Option Json
  pub completed_at : ℕ

pub record Group : Type 0 where
  pub id : String
  pub name : String
  pub labels : List String
  pub device_ids : List String
  pub created_at : ℕ
  pub updated_at : ℕ

pub record ExecutionEvent : Type 0 where
  pub sequence : ℕ
  pub sent_at : ℕ
  pub job_id : String
  pub device_id : Option String
  pub event_type : String
  pub idempotency_key : Option String
  pub detail : Json

pub record AuditEvent : Type 0 where
  pub sequence : ℕ
  pub kind : String
  pub at : ℕ
  pub details : Json

pub record PairingDevice : Type 0 where
  pub device_id : String
  pub display_name : String
  pub host_name : String
  pub platform : String
  pub architecture : String
  pub agent_version : String
  pub extension_version : String
  pub browser_version : String
  pub protocol_version : String
  pub capabilities : Json
  pub labels : List String
  pub group_ids : List String

pub data PairingStatus : Type 0 where
  pending accepted rejected expired : PairingStatus

pub record PendingPairing : Type 0 where
  pub request_id : String
  pub device : PairingDevice
  pub display_name : String
  pub token_hash : String
  pub requested_at : ℕ
  pub expires_at : ℕ
  pub status : PairingStatus
  pub consumed_at : Option ℕ

pub record PairedAgent : Type 0 where
  pub device_id : String
  pub credential_hash : String
  pub paired_at : ℕ
  pub revoked_at : Option ℕ

pub record ResourceUsage : Type 0 where
  pub cpu_percent : Option ℕ
  pub memory_bytes : Option ℕ
  pub memory_limit_bytes : Option ℕ

pub record Container : Type 0 where
  pub id : String
  pub name : String
  pub image : String
  pub device_id : Option String
  pub status : String
  pub desired_state : String
  pub host : Option String
  pub created_at : ℕ
  pub updated_at : ℕ
  pub deleted_at : Option ℕ
  pub last_error : Option String
  pub resource_usage : Option ResourceUsage
  pub runtime : Json
  pub trashed_from_status : Option String
  pub trashed_from_desired_state : Option String

pub record WorkflowRevision : Type 0 where
  pub workflow_id : String
  pub revision : ℕ
  pub content_hash : String
  pub source_device_id : Option String
  pub profile_payload : Json

pub record State : Type 0 where
  pub schema_version : ℕ
  pub migration_version : ℕ
  pub devices : List Device
  pub commands : List Command
  pub batches : List Batch
  pub results : List JobResult
  pub groups : List Group
  pub execution_events : List ExecutionEvent
  pub workflow_revisions : List WorkflowRevision
  pub managed_containers : List Container
  pub audit_events : List AuditEvent
  pub pending_pairings : List PendingPairing
  pub paired_agents : List PairedAgent

-- `EMPTY_STATE`, the state of a controller that starts with no file.
abbrev pub empty_state : State
empty_state = record {
  schema_version = 1;
  migration_version = 1;
  devices = [];
  commands = [];
  batches = [];
  results = [];
  groups = [];
  execution_events = [];
  workflow_revisions = [];
  managed_containers = [];
  audit_events = [];
  pending_pairings = [];
  paired_agents = [];
}
