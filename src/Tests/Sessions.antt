-- ===== src/Tests/Sessions.antt =====
-- Sessions, groups, containers and the agent's outbox at small states.
use web_action_recorder_exte.Common.{
  ℕ, List, find_first, true, ◌≡◌, refl, arith, false, none, some, [], ◌∷◌, ◌⊎◌,
}
use web_action_recorder_exte.Json.{empty_object}
use web_action_recorder_exte.Core.Errors.{result_of, returns, state_of, err}
use web_action_recorder_exte.Core.State.{State, Group, Command, PairedAgent}
use web_action_recorder_exte.Core.Pairing.{DevicePayload}
use web_action_recorder_exte.Core.Pairing.Agents.{verify_credential}
use web_action_recorder_exte.Core.Pairing.Digest.{timing_safe_digest_equal}
use web_action_recorder_exte.Core.Commands.{require_device}
use web_action_recorder_exte.Core.Devices.{register_device}
use web_action_recorder_exte.Core.Groups
use web_action_recorder_exte.Core.Groups.Laws.{Agree, Change, add, change}
use web_action_recorder_exte.Core.Sessions
use web_action_recorder_exte.Core.Sessions.{
  Manager, Session, SessionConfig, Hello, default_limits, authenticate_hello, disconnect,
  require_session, no_session,
}
use web_action_recorder_exte.Core.Sessions.Dispatch.{
  receive_execution_event, ExecutionEnvelope, execution_event,
}
use web_action_recorder_exte.Core.Sessions.Receive.{IsCurrent}
use web_action_recorder_exte.Agent.Outbox
use web_action_recorder_exte.Agent.Outbox.{
  has_entry_key, terminal_key, Entry, Outbox, Envelope, Limits, load, put, acknowledge,
}
use web_action_recorder_exte.Agent.Outbox.Laws.{IsSaved, IsLoaded, IsFound}
use web_action_recorder_exte.Tests.Fixtures.{held, holding, hash, digest}

abbrev payload : DevicePayload
payload = record {
  device_id = some "d1";
  display_name = none;
  host_name = none;
  platform = none;
  architecture = none;
  agent_version = none;
  extension_version = none;
  browser_version = none;
  protocol_version = none;
  capabilities = none;
  labels = none;
  group_ids = none;
}

abbrev hello : Hello
hello = record {
  protocol_version = "war-control.v2";
  envelope_device_id = none;
  device_id = "d1";
  device = payload;
  session_nonce = "n";
}

abbrev session : Session
session = record {
  session_id = "s1";
  generation = 1;
  device_id = "d1";
  nonce = "n";
  connected_at = 0;
  last_seen_at = 0;
  status = "online";
  pending_jobs = [];
}

abbrev agent : PairedAgent
agent = record { device_id = "d1"; credential_hash = digest; paired_at = 0; revoked_at = none }

abbrev manager : Manager
manager = record {
  core = record (holding held) { paired_agents = agent ∷ [] };
  sessions = session ∷ [];
  idempotency = [];
}

abbrev again : Manager
again = state_of (authenticate_hello hash default_limits 5 "s2" "secret" hello manager)

disconnect-authenticate_hello_example :
    (require_session again "d1" (some 1) ≡ err no_session)
    × (disconnect 9 9 "l" "d1" 1 "reconnecting" again ≡ returns false again)
unfolding authenticate_hello verify_credential require_device register_device
    timing_safe_digest_equal
disconnect-authenticate_hello_example =
    Sessions.Laws.disconnect-authenticate_hello hash default_limits 5 9 9 "s2" "secret" "l"
      "reconnecting" hello manager again refl refl

abbrev envelope : ExecutionEnvelope
envelope = record {
  kind = execution_event;
  deadline = 90;
  device_id = "d1";
  generation = some 1;
  session_id = "s1";
  job_id = "c1";
  event = record {
    sequence = none;
    sent_at = none;
    job_id = "c1";
    device_id = none;
    event_type = "job_started";
    idempotency_key = some "e1";
    detail = empty_object;
  };
  result = none;
}

receive_execution_event-IsCurrent_example :
    (state_of (receive_execution_event 10 10 "l" envelope manager) ≡ manager)
    ⊎ ((s : Session) × (c : Command) × IsCurrent 10 envelope manager s c)
receive_execution_event-IsCurrent_example =
    Sessions.Receive.receive_execution_event-IsCurrent 10 10 "l" envelope manager

abbrev group : Group
group = record {
  id = "g1";
  name = "Group";
  labels = [];
  device_ids = [];
  created_at = 0;
  updated_at = 0;
}

abbrev grouped : State
grouped = record (holding held) { groups = group ∷ [] }

change-Agree_example : Agree (change 3 (add "g1" "d1") grouped) "g1" "d1"
change-Agree_example = Groups.Laws.change-Agree 3 (add "g1" "d1") "g1" "d1" grouped refl

abbrev result_envelope : Envelope
result_envelope = record {
  kind = "execution.result";
  job_id = some "c1";
  idempotency_key = none;
  event_type = some "job_succeeded";
  content = empty_object;
}

abbrev limits : Limits
limits = record { max_count = 1024; max_entry_bytes = 262144; max_total_bytes = 5242880 }

abbrev empty_outbox : Outbox
empty_outbox = record { entries = []; file = some [] }

abbrev entry_size : Entry → ℕ
entry_size e = 100

abbrev list_size : List Entry → ℕ
list_size es = 100

empty_outbox-IsSaved : IsSaved limits empty_outbox
unfolding load
empty_outbox-IsSaved = ((tt, omega arith), refl)

put-IsLoaded_example :
    let saved = put entry_size list_size limits true result_envelope empty_outbox in
    let left = state_of (acknowledge true "key" empty_outbox) in
    IsLoaded limits true empty_outbox (state_of saved)
    × IsFound (terminal_key result_envelope) (state_of saved) (result_of saved)
    × IsLoaded limits true empty_outbox left
    × (find_first (has_entry_key "key") left.entries ≡ none)
put-IsLoaded_example =
    Outbox.Laws.put-IsLoaded entry_size list_size limits true result_envelope "key" empty_outbox
      empty_outbox-IsSaved
