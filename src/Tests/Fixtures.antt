-- ===== src/Tests/Fixtures.antt =====
-- A controller with one device and one queued command, and what the examples ask of it.
use web_action_recorder_exte.Common.{String, none, some, [], ◌∷◌, false}
use web_action_recorder_exte.Json.{empty_object}
use web_action_recorder_exte.Core.State.{
  State, empty_state, Device, Command, queued, leased, running, succeeded,
}
use web_action_recorder_exte.Core.Jobs.{EnqueueBody}

abbrev pub device : Device
device = record {
  id = "d1";
  name = "Endpoint";
  group_ids = [];
  labels = [];
  token_hash = none;
  created_at = 0;
  last_seen_at = none;
  status = "online";
  extension_version = "";
  browser = "";
  capabilities = empty_object;
  profiles = [];
  run_state = none;
  revoked = false;
  revoked_at = none;
}

abbrev pub command : Command
command = record {
  id = "c1";
  device_id = "d1";
  kind = "run_profile";
  profile_id = some "w1";
  run_id = none;
  inputs = empty_object;
  status = queued;
  attempt = 0;
  max_attempts = 3;
  created_at = 0;
  not_before = 0;
  batch_id = none;
  target_snapshot = none;
  idempotency_key = none;
  dispatch_metadata = none;
  lease_id = none;
  lease_until = none;
  started_at = none;
  result = none;
  error = none;
  completed_at = none;
}

-- The command in an agent's hands until time 100.
abbrev pub held : Command
held = record command { status = leased; attempt = 1; lease_id = some "l1"; lease_until = some 100 }

abbrev pub started : Command
started = record held { status = running }

abbrev pub done : Command
done = record held { status = succeeded }

abbrev pub holding : Command → State
holding c = record empty_state { devices = device ∷ []; commands = c ∷ [] }

abbrev pub body : EnqueueBody
body = record {
  kind = "run_profile";
  device_id = some "d1";
  profile_id = some "w1";
  run_id = none;
  inputs = none;
  idempotency_key = some "k";
}

-- Sixty-four digits stand for any digest.
abbrev pub digest : String
digest = "0123456789abcdef0123456789abcdef0123456789abcdef0123456789abcdef"

abbrev pub hash : String → String
hash secret = digest
