-- ===== src/Core/Jobs/Batches.antt =====
-- platform/controller-core/src/jobService.js: `createDispatchPlan`, `cancelBatch`, `getBatch` and
-- `summarizeBatch`. A dispatch plan makes one command for each target device.
use Prim.Native.String
use web_action_recorder_exte.Common.{
  ℕ, suc, ◌+◌, ◌*◌, String, Bool, true, false, not, ◌&&◌, str_eq, opt_eq, truthy, text_or,
  if◌then◌else◌, Option, none, some, List, [], ◌∷◌, ◌++◌, map, find_first, update_first, keep_if,
  length, any, get_or_else, is_empty,
}
use web_action_recorder_exte.Json.{obj, num, end, Fields, field}
use web_action_recorder_exte.Core.Errors.{
  Error, Result, ok, err, Outcome, returns, throws, or_throw, if_found, domain_error,
  domain_error_with, invalid_target,
}
use web_action_recorder_exte.Core.State.{
  State, Command, Device, Batch, TargetSnapshot, Status, queued, cancelled,
}
use web_action_recorder_exte.Core.Transitions.{is_terminal, status_eq, companion_to_unified}
use web_action_recorder_exte.Core.Audit.{audit_append, text_field}
use web_action_recorder_exte.Core.Dataset.{
  Assignment, AssignmentRequest, build_dataset_assignments, seeded,
}
use web_action_recorder_exte.Core.Commands.{
  is_of_device, CommandFields, create_command, number_or, reject_revoked,
}
use web_action_recorder_exte.Core.Jobs.Stops.{cancel_change}

pub record PlanBody : Type 0 where
  pub device_ids : List String
  pub group_ids : List String
  pub inputs : Option Fields
  pub dataset : List Fields
  pub assignment_mode : Option String
  pub allow_duplicate : Option Bool
  pub seed : Option String
  pub kind : Option String
  pub profile_id : Option String
  pub delay_ms : Option ℕ
  pub idempotency_key : Option String
  pub name : Option String

-- `counts[status]`, one entry for a status that occurs.
abbrev pub bump_count : Status → List (Status × ℕ) → List (Status × ℕ)
bump_count s [] = (s, 1) ∷ []
bump_count s ((t, n) ∷ counts) =
    if status_eq t s then (t, n + 1) ∷ counts else (t, n) ∷ bump_count s counts

abbrev pub count_from : List (Status × ℕ) → List Command → List (Status × ℕ)
count_from counts [] = counts
count_from counts (c ∷ cs) = count_from (bump_count c.status counts) cs

pub record Summary : Type 0 where
  pub batch : Batch
  pub counts : List (Status × ℕ)
  pub commands : List Command

-- `summarizeBatch`
unfoldable pub summarize_batch : Batch → List Command → Summary
summarize_batch batch commands = record {
  batch = batch;
  counts = count_from [] commands;
  commands = commands;
}

abbrev pub includes : List String → String → Bool
includes ids id = any (λ x. str_eq x id) ids

-- The devices of the plan, in the order of the store.
abbrev pub target_devices : PlanBody → State → List Device
target_devices body s = keep_if (λ d. includes body.device_ids d.id) s.devices

unfoldable pub reject_any_revoked : List Device → Result (Unit {0})
reject_any_revoked [] = ok tt
reject_any_revoked (d ∷ ds) = elim (reject_revoked d) [
  | err e ↦ err e
  | ok _ ↦ reject_any_revoked ds
]

abbrev pub mode_of : PlanBody → String
mode_of body = text_or body.assignment_mode "same"

-- `body.allowDuplicate !== false`
abbrev pub allow_of : PlanBody → Bool
allow_of body = get_or_else body.allow_duplicate true

abbrev pub request_of : String → PlanBody → List Device → AssignmentRequest
request_of batch_id body devices = record {
  devices = devices;
  inputs = get_or_else body.inputs end;
  dataset = body.dataset;
  assignment_mode = mode_of body;
  allow_duplicate = allow_of body;
  order = seeded (text_or body.seed batch_id);
}

abbrev pub targets_of : PlanBody → List Device → TargetSnapshot
targets_of body devices = record {
  device_ids = map (λ d. d.id) devices;
  group_ids = body.group_ids;
}

-- `${key}:${deviceId}`
abbrev device_key : Option String → String → Option String
device_key key device_id =
    if truthy key then some (String.◌++◌ (get_or_else key "") (String.◌++◌ ":" device_id)) else none

abbrev pub plan_fields :
    (clock : ℕ) (cmd_id : ℕ → String) (batch_id : String)
    → PlanBody
    → TargetSnapshot
    → ℕ
    → Assignment
    → CommandFields
plan_fields clock cmd_id batch_id body targets index a = record {
  id = cmd_id index;
  device_id = a.device_id;
  kind = text_or body.kind "run_profile";
  profile_id = body.profile_id;
  run_id = none;
  inputs = some (obj a.inputs);
  not_before = some (clock + number_or body.delay_ms 0 * index);
  batch_id = some batch_id;
  target_snapshot = some targets;
  idempotency_key = device_key body.idempotency_key a.device_id;
}

abbrev pub plan_command :
    (now clock : ℕ) (cmd_id : ℕ → String) (batch_id : String)
    → PlanBody
    → TargetSnapshot
    → ℕ
    → Assignment
    → Command
plan_command now clock cmd_id batch_id body targets index a =
    create_command now (plan_fields clock cmd_id batch_id body targets index a)

abbrev pub map_from {ℓ κ} : {A : Type ℓ} {B : Type κ} → (ℕ → A → B) → ℕ → List A → List B
map_from f k [] = []
map_from f k (x ∷ xs) = f k x ∷ map_from f (suc k) xs

abbrev plan_batch : ℕ → String → PlanBody → TargetSnapshot → List Command → Batch
plan_batch now batch_id body targets commands = record {
  id = batch_id;
  name = text_or body.name (String.◌++◌ "Batch " batch_id);
  profile_id = body.profile_id;
  status = queued;
  assignment_mode = mode_of body;
  allow_duplicate = allow_of body;
  created_at = now;
  command_ids = map (λ c. c.id) commands;
  target_snapshot = targets;
}

abbrev store_plan : ℕ → String → Batch → List Command → State → Outcome State Summary
store_plan now batch_id batch commands s = returns (summarize_batch batch commands) (
    audit_append now "job.created"
      (obj (text_field "batchId" batch_id (field "commandCount" (num (length commands)) end)))
      (record s { commands = s.commands ++ commands; batches = s.batches ++ batch ∷ [] }))

plan_for :
    (now clock : ℕ) (batch_id : String) (cmd_id : ℕ → String)
    → PlanBody
    → List Device
    → State
    → Outcome State Summary
plan_for now clock batch_id cmd_id body devices s =
    or_throw s (build_dataset_assignments (request_of batch_id body devices)) λ assignments.
      let targets = targets_of body devices in
      let commands = map_from (plan_command now clock cmd_id batch_id body targets) 0 assignments in
      store_plan now batch_id (plan_batch now batch_id body targets commands) commands s

-- `createDispatchPlan`; `batch_id` and `cmd_id i` are what `this.id` returns for the batch and for
-- its i-th command.
unfoldable pub create_dispatch_plan :
    (now clock : ℕ) (batch_id : String) (cmd_id : ℕ → String)
    → PlanBody
    → State
    → Outcome State Summary
unfolding plan_for
create_dispatch_plan now clock batch_id cmd_id body s =
    if is_empty (target_devices body s)
    then throws (domain_error invalid_target) s
    else or_throw s (reject_any_revoked (target_devices body s))
        λ _. plan_for now clock batch_id cmd_id body (target_devices body s) s

abbrev pub is_batch : String → Batch → Bool
is_batch batch_id b = str_eq b.id batch_id

abbrev pub is_of_batch : String → Command → Bool
is_of_batch batch_id c = opt_eq c.batch_id (some batch_id)

-- `getBatch`
unfoldable pub get_batch : String → State → Result Summary
get_batch batch_id s = elim (find_first (is_batch batch_id) s.batches) [
  | none ↦ err (domain_error_with invalid_target 404)
  | some b ↦ ok (summarize_batch b (keep_if (is_of_batch batch_id) s.commands))
]

-- Changes each picked command where it stands; a throw leaves the later ones.
unfoldable pub change_each :
    (Command → Bool) → (Command → Result Command) → List Command → List Command × Option Error
change_each pick change [] = ([], none)
change_each pick change (c ∷ cs) =
    let rest = change_each pick change cs in
    elim (pick c) [
      | false ↦ (c ∷ rest.0, rest.1)
      | true ↦ elim (change c) [ err e ↦ (c ∷ cs, some e) | ok c' ↦ (c' ∷ rest.0, rest.1) ]
    ]

abbrev pub is_open : String → Command → Bool
is_open batch_id c = is_of_batch batch_id c && not (is_terminal (companion_to_unified c.status))

abbrev pub cancel_found :
    ℕ → String → Batch → List Command × Option Error → State → Outcome State Summary
cancel_found now batch_id b (commands, some e) s = throws e (record s { commands = commands })
cancel_found now batch_id b (commands, none) s =
    returns (summarize_batch b (keep_if (is_of_batch batch_id) commands)) (
      audit_append now "job.cancelled" (obj (text_field "batchId" batch_id end))
        (record s { commands = commands }))

-- `cancelBatch`
unfoldable pub cancel_batch :
    (now clock : ℕ) (lease batch_id : String) → State → Outcome State Summary
cancel_batch now clock lease batch_id s =
    if_found (find_first (is_batch batch_id) s.batches)
      (throws (domain_error_with invalid_target 404) s)
      λ b.
        let b' = record b { status = cancelled } in
        cancel_found now batch_id b'
          (change_each (is_open batch_id) (cancel_change now clock lease) s.commands)
          (record s { batches = update_first (is_batch batch_id) (λ _. b') s.batches })

-- `listCommandsForDevice`
unfoldable pub list_commands_for_device : String → State → List Command
list_commands_for_device device_id s = keep_if (is_of_device device_id) s.commands
