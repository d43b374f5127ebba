-- ===== src/Core/Containers.antt =====
-- platform/controller-core/src/containerRegistry.js: the managed containers and their trash. What
-- `sanitizeRuntime` makes of the runtime settings of a call is an argument: the settings, or the
-- error that it throws. `now` is the reading of the registry's clock.
pub mod Laws
use Prim.Native.String.{◌++◌ as text_append}
use web_action_recorder_exte.Common.{
  ℕ, ltb, Bool, true, false, not, String, str_eq, Option, none, some, List, [], ◌∷◌, ◌++◌, any,
  find_first, update_first, keep_if, text_or, truthy, get_or_else, if◌then◌else◌, trim, slice,
  text_length,
}
use web_action_recorder_exte.Json.{Json, obj, end}
use web_action_recorder_exte.Core.Errors.{
  Result, ok, err, Outcome, returns, throws, or_throw, ◌>>=◌, domain_error_with, invalid_target,
  duplicate_job, device_not_found, Error,
}
use web_action_recorder_exte.Core.State.{State, Container, ResourceUsage}
use web_action_recorder_exte.Core.Audit.{audit_append, text_field}

abbrev pub is_container : String → Container → Bool
is_container container_id item = str_eq item.id container_id

-- `requireContainer`
unfoldable pub require_container : State → String → Result Container
require_container s container_id =
    elim (find_first (is_container container_id) s.managed_containers) [
      | none ↦ err (domain_error_with device_not_found 404)
      | some item ↦ ok item
    ]

-- `STATUS`
abbrev statuses : List String
statuses =
    "created" ∷ "starting" ∷ "running" ∷ "stopping" ∷ "stopped" ∷ "restarting" ∷ "deleting"
    ∷ "deleted" ∷ "failed" ∷ []

abbrev pub is_one_of : List String → String → Bool
is_one_of xs x = any (λ y. str_eq y x) xs

-- `requiredName`
unfoldable pub required_name : Option String → Result String
required_name value =
    let text = trim (text_or value "") in
    if str_eq text ""
    then err (domain_error_with invalid_target 400)
    else if ltb 120 (text_length text)
    then err (domain_error_with invalid_target 400)
    else ok text

-- `optionalString`
abbrev pub optional_string : Option String → Option String
optional_string value = if truthy value then some (slice 240 (get_or_else value "")) else none

-- `listContainers`, `getContainer`
abbrev pub list_containers : State → List Container
list_containers s = s.managed_containers

abbrev pub get_container : String → State → Result Container
get_container container_id s = require_container s container_id

pub record ContainerPayload : Type 0 where
  pub container_id : Option String
  pub name : Option String
  pub image : Option String
  pub device_id : Option String
  pub host : Option String

abbrev pub created_container : ℕ → (id name image : String) → ContainerPayload → Json → Container
created_container now id name image payload runtime = record {
  id = id;
  name = name;
  image = image;
  device_id = optional_string payload.device_id;
  status = "created";
  desired_state = "stopped";
  host = optional_string payload.host;
  created_at = now;
  updated_at = now;
  deleted_at = none;
  last_error = none;
  resource_usage = none;
  runtime = runtime;
  trashed_from_status = none;
  trashed_from_desired_state = none;
}

-- The item of `createContainer`: its fields are checked in the order in which they are written.
abbrev pub container_item : ℕ → (fresh : String) → ContainerPayload → Result Json → Result Container
container_item now fresh payload runtime = required_name payload.name >>= λ name.
    required_name (some (text_or payload.image "war-browser-agent:phase1")) >>= λ image.
    runtime >>= λ settings.
    ok (created_container now (text_or payload.container_id fresh) name image payload settings)

-- `createContainer`; `fresh` is what `this.id('container')` returns.
unfoldable pub create_container :
    ℕ → (fresh : String) → ContainerPayload → Result Json → State → Outcome State Container
create_container now fresh payload runtime s =
    or_throw s (container_item now fresh payload runtime) λ item.
      if any (is_container item.id) s.managed_containers
      then throws (domain_error_with duplicate_job 409) s
      else returns item (
          audit_append now "container.created" (obj (text_field "containerId" item.id end))
            (record s { managed_containers = s.managed_containers ++ item ∷ [] }))

abbrev pub write_container : String → Container → State → State
write_container container_id item s = record s {
  managed_containers = update_first (is_container container_id) (λ _. item) s.managed_containers;
}

pub record StatusOptions : Type 0 where
  pub desired_state : Option String
  pub last_error : Option String
  pub resource_usage : Option ResourceUsage
  -- what `sanitizeRuntime` makes of the new settings, where there are any
  pub runtime : Option (Result Json)

-- The writes of `updateStatus` before it looks at the runtime settings.
abbrev pub status_written : String → StatusOptions → Container → Container
status_written status options item = record item {
  status = status;
  desired_state = text_or options.desired_state item.desired_state;
  last_error =
      if truthy options.last_error
      then some (slice 500 (get_or_else options.last_error ""))
      else none;
  resource_usage = elim options.resource_usage [
    | none ↦ item.resource_usage
    | some usage ↦ some usage
  ];
}

abbrev runtime_of : Option (Result Json) → Container → Result Json
runtime_of none item = ok item.runtime
runtime_of (some r) item = r

-- `updateStatus`: settings that `sanitizeRuntime` refuses leave the fields written before them.
unfoldable pub update_status :
    ℕ → (container_id status : String) → StatusOptions → State → Outcome State Container
update_status now container_id status options s =
    if not (is_one_of statuses status)
    then throws (domain_error_with invalid_target 400) s
    else or_throw s (require_container s container_id) λ item.
      let written = status_written status options item in
      or_throw (write_container container_id written s) (runtime_of options.runtime item)
        λ settings.
          let done : Container = record written { runtime = settings; updated_at = now } in
          returns done (
            audit_append now "container.status"
              (obj (text_field "containerId" container_id (text_field "status" status end)))
              (write_container container_id done s))

abbrev pub trashed : ℕ → Container → Container
trashed now item = record item {
  trashed_from_status = some item.status;
  trashed_from_desired_state = some item.desired_state;
  status = "deleted";
  desired_state = "deleted";
  deleted_at = some now;
  updated_at = now;
}

-- `deleteContainer`
unfoldable pub delete_container : ℕ → String → State → Outcome State Container
delete_container now container_id s = or_throw s (require_container s container_id) λ item.
    if str_eq item.status "deleted"
    then returns item s
    else returns (trashed now item) (
        audit_append now "container.deleted" (obj (text_field "containerId" container_id end))
          (write_container container_id (trashed now item) s))

abbrev pub restorable : List String
restorable = "created" ∷ "stopped" ∷ "failed" ∷ []

abbrev pub restored_status : Option String → String
restored_status none = "stopped"
restored_status (some from) = if is_one_of restorable from then from else "stopped"

abbrev pub restored : ℕ → Container → Container
restored now item =
    let status = restored_status item.trashed_from_status in
    record item {
      status = status;
      desired_state = if str_eq status "created" then "stopped" else status;
      deleted_at = none;
      last_error = none;
      updated_at = now;
      trashed_from_status = none;
      trashed_from_desired_state = none;
    }

-- `restoreContainer`
unfoldable pub restore_container : ℕ → String → State → Outcome State Container
restore_container now container_id s = or_throw s (require_container s container_id) λ item.
    if not (str_eq item.status "deleted")
    then throws (domain_error_with invalid_target 409) s
    else returns (restored now item) (
        audit_append now "container.restored" (obj (text_field "containerId" container_id end))
          (write_container container_id (restored now item) s))

-- `purgeContainer`
unfoldable pub purge_container : ℕ → String → State → Outcome State (String × ℕ)
purge_container now container_id s = or_throw s (require_container s container_id) λ item.
    if not (str_eq item.status "deleted")
    then throws (domain_error_with invalid_target 409) s
    else returns (container_id, now)
        (audit_append now "container.purged" (obj (text_field "containerId" container_id end))
          (record s {
            managed_containers =
                keep_if (λ c. not (is_container container_id c)) s.managed_containers;
          }))

pub record DuplicatePayload : Type 0 where
  pub name : Option String
  pub device_id : Option String

-- `duplicateContainer`; `runtime` is what `sanitizeRuntime` makes of the call's settings, or of
-- those of the source where the call has none.
unfoldable pub duplicate_container :
    ℕ
    → (fresh container_id : String) → DuplicatePayload
    → (runtime : Json → Result Json) → State
    → Outcome State Container
unfolding create_container
duplicate_container now fresh container_id payload runtime s =
    or_throw s (require_container s container_id) λ source.
      create_container now fresh
        (record {
          container_id = none;
          name = some (text_or payload.name (text_append source.name " copy"));
          image = some source.image;
          device_id = payload.device_id;
          host = source.host;
        })
        (runtime source.runtime) s
