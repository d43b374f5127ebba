-- ===== src/Core/Groups.antt =====
-- platform/controller-core/src/groupRegistry.js: groups of devices. Membership is kept twice, in
-- the group and in the device. `now` is the reading of the registry's clock.
pub mod Laws
use web_action_recorder_exte.Common.{
  ℕ, Bool, not, String, str_eq, Option, none, some, List, [], ◌∷◌, ◌++◌, any, map, find_first,
  update_first, keep_if, text_or, get_or_else, if◌then◌else◌,
}
use web_action_recorder_exte.Json.{obj, end}
use web_action_recorder_exte.Core.Errors.{
  Result, ◌>>=◌, ok, err, Outcome, returns, throws, or_throw, domain_error_with, group_not_found,
}
use web_action_recorder_exte.Json.Order.{text_less}
use web_action_recorder_exte.Core.State.{State, Device, Group}
use web_action_recorder_exte.Core.Audit.{audit_append, text_field}
use web_action_recorder_exte.Core.Commands.{is_device, require_device}

abbrev pub is_group : String → Group → Bool
is_group group_id group = str_eq group.id group_id

-- `requireGroup`
unfoldable pub require_group : State → String → Result Group
require_group s group_id = elim (find_first (is_group group_id) s.groups) [
  | none ↦ err (domain_error_with group_not_found 404)
  | some group ↦ ok group
]

-- `includes`, and `filter((id) => id !== x)`
abbrev pub includes : List String → String → Bool
includes xs x = any (λ y. str_eq y x) xs

abbrev pub without : String → List String → List String
without x xs = keep_if (λ y. not (str_eq y x)) xs

abbrev pub include : String → List String → List String
include x xs = if includes xs x then xs else xs ++ x ∷ []

pub record GroupBody : Type 0 where
  pub id : Option String
  pub name : Option String
  pub labels : Option (List String)

-- `createGroup`; `fresh` is what `this.id('group')` returns.
unfoldable pub create_group : ℕ → String → GroupBody → State → Outcome State Group
create_group now fresh body s =
    let group : Group = record {
      id = text_or body.id fresh;
      name = text_or body.name "Group";
      labels = get_or_else body.labels [];
      device_ids = [];
      created_at = now;
      updated_at = now;
    } in
    returns group (
      audit_append now "group.created" (obj (text_field "groupId" group.id end))
        (record s { groups = s.groups ++ group ∷ [] }))

abbrev pub write_group : String → (Group → Group) → State → State
write_group group_id f s = record s { groups = update_first (is_group group_id) f s.groups }

abbrev pub updated_group : ℕ → GroupBody → Group → Group
updated_group now body group = record group {
  name = get_or_else body.name group.name;
  labels = get_or_else body.labels group.labels;
  updated_at = now;
}

-- `updateGroup`, where the labels, if there are any, are a list
unfoldable pub update_group : ℕ → String → GroupBody → State → Outcome State Group
update_group now group_id body s = or_throw s (require_group s group_id) λ group.
    returns (updated_group now body group) (write_group group_id (updated_group now body) s)

abbrev pub leave_group : String → Device → Device
leave_group group_id d = record d { group_ids = without group_id d.group_ids }

-- `deleteGroup`
unfoldable pub delete_group : ℕ → String → State → Outcome State (Unit {0})
delete_group now group_id s = or_throw s (require_group s group_id) λ _. returns tt (
    audit_append now "group.deleted" (obj (text_field "groupId" group_id end)) (record s {
      groups = keep_if (λ group. not (is_group group_id group)) s.groups;
      devices = map (leave_group group_id) s.devices;
    }))

abbrev pub joined_group : ℕ → String → Group → Group
joined_group now device_id group = record group {
  device_ids = include device_id group.device_ids;
  updated_at = now;
}

abbrev pub join_group : String → Device → Device
join_group group_id d = record d { group_ids = include group_id d.group_ids }

-- `addDevice`
unfoldable pub add_device : ℕ → (group_id device_id : String) → State → Outcome State Group
add_device now group_id device_id s = or_throw s (require_group s group_id) λ group.
    or_throw s (require_device s device_id) λ _. returns (joined_group now device_id group) (
      audit_append now "group.device_added"
        (obj (text_field "groupId" group_id (text_field "deviceId" device_id end)))
        (record s {
          groups = update_first (is_group group_id) (joined_group now device_id) s.groups;
          devices = update_first (is_device device_id) (join_group group_id) s.devices;
        }))

abbrev pub left_group : ℕ → String → Group → Group
left_group now device_id group = record group {
  device_ids = without device_id group.device_ids;
  updated_at = now;
}

-- `removeDevice`
unfoldable pub remove_device : ℕ → (group_id device_id : String) → State → Outcome State Group
remove_device now group_id device_id s = or_throw s (require_group s group_id) λ group.
    returns (left_group now device_id group) (record s {
      groups = update_first (is_group group_id) (left_group now device_id) s.groups;
      devices = update_first (is_device device_id) (leave_group group_id) s.devices;
    })

-- `listGroups`
abbrev pub list_groups : State → List Group
list_groups s = s.groups

pub record Membership : Type 0 where
  pub group_id : String
  pub device_ids : List String

-- `sort()` on texts.
abbrev pub insert_text : String → List String → List String
insert_text x [] = x ∷ []
insert_text x (y ∷ ys) =
    let rest = insert_text x ys in if text_less x y then x ∷ y ∷ ys else y ∷ rest

abbrev pub sort_texts : List String → List String → List String
sort_texts sorted [] = sorted
sort_texts sorted (x ∷ xs) = sort_texts (insert_text x sorted) xs

-- `membershipSnapshot`
unfoldable pub membership_snapshot : String → State → Result Membership
membership_snapshot group_id s = require_group s group_id >>= λ group.
    ok (record { group_id = group_id; device_ids = sort_texts [] group.device_ids })
