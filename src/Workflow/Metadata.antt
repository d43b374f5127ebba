-- ===== src/Workflow/Metadata.antt =====
-- platform/workflow-core/src/workflowMetadata.js: stableClone, the canonical form of a revision's
-- metadata, and the content hash. The digest of a value's JSON text is a parameter. A value is a
-- JSON value; keys that are array indices, which an object lists first, are not set apart. A field
-- of the key `__proto__` becomes no field of the clone, since `next[key] = ...` sets its prototype.
pub mod Canonical
use web_action_recorder_exte.Common.{
  String, Bool, true, false, List, [], ◌∷◌, any, if◌then◌else◌, str_eq, ◌||◌,
}
use web_action_recorder_exte.Json.{
  Json, Items, Fields, null, bool, num, str, arr, obj, nil, cons, end, field,
}
use web_action_recorder_exte.Json.Order.{text_less}

abbrev pub one_of : List String → String → Bool
one_of keys key = any (λ k. str_eq k key) keys

-- A key that is no field of the clone: an excluded one, or the name of the prototype.
abbrev pub left_out : List String → String → Bool
left_out excluded key = one_of excluded key || str_eq key "__proto__"

-- HASH_EXCLUDED_KEYS, PROFILE_RUNTIME_KEYS
abbrev pub hash_excluded_keys : List String
hash_excluded_keys = "contentHash" ∷ "createdAt" ∷ "updatedAt" ∷ "revision" ∷ "sourceDeviceId" ∷ []

abbrev pub profile_runtime_keys : List String
profile_runtime_keys =
    "activeRunId" ∷ "currentStepId" ∷ "isRoot" ∷ "lastError" ∷ "lastRunAt" ∷ "lastStepId"
    ∷ "leaseId" ∷ "leaseUntil" ∷ "runId" ∷ "runState" ∷ "runtime" ∷ "status" ∷ []

-- A key at its place among sorted ones: `filter`, `sort` and `reduce` do this key by key.
unfoldable pub insert_field : String → Json → Fields → Fields
insert_field k v end = field k v end
insert_field k v (field j w rest) =
    let more = insert_field k v rest in
    if text_less j k then field j w more else field k v (field j w rest)

abbrev pub insert_unless : Bool → String → Json → Fields → Fields
insert_unless true k v rest = rest
insert_unless false k v rest = insert_field k v rest

-- `stableClone`: the keys that are excluded, and `__proto__`, left out, the others sorted, at every depth.
unfoldable mutual
  unfolding insert_field

  pub stable_clone : List String → Json → Json
  stable_clone excluded (arr xs) = arr (clone_items excluded xs)
  stable_clone excluded (obj fs) = obj (clone_fields excluded fs)
  stable_clone excluded null = null
  stable_clone excluded (bool b) = bool b
  stable_clone excluded (num n) = num n
  stable_clone excluded (str s) = str s

  pub clone_items : List String → Items → Items
  clone_items excluded nil = nil
  clone_items excluded (cons x xs) = cons (stable_clone excluded x) (clone_items excluded xs)

  pub clone_fields : List String → Fields → Fields
  clone_fields excluded end = end
  clone_fields excluded (field k v fs) =
      insert_unless (left_out excluded k) k (stable_clone excluded v) (clone_fields excluded fs)

unfoldable pub canonicalize_workflow_metadata : Json → Json
unfolding stable_clone
canonicalize_workflow_metadata metadata = stable_clone hash_excluded_keys metadata

unfoldable pub create_workflow_content_hash : {H : Type 0} → (Json → H) → Json → H
unfolding canonicalize_workflow_metadata
create_workflow_content_hash digest metadata = digest (canonicalize_workflow_metadata metadata)

-- `stripRuntimeState` has the body of `stableClone`, with the profile's runtime keys.
unfoldable pub strip_runtime_state : Json → Json
unfolding stable_clone
strip_runtime_state value = stable_clone profile_runtime_keys value
