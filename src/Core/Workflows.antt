-- ===== src/Core/Workflows.antt =====
-- platform/controller-core/src/workflowRegistry.js: the stored workflow revisions. What the registry
-- reads of a revision is in a record; its whole object, which the content hash is of, is beside it.
-- Whether validateWorkflowRevision accepts it is an argument; the digest and `localeCompare` are
-- parameters. `sort`, which is stable, is an insertion sort.
pub mod Laws
pub mod Answers
use web_action_recorder_exte.Common.{
  ℕ, ◌==◌, ◌&&◌, ◌||◌, ◌+◌, max, ltb, Bool, true, false, not, String, str_eq, Option, none, some,
  find_first, List, [], ◌∷◌, ◌++◌, map, any, is_some, if◌then◌else◌, truthy, text_or, is_empty,
}
use web_action_recorder_exte.Core.Errors.{
  Result, ok, err, domain_error_with, domain_error, workflow_not_found, workflow_hash_mismatch,
  Outcome, returns, throws, Error, if_found,
}
use web_action_recorder_exte.Core.State.{State, WorkflowRevision}
use web_action_recorder_exte.Core.Audit.{audit_append, text_field}
use web_action_recorder_exte.Json.{Json, Fields, obj, end, field, num, str}
use web_action_recorder_exte.Workflow.Metadata.{create_workflow_content_hash}

abbrev is_revision : String → ℕ → WorkflowRevision → Bool
is_revision workflow_id revision item =
    str_eq item.workflow_id workflow_id && item.revision == revision

abbrev pub found_revision : Option WorkflowRevision → Result WorkflowRevision
found_revision none = err (domain_error_with workflow_not_found 404)
found_revision (some found) = ok found

-- `getRevision`
unfoldable pub get_revision :
    (workflow_id : String) → (revision : ℕ) → State → Result WorkflowRevision
get_revision workflow_id revision s =
    found_revision (find_first (is_revision workflow_id revision) s.workflow_revisions)

-- `findByContentHash`
abbrev pub find_by_content_hash :
    (workflow_id content_hash : String) → State → Option WorkflowRevision
find_by_content_hash workflow_id content_hash s =
    find_first
      (λ item. str_eq item.workflow_id workflow_id && str_eq item.content_hash content_hash)
      s.workflow_revisions

-- What containsSensitiveDefault reads of an input.
pub record RequiredInput : Type 0 where
  pub sensitive : Bool
  pub has_default_value : Bool

pub record Submission : Type 0 where
  pub item : WorkflowRevision
  pub document : Json
  pub required_inputs : List RequiredInput

pub record Stored : Type 0 where
  pub created : Bool
  pub revision : WorkflowRevision

unfoldable pub contains_sensitive_default : List RequiredInput → Bool
contains_sensitive_default inputs = any (λ i. i.sensitive && i.has_default_value) inputs

abbrev pub of_workflow : String → List WorkflowRevision → List WorkflowRevision
of_workflow workflow_id [] = []
of_workflow workflow_id (item ∷ items) =
    let rest = of_workflow workflow_id items in
    if str_eq item.workflow_id workflow_id then item ∷ rest else rest

-- `Math.max(…)` of the revision numbers.
abbrev pub max_revision : List WorkflowRevision → ℕ
max_revision [] = 0
max_revision (item ∷ items) = max item.revision (max_revision items)

abbrev pub with_revision : WorkflowRevision → ℕ → WorkflowRevision
with_revision item n = record item { revision = n }

unfoldable pub next_revision : WorkflowRevision → List WorkflowRevision → WorkflowRevision
next_revision item items =
    let revisions = of_workflow item.workflow_id items in
    with_revision item (if is_empty revisions then item.revision else max_revision revisions + 1)

pub record RevisionMetadata : Type 0 where
  pub workflow_id : String
  pub revision : ℕ
  pub content_hash : String
  pub source_device_id : Option String

abbrev pub without_payload : WorkflowRevision → RevisionMetadata
without_payload item = record {
  workflow_id = item.workflow_id;
  revision = item.revision;
  content_hash = item.content_hash;
  source_device_id = item.source_device_id;
}

-- The checks of `putRevision`.
unfoldable pub submission_error : (Json → String) → Bool → Submission → Option Error
unfolding contains_sensitive_default create_workflow_content_hash
submission_error digest is_valid r =
    if not is_valid
    then some (domain_error_with workflow_hash_mismatch 400)
    else if not (str_eq (create_workflow_content_hash digest r.document) r.item.content_hash)
    then some (domain_error_with workflow_hash_mismatch 400)
    else if contains_sensitive_default r.required_inputs
    then some (domain_error workflow_hash_mismatch)
    else none

-- `precedes a b` is `a.localeCompare(b) < 0`.
module _ (precedes : String → String → Bool) where
  abbrev pub is_before : WorkflowRevision → WorkflowRevision → Bool
  is_before a b =
      precedes a.workflow_id b.workflow_id
      || (not (precedes b.workflow_id a.workflow_id) && ltb a.revision b.revision)

  abbrev pub insert : WorkflowRevision → List WorkflowRevision → List WorkflowRevision
  insert x [] = x ∷ []
  insert x (y ∷ ys) = let rest = insert x ys in if is_before x y then x ∷ y ∷ ys else y ∷ rest

  abbrev pub sort_into : List WorkflowRevision → List WorkflowRevision → List WorkflowRevision
  sort_into sorted [] = sorted
  sort_into sorted (x ∷ xs) = sort_into (insert x sorted) xs

  unfoldable pub sort : List WorkflowRevision → List WorkflowRevision
  sort items = sort_into [] items

  abbrev pub source_field : Option String → Fields
  source_field none = end
  source_field (some d) = text_field "sourceDeviceId" d end

  abbrev pub accept : ℕ → WorkflowRevision → State → Outcome State Stored
  accept at next s =
      returns (record { created = true; revision = next })
        (audit_append at "workflow.accepted"
          (obj (
            text_field "workflowId" next.workflow_id
              (field "revision" (num next.revision) (source_field next.source_device_id))))
          (record s { workflow_revisions = sort (s.workflow_revisions ++ next ∷ []) }))

  abbrev pub store_revision :
      ℕ → WorkflowRevision → Option WorkflowRevision → State → Outcome State Stored
  store_revision at item (some existing) s =
      returns (record { created = false; revision = existing }) s
  store_revision at item none s = accept at (next_revision item s.workflow_revisions) s

  -- `putRevision`
  unfoldable pub put_revision :
      (digest : Json → String)
      → (is_valid : Bool) → (at : ℕ) → Submission
      → State
      → Outcome State Stored
  unfolding sort next_revision
  put_revision digest is_valid at r s =
      if_found (submission_error digest is_valid r)
        (store_revision at r.item (find_by_content_hash r.item.workflow_id r.item.content_hash s) s)
        (λ e. throws e s)

  -- `listMetadata`: the revisions without their payloads.
  unfoldable pub list_metadata : State → List RevisionMetadata
  list_metadata s = map without_payload (sort s.workflow_revisions)
