-- ===== src/Tests/Revisions.antt =====
-- Instances of the theorems on platform/workflow-core and on the workflow registry.
use web_action_recorder_exte.Common.{String, Bool, true, false, [], ◌∷◌, none, ◌≡◌, ◌↔◌, refl}
use web_action_recorder_exte.Json.{Json, obj, str, num, field, end}
use web_action_recorder_exte.Json.Order.{text_less}
use web_action_recorder_exte.Core.Errors.{returns, state_of, ok}
use web_action_recorder_exte.Core.State.{State}
use web_action_recorder_exte.Core.Workflows.{
  Submission, Stored, put_revision, get_revision, submission_error, contains_sensitive_default,
  sort, next_revision,
}
use web_action_recorder_exte.Core.Workflows.Laws.{IsNumbered, put_revision-IsNumbered}
use web_action_recorder_exte.Core.Workflows.Answers.{put_revision-get_revision}
use web_action_recorder_exte.Workflow.Metadata.{
  canonicalize_workflow_metadata, create_workflow_content_hash,
}
use web_action_recorder_exte.Workflow.Metadata.Canonical.{
  SameContent, canonicalize_workflow_metadata_iff,
}
use web_action_recorder_exte.Tests.Fixtures.{held, holding}

abbrev named_first : Json
named_first = obj (field "name" (str "w") (field "revision" (num 1) end))

abbrev named_last : Json
named_last = obj (field "revision" (num 2) (field "__proto__" (num 3) (field "name" (str "w") end)))

canonicalize_workflow_metadata_iff_example :
    (canonicalize_workflow_metadata named_first ≡ canonicalize_workflow_metadata named_last)
    ↔ SameContent
        ("contentHash" ∷ "createdAt" ∷ "updatedAt" ∷ "revision" ∷ "sourceDeviceId" ∷ [])
        named_first
        named_last
canonicalize_workflow_metadata_iff_example =
    canonicalize_workflow_metadata_iff named_first named_last

abbrev same_digest : Json → String
same_digest j = "h"

abbrev by_text : String → String → Bool
by_text a b = text_less a b

abbrev submission : Submission
submission = record {
  item = record {
    workflow_id = "w";
    revision = 1;
    content_hash = "h";
    source_device_id = none;
    profile_payload = obj end;
  };
  document = named_first;
  required_inputs = [];
}

-- The store holds the first revision of the same workflow, with other content.
abbrev earlier : State
earlier = record (holding held) {
  workflow_revisions =
      record {
        workflow_id = "w";
        revision = 1;
        content_hash = "g";
        source_device_id = none;
        profile_payload = obj end;
      }
      ∷ [];
}

abbrev second : Stored
second = record {
  created = true;
  revision = record {
    workflow_id = "w";
    revision = 2;
    content_hash = "h";
    source_device_id = none;
    profile_payload = obj end;
  };
}

abbrev later : State
later = state_of (put_revision by_text same_digest true 5 submission earlier)

stored : put_revision by_text same_digest true 5 submission earlier ≡ returns second later
unfolding put_revision submission_error contains_sensitive_default sort next_revision
    create_workflow_content_hash
stored = refl

put_revision-IsNumbered_example : IsNumbered later.workflow_revisions
put_revision-IsNumbered_example =
    put_revision-IsNumbered by_text same_digest true 5 submission earlier (tt, tt)

put_revision-get_revision_example :
    (get_revision "w" 2 later ≡ ok second.revision)
    × (put_revision by_text same_digest true 6 submission later
        ≡ returns (record { created = false; revision = second.revision }) later)
put_revision-get_revision_example =
    put_revision-get_revision by_text same_digest true 5 6 submission earlier later second (tt, tt)
      stored
