-- ===== src/Core/Audit.antt =====
-- platform/controller-core/src/auditService.js: the audit log, the last thousand events.
use web_action_recorder_exte.Common.{
  ℕ, ◌+◌, ◌≤◌, String, length, push_bounded, length-push_bounded, ◌≡◌, min,
}
use web_action_recorder_exte.Json.{Json, Fields, str, field}
use web_action_recorder_exte.Json.Redact.{redact}
use web_action_recorder_exte.Core.State.{State}

abbrev pub audit_limit : ℕ
audit_limit = 1000

-- `{ key: text }`
abbrev pub text_field : String → String → Fields → Fields
text_field k v rest = field k (str v) rest

-- `AuditService.append`; `at` is the reading of `this.now()`.
abbrev pub audit_append : ℕ → String → Json → State → State
audit_append at kind details s = record s {
  audit_events = push_bounded audit_limit s.audit_events (record {
    sequence = length s.audit_events + 1;
    kind = kind;
    at = at;
    details = redact details;
  });
}

-- The log never holds more than a thousand events.
pub audit_append-le-limit :
    (at : ℕ) (kind : String) (details : Json) (s : State)
    → length s.audit_events ≤ audit_limit
    → length (audit_append at kind details s).audit_events
      ≡ min audit_limit (length s.audit_events + 1)
audit_append-le-limit at kind details s h = length-push_bounded audit_limit s.audit_events _ h
