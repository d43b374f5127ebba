-- ===== src/Agent/Errors.antt =====
-- platform/browser-agent/src/errors.js: what an error of the agent shows to its caller.
use web_action_recorder_exte.Common.{
  ℕ, String, Bool, true, false, ◌&&◌, ◌||◌, ◌==◌, str_eq, List, [], ◌∷◌, any, if◌then◌else◌, ◌≡◌,
  refl, arith, Bool-cases, inl, inr,
}
use web_action_recorder_exte.Json.Pattern.{codes}

-- `PUBLIC_AGENT_ERROR_CODES`
abbrev pub public_agent_error_codes : List String
public_agent_error_codes =
    "CLIPBOARD_VERIFY_FAILED" ∷ "artifact_not_found" ∷ "browser_not_running"
    ∷ "browser_profile_in_use" ∷ "browser_profile_lock_cleanup_failed"
    ∷ "browser_profile_lock_invalid" ∷ "browser_profile_lock_read_failed" ∷ "browser_stop_timeout"
    ∷ "command_aborted" ∷ "command_failed" ∷ "deadline_exceeded" ∷ "extension_not_loaded"
    ∷ "forbidden" ∷ "identity_invalid" ∷ "input_queue_overflow" ∷ "invalid_artifact"
    ∷ "invalid_config" ∷ "invalid_envelope" ∷ "invalid_internal_page" ∷ "invalid_json"
    ∷ "invalid_payload" ∷ "invalid_protocol" ∷ "invalid_response" ∷ "invalid_target"
    ∷ "invalid_timestamp" ∷ "invalid_url" ∷ "payload_too_large" ∷ "point_out_of_bounds"
    ∷ "remote_frame_too_large" ∷ "sandbox_status_unavailable" ∷ "screenshot_too_large"
    ∷ "semantic_timeout" ∷ "sensitive_log" ∷ "tab_not_found" ∷ "unauthorized"
    ∷ "unsupported_command" ∷ "wrong_device" ∷ "x11_command_failed" ∷ "x11_connect_failed"
    ∷ "x11_connect_timeout" ∷ "x11_disconnected" ∷ "x11_reconnect_limit" ∷ "x11_timeout"
    ∷ "x11_write_failed" ∷ []

abbrev pub is_one_of : List String → String → Bool
is_one_of xs x = any (λ y. str_eq y x) xs

abbrev starts_with : List ℕ → List ℕ → Bool
starts_with [] text = true
starts_with (c ∷ w) [] = false
starts_with (c ∷ w) (d ∷ text) = c == d && starts_with w text

abbrev ends_with : List ℕ → List ℕ → Bool
ends_with w [] = false
ends_with w (c ∷ text) = (starts_with w (c ∷ text) && starts_with (c ∷ text) w) || ends_with w text

abbrev has : List ℕ → List ℕ → Bool
has w [] = starts_with w []
has w (c ∷ text) = starts_with w (c ∷ text) || has w text

abbrev is_invalid : String → Bool
is_invalid code =
    starts_with (codes "invalid_") (codes code)
    || str_eq code "wrong_device"
    || str_eq code "unsupported_command"
    || str_eq code "point_out_of_bounds"
    || str_eq code "sensitive_log"

abbrev is_unavailable : String → Bool
is_unavailable code =
    has (codes "timeout") (codes code)
    || has (codes "unavailable") (codes code)
    || has (codes "not_running") (codes code)
    || has (codes "disconnected") (codes code)

-- The message that the first test which holds decides.
abbrev message_by : (internal unauthorized forbidden missing invalid unavailable : Bool) → String
message_by internal unauthorized forbidden missing invalid unavailable =
    if internal
    then "Internal server error"
    else if unauthorized
    then "Authorization is required"
    else if forbidden
    then "Request denied"
    else if missing
    then "Requested resource was not found"
    else if invalid
    then "Invalid request"
    else if unavailable
    then "Requested service is unavailable"
    else "Request rejected"

-- `publicAgentErrorMessage`; the two codes that it names beside `_not_found` end so.
unfoldable pub public_agent_error_message : String → String
public_agent_error_message code =
    message_by (str_eq code "internal_error") (str_eq code "unauthorized") (str_eq code "forbidden")
      (ends_with (codes "_not_found") (codes code)) (is_invalid code) (is_unavailable code)

-- An `AgentError` with its code and text, or another error.
pub data Thrown : Type 0 where
  agent_error : (code message : String) → Thrown
  other_error : (message : String) → Thrown

pub record PublicError : Type 0 where
  pub code : String
  pub message : String

abbrev public_code : String → String
public_code code = if is_one_of public_agent_error_codes code then code else "internal_error"

-- `toPublicError`
unfoldable pub to_public_error : Thrown → PublicError
to_public_error (agent_error code message) = record {
  code = public_code code;
  message = public_agent_error_message (public_code code);
}
to_public_error (other_error message) = record {
  code = "internal_error";
  message = "Internal server error";
}

abbrev pub public_messages : List String
public_messages =
    "Internal server error" ∷ "Authorization is required" ∷ "Request denied"
    ∷ "Requested resource was not found" ∷ "Invalid request" ∷ "Requested service is unavailable"
    ∷ "Request rejected" ∷ []

message_by-listed : (a b c d e f : Bool) → is_one_of public_messages (message_by a b c d e f) ≡ true
message_by-listed true b c d e f = refl
message_by-listed false true c d e f = refl
message_by-listed false false true d e f = refl
message_by-listed false false false true e f = refl
message_by-listed false false false false true f = refl
message_by-listed false false false false false true = refl
message_by-listed false false false false false false = refl

message-listed :
    (code : String) → is_one_of public_messages (public_agent_error_message code) ≡ true
unfolding public_agent_error_message
message-listed code =
    message_by-listed (str_eq code "internal_error") (str_eq code "unauthorized")
      (str_eq code "forbidden") (ends_with (codes "_not_found") (codes code)) (is_invalid code)
      (is_unavailable code)

code-listed :
    (code : String)
    → is_one_of ("internal_error" ∷ public_agent_error_codes) (public_code code) ≡ true
code-listed code = elim (Bool-cases (is_one_of public_agent_error_codes code)) [
  | inl e ↦ rw e (ground (arith, e))
  | inr e ↦ rw e refl
]

-- Whatever is thrown, what is shown is one of the public codes or `internal_error` with one of
-- seven fixed messages, and it depends on the code alone: two agent errors with one code show the
-- same, whatever their own messages say.
pub to_public_error-closed :
    (e : Thrown) (code message message' : String)
    → (is_one_of ("internal_error" ∷ public_agent_error_codes) (to_public_error e).code ≡ true)
      × (is_one_of public_messages (to_public_error e).message ≡ true)
      × (to_public_error (agent_error code message) ≡ to_public_error (agent_error code message'))
unfolding to_public_error
to_public_error-closed (agent_error c m) code message message' =
    (code-listed c, message-listed (public_code c), refl)
to_public_error-closed (other_error m) code message message' = (refl, refl, refl)
