-- ===== src/Core/Sessions/Receive.antt =====
-- Which execution events are let in.
use web_action_recorder_exte.Common.{
  ◌≡◌, refl, ℕ, leb, true, false, ◌⊎◌, inl, inr, String, str_eq, some, find_first, Bool-cases,
  arith,
}
use web_action_recorder_exte.Core.Errors.{Result-cases, state_of, ok}
use web_action_recorder_exte.Core.State.{State, Command}
use web_action_recorder_exte.Core.Commands.{has_id}
use web_action_recorder_exte.Core.Sessions.{Manager, Session, require_session}
use web_action_recorder_exte.Core.Sessions.Dispatch.{
  receive_execution_event, ExecutionEnvelope, get_command,
}

-- The session is live, the job known and the device's own, the session the envelope's, and the
-- deadline ahead.
abbrev pub IsCurrent : ℕ → ExecutionEnvelope → Manager → Session → Command → Type 0
IsCurrent now e m session command =
    (require_session m e.device_id e.generation ≡ ok session)
    × (find_first (has_id e.job_id) m.core.commands ≡ some command)
    × (str_eq command.device_id session.device_id ≡ true)
    × (str_eq e.session_id session.session_id ≡ true)
    × (leb e.deadline now ≡ false)

get_command-find :
    (s : State) (id : String) {c : Command}
    → get_command s id ≡ ok c
    → find_first (has_id id) s.commands ≡ some c
get_command-find s id h = ground arith

-- An execution event changes nothing, in the state or in the sessions, unless it comes over the
-- live session of its device, bears that session's id, is about a job of the device, and is in time.
pub receive_execution_event-IsCurrent :
    (now clock : ℕ) (lease : String) (e : ExecutionEnvelope) (m : Manager)
    → (state_of (receive_execution_event now clock lease e m) ≡ m)
      ⊎ ((session : Session) × (command : Command) × IsCurrent now e m session command)
unfolding receive_execution_event
receive_execution_event-IsCurrent now clock lease e m = elim (Bool-cases (leb e.deadline now)) [
  | inl d ↦ inl (rw d refl)
  | inr d ↦ elim (Result-cases (require_session m e.device_id e.generation)) [
    | inr (x, q) ↦ inl (rw (d, q) refl)
    | inl (session, q) ↦ elim (Result-cases (get_command m.core e.job_id)) [
      | inr (x, g) ↦ inl (rw (d, q, g) refl)
      | inl (command, g) ↦ elim (Bool-cases (str_eq command.device_id session.device_id)) [
        | inr o ↦ inl (rw (d, q, g, o) refl)
        | inl o ↦ elim (Bool-cases (str_eq e.session_id session.session_id)) [
          | inr i ↦ inl (rw (d, q, g, o, i) refl)
          | inl i ↦ inr (session, command, (q, get_command-find m.core e.job_id g, o, i, d))
        ]
      ]
    ]
  ]
]
