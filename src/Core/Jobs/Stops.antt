-- ===== src/Core/Jobs/Stops.antt =====
-- platform/controller-core/src/jobService.js: how a command ends without its lease holder:
-- `failRunningForDevice`, `legacyResult` and `cancelCommand`.
use web_action_recorder_exte.Common.{
  ℕ, String, Bool, true, false, ◌&&◌, Option, none, some, List, [], ◌∷◌, ◌++◌, find_first,
  if◌then◌else◌,
}
use web_action_recorder_exte.Json.{Json, obj, bool, end, field}
use web_action_recorder_exte.Core.Errors.{
  Error, Result, ok, err, Outcome, returns, throws, or_throw, if_found, domain_error_with,
  invalid_target,
}
use web_action_recorder_exte.Core.State.{State, Command, running, failed, cancelled}
use web_action_recorder_exte.Core.Transitions.{is_terminal, status_eq, companion_to_unified}
use web_action_recorder_exte.Core.Audit.{audit_append, text_field}
use web_action_recorder_exte.Core.Commands.{
  no_options, with_result, transition, has_id, is_of_device,
}
use web_action_recorder_exte.Core.Jobs.{map_result, complete, record_terminal, write_first}

-- The default result of `failRunningForDevice`, which its callers do not replace.
abbrev pub disconnected : Json
disconnected =
    obj (field "ok" (bool false) (text_field "error" "Agent disconnected during execution" end))

abbrev pub is_running : String → Command → Bool
is_running device_id c =
    is_of_device device_id c && status_eq (companion_to_unified c.status) running

abbrev pub fail_writes : ℕ → Command → Command
fail_writes now c = record c {
  result = some disconnected;
  error = some "Agent disconnected during execution";
  completed_at = some now;
}

-- The transition of one running command, and the writes that follow it.
unfoldable pub fail_command : (now clock : ℕ) (lease : String) → Command → Result Command
fail_command now clock lease c =
    map_result (fail_writes now)
      (transition now clock lease failed (with_result (some disconnected)) c)

-- What the loop has made of the commands so far, of the rest of the state, and of its result.
pub record Progress : Type 0 where
  pub commands : List Command
  pub rest : State
  pub listed : List Command
  pub thrown : Option Error

abbrev keep_command : Command → Progress → Progress
keep_command c p = record p { commands = c ∷ p.commands }

abbrev fail_step :
    String
    → ℕ
    → Result Command
    → Command
    → List Command
    → (State → List Command → Progress)
    → State
    → List Command
    → Progress
fail_step device_id now (err e) c cs go s listed = record {
  commands = c ∷ cs;
  rest = s;
  listed = listed;
  thrown = some e;
}
fail_step device_id now (ok c') c cs go s listed =
    keep_command c'
      (go (record_terminal now device_id (some disconnected) c' s) (listed ++ c' ∷ []))

-- The loop of `failRunningForDevice`; a throw would leave the later commands as they are.
unfoldable pub fail_loop :
    (now clock : ℕ) (lease device_id : String) → List Command → State → List Command → Progress
fail_loop now clock lease device_id [] s listed = record {
  commands = [];
  rest = s;
  listed = listed;
  thrown = none;
}
fail_loop now clock lease device_id (c ∷ cs) s listed =
    let go = fail_loop now clock lease device_id cs in
    elim (is_running device_id c) [
      | false ↦ keep_command c (go s listed)
      | true ↦ fail_step device_id now (fail_command now clock lease c) c cs go s listed
    ]

abbrev pub finish_loop : Progress → Outcome State (List Command)
finish_loop p = elim p.thrown [
  | none ↦ returns p.listed (record (p.rest) { commands = p.commands })
  | some e ↦ throws e (record (p.rest) { commands = p.commands })
]

-- `failRunningForDevice`
unfoldable pub fail_running_for_device :
    (now clock : ℕ) (lease device_id : String) → State → Outcome State (List Command)
fail_running_for_device now clock lease device_id s =
    finish_loop (fail_loop now clock lease device_id s.commands s [])

abbrev pub with_found :
    String → State → (Command → Result Command) → (Command → State → State) → Outcome State Command
with_found command_id s change after =
    if_found (find_first (has_id command_id) s.commands)
      (throws (domain_error_with invalid_target 404) s)
      λ c. or_throw s (change c) λ c'. returns c' (after c' (write_first (has_id command_id) c' s))

-- `legacyResult`; its `{ ok: true }` stands as the command.
unfoldable pub legacy_result :
    (now clock : ℕ) (lease command_id : String) → Option Json → State → Outcome State Command
legacy_result now clock lease command_id result s =
    with_found command_id s (complete now clock lease result) (λ _ s'. s')

abbrev pub cancel_writes : ℕ → Command → Command
cancel_writes now c = record c { completed_at = some now }

abbrev pub cancel_change : (now clock : ℕ) (lease : String) → Command → Result Command
cancel_change now clock lease c =
    map_result (cancel_writes now) (transition now clock lease cancelled no_options c)

-- `cancelCommand`: a terminal command is returned as it is.
unfoldable pub cancel_command :
    (now clock : ℕ) (lease command_id : String) → State → Outcome State Command
cancel_command now clock lease command_id s =
    if_found (find_first (has_id command_id) s.commands)
      (throws (domain_error_with invalid_target 404) s)
      λ c.
        if is_terminal (companion_to_unified c.status)
        then returns c s
        else with_found command_id s (cancel_change now clock lease)
            (λ _. audit_append now "job.cancelled" (obj (text_field "commandId" command_id end)))
