-- ===== src/Core/Transitions.antt =====
-- platform/controller-core/src/stateTransitions.js: the life cycle of a job.
pub mod Laws
use web_action_recorder_exte.Common.{
  ℕ, Bool, true, false, not, ◌&&◌, ◌==◌, if◌then◌else◌, Option, none, some,
}
use web_action_recorder_exte.Json.{Json, json_eq}
use web_action_recorder_exte.Core.Errors.{
  Result, ok, err, domain_error, job_terminal, invalid_transition,
}
use web_action_recorder_exte.Core.State.{
  Status, queued, dispatched, acknowledged, running, succeeded, failed, cancelled, timed_out,
  leased, timeout,
}

-- `UNIFIED_JOB_STATUSES.includes(status)`
abbrev pub is_unified : Status → Bool
is_unified leased = false
is_unified timeout = false
is_unified _ = true

-- `TERMINAL_STATUSES.has(status)`
abbrev pub is_terminal : Status → Bool
is_terminal succeeded = true
is_terminal failed = true
is_terminal cancelled = true
is_terminal timed_out = true
is_terminal _ = false

-- `ALLOWED.get(from)?.has(to)`
abbrev pub allowed : Status → Status → Bool
allowed queued dispatched = true
allowed queued cancelled = true
allowed queued timed_out = true
allowed dispatched acknowledged = true
allowed dispatched running = true
allowed dispatched cancelled = true
allowed dispatched failed = true
allowed dispatched timed_out = true
allowed acknowledged running = true
allowed acknowledged cancelled = true
allowed acknowledged failed = true
allowed acknowledged timed_out = true
allowed running succeeded = true
allowed running failed = true
allowed running cancelled = true
allowed running timed_out = true
allowed _ _ = false

abbrev rank : Status → ℕ
rank queued = 0
rank dispatched = 1
rank acknowledged = 2
rank running = 3
rank succeeded = 4
rank failed = 5
rank cancelled = 6
rank timed_out = 7
rank leased = 8
rank timeout = 9

-- `===` on statuses
abbrev pub status_eq : Status → Status → Bool
status_eq a b = rank a == rank b

unfoldable pub terminal_results_conflict : Option Json → Option Json → Bool
terminal_results_conflict none right = false
terminal_results_conflict (some l) none = false
terminal_results_conflict (some l) (some r) = not (json_eq l r)

-- The callers pass no `idempotentTerminal`, so it has its default, true.
unfoldable pub assert_transition : Status → Status → Option Json → Option Json → Result (Unit {0})
assert_transition from to previous next =
    if not (is_unified to)
    then err (domain_error invalid_transition)
    else if status_eq from to && is_terminal to && not (terminal_results_conflict previous next)
    then ok tt
    else if status_eq from to && not (is_terminal to)
    then ok tt
    else if is_terminal from
    then err (domain_error job_terminal)
    else if not (allowed from to)
    then err (domain_error invalid_transition)
    else ok tt

abbrev pub companion_to_unified : Status → Status
companion_to_unified leased = dispatched
companion_to_unified timeout = timed_out
companion_to_unified s = s

abbrev pub unified_to_companion : Status → Status
unified_to_companion dispatched = leased
unified_to_companion timed_out = failed
unified_to_companion s = s
