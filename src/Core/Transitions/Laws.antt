-- ===== src/Core/Transitions/Laws.antt =====
-- What the life cycle of stateTransitions.js allows.
use web_action_recorder_exte.Common.{
  ◌≡◌, refl, ◌↔◌, ◌⊎◌, inl, inr, ◌≢◌, arith, Option, none, some, true, false, Bool-cases,
  if◌then◌else◌,
}
use web_action_recorder_exte.Json.{Json, eq_of_json_eq, json_eq_refl}
use web_action_recorder_exte.Core.Errors.{ok, err, domain_error, job_terminal}
use web_action_recorder_exte.Core.State.{
  Status, queued, dispatched, acknowledged, running, succeeded, failed, cancelled, timed_out,
}
use web_action_recorder_exte.Core.Transitions.{
  is_unified, is_terminal, allowed, terminal_results_conflict, assert_transition, status_eq,
  companion_to_unified, unified_to_companion,
}

-- The edges of the life cycle.
pub data Live : Status → Type 0 where
  live_dispatched : Live dispatched
  live_acknowledged : Live acknowledged
  live_running : Live running

pub data Edge : Status → Status → Type 0 where
  dispatch : Edge queued dispatched
  acknowledge : Edge dispatched acknowledged
  start_dispatched : Edge dispatched running
  start_acknowledged : Edge acknowledged running
  succeed : Edge running succeeded
  fail : {s : Status} → Live s → Edge s failed
  cancel_queued : Edge queued cancelled
  cancel : {s : Status} → Live s → Edge s cancelled
  time_out_queued : Edge queued timed_out
  time_out : {s : Status} → Live s → Edge s timed_out

ruleset edges = (
  live_dispatched, live_acknowledged, live_running, dispatch, acknowledge, start_dispatched,
  start_acknowledged, succeed, fail, cancel_queued, cancel, time_out_queued, time_out,
)

-- Results agree unless both are there and differ.
abbrev pub Agree : Option Json → Option Json → Type 0
Agree (some l) (some r) = l ≡ r
Agree _ _ = Unit

Agree-iff : (l r : Option Json) → (terminal_results_conflict l r ≡ false) ↔ Agree l r
unfolding terminal_results_conflict
Agree-iff none r = (λ _. tt, λ _. refl)
Agree-iff (some l) none = (λ _. tt, λ _. refl)
Agree-iff (some l) (some r) = ground (arith, json_eq_refl l, eq_of_json_eq l r)

-- A transition follows an edge, stays in a live unified status, or repeats a terminal one.
pub data Accepted (from to : Status) (previous next : Option Json) : Type 0 where
  moves : Edge from to → Accepted from to previous next
  stays : from ≡ to → is_unified to ≡ true → is_terminal to ≡ false → Accepted from to previous next
  repeats : from ≡ to → is_terminal to ≡ true → Agree previous next → Accepted from to previous next

allowed-Edge : (from to : Status) → allowed from to ≡ true → Edge from to
allowed-Edge from to h = grind (arith, edges)

Edge-allowed :
    {from to : Status}
    → Edge from to
    → (allowed from to ≡ true) × (is_unified to ≡ true) × (is_terminal from ≡ false)
Edge-allowed dispatch = (refl, refl, refl)
Edge-allowed acknowledge = (refl, refl, refl)
Edge-allowed start_dispatched = (refl, refl, refl)
Edge-allowed start_acknowledged = (refl, refl, refl)
Edge-allowed succeed = (refl, refl, refl)
Edge-allowed (fail live_dispatched) = (refl, refl, refl)
Edge-allowed (fail live_acknowledged) = (refl, refl, refl)
Edge-allowed (fail live_running) = (refl, refl, refl)
Edge-allowed cancel_queued = (refl, refl, refl)
Edge-allowed (cancel live_dispatched) = (refl, refl, refl)
Edge-allowed (cancel live_acknowledged) = (refl, refl, refl)
Edge-allowed (cancel live_running) = (refl, refl, refl)
Edge-allowed time_out_queued = (refl, refl, refl)
Edge-allowed (time_out live_dispatched) = (refl, refl, refl)
Edge-allowed (time_out live_acknowledged) = (refl, refl, refl)
Edge-allowed (time_out live_running) = (refl, refl, refl)

status_eq_sound : (a b : Status) → status_eq a b ≡ true → a ≡ b
status_eq_sound a b h = ground arith

sound :
    (from to : Status) (previous next : Option Json)
    → assert_transition from to previous next ≡ ok tt
    → Accepted from to previous next
unfolding assert_transition
sound from to previous next h = elim (Bool-cases (status_eq from to)) [
  | inl same ↦ elim (Bool-cases (is_terminal to)) [
    | inl over ↦
        repeats (status_eq_sound from to same) over ((Agree-iff previous next).0 (ground arith))
    | inr live ↦ stays (status_eq_sound from to same) (ground arith) live
  ]
  | inr moved ↦ moves (allowed-Edge from to (ground arith))
]

complete :
    (from to : Status) (previous next : Option Json)
    → Accepted from to previous next
    → assert_transition from to previous next ≡ ok tt
unfolding assert_transition
complete from to previous next (moves e) = ground (arith, Edge-allowed e)
complete from to previous next (stays e u n) = ground arith
complete from to previous next (repeats e n a) = ground (arith, Agree-iff previous next)

-- A transition is accepted exactly when it follows an edge of the life cycle, stays in a status
-- that is not terminal, or repeats a terminal status with a result that does not conflict.
pub assert_transition_iff :
    (from to : Status) (previous next : Option Json)
    → (assert_transition from to previous next ≡ ok tt) ↔ Accepted from to previous next
assert_transition_iff from to previous next =
    (sound from to previous next, complete from to previous next)

-- The refusal is JOB_TERMINAL (409) exactly when a terminal status would be left for another
-- unified one, or repeated with a result that conflicts.
pub assert_transition-job_terminal_iff :
    (from to : Status) (previous next : Option Json)
    → (assert_transition from to previous next ≡ err (domain_error job_terminal)) ↔ (
        (is_terminal from ≡ true)
        × (is_unified to ≡ true)
        × ((from ≢ to) ⊎ (terminal_results_conflict previous next ≡ true)))
unfolding assert_transition
assert_transition-job_terminal_iff from to previous next = ground (arith, status_eq_sound from to)

-- A unified status written in the companion's words is read back as itself, but for `timed_out`,
-- which is read back as `failed`; so a terminal status stays terminal, and no other becomes so.
pub companion_round_trip :
    (s : Status)
    → is_unified s ≡ true
    → (companion_to_unified (unified_to_companion s)
        ≡ (if status_eq s timed_out then failed else s))
      × (is_terminal (companion_to_unified (unified_to_companion s)) ≡ is_terminal s)
companion_round_trip s u = ground arith
