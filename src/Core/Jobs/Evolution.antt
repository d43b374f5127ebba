-- ===== src/Core/Jobs/Evolution.antt =====
-- What no call of `JobService` does to a command that it finds: change its id or device, take back
-- an attempt, leave a terminal status, or break the count of attempts and the holding of leases.
use web_action_recorder_exte.Common.{
  ℕ, ◌≤◌, ◌<◌, ◌≡◌, refl, ◌∙◌, Bool, true, false, String, some, arith, is_some, ◌≢◌, ◌⊎◌,
}
use web_action_recorder_exte.Core.Errors.{ok}
use web_action_recorder_exte.Core.State.{
  Command, Status, queued, dispatched, acknowledged, running, timed_out, leased,
}
use web_action_recorder_exte.Core.Transitions.{
  is_terminal, assert_transition, companion_to_unified, unified_to_companion,
}
use web_action_recorder_exte.Core.Commands.{
  create_command, CommandFields, number_or, TransitionOptions, transition, requeue_command,
}

pub record Evolves (c d : Command) : Type 0 where
  pub id_kept : c.id ≡ d.id
  pub device_kept : c.device_id ≡ d.device_id
  pub attempt_grows : c.attempt ≤ d.attempt
  pub final :
      is_terminal (companion_to_unified c.status) ≡ true
      → companion_to_unified d.status ≡ companion_to_unified c.status

abbrev pub attempt_limit : Command → ℕ
attempt_limit c = number_or (some c.max_attempts) 3

abbrev pub is_live : Status → Bool
is_live leased = true
is_live dispatched = true
is_live acknowledged = true
is_live running = true
is_live _ = false

pub record IsSound (c : Command) : Type 0 where
  -- no more attempts than allowed, and one left while queued
  pub capped : c.attempt ≤ attempt_limit c
  pub spare : companion_to_unified c.status ≡ queued → c.attempt < attempt_limit c
  -- a command in an agent's hands has a lease with an end
  pub held : is_live c.status ≡ true → (is_some c.lease_id ≡ true) × (is_some c.lease_until ≡ true)

pub Evolves-refl : (c : Command) → Evolves c c
Evolves-refl c = record {
  id_kept = refl;
  device_kept = refl;
  attempt_grows = omega arith;
  final = λ _. refl;
}

pub Evolves-trans : (a b c : Command) → Evolves a b → Evolves b c → Evolves a c
Evolves-trans a b c p q = record {
  id_kept = p.id_kept ∙ q.id_kept;
  device_kept = p.device_kept ∙ q.device_kept;
  attempt_grows = omega arith;
  final = λ t. let e = p.final t in q.final (rw e t) ∙ e;
}

pub create_command-IsSound :
    (now : ℕ) (fields : CommandFields) → IsSound (create_command now fields)
create_command-IsSound now fields = ground arith

pub requeue_command-Evolves : (now : ℕ) (c : Command) → Evolves c (requeue_command now c)
unfolding requeue_command
requeue_command-Evolves now c = ground arith

pub requeue_command-IsSound : (now : ℕ) (c : Command) → IsSound c → IsSound (requeue_command now c)
unfolding requeue_command
requeue_command-IsSound now c v = ground arith

module _ (now clock : ℕ) (lease : String) (to : Status) (options : TransitionOptions)
    (c : Command) where
  -- `timed_out`, which the companion's words do not have, is never asked for.
  pub transition-Evolves :
      {d : Command} → to ≢ timed_out → transition now clock lease to options c ≡ ok d → Evolves c d
  unfolding transition assert_transition
  transition-Evolves n h = ground arith

  -- A sound command stays so, where a new lease goes to a queued command only.
  pub transition-IsSound :
      {d : Command}
      → (to ≢ dispatched) ⊎ (companion_to_unified c.status ≡ queued)
      → to ≢ queued
      → transition now clock lease to options c ≡ ok d
      → IsSound c
      → IsSound d
  unfolding transition assert_transition
  transition-IsSound fresh forward h v = ground arith

  pub status-transition :
      {d : Command}
      → transition now clock lease to options c ≡ ok d
      → d.status ≡ unified_to_companion to
  unfolding transition
  status-transition h = ground arith
