-- ===== src/Core/Jobs/Leases.antt =====
-- Who holds a command: what `leaseNext` hands out, and what becomes of a lease that has ended.
use web_action_recorder_exte.Common.{
  ℕ, ◌+◌, ◌≤◌, ◌<◌, ◌≡◌, ap, true, false, ◌&&◌, String, Option, none, some, List, [], ◌∷◌, map,
  arith, All, find_first, update_first, find_first-holds, Bool-cases, inl, inr, eq_iff, sym, ◌∙◌,
  leb→le, eq_of_some, get_or_else,
}
use web_action_recorder_exte.Json.{Json}
use web_action_recorder_exte.Core.Errors.{
  ok, err, returns, throws, domain_error, invalid_target, or_throw-eq-returns, if_found-eq-returns,
  returns-injective,
}
use web_action_recorder_exte.Core.State.{State, Command, Device, dispatched, leased}
use web_action_recorder_exte.Core.Commands.{
  require_command, require_device, requeue_expired, requeue_command, is_command, is_device,
  transition, is_leased, has_expired, number_or, TransitionOptions,
}
use web_action_recorder_exte.Core.Jobs.{
  lease_next, lease_due, is_due, acknowledge, finish, reject_if_revoked,
}
use web_action_recorder_exte.Core.Jobs.Evolution.{attempt_limit}

-- Once ended leases are requeued, no command is in an agent's hands past the end of its lease.
pub requeue_expired-ends :
    (now : ℕ) (cs : List Command)
    → All
        (λ c. (is_leased c.status && has_expired now c.lease_until) ≡ false)
        (map (requeue_command now) cs)
unfolding requeue_command
requeue_expired-ends now [] = tt
requeue_expired-ends now (c ∷ cs) = (ground arith, requeue_expired-ends now cs)

requeue_command-idempotent :
    (now : ℕ) (c : Command) → requeue_command now (requeue_command now c) ≡ requeue_command now c
unfolding requeue_command
requeue_command-idempotent now c = ground arith

is_command-requeue :
    (now : ℕ) (device_id command_id : String) (c : Command)
    → is_command device_id command_id (requeue_command now c) ≡ is_command device_id command_id c
unfolding requeue_command
is_command-requeue now device_id command_id c = ground arith

lease_id-requeue :
    (now : ℕ) (c : Command) {t : ℕ}
    → is_leased c.status ≡ true
    → c.lease_until ≡ some t
    → t ≤ now
    → c.attempt < attempt_limit c
    → (requeue_command now c).lease_id ≡ none
unfolding requeue_command
lease_id-requeue now c live end le spare = ground arith

find_first-requeue :
    (now : ℕ) (device_id command_id : String) (cs : List Command) {c : Command}
    → find_first (is_command device_id command_id) cs ≡ some c
    → find_first (is_command device_id command_id) (map (requeue_command now) cs)
      ≡ some (requeue_command now c)
find_first-requeue now device_id command_id [] h = cc
find_first-requeue now device_id command_id (x ∷ xs) h =
    elim (Bool-cases (is_command device_id command_id x)) [
      | inl e ↦ ground (arith, is_command-requeue now device_id command_id x)
      | inr e ↦
          rw (is_command-requeue now device_id command_id x, e)
            (find_first-requeue now device_id command_id xs (rw e at h))
    ]

require_command-err :
    (s : State) (device_id command_id l : String) (d : Device) (c : Command)
    → require_device s device_id ≡ ok d
    → find_first (is_command device_id command_id) s.commands ≡ some c
    → c.lease_id ≡ none
    → require_command s device_id command_id (some l) ≡ err (domain_error invalid_target)
unfolding require_command
require_command-err s device_id command_id l d c hd hc n = ground arith

-- Once `requeueExpired` has put a command of a known device back in the queue, since its lease had
-- ended and it had attempts left, a call of `acknowledge` or `finish` with any lease id, the one the
-- command had included, throws INVALID_TARGET (400) and changes nothing.
pub finish-ended_lease :
    (now clock at : ℕ) (lease device_id command_id l : String) (result : Option Json) (s : State)
    (d : Device) (c : Command) (t : ℕ)
    → require_device s device_id ≡ ok d
    → find_first (is_command device_id command_id) s.commands ≡ some c
    → is_leased c.status ≡ true
    → c.lease_until ≡ some t
    → t ≤ at
    → c.attempt < attempt_limit c
    → (finish now clock lease device_id command_id (some l) result (requeue_expired at s)
        ≡ throws (domain_error invalid_target) (requeue_expired at s))
      × (acknowledge now clock lease device_id command_id (some l) (requeue_expired at s)
          ≡ throws (domain_error invalid_target) (requeue_expired at s))
unfolding finish acknowledge require_device
finish-ended_lease now clock at lease device_id command_id l result s d c t hd hc live end le
      spare =
    let e = find_first-requeue at device_id command_id s.commands hc in
    let n = lease_id-requeue at c live end le spare in
    let r =
      require_command-err (requeue_expired at s) device_id command_id l d (requeue_command at c) hd
        e n in
    (rw r, rw r)

transition-leased :
    (now clock : ℕ) (lease : String) (options : TransitionOptions) (x : Command) {y : Command}
    → transition now clock lease dispatched options x ≡ ok y
    → y ≡ record x {
      status = leased;
      attempt = x.attempt + 1;
      lease_id = some lease;
      lease_until = some (get_or_else options.now clock + number_or options.lease_ms 30000);
      started_at = some (get_or_else x.started_at now);
    }
unfolding transition
transition-leased now clock lease options x h = ground arith

-- A command as `leaseNext` hands it out, with a lease of `ms` milliseconds.
abbrev pub lease_for : (now clock : ℕ) (lease : String) → Option ℕ → Command → Command
lease_for now clock lease ms x = record x {
  status = leased;
  attempt = x.attempt + 1;
  lease_id = some lease;
  lease_until = some (clock + number_or ms 30000);
  started_at = some (get_or_else x.started_at now);
}

lease_due_lem :
    (now clock : ℕ) (lease device_id : String) (ms : Option ℕ) (s t : State) {c : Command}
    → lease_due now clock lease device_id ms s ≡ returns (some c) t
    → (x : Command) × (find_first (is_due clock device_id) s.commands ≡ some x)
      × (x.device_id ≡ device_id)
      × (x.not_before ≤ clock)
      × (c ≡ lease_for now clock lease ms x)
      × (t ≡ record s { commands = update_first (is_due clock device_id) (λ _. c) s.commands })
unfolding lease_due
lease_due_lem now clock lease device_id ms s t h =
    elim (if_found-eq-returns (find_first (is_due clock device_id) s.commands) _ _ h) [
      | inl (_, e) ↦ absurd (cc)
      | inr (x, e, f) ↦
          let options : TransitionOptions = record { result = none; lease_ms = ms; now = none } in
          let (y, g, k) =
            or_throw-eq-returns s (transition now clock lease dispatched options x) _ f in
          let (p, q) = returns-injective k in
          let due = find_first-holds (is_due clock device_id) s.commands e in
          let held = eq_of_some p in
          (
            x,
            e,
            (eq_iff x.device_id device_id).0 (ground arith),
            leb→le x.not_before clock (ground arith),
            sym held
                ∙ ap (λ (z : Command). record z { status = leased })
                    (transition-leased now clock lease options x g),
            sym q
                ∙ ap
                    (λ (z : Command). record s {
                      commands = update_first (is_due clock device_id) (λ _. z) s.commands;
                    })
                    held,
          )
    ]

-- What `leaseNext` hands out is the first command, after the requeue, of that device that is queued
-- and whose time has come, with these changes and no other: it is leased under the new id until
-- `leaseMs` (or thirty seconds) from now, its attempts are one more, and it has started. It is stored
-- in the place of that command, and nothing else changes but for the requeue.
pub lease_next_lem :
    (now clock : ℕ) (lease device_id : String) (ms : Option ℕ) (s t : State) {c : Command}
    → lease_next now clock lease device_id ms s ≡ returns (some c) t
    → let requeued = map (requeue_command clock) s.commands in
      (x : Command) × (find_first (is_due clock device_id) requeued ≡ some x)
      × (x.device_id ≡ device_id)
      × (x.not_before ≤ clock)
      × (c ≡ lease_for now clock lease ms x)
      × (t ≡ record (requeue_expired clock s) {
        commands = update_first (is_due clock device_id) (λ _. c) requeued;
      })
unfolding lease_next
lease_next_lem now clock lease device_id ms s t h =
    let s' = requeue_expired clock s in
    let (_, _, due) =
      or_throw-eq-returns s' (reject_if_revoked (find_first (is_device device_id) s'.devices)) _
        h in
    lease_due_lem now clock lease device_id ms s' t due
