-- ===== src/Companion/Scheduler/Laws.antt =====
-- The companion's queue against the job service's.
use web_action_recorder_exte.Common.{
  ◌≡◌, refl, arith, ℕ, ◌≤◌, true, false, inl, inr, String, opt_eq, Option, none, some, List, [],
  ◌∷◌, find_first, update_first, find_first-update_first, find_first-holds, Bool-cases,
  Option-cases,
}
use web_action_recorder_exte.Json.{Json, json_eq_refl, ok_is_false}
use web_action_recorder_exte.Core.Errors.{returns, or_throw-eq-returns, returns-injective, ok}
use web_action_recorder_exte.Core.State.{
  State, Command, Status, queued, dispatched, acknowledged, running, succeeded, failed, cancelled,
  timed_out, leased, timeout,
}
use web_action_recorder_exte.Core.Transitions.{
  assert_transition, terminal_results_conflict, companion_to_unified, status_eq,
}
use web_action_recorder_exte.Core.Commands.{
  is_device, is_command, requeue_expired, transition, number_or,
}
use web_action_recorder_exte.Core.Jobs.{
  lease_next, lease_due, is_due, reject_if_revoked, next_status,
}
use web_action_recorder_exte.Companion.Scheduler.{
  lease_next_command, leased_command, is_waiting, find_command, finish_command, finish_checked,
  finished_command, is_finished,
}

queued-companion : (st : Status) → status_eq (companion_to_unified st) queued ≡ status_eq st queued
queued-companion queued = refl
queued-companion dispatched = refl
queued-companion acknowledged = refl
queued-companion running = refl
queued-companion succeeded = refl
queued-companion failed = refl
queued-companion cancelled = refl
queued-companion timed_out = refl
queued-companion leased = refl
queued-companion timeout = refl

due-eq-waiting : (now : ℕ) (id : String) (c : Command) → is_due now id c ≡ is_waiting now id c
due-eq-waiting now id c = rw (queued-companion c.status) refl

find-due :
    (now : ℕ) (id : String) (cs : List Command)
    → find_first (is_due now id) cs ≡ find_first (is_waiting now id) cs
find-due now id [] = refl
find-due now id (c ∷ cs) = rw (due-eq-waiting now id c, find-due now id cs) refl

update-due :
    (now : ℕ) (id : String) (x : Command) (cs : List Command)
    → update_first (is_due now id) (λ _. x) cs ≡ update_first (is_waiting now id) (λ _. x) cs
update-due now id x [] = refl
update-due now id x (c ∷ cs) = rw (due-eq-waiting now id c, update-due now id x cs) refl

-- A waiting command is queued, so that its lease is allowed.
waiting-queued :
    (now : ℕ) (id : String) (c : Command) → is_waiting now id c ≡ true → c.status ≡ queued
waiting-queued now id c h = ground arith

-- For a device that is not revoked, or not stored, and a lease of at least a millisecond, the
-- companion's `leaseNextCommand` does what the job service's `leaseNext` does at the same time: the
-- same result and the same state, the ended leases requeued.
pub lease_next_command-lease_next :
    (now : ℕ) (lease id : String) (lease_ms : ℕ) (s : State)
    → 1 ≤ lease_ms
    → reject_if_revoked (find_first (is_device id) s.devices) ≡ ok tt
    → lease_next_command now lease id lease_ms s ≡ lease_next now now lease id (some lease_ms) s
unfolding lease_next_command lease_next transition assert_transition lease_due
lease_next_command-lease_next now lease id lease_ms s p r =
    elim (Option-cases (find_first (is_waiting now id) (requeue_expired now s).commands)) [
      | inl e ↦ rw (r, find-due now id (requeue_expired now s).commands, e) refl
      | inr (c, e) ↦
          let q : c.status ≡ queued =
            waiting-queued now id c
              (find_first-holds (is_waiting now id) (requeue_expired now s).commands e) in
          let n : number_or (some lease_ms) 30000 ≡ lease_ms = ground arith in
          let held = leased_command now lease lease_ms c in
          rw
            (
              r,
              find-due now id (requeue_expired now s).commands,
              e,
              q,
              n,
              update-due now id held (requeue_expired now s).commands,
            )
            refl
    ]

find_command-find :
    (s : State) (device_id id : String) (lease_id : Option String) {c : Command}
    → find_command s device_id id lease_id ≡ ok c
    → (find_first (is_command device_id id) s.commands ≡ some c)
      × (opt_eq c.lease_id lease_id ≡ true)
unfolding find_command
find_command-find s device_id id lease_id h = ground arith

find-find_command :
    (s : State) (device_id id : String) (lease_id : Option String) {c : Command}
    → find_first (is_command device_id id) s.commands ≡ some c
    → opt_eq c.lease_id lease_id ≡ true
    → find_command s device_id id lease_id ≡ ok c
unfolding find_command
find-find_command s device_id id lease_id h k = ground arith

same_result : (r : Option Json) → terminal_results_conflict r r ≡ false
unfolding terminal_results_conflict
same_result none = refl
same_result (some j) = rw (json_eq_refl j) refl

next_status-finished :
    (r : Option Json)
    → (is_finished (next_status r) ≡ true)
      × (assert_transition (companion_to_unified (next_status r)) (next_status r) r r ≡ ok tt)
unfolding assert_transition terminal_results_conflict
next_status-finished none = (refl, refl)
next_status-finished (some j) = elim (Bool-cases (ok_is_false j)) [
  | inl e ↦ rw (e, same_result (some j)) (refl, refl)
  | inr e ↦ rw (e, same_result (some j)) (refl, refl)
]

finish-finished :
    (later : ℕ) (device_id id : String) (lease_id : Option String) (result : Option Json)
    (t : State) {c : Command}
    → find_first (is_command device_id id) t.commands ≡ some c
    → opt_eq c.lease_id lease_id ≡ true
    → assert_transition (companion_to_unified c.status) (next_status result) c.result result ≡ ok tt
    → is_finished c.status ≡ true
    → finish_command later device_id id lease_id result t ≡ returns c t
unfolding finish_command
finish-finished later device_id id lease_id result t f l a d =
    rw (find-find_command t device_id id lease_id f l, a, d) refl

-- A repeated `finishCommand` with the same result, at any later time, returns the command that the
-- first call returned and changes nothing: the result is stored once.
pub finish_command-repeated :
    (now later : ℕ) (device_id id : String) (lease_id : Option String) (result : Option Json)
    (s t : State) {c : Command}
    → finish_command now device_id id lease_id result s ≡ returns c t
    → finish_command later device_id id lease_id result t ≡ returns c t
unfolding finish_command
finish_command-repeated now later device_id id lease_id result s t h =
    let (x, e, k) = or_throw-eq-returns s (find_command s device_id id lease_id) _ h in
    let (f, l) = find_command-find s device_id id lease_id e in
    let (_, a, m) =
      or_throw-eq-returns s
        (assert_transition (companion_to_unified x.status) (next_status result) x.result result)
        (λ _. finish_checked now device_id id result x s) k in
    elim (Bool-cases (is_finished x.status)) [
      | inl d ↦
          let (p, q) = returns-injective (rw d at m) in
          rw (← p, ← q) (finish-finished later device_id id lease_id result s f l a d)
      | inr d ↦
          let (p, q) = returns-injective (rw d at m) in
          let done = next_status-finished result in
          let found =
            find_first-update_first (is_command device_id id) (λ _. finished_command now result x)
              s.commands f (find_first-holds (is_command device_id id) s.commands f) in
          rw (← p, ← q) (finish-finished later device_id id lease_id result _ found l done.1 done.0)
    ]
