-- ===== src/Core/Jobs/Planning.antt =====
-- Any history of calls of `JobService`: what becomes of the commands that were there at its start.
use web_action_recorder_exte.Common.{
  ℕ, suc, ◌≡◌, refl, Bool, String, Option, none, some, List, [], ◌∷◌, arith, All, find_first,
  Bool-cases, inl, inr, is_empty,
}
use web_action_recorder_exte.Core.Errors.{
  Error, Result, ok, state_of, Result-cases, ok-injective, or_throw-state, if_found-state, if-state,
}
use web_action_recorder_exte.Core.State.{State, Command, Batch, DispatchPayload, queued, dispatched}
use web_action_recorder_exte.Core.Transitions.{companion_to_unified, status_eq}
use web_action_recorder_exte.Core.Commands.{transition, requeue_expired, TransitionOptions}
use web_action_recorder_exte.Core.Dataset.{Assignment, build_dataset_assignments}
use web_action_recorder_exte.Core.Jobs.Stops.{cancel_change}
use web_action_recorder_exte.Core.Jobs.Replay.{
  is_replayed, lease_queued, replay_loop, add_payload, prepare_replay_dispatches, finish_replay,
  Replayed,
}
use web_action_recorder_exte.Core.Jobs.Batches.{
  PlanBody, create_dispatch_plan, plan_command, plan_fields, map_from, request_of, targets_of,
  target_devices, reject_any_revoked, cancel_batch, change_each, is_open, is_batch, cancel_found,
}
use web_action_recorder_exte.Core.Jobs.History.{
  Readings, Call, step, run, plans, enqueues, leases, acknowledges, finishes, fails_running,
  reports, cancels, cancels_batch, keeps_payload, replays,
}
use web_action_recorder_exte.Core.Jobs.Evolution.{
  IsSound, create_command-IsSound, transition-Evolves, transition-IsSound,
}
use web_action_recorder_exte.Core.Jobs.Preservation.{
  Preserves, Preserves-same, Preserves-trans, Preserves-extend, Preserves-requeue, Allows,
  Allows-writes, acknowledge-Preserves, finish-Preserves, lease_next-Preserves, enqueue-Preserves,
}
use web_action_recorder_exte.Core.Jobs.Stopping.{
  Follows, Follows-self, Follows-cons, Allows-self, cancel_change-Allows, legacy_result-Preserves,
  fail_running-Preserves, cancel_command-Preserves, set_dispatch_metadata-Preserves,
  Preserves-Follows,
}

lease_queued-Allows :
    (now clock : ℕ) (lease : String) (at ms : ℕ) (c d : Command)
    → lease_queued now clock lease at ms c ≡ ok d
    → Allows c d
lease_queued-Allows now clock lease at ms c d h =
    let options : TransitionOptions = record { result = none; lease_ms = some ms; now = some at } in
    elim (Bool-cases (status_eq (companion_to_unified c.status) queued)) [
      | inl e ↦
          let k : transition now clock lease dispatched options c ≡ ok d = rw e at h in
          (
            transition-Evolves now clock lease dispatched options c (λ e. cc) k,
            transition-IsSound now clock lease dispatched options c (inr (ground arith)) (λ e. cc)
                k,
          )
      | inr e ↦ rw (← ok-injective (rw e at h)) (Allows-self c)
    ]

add_payload-Follows :
    (m : Option DispatchPayload) (c d : Command) (cs : List Command) (now clock : ℕ)
    (lease : Command → String) (at ms : ℕ) (device_id : String)
    → Allows c d
    → Follows cs (replay_loop now clock lease at ms device_id cs).commands
    → Follows (c ∷ cs) (add_payload m d (replay_loop now clock lease at ms device_id cs)).commands
add_payload-Follows none c d cs now clock lease at ms device_id a f = Follows-cons c d cs _ a f
add_payload-Follows (some m) c d cs now clock lease at ms device_id a f =
    Follows-cons c _ cs _ (Allows-writes c d _ a refl refl refl refl refl refl refl) f

replay_loop-Follows :
    (now clock : ℕ) (lease : Command → String) (at ms : ℕ) (device_id : String) (cs : List Command)
    → Follows cs (replay_loop now clock lease at ms device_id cs).commands
unfolding replay_loop
replay_loop-Follows now clock lease at ms device_id [] = (tt, λ v. tt)
replay_loop-Follows now clock lease at ms device_id (c ∷ cs) =
    let rest = replay_loop-Follows now clock lease at ms device_id cs in
    elim (Bool-cases (is_replayed device_id c)) [
      | inr e ↦ rw (e, replay_loop) (Follows-cons c c cs _ (Allows-self c) rest)
      | inl e ↦ elim (Result-cases (lease_queued now clock (lease c) at ms c)) [
        | inr (x, f) ↦ rw (e, f, replay_loop) (Follows-self (c ∷ cs))
        | inl (d, f) ↦
            rw (e, f, replay_loop)
              (add_payload-Follows c.dispatch_metadata c d cs now clock lease at ms device_id
                (lease_queued-Allows now clock (lease c) at ms c d f) rest)
      ]
    ]

finish_replay-commands :
    (s : State) (r : Replayed) → (state_of (finish_replay s r)).commands ≡ r.commands
finish_replay-commands s r = ground arith

prepare_replay-Preserves :
    (now clock : ℕ) (lease : Command → String) (at ms : ℕ) (device_id : String) (s : State)
    → Preserves s (state_of (prepare_replay_dispatches now clock lease at ms device_id s))
unfolding prepare_replay_dispatches
prepare_replay-Preserves now clock lease at ms device_id s =
    let t = requeue_expired at s in
    let r = replay_loop now clock lease at ms device_id t.commands in
    Preserves-trans s t _ (Preserves-requeue at s) (
      Preserves-Follows t _ (replay_loop-Follows now clock lease at ms device_id t.commands)
        (finish_replay-commands t r))

change_each-Follows :
    (pick : Command → Bool) (change : Command → Result Command)
    → ((c d : Command) → change c ≡ ok d → Allows c d)
    → (cs : List Command) → Follows cs (change_each pick change cs).0
unfolding change_each
change_each-Follows pick change allow [] = (tt, λ v. tt)
change_each-Follows pick change allow (c ∷ cs) =
    let rest = change_each-Follows pick change allow cs in
    elim (Bool-cases (pick c)) [
      | inr e ↦ rw (e, change_each) (Follows-cons c c cs _ (Allows-self c) rest)
      | inl e ↦ elim (Result-cases (change c)) [
        | inr (x, f) ↦ rw (e, f, change_each) (Follows-self (c ∷ cs))
        | inl (d, f) ↦ rw (e, f, change_each) (Follows-cons c d cs _ (allow c d f) rest)
      ]
    ]

cancel_found-commands :
    (now : ℕ) (batch_id : String) (b : Batch) (out : List Command × Option Error) (s : State)
    → (state_of (cancel_found now batch_id b out s)).commands ≡ out.0
cancel_found-commands now batch_id b (cs, none) s = refl
cancel_found-commands now batch_id b (cs, some e) s = refl

cancel_batch-Preserves :
    (now clock : ℕ) (lease batch_id : String) (s : State)
    → Preserves s (state_of (cancel_batch now clock lease batch_id s))
unfolding cancel_batch
cancel_batch-Preserves now clock lease batch_id s =
    if_found-state (Preserves s) (find_first (is_batch batch_id) s.batches) _ _
      (Preserves-same s s refl)
      λ b _.
        let out = change_each (is_open batch_id) (cancel_change now clock lease) s.commands in
        Preserves-Follows s _
          (change_each-Follows (is_open batch_id) (cancel_change now clock lease)
            (cancel_change-Allows now clock lease) s.commands)
          (cancel_found-commands now batch_id _ out _)

map_from-All :
    (f : ℕ → Assignment → Command) (k : ℕ) (xs : List Assignment)
    → ((i : ℕ) (a : Assignment) → IsSound (f i a))
    → All IsSound (map_from f k xs)
map_from-All f k [] h = tt
map_from-All f k (x ∷ xs) h = (h k x, map_from-All f (suc k) xs h)

create_dispatch_plan-Preserves :
    (now clock : ℕ) (batch_id : String) (ids : ℕ → String) (body : PlanBody) (s : State)
    → Preserves s (state_of (create_dispatch_plan now clock batch_id ids body s))
unfolding create_dispatch_plan
create_dispatch_plan-Preserves now clock batch_id ids body s =
    if-state (Preserves s) (is_empty (target_devices body s)) _ _ (Preserves-same s s refl) (
      or_throw-state (Preserves s) s (reject_any_revoked (target_devices body s)) _
        (Preserves-same s s refl)
        λ _ _.
          or_throw-state (Preserves s) s
            (build_dataset_assignments (request_of batch_id body (target_devices body s))) _
            (Preserves-same s s refl)
            λ assignments _.
              Preserves-extend s _
                (map_from
                  (plan_command now clock ids batch_id body
                    (targets_of body (target_devices body s)))
                  0 assignments)
                refl
                (map_from-All _ 0 assignments (λ i a. create_command-IsSound now (
                  plan_fields clock ids batch_id body (targets_of body (target_devices body s)) i
                    a))))

step-Preserves : (r : Readings) (c : Call) (s : State) → Preserves s (step r c s)
unfolding step
step-Preserves r (plans b ids body) s = create_dispatch_plan-Preserves r.now r.clock b ids body s
step-Preserves r (enqueues id body) s = enqueue-Preserves r.now id body s
step-Preserves r (leases d ms) s = lease_next-Preserves r.now r.clock r.lease d ms s
step-Preserves r (acknowledges d c l) s = acknowledge-Preserves r.now r.clock r.lease d c l s
step-Preserves r (finishes d c l x) s = finish-Preserves r.now r.clock r.lease d c l x s
step-Preserves r (fails_running d) s = fail_running-Preserves r.now r.clock r.lease d s
step-Preserves r (reports c x) s = legacy_result-Preserves r.now r.clock r.lease c x s
step-Preserves r (cancels c) s = cancel_command-Preserves r.now r.clock r.lease c s
step-Preserves r (cancels_batch b) s = cancel_batch-Preserves r.now r.clock r.lease b s
step-Preserves r (keeps_payload c m) s = set_dispatch_metadata-Preserves c m s
step-Preserves r (replays d ids at ms) s = prepare_replay-Preserves r.now r.clock ids at ms d s

pub run-Preserves : (calls : List (Readings × Call)) (s : State) → Preserves s (run calls s)
unfolding run
run-Preserves [] s = Preserves-same s s refl
run-Preserves ((r, c) ∷ calls) s =
    Preserves-trans s (step r c s) (run calls (step r c s)) (step-Preserves r c s)
      (run-Preserves calls (step r c s))
