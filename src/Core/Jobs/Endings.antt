-- ===== src/Core/Jobs/Endings.antt =====
-- What is left running when a device goes away or a batch is cancelled.
use web_action_recorder_exte.Common.{
  ℕ, ◌+◌, ◌≡◌, refl, true, false, String, Option, none, some, List, [], ◌∷◌, arith, All, find_first,
  Bool-cases, inl, inr, length,
}
use web_action_recorder_exte.Core.Errors.{Error, ok, returns, state_of, result_of}
use web_action_recorder_exte.Core.State.{State, Command, Batch, Status, running, failed, cancelled}
use web_action_recorder_exte.Core.Transitions.{companion_to_unified, assert_transition}
use web_action_recorder_exte.Core.Commands.{
  apply_transition, transition_of_ok, no_options, with_result,
}
use web_action_recorder_exte.Core.Transitions.Laws.{
  assert_transition_iff, moves, fail, live_running,
}
use web_action_recorder_exte.Core.Jobs.Stops.{
  disconnected, fail_writes, cancel_writes, is_running, fail_command, fail_loop,
  fail_running_for_device, cancel_change,
}
use web_action_recorder_exte.Core.Jobs.Batches.{
  Summary, summarize_batch, count_from, bump_count, cancel_batch, cancel_found, change_each,
  is_open, is_batch,
}

-- A running command can always be failed, and is not running then.
fail_command_total :
    (now clock : ℕ) (lease device_id : String) (c : Command)
    → is_running device_id c ≡ true
    → (d : Command) × (fail_command now clock lease c ≡ ok d) × (d.status ≡ failed)
unfolding fail_command
fail_command_total now clock lease device_id c h =
    let options = with_result (some disconnected) in
    let e : companion_to_unified c.status ≡ running = ground arith in
    let a : assert_transition (companion_to_unified c.status) failed c.result options.result
        ≡ ok tt =
      rw e (
        (assert_transition_iff running failed c.result options.result).1
          (moves (fail live_running))) in
    (
      fail_writes now (apply_transition now clock lease failed options c),
      rw (transition_of_ok now clock lease failed options c a),
      refl,
    )

cancel_accepted :
    (batch_id : String) (c : Command)
    → is_open batch_id c ≡ true
    → assert_transition (companion_to_unified c.status) cancelled c.result none ≡ ok tt
unfolding assert_transition
cancel_accepted batch_id c h = ground arith

cancel_change_total :
    (now clock : ℕ) (lease batch_id : String) (c : Command)
    → is_open batch_id c ≡ true
    → (d : Command) × (cancel_change now clock lease c ≡ ok d) × (d.status ≡ cancelled)
cancel_change_total now clock lease batch_id c h =
    let a = cancel_accepted batch_id c h in
    (
      cancel_writes now (apply_transition now clock lease cancelled no_options c),
      rw (transition_of_ok now clock lease cancelled no_options c a),
      refl,
    )

fail_loop-ends :
    (now clock : ℕ) (lease device_id : String) (cs : List Command) (s : State)
    (listed : List Command)
    → let p = fail_loop now clock lease device_id cs s listed in
      (p.thrown ≡ none) × All (λ c. is_running device_id c ≡ false) p.commands
unfolding fail_loop
fail_loop-ends now clock lease device_id [] s listed = (refl, tt)
fail_loop-ends now clock lease device_id (c ∷ cs) s listed =
    elim (Bool-cases (is_running device_id c)) [
      | inr e ↦
          let (n, a) = fail_loop-ends now clock lease device_id cs s listed in
          rw (e, fail_loop) (n, (e, a))
      | inl e ↦
          let (d, f, g) = fail_command_total now clock lease device_id c e in
          let (n, a) = fail_loop-ends now clock lease device_id cs _ _ in
          rw (e, f, fail_loop) (n, (ground arith, a))
    ]

-- When a device is gone, `failRunningForDevice` returns, and no command of it is running then.
pub fail_running-ends :
    (now clock : ℕ) (lease device_id : String) (s : State)
    → (listed : List Command) × (t : State) × (fail_running_for_device now clock lease device_id s
        ≡ returns listed t)
      × All (λ c. is_running device_id c ≡ false) t.commands
unfolding fail_running_for_device
fail_running-ends now clock lease device_id s =
    let (n, a) = fail_loop-ends now clock lease device_id s.commands s [] in
    let p = fail_loop now clock lease device_id s.commands s [] in
    (p.listed, record (p.rest) { commands = p.commands }, rw n, a)

change_each-ends :
    (now clock : ℕ) (lease batch_id : String) (cs : List Command)
    → let out = change_each (is_open batch_id) (cancel_change now clock lease) cs in
      (out.1 ≡ none) × All (λ c. is_open batch_id c ≡ false) out.0
unfolding change_each
change_each-ends now clock lease batch_id [] = (refl, tt)
change_each-ends now clock lease batch_id (c ∷ cs) =
    let (n, a) = change_each-ends now clock lease batch_id cs in
    elim (Bool-cases (is_open batch_id c)) [
      | inr e ↦ rw (e, change_each) (n, (e, a))
      | inl e ↦
          let (d, f, g) = cancel_change_total now clock lease batch_id c e in
          rw (e, f, change_each) (n, (ground arith, a))
    ]

cancel_found-ends :
    (now : ℕ) (batch_id : String) (b : Batch) (out : List Command × Option Error) (s : State)
    → out.1 ≡ none
    → All (λ c. is_open batch_id c ≡ false) out.0
    → (summary : Summary) × (result_of (cancel_found now batch_id b out s) ≡ ok summary)
      × All
          (λ c. is_open batch_id c ≡ false)
          (state_of (cancel_found now batch_id b out s)).commands
cancel_found-ends now batch_id b (cs, none) s n a = (_, refl, a)
cancel_found-ends now batch_id b (cs, some e) s n a = absurd (cc)

-- Cancelling a batch that is stored never throws, and leaves no command of it open: each of them is
-- in a terminal status.
pub cancel_batch-ends :
    (now clock : ℕ) (lease batch_id : String) (s : State) {b : Batch}
    → find_first (is_batch batch_id) s.batches ≡ some b
    → (summary : Summary) × (result_of (cancel_batch now clock lease batch_id s) ≡ ok summary)
      × All
          (λ c. is_open batch_id c ≡ false)
          (state_of (cancel_batch now clock lease batch_id s)).commands
unfolding cancel_batch
cancel_batch-ends now clock lease batch_id s {b} h =
    let (n, a) = change_each-ends now clock lease batch_id s.commands in
    rw h (
      cancel_found-ends now batch_id _
        (change_each (is_open batch_id) (cancel_change now clock lease) s.commands) _ n a)

-- The sum of the counts.
abbrev pub total : List (Status × ℕ) → ℕ
total [] = 0
total ((t, n) ∷ counts) = n + total counts

total-bump_count :
    (t : Status) (counts : List (Status × ℕ)) → total (bump_count t counts) ≡ total counts + 1
total-bump_count t [] = omega arith
total-bump_count t ((u, n) ∷ counts) = ground (arith, total-bump_count t counts)

total-count_from :
    (counts : List (Status × ℕ)) (cs : List Command)
    → total (count_from counts cs) ≡ total counts + length cs
total-count_from counts [] = omega arith
total-count_from counts (c ∷ cs) =
    omega
      (arith, total-bump_count c.status counts, total-count_from (bump_count c.status counts) cs)

-- The counts of a batch's summary add up to the number of its commands.
pub total-summarize_batch :
    (b : Batch) (cs : List Command) → total (summarize_batch b cs).counts ≡ length cs
unfolding summarize_batch
total-summarize_batch b cs = omega (arith, total-count_from [] cs)
