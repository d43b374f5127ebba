-- ===== src/Core/Jobs/Stopping.antt =====
-- platform/controller-core/src/jobService.js: what the calls that end, keep or replay commands do to
-- them.
use web_action_recorder_exte.Common.{
  ℕ, ◌≡◌, refl, String, Option, some, List, [], ◌∷◌, arith, Grows, Grows-self, All, find_first,
  Bool-cases, inl, inr, sym,
}
use web_action_recorder_exte.Json.{Json, obj, end}
use web_action_recorder_exte.Core.Audit.{audit_append, text_field}
use web_action_recorder_exte.Core.Errors.{
  Result, ok, state_of, Result-cases, or_throw-state, if_found-state, if-state, ok-injective,
}
use web_action_recorder_exte.Core.State.{State, Command, DispatchPayload, failed, cancelled}
use web_action_recorder_exte.Core.Transitions.{companion_to_unified, is_terminal}
use web_action_recorder_exte.Core.Commands.{has_id, transition, with_result, no_options}
use web_action_recorder_exte.Core.Jobs.{complete, write_first}
use web_action_recorder_exte.Core.Jobs.Stops.{
  disconnected, is_running, fail_command, fail_loop, finish_loop, fail_running_for_device, Progress,
  with_found, legacy_result, cancel_change, cancel_command,
}
use web_action_recorder_exte.Core.Jobs.Replay.{set_dispatch_metadata}
use web_action_recorder_exte.Core.Jobs.Evolution.{Evolves, IsSound, Evolves-refl}
use web_action_recorder_exte.Core.Jobs.Preservation.{
  Preserves, Preserves-same, Preserves-trans, Preserves-write, Allows, Allows-writes,
  transition-Allows, complete-Allows, map_result-eq-ok,
}

pub Allows-self : (c : Command) → Allows c c
Allows-self c = (Evolves-refl c, λ v. v)

with_found-Preserves :
    (command_id : String) (s : State) (change : Command → Result Command)
    (after : Command → State → State)
    → ((c d : Command) → change c ≡ ok d → Allows c d)
    → ((d : Command) (t : State) → (after d t).commands ≡ t.commands)
    → Preserves s (state_of (with_found command_id s change after))
with_found-Preserves command_id s change after allow frame =
    if_found-state (Preserves s) (find_first (has_id command_id) s.commands) _ _
      (Preserves-same s s refl)
      λ c h. or_throw-state (Preserves s) s (change c) _ (Preserves-same s s refl) λ d k.
        let t = write_first (has_id command_id) d s in
        Preserves-trans s t (after d t) (Preserves-write s (has_id command_id) c d h (allow c d k))
          (Preserves-same t (after d t) (frame d t))

pub legacy_result-Preserves :
    (now clock : ℕ) (lease command_id : String) (result : Option Json) (s : State)
    → Preserves s (state_of (legacy_result now clock lease command_id result s))
unfolding legacy_result
legacy_result-Preserves now clock lease command_id result s =
    with_found-Preserves command_id s (complete now clock lease result) (λ _ t. t)
      (complete-Allows now clock lease result) (λ d t. refl)

pub cancel_change-Allows :
    (now clock : ℕ) (lease : String) (c d : Command)
    → cancel_change now clock lease c ≡ ok d
    → Allows c d
cancel_change-Allows now clock lease c d h =
    let (c', e, q) =
      map_result-eq-ok (λ x. record x { completed_at = some now })
        (transition now clock lease cancelled no_options c) h in
    rw q (
      Allows-writes c c' _
        (transition-Allows now clock lease cancelled no_options c c' (λ e. cc) (λ e. cc) (λ e. cc)
          e)
        refl refl refl refl refl refl refl)

pub cancel_command-Preserves :
    (now clock : ℕ) (lease command_id : String) (s : State)
    → Preserves s (state_of (cancel_command now clock lease command_id s))
unfolding cancel_command
cancel_command-Preserves now clock lease command_id s =
    if_found-state (Preserves s) (find_first (has_id command_id) s.commands) _ _
      (Preserves-same s s refl)
      λ c h.
        if-state (Preserves s) (is_terminal (companion_to_unified c.status)) _ _
          (Preserves-same s s refl)
          (with_found-Preserves command_id s (cancel_change now clock lease)
            (λ _. audit_append now "job.cancelled" (obj (text_field "commandId" command_id end)))
            (cancel_change-Allows now clock lease) (λ d t. refl))

pub set_dispatch_metadata-Preserves :
    (command_id : String) (payload : DispatchPayload) (s : State)
    → Preserves s (state_of (set_dispatch_metadata command_id payload s))
unfolding set_dispatch_metadata
set_dispatch_metadata-Preserves command_id payload s =
    with_found-Preserves command_id s (λ c. ok (record c { dispatch_metadata = some payload }))
      (λ _ t. t)
      (λ c d e.
        rw (sym (ok-injective e))
          (Allows-writes c c _ (Allows-self c) refl refl refl refl refl refl refl))
      (λ d t. refl)

fail_command-Allows :
    (now clock : ℕ) (lease : String) (c d : Command)
    → fail_command now clock lease c ≡ ok d
    → Allows c d
unfolding fail_command
fail_command-Allows now clock lease c d h =
    let (c', e, q) =
      map_result-eq-ok _ (transition now clock lease failed (with_result (some disconnected)) c)
        h in
    rw q (
      Allows-writes c c' _
        (transition-Allows now clock lease failed (with_result (some disconnected)) c c' (λ e. cc)
          (λ e. cc) (λ e. cc) e)
        refl refl refl refl refl refl refl)

-- A list of commands in place of another.
abbrev pub Follows : List Command → List Command → Type 0
Follows cs ds = Grows Evolves cs ds × (All IsSound cs → All IsSound ds)

pub Follows-self : (cs : List Command) → Follows cs cs
Follows-self cs = (Grows-self Evolves Evolves-refl cs, λ v. v)

pub Follows-cons :
    (c d : Command) (cs ds : List Command) → Allows c d → Follows cs ds → Follows (c ∷ cs) (d ∷ ds)
Follows-cons c d cs ds a f = ((a.0, f.0), λ v. (a.1 v.0, f.1 v.1))

fail_loop-Follows :
    (now clock : ℕ) (lease device_id : String) (cs : List Command) (s : State)
    (listed : List Command)
    → Follows cs (fail_loop now clock lease device_id cs s listed).commands
unfolding fail_loop
fail_loop-Follows now clock lease device_id [] s listed = (tt, λ v. tt)
fail_loop-Follows now clock lease device_id (c ∷ cs) s listed =
    elim (Bool-cases (is_running device_id c)) [
      | inr e ↦
          rw (e, fail_loop)
            (Follows-cons c c cs _ (Allows-self c)
              (fail_loop-Follows now clock lease device_id cs s listed))
      | inl e ↦ elim (Result-cases (fail_command now clock lease c)) [
        | inr (x, f) ↦ rw (e, f, fail_loop) (Follows-self (c ∷ cs))
        | inl (d, f) ↦
            rw (e, f, fail_loop)
              (Follows-cons c d cs _ (fail_command-Allows now clock lease c d f)
                (fail_loop-Follows now clock lease device_id cs _ _))
      ]
    ]

pub Preserves-Follows :
    (s t : State) {cs : List Command} → Follows s.commands cs → t.commands ≡ cs → Preserves s t
Preserves-Follows s t f e = record { grows = rw e f.0; sound = λ v. rw e (f.1 v) }

finish_loop-commands : (p : Progress) → (state_of (finish_loop p)).commands ≡ p.commands
finish_loop-commands p = ground arith

pub fail_running-Preserves :
    (now clock : ℕ) (lease device_id : String) (s : State)
    → Preserves s (state_of (fail_running_for_device now clock lease device_id s))
unfolding fail_running_for_device
fail_running-Preserves now clock lease device_id s =
    Preserves-Follows s _ (fail_loop-Follows now clock lease device_id s.commands s [])
      (finish_loop-commands (fail_loop now clock lease device_id s.commands s []))
