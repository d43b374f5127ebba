-- ===== src/Core/Jobs/Preservation.antt =====
-- platform/controller-core/src/jobService.js: what the calls do to the stored commands.
use web_action_recorder_exte.Common.{
  ℕ, ◌≡◌, refl, Bool, String, Option, none, some, List, [], ◌∷◌, ◌++◌, arith, Grows, Grows-append,
  Grows-self, Grows-write, Grows-trans, Grows-map, All, find_first, update_first-All,
  find_first-All, find_first-holds, All-append, inl, inr, text_or, truthy, any, not, if-both,
  if◌then◌else◌, ◌≢◌, sym, All-map,
}
use web_action_recorder_exte.Json.{Json}
use web_action_recorder_exte.Core.Errors.{
  Result, ok, err, state_of, or_throw-state, if_found-state, if-state,
}
use web_action_recorder_exte.Core.State.{
  State, Command, Status, queued, dispatched, running, leased, timed_out,
}
use web_action_recorder_exte.Core.Commands.{
  is_device, with_result, no_options, TransitionOptions, require_command, requeue_expired,
  requeue_command, is_command, transition, find_command-require_command,
}
use web_action_recorder_exte.Core.Jobs.{
  EnqueueBody, enqueue_legacy_command, lease_next, lease_due, is_due, acknowledge, complete, finish,
  with_command, enqueue_in, enqueue_fields, has_key, is_command_type, reject_if_revoked,
  next_status, first_device_or, write_first, ensure_device, record_terminal, map_result,
}
use web_action_recorder_exte.Core.Jobs.Evolution.{
  Evolves, IsSound, Evolves-refl, Evolves-trans, create_command-IsSound, requeue_command-Evolves,
  requeue_command-IsSound, transition-Evolves, transition-IsSound, status-transition,
}

-- The commands of the second state come from those of the first.
pub record Preserves (s t : State) : Type 0 where
  pub grows : Grows Evolves s.commands t.commands
  pub sound : All IsSound s.commands → All IsSound t.commands

pub Preserves-same : (s t : State) → t.commands ≡ s.commands → Preserves s t
Preserves-same s t e = record {
  grows = rw e (Grows-self Evolves Evolves-refl s.commands);
  sound = λ v. rw e v;
}

pub Preserves-trans : (s t u : State) → Preserves s t → Preserves t u → Preserves s u
Preserves-trans s t u p q = record {
  grows =
      Grows-trans Evolves Evolves-refl Evolves-trans s.commands t.commands u.commands p.grows
        q.grows;
  sound = λ v. q.sound (p.sound v);
}

-- A change of one command that is allowed.
abbrev pub Allows : Command → Command → Type 0
Allows c d = Evolves c d × (IsSound c → IsSound d)

pub Preserves-write :
    (s : State) (p : Command → Bool) (c d : Command)
    → find_first p s.commands ≡ some c
    → Allows c d
    → Preserves s (write_first p d s)
Preserves-write s p c d e a = record {
  grows = Grows-write Evolves Evolves-refl p s.commands e a.0;
  sound = λ v.
      update_first-All p IsSound (λ _. d) s.commands
        (λ _ _ _. a.1 (find_first-All p IsSound s.commands e v)) v;
}

-- New commands at the end of the list.
pub Preserves-extend :
    (s t : State) (new : List Command)
    → t.commands ≡ s.commands ++ new
    → All IsSound new
    → Preserves s t
Preserves-extend s t new e v = record {
  grows = rw e (Grows-append Evolves Evolves-refl s.commands new);
  sound = λ w. rw e (All-append IsSound s.commands new w v);
}

pub Preserves-requeue : (now : ℕ) (s : State) → Preserves s (requeue_expired now s)
Preserves-requeue now s = record {
  grows = Grows-map Evolves (requeue_command now) (requeue_command-Evolves now) s.commands;
  sound = All-map (requeue_command now) (requeue_command-IsSound now) s.commands;
}

with_command-Preserves :
    (device_id command_id : String) (lease_id : Option String) (s : State)
    (change : Command → Result Command) (after : Command → State → State)
    → ((c d : Command) → change c ≡ ok d → Allows c d)
    → ((d : Command) (t : State) → (after d t).commands ≡ t.commands)
    → Preserves s (state_of (with_command device_id command_id lease_id s change after))
with_command-Preserves device_id command_id lease_id s change after allow frame =
    or_throw-state (Preserves s) s (require_command s device_id command_id lease_id) _
      (Preserves-same s s refl)
      λ c h. or_throw-state (Preserves s) s (change c) _ (Preserves-same s s refl) λ d k.
        let t = write_first (is_command device_id command_id) d s in
        Preserves-trans s t (after d t)
          (Preserves-write s (is_command device_id command_id) c d
            (find_command-require_command s device_id command_id lease_id h).0 (allow c d k))
          (Preserves-same t (after d t) (frame d t))

-- A transition that is neither a lease nor a time-out.
pub transition-Allows :
    (now clock : ℕ) (lease : String) (to : Status) (options : TransitionOptions) (c d : Command)
    → to ≢ timed_out
    → to ≢ dispatched
    → to ≢ queued
    → transition now clock lease to options c ≡ ok d
    → Allows c d
transition-Allows now clock lease to options c d n m k h = (
  transition-Evolves now clock lease to options c n h,
  transition-IsSound now clock lease to options c (inl m) k h,
)

-- Writes to the fields that neither the evolution nor the soundness of a command reads.
pub Allows-writes :
    (c d e : Command)
    → Allows c d
    → e.id ≡ d.id
    → e.device_id ≡ d.device_id
    → e.attempt ≡ d.attempt
    → e.max_attempts ≡ d.max_attempts
    → e.status ≡ d.status
    → e.lease_id ≡ d.lease_id
    → e.lease_until ≡ d.lease_until
    → Allows c e
Allows-writes c d e (ev, so) p₁ p₂ p₃ p₄ p₅ p₆ p₇ =
    (ground arith, λ v. let w = so v in ground arith)

pub map_result-eq-ok :
    (f : Command → Command) (r : Result Command) {d : Command}
    → map_result f r ≡ ok d
    → (c : Command) × (r ≡ ok c) × (d ≡ f c)
map_result-eq-ok f (ok c) h = (c, refl, ground arith)
map_result-eq-ok f (err e) h = absurd (cc)

pub complete-Allows :
    (now clock : ℕ) (lease : String) (result : Option Json) (c d : Command)
    → complete now clock lease result c ≡ ok d
    → Allows c d
unfolding complete
complete-Allows now clock lease result c d h =
    let (c', e, q) = map_result-eq-ok _ _ h in
    rw q (
      Allows-writes c c' _
        (transition-Allows now clock lease (next_status result) (with_result result) c c'
          (ground arith) (ground arith) (ground arith) e)
        refl refl refl refl refl refl refl)

pub acknowledge-Preserves :
    (now clock : ℕ) (lease device_id command_id : String) (lease_id : Option String) (s : State)
    → Preserves s (state_of (acknowledge now clock lease device_id command_id lease_id s))
unfolding acknowledge
acknowledge-Preserves now clock lease device_id command_id lease_id s =
    with_command-Preserves device_id command_id lease_id s
      (transition now clock lease running no_options) (λ _ t. t)
      (λ c d.
        transition-Allows now clock lease running no_options c d (λ e. cc) (λ e. cc) (λ e. cc))
      (λ d t. refl)

pub finish-Preserves :
    (now clock : ℕ) (lease device_id command_id : String) (lease_id : Option String)
    (result : Option Json) (s : State)
    → Preserves s (state_of (finish now clock lease device_id command_id lease_id result s))
unfolding finish
finish-Preserves now clock lease device_id command_id lease_id result s =
    with_command-Preserves device_id command_id lease_id s (complete now clock lease result)
      (record_terminal now device_id result) (complete-Allows now clock lease result) (λ d t. refl)

-- What `leaseNext` picks is queued.
lease-Allows :
    (now clock : ℕ) (lease device_id : String) (ms : Option ℕ) (cs : List Command) (c d : Command)
    → find_first (is_due clock device_id) cs ≡ some c
    → transition now clock lease dispatched (record { result = none; lease_ms = ms; now = none }) c
      ≡ ok d
    → Allows c (record d { status = leased })
lease-Allows now clock lease device_id ms cs c d h k =
    let due = find_first-holds (is_due clock device_id) cs h in
    let options : TransitionOptions = record { result = none; lease_ms = ms; now = none } in
    Allows-writes c d _
      (
        transition-Evolves now clock lease dispatched options c (λ e. cc) k,
        transition-IsSound now clock lease dispatched options c (inr (ground arith)) (λ e. cc) k,
      )
      refl refl refl refl (sym (status-transition now clock lease dispatched options c k)) refl refl

lease_due-Preserves :
    (now clock : ℕ) (lease device_id : String) (ms : Option ℕ) (s : State)
    → Preserves s (state_of (lease_due now clock lease device_id ms s))
unfolding lease_due
lease_due-Preserves now clock lease device_id ms s =
    if_found-state (Preserves s) (find_first (is_due clock device_id) s.commands) _ _
      (Preserves-same s s refl)
      λ c h.
        or_throw-state (Preserves s) s (transition now clock lease dispatched _ c) _
          (Preserves-same s s refl)
          λ d k.
            Preserves-write s (is_due clock device_id) c (record d { status = leased }) h
              (lease-Allows now clock lease device_id ms s.commands c d h k)

pub lease_next-Preserves :
    (now clock : ℕ) (lease device_id : String) (ms : Option ℕ) (s : State)
    → Preserves s (state_of (lease_next now clock lease device_id ms s))
unfolding lease_next
lease_next-Preserves now clock lease device_id ms s =
    let t = requeue_expired clock s in
    or_throw-state (Preserves s) t (reject_if_revoked (find_first (is_device device_id) t.devices))
      _ (Preserves-requeue clock s)
      λ _ _.
        Preserves-trans s t _ (Preserves-requeue clock s)
          (lease_due-Preserves now clock lease device_id ms t)

enqueue_in-Preserves :
    (s t : State) (existing : Option Command) (c : Command)
    → Preserves s t
    → IsSound c
    → Preserves s (state_of (enqueue_in t existing c))
enqueue_in-Preserves s t none c p v =
    Preserves-trans s t _ p (Preserves-extend t _ (c ∷ []) refl (v, tt))
enqueue_in-Preserves s t (some x) c p v = p

pub enqueue-Preserves :
    (now : ℕ) (id : String) (body : EnqueueBody) (s : State)
    → Preserves s (state_of (enqueue_legacy_command now id body s))
unfolding enqueue_legacy_command
enqueue-Preserves now id body s =
    let device_id = text_or body.device_id (first_device_or "legacy" s.devices) in
    let t = ensure_device now device_id s in
    let kept : Preserves s t = Preserves-same s t (
      if-both (λ (u : State). u.commands ≡ s.commands) (any (is_device device_id) s.devices) refl
        refl) in
    if-state (Preserves s) (not (is_command_type body.kind)) _ _ (Preserves-same s s refl) (
      enqueue_in-Preserves s t
        (if truthy body.idempotency_key
          then find_first (has_key body.idempotency_key) t.commands
          else none)
        _ kept (create_command-IsSound now (enqueue_fields id device_id body)))
