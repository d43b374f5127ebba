-- ===== src/Core/Events/Laws.antt =====
-- The log of execution events: repeated keys, its bound, and the numbers of its events.
use web_action_recorder_exte.Common.{
  ◌≡◌, refl, ◌∙◌, arith, ℕ, ◌≤◌, Bool, true, false, not, ◌⊎◌, inl, inr, ◌∷◌, [], Option, none, some,
  List, length, length-push_bounded, find_first, keep_if, All, truthy, str_eq, str_eq_refl,
  opt_eq_refl, Bool-cases, Option-cases, find_first-push_bounded, All-push_bounded,
}
use web_action_recorder_exte.Json.Redact.{IsClean, event_words, redact-IsClean}
use web_action_recorder_exte.Json.Pattern.{test_words}
use web_action_recorder_exte.Core.Errors.{
  returns, state_of, returns-injective, throws-ne-returns, if-state, if_found-state, ok,
}
use web_action_recorder_exte.Core.State.{State, Command, ExecutionEvent}
use web_action_recorder_exte.Core.Commands.{has_id}
use web_action_recorder_exte.Core.Events.{
  EventBody, append_event, append_new, push_event, next_event, existing_by_key, is_sealed,
  acknowledges, has_event_key, has_event_type, event_limit, list_recent, Query, matches_query,
}

-- A key that the log lacks is found, at the event pushed, in what `push_event` leaves.
push_event-found :
    (now : ℕ) (event : EventBody) (s t : State) {r : ExecutionEvent}
    → truthy event.idempotency_key ≡ true
    → existing_by_key event s ≡ none
    → push_event now event s ≡ returns r t
    → (existing_by_key event t ≡ some r) × (r.event_type ≡ event.event_type)
push_event-found now event s t k n h =
    let next = next_event now event s.execution_events in
    let (p, q) = returns-injective h in
    rw (← p, ← q, k)
      (
        find_first-push_bounded (has_event_key event) event_limit s.execution_events next
            (omega arith) (rw k at n)
            (ground (arith, str_eq_refl event.job_id, opt_eq_refl event.idempotency_key)),
        refl,
      )

-- With its key found under its type, the call returns what was found and changes nothing.
append_event-known :
    (now : ℕ) (event : EventBody) (audit_only : Bool) (s : State) {x : ExecutionEvent}
    → existing_by_key event s ≡ some x
    → x.event_type ≡ event.event_type
    → append_event now event audit_only s ≡ returns x s
unfolding append_event
append_event-known now event audit_only s e k = rw (e, k, str_eq_refl event.event_type)

-- An event whose key the log lacks is pushed, or an earlier acknowledgement is returned for it.
append_new-cases :
    (now : ℕ) (event : EventBody) (audit_only : Bool) (job : Option Command) (s t : State)
    {r : ExecutionEvent}
    → append_new now event audit_only job s ≡ returns r t
    → (push_event now event s ≡ returns r t)
      ⊎ ((later : ℕ) → append_new later event audit_only job s ≡ returns r s) × (s ≡ t)
append_new-cases now event audit_only job s t h = elim (Bool-cases (is_sealed job audit_only)) [
  | inr e ↦ inl (rw e at h)
  | inl e ↦ elim (Bool-cases (acknowledges job event)) [
    | inr k ↦ absurd (throws-ne-returns (rw (e, k) at h))
    | inl k ↦
        elim (Option-cases
          (find_first (has_event_type event.job_id event.event_type) s.execution_events)) [
            | inl n ↦ inl (rw (e, k, n) at h)
            | inr (x, n) ↦
                let (p, q) = returns-injective (rw (e, k, n) at h) in
                inr ((λ later. rw (e, k, n, p)), q)
          ]
  ]
]

-- A repeated `appendEvent` of an event with an idempotency key, at any later time, returns the
-- event of the first call and changes nothing.
pub append_event-repeated :
    (now later : ℕ) (event : EventBody) (audit_only : Bool) (s t : State) {r : ExecutionEvent}
    → truthy event.idempotency_key ≡ true
    → append_event now event audit_only s ≡ returns r t
    → append_event later event audit_only t ≡ returns r t
unfolding append_event
append_event-repeated now later event audit_only s t k h =
    elim (Option-cases (existing_by_key event s)) [
      | inr (x, e) ↦ elim (Bool-cases (str_eq x.event_type event.event_type)) [
        | inr m ↦ absurd (throws-ne-returns (rw (e, m) at h))
        | inl m ↦ let (p, q) = returns-injective (rw (e, m) at h) in rw (← q, e, m, p)
      ]
      | inl e ↦
          elim (append_new-cases now event audit_only (find_first (has_id event.job_id) s.commands)
            s t (rw e at h)) [
              | inl m ↦
                  let (p, q) = push_event-found now event s t k e m in
                  append_event-known later event audit_only t p q
              | inr (m, q) ↦ rw (← q, e, m later)
            ]
    ]

-- The log's bound, and its freedom from sensitive fields.
abbrev pub IsWellKept : State → Type 0
IsWellKept s =
    (length s.execution_events ≤ event_limit)
    × All (λ e. IsClean (test_words event_words) e.detail) s.execution_events

push_event-IsWellKept :
    (now : ℕ) (event : EventBody) (s : State)
    → IsWellKept s
    → IsWellKept (state_of (push_event now event s))
push_event-IsWellKept now event s w =
    let next = next_event now event s.execution_events in
    (
      omega (arith, length-push_bounded event_limit s.execution_events next w.0),
      All-push_bounded (λ e. IsClean (test_words event_words) e.detail) event_limit
          s.execution_events next w.1 (redact-IsClean event.detail [] tt tt).1,
    )

-- The state that `appendEvent` leaves is the one it found or the one with the event pushed.
append_event-state :
    (P : State → Type 0) (now : ℕ) (event : EventBody) (audit_only : Bool) (s : State)
    → P s
    → P (state_of (push_event now event s))
    → P (state_of (append_event now event audit_only s))
unfolding append_event
append_event-state P now event audit_only s w pushed =
    let job = find_first (has_id event.job_id) s.commands in
    if_found-state P (existing_by_key event s) _ _
      (if-state P (is_sealed job audit_only) _ _
        (if-state P (not (acknowledges job event)) _ _ w (
          if_found-state {A = ExecutionEvent} P
            (find_first (has_event_type event.job_id event.event_type) s.execution_events) _ _
            pushed (λ _ _. w)))
        pushed)
      (λ y _. if-state P (not (str_eq y.event_type event.event_type)) _ _ w w)

-- Every call of `appendEvent` on a state whose log has at most five thousand events, no sensitive
-- field in any, leaves such a log, whether it returns or throws.
pub append_event-IsWellKept :
    (now : ℕ) (event : EventBody) (audit_only : Bool) (s : State)
    → IsWellKept s
    → IsWellKept (state_of (append_event now event audit_only s))
append_event-IsWellKept now event audit_only s w =
    append_event-state IsWellKept now event audit_only s w (push_event-IsWellKept now event s w)

-- On a full log, an event with no number of its own, for a job that the state does not know and
-- with no key, is appended with the number 5001 and leaves the log full: the next such event has the
-- same number.
pub append_event-full :
    (now : ℕ) (event : EventBody) (audit_only : Bool) (s : State)
    → length s.execution_events ≡ event_limit
    → event.sequence ≡ none
    → truthy event.idempotency_key ≡ false
    → find_first (has_id event.job_id) s.commands ≡ none
    → ((r : ExecutionEvent) × (t : State) × (append_event now event audit_only s ≡ returns r t)
        × (r.sequence ≡ 5001)
        × (length t.execution_events ≡ event_limit))
unfolding append_event
append_event-full now event audit_only s f n k j =
    let next = next_event now event s.execution_events in
    (
      next,
      state_of (push_event now event s),
      rw (k, j) refl,
      rw (n, f) refl,
      length-push_bounded event_limit s.execution_events next (omega arith) ∙ omega arith,
    )

-- No event has a number above 5001.
abbrev pub IsNumbered : State → Type 0
IsNumbered s =
    (length s.execution_events ≤ event_limit) × All (λ e. e.sequence ≤ 5001) s.execution_events

push_event-IsNumbered :
    (now : ℕ) (event : EventBody) (s : State)
    → event.sequence ≡ none
    → IsNumbered s
    → IsNumbered (state_of (push_event now event s))
push_event-IsNumbered now event s n w =
    let next = next_event now event s.execution_events in
    (
      omega (arith, length-push_bounded event_limit s.execution_events next w.0),
      All-push_bounded (λ e. e.sequence ≤ 5001) event_limit s.execution_events next w.1
          (rw n (omega arith)),
    )

keep_if-matches_query :
    (q : Query) (log : List ExecutionEvent)
    → 5001 ≤ q.after_sequence
    → All (λ e. e.sequence ≤ 5001) log
    → keep_if (matches_query q) log ≡ []
keep_if-matches_query q [] h a = refl
keep_if-matches_query q (e ∷ es) h a = ground (arith, keep_if-matches_query q es h a.1, a.0)

-- While no event brings a number of its own, no number exceeds 5001, and a reader that has seen
-- 5001 is told that nothing followed, whatever `appendEvent` has just been given.
pub list_recent-after_full :
    (now : ℕ) (event : EventBody) (audit_only : Bool) (q : Query) (s : State)
    → IsNumbered s
    → event.sequence ≡ none
    → 1 ≤ q.limit
    → q.limit ≤ 200
    → 5001 ≤ q.after_sequence
    → let t = state_of (append_event now event audit_only s) in
      IsNumbered t × (list_recent q t ≡ ok [])
unfolding append_event list_recent
list_recent-after_full now event audit_only q s w n lo hi after =
    let pushed = push_event-IsNumbered now event s n w in
    let numbered : IsNumbered (state_of (append_event now event audit_only s)) =
      append_event-state IsNumbered now event audit_only s w pushed in
    (numbered, rw (keep_if-matches_query q _ after numbered.1) ground arith)
