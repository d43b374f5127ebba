-- ===== src/Core/Sessions/Ledger.antt =====
-- The ledger of idempotency keys.
use web_action_recorder_exte.Common.{
  ◌≡◌, refl, arith, ℕ, suc, zero, ◌≤◌, true, false, inl, inr, String, str_eq, str_eq_refl, some,
  List, [], ◌∷◌, ◌++◌, length, length-append, length-update_first, any, drop, find_first,
  update_first, Bool-cases, get_or_else, max, ◌-◌,
}
use web_action_recorder_exte.Core.Errors.{
  returns, throws, or_throw-eq-returns, if_found-eq-returns, returns-injective, throws-ne-returns,
  ok, if_found, domain_error_with, invalid_target,
}
use web_action_recorder_exte.Core.State.{Command, DispatchPayload}
use web_action_recorder_exte.Core.Jobs.{enqueue_legacy_command, lease_next}
use web_action_recorder_exte.Core.Jobs.Replay.{set_dispatch_metadata}
use web_action_recorder_exte.Core.Workflows.{get_revision}
use web_action_recorder_exte.Core.Sessions.{
  Manager, Session, SessionConfig, Remembered, dispatch_result, LedgerEntry, require_session,
}
use web_action_recorder_exte.Core.Sessions.Laws.{on_core-eq-returns}
use web_action_recorder_exte.Core.Sessions.Dispatch.{
  DispatchRequest, dispatch, dispatch_new, dispatch_key, dispatch_body, dispatch_payload,
  dispatch_leased, dispatch_enqueued, dispatch_workflow, dispatch_live, lease_and_note,
  note_dispatch, remember, find_remembered, has_entry, is_over,
}

find-set_entry :
    (entry : LedgerEntry) (es : List LedgerEntry)
    → any (has_entry entry.key) es ≡ true
    → find_first (has_entry entry.key) (update_first (has_entry entry.key) (λ _. entry) es)
      ≡ some entry
find-set_entry entry [] h = absurd (cc)
find-set_entry entry (x ∷ xs) h = ground (arith, find-set_entry entry xs, str_eq_refl entry.key)

find-last :
    (entry : LedgerEntry) (n : ℕ) (es : List LedgerEntry)
    → n ≤ length es
    → any (has_entry entry.key) es ≡ false
    → find_first (has_entry entry.key) (drop n (es ++ entry ∷ [])) ≡ some entry
find-last entry zero [] b h = rw (str_eq_refl entry.key) refl
find-last entry (suc n) [] b h = absurd (omega arith)
find-last entry zero (x ∷ xs) b h = ground (arith, find-last entry zero xs (omega arith))
find-last entry (suc n) (x ∷ xs) b h = ground (arith, find-last entry n xs)

-- What is remembered is found, in a ledger within a limit of at least one.
find_remembered-remember :
    (config : SessionConfig) (key : String) (value : Remembered) (m : Manager)
    → 1 ≤ config.max_idempotency
    → length m.idempotency ≤ config.max_idempotency
    → find_remembered key (remember config key value m) ≡ some (record { key = key; value = value })
unfolding remember
find_remembered-remember config key value m p b =
    let entry : LedgerEntry = record { key = key; value = value } in
    elim (Bool-cases (any (has_entry key) m.idempotency)) [
      | inl e ↦ ground (
        arith,
        e,
        find-set_entry entry m.idempotency e,
        length-update_first (has_entry key) (λ _. entry) m.idempotency,
      )
      | inr e ↦ ground (
        arith,
        e,
        find-last entry 1 m.idempotency,
        find-last entry zero m.idempotency,
        length-append m.idempotency (entry ∷ []),
      )
    ]

-- The ledger holds the result under the request's key.
abbrev IsRemembered : DispatchRequest → Remembered → Manager → Type 0
IsRemembered r value n =
    (entry : LedgerEntry) × (find_remembered (dispatch_key r) n ≡ some entry)
    × (entry.value ≡ value)

module _ (config : SessionConfig) (r : DispatchRequest) (p : 1 ≤ config.max_idempotency) where
  note_dispatch-IsRemembered :
      (job_id : String) (command : Command) (payload : DispatchPayload) (m n : Manager)
      {value : Remembered}
      → length m.idempotency ≤ config.max_idempotency
      → note_dispatch config r job_id command payload m ≡ returns value n
      → IsRemembered r value n
  note_dispatch-IsRemembered job_id command payload m n b h =
      let (q, e) = returns-injective h in
      rw (← q, ← e)
        (
          record { key = dispatch_key r; value = dispatch_result command payload },
          find_remembered-remember config (dispatch_key r) (dispatch_result command payload) _ p b,
          refl,
        )

  lease_and_note-IsRemembered :
      (now clock : ℕ) (lease : String) (deadline : ℕ) (m n : Manager) {value : Remembered}
      → length m.idempotency ≤ config.max_idempotency
      → lease_and_note config now clock lease r deadline m ≡ returns value n
      → IsRemembered r value n
  lease_and_note-IsRemembered now clock lease deadline m n b h =
      let (found, s, _, k) =
        on_core-eq-returns m
          (lease_next now clock lease r.device_id (some (max 1000 (deadline - now))) m.core)
          (λ found m'.
            if_found found (throws (domain_error_with invalid_target 409) m')
              (dispatch_leased config r deadline m'))
          h in
      elim (if_found-eq-returns found _ (dispatch_leased config r deadline (record m { core = s }))
        k) [
          | inl (_, e) ↦ absurd (throws-ne-returns e)
          | inr (leased, _, e) ↦
              let payload = dispatch_payload r deadline leased in
              let (persisted, s', _, l) =
                on_core-eq-returns (record m { core = s })
                  (set_dispatch_metadata leased.id payload s)
                  (λ persisted m'. note_dispatch config r leased.id persisted payload m') e in
              note_dispatch-IsRemembered leased.id persisted payload (record m { core = s' }) n b l
        ]

  dispatch_new-IsRemembered :
      (now clock : ℕ) (lease id : String) (deadline : ℕ) (m n : Manager) {value : Remembered}
      → length m.idempotency ≤ config.max_idempotency
      → dispatch_new config now clock lease id r deadline m ≡ returns value n
      → IsRemembered r value n
  dispatch_new-IsRemembered now clock lease id deadline m n b h =
      let (workflow, _, k) =
        or_throw-eq-returns m (get_revision r.workflow_id r.workflow_revision m.core)
          (dispatch_workflow config now clock lease id r deadline m) h in
      elim (Bool-cases (str_eq workflow.content_hash r.workflow_content_hash)) [
        | inr e ↦ absurd (throws-ne-returns (rw e at k))
        | inl e ↦
            let (command, s, _, l) =
              on_core-eq-returns m (enqueue_legacy_command now id (dispatch_body r) m.core)
                (dispatch_enqueued config now clock lease r deadline) (rw e at k) in
            elim (if_found-eq-returns command.dispatch_metadata _ _ l) [
              | inl (_, x) ↦
                  lease_and_note-IsRemembered now clock lease deadline (record m { core = s }) n b x
              | inr (kept, _, x) ↦
                  note_dispatch-IsRemembered command.id command kept (record m { core = s }) n b x
            ]
      ]

  dispatch_live-IsRemembered :
      (now clock : ℕ) (lease id : String) (m n : Manager) {value : Remembered}
      → length m.idempotency ≤ config.max_idempotency
      → dispatch_live config now clock lease id r m ≡ returns value n
      → IsRemembered r value n
  dispatch_live-IsRemembered now clock lease id m n b h =
      elim (Bool-cases (is_over now r.deadline)) [
        | inl e ↦ absurd (throws-ne-returns (rw e at h))
        | inr e ↦
            elim (if_found-eq-returns (find_remembered (dispatch_key r) m)
              (dispatch_new config now clock lease id r (get_or_else r.deadline 0) m)
              (λ existing. returns existing.value m) (rw e at h)) [
                | inl (_, k) ↦
                    dispatch_new-IsRemembered now clock lease id (get_or_else r.deadline 0) m n b k
                | inr (x, f, k) ↦ let (v, q) = returns-injective k in (x, rw (← q) f, v)
              ]
      ]

-- A repeated `dispatch` under the same idempotency key, at a later time before the deadline and
-- while the session lives, returns what the first call returned and changes nothing, whatever the
-- rest of the request asks for; the ledger must hold at most its limit of at least one entry when
-- the first call is made.
pub dispatch-repeated :
    (config : SessionConfig) (now clock later clock' : ℕ) (lease id lease' id' : String)
    (r r' : DispatchRequest) (m n : Manager) {value : Remembered} {session : Session}
    → 1 ≤ config.max_idempotency
    → length m.idempotency ≤ config.max_idempotency
    → dispatch config now clock lease id r m ≡ returns value n
    → r'.idempotency_key ≡ r.idempotency_key
    → require_session n r'.device_id r'.generation ≡ ok session
    → is_over later r'.deadline ≡ false
    → dispatch config later clock' lease' id' r' n ≡ returns value n
unfolding dispatch
dispatch-repeated config now clock later clock' lease id lease' id' r r' m n {value = value} p b h k
      live ahead =
    let (_, _, l) =
      or_throw-eq-returns m (require_session m r.device_id r.generation)
        (λ _. dispatch_live config now clock lease id r m) h in
    let (entry, f, v) : IsRemembered r value n =
      dispatch_live-IsRemembered config r p now clock lease id m n b l in
    let f' : find_remembered (dispatch_key r') n ≡ some entry = rw k f in
    rw (live, ahead, f', v) refl
