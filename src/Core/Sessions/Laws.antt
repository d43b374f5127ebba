-- ===== src/Core/Sessions/Laws.antt =====
-- Sessions that replace one another, and their number.
use web_action_recorder_exte.Common.{
  ◌≡◌, refl, sym, ap, arith, ℕ, ◌≤◌, ◌+◌, ◌==◌, true, false, not, String, str_eq, str_eq_refl, some,
  List, [], ◌∷◌, ◌++◌, length, length-append, length-update_first, any, find_first, update_first,
  Bool-cases, inl, inr, if◌then◌else◌,
}
use web_action_recorder_exte.Core.Errors.{
  Outcome, returns, throws, state_of, or_throw-eq-returns, returns-injective, throws-ne-returns,
  err, or_throw-state, if-state,
}
use web_action_recorder_exte.Core.State.{State}
use web_action_recorder_exte.Core.Pairing.Agents.{verify_credential}
use web_action_recorder_exte.Core.Devices.{register_device}
use web_action_recorder_exte.Core.Sessions.{
  Manager, Session, SessionConfig, Hello, authenticate_hello, admit_hello, is_full, next_session,
  set_session, is_session, find_session, disconnect, require_session, no_session, on_core,
  protocol_version, is_own_device, generation_of, descriptor_to_registration,
}

pub on_core-eq-returns :
    {A B : Type 0} {b : B} {n : Manager} (m : Manager) (o : Outcome State A)
    (next : A → Manager → Outcome Manager B)
    → on_core m o next ≡ returns b n
    → (a : A) × (s : State) × (o ≡ returns a s) × (next a (record m { core = s }) ≡ returns b n)
on_core-eq-returns m (returns a s) next h = (a, s, refl, h)
on_core-eq-returns m (throws e s) next h = absurd (throws-ne-returns h)

pub on_core-state :
    {A B : Type 0} (P : Manager → Type 0) (m : Manager) (o : Outcome State A)
    (next : A → Manager → Outcome Manager B)
    → ((s : State) → P (record m { core = s }))
    → ((a : A) (s : State) → P (state_of (next a (record m { core = s }))))
    → P (state_of (on_core m o next))
on_core-state P m (returns a s) next h k = k a s
on_core-state P m (throws e s) next h k = h s

find-replaced :
    (session : Session) (ss : List Session)
    → any (is_session session.device_id) ss ≡ true
    → find_first
        (is_session session.device_id)
        (update_first (is_session session.device_id) (λ _. session) ss)
      ≡ some session
find-replaced session [] h = absurd (cc)
find-replaced session (x ∷ xs) h =
    ground (arith, find-replaced session xs, str_eq_refl session.device_id)

find-added :
    (session : Session) (ss : List Session)
    → any (is_session session.device_id) ss ≡ false
    → find_first (is_session session.device_id) (ss ++ session ∷ []) ≡ some session
find-added session [] h = rw (str_eq_refl session.device_id) refl
find-added session (x ∷ xs) h = ground (arith, find-added session xs)

-- `Map.get` after `Map.set`.
find-set_session :
    (session : Session) (ss : List Session)
    → find_first (is_session session.device_id) (set_session session ss) ≡ some session
find-set_session session ss = elim (Bool-cases (any (is_session session.device_id) ss)) [
  | inl e ↦ rw e (find-replaced session ss e)
  | inr e ↦ rw e (find-added session ss e)
]

-- The sessions after a hello that returns.
hello-sessions :
    (hash : String → String) (config : SessionConfig) (now : ℕ) (session_id credential : String)
    (hello : Hello) (m n : Manager) {p : Session}
    → authenticate_hello hash config now session_id credential hello m ≡ returns p n
    → n.sessions ≡ set_session (next_session now session_id hello m) m.sessions
unfolding authenticate_hello
hello-sessions hash config now session_id credential hello m n h =
    elim (Bool-cases (str_eq hello.protocol_version protocol_version)) [
      | inr e ↦ absurd (throws-ne-returns (rw e at h))
      | inl e ↦ elim (Bool-cases (is_own_device hello.envelope_device_id hello.device_id)) [
        | inr k ↦ absurd (throws-ne-returns (rw (e, k) at h))
        | inl k ↦
            let (_, v, l) =
              or_throw-eq-returns m (verify_credential hash hello.device_id credential m.core)
                (λ _. admit_hello config now session_id hello m) (rw (e, k) at h) in
            elim (Bool-cases (is_full config hello m)) [
              | inl f ↦ absurd (throws-ne-returns (rw f at l))
              | inr f ↦
                  let session = next_session now session_id hello m in
                  let (_, s, _, r) =
                    on_core-eq-returns (record m { sessions = set_session session m.sessions })
                      (register_device now hello.device_id (descriptor_to_registration hello.device)
                        m.core)
                      (λ _ m'. returns session m') (rw f at l) in
                  ap (λ (z : Manager). z.sessions) (sym (returns-injective r).1)
            ]
      ]
    ]

require_session-other :
    (n : Manager) (id : String) (g : ℕ) {session : Session}
    → find_session id n ≡ some session
    → (session.generation == g) ≡ false
    → require_session n id (some g) ≡ err no_session
unfolding require_session
require_session-other n id g f h = ground arith

disconnect-other :
    (now clock : ℕ) (lease id : String) (g : ℕ) (status : String) (n : Manager) {session : Session}
    → find_session id n ≡ some session
    → (session.generation == g) ≡ false
    → disconnect now clock lease id g status n ≡ returns false n
unfolding disconnect
disconnect-other now clock lease id g status n f h = ground arith

-- Once an agent says hello again, its earlier connection is cut off: `requireSession` refuses the
-- generation that it had, and its late disconnect returns false and changes nothing, so that it
-- fails no job of the new connection.
pub disconnect-authenticate_hello :
    (hash : String → String) (config : SessionConfig) (now later clock : ℕ)
    (session_id credential lease status : String) (hello : Hello) (m n : Manager) {p old : Session}
    → find_session hello.device_id m ≡ some old
    → authenticate_hello hash config now session_id credential hello m ≡ returns p n
    → (require_session n hello.device_id (some old.generation) ≡ err no_session)
      × (disconnect later clock lease hello.device_id old.generation status n ≡ returns false n)
disconnect-authenticate_hello hash config now later clock session_id credential lease status hello m
      n {old = old} f h =
    let session = next_session now session_id hello m in
    let found : find_session hello.device_id n ≡ some session =
      rw (hello-sessions hash config now session_id credential hello m n h)
        (find-set_session session m.sessions) in
    let other : (generation_of (find_session hello.device_id m) + 1 == old.generation) ≡ false =
      rw f (ground arith) in
    (
      require_session-other n hello.device_id old.generation found other,
      disconnect-other later clock lease hello.device_id old.generation status n found other,
    )

length-set_session :
    (session : Session) (ss : List Session)
    → length (set_session session ss)
      ≡ (if any (is_session session.device_id) ss then length ss else length ss + 1)
length-set_session session ss = elim (Bool-cases (any (is_session session.device_id) ss)) [
  | inl e ↦ rw e (length-update_first (is_session session.device_id) (λ _. session) ss)
  | inr e ↦ rw e (length-append ss (session ∷ []))
]

-- No hello, whether it returns or throws, takes the number of sessions past the limit.
pub authenticate_hello-le-max_sessions :
    (hash : String → String) (config : SessionConfig) (now : ℕ) (session_id credential : String)
    (hello : Hello) (m : Manager)
    → length m.sessions ≤ config.max_sessions
    → length (state_of (authenticate_hello hash config now session_id credential hello m)).sessions
      ≤ config.max_sessions
unfolding authenticate_hello
authenticate_hello-le-max_sessions hash config now session_id credential hello m h =
    if-state AtMost (not (str_eq hello.protocol_version protocol_version)) _ _ h (
      if-state AtMost (not (is_own_device hello.envelope_device_id hello.device_id)) _ _ h (
        or_throw-state AtMost m (verify_credential hash hello.device_id credential m.core) _ h
          λ _ _. admitted))
  where
    AtMost : Manager → Type 0
    AtMost z = length z.sessions ≤ config.max_sessions

    admitted : AtMost (state_of (admit_hello config now session_id hello m))
    admitted = elim (Bool-cases (is_full config hello m)) [
      | inl e ↦ rw e h
      | inr e ↦
          let session = next_session now session_id hello m in
          let fits : length (set_session session m.sessions) ≤ config.max_sessions =
            ground (arith, length-set_session session m.sessions) in
          rw e (
            on_core-state AtMost (record m { sessions = set_session session m.sessions })
              (register_device now hello.device_id (descriptor_to_registration hello.device) m.core)
              (λ _ m'. returns session m') (λ _. fits) (λ _ _. fits))
    ]
