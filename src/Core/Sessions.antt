-- ===== src/Core/Sessions.antt =====
-- platform/controller-core/src/sessionManager.js: the live sessions of agents, over the persisted
-- state. A call is one step: what its `await`s let in between is not modelled, nor are the `close`
-- callbacks. The envelopes are those that `protocolV2.js` has accepted. A returned session stands
-- for its `publicSession`.
pub mod Dispatch
pub mod Laws
pub mod Ledger
pub mod Receive
use web_action_recorder_exte.Common.{
  ℕ, suc, ◌+◌, ◌-◌, ◌==◌, ltb, leb, Bool, true, false, not, ◌&&◌, ◌||◌, String, str_eq, opt_eq,
  Option, none, some, List, [], ◌∷◌, ◌++◌, length, map, any, drop, find_first, update_first,
  keep_if, get_or_else, if◌then◌else◌,
}
use web_action_recorder_exte.Core.Errors.{
  Error, Result, ok, err, Outcome, returns, throws, or_throw, ◌>>=◌, domain_error_with, auth_denied,
  invalid_target, capacity_exceeded,
}
use web_action_recorder_exte.Core.State.{State, Command, DispatchPayload}
use web_action_recorder_exte.Core.Commands.{require_device}
use web_action_recorder_exte.Core.Devices.{DeviceBody, register_device, heartbeat, set_status}
use web_action_recorder_exte.Core.Jobs.Stops.{fail_running_for_device}
use web_action_recorder_exte.Core.Pairing.{DevicePayload}
use web_action_recorder_exte.Core.Pairing.Agents.{verify_credential}

pub record PendingJob : Type 0 where
  pub job_id : String
  pub payload : DispatchPayload
  pub generation : Option ℕ

pub record Session : Type 0 where
  pub session_id : String
  pub generation : ℕ
  pub device_id : String
  pub nonce : String
  pub connected_at : ℕ
  pub last_seen_at : ℕ
  pub status : String
  pub pending_jobs : List PendingJob

-- What the ledger of idempotency keys remembers: a dispatch, or a cancelled job.
pub data Remembered : Type 0 where
  dispatch_result : Command → DispatchPayload → Remembered
  cancel_result : Command → Remembered

pub record LedgerEntry : Type 0 where
  pub key : String
  pub value : Remembered

-- The two maps in the order of their keys' insertion, and the state of `core`.
pub record Manager : Type 0 where
  pub core : State
  pub sessions : List Session
  pub idempotency : List LedgerEntry

pub record SessionConfig : Type 0 where
  pub heartbeat_timeout_ms : ℕ
  pub max_sessions : ℕ
  pub max_idempotency : ℕ

-- `DEFAULT_HEARTBEAT_TIMEOUT_MS`, `DEFAULT_MAX_SESSIONS`, `DEFAULT_MAX_IDEMPOTENCY`
abbrev pub default_limits : SessionConfig
default_limits = record { heartbeat_timeout_ms = 30000; max_sessions = 256; max_idempotency = 1000 }

-- A call of a service of `core`.
abbrev pub on_core :
    {A B : Type 0}
    → Manager
    → Outcome State A
    → (A → Manager → Outcome Manager B)
    → Outcome Manager B
on_core m (returns a s) next = next a (record m { core = s })
on_core m (throws e s) next = throws e (record m { core = s })

abbrev pub is_session : String → Session → Bool
is_session device_id session = str_eq session.device_id device_id

abbrev pub find_session : String → Manager → Option Session
find_session device_id m = find_first (is_session device_id) m.sessions

-- `Map.set`: an old key keeps its place.
abbrev pub set_session : Session → List Session → List Session
set_session session sessions =
    if any (is_session session.device_id) sessions
    then update_first (is_session session.device_id) (λ _. session) sessions
    else sessions ++ session ∷ []

abbrev pub write_session : String → (Session → Session) → Manager → Manager
write_session device_id f m = record m {
  sessions = update_first (is_session device_id) f m.sessions;
}

abbrev pub is_generation : Option ℕ → Session → Bool
is_generation none session = true
is_generation (some g) session = session.generation == g

abbrev pub no_session : Error
no_session = domain_error_with auth_denied 401

-- `requireSession`
unfoldable pub require_session : Manager → String → Option ℕ → Result Session
require_session m device_id generation = elim (find_session device_id m) [
  | none ↦ err no_session
  | some session ↦
      if not (is_generation generation session)
      then err no_session
      else require_device m.core device_id >>= λ _. ok session
]

-- `descriptorToRegistration`
abbrev pub descriptor_to_registration : DevicePayload → DeviceBody
descriptor_to_registration device = record {
  device_id = none;
  name = device.display_name;
  device_name = none;
  group_ids = device.group_ids;
  labels = device.labels;
  extension_version = device.extension_version;
  browser = device.browser_version;
  capabilities = device.capabilities;
  profiles = none;
}

abbrev pub protocol_version : String
protocol_version = "war-control.v2"

-- What an accepted `AgentHello` holds.
pub record Hello : Type 0 where
  pub protocol_version : String
  pub envelope_device_id : Option String
  pub device_id : String
  pub device : DevicePayload
  pub session_nonce : String

abbrev generation_of : Option Session → ℕ
generation_of none = 0
generation_of (some s) = s.generation

abbrev pub next_session : ℕ → (session_id : String) → Hello → Manager → Session
next_session now session_id hello m = record {
  session_id = session_id;
  generation = generation_of (find_session hello.device_id m) + 1;
  device_id = hello.device_id;
  nonce = hello.session_nonce;
  connected_at = now;
  last_seen_at = now;
  status = "online";
  pending_jobs = [];
}

abbrev is_own_device : Option String → String → Bool
is_own_device none device_id = true
is_own_device (some given) device_id = str_eq given device_id

abbrev pub is_full : SessionConfig → Hello → Manager → Bool
is_full config hello m =
    leb config.max_sessions (length m.sessions) && not (any (is_session hello.device_id) m.sessions)

-- The tail of `authenticateHello`, once the credential is verified.
abbrev pub admit_hello :
    SessionConfig → ℕ → (session_id : String) → Hello → Manager → Outcome Manager Session
admit_hello config now session_id hello m =
    if is_full config hello m
    then throws (domain_error_with capacity_exceeded 413) m
    else let session = next_session now session_id hello m in
      on_core (record m { sessions = set_session session m.sessions })
        (register_device now hello.device_id (descriptor_to_registration hello.device) m.core)
        (λ _ m'. returns session m')

-- `authenticateHello`, after the check of the envelope.
unfoldable pub authenticate_hello :
    (String → String)
    → SessionConfig
    → ℕ
    → (session_id credential : String) → Hello
    → Manager
    → Outcome Manager Session
authenticate_hello hash config now session_id credential hello m =
    if not (str_eq hello.protocol_version protocol_version)
    then throws (domain_error_with invalid_target 426) m
    else if not (is_own_device hello.envelope_device_id hello.device_id)
    then throws (domain_error_with invalid_target 409) m
    else or_throw m (verify_credential hash hello.device_id credential m.core)
        λ _. admit_hello config now session_id hello m

abbrev seen : ℕ → String → Session → Session
seen at status session = record session { status = status; last_seen_at = at }

-- `handlePresence`, after the check of the envelope; `at` is the payload's `lastSeenAt`.
unfoldable pub handle_presence :
    ℕ
    → (device_id : String) → (generation : Option ℕ) → (session_id : Option String)
    → (status : String) → (at : ℕ) → Manager
    → Outcome Manager Session
handle_presence now device_id generation session_id status at m =
    or_throw m (require_session m device_id generation) λ session.
      if not (is_own_device session_id session.session_id)
      then throws (domain_error_with invalid_target 409) m
      else on_core (write_session device_id (seen at status) m)
          (heartbeat now session.device_id (some status) none m.core)
          (λ _ m'. returns (seen at status session) m')

-- `markHeartbeat`
unfoldable pub mark_heartbeat : ℕ → String → Option ℕ → Manager → Outcome Manager Session
mark_heartbeat now device_id generation m =
    or_throw m (require_session m device_id generation) λ session.
      on_core (write_session device_id (seen now "online") m)
        (heartbeat now device_id (some "online") none m.core)
        (λ _ m'. returns (seen now "online" session) m')

abbrev is_stale : SessionConfig → ℕ → Session → Bool
is_stale config now session = not (leb (now - session.last_seen_at) config.heartbeat_timeout_ms)

abbrev set_offline : Session → Session
set_offline session = record session { status = "offline" }

-- The loop of `expireHeartbeats` over the sessions that it finds.
abbrev pub expire_loop :
    SessionConfig → ℕ → List Session → List Session → Manager → Outcome Manager (List Session)
expire_loop config now [] expired m = returns expired m
expire_loop config now (session ∷ rest) expired m =
    let skip = expire_loop config now rest expired in
    let go = expire_loop config now rest (expired ++ set_offline session ∷ []) in
    if not (is_stale config now session)
    then skip m
    else on_core (write_session session.device_id set_offline m)
        (set_status now session.device_id "offline" m.core) (λ _. go)

unfoldable pub expire_heartbeats : SessionConfig → ℕ → Manager → Outcome Manager (List Session)
expire_heartbeats config now m = expire_loop config now m.sessions [] m

-- `disconnect`
unfoldable pub disconnect :
    (now clock : ℕ)
    → (lease device_id : String) → (generation : ℕ) → (status : String) → Manager
    → Outcome Manager Bool
disconnect now clock lease device_id generation status m = elim (find_session device_id m) [
  | none ↦ returns false m
  | some session ↦
      if not (session.generation == generation)
      then returns false m
      else on_core (write_session device_id (seen now status) m)
          (set_status now device_id status m.core)
          (λ _ m'.
            on_core m' (fail_running_for_device now clock lease device_id m'.core)
              (λ _ m''. returns true m''))
]

-- `closeDeviceSession`
unfoldable pub close_device_session :
    (now clock : ℕ) → (lease device_id : String) → Manager → Outcome Manager Bool
unfolding disconnect
close_device_session now clock lease device_id m = elim (find_session device_id m) [
  | none ↦ returns false m
  | some session ↦ disconnect now clock lease device_id session.generation "offline" m
]

-- `shutdown`, `listSessions`, `getPublicSession`
abbrev pub shutdown : Manager → Manager
shutdown m = record m { sessions = []; idempotency = [] }

abbrev pub list_sessions : Manager → List Session
list_sessions m = m.sessions

abbrev pub get_public_session : String → Manager → Option Session
get_public_session device_id m = find_session device_id m
