-- ===== src/Extension/NativeBridge.antt =====
-- src/native-bridge.js: NativeBridgeClient. The requests are kept in the order in which they are
-- made, each with its timer and what its promise was settled with, and are never taken off the
-- list: `pending` is those that are marked, and `pending.set` with an id that is there takes the
-- mark from the older one. Whether `connectNative` opens a port is an argument; `postMessage` is
-- taken not to throw. The times of the timers are left out: a timer that runs may fire at any time.
pub mod Laws
pub mod Settling
pub mod Capacity
use web_action_recorder_exte.Common.{
  ℕ, zero, suc, String, Bool, true, false, not, ◌&&◌, ◌||◌, ◌==◌, leb, ◌+◌, List, [], ◌∷◌, ◌++◌,
  map, length, if◌then◌else◌, Option, none, some, str_eq, truthy, opt_eq, update_first, get_elem?,
}
use web_action_recorder_exte.Json.{Json}

pub data BridgeState : Type 0 where
  disconnected connecting connected reconnecting incompatible : BridgeState

pub data Failure : Type 0 where
  bridge_disconnected connect_failed protocol_mismatch timed_out : Failure

pub data Settlement : Type 0 where
  resolved : Json → Settlement
  rejected : Failure → Settlement

pub record Request : Type 0 where
  pub correlation_id : String
  pub pending : Bool
  pub timer : Bool
  pub settlements : List Settlement

pub record Client : Type 0 where
  pub state : BridgeState
  pub port : Bool
  pub requests : List Request
  pub backoff_ms : ℕ

pub data Answer : Type 0 where
  limit_reached host_unavailable requested : Answer

-- `resolve` or `reject`, with `clearTimeout` and the entry of `pending` deleted.
abbrev pub settle : Settlement → Request → Request
settle x r = record r { pending = false; timer = false; settlements = r.settlements ++ x ∷ [] }

abbrev pub reject_pending : Failure → Request → Request
reject_pending e r = if r.pending then settle (rejected e) r else r

abbrev pub with_requests : Client → List Request → Client
with_requests c requests = record c { requests = requests }

unfoldable pub reject_all : Failure → Client → Client
reject_all e c = with_requests c (map (reject_pending e) c.requests)

abbrev pub is_connected : BridgeState → Bool
is_connected connected = true
is_connected _ = false

abbrev pub is_connecting : BridgeState → Bool
is_connecting connecting = true
is_connecting _ = false

-- `opens`: `connectNative` returns a port. The states on the way, `connecting` and `reconnecting`,
-- last as long as the call does.
unfoldable pub connect : Bool → Client → Client
connect opens c =
    if is_connected c.state || is_connecting c.state
    then c
    else if opens
    then record c { state = connected; port = true; backoff_ms = 500 }
    else reject_all connect_failed (record c { state = disconnected })

unfoldable pub disconnect : Client → Client
disconnect c = reject_all bridge_disconnected (record c { state = disconnected; port = false })

unfoldable pub handle_disconnect : Client → Client
handle_disconnect c =
    reject_all bridge_disconnected (record c { port = false; state = disconnected })

-- `pending.size`: the entries of the map. A request whose entry another one with its correlation id
-- has replaced is none of them, though its timer still runs.
abbrev pub pending_size : List Request → ℕ
pending_size [] = 0
pending_size (r ∷ requests) = (if r.pending then 1 else 0) + pending_size requests

-- `pending.delete(id)`, and the older entry when `pending.set` takes its place.
abbrev pub delete_pending : String → Request → Request
delete_pending id r = if str_eq r.correlation_id id then record r { pending = false } else r

abbrev pub new_request : String → Request
new_request id = record { correlation_id = id; pending = true; timer = true; settlements = [] }

abbrev pub send : String → Client → Client
send id c = with_requests c (map (delete_pending id) c.requests ++ new_request id ∷ [])

unfoldable pub request : (max_pending : ℕ) → String → Bool → Client → Answer × Client
request max_pending id opens c =
    if leb max_pending (pending_size c.requests)
    then (limit_reached, c)
    else let ready = if is_connected c.state then c else connect opens c in
      if not ready.port then (host_unavailable, ready) else (requested, send id ready)

abbrev pub protocol_version : String
protocol_version = "war-control.v2"

abbrev pub is_for : String → Request → Bool
is_for id r = r.pending && str_eq r.correlation_id id

abbrev pub resolve_pending : Option String → Json → List Request → List Request
resolve_pending none message requests = requests
resolve_pending (some id) message requests =
    update_first (is_for id) (settle (resolved message)) requests

unfoldable pub handle_message : Option String → Option String → Json → Client → Client
handle_message version id message c =
    if truthy version && not (opt_eq version (some protocol_version))
    then reject_all protocol_mismatch (record c { state = incompatible })
    else with_requests c (resolve_pending id message c.requests)

-- The timer of a request fires: `pending.delete(correlationId)`, then `reject`.
abbrev pub expire : Request → Request
expire r =
    if r.timer
    then record r { timer = false; settlements = r.settlements ++ rejected timed_out ∷ [] }
    else r

abbrev pub expire_at : List Request → ℕ → List Request
expire_at [] n = []
expire_at (r ∷ requests) zero = expire r ∷ requests
expire_at (r ∷ requests) (suc n) = r ∷ expire_at requests n

abbrev pub timer_id : Option Request → Option String
timer_id none = none
timer_id (some r) = if r.timer then some r.correlation_id else none

abbrev pub fire_at : Option String → ℕ → List Request → List Request
fire_at none n requests = requests
fire_at (some id) n requests = expire_at (map (delete_pending id) requests) n

unfoldable pub fire : ℕ → Client → Client
fire n c = with_requests c (fire_at (timer_id (get_elem? c.requests n)) n c.requests)

abbrev pub new_client : Client
new_client = record { state = disconnected; port = false; requests = []; backoff_ms = 500 }

pub data Action : Type 0 where
  connects : Bool → Action
  disconnects host_disconnects : Action
  makes_request : String → Bool → Action
  gets_message : Option String → Option String → Json → Action
  timer_fires : ℕ → Action

abbrev pub perform : ℕ → Action → Client → Client
perform max_pending (connects opens) c = connect opens c
perform max_pending disconnects c = disconnect c
perform max_pending host_disconnects c = handle_disconnect c
perform max_pending (makes_request id opens) c = (request max_pending id opens c).1
perform max_pending (gets_message version id message) c = handle_message version id message c
perform max_pending (timer_fires n) c = fire n c

unfoldable pub run : ℕ → List Action → Client → Client
run max_pending [] c = c
run max_pending (a ∷ actions) c = run max_pending actions (perform max_pending a c)
