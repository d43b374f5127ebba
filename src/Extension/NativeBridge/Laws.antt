-- ===== src/Extension/NativeBridge/Laws.antt =====
-- src/native-bridge.js: what becomes of the requests.
use web_action_recorder_exte.Common.{
  ℕ, zero, suc, String, Bool, true, false, not, ◌&&◌, ◌||◌, ◌==◌, leb, List, [], ◌∷◌, map, length,
  if◌then◌else◌, if-both, Option, none, some, truthy, opt_eq, update_first, get_elem?, All,
  All-append, length-append, ◌≡◌, refl, arith, Bool-cases, str_eq_refl, inl, inr,
}
use web_action_recorder_exte.Json.{Json}
use web_action_recorder_exte.Extension.NativeBridge.{
  disconnected, incompatible, Failure, bridge_disconnected, connect_failed, protocol_mismatch,
  timed_out, resolved, rejected, Request, Client, Answer, settle, reject_pending, reject_all,
  is_connected, is_connecting, connect, disconnect, handle_disconnect, pending_size, delete_pending,
  new_request, send, request, is_for, resolve_pending, handle_message, expire, expire_at, timer_id,
  fire_at, fire, Action, connects, disconnects, host_disconnects, makes_request, gets_message,
  timer_fires, protocol_version, perform, run,
}

-- A request is settled once, or else its timer runs; one that is pending is not settled.
abbrev pub is_kept : Request → Bool
is_kept r =
    (if r.timer then length r.settlements == 0 else length r.settlements == 1)
    && (not r.pending || r.timer)

abbrev pub IsKept : Request → Type 0
IsKept r = is_kept r ≡ true

IsKept-reject : (e : Failure) (r : Request) → IsKept r → IsKept (reject_pending e r)
IsKept-reject e r h = ground (arith, length-append r.settlements (rejected e ∷ []))

IsKept-delete : (id : String) (r : Request) → IsKept r → IsKept (delete_pending id r)
IsKept-delete id r h = ground arith

IsKept-resolve :
    (id : String) (m : Json) (r : Request)
    → is_for id r ≡ true
    → IsKept r
    → IsKept (settle (resolved m) r)
IsKept-resolve id m r f h = ground (arith, length-append r.settlements (resolved m ∷ []))

AllKept-map :
    (f : Request → Request) (rs : List Request)
    → ((r : Request) → IsKept r → IsKept (f r))
    → All IsKept rs
    → All IsKept (map f rs)
AllKept-map f [] k h = tt
AllKept-map f (r ∷ rs) k h = (k r (h.0), AllKept-map f rs k (h.1))

AllKept-update_first :
    (p : Request → Bool) (f : Request → Request) (rs : List Request)
    → ((r : Request) → p r ≡ true → IsKept r → IsKept (f r))
    → All IsKept rs
    → All IsKept (update_first p f rs)
AllKept-update_first p f [] k h = tt
AllKept-update_first p f (r ∷ rs) k h = elim (Bool-cases (p r)) [
  | inl e ↦ rw e (k r e (h.0), h.1)
  | inr e ↦ rw e (h.0, AllKept-update_first p f rs k (h.1))
]

abbrev AllKept : Client → Type 0
AllKept c = All IsKept c.requests

AllKept-reject_all : (e : Failure) (c : Client) → AllKept c → AllKept (reject_all e c)
unfolding reject_all
AllKept-reject_all e c h = AllKept-map (reject_pending e) c.requests (IsKept-reject e) h

AllKept-connect : (opens : Bool) (c : Client) → AllKept c → AllKept (connect opens c)
unfolding connect
AllKept-connect opens c h = if-both AllKept (is_connected c.state || is_connecting c.state) h (
    if-both AllKept opens h
      (AllKept-reject_all connect_failed (record c { state = disconnected }) h))

AllKept-send : (id : String) (c : Client) → AllKept c → AllKept (send id c)
AllKept-send id c h =
    All-append IsKept (map (delete_pending id) c.requests) (new_request id ∷ [])
      (AllKept-map (delete_pending id) c.requests (IsKept-delete id) h) (refl, tt)

AllKept-request :
    (max_pending : ℕ) (id : String) (opens : Bool) (c : Client)
    → AllKept c
    → AllKept (request max_pending id opens c).1
unfolding request
AllKept-request max_pending id opens c h =
    let ready : Client = if is_connected c.state then c else connect opens c in
    let k : AllKept ready = if-both AllKept (is_connected c.state) h (AllKept-connect opens c h) in
    if-both (λ (x : Answer × Client). AllKept (x.1)) (leb max_pending (pending_size c.requests)) h
      (if-both (λ (x : Answer × Client). AllKept (x.1)) (not ready.port) k
        (AllKept-send id ready k))

-- The n-th request is not pending.
abbrev IsOffAt : List Request → ℕ → Type 0
IsOffAt [] n = Unit
IsOffAt (r ∷ rs) zero = r.pending ≡ false
IsOffAt (r ∷ rs) (suc n) = IsOffAt rs n

IsKept-expire : (r : Request) → IsKept r → r.pending ≡ false → IsKept (expire r)
IsKept-expire r h p = ground (arith, length-append r.settlements (rejected timed_out ∷ []))

AllKept-expire_at :
    (rs : List Request) (n : ℕ) → All IsKept rs → IsOffAt rs n → All IsKept (expire_at rs n)
AllKept-expire_at [] n h o = tt
AllKept-expire_at (r ∷ rs) zero h o = (IsKept-expire r (h.0) o, h.1)
AllKept-expire_at (r ∷ rs) (suc n) h o = (h.0, AllKept-expire_at rs n (h.1) o)

IsOffAt-delete :
    (rs : List Request) (n : ℕ) (id : String)
    → timer_id (get_elem? rs n) ≡ some id
    → IsOffAt (map (delete_pending id) rs) n
IsOffAt-delete [] n id h = tt
IsOffAt-delete (r ∷ rs) zero id h =
    let own : r.correlation_id ≡ id = ground arith in rw (own, str_eq_refl id) refl
IsOffAt-delete (r ∷ rs) (suc n) id h = IsOffAt-delete rs n id h

pub AllKept-fire_at :
    (o : Option String) (rs : List Request) (n : ℕ)
    → timer_id (get_elem? rs n) ≡ o
    → All IsKept rs
    → All IsKept (fire_at o n rs)
AllKept-fire_at none rs n e h = h
AllKept-fire_at (some id) rs n e h =
    AllKept-expire_at (map (delete_pending id) rs) n
      (AllKept-map (delete_pending id) rs (IsKept-delete id) h) (IsOffAt-delete rs n id e)

AllKept-resolve_pending :
    (id : Option String) (m : Json) (rs : List Request)
    → All IsKept rs
    → All IsKept (resolve_pending id m rs)
AllKept-resolve_pending none m rs h = h
AllKept-resolve_pending (some id) m rs h =
    AllKept-update_first (is_for id) (settle (resolved m)) rs (IsKept-resolve id m) h

AllKept-perform :
    (max_pending : ℕ) (a : Action) (c : Client) → AllKept c → AllKept (perform max_pending a c)
unfolding disconnect handle_disconnect handle_message fire
AllKept-perform max_pending (connects opens) c h = AllKept-connect opens c h
AllKept-perform max_pending disconnects c h =
    AllKept-reject_all bridge_disconnected (record c { state = disconnected; port = false }) h
AllKept-perform max_pending host_disconnects c h =
    AllKept-reject_all bridge_disconnected (record c { port = false; state = disconnected }) h
AllKept-perform max_pending (makes_request id opens) c h = AllKept-request max_pending id opens c h
AllKept-perform max_pending (gets_message version id m) c h =
    if-both AllKept (truthy version && not (opt_eq version (some protocol_version)))
      (AllKept-reject_all protocol_mismatch (record c { state = incompatible }) h)
      (AllKept-resolve_pending id m c.requests h)
AllKept-perform max_pending (timer_fires n) c h = AllKept-fire_at _ c.requests n refl h

-- At any time, whatever was called, received or fired, every request was settled exactly once or
-- else not at all, and then its timer runs; none is pending that is settled.
pub run-IsKept :
    (max_pending : ℕ) (actions : List Action) (c : Client)
    → All IsKept c.requests
    → All IsKept (run max_pending actions c).requests
unfolding run
run-IsKept max_pending [] c h = h
run-IsKept max_pending (a ∷ actions) c h =
    run-IsKept max_pending actions (perform max_pending a c) (AllKept-perform max_pending a c h)
