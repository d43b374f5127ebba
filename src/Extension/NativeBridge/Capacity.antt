-- ===== src/Extension/NativeBridge/Capacity.antt =====
-- src/native-bridge.js: how large the map of pending requests becomes.
use web_action_recorder_exte.Common.{
  ℕ, zero, suc, String, Bool, not, ◌&&◌, ◌||◌, leb, ◌+◌, ◌≤◌, List, [], ◌∷◌, ◌++◌, map,
  if◌then◌else◌, if-both, Option, none, some, truthy, opt_eq, get_elem?, ◌≡◌, refl, arith,
  Bool-cases, inl, inr,
}
use web_action_recorder_exte.Json.{Json}
use web_action_recorder_exte.Extension.NativeBridge.{
  Failure, bridge_disconnected, connect_failed, protocol_mismatch, Request, Client, Answer,
  reject_pending, reject_all, is_connected, is_connecting, connect, disconnect, handle_disconnect,
  pending_size, delete_pending, new_request, request, resolve_pending, handle_message,
  protocol_version, expire_at, timer_id, fire_at, fire, Action, connects, disconnects,
  host_disconnects, makes_request, gets_message, timer_fires, perform, run,
}

pending_size-reject :
    (e : Failure) (rs : List Request) → pending_size (map (reject_pending e) rs) ≤ pending_size rs
pending_size-reject e [] = omega arith
pending_size-reject e (r ∷ rs) = ground (arith, pending_size-reject e rs)

pending_size-delete :
    (id : String) (rs : List Request) → pending_size (map (delete_pending id) rs) ≤ pending_size rs
pending_size-delete id [] = omega arith
pending_size-delete id (r ∷ rs) = ground (arith, pending_size-delete id rs)

pending_size-append :
    (xs ys : List Request) → pending_size (xs ++ ys) ≡ pending_size xs + pending_size ys
pending_size-append [] ys = omega arith
pending_size-append (x ∷ xs) ys = omega (arith, pending_size-append xs ys)

pending_size-expire_at :
    (rs : List Request) (n : ℕ) → pending_size (expire_at rs n) ≡ pending_size rs
pending_size-expire_at [] n = refl
pending_size-expire_at (r ∷ rs) zero = ground arith
pending_size-expire_at (r ∷ rs) (suc n) = ground (arith, pending_size-expire_at rs n)

pending_size-resolve :
    (id : Option String) (m : Json) (rs : List Request)
    → pending_size (resolve_pending id m rs) ≤ pending_size rs
pending_size-resolve none m rs = omega arith
pending_size-resolve (some id) m [] = omega arith
pending_size-resolve (some id) m (r ∷ rs) = ground (arith, pending_size-resolve (some id) m rs)

pending_size-fire_at :
    (o : Option String) (n : ℕ) (rs : List Request)
    → pending_size (fire_at o n rs) ≤ pending_size rs
pending_size-fire_at none n rs = omega arith
pending_size-fire_at (some id) n rs =
    omega (arith, pending_size-delete id rs, pending_size-expire_at (map (delete_pending id) rs) n)

-- The map has no more entries than before.
abbrev NoMore : Client → Client → Type 0
NoMore c d = pending_size d.requests ≤ pending_size c.requests

NoMore-connect : (opens : Bool) (c : Client) → NoMore c (connect opens c)
unfolding connect reject_all
NoMore-connect opens c =
    if-both (NoMore c) (is_connected c.state || is_connecting c.state) (omega arith)
      (if-both (NoMore c) opens (omega arith) (pending_size-reject connect_failed c.requests))

abbrev Within : ℕ → Client → Type 0
Within n c = pending_size c.requests ≤ n

Within-request :
    (n : ℕ) (id : String) (opens : Bool) (c : Client)
    → Within n c
    → Within n (request n id opens c).1
unfolding request
Within-request n id opens c h = elim (Bool-cases (leb n (pending_size c.requests))) [
  | inl e ↦ rw e h
  | inr e ↦
      let ready : Client = if is_connected c.state then c else connect opens c in
      let less : NoMore c ready =
        if-both (NoMore c) (is_connected c.state) (omega arith) (NoMore-connect opens c) in
      rw e (
        if-both (λ (x : Answer × Client). Within n (x.1)) (not ready.port) (omega (arith, h, less))
          (ground (
            arith,
            e,
            less,
            pending_size-delete id ready.requests,
            pending_size-append (map (delete_pending id) ready.requests) (new_request id ∷ []),
          )))
]

Within-perform : (n : ℕ) (a : Action) (c : Client) → Within n c → Within n (perform n a c)
unfolding disconnect handle_disconnect handle_message fire reject_all
Within-perform n (connects opens) c h = omega (arith, h, NoMore-connect opens c)
Within-perform n disconnects c h =
    omega (arith, h, pending_size-reject bridge_disconnected c.requests)
Within-perform n host_disconnects c h =
    omega (arith, h, pending_size-reject bridge_disconnected c.requests)
Within-perform n (makes_request id opens) c h = Within-request n id opens c h
Within-perform n (gets_message version id m) c h =
    if-both (Within n) (truthy version && not (opt_eq version (some protocol_version)))
      (omega (arith, h, pending_size-reject protocol_mismatch c.requests))
      (omega (arith, h, pending_size-resolve id m c.requests))
Within-perform n (timer_fires k) c h =
    omega (arith, h, pending_size-fire_at (timer_id (get_elem? c.requests k)) k c.requests)

-- Whatever the client goes through, the map `pending` has no more entries than the limit allows. A
-- request that another one with its correlation id has displaced from the map is not counted, though
-- it waits until its timer fires.
pub run-le-max_pending :
    (max_pending : ℕ) (actions : List Action) (c : Client)
    → pending_size c.requests ≤ max_pending
    → pending_size (run max_pending actions c).requests ≤ max_pending
unfolding run
run-le-max_pending max_pending [] c h = h
run-le-max_pending max_pending (a ∷ actions) c h =
    run-le-max_pending max_pending actions (perform max_pending a c)
      (Within-perform max_pending a c h)
