-- ===== src/Extension/NativeBridge/Settling.antt =====
-- src/native-bridge.js: when the promises of requests are settled.
use web_action_recorder_exte.Common.{
  ℕ, zero, suc, String, false, List, [], ◌∷◌, map, length, Option, none, some, get_elem?,
  length-map, All, ◌≡◌, refl, ap, ◌∙◌, arith,
}
use web_action_recorder_exte.Extension.NativeBridge.{
  Request, Client, delete_pending, expire_at, timer_id, fire_at, fire, new_client, Action, run,
}
use web_action_recorder_exte.Extension.NativeBridge.Laws.{IsKept, run-IsKept, AllKept-fire_at}

-- The timers of the first n requests fire, one after another.
abbrev pub fire_first : ℕ → Client → Client
fire_first zero c = c
fire_first (suc n) c = fire n (fire_first n c)

abbrev OffBelow : ℕ → List Request → Type 0
OffBelow zero rs = Unit
OffBelow (suc n) [] = Unit
OffBelow (suc n) (r ∷ rs) = (r.timer ≡ false) × OffBelow n rs

OffBelow-none :
    (n : ℕ) (rs : List Request)
    → timer_id (get_elem? rs n) ≡ none
    → OffBelow n rs
    → OffBelow (suc n) rs
OffBelow-none n [] h k = tt
OffBelow-none zero (r ∷ rs) h k = (ground arith, tt)
OffBelow-none (suc n) (r ∷ rs) h k = (k.0, OffBelow-none n rs h (k.1))

OffBelow-delete :
    (n : ℕ) (rs : List Request) (id : String)
    → OffBelow n rs
    → OffBelow n (map (delete_pending id) rs)
OffBelow-delete zero rs id h = tt
OffBelow-delete (suc n) [] id h = tt
OffBelow-delete (suc n) (r ∷ rs) id h = (ground (arith, h.0), OffBelow-delete n rs id (h.1))

OffBelow-expire_at : (n : ℕ) (rs : List Request) → OffBelow n rs → OffBelow (suc n) (expire_at rs n)
OffBelow-expire_at n [] h = tt
OffBelow-expire_at zero (r ∷ rs) h = (ground arith, tt)
OffBelow-expire_at (suc n) (r ∷ rs) h = (h.0, OffBelow-expire_at n rs (h.1))

OffBelow-fire_at :
    (o : Option String) (n : ℕ) (rs : List Request)
    → timer_id (get_elem? rs n) ≡ o
    → OffBelow n rs
    → OffBelow (suc n) (fire_at o n rs)
OffBelow-fire_at none n rs e h = OffBelow-none n rs e h
OffBelow-fire_at (some id) n rs e h =
    OffBelow-expire_at n (map (delete_pending id) rs) (OffBelow-delete n rs id h)

length-expire_at : (rs : List Request) (n : ℕ) → length (expire_at rs n) ≡ length rs
length-expire_at [] n = refl
length-expire_at (r ∷ rs) zero = refl
length-expire_at (r ∷ rs) (suc n) = ap suc (length-expire_at rs n)

length-fire_at :
    (o : Option String) (rs : List Request) (n : ℕ) → length (fire_at o n rs) ≡ length rs
length-fire_at none rs n = refl
length-fire_at (some id) rs n =
    length-expire_at (map (delete_pending id) rs) n ∙ length-map (delete_pending id) rs

fire_first-lem :
    (n : ℕ) (c : Client)
    → All IsKept c.requests
    → OffBelow n (fire_first n c).requests
      × (length (fire_first n c).requests ≡ length c.requests)
      × All IsKept (fire_first n c).requests
unfolding fire
fire_first-lem zero c h = (tt, refl, h)
fire_first-lem (suc n) c h =
    let before = fire_first-lem n c h in
    let rs = (fire_first n c).requests in
    (
      OffBelow-fire_at (timer_id (get_elem? rs n)) n rs refl (before.0),
      length-fire_at (timer_id (get_elem? rs n)) rs n ∙ before.1,
      AllKept-fire_at (timer_id (get_elem? rs n)) rs n refl (before.2),
    )

settled_once :
    (n : ℕ) (rs : List Request)
    → length rs ≡ n
    → OffBelow n rs
    → All IsKept rs
    → All (λ r. length r.settlements ≡ 1) rs
settled_once n [] e o h = tt
settled_once zero (r ∷ rs) e o h = absurd (omega arith)
settled_once (suc n) (r ∷ rs) e o h =
    (ground (arith, o.0, h.0), settled_once n rs (omega arith) (o.1) (h.1))

-- No request is forgotten: whatever happened to a new client, and whatever was never answered, once
-- the timers that run have fired, the promise of every request was settled, and only once.
pub fire_first-settles :
    (max_pending : ℕ) (actions : List Action)
    → All
        (λ r. length r.settlements ≡ 1)
        (fire_first
          (length (run max_pending actions new_client).requests)
          (run max_pending actions new_client)).requests
fire_first-settles max_pending actions =
    let c = run max_pending actions new_client in
    let done =
      fire_first-lem (length c.requests) c (run-IsKept max_pending actions new_client tt) in
    settled_once (length c.requests) (fire_first (length c.requests) c).requests (done.1) (done.0)
      (done.2)
