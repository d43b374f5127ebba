-- ===== src/Core/Pairing/Consumed.antt =====
-- platform/controller-core/src/pairingService.js: the pairing requests that are used up, and what the
-- changes of the list do to their number.
use web_action_recorder_exte.Common.{
  ◌≡◌, refl, arith, ℕ, ◌≤◌, Bool, true, false, List, [], ◌∷◌, length, ◌+◌, ◌++◌, map, not, some,
  if◌then◌else◌, find_first, update_first, keep_if, Bool-cases, inl, inr, ap, ◌∙◌, eq_of_some,
}
use web_action_recorder_exte.Core.State.{PendingPairing, PairingStatus, rejected, accepted}
use web_action_recorder_exte.Core.Pairing.{is_expired, expire_pairing, was_used}

abbrev pub is_consumed : PairingStatus → Bool
is_consumed accepted = true
is_consumed rejected = true
is_consumed _ = false

-- The requests that are accepted or rejected.
abbrev pub consumed_size : List PendingPairing → ℕ
consumed_size [] = 0
consumed_size (r ∷ rs) = (if is_consumed r.status then 1 else 0) + consumed_size rs

pub consumed_size-le-length : (rs : List PendingPairing) → consumed_size rs ≤ length rs
consumed_size-le-length [] = omega arith
consumed_size-le-length (r ∷ rs) = ground (arith, consumed_size-le-length rs)

pub consumed_size-append :
    (xs ys : List PendingPairing) → consumed_size (xs ++ ys) ≡ consumed_size xs + consumed_size ys
consumed_size-append [] ys = omega arith
consumed_size-append (x ∷ xs) ys = omega (arith, consumed_size-append xs ys)

is_consumed-expire_pairing :
    (now : ℕ) (r : PendingPairing)
    → is_consumed (expire_pairing now r).status ≡ is_consumed r.status
is_consumed-expire_pairing now r = ground arith

pub consumed_size-expire :
    (now : ℕ) (rs : List PendingPairing)
    → consumed_size (map (expire_pairing now) rs) ≡ consumed_size rs
consumed_size-expire now [] = refl
consumed_size-expire now (r ∷ rs) =
    rw (is_consumed-expire_pairing now r, consumed_size-expire now rs) refl

is_consumed-is_expired : (st : PairingStatus) → is_expired st ≡ true → is_consumed st ≡ false
is_consumed-is_expired st h = ground arith

pub consumed_size-keep_if :
    (rs : List PendingPairing)
    → consumed_size (keep_if (λ item. not (is_expired item.status)) rs) ≡ consumed_size rs
consumed_size-keep_if [] = refl
consumed_size-keep_if (r ∷ rs) =
    ground (arith, consumed_size-keep_if rs, is_consumed-is_expired r.status)

pub consumed_size-use :
    (p : PendingPairing → Bool) (f : PendingPairing → PendingPairing) (rs : List PendingPairing)
    → ((r : PendingPairing) → is_consumed (f r).status ≡ true)
    → consumed_size rs ≤ consumed_size (update_first p f rs)
consumed_size-use p f [] h = omega arith
consumed_size-use p f (r ∷ rs) h = ground (arith, consumed_size-use p f rs h, h r)

pub consumed_size-end :
    (p : PendingPairing → Bool) (f : PendingPairing → PendingPairing) (rs : List PendingPairing)
    {r : PendingPairing}
    → find_first p rs ≡ some r
    → is_consumed r.status ≡ false
    → consumed_size rs ≤ consumed_size (update_first p f rs)
consumed_size-end p f [] h k = omega arith
consumed_size-end p f (x ∷ xs) {r} h k = elim (Bool-cases (p x)) [
  | inl e ↦
      let same : x ≡ r = eq_of_some (rw e at h) in
      let spare : is_consumed x.status ≡ false =
        ap (λ (z : PendingPairing). is_consumed z.status) same ∙ k in
      ground (arith, e, spare)
  | inr e ↦ ground (arith, e, consumed_size-end p f xs (rw e at h) k)
]

pub is_consumed-was_used : (r : PendingPairing) → was_used r ≡ false → is_consumed r.status ≡ false
is_consumed-was_used r h = ground arith
