-- ===== src/Core/Containers/Laws.antt =====
-- The trash of managed containers.
use web_action_recorder_exte.Common.{
  ◌≡◌, refl, arith, ℕ, true, false, not, String, str_eq, none, some, List, [], ◌∷◌, find_first,
  find_first-update_first, find_first-holds, keep_if, Bool-cases, inl, inr, if◌then◌else◌, ap, sym,
}
use web_action_recorder_exte.Core.Errors.{
  returns, throws, state_of, result_of, ok, err, domain_error_with, device_not_found,
  or_throw-eq-returns, returns-injective, throws-ne-returns,
}
use web_action_recorder_exte.Core.State.{State, Container}
use web_action_recorder_exte.Core.Containers.{
  is_container, require_container, delete_container, restore_container, purge_container,
  get_container, trashed, restored, restored_status, restorable, is_one_of,
}

find-require_container :
    (s : State) (id : String) {c : Container}
    → find_first (is_container id) s.managed_containers ≡ some c
    → require_container s id ≡ ok c
unfolding require_container
find-require_container s id h = ground arith

none-require_container :
    (s : State) (id : String)
    → find_first (is_container id) s.managed_containers ≡ none
    → require_container s id ≡ err (domain_error_with device_not_found 404)
unfolding require_container
none-require_container s id h = ground arith

require_container-find :
    (s : State) (id : String) {c : Container}
    → require_container s id ≡ ok c
    → find_first (is_container id) s.managed_containers ≡ some c
unfolding require_container
require_container-find s id h = ground arith

delete-state :
    (now : ℕ) (id : String) (s : State) {item : Container}
    → find_first (is_container id) s.managed_containers ≡ some item
    → str_eq item.status "deleted" ≡ false
    → find_first (is_container id) (state_of (delete_container now id s)).managed_containers
      ≡ some (trashed now item)
unfolding delete_container
delete-state now id s {item = item} f n =
    rw (find-require_container s id f, n)
      (find_first-update_first (is_container id) (λ _. trashed now item) s.managed_containers f
        (find_first-holds (is_container id) s.managed_containers f))

restored_status-cases :
    (from : String)
    → (is_one_of restorable (restored_status (some from)) ≡ true)
      × (if is_one_of restorable from
          then restored_status (some from) ≡ from
          else restored_status (some from) ≡ "stopped")
restored_status-cases from = elim (Bool-cases (is_one_of restorable from)) [
  | inl e ↦ rw (e, e) (refl, refl)
  | inr e ↦ rw e (refl, refl)
]

-- A container that is put into the trash and taken out of it again, at any later time, is created,
-- stopped or failed, as it was, and stopped where it was anything else: none comes back running.
pub restore_container-delete_container :
    (now later : ℕ) (id : String) (s : State) {item : Container}
    → find_first (is_container id) s.managed_containers ≡ some item
    → str_eq item.status "deleted" ≡ false
    → let back = restored later (trashed now item) in
      (result_of (restore_container later id (state_of (delete_container now id s))) ≡ ok back)
      × (is_one_of restorable back.status ≡ true)
      × (if is_one_of restorable item.status
          then back.status ≡ item.status
          else back.status ≡ "stopped")
unfolding restore_container
restore_container-delete_container now later id s {item = item} f n =
    let t = state_of (delete_container now id s) in
    let (p, q) = restored_status-cases item.status in
    (rw (find-require_container t id (delete-state now id s f n)) refl, p, q)

find-kept :
    (id : String) (cs : List Container)
    → find_first (is_container id) (keep_if (λ c. not (is_container id c)) cs) ≡ none
find-kept id [] = refl
find-kept id (c ∷ cs) = ground (arith, find-kept id cs)

-- Only what stands in the trash can be purged, and what is purged is gone: every later look-up,
-- restoration or deletion of it throws a 404.
pub purge_container-gone :
    (now later : ℕ) (id : String) (s t : State) {r : String × ℕ}
    → purge_container now id s ≡ returns r t
    → ((item : Container) × (find_first (is_container id) s.managed_containers ≡ some item)
        × (str_eq item.status "deleted" ≡ true))
      × (get_container id t ≡ err (domain_error_with device_not_found 404))
      × (restore_container later id t ≡ throws (domain_error_with device_not_found 404) t)
      × (delete_container later id t ≡ throws (domain_error_with device_not_found 404) t)
unfolding purge_container restore_container delete_container
purge_container-gone now later id s t h =
    let (item, e, k) = or_throw-eq-returns s (require_container s id) _ h in
    let f = require_container-find s id e in
    elim (Bool-cases (str_eq item.status "deleted")) [
      | inr n ↦ absurd (throws-ne-returns (rw n at k))
      | inl n ↦
          let (_, q) = returns-injective (rw n at k) in
          let gone : find_first (is_container id) t.managed_containers ≡ none =
            rw (ap (λ (z : State). z.managed_containers) (sym q))
              (find-kept id s.managed_containers) in
          let missing = none-require_container t id gone in
          ((item, f, n), missing, rw missing refl, rw missing refl)
    ]
