-- ===== src/Core/Dataset/Assign.antt =====
-- What `buildDatasetAssignments` gives to whom.
use mathlib.Core.List.{Perm}
use web_action_recorder_exte.Common.{
  ℕ, zero, suc, ◌+◌, ◌≤◌, ◌<◌, ◌≡◌, refl, ap, String, Bool, false, Option, some, List, [], ◌∷◌, map,
  length, get_elem?, take, drop, arith, get_or_else, Bool-cases, inl, inr, get_elem?_of_lt, ◌⊎◌,
  ltb,
}
use web_action_recorder_exte.Json.{Fields, end}
use web_action_recorder_exte.Core.Errors.{ok, err, domain_error, plain_error}
use web_action_recorder_exte.Core.State.{Device}
use web_action_recorder_exte.Core.Dataset.{
  Assignment, AssignmentRequest, assign_from, build_dataset_assignments, normalize_records,
  shuffle_by,
}
use web_action_recorder_exte.Core.Dataset.Shuffle.{shuffle_by-perm, length-shuffle_by}

assign_from-device_id :
    (records shuffled : List Fields) (mode : String) (dup : Bool) (k : ℕ) (ds : List Device)
    → map (λ a. a.device_id) (assign_from records shuffled mode dup k ds) ≡ map (λ d. d.id) ds
unfolding assign_from
assign_from-device_id records shuffled mode dup k [] = refl
assign_from-device_id records shuffled mode dup k (d ∷ ds) =
    ap (◌∷◌ d.id) (assign_from-device_id records shuffled mode dup (suc k) ds)

take-drop-suc {ℓ} :
    {A : Type ℓ} (xs : List A) (k n : ℕ) {x : A}
    → get_elem? xs k ≡ some x
    → take (suc n) (drop k xs) ≡ x ∷ take n (drop (suc k) xs)
take-drop-suc [] k n h = absurd (cc)
take-drop-suc (y ∷ ys) zero n h = ground arith
take-drop-suc (y ∷ ys) (suc k) n h = take-drop-suc ys k n h

assign_from-inputs :
    (records shuffled : List Fields) (k : ℕ) (ds : List Device)
    → k + length ds ≤ length shuffled
    → map (λ a. a.inputs) (assign_from records shuffled "random_pool" false k ds)
      ≡ take (length ds) (drop k shuffled)
unfolding assign_from
assign_from-inputs records shuffled k [] h = refl
assign_from-inputs records shuffled k (d ∷ ds) h =
    let (x, e) = get_elem?_of_lt shuffled k (omega arith) in
    rw (take-drop-suc shuffled k (length ds) e) (
      rw (assign_from-inputs records shuffled (suc k) ds (omega arith)) (
        ap (λ (o : Option Fields). get_or_else o end ∷ take (length ds) (drop (suc k) shuffled)) e))

-- Every accepted request gives each device one assignment, in the order of the devices.
pub build-device_id :
    (r : AssignmentRequest) {out : List Assignment}
    → build_dataset_assignments r ≡ ok out
    → map (λ a. a.device_id) out ≡ map (λ d. d.id) r.devices
unfolding build_dataset_assignments
build-device_id r {out} h =
    let records = normalize_records r.dataset r.inputs in
    ground (
      arith,
      assign_from-device_id records (shuffle_by r.order records) r.assignment_mode r.allow_duplicate
          0 r.devices,
    )

-- A request for a pool without duplicates is refused when there are fewer records than devices.
-- Otherwise the devices take the first records of a permutation of the records, one each, so that
-- no record serves two devices.
pub build-random_pool :
    (r : AssignmentRequest)
    → r.assignment_mode ≡ "random_pool"
    → r.allow_duplicate ≡ false
    → let records = normalize_records r.dataset r.inputs in
      ((length records < length r.devices)
        × (build_dataset_assignments r ≡ err (domain_error plain_error)))
      ⊎ ((out : List Assignment) × (build_dataset_assignments r ≡ ok out)
          × (map (λ a. a.inputs) out ≡ take (length r.devices) (shuffle_by r.order records))
          × Perm (shuffle_by r.order records) records)
unfolding build_dataset_assignments
build-random_pool r p q =
    let records = normalize_records r.dataset r.inputs in
    let shuffled = shuffle_by r.order records in
    elim (Bool-cases (ltb (length records) (length r.devices))) [
      | inl few ↦ inl (ground arith, rw (p, q, few))
      | inr enough ↦ inr (
        assign_from records shuffled "random_pool" false 0 r.devices,
        rw (p, q, enough),
        assign_from-inputs records shuffled 0 r.devices
            (ground (arith, length-shuffle_by r.order records)),
        shuffle_by-perm r.order records,
      )
    ]
