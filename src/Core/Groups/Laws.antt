-- ===== src/Core/Groups/Laws.antt =====
-- platform/controller-core/src/groupRegistry.js: the two records of a membership.
use web_action_recorder_exte.Common.{
  ◌≡◌, refl, arith, ℕ, true, false, not, String, str_eq, eq_iff, Option, none, some, List, [], ◌∷◌,
  any-append, map, find_first, update_first, keep_if, Bool-cases, inl, inr, if◌then◌else◌, if-both,
}
use web_action_recorder_exte.Core.Errors.{state_of, or_throw-state}
use web_action_recorder_exte.Core.State.{State, Device, Group}
use web_action_recorder_exte.Core.Commands.{is_device, require_device}
use web_action_recorder_exte.Core.Groups.{
  is_group, includes, include, without, add_device, remove_device, delete_group, require_group,
  joined_group, join_group, left_group, leave_group,
}

str_eq_sym : (a b : String) → str_eq a b ≡ str_eq b a
str_eq_sym a b = ground (arith, eq_iff a b, eq_iff b a)

includes-without :
    (xs : List String) (x y : String)
    → includes (without x xs) y ≡ (if str_eq y x then false else includes xs y)
includes-without [] x y = ground arith
includes-without (z ∷ zs) x y =
    ground (arith, includes-without zs x y, eq_iff z x, eq_iff z y, eq_iff y x)

includes-include :
    (xs : List String) (x y : String)
    → includes (include x xs) y ≡ (if str_eq x y then true else includes xs y)
includes-include xs x y = ground (arith, any-append (λ z. str_eq z y) xs (x ∷ []), eq_iff x y)

-- What is found, changed by `f`.
abbrev changed {ℓ} : {A : Type ℓ} → (A → A) → Option A → Option A
changed f none = none
changed f (some a) = some (f a)

module _ {ℓ} {A : Type ℓ} (key : A → String) (f : A → A) (f-key : (a : A) → key (f a) ≡ key a) where
  find-update :
      (i j : String) (xs : List A)
      → find_first (λ a. str_eq (key a) i) (update_first (λ a. str_eq (key a) j) f xs) ≡ (
          if str_eq i j
          then changed f (find_first (λ a. str_eq (key a) i) xs)
          else find_first (λ a. str_eq (key a) i) xs)
  find-update i j [] = ground arith
  find-update i j (x ∷ xs) =
      ground (arith, find-update i j xs, f-key x, eq_iff (key x) i, eq_iff (key x) j, eq_iff i j)

  find-map :
      (i : String) (xs : List A)
      → find_first (λ a. str_eq (key a) i) (map f xs)
        ≡ changed f (find_first (λ a. str_eq (key a) i) xs)
  find-map i [] = refl
  find-map i (x ∷ xs) = ground (arith, find-map i xs, f-key x)

module _ {ℓ} {A : Type ℓ} (key : A → String) where
  find-keep :
      (i j : String) (xs : List A)
      → find_first (λ a. str_eq (key a) i) (keep_if (λ a. not (str_eq (key a) j)) xs)
        ≡ (if str_eq i j then none else find_first (λ a. str_eq (key a) i) xs)
  find-keep i j [] = ground arith
  find-keep i j (x ∷ xs) =
      ground (arith, find-keep i j xs, eq_iff (key x) i, eq_iff (key x) j, eq_iff i j)

-- Where the group and the device are both known, each lists the other or neither does.
abbrev Agrees : (group_id device_id : String) → Option Group → Option Device → Type 0
Agrees group_id device_id none d = Unit
Agrees group_id device_id (some g) none = Unit
Agrees group_id device_id (some g) (some d) =
    includes g.device_ids device_id ≡ includes d.group_ids group_id

abbrev pub Agree : State → (group_id device_id : String) → Type 0
Agree s group_id device_id =
    Agrees group_id device_id (find_first (is_group group_id) s.groups)
      (find_first (is_device device_id) s.devices)

-- Both records of one pair are changed in step, and no other pair's.
Agrees-change :
    (f : Group → Group) (k : Device → Device) (g d i j : String)
    → ((x : Group) (y : Device)
        → includes x.device_ids j ≡ includes y.group_ids i
        → let x' = if str_eq i g then f x else x in
          let y' = if str_eq j d then k y else y in
          includes x'.device_ids j ≡ includes y'.group_ids i)
    → (o : Option Group) (p : Option Device) → Agrees i j o p
    → Agrees i j (if str_eq i g then changed f o else o) (if str_eq j d then changed k p else p)
Agrees-change f k g d i j step none p h =
    if-both (λ o. Agrees i j o (if str_eq j d then changed k p else p)) (str_eq i g) tt tt
Agrees-change f k g d i j step (some x) none h = elim (Bool-cases (str_eq i g)) [
  | inl e ↦ rw e (if-both (λ p. Agrees i j (some (f x)) p) (str_eq j d) tt tt)
  | inr e ↦ rw e (if-both (λ p. Agrees i j (some x) p) (str_eq j d) tt tt)
]
Agrees-change f k g d i j step (some x) (some y) h =
    let next = step x y h in
    elim (Bool-cases (str_eq i g)) [
      | inl e ↦ elim (Bool-cases (str_eq j d)) [
        | inl m ↦ rw (e, m) (rw (e, m) at next)
        | inr m ↦ rw (e, m) (rw (e, m) at next)
      ]
      | inr e ↦ elim (Bool-cases (str_eq j d)) [
        | inl m ↦ rw (e, m) (rw (e, m) at next)
        | inr m ↦ rw (e, m) (rw (e, m) at next)
      ]
    ]

join_step :
    (now : ℕ) (g d i j : String) (x : Group) (y : Device)
    → includes x.device_ids j ≡ includes y.group_ids i
    → let x' = if str_eq i g then joined_group now d x else x in
      let y' = if str_eq j d then join_group g y else y in
      includes x'.device_ids j ≡ includes y'.group_ids i
join_step now g d i j x y e = ground (
  arith,
  includes-include x.device_ids d j,
  includes-include y.group_ids g i,
  str_eq_sym i g,
  str_eq_sym j d,
)

leave_step :
    (now : ℕ) (g d i j : String) (x : Group) (y : Device)
    → includes x.device_ids j ≡ includes y.group_ids i
    → let x' = if str_eq i g then left_group now d x else x in
      let y' = if str_eq j d then leave_group g y else y in
      includes x'.device_ids j ≡ includes y'.group_ids i
leave_step now g d i j x y e =
    ground (arith, includes-without x.device_ids d j, includes-without y.group_ids g i)

Agrees-delete :
    (g i j : String) (o : Option Group) (p : Option Device)
    → Agrees i j o p
    → Agrees i j (if str_eq i g then none else o) (changed (leave_group g) p)
Agrees-delete g i j none p h =
    if-both (λ o. Agrees i j o (changed (leave_group g) p)) (str_eq i g) tt tt
Agrees-delete g i j (some x) none h = if-both (λ o. Agrees i j o none) (str_eq i g) tt tt
Agrees-delete g i j (some x) (some y) h = elim (Bool-cases (str_eq i g)) [
  | inl e ↦ rw e tt
  | inr e ↦ rw (e, includes-without y.group_ids g i, e) h
]

pub data Change : Type 0 where
  add remove : (group_id device_id : String) → Change
  delete : (group_id : String) → Change

abbrev pub change : ℕ → Change → State → State
change now (add g d) s = state_of (add_device now g d s)
change now (remove g d) s = state_of (remove_device now g d s)
change now (delete g) s = state_of (delete_group now g s)

-- `addDevice`, `removeDevice` and `deleteGroup`, of whatever group and device and whether they
-- return or throw, keep the agreement of every group with every device: where both are known, the
-- group lists the device exactly when the device lists the group.
pub change-Agree :
    (now : ℕ) (c : Change) (i j : String) (s : State) → Agree s i j → Agree (change now c s) i j
unfolding add_device remove_device delete_group
change-Agree now (add g d) i j s a =
    or_throw-state (λ z. Agree z i j) s (require_group s g) _ a
      λ _ _.
        or_throw-state (λ z. Agree z i j) s (require_device s d) _ a
          λ _ _.
            rw
              (
                find-update (λ (x : Group). x.id) (joined_group now d) (λ _. refl) i g s.groups,
                find-update (λ (x : Device). x.id) (join_group g) (λ _. refl) j d s.devices,
              )
              (Agrees-change (joined_group now d) (join_group g) g d i j (join_step now g d i j)
                (find_first (is_group i) s.groups) (find_first (is_device j) s.devices) a)
change-Agree now (remove g d) i j s a =
    or_throw-state (λ z. Agree z i j) s (require_group s g) _ a
      λ _ _.
        rw
          (
            find-update (λ (x : Group). x.id) (left_group now d) (λ _. refl) i g s.groups,
            find-update (λ (x : Device). x.id) (leave_group g) (λ _. refl) j d s.devices,
          )
          (Agrees-change (left_group now d) (leave_group g) g d i j (leave_step now g d i j)
            (find_first (is_group i) s.groups) (find_first (is_device j) s.devices) a)
change-Agree now (delete g) i j s a =
    or_throw-state (λ z. Agree z i j) s (require_group s g) _ a
      λ _ _.
        rw
          (
            find-keep (λ (x : Group). x.id) i g s.groups,
            find-map (λ (x : Device). x.id) (leave_group g) (λ _. refl) j s.devices,
          )
          (Agrees-delete g i j (find_first (is_group i) s.groups)
            (find_first (is_device j) s.devices) a)
