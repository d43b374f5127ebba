-- ===== src/InputParser/Mapping/Laws.antt =====
-- platform/input-parser/src/inputParser.js: which rows mapRowsToDevices gives to which devices.
use mathlib.Core.Path.{subst}
use web_action_recorder_exte.Common.{
  ℕ, Bool, true, ◌&&◌, ◌==◌, ltb, ◌+◌, ◌≤◌, List, [], ◌∷◌, map, length, if◌then◌else◌, Option, none,
  some, ◌≡◌, refl, arith, ap, Bool-cases, inl, inr, ◌⊎◌, ◌↔◌, All, get_or_else, length-map, ◌∙◌,
  if-both, sym, sym,
}
use web_action_recorder_exte.InputParser.{InputError, Parsed, parsed, failed}
use web_action_recorder_exte.InputParser.Mapping.{
  Device, name_of, DeviceRow, Mapped, Payload, row_fields_of, check_count, map_row, mapped_fields,
  add_mapped, map_rows, first_row_for_each, map_rows_to_devices, create_dispatch_payload, or_fail,
  mapped, row_index,
}

abbrev pub Counted : Option ℕ → ℕ → Type 0
Counted none n = Unit
Counted (some k) n = n ≡ k

check_count-none :
    (expected : Option ℕ) (n i : ℕ) → check_count expected n i ≡ none → Counted expected n
check_count-none none n i h = tt
check_count-none (some k) n i h = ground arith

Counted-check_count :
    (expected : Option ℕ) (n i : ℕ) → Counted expected n → check_count expected n i ≡ none
Counted-check_count none n i h = refl
Counted-check_count (some k) n i h = ground arith

module _ {A : Type 0} where
  or_fail-eq-parsed :
      (o : Option InputError) (x m : Mapped A) → or_fail o x ≡ parsed m → (o ≡ none) × (x ≡ m)
  or_fail-eq-parsed none x m h = (refl, ground arith)
  or_fail-eq-parsed (some e) x m h = absurd (cc)

  -- The row has fields, and as many as expected.
  abbrev pub HasCount : Option ℕ → Option (List A) → Type 0
  HasCount expected none = ⊥
  HasCount expected (some fs) = Counted expected (length fs)

  -- Row by row: who gets what.
  abbrev pub Given : List Device → List (DeviceRow A) → List (Payload A) → Type 0
  Given [] [] [] = Unit
  Given (d ∷ ds) (row ∷ rows) (p ∷ ps) =
      (p.device_id ≡ name_of d) × (row_fields_of row ≡ some p.inputs) × Given ds rows ps
  Given _ _ _ = ⊥

  mapped_fields-fits :
      (expected : Option ℕ) (b : Bool) (d : Device) (row : DeviceRow A) (i : ℕ)
      (fs : Option (List A)) (m : Mapped A)
      → mapped_fields expected b d row i fs ≡ parsed m
      → HasCount expected fs × (m.device_id ≡ name_of d) × (fs ≡ some m.fields)
  mapped_fields-fits expected b d row i none m h = absurd (cc)
  mapped_fields-fits expected b d row i (some fs) m h =
      let fit =
        or_fail-eq-parsed (check_count expected (length fs) (get_or_else (row_index row) i)) _ m
          h in
      (
        check_count-none expected (length fs) _ (fit.0),
        sym (ap Mapped.device_id (fit.1)),
        ap (λ x. some (Mapped.fields x)) (fit.1),
      )

  add_mapped-eq-parsed :
      (m : Parsed (Mapped A)) (rest : Parsed (List (Mapped A))) (out : List (Mapped A))
      → add_mapped m rest ≡ parsed out
      → (x : Mapped A) × (xs : List (Mapped A)) × (m ≡ parsed x)
        × (rest ≡ parsed xs)
        × (out ≡ x ∷ xs)
  add_mapped-eq-parsed (failed e) rest out h = absurd (cc)
  add_mapped-eq-parsed (parsed x) (failed e) out h = absurd (cc)
  add_mapped-eq-parsed (parsed x) (parsed xs) out h = (x, xs, refl, refl, ground arith)

  map_rows-gives :
      (expected : Option ℕ) (b : Bool) (i : ℕ) (ds : List Device) (rows : List (DeviceRow A))
      (out : List (Mapped A))
      → length ds ≡ length rows
      → map_rows expected b i ds rows ≡ parsed out
      → Given ds rows (create_dispatch_payload out)
        × All (λ row. HasCount expected (row_fields_of row)) rows
  unfolding map_rows create_dispatch_payload
  map_rows-gives expected b i [] [] out e h =
      let empty : out ≡ [] = ground arith in rw empty (tt, tt)
  map_rows-gives expected b i [] (row ∷ rows) out e h = absurd (omega arith)
  map_rows-gives expected b i (d ∷ ds) [] out e h = absurd (omega arith)
  map_rows-gives expected b i (d ∷ ds) (row ∷ rows) out e h =
      let split = add_mapped-eq-parsed (map_row expected b d row i) _ out h in
      let one = mapped_fields-fits expected b d row i (row_fields_of row) (split.0) (split.2) in
      let rest = map_rows-gives expected b (i + 1) ds rows (split.1) (omega arith) (split.3) in
      rw (split.4) ((one.1, one.2, rest.0), (one.0, rest.1))

  mapped_fields-succeeds :
      (expected : Option ℕ) (b : Bool) (d : Device) (row : DeviceRow A) (i : ℕ)
      (fs : Option (List A))
      → HasCount expected fs
      → (m : Mapped A) × (mapped_fields expected b d row i fs ≡ parsed m)
  mapped_fields-succeeds expected b d row i none h = absurd h
  mapped_fields-succeeds expected b d row i (some fs) h =
      let fit = Counted-check_count expected (length fs) (get_or_else (row_index row) i) h in
      (mapped b d row i fs, ap (λ o. or_fail o (mapped b d row i fs)) fit)

  map_rows-succeeds :
      (expected : Option ℕ) (b : Bool) (i : ℕ) (ds : List Device) (rows : List (DeviceRow A))
      → All (λ row. HasCount expected (row_fields_of row)) rows
      → (out : List (Mapped A)) × (map_rows expected b i ds rows ≡ parsed out)
  unfolding map_rows
  map_rows-succeeds expected b i [] rows h = ([], refl)
  map_rows-succeeds expected b i (d ∷ ds) [] h = ([], refl)
  map_rows-succeeds expected b i (d ∷ ds) (row ∷ rows) h =
      let one = mapped_fields-succeeds expected b d row i (row_fields_of row) (h.0) in
      let rest = map_rows-succeeds expected b (i + 1) ds rows (h.1) in
      (one.0 ∷ rest.0, rw (one.1, rest.1) refl)

  abbrev pub broadcasts : List (DeviceRow A) → List Device → Bool → Bool
  broadcasts rows devices b = b && length rows == 1 && ltb 1 (length devices)

  -- The row for each device: the one row for all of them, or its own.
  abbrev pub source_rows : List (DeviceRow A) → List Device → Bool → List (DeviceRow A)
  source_rows rows devices b =
      if broadcasts rows devices b then first_row_for_each devices rows else rows

  -- There is a device, and a row for each, or one row that is for all.
  abbrev pub RowsFit : List (DeviceRow A) → List Device → Bool → Type 0
  RowsFit rows devices b =
      (1 ≤ length devices) × ((length rows ≡ length devices) ⊎ ((b ≡ true) × (length rows ≡ 1)))

  length-source_rows :
      (rows : List (DeviceRow A)) (devices : List Device) (b : Bool)
      → RowsFit rows devices b
      → length devices ≡ length (source_rows rows devices b)
  length-source_rows [] devices b h = ground arith
  length-source_rows (row ∷ rows) devices b h =
      ground (arith, length-map {B = DeviceRow A} (λ d. row) devices)

  map_rows_to_devices-ready :
      (rows : List (DeviceRow A)) (devices : List Device) (expected : Option ℕ) (b : Bool)
      → RowsFit rows devices b
      → map_rows_to_devices rows devices expected b
        ≡ map_rows expected (broadcasts rows devices b) 0 devices (source_rows rows devices b)
  unfolding map_rows_to_devices
  map_rows_to_devices-ready rows devices expected b h = ground arith

  map_rows_to_devices-RowsFit :
      (rows : List (DeviceRow A)) (devices : List Device) (expected : Option ℕ) (b : Bool)
      (out : List (Mapped A))
      → map_rows_to_devices rows devices expected b ≡ parsed out
      → RowsFit rows devices b
  unfolding map_rows_to_devices
  map_rows_to_devices-RowsFit rows devices expected b out h = ground arith

  All-same :
      (P : DeviceRow A → Type 0) (row : DeviceRow A) (ds : List Device)
      → P row
      → All P (map (λ d. row) ds)
  All-same P row [] h = tt
  All-same P row (d ∷ ds) h = (h, All-same P row ds h)

  All-source_rows :
      (P : DeviceRow A → Type 0) (rows : List (DeviceRow A)) (devices : List Device) (b : Bool)
      → All P rows
      → All P (source_rows rows devices b)
  All-source_rows P [] devices b h = if-both (All P) (broadcasts [] devices b) tt tt
  All-source_rows P (row ∷ rows) devices b h =
      if-both (All P) (broadcasts (row ∷ rows) devices b) (All-same P row devices (h.0)) h

  All-first_row :
      (P : DeviceRow A → Type 0) (rows : List (DeviceRow A)) (devices : List Device)
      → (length rows == 1 && ltb 1 (length devices)) ≡ true
      → All P (first_row_for_each devices rows)
      → All P rows
  All-first_row P [] devices e h = tt
  All-first_row P (row ∷ []) [] e h = absurd (ground arith)
  All-first_row P (row ∷ []) (d ∷ ds) e h = (h.0, tt)
  All-first_row P (row ∷ r ∷ rows) devices e h = absurd (ground arith)

  All-of-source_rows :
      (P : DeviceRow A → Type 0) (rows : List (DeviceRow A)) (devices : List Device) (b : Bool)
      → All P (source_rows rows devices b)
      → All P rows
  All-of-source_rows P rows devices b h = elim (Bool-cases (broadcasts rows devices b)) [
    | inl e ↦
        All-first_row P rows devices (ground arith)
          (subst (λ x. All P (if x then first_row_for_each devices rows else rows)) e h)
    | inr e ↦ subst (λ x. All P (if x then first_row_for_each devices rows else rows)) e h
  ]

  -- When `mapRowsToDevices` returns, its payload has one entry for each device, in order, with the
  -- device's id and the fields of its row: its own row, or the only row when that one is for all.
  pub map_rows_to_devices-Given :
      (rows : List (DeviceRow A)) (devices : List Device) (expected : Option ℕ) (b : Bool)
      (out : List (Mapped A))
      → map_rows_to_devices rows devices expected b ≡ parsed out
      → Given devices (source_rows rows devices b) (create_dispatch_payload out)
  unfolding create_dispatch_payload
  map_rows_to_devices-Given rows devices expected b out h =
      let fit = map_rows_to_devices-RowsFit rows devices expected b out h in
      (map_rows-gives expected (broadcasts rows devices b) 0 devices (source_rows rows devices b)
        out (length-source_rows rows devices b fit)
        (sym (map_rows_to_devices-ready rows devices expected b fit) ∙ h)).0

  -- `mapRowsToDevices` returns exactly when there is a device, there is a row for each of them or
  -- one row that is for all, and every row has fields, as many as are expected where a number is.
  pub map_rows_to_devices_iff :
      (rows : List (DeviceRow A)) (devices : List Device) (expected : Option ℕ) (b : Bool)
      → ((out : List (Mapped A)) × (map_rows_to_devices rows devices expected b ≡ parsed out))
        ↔ (RowsFit rows devices b × All (λ row. HasCount expected (row_fields_of row)) rows)
  map_rows_to_devices_iff rows devices expected b = (
    λ x.
        let fit = map_rows_to_devices-RowsFit rows devices expected b (x.0) (x.1) in
        (
          fit,
          All-of-source_rows _ rows devices b
              (map_rows-gives expected (broadcasts rows devices b) 0 devices
                (source_rows rows devices b) (x.0) (length-source_rows rows devices b fit)
                (sym (map_rows_to_devices-ready rows devices expected b fit) ∙ x.1)).1,
        ),
    λ h.
        let done =
          map_rows-succeeds expected (broadcasts rows devices b) 0 devices
            (source_rows rows devices b)
            (All-source_rows (λ row. HasCount expected (row_fields_of row)) rows devices b (h.1)) in
        (done.0, map_rows_to_devices-ready rows devices expected b (h.0) ∙ done.1),
  )
