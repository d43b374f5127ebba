-- ===== src/InputParser/Mapping.antt =====
-- platform/input-parser/src/inputParser.js: mapRowsToDevices and createDispatchPayload. Rows and
-- devices are arrays. A row is an object with fields and a number of its own, an array of fields,
-- or a value of neither kind; `expectedFieldCount` is `some n` when it is an integer.
pub mod Laws
use web_action_recorder_exte.Common.{
  ℕ, suc, String, Bool, true, false, not, ◌&&◌, ◌==◌, ltb, ◌+◌, ◌≤◌, List, [], ◌∷◌, ◌++◌, map,
  length, if◌then◌else◌, Option, none, some, get_or_else, ◌≡◌, refl, arith, ap, Bool-cases, inl,
  inr,
}
use web_action_recorder_exte.InputParser.{
  InputError, Parsed, parsed, failed, no_devices, missing_row, extra_row, row_without_fields,
  missing_field, extra_field,
}

-- What the mapping reads of a device: `id`, `deviceId`, and its text.
pub record Device : Type 0 where
  pub id : Option String
  pub device_id : Option String
  pub text : String

abbrev pub name_of : Device → String
name_of d = get_or_else d.id (get_or_else d.device_id d.text)

abbrev pub check_count : Option ℕ → ℕ → ℕ → Option InputError
check_count none actual i = none
check_count (some n) actual i =
    if ltb actual n
    then some (missing_field n actual i)
    else if ltb n actual
    then some (extra_field n actual i)
    else none

module _ (A : Type 0) where
  pub data DeviceRow : Type 0 where
    row_object : List A → Option ℕ → DeviceRow
    row_array : List A → DeviceRow
    no_fields : Option ℕ → DeviceRow

  pub record Mapped : Type 0 where
    pub device_id : String
    pub device_index : ℕ
    pub fields : List A
    pub source_row_index : ℕ

  pub record Payload : Type 0 where
    pub device_id : String
    pub inputs : List A
    pub source_row_index : ℕ

module _ {A : Type 0} where
  abbrev pub row_index : DeviceRow A → Option ℕ
  row_index (row_object fs i) = i
  row_index (row_array fs) = none
  row_index (no_fields i) = i

  -- `row.fields ?? row`, if that is an array.
  abbrev pub row_fields_of : DeviceRow A → Option (List A)
  row_fields_of (row_object fs i) = some fs
  row_fields_of (row_array fs) = some fs
  row_fields_of (no_fields i) = none

  abbrev pub or_fail : Option InputError → Mapped A → Parsed (Mapped A)
  or_fail none m = parsed m
  or_fail (some e) m = failed e

  abbrev pub mapped : Bool → Device → DeviceRow A → ℕ → List A → Mapped A
  mapped broadcast d row i fs = record {
    device_id = name_of d;
    device_index = i;
    fields = fs;
    source_row_index = get_or_else (row_index row) (if broadcast then 0 else i);
  }

  abbrev pub mapped_fields :
      Option ℕ → Bool → Device → DeviceRow A → ℕ → Option (List A) → Parsed (Mapped A)
  mapped_fields expected broadcast d row i none = failed (row_without_fields (row_index row))
  mapped_fields expected broadcast d row i (some fs) =
      or_fail (check_count expected (length fs) (get_or_else (row_index row) i))
        (mapped broadcast d row i fs)

  abbrev pub map_row : Option ℕ → Bool → Device → DeviceRow A → ℕ → Parsed (Mapped A)
  map_row expected broadcast d row i = mapped_fields expected broadcast d row i (row_fields_of row)

  abbrev pub add_mapped : Parsed (Mapped A) → Parsed (List (Mapped A)) → Parsed (List (Mapped A))
  add_mapped (failed e) rest = failed e
  add_mapped (parsed m) (failed e) = failed e
  add_mapped (parsed m) (parsed ms) = parsed (m ∷ ms)

  -- `sourceRows.map(…)`: the first row that throws ends it. There are as many rows as devices.
  unfoldable pub map_rows :
      Option ℕ → Bool → ℕ → List Device → List (DeviceRow A) → Parsed (List (Mapped A))
  map_rows expected broadcast i (d ∷ ds) (row ∷ rows) =
      add_mapped (map_row expected broadcast d row i) (map_rows expected broadcast (i + 1) ds rows)
  map_rows expected broadcast i ds rows = parsed []

  abbrev pub first_row_for_each : List Device → List (DeviceRow A) → List (DeviceRow A)
  first_row_for_each ds [] = []
  first_row_for_each ds (row ∷ rows) = map (λ d. row) ds

  unfoldable pub map_rows_to_devices :
      List (DeviceRow A) → List Device → Option ℕ → Bool → Parsed (List (Mapped A))
  unfolding map_rows
  map_rows_to_devices rows devices expected broadcast_single_row =
      let should_broadcast = broadcast_single_row && length rows == 1 && ltb 1 (length devices) in
      if length devices == 0
      then failed no_devices
      else if length rows == 0
      then failed (missing_row (length devices) 0)
      else if not should_broadcast && ltb (length rows) (length devices)
      then failed (missing_row (length devices) (length rows))
      else if not should_broadcast && ltb (length devices) (length rows)
      then failed (extra_row (length devices) (length rows))
      else map_rows expected should_broadcast 0 devices
          (if should_broadcast then first_row_for_each devices rows else rows)

  unfoldable pub create_dispatch_payload : List (Mapped A) → List (Payload A)
  create_dispatch_payload mapping =
      map
        (λ item. record {
          device_id = item.device_id;
          inputs = item.fields;
          source_row_index = item.source_row_index;
        })
        mapping
