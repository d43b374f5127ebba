-- ===== src/Tests/Inputs.antt =====
-- Instances of the theorems on platform/input-parser, at concrete texts, rows and definitions.
use web_action_recorder_exte.Common.{
  ℕ, true, false, List, [], ◌∷◌, none, some, ◌≡◌, ◌↔◌, refl, All, ◌≤◌,
}
use web_action_recorder_exte.Json.Pattern.{codes}
use web_action_recorder_exte.InputParser.{parsed, parse_input_text}
use web_action_recorder_exte.InputParser.Print.{
  as_it_is, quoted, crlf, Table, print_table, table_fields,
}
use web_action_recorder_exte.InputParser.RoundTrip.{row_fields, parse_input_text-print_table}
use web_action_recorder_exte.InputParser.Mapping.{
  Device, DeviceRow, row_object, Mapped, map_rows, map_rows_to_devices, create_dispatch_payload,
}
use web_action_recorder_exte.InputParser.Mapping.Laws.{
  Given, source_rows, RowsFit, HasCount, map_rows_to_devices-Given, map_rows_to_devices_iff,
}
use web_action_recorder_exte.InputParser.Mapping.{row_fields_of}
use web_action_recorder_exte.InputParser.Definitions.{
  Definition, definition, field_count, validate_from, validate_input_definitions, name_fields,
  map_fields_to_named_inputs,
}
use web_action_recorder_exte.InputParser.Definitions.Laws.{
  IsSound, Distinct, validate_input_definitions_iff,
}
use web_action_recorder_exte.InputParser.Definitions.Naming.{
  IsServed, map_fields_to_named_inputs-IsServed,
}

-- Two rows: `a|"b""|"` and, behind `\r\n`, an empty field and one with a line end.
abbrev table : Table
table = record {
  top = record { first = as_it_is (codes "a"); others = quoted (codes "b\"|") ∷ [] };
  below = (crlf, record { first = as_it_is []; others = quoted (10 ∷ []) ∷ [] }) ∷ [];
}

parse_input_text-print_table_example :
    row_fields (parse_input_text (print_table table)) ≡ parsed (table_fields table)
parse_input_text-print_table_example = parse_input_text-print_table table refl

abbrev two_devices : List Device
two_devices =
    record { id = some "d1"; device_id = none; text = "" }
    ∷ record { id = none; device_id = some "d2"; text = "" }
    ∷ []

abbrev one_row : List (DeviceRow ℕ)
one_row = row_object (7 ∷ 8 ∷ []) (some 4) ∷ []

abbrev broadcast_rows : List (Mapped ℕ)
broadcast_rows =
    record { device_id = "d1"; device_index = 0; fields = 7 ∷ 8 ∷ []; source_row_index = 4 }
    ∷ record { device_id = "d2"; device_index = 1; fields = 7 ∷ 8 ∷ []; source_row_index = 4 }
    ∷ []

broadcast : map_rows_to_devices one_row two_devices (some 2) true ≡ parsed broadcast_rows
unfolding map_rows_to_devices map_rows
broadcast = refl

map_rows_to_devices-Given_example :
    Given two_devices
      (source_rows one_row two_devices true)
      (create_dispatch_payload broadcast_rows)
map_rows_to_devices-Given_example =
    map_rows_to_devices-Given one_row two_devices (some 2) true broadcast_rows broadcast

map_rows_to_devices_iff_example :
    ((out : List (Mapped ℕ)) × (map_rows_to_devices one_row two_devices (some 2) true ≡ parsed out))
    ↔ (RowsFit one_row two_devices true
        × All (λ row. HasCount (some 2) (row_fields_of row)) one_row)
map_rows_to_devices_iff_example = map_rows_to_devices_iff one_row two_devices (some 2) true

abbrev user_and_pin : List (Definition ℕ)
user_and_pin =
    definition (record {
      name = some "pin";
      index = some 1;
      required = false;
      sensitive = true;
      default_value = none;
    })
    ∷ definition (record {
      name = some "user";
      index = some 0;
      required = true;
      sensitive = false;
      default_value = some 5;
    })
    ∷ []

validate_input_definitions_iff_example :
    (validate_input_definitions user_and_pin ≡ none)
    ↔ (All IsSound user_and_pin × Distinct user_and_pin)
validate_input_definitions_iff_example = validate_input_definitions_iff user_and_pin

named : map_fields_to_named_inputs (some 9 ∷ []) user_and_pin ≡ parsed (("user", some 9) ∷ [])
unfolding map_fields_to_named_inputs validate_input_definitions validate_from name_fields
named = refl

map_fields_to_named_inputs-IsServed_example :
    (1 ≤ field_count user_and_pin)
    × All (IsServed (some 9 ∷ []) (("user", some 9) ∷ [])) user_and_pin
map_fields_to_named_inputs-IsServed_example =
    map_fields_to_named_inputs-IsServed (some 9 ∷ []) user_and_pin (("user", some 9) ∷ []) named
