-- ===== src/Json/Paths.antt =====
-- What a reader finds in a JSON value by a path of keys.
use web_action_recorder_exte.Common.{
  String, List, [], ◌∷◌, Option, none, some, str_eq, if◌then◌else◌,
}
use web_action_recorder_exte.Json.{Json, Fields, null, bool, num, str, arr, obj, end, field}

abbrev pub find_field : String → Fields → Option Json
find_field key end = none
find_field key (field k v rest) = if str_eq k key then some v else find_field key rest

abbrev pub get_field : String → Json → Option Json
get_field key (obj fs) = find_field key fs
get_field key null = none
get_field key (bool b) = none
get_field key (num n) = none
get_field key (str s) = none
get_field key (arr xs) = none

abbrev pub and_then : (Json → Option Json) → Option Json → Option Json
and_then f none = none
and_then f (some v) = f v

abbrev pub at_path : List String → Json → Option Json
at_path [] v = some v
at_path (key ∷ path) v = and_then (at_path path) (get_field key v)
