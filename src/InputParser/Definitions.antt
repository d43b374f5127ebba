-- ===== src/InputParser/Definitions.antt =====
-- platform/input-parser/src/inputParser.js: validateInputDefinitions and mapFieldsToNamedInputs.
-- `fields` and `definitions` are arrays; a missing value (`undefined`) is `none`. A definition has
-- a name when it is a text, an index when it is an integer that is not negative, and a default
-- value when it has one of its own. The named inputs are an association
-- list of the object's own keys.
pub mod Laws
pub mod Naming
use web_action_recorder_exte.Common.{
  ℕ, String, Bool, true, false, not, ◌&&◌, ◌||◌, ◌==◌, ltb, leb, ◌+◌, max, List, [], ◌∷◌, length,
  any, get_elem?, if◌then◌else◌, Option, none, some, str_eq, trim, text_length, is_some,
}
use web_action_recorder_exte.InputParser.{
  InputError, Parsed, parsed, failed, missing_input, extra_input, definition_not_object,
  definition_without_name, definition_name_too_long, duplicate_input_name, invalid_input_index,
  duplicate_input_index, sensitive_default_value,
}

module _ (A : Type 0) where
  pub record InputDefinition : Type 0 where
    pub name : Option String
    pub index : Option ℕ
    pub required : Bool
    pub sensitive : Bool
    pub default_value : Option A

  pub data Definition : Type 0 where
    definition : InputDefinition → Definition
    not_an_object : Definition

abbrev pub has_name : List String → String → Bool
has_name names name = any (λ x. str_eq x name) names

abbrev pub has_index : List ℕ → ℕ → Bool
has_index indexes index = any (λ x. x == index) indexes

abbrev pub first_error : Option InputError → Option InputError → Option InputError
first_error none rest = rest
first_error (some e) rest = some e

abbrev pub Named : Type 0 → Type 0
Named A = List (String × Option A)

module _ {A : Type 0} where
  -- The checks from the index on, of a definition with a name.
  abbrev pub index_error : InputDefinition A → String → List ℕ → Option ℕ → Option InputError
  index_error d name indexes none = some (invalid_input_index name)
  index_error d name indexes (some i) =
      if has_index indexes i
      then some (duplicate_input_index i)
      else if d.sensitive && is_some d.default_value
      then some (sensitive_default_value name i)
      else none

  abbrev pub name_error :
      InputDefinition A → ℕ → List String → List ℕ → Option String → Option InputError
  name_error d position names indexes none = some (definition_without_name position)
  name_error d position names indexes (some name) =
      if str_eq (trim name) ""
      then some (definition_without_name position)
      else if ltb 128 (text_length name)
      then some (definition_name_too_long position)
      else if has_name names name
      then some (duplicate_input_name name)
      else index_error d name indexes d.index

  abbrev pub definition_error : Definition A → ℕ → List String → List ℕ → Option InputError
  definition_error not_an_object position names indexes = some (definition_not_object position)
  definition_error (definition d) position names indexes =
      name_error d position names indexes d.name

  -- `definition.name`, `definition.index` of a definition that is accepted.
  abbrev pub name_of : Definition A → String
  name_of not_an_object = ""
  name_of (definition d) = elim d.name [ none ↦ "" | some n ↦ n ]

  abbrev pub index_of : Definition A → ℕ
  index_of not_an_object = 0
  index_of (definition d) = elim d.index [ none ↦ 0 | some i ↦ i ]

  abbrev pub required_of : Definition A → Bool
  required_of not_an_object = false
  required_of (definition d) = d.required

  abbrev pub sensitive_of : Definition A → Bool
  sensitive_of not_an_object = false
  sensitive_of (definition d) = d.sensitive

  abbrev pub default_of : Definition A → Option A
  default_of not_an_object = none
  default_of (definition d) = d.default_value

  unfoldable pub validate_from : ℕ → List String → List ℕ → List (Definition A) → Option InputError
  validate_from position names indexes [] = none
  validate_from position names indexes (d ∷ ds) =
      first_error (definition_error d position names indexes)
        (validate_from (position + 1) (name_of d ∷ names) (index_of d ∷ indexes) ds)

  unfoldable pub validate_input_definitions : List (Definition A) → Option InputError
  unfolding validate_from
  validate_input_definitions ds = validate_from 0 [] [] ds

  abbrev pub set_key : String → Option A → Named A → Named A
  set_key name value [] = (name, value) ∷ []
  set_key name value ((k, v) ∷ rest) =
      let more = set_key name value rest in
      if str_eq k name then (k, value) ∷ rest else (k, v) ∷ more

  -- `namedInputs[name] = value`, which makes no key of the name `__proto__`.
  abbrev pub assign : String → Option A → Named A → Named A
  assign name value named = if str_eq name "__proto__" then named else set_key name value named

  abbrev pub lookup : String → Named A → Option (Option A)
  lookup name [] = none
  lookup name ((k, v) ∷ rest) = if str_eq k name then some v else lookup name rest

  -- One more than the largest index.
  abbrev pub field_count : List (Definition A) → ℕ
  field_count [] = 0
  field_count (d ∷ ds) = max (index_of d + 1) (field_count ds)

  -- `value === undefined` when the field is there, or not there at all.
  abbrev pub is_missing : Option (Option A) → Bool
  is_missing none = true
  is_missing (some none) = true
  is_missing (some (some v)) = false

  abbrev pub with_default : Definition A → Named A → Option A → Named A
  with_default d named none = named
  with_default d named (some v) =
      if sensitive_of d then named else assign (name_of d) (some v) named

  abbrev pub add_input : Definition A → Option (Option A) → Named A → Named A
  add_input d (some value) named = assign (name_of d) value named
  add_input d none named = with_default d named (default_of d)

  unfoldable pub name_fields : List (Option A) → List (Definition A) → Named A → Parsed (Named A)
  name_fields fields [] named = parsed named
  name_fields fields (d ∷ ds) named =
      let field = get_elem? fields (index_of d) in
      if is_missing field && required_of d
      then failed (missing_input (name_of d) (index_of d) (sensitive_of d))
      else name_fields fields ds (add_input d field named)

  abbrev pub or_fail_with : Option InputError → Parsed (Named A) → Parsed (Named A)
  or_fail_with none next = next
  or_fail_with (some e) next = failed e

  unfoldable pub map_fields_to_named_inputs :
      List (Option A) → List (Definition A) → Parsed (Named A)
  unfolding name_fields validate_input_definitions
  map_fields_to_named_inputs fields ds = or_fail_with (validate_input_definitions ds) (
      if ltb (field_count ds) (length fields)
      then failed (extra_input (field_count ds) (length fields))
      else name_fields fields ds [])
