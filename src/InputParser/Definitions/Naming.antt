-- ===== src/InputParser/Definitions/Naming.antt =====
-- platform/input-parser/src/inputParser.js: the value that mapFieldsToNamedInputs gives each name.
use web_action_recorder_exte.Common.{
  String, Bool, true, false, ◌&&◌, ltb, ◌≤◌, List, [], ◌∷◌, length, get_elem?, if◌then◌else◌,
  Option, none, some, str_eq, All, ◌≡◌, ◌≢◌, refl, arith, ap, sym, All-mono, All-universal, eq_iff,
  str_eq_refl, ◌∙◌,
}
use web_action_recorder_exte.InputParser.{InputError, Parsed, parsed, failed}
use web_action_recorder_exte.InputParser.Definitions.{
  Definition, Named, name_of, index_of, required_of, sensitive_of, default_of,
  validate_input_definitions, set_key, assign, lookup, field_count, is_missing, with_default,
  add_input, name_fields, map_fields_to_named_inputs, or_fail_with,
}
use web_action_recorder_exte.InputParser.Definitions.Laws.{Distinct, validate_input_definitions_iff}

module _ {A : Type 0} where
  lookup-set_key :
      (n m : String) (v : Option A) (named : Named A)
      → lookup m (set_key n v named) ≡ (if str_eq n m then some v else lookup m named)
  lookup-set_key n m v [] = refl
  lookup-set_key n m v ((k, w) ∷ rest) =
      ground (arith, lookup-set_key n m v rest, eq_iff n m, eq_iff k n, eq_iff k m)

  -- An object keeps no value under the name `__proto__`.
  abbrev kept_under : String → Option (Option A) → Option (Option A)
  kept_under name v = if str_eq name "__proto__" then none else v

  -- The default value, unless the input is sensitive.
  abbrev default_for : Bool → Option A → Option (Option A)
  default_for true v = none
  default_for false none = none
  default_for false (some v) = some (some v)

  abbrev field_or : Option (Option A) → Option (Option A) → Option (Option A)
  field_or none d = d
  field_or (some v) d = some v

  lookup-assign :
      (n m : String) (v : Option A) (named : Named A)
      → lookup m (assign n v named)
        ≡ (if str_eq n m then field_or (kept_under n (some v)) (lookup m named) else lookup m named)
  lookup-assign n m v named = ground (arith, lookup-set_key n m v named)

  -- The value for an input: the field at its index, or else its default value; none for an input
  -- of the name `__proto__`.
  abbrev pub value_for : List (Option A) → Definition A → Option (Option A)
  value_for fields d =
      kept_under (name_of d)
        (field_or (get_elem? fields (index_of d)) (default_for (sensitive_of d) (default_of d)))

  abbrev pub IsServed : List (Option A) → Named A → Definition A → Type 0
  IsServed fields out d =
      (lookup (name_of d) out ≡ value_for fields d)
      × ((is_missing (get_elem? fields (index_of d)) && required_of d) ≡ false)

  lookup-with_default :
      (d : Definition A) (m : String) (named : Named A) (v : Option A)
      → lookup m (with_default d named v) ≡ (
          if str_eq (name_of d) m
          then field_or (kept_under (name_of d) (default_for (sensitive_of d) v)) (lookup m named)
          else lookup m named)
  lookup-with_default d m named none = ground arith
  lookup-with_default d m named (some v) =
      ground (arith, lookup-assign (name_of d) m (some v) named)

  lookup-add_input :
      (d : Definition A) (m : String) (named : Named A) (field : Option (Option A))
      → lookup m (add_input d field named) ≡ (
          if str_eq (name_of d) m
          then field_or
              (kept_under
                (name_of d)
                (field_or field (default_for (sensitive_of d) (default_of d))))
              (lookup m named)
          else lookup m named)
  lookup-add_input d m named none = lookup-with_default d m named (default_of d)
  lookup-add_input d m named (some v) = lookup-assign (name_of d) m v named

  refused :
      (b : Bool) (e : InputError) (next : Parsed (Named A)) (out : Named A)
      → (if b then failed e else next) ≡ parsed out
      → (b ≡ false) × (next ≡ parsed out)
  refused true e next out h = absurd (cc)
  refused false e next out h = (refl, h)

  name_fields-step :
      (fields : List (Option A)) (d : Definition A) (ds : List (Definition A)) (named out : Named A)
      → name_fields fields (d ∷ ds) named ≡ parsed out
      → ((is_missing (get_elem? fields (index_of d)) && required_of d) ≡ false)
        × (name_fields fields ds (add_input d (get_elem? fields (index_of d)) named) ≡ parsed out)
  unfolding name_fields
  name_fields-step fields d ds named out h = refused _ _ _ out h

  name_fields-keeps :
      (n : String) (fields : List (Option A)) (ds : List (Definition A)) (named out : Named A)
      → All (λ e. name_of e ≢ n) ds
      → name_fields fields ds named ≡ parsed out
      → lookup n out ≡ lookup n named
  unfolding name_fields
  name_fields-keeps n fields [] named out h k =
      let same : named ≡ out = ground arith in ap (lookup n) (sym same)
  name_fields-keeps n fields (d ∷ ds) named out h k =
      let step = name_fields-step fields d ds named out k in
      let field = get_elem? fields (index_of d) in
      let other : str_eq (name_of d) n ≡ false = ground (arith, h.0, eq_iff (name_of d) n) in
      name_fields-keeps n fields ds (add_input d field named) out (h.1) (step.1)
      ∙ (lookup-add_input d n named field ∙ rw other refl)

  abbrev IsUnnamed : Named A → Definition A → Type 0
  IsUnnamed named d = lookup (name_of d) named ≡ none

  IsUnnamed-add_input :
      (d : Definition A) (field : Option (Option A)) (named : Named A) (ds : List (Definition A))
      → All (λ e. (name_of e ≢ name_of d) × (index_of e ≢ index_of d)) ds
      → All (IsUnnamed named) ds
      → All (IsUnnamed (add_input d field named)) ds
  IsUnnamed-add_input d field named [] h k = tt
  IsUnnamed-add_input d field named (e ∷ ds) h k =
      let other : str_eq (name_of d) (name_of e) ≡ false =
        ground (arith, h.0.0, eq_iff (name_of d) (name_of e)) in
      (
        lookup-add_input d (name_of e) named field ∙ (rw other (k.0)),
        IsUnnamed-add_input d field named ds (h.1) (k.1),
      )

  All-name :
      (n : Definition A) (ds : List (Definition A))
      → All (λ e. (name_of e ≢ name_of n) × (index_of e ≢ index_of n)) ds
      → All (λ e. name_of e ≢ name_of n) ds
  All-name n ds h = All-mono _ _ ds (λ e x. x.0) h

  own_value :
      (d : Definition A) (field : Option (Option A)) (named : Named A)
      → IsUnnamed named d
      → lookup (name_of d) (add_input d field named)
        ≡ kept_under (name_of d) (field_or field (default_for (sensitive_of d) (default_of d)))
  own_value d field named h =
      lookup-add_input d (name_of d) named field ∙ ground (arith, h, str_eq_refl (name_of d))

  name_fields-serves :
      (fields : List (Option A)) (ds : List (Definition A)) (named out : Named A)
      → Distinct ds
      → All (IsUnnamed named) ds
      → name_fields fields ds named ≡ parsed out
      → All (IsServed fields out) ds
  name_fields-serves fields [] named out h k e = tt
  name_fields-serves fields (d ∷ ds) named out h k e =
      let step = name_fields-step fields d ds named out e in
      let field : Option (Option A) = get_elem? fields (index_of d) in
      let next : Named A = add_input d field named in
      (
        (
          name_fields-keeps (name_of d) fields ds next out (All-name d ds (h.0)) (step.1)
              ∙ own_value d field named (k.0),
          step.0,
        ),
        name_fields-serves fields ds next out (h.1)
            (IsUnnamed-add_input d field named ds (h.0) (k.1)) (step.1),
      )

  or_fail_with-eq-parsed :
      (e : Option InputError) (next : Parsed (Named A)) (out : Named A)
      → or_fail_with e next ≡ parsed out
      → (e ≡ none) × (next ≡ parsed out)
  or_fail_with-eq-parsed none next out h = (refl, h)
  or_fail_with-eq-parsed (some e) next out h = absurd (cc)

  -- When `mapFieldsToNamedInputs` returns, there are no more fields than the definitions' largest
  -- index allows, and the object has under each definition's name its own value, whatever the order
  -- of the definitions: the field at its index, or, without one, its default value unless it is
  -- sensitive (and then nothing). A definition named `__proto__` has nothing under its name. An
  -- input that is required has a field with a value.
  pub map_fields_to_named_inputs-IsServed :
      (fields : List (Option A)) (ds : List (Definition A)) (out : Named A)
      → map_fields_to_named_inputs fields ds ≡ parsed out
      → (length fields ≤ field_count ds) × All (IsServed fields out) ds
  unfolding map_fields_to_named_inputs
  map_fields_to_named_inputs-IsServed fields ds out h =
      let valid = or_fail_with-eq-parsed (validate_input_definitions ds) _ out h in
      let fit = refused (ltb (field_count ds) (length fields)) _ _ out (valid.1) in
      (
        ground arith,
        name_fields-serves fields ds [] out ((validate_input_definitions_iff ds).0 (valid.0)).1
            (All-universal _ ds (λ d. refl)) (fit.1),
      )
