-- ===== src/InputParser/Definitions/Laws.antt =====
-- platform/input-parser/src/inputParser.js: which input definitions are accepted.
use web_action_recorder_exte.Common.{
  ℕ, String, false, ◌+◌, ◌≤◌, List, [], ◌∷◌, Option, none, some, str_eq, trim, text_length, All,
  ◌≡◌, ◌≢◌, refl, arith, Option-cases, inl, inr, ◌⊎◌, ◌↔◌, eq_iff,
}
use web_action_recorder_exte.InputParser.{InputError}
use web_action_recorder_exte.InputParser.Definitions.{
  Definition, definition, not_an_object, has_name, has_index, definition_error, name_of, index_of,
  first_error, validate_from, validate_input_definitions,
}

first_error-none : (a b : Option InputError) → (first_error a b ≡ none) ↔ ((a ≡ none) × (b ≡ none))
first_error-none a b = ground arith

module _ {A : Type 0} where
  -- A definition that is fine on its own.
  abbrev pub IsSound : Definition A → Type 0
  IsSound not_an_object = ⊥
  IsSound (definition d) =
      (name : String) × (index : ℕ) × (d.name ≡ some name)
      × (str_eq (trim name) "" ≡ false)
      × (text_length name ≤ 128)
      × (d.index ≡ some index)
      × ((d.sensitive ≡ false) ⊎ (d.default_value ≡ none))

  -- No name or index is one of these.
  abbrev pub IsNew : List String → List ℕ → Definition A → Type 0
  IsNew names indexes d =
      (has_name names (name_of d) ≡ false) × (has_index indexes (index_of d) ≡ false)

  -- Distinct names and distinct indexes.
  abbrev pub Distinct : List (Definition A) → Type 0
  Distinct [] = Unit
  Distinct (d ∷ ds) =
      All (λ e. (name_of e ≢ name_of d) × (index_of e ≢ index_of d)) ds × Distinct ds

  definition_error_iff :
      (d : Definition A) (position : ℕ) (names : List String) (indexes : List ℕ)
      → (definition_error d position names indexes ≡ none) ↔ (IsSound d × IsNew names indexes d)
  definition_error_iff not_an_object position names indexes = ground arith
  definition_error_iff (definition d) position names indexes = elim (Option-cases d.name) [
    | inl e ↦ ground arith
    | inr e ↦ elim (Option-cases d.index) [
      | inl e' ↦ ground arith
      | inr e' ↦ elim (Option-cases d.default_value) [
        | inl e'' ↦ ground arith
        | inr e'' ↦ ground arith
      ]
    ]
  ]

  -- New as to one more definition.
  abbrev IsNewTo : List String → List ℕ → Definition A → Definition A → Type 0
  IsNewTo names indexes d e = IsNew (name_of d ∷ names) (index_of d ∷ indexes) e

  abbrev IsApart : Definition A → Definition A → Type 0
  IsApart d e = (name_of e ≢ name_of d) × (index_of e ≢ index_of d)

  IsNew-more :
      (names : List String) (indexes : List ℕ) (d e : Definition A)
      → IsNewTo names indexes d e ↔ (IsNew names indexes e × IsApart d e)
  IsNew-more names indexes d e = ground (arith, eq_iff (name_of d) (name_of e))

  All-IsNew :
      (names : List String) (indexes : List ℕ) (d : Definition A) (ds : List (Definition A))
      → All (IsNewTo names indexes d) ds ↔ (All (IsNew names indexes) ds × All (IsApart d) ds)
  All-IsNew names indexes d [] = (λ h. (tt, tt), λ h. tt)
  All-IsNew names indexes d (e ∷ ds) =
      let one = IsNew-more names indexes d e in
      let rest = All-IsNew names indexes d ds in
      (
        λ h. let x = one.0 (h.0) in let y = rest.0 (h.1) in ((x.0, y.0), (x.1, y.1)),
        λ h. (one.1 (h.0.0, h.1.0), rest.1 (h.0.1, h.1.1)),
      )

  validate_from_iff :
      (position : ℕ) (names : List String) (indexes : List ℕ) (ds : List (Definition A))
      → (validate_from position names indexes ds ≡ none)
        ↔ (All IsSound ds × All (IsNew names indexes) ds × Distinct ds)
  unfolding validate_from
  validate_from_iff position names indexes [] = (λ h. (tt, tt, tt), λ h. refl)
  validate_from_iff position names indexes (d ∷ ds) =
      let both =
        first_error-none (definition_error d position names indexes)
          (validate_from (position + 1) (name_of d ∷ names) (index_of d ∷ indexes) ds) in
      let one = definition_error_iff d position names indexes in
      let rest = validate_from_iff (position + 1) (name_of d ∷ names) (index_of d ∷ indexes) ds in
      let new = All-IsNew names indexes d ds in
      (
        λ h.
            let here = one.0 ((both.0 h).0) in
            let more = rest.0 ((both.0 h).1) in
            let apart = new.0 (more.1) in ((here.0, more.0), (here.1, apart.0), (apart.1, more.2)),
        λ h. both.1 (one.1 (h.0.0, h.1.0), rest.1 (h.0.1, new.1 (h.1.1, h.2.0), h.2.1)),
      )

  All-IsNew-start : (ds : List (Definition A)) → All (IsNew [] []) ds
  All-IsNew-start [] = tt
  All-IsNew-start (d ∷ ds) = ((refl, refl), All-IsNew-start ds)

  -- `validateInputDefinitions` accepts a list exactly when each entry is an object with a name that
  -- is not blank and has 128 units at most, an index, and no default value if it is sensitive, and
  -- no two entries have the same name or the same index.
  pub validate_input_definitions_iff :
      (ds : List (Definition A))
      → (validate_input_definitions ds ≡ none) ↔ (All IsSound ds × Distinct ds)
  unfolding validate_input_definitions
  validate_input_definitions_iff ds =
      let all = validate_from_iff 0 [] [] ds in
      (λ h. ((all.0 h).0, (all.0 h).2), λ h. all.1 (h.0, All-IsNew-start ds, h.1))
