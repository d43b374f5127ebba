-- ===== src/Json/Redact.antt =====
-- The redaction of sensitive fields before a value is kept: `redact` of
-- platform/controller-core/src/auditService.js, `redactEvent` of executionEventStore.js and
-- `redactResult` of jobService.js. The three differ in the pattern that a key is tested by.
use mathlib.Core.Path.{subst}
use mathlib.Core.Option
use web_action_recorder_exte.Common.{
  false, All, str_eq, eq_iff, Option-cases, ◌∙◌, String, Bool, ◌≡◌, ◌↔◌, refl, ap, List, [], ◌∷◌,
  ◌++◌, if◌then◌else◌, Bool-cases, inl, inr, arith,
}
use web_action_recorder_exte.Json.{
  Json, Items, Fields, null, bool, num, str, arr, obj, nil, cons, end, field,
}
use web_action_recorder_exte.Json.Paths.{find_field, get_field, and_then, at_path}
use web_action_recorder_exte.Json.Pattern.{Item, any_opt, word, test_words}

abbrev pub redacted : Json
redacted = str "[REDACTED]"

unfoldable mutual
  pub redact_with : (String → Bool) → Json → Json
  redact_with sensitive (arr xs) = arr (redact_items sensitive xs)
  redact_with sensitive (obj fs) = obj (redact_fields sensitive fs)
  redact_with sensitive v = v

  pub redact_items : (String → Bool) → Items → Items
  redact_items sensitive nil = nil
  redact_items sensitive (cons x xs) = cons (redact_with sensitive x) (redact_items sensitive xs)

  pub redact_fields : (String → Bool) → Fields → Fields
  redact_fields sensitive end = end
  redact_fields sensitive (field key child rest) =
      field key (if sensitive key then redacted else redact_with sensitive child)
        (redact_fields sensitive rest)

-- `/token|secret|password|credential|private.?key/i`
abbrev pub audit_words : List (List Item)
audit_words =
    word "token"
    ∷ word "secret"
    ∷ word "password"
    ∷ word "credential"
    ∷ (word "private" ++ (any_opt ∷ word "key"))
    ∷ []

-- `/password|passwd|token|secret|otp|pin|credential/i`, of events and of results alike
abbrev pub event_words : List (List Item)
event_words =
    word "password"
    ∷ word "passwd"
    ∷ word "token"
    ∷ word "secret"
    ∷ word "otp"
    ∷ word "pin"
    ∷ word "credential"
    ∷ []

unfoldable pub redact : Json → Json
unfolding redact_with
redact v = redact_with (test_words audit_words) v

unfoldable pub redact_event : Json → Json
unfolding redact_with
redact_event v = redact_with (test_words event_words) v

unfoldable pub redact_result : Json → Json
unfolding redact_with
redact_result v = redact_with (test_words event_words) v

-- Whatever depth a sensitive key stands at, its value is the mark and nothing else.
mutual
  pub IsClean : (String → Bool) → Json → Type 0
  IsClean sensitive (arr xs) = IsCleanItems sensitive xs
  IsClean sensitive (obj fs) = IsCleanFields sensitive fs
  IsClean sensitive v = Unit

  pub IsCleanItems : (String → Bool) → Items → Type 0
  IsCleanItems sensitive nil = Unit
  IsCleanItems sensitive (cons x xs) = IsClean sensitive x × IsCleanItems sensitive xs

  pub IsCleanFields : (String → Bool) → Fields → Type 0
  IsCleanFields sensitive end = Unit
  IsCleanFields sensitive (field key child rest) =
      (if sensitive key then child ≡ redacted else IsClean sensitive child)
      × IsCleanFields sensitive rest

module _ (sensitive : String → Bool) where
  mutual
    unfolding redact_with IsClean

    clean : (v : Json) → IsClean sensitive (redact_with sensitive v)
    clean null = tt
    clean (bool b) = tt
    clean (num n) = tt
    clean (str s) = tt
    clean (arr xs) = clean_items xs
    clean (obj fs) = clean_fields fs

    clean_items : (xs : Items) → IsCleanItems sensitive (redact_items sensitive xs)
    clean_items nil = tt
    clean_items (cons x xs) = (clean x, clean_items xs)

    clean_fields : (fs : Fields) → IsCleanFields sensitive (redact_fields sensitive fs)
    clean_fields end = tt
    clean_fields (field key child rest) = elim (Bool-cases (sensitive key)) [
      | inl e ↦ rw e (refl, clean_fields rest)
      | inr e ↦ rw e (clean child, clean_fields rest)
    ]

  mutual
    unfolding redact_with IsClean

    unchanged : (v : Json) → IsClean sensitive v → redact_with sensitive v ≡ v
    unchanged null c = refl
    unchanged (bool b) c = refl
    unchanged (num n) c = refl
    unchanged (str s) c = refl
    unchanged (arr xs) c = ap arr (unchanged_items xs c)
    unchanged (obj fs) c = ap obj (unchanged_fields fs c)

    unchanged_items : (xs : Items) → IsCleanItems sensitive xs → redact_items sensitive xs ≡ xs
    unchanged_items nil c = refl
    unchanged_items (cons x xs) c = rw (unchanged x c.0, unchanged_items xs c.1)

    unchanged_fields : (fs : Fields) → IsCleanFields sensitive fs → redact_fields sensitive fs ≡ fs
    unchanged_fields end c = refl
    unchanged_fields (field key child rest) c = elim (Bool-cases (sensitive key)) [
      | inl e ↦ ground (arith, unchanged_fields rest c.1)
      | inr e ↦ ground (arith, unchanged child, unchanged_fields rest c.1)
    ]

unchanged_iff :
    (sensitive : String → Bool) (v : Json) → (redact_with sensitive v ≡ v) ↔ IsClean sensitive v
unchanged_iff sensitive v =
    (λ h. subst (IsClean sensitive) h (clean sensitive v), unchanged sensitive v)

find_field-redact :
    (sensitive : String → Bool) (key : String) (fs : Fields)
    → sensitive key ≡ false
    → find_field key (redact_fields sensitive fs)
      ≡ Option.map (redact_with sensitive) (find_field key fs)
unfolding redact_with
find_field-redact sensitive key end h = refl
find_field-redact sensitive key (field k v rest) h = elim (Bool-cases (str_eq k key)) [
  | inl e ↦
      let open_key : sensitive k ≡ false = ap sensitive ((eq_iff k key).0 e) ∙ h in
      rw (e, open_key) refl
  | inr e ↦ rw e (find_field-redact sensitive key rest h)
]

get_field-redact :
    (sensitive : String → Bool) (key : String) (v : Json)
    → sensitive key ≡ false
    → get_field key (redact_with sensitive v) ≡ Option.map (redact_with sensitive) (get_field key v)
unfolding redact_with
get_field-redact sensitive key (obj fs) h = find_field-redact sensitive key fs h
get_field-redact sensitive key null h = refl
get_field-redact sensitive key (bool b) h = refl
get_field-redact sensitive key (num n) h = refl
get_field-redact sensitive key (str s) h = refl
get_field-redact sensitive key (arr xs) h = refl

at_path-redact :
    (sensitive : String → Bool) (path : List String) (v : Json)
    → All (λ key. sensitive key ≡ false) path
    → at_path path (redact_with sensitive v) ≡ Option.map (redact_with sensitive) (at_path path v)
at_path-redact sensitive [] v h = refl
at_path-redact sensitive (key ∷ path) v h =
    ap (and_then (at_path path)) (get_field-redact sensitive key v h.0)
    ∙ elim (Option-cases (get_field key v)) [
      | inl e ↦ rw e refl
      | inr (w, e) ↦ rw e (at_path-redact sensitive path w h.1)
    ]

pub redact-IsClean :
    (v : Json) (path : List String)
    → All (λ key. test_words audit_words key ≡ false) path
    → All (λ key. test_words event_words key ≡ false) path
    → IsClean (test_words audit_words) (redact v)
      × IsClean (test_words event_words) (redact_event v)
      × IsClean (test_words event_words) (redact_result v)
      × ((redact v ≡ v) ↔ IsClean (test_words audit_words) v)
      × ((redact_event v ≡ v) ↔ IsClean (test_words event_words) v)
      × ((redact_result v ≡ v) ↔ IsClean (test_words event_words) v)
      × (redact (redact v) ≡ redact v)
      × (redact_event (redact_event v) ≡ redact_event v)
      × (redact_result (redact_result v) ≡ redact_result v)
      × (at_path path (redact v) ≡ Option.map redact (at_path path v))
      × (at_path path (redact_event v) ≡ Option.map redact_event (at_path path v))
      × (at_path path (redact_result v) ≡ Option.map redact_result (at_path path v))
unfolding redact redact_event redact_result
redact-IsClean v path by_audit_open by_event_open =
    let by_audit = clean (test_words audit_words) v in
    let by_event = clean (test_words event_words) v in
    (
      by_audit,
      by_event,
      by_event,
      unchanged_iff (test_words audit_words) v,
      unchanged_iff (test_words event_words) v,
      unchanged_iff (test_words event_words) v,
      unchanged (test_words audit_words) (redact v) by_audit,
      unchanged (test_words event_words) (redact_event v) by_event,
      unchanged (test_words event_words) (redact_result v) by_event,
      at_path-redact (test_words audit_words) path v by_audit_open,
      at_path-redact (test_words event_words) path v by_event_open,
      at_path-redact (test_words event_words) path v by_event_open,
    )
