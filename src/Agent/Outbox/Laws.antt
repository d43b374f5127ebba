-- ===== src/Agent/Outbox/Laws.antt =====
-- The outbox and its file: what an agent loads that restarts after a call.
use web_action_recorder_exte.Common.{
  get_or_else, text_or, append_text, append_text-not_empty, ◌≡◌, refl, arith, ℕ, ◌≤◌, ◌==◌, Bool,
  if◌then◌else◌, ◌||◌, some, str_eq_refl, true, false, not, String, str_eq, none, List, [], ◌∷◌,
  ◌++◌, length, length-append, leb, ltb, truthy, find_first, keep_if, All, All-append, keep_if-All,
  length-keep_if, Bool-cases, Option-cases, inl, inr,
}
use web_action_recorder_exte.Core.Errors.{Result, ok, err, result_of, state_of, if-state}
use web_action_recorder_exte.Agent.Outbox.{
  Envelope, Entry, persist, Outbox, Limits, put, acknowledge, load, is_kept, new_entry,
  terminal_key, has_entry_key, is_terminal_type,
}

-- No entry is one that `load` would drop, and the limit on their number is kept.
abbrev pub IsKept : Limits → Outbox → Type 0
IsKept limits o = All (λ e. is_kept e ≡ true) o.entries × (length o.entries ≤ limits.max_count)

-- A restart loads what the outbox holds.
abbrev pub IsSaved : Limits → Outbox → Type 0
IsSaved limits o = IsKept limits o × (load o.file ≡ o)

-- After a call on `o`, a restart loads what the outbox then holds, or, when the write threw, `o`.
abbrev pub IsLoaded : Limits → (writes : Bool) → Outbox → Outbox → Type 0
IsLoaded limits writes o t = IsKept limits t × (load t.file ≡ (if writes then t else o))

load-kept : (es : List Entry) → All (λ e. is_kept e ≡ true) es → keep_if is_kept es ≡ es
load-kept [] a = refl
load-kept (e ∷ es) a = rw (a.0, load-kept es a.1) refl

terminal_key-not_empty :
    (e : Envelope) → truthy e.job_id ≡ true → str_eq (terminal_key e) "" ≡ false
terminal_key-not_empty e h =
    let by_job : str_eq (get_or_else e.job_id "undefined") "" ≡ false = ground arith in
    let made =
      append_text-not_empty (get_or_else e.job_id "undefined")
        (append_text ":" (append_text e.kind (append_text ":" (text_or e.event_type "")))) by_job in
    ground arith

put-state :
    (P : Outbox → Type 0) (entry_bytes : Entry → ℕ) (encoded_bytes : List Entry → ℕ)
    (limits : Limits) (writes : Bool) (e : Envelope) (o : Outbox)
    → P o
    → (is_terminal_type e.kind ≡ true
        → truthy e.job_id ≡ true
        → leb limits.max_count (length o.entries) ≡ false
        → P (
            state_of (
              persist writes (new_entry e) (record o { entries = o.entries ++ new_entry e ∷ [] }))))
    → P (state_of (put entry_bytes encoded_bytes limits writes e o))
unfolding put
put-state P entry_bytes encoded_bytes limits writes e o h k =
    elim (Bool-cases (is_terminal_type e.kind)) [
      | inr x ↦ rw x h
      | inl x ↦ elim (Bool-cases (truthy e.job_id)) [
        | inr y ↦ rw (x, y) h
        | inl y ↦ elim (Option-cases (find_first (has_entry_key (terminal_key e)) o.entries)) [
          | inr (z, f) ↦ rw (x, y, f) h
          | inl f ↦ elim (Bool-cases (leb limits.max_count (length o.entries))) [
            | inl c ↦ rw (x, y, f, c) h
            | inr c ↦
                rw (x, y, f, c)
                  (if-state P (ltb limits.max_entry_bytes (entry_bytes (new_entry e))) _ _ h (
                    if-state P
                      (ltb limits.max_total_bytes (encoded_bytes (o.entries ++ new_entry e ∷ []))) _
                      _ h (k x y c)))
          ]
        ]
      ]
    ]

IsLoaded-persist :
    {A : Type 0} (limits : Limits) (writes : Bool) (answer : A) (o : Outbox) (es : List Entry)
    → load o.file ≡ o
    → All (λ e. is_kept e ≡ true) es
    → length es ≤ limits.max_count
    → IsLoaded limits writes o (state_of (persist writes answer (record o { entries = es })))
unfolding load
IsLoaded-persist limits true answer o es h a b = ((a, b), rw (load-kept es a) refl)
IsLoaded-persist limits false answer o es h a b = ((a, b), h)

IsLoaded-same :
    (limits : Limits) (writes : Bool) (o : Outbox) → IsSaved limits o → IsLoaded limits writes o o
IsLoaded-same limits true o w = w
IsLoaded-same limits false o w = w

-- The entry that a call returns is the one that the outbox has under the key.
abbrev pub IsFound : String → Outbox → Result Entry → Type 0
IsFound key o (ok r) = find_first (has_entry_key key) o.entries ≡ some r
IsFound key o (err e) = Unit

find_first-push :
    (key : String) (es : List Entry) (e : Entry)
    → find_first (has_entry_key key) es ≡ none
    → has_entry_key key e ≡ true
    → find_first (has_entry_key key) (es ++ e ∷ []) ≡ some e
find_first-push key [] e h k = ground arith
find_first-push key (x ∷ xs) e h k = elim (Bool-cases (has_entry_key key x)) [
  | inl m ↦ absurd (ground (arith, rw m at h))
  | inr m ↦ rw m (find_first-push key xs e (rw m at h) k)
]

put-IsFound :
    (entry_bytes : Entry → ℕ) (encoded_bytes : List Entry → ℕ) (limits : Limits) (writes : Bool)
    (e : Envelope) (o : Outbox)
    → let done = put entry_bytes encoded_bytes limits writes e o in
      IsFound (terminal_key e) (state_of done) (result_of done)
unfolding put
put-IsFound entry_bytes encoded_bytes limits writes e o =
    let refused = not (is_terminal_type e.kind) || not (truthy e.job_id) in
    let too_many = leb limits.max_count (length o.entries) in
    let too_large = ltb limits.max_entry_bytes (entry_bytes (new_entry e)) in
    let too_much = ltb limits.max_total_bytes (encoded_bytes (o.entries ++ new_entry e ∷ [])) in
    elim (Bool-cases refused) [
      | inl x ↦ rw x tt
      | inr x ↦ elim (Option-cases (find_first (has_entry_key (terminal_key e)) o.entries)) [
        | inr (z, f) ↦ rw (x, f, f) refl
        | inl f ↦ elim (Bool-cases too_many) [
          | inl c ↦ rw (x, f, c) tt
          | inr c ↦ elim (Bool-cases too_large) [
            | inl l ↦ rw (x, f, c, l) tt
            | inr l ↦ elim (Bool-cases too_much) [
              | inl m ↦ rw (x, f, c, l, m) tt
              | inr m ↦ elim (Bool-cases writes) [
                | inr w ↦ rw (x, f, c, l, m, w) tt
                | inl w ↦
                    rw (x, f, c, l, m, w)
                      (find_first-push (terminal_key e) o.entries (new_entry e) f
                        (str_eq_refl (terminal_key e)))
              ]
            ]
          ]
        ]
      ]
    ]

find_first-keep_if :
    (key : String) (es : List Entry)
    → find_first (has_entry_key key) (keep_if (λ item. not (has_entry_key key item)) es) ≡ none
find_first-keep_if key [] = refl
find_first-keep_if key (x ∷ xs) = elim (Bool-cases (has_entry_key key x)) [
  | inl m ↦ rw m (find_first-keep_if key xs)
  | inr m ↦ rw (m, m) (find_first-keep_if key xs)
]

find_first-same_length :
    (key : String) (es : List Entry)
    → length (keep_if (λ item. not (has_entry_key key item)) es) ≡ length es
    → find_first (has_entry_key key) es ≡ none
find_first-same_length key [] h = refl
find_first-same_length key (x ∷ xs) h = elim (Bool-cases (has_entry_key key x)) [
  | inl m ↦
      absurd (omega (arith, rw m at h, length-keep_if (λ item. not (has_entry_key key item)) xs))
  | inr m ↦ rw m (find_first-same_length key xs (omega (arith, rw m at h)))
]

acknowledge-forgets :
    (writes : Bool) (key : String) (o : Outbox)
    → find_first (has_entry_key key) (state_of (acknowledge writes key o)).entries ≡ none
unfolding acknowledge
acknowledge-forgets writes key o =
    let left = keep_if (λ item. not (has_entry_key key item)) o.entries in
    elim (Bool-cases (length left == length o.entries)) [
      | inl e ↦ rw e (find_first-same_length key o.entries (ground arith))
      | inr e ↦ rw e (
          if-state (λ (t : Outbox). find_first (has_entry_key key) t.entries ≡ none) writes _ _
            (find_first-keep_if key o.entries) (find_first-keep_if key o.entries))
    ]

-- After a `put` or an `acknowledge` of a saved outbox, whether it returns or throws, a restart loads
-- the entries that the outbox then holds; when the write threw, it loads those from before the
-- call, though the outbox may have changed. In either case no entry is one that `load` would drop,
-- and their number is within the limit. The entry that `put` returns is in the outbox under the
-- envelope's key, and after `acknowledge` none is there under its key.
pub put-IsLoaded :
    (entry_bytes : Entry → ℕ) (encoded_bytes : List Entry → ℕ) (limits : Limits) (writes : Bool)
    (e : Envelope) (key : String) (o : Outbox)
    → IsSaved limits o
    → let saved = put entry_bytes encoded_bytes limits writes e o in
      let left = state_of (acknowledge writes key o) in
      IsLoaded limits writes o (state_of saved)
      × IsFound (terminal_key e) (state_of saved) (result_of saved)
      × IsLoaded limits writes o left
      × (find_first (has_entry_key key) left.entries ≡ none)
unfolding acknowledge
put-IsLoaded entry_bytes encoded_bytes limits writes e key o w =
    let keeps = λ (item : Entry). not (has_entry_key key item) in
    let left = keep_if keeps o.entries in
    let pushed = o.entries ++ new_entry e ∷ [] in
    let same = IsLoaded-same limits writes o w in
    (
      put-state (IsLoaded limits writes o) entry_bytes encoded_bytes limits writes e o same
          (λ x y c.
            IsLoaded-persist limits writes (new_entry e) o pushed w.1
              (All-append (λ i. is_kept i ≡ true) o.entries (new_entry e ∷ []) w.0.0
                (ground (arith, terminal_key-not_empty e y), tt))
              (ground (arith, length-append o.entries (new_entry e ∷ [])))),
      put-IsFound entry_bytes encoded_bytes limits writes e o,
      if-state (IsLoaded limits writes o) (length left == length o.entries) _ _ same (
          IsLoaded-persist limits writes true o left w.1
            (keep_if-All keeps (λ i. is_kept i ≡ true) o.entries w.0.0)
            (omega (arith, length-keep_if keeps o.entries, w.0.1))),
      acknowledge-forgets writes key o,
    )
