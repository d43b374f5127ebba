-- ===== src/Agent/Outbox.antt =====
-- platform/browser-agent/src/terminalOutbox.js: the agent's outbox of terminal envelopes, and the
-- file that `persist` writes it to. `encoded_bytes` is the length in bytes of the JSON text of a
-- list of entries (Node's `JSON.stringify` and `Buffer.byteLength`). `writes` tells whether
-- `writeFileSync` and `renameSync` succeed; when one throws, the file is as it was, since it is the
-- temporary one that is written. Entries are JSON values, which their text is read back as.
pub mod Laws
use web_action_recorder_exte.Common.{
  append_text, append_text-not_empty, ℕ, ◌==◌, ◌&&◌, ◌||◌, not, ltb, leb, Bool, true, false, String,
  str_eq, Option, none, some, List, [], ◌∷◌, ◌++◌, length, any, find_first, keep_if, truthy,
  text_or, get_or_else, if◌then◌else◌,
}
use web_action_recorder_exte.Json.{Json}
use web_action_recorder_exte.Core.Errors.{
  Outcome, returns, throws, domain_error, plain_error, if_found,
}

pub record Envelope : Type 0 where
  pub kind : String
  pub job_id : Option String
  pub idempotency_key : Option String
  -- `payload?.eventType`
  pub event_type : Option String
  pub content : Json

pub record Entry : Type 0 where
  pub key : String
  pub job_id : String
  pub envelope : Envelope

-- The entries, and what the file holds: nothing before the first write.
pub record Outbox : Type 0 where
  pub entries : List Entry
  pub file : Option (List Entry)

pub record Limits : Type 0 where
  pub max_count : ℕ
  pub max_entry_bytes : ℕ
  pub max_total_bytes : ℕ

-- `TERMINAL_TYPES.has(type)`
abbrev pub is_terminal_type : String → Bool
is_terminal_type t = str_eq t "execution.result" || str_eq t "execution.cancelled"

-- `terminalKey`, of an envelope with a job id
abbrev pub terminal_key : Envelope → String
terminal_key e = text_or e.idempotency_key (
    append_text (get_or_else e.job_id "undefined")
      (append_text ":" (append_text e.kind (append_text ":" (text_or e.event_type "")))))

abbrev pub has_entry_key : String → Entry → Bool
has_entry_key key item = str_eq item.key key

abbrev pub is_kept : Entry → Bool
is_kept item = not (str_eq item.key "") && is_terminal_type item.envelope.kind

-- `load`, where the file can be parsed
unfoldable pub load : Option (List Entry) → Outbox
load none = record { entries = []; file = none }
load (some saved) = record { entries = keep_if is_kept saved; file = some saved }

-- `persist`, and the return of the call that ends with it. An error of the file system is not told
-- from an `Error` of the outbox.
abbrev pub persist : {A : Type 0} → (writes : Bool) → A → Outbox → Outcome Outbox A
persist writes answer o =
    if writes
    then returns answer (record o { file = some o.entries })
    else throws (domain_error plain_error) o

abbrev pub new_entry : Envelope → Entry
new_entry e = record { key = terminal_key e; job_id = get_or_else e.job_id ""; envelope = e }

abbrev push_entry :
    (entry_bytes : Entry → ℕ) (encoded_bytes : List Entry → ℕ)
    → Limits
    → (writes : Bool) → Entry
    → Outbox
    → Outcome Outbox Entry
push_entry entry_bytes encoded_bytes limits writes entry o =
    if leb limits.max_count (length o.entries)
    then throws (domain_error plain_error) o
    else if ltb limits.max_entry_bytes (entry_bytes entry)
    then throws (domain_error plain_error) o
    else if ltb limits.max_total_bytes (encoded_bytes (o.entries ++ entry ∷ []))
    then throws (domain_error plain_error) o
    else persist writes entry (record o { entries = o.entries ++ entry ∷ [] })

-- `put`: the entry is pushed before the write, and stays when the write throws.
unfoldable pub put :
    (entry_bytes : Entry → ℕ) (encoded_bytes : List Entry → ℕ)
    → Limits
    → (writes : Bool) → Envelope
    → Outbox
    → Outcome Outbox Entry
put entry_bytes encoded_bytes limits writes e o =
    if not (is_terminal_type e.kind) || not (truthy e.job_id)
    then throws (domain_error plain_error) o
    else if_found (find_first (has_entry_key (terminal_key e)) o.entries)
        (push_entry entry_bytes encoded_bytes limits writes (new_entry e) o)
        (λ existing. returns existing o)

-- `acknowledge`
unfoldable pub acknowledge : (writes : Bool) → String → Outbox → Outcome Outbox Bool
acknowledge writes key o =
    let next = keep_if (λ item. not (has_entry_key key item)) o.entries in
    if length next == length o.entries
    then returns false o
    else persist writes true (record o { entries = next })

-- `hasJob`, `list`
abbrev pub has_job : String → Outbox → Bool
has_job job_id o = any (λ item. str_eq item.job_id job_id) o.entries

abbrev pub list : Outbox → List Entry
list o = o.entries
