-- ===== src/Core/Dataset.antt =====
-- platform/controller-core/src/datasetAssignment.js: which record of a dataset each device gets.
-- A record is a JSON object; a device is read by its id and its name.
pub mod Shuffle
pub mod Assign
use Prim.Native.Char.{code}
use web_action_recorder_exte.Common.{
  ℕ, zero, suc, ◌+◌, ◌-◌, ◌*◌, ◌/◌, ◌%◌, ◌^◌, ◌≡◌, String, Bool, true, false, not, ◌&&◌, ◌||◌, ltb,
  leb, ◌==◌, str_eq, if◌then◌else◌, Option, none, some, List, [], ◌∷◌, map, length, get_elem?, set,
  find_first, get_or_else,
}
use web_action_recorder_exte.Json.{Json, str, Fields, end, lookup_field}
use web_action_recorder_exte.Json.Pattern.{codes}
use web_action_recorder_exte.Core.Errors.{Result, ok, err, domain_error, plain_error}
use web_action_recorder_exte.Core.State.{Device}

abbrev pub u32_mod : ℕ
u32_mod = 2 ^ 32

-- `charCodeAt(0)` of one code point: a high surrogate outside the basic plane.
abbrev char_code : ℕ → ℕ
char_code c = if ltb c 0x10000 then c else 0xD800 + (c - 0x10000) / 0x400

-- `((hash << 5) - hash + code) >>> 0`
abbrev hash_step : ℕ → ℕ → ℕ
hash_step hash c = ((hash * 32) % u32_mod + u32_mod - hash + c) % u32_mod

hash_from : ℕ → List ℕ → ℕ
hash_from hash [] = hash
hash_from hash (c ∷ text) = hash_from (hash_step hash (char_code c)) text

-- `hashSeed`
unfoldable pub hash_seed : String → ℕ
unfolding hash_from
hash_seed seed = hash_from 2166136261 (codes seed)

-- `[next[i], next[j]] = [next[j], next[i]]`
unfoldable pub swap {ℓ} : {A : Type ℓ} → List A → ℕ → ℕ → List A
swap xs i j = elim (get_elem? xs i) [
  | none ↦ xs
  | some a ↦ elim (get_elem? xs j) [ none ↦ xs | some b ↦ set (set xs i b) j a ]
]

-- `state = (state * 1664525 + 1013904223) >>> 0`; the product stays below 2 ^ 53.
abbrev pub next_state : ℕ → ℕ
next_state state = (state * 1664525 + 1013904223) % u32_mod

-- The loop of `seededShuffle`, from index i down to 1.
unfoldable pub shuffle_loop {ℓ} : {A : Type ℓ} → ℕ → ℕ → List A → List A
unfolding swap
shuffle_loop zero state xs = xs
shuffle_loop (suc i) state xs =
    shuffle_loop i (next_state state) (swap xs (suc i) (next_state state % (suc i + 1)))

unfoldable pub seeded_shuffle {ℓ} : {A : Type ℓ} → String → List A → List A
unfolding shuffle_loop hash_seed
seeded_shuffle seed records = shuffle_loop (length records - 1) (hash_seed seed) records

-- The loop of `randomShuffle`; `draw i` is `Math.floor(random() * (i + 1))`.
unfoldable pub random_loop {ℓ} : {A : Type ℓ} → (ℕ → ℕ) → ℕ → List A → List A
unfolding swap
random_loop draw zero xs = xs
random_loop draw (suc i) xs = random_loop draw i (swap xs (suc i) (draw (suc i)))

unfoldable pub random_shuffle {ℓ} : {A : Type ℓ} → (ℕ → ℕ) → List A → List A
unfolding random_loop
random_shuffle draw records = random_loop draw (length records - 1) records

-- `normalizeRecords`
abbrev pub normalize_records : List Fields → Fields → List Fields
normalize_records [] inputs = inputs ∷ []
normalize_records (r ∷ rs) inputs = r ∷ rs

-- `record.key === text`
abbrev is_text : String → Option Json → Bool
is_text text (some (str s)) = str_eq s text
is_text text _ = false

abbrev field_is : String → String → Fields → Bool
field_is key text r = is_text text (lookup_field key r)

abbrev is_for_device : Device → Fields → Bool
is_for_device d r = field_is "deviceId" d.id r || field_is "deviceName" d.name r

abbrev is_mapped_to : Device → Fields → Bool
is_mapped_to d r = field_is "deviceKey" d.id r || field_is "deviceKey" d.name r

-- `pickRecord`
unfoldable pub pick_record : List Fields → List Fields → Device → ℕ → String → Bool → Fields
pick_record records shuffled device index mode allow_duplicate =
    if str_eq mode "per_device"
    then get_or_else (find_first (is_for_device device) records) end
    else if str_eq mode "mapping"
    then get_or_else (find_first (is_mapped_to device) records) end
    else if str_eq mode "random_pool"
    then get_or_else
        (get_elem? shuffled (if allow_duplicate then index % length shuffled else index)) end
    else get_or_else (get_elem? records 0) end

pub record Assignment : Type 0 where
  pub device_id : String
  pub inputs : Fields

assign_from : List Fields → List Fields → String → Bool → ℕ → List Device → List Assignment
unfolding pick_record
assign_from records shuffled mode allow_duplicate index [] = []
assign_from records shuffled mode allow_duplicate index (d ∷ ds) =
    record { device_id = d.id; inputs = pick_record records shuffled d index mode allow_duplicate }
    ∷ assign_from records shuffled mode allow_duplicate (suc index) ds

-- `random`, where a caller gives it, or else the seed.
pub data Order : Type 0 where
  seeded : String → Order
  drawn : (ℕ → ℕ) → Order

abbrev pub shuffle_by {ℓ} : {A : Type ℓ} → Order → List A → List A
shuffle_by (seeded seed) xs = seeded_shuffle seed xs
shuffle_by (drawn draw) xs = random_shuffle draw xs

pub record AssignmentRequest : Type 0 where
  pub devices : List Device
  pub inputs : Fields
  pub dataset : List Fields
  pub assignment_mode : String
  pub allow_duplicate : Bool
  pub order : Order

-- `buildDatasetAssignments`
unfoldable pub build_dataset_assignments : AssignmentRequest → Result (List Assignment)
unfolding assign_from seeded_shuffle random_shuffle
build_dataset_assignments r =
    let records = normalize_records r.dataset r.inputs in
    if str_eq r.assignment_mode "random_pool"
      && not r.allow_duplicate
      && ltb (length records) (length r.devices)
    then err (domain_error plain_error)
    else ok (
        assign_from records (shuffle_by r.order records) r.assignment_mode r.allow_duplicate 0
          r.devices)
