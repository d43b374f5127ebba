-- ===== src/Agent/Input.antt =====
-- platform/browser-agent/src/inputSafety.js: the limits and the checks of an operator's input. A
-- value is a JSON value, whose numbers are natural numbers. `validateShortcut` is left out.
use web_action_recorder_exte.Common.{
  ℕ, ◌≡◌, ◌≤◌, arith, ltb, ◌||◌, Bool, false, String, str_eq, Option, List, [], ◌∷◌, any,
  get_or_else, if◌then◌else◌, text_length,
}
use web_action_recorder_exte.Json.{Json, num, str, null, bool, arr, obj}
use web_action_recorder_exte.Core.Errors.{◌>>=◌, Result, ok, err, domain_error, plain_error, Error}

pub record InputLimits : Type 0 where
  pub input_max_queue : ℕ
  pub input_max_text_length : ℕ
  pub input_max_duration_ms : ℕ
  pub input_max_scroll_delta : ℕ
  pub semantic_default_timeout_ms : ℕ
  pub semantic_max_timeout_ms : ℕ
  pub screenshot_max_bytes : ℕ

-- `DEFAULT_LIMITS`
abbrev pub default_input_limits : InputLimits
default_input_limits = record {
  input_max_queue = 50;
  input_max_text_length = 4096;
  input_max_duration_ms = 5000;
  input_max_scroll_delta = 5000;
  semantic_default_timeout_ms = 5000;
  semantic_max_timeout_ms = 30000;
  screenshot_max_bytes = 5242880;
}

pub record InputConfig : Type 0 where
  pub input_max_queue : Option ℕ
  pub input_max_text_length : Option ℕ
  pub input_max_duration_ms : Option ℕ
  pub input_max_scroll_delta : Option ℕ
  pub semantic_default_timeout_ms : Option ℕ
  pub semantic_max_timeout_ms : Option ℕ
  pub screenshot_max_bytes : Option ℕ

-- `limitsFromConfig`
abbrev pub limits_from_config : InputConfig → InputLimits
limits_from_config config =
    let d = default_input_limits in
    record {
      input_max_queue = get_or_else config.input_max_queue d.input_max_queue;
      input_max_text_length = get_or_else config.input_max_text_length d.input_max_text_length;
      input_max_duration_ms = get_or_else config.input_max_duration_ms d.input_max_duration_ms;
      input_max_scroll_delta = get_or_else config.input_max_scroll_delta d.input_max_scroll_delta;
      semantic_default_timeout_ms =
          get_or_else config.semantic_default_timeout_ms d.semantic_default_timeout_ms;
      semantic_max_timeout_ms =
          get_or_else config.semantic_max_timeout_ms d.semantic_max_timeout_ms;
      screenshot_max_bytes = get_or_else config.screenshot_max_bytes d.screenshot_max_bytes;
    }

-- `AgentError('invalid_payload', …)`
abbrev pub invalid_payload : Error
invalid_payload = domain_error plain_error

-- `requireObject`, `requireFiniteNumber`
abbrev pub require_object : Json → Result Json
require_object (obj fs) = ok (obj fs)
require_object _ = err invalid_payload

abbrev pub require_finite_number : Json → Result ℕ
require_finite_number (num n) = ok n
require_finite_number _ = err invalid_payload

-- `requireInteger`
unfoldable pub require_integer : Json → (low high : ℕ) → Result ℕ
require_integer (num n) low high = if ltb n low || ltb high n then err invalid_payload else ok n
require_integer _ low high = err invalid_payload

-- `requireString`
unfoldable pub require_string : Json → (low high : ℕ) → Result String
require_string (str s) low high =
    if ltb (text_length s) low || ltb high (text_length s) then err invalid_payload else ok s
require_string _ low high = err invalid_payload

-- `validateTimeoutMs`; an absent value stands for `undefined`.
unfoldable pub validate_timeout_ms : Option Json → InputLimits → Result ℕ
unfolding require_integer
validate_timeout_ms value limits =
    require_integer (get_or_else value (num limits.semantic_default_timeout_ms)) 100
      limits.semantic_max_timeout_ms

abbrev pub is_listed : List String → Json → Bool
is_listed xs (str s) = any (λ x. str_eq x s) xs
is_listed xs _ = false

-- `MOUSE_BUTTONS`
abbrev pub mouse_buttons : List String
mouse_buttons = "left" ∷ "right" ∷ "middle" ∷ []

-- `validateButton`
unfoldable pub validate_button : Option Json → Result Json
validate_button value =
    let button = get_or_else value (str "left") in
    if is_listed mouse_buttons button then ok button else err invalid_payload

-- `validateClickCount`
unfoldable pub validate_click_count : Option Json → Result ℕ
unfolding require_integer
validate_click_count value = require_integer (get_or_else value (num 1)) 1 3

require_integer-bounds :
    (v : Json) (low high : ℕ) {n : ℕ} → require_integer v low high ≡ ok n → (low ≤ n) × (n ≤ high)
unfolding require_integer
require_integer-bounds null low high h = absurd (cc)
require_integer-bounds (bool b) low high h = absurd (cc)
require_integer-bounds (num k) low high h = ground arith
require_integer-bounds (str s) low high h = absurd (cc)
require_integer-bounds (arr xs) low high h = absurd (cc)
require_integer-bounds (obj fs) low high h = absurd (cc)

-- Every timeout that is accepted is between a tenth of a second and the configured maximum, every
-- click count between one and three, the defaults that stand for absent values included.
pub validate_timeout_ms-bounds :
    (value clicks : Option Json) (limits : InputLimits) {n k : ℕ}
    → validate_timeout_ms value limits ≡ ok n
    → validate_click_count clicks ≡ ok k
    → (100 ≤ n) × (n ≤ limits.semantic_max_timeout_ms) × (1 ≤ k) × (k ≤ 3)
unfolding validate_timeout_ms validate_click_count
validate_timeout_ms-bounds value clicks limits h g =
    let a =
      require_integer-bounds (get_or_else value (num limits.semantic_default_timeout_ms)) 100
        limits.semantic_max_timeout_ms h in
    let b = require_integer-bounds (get_or_else clicks (num 1)) 1 3 g in (a.0, a.1, b.0, b.1)

-- `KEY_ALLOWLIST`
abbrev pub key_allowlist : List String
key_allowlist =
    "a" ∷ "b" ∷ "c" ∷ "d" ∷ "e" ∷ "f" ∷ "g" ∷ "h" ∷ "i" ∷ "j" ∷ "k" ∷ "l" ∷ "m" ∷ "n" ∷ "o" ∷ "p"
    ∷ "q" ∷ "r" ∷ "s" ∷ "t" ∷ "u" ∷ "v" ∷ "w" ∷ "x" ∷ "y" ∷ "z" ∷ "A" ∷ "B" ∷ "C" ∷ "D" ∷ "E" ∷ "F"
    ∷ "G" ∷ "H" ∷ "I" ∷ "J" ∷ "K" ∷ "L" ∷ "M" ∷ "N" ∷ "O" ∷ "P" ∷ "Q" ∷ "R" ∷ "S" ∷ "T" ∷ "U" ∷ "V"
    ∷ "W" ∷ "X" ∷ "Y" ∷ "Z" ∷ "0" ∷ "1" ∷ "2" ∷ "3" ∷ "4" ∷ "5" ∷ "6" ∷ "7" ∷ "8" ∷ "9"
    ∷ "Backspace" ∷ "Tab" ∷ "Enter" ∷ "Escape" ∷ "Space" ∷ "Delete" ∷ "Insert" ∷ "Home" ∷ "End"
    ∷ "PageUp" ∷ "PageDown" ∷ "ArrowUp" ∷ "ArrowDown" ∷ "ArrowLeft" ∷ "ArrowRight" ∷ "Shift"
    ∷ "Control" ∷ "Alt" ∷ "Meta" ∷ "F1" ∷ "F2" ∷ "F3" ∷ "F4" ∷ "F5" ∷ "F6" ∷ "F7" ∷ "F8" ∷ "F9"
    ∷ "F10" ∷ "F11" ∷ "F12" ∷ []

-- `validateKey`
unfoldable pub validate_key : Json → Result String
unfolding require_string
validate_key value = require_string value 1 32 >>= λ key.
    if is_listed key_allowlist (str key) then ok key else err invalid_payload
