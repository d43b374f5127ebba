-- ===== src/Native/Framing.antt =====
-- native-host/framing.js: the frames of messages, written and read. The payload is the bytes of the
-- JSON text; `JSON.parse` of the bytes' text is a parameter, `none` where it throws. The loop of
-- `push` takes four bytes at least in a turn that goes on, so that one more than the bytes in the
-- buffer is enough fuel. The callbacks are those of collectNativeMessages, which keep the messages
-- and the errors.
pub mod Laws
pub mod Bytes
pub mod RoundTrip
use web_action_recorder_exte.Common.{
  ℕ, zero, suc, ltb, ◌==◌, ◌+◌, ◌*◌, ◌/◌, ◌%◌, List, [], ◌∷◌, ◌++◌, length, is_empty, take, drop,
  if◌then◌else◌, Option, none, some,
}
use web_action_recorder_exte.Core.Errors.{Result, ok, err, domain_error, plain_error}

-- `DEFAULT_MAX_NATIVE_MESSAGE_BYTES`
abbrev pub default_max_native_message_bytes : ℕ
default_max_native_message_bytes = 1048576

-- `writeUInt32LE`
abbrev pub write_uint32_le : ℕ → List ℕ
write_uint32_le n = n % 256 ∷ n / 256 % 256 ∷ n / 65536 % 256 ∷ n / 16777216 % 256 ∷ []

-- `encodeNativeMessage`
unfoldable pub encode_native_message : (max_bytes : ℕ) → (payload : List ℕ) → Result (List ℕ)
encode_native_message max_bytes payload =
    if is_empty payload
    then err (domain_error plain_error)
    else if ltb max_bytes (length payload)
    then err (domain_error plain_error)
    else ok (write_uint32_le (length payload) ++ payload)

-- `readUInt32LE(0)`, of a buffer with four bytes at least.
abbrev pub read_uint32_le : List ℕ → ℕ
read_uint32_le (a ∷ b ∷ c ∷ d ∷ rest) = a + b * 256 + c * 65536 + d * 16777216
read_uint32_le _ = 0

pub data FrameError : Type 0 where
  zero_length exceeds_max_bytes invalid_json partial_frame : FrameError

pub record Framer (M : Type 0) : Type 0 where
  pub buffer : List ℕ
  pub messages : List M
  pub errors : List FrameError

-- What a turn of the loop does: `return` or the end of the loop, or another turn.
pub data Turn (M : Type 0) : Type 0 where
  stop go_on : Framer M → Turn M

module _ {M : Type 0} where
  abbrev pub with_buffer : Framer M → List ℕ → Framer M
  with_buffer f buffer = record { buffer = buffer; messages = f.messages; errors = f.errors }

  abbrev pub on_error : FrameError → Framer M → Framer M
  on_error e f = record { buffer = f.buffer; messages = f.messages; errors = f.errors ++ e ∷ [] }

  abbrev pub on_message : Option M → Framer M → Framer M
  on_message none f = on_error invalid_json f
  on_message (some m) f = record {
    buffer = f.buffer;
    messages = f.messages ++ m ∷ [];
    errors = f.errors;
  }

  abbrev pub after : Turn M → (Framer M → Framer M) → Framer M
  after (stop f) next = f
  after (go_on f) next = next f

  unfoldable pub end : Framer M → Framer M
  end f = if is_empty f.buffer then f else with_buffer (on_error partial_frame f) []

module _ {M : Type 0} (parse : List ℕ → Option M) (max_bytes : ℕ) where
  abbrev pub turn : Framer M → Turn M
  turn f =
      let len = read_uint32_le f.buffer in
      if ltb (length f.buffer) 4
      then stop f
      else if len == 0
      then go_on (on_error zero_length (with_buffer f (drop 4 f.buffer)))
      else if ltb max_bytes len
      then stop (on_error exceeds_max_bytes (with_buffer f []))
      else if ltb (length f.buffer) (4 + len)
      then stop f
      else go_on (
          on_message (parse (take len (drop 4 f.buffer))) (with_buffer f (drop (4 + len) f.buffer)))

  unfoldable pub drain : ℕ → Framer M → Framer M
  drain zero f = f
  drain (suc fuel) f = after (turn f) (drain fuel)

  unfoldable pub push : Framer M → List ℕ → Framer M
  unfolding drain
  push f chunk = drain (length (f.buffer ++ chunk) + 1) (with_buffer f (f.buffer ++ chunk))

  abbrev pub push_all : Framer M → List (List ℕ) → Framer M
  push_all f [] = f
  push_all f (chunk ∷ chunks) = push_all (push f chunk) chunks

  unfoldable pub collect_native_messages : List (List ℕ) → Framer M
  unfolding push end
  collect_native_messages chunks =
      end (push_all (record { buffer = []; messages = []; errors = [] }) chunks)
