-- ===== src/Tests/Extension.antt =====
-- Instances of the theorems on src/graph.js, src/native-bridge.js and native-host/framing.js.
use web_action_recorder_exte.Common.{
  ℕ, String, true, List, [], ◌∷◌, length, Option, none, some, ◌≡◌, ◌≢◌, ◌↔◌, refl, arith, All, ◌≤◌,
  ◌<◌, ◌+◌,
}
use web_action_recorder_exte.Json.{null}
use web_action_recorder_exte.Core.Errors.{ok}
use web_action_recorder_exte.Extension.Graph.{
  StepId, Step, cycle, out_of_fuel, find_cycle, visit_all, visit, known_links, get_step,
  collect_outgoing_ids,
}
use web_action_recorder_exte.Extension.Graph.Chains.{IsCycle}
use web_action_recorder_exte.Extension.Graph.Laws.{find_cycle-ends, find_cycle_iff}
use web_action_recorder_exte.Extension.Graph.Validation.{validate_graph}
use web_action_recorder_exte.Extension.Graph.Validation.Laws.{IsValid, validate_graph-IsValid}
use web_action_recorder_exte.Extension.NativeBridge.{
  Action, disconnects, makes_request, gets_message, new_client, run, pending_size,
}
use web_action_recorder_exte.Extension.NativeBridge.Settling.{fire_first, fire_first-settles}
use web_action_recorder_exte.Extension.NativeBridge.Capacity.{run-le-max_pending}
use web_action_recorder_exte.Native.Framing.{
  Framer, push, encode_native_message, collect_native_messages,
}
use web_action_recorder_exte.Native.Framing.Laws.{Waits, push-Waits}
use web_action_recorder_exte.Native.Framing.RoundTrip.{collect_native_messages-encode}

abbrev step : String → Option String → Step
step id next = record {
  id = some id;
  kind = none;
  next = next;
  if_steps = [];
  else_steps = [];
  conditions = none;
}

-- `a` links to `b`, and `b` back to `a`.
abbrev loop : List Step
loop = step "a" (some "b") ∷ step "b" (some "a") ∷ []

loop_found : find_cycle loop ≡ cycle (some "a" ∷ some "b" ∷ some "a" ∷ [])
unfolding find_cycle visit_all visit known_links get_step collect_outgoing_ids
loop_found = refl

find_cycle-ends_example : find_cycle loop ≢ out_of_fuel
find_cycle-ends_example = find_cycle-ends loop

find_cycle_iff_example :
    ((c : List StepId) × (find_cycle loop ≡ cycle c)) ↔ ((c : List StepId) × IsCycle loop c)
find_cycle_iff_example = find_cycle_iff loop

abbrev line : List Step
line = step "a" (some "b") ∷ step "b" none ∷ []

validate_graph-IsValid_example : ((validate_graph line).ok ≡ true) ↔ IsValid line
validate_graph-IsValid_example = validate_graph-IsValid line

-- Two requests under one id, of which the second is answered, and a third that is cut off.
abbrev history : List Action
history =
    makes_request "x" true
    ∷ makes_request "x" true
    ∷ gets_message none (some "x") null
    ∷ makes_request "y" true
    ∷ disconnects
    ∷ []

fire_first-settles_example :
    All
      (λ r. length r.settlements ≡ 1)
      (fire_first
        (length (run 64 history new_client).requests)
        (run 64 history new_client)).requests
fire_first-settles_example = fire_first-settles 64 history

run-le-max_pending_example : pending_size (run 1 history new_client).requests ≤ 1
run-le-max_pending_example = run-le-max_pending 1 history new_client (omega arith)

abbrev keep_bytes : List ℕ → Option (List ℕ)
keep_bytes bytes = some bytes

abbrev idle : Framer (List ℕ)
idle = record { buffer = []; messages = []; errors = [] }

push-Waits_example :
    Waits keep_bytes 8 (push keep_bytes 8 idle (3 ∷ 0 ∷ 0 ∷ 0 ∷ 65 ∷ [])).buffer
    × (length (push keep_bytes 8 idle (3 ∷ 0 ∷ 0 ∷ 0 ∷ 65 ∷ [])).buffer < 4 + 8)
push-Waits_example = push-Waits keep_bytes 8 idle (3 ∷ 0 ∷ 0 ∷ 0 ∷ 65 ∷ [])

abbrev payloads : List (List ℕ)
payloads = (65 ∷ 66 ∷ []) ∷ (67 ∷ []) ∷ []

abbrev sent : List (List ℕ)
sent = (2 ∷ 0 ∷ 0 ∷ 0 ∷ 65 ∷ 66 ∷ []) ∷ (1 ∷ 0 ∷ 0 ∷ 0 ∷ 67 ∷ []) ∷ []

-- The same bytes, cut inside the first header and the second frame.
abbrev chunks : List (List ℕ)
chunks = (2 ∷ 0 ∷ []) ∷ (0 ∷ 0 ∷ 65 ∷ 66 ∷ 1 ∷ []) ∷ (0 ∷ 0 ∷ 0 ∷ 67 ∷ []) ∷ []

encoded :
    (encode_native_message 8 (65 ∷ 66 ∷ []) ≡ ok (2 ∷ 0 ∷ 0 ∷ 0 ∷ 65 ∷ 66 ∷ []))
    × ((encode_native_message 8 (67 ∷ []) ≡ ok (1 ∷ 0 ∷ 0 ∷ 0 ∷ 67 ∷ [])) × Unit {0})
unfolding encode_native_message
encoded = (refl, (refl, tt))

collect_native_messages-encode_example :
    collect_native_messages keep_bytes 8 chunks
    ≡ record { buffer = []; messages = payloads; errors = [] }
collect_native_messages-encode_example =
    collect_native_messages-encode keep_bytes 8 payloads sent chunks payloads encoded (omega arith)
      refl refl
