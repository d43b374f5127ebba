-- ===== src/Agent/Stop.antt =====
-- platform/browser-agent/src/emergencyStop.js: the signals that an emergency stop aborts. A signal
-- is named by a number; the listeners, which are called after the abort, are left out.
use web_action_recorder_exte.Common.{
  ℕ, Bool, not, String, str_eq, Option, some, List, [], ◌∷◌, ◌++◌, any, map, keep_if, update_first,
  is_empty, if◌then◌else◌,
}

pub record Scope : Type 0 where
  pub name : String
  pub signals : List ℕ

pub record Stop : Type 0 where
  pub controllers : List Scope
  pub aborted : List ℕ
  pub stopped_at : Option ℕ

abbrev is_scope : String → Scope → Bool
is_scope name s = str_eq s.name name

abbrev add_signal : ℕ → Scope → Scope
add_signal signal s = record s { signals = s.signals ++ signal ∷ [] }

-- `createSignal`
unfoldable pub create_signal : String → ℕ → Stop → Stop
create_signal name signal e = record e {
  controllers =
      if any (is_scope name) e.controllers
      then update_first (is_scope name) (add_signal signal) e.controllers
      else e.controllers ++ record { name = name; signals = signal ∷ [] } ∷ [];
}

abbrev all_signals : List Scope → List ℕ
all_signals [] = []
all_signals (s ∷ ss) = s.signals ++ all_signals ss

abbrev emptied : Scope → Scope
emptied s = record s { signals = [] }

-- `stopAll`
unfoldable pub stop_all : ℕ → Stop → Stop
stop_all now e = record {
  controllers = map emptied e.controllers;
  aborted = e.aborted ++ all_signals e.controllers;
  stopped_at = some now;
}

-- `getState`
abbrev pub tracked_scopes : Stop → List String
tracked_scopes e = map (λ s. s.name) (keep_if (λ s. not (is_empty s.signals)) e.controllers)
