-- ===== src/Core/Jobs/Runs.antt =====
-- What holds of the commands over any history of the job service's calls.
use web_action_recorder_exte.Common.{ℕ, ◌≡◌, ◌≤◌, true, some, List, All, get_elem?, get_elem?-Grows}
use web_action_recorder_exte.Core.State.{State, Command}
use web_action_recorder_exte.Core.Transitions.{companion_to_unified, is_terminal}
use web_action_recorder_exte.Core.Jobs.Evolution.{Evolves, IsSound}
use web_action_recorder_exte.Core.Jobs.History.{Readings, Call, run}
use web_action_recorder_exte.Core.Jobs.Planning.{run-Preserves}

-- Whatever calls of the job service are made, in whatever order and with whatever arguments, a
-- command in a terminal status stays in it, at its place in the store, with its id, its device and
-- no fewer attempts.
pub run-terminal :
    (calls : List (Readings × Call)) (s : State) (i : ℕ) {c : Command}
    → get_elem? s.commands i ≡ some c
    → is_terminal (companion_to_unified c.status) ≡ true
    → (d : Command) × (get_elem? (run calls s).commands i ≡ some d)
      × (c.id ≡ d.id)
      × (c.device_id ≡ d.device_id)
      × (c.attempt ≤ d.attempt)
      × (companion_to_unified d.status ≡ companion_to_unified c.status)
run-terminal calls s i h t =
    let (d, e, v) =
      get_elem?-Grows Evolves s.commands (run calls s).commands i (run-Preserves calls s).grows h in
    (d, e, v.id_kept, v.device_kept, v.attempt_grows, v.final t)

-- Whatever calls of the job service are made, in whatever order and with whatever arguments: if all
-- commands are sound at the start, they all are at the end, the new ones too. A command is sound
-- when its attempts are within its limit, with one to spare while it is queued, and its lease has
-- an end while an agent has it.
pub run-IsSound :
    (calls : List (Readings × Call)) (s : State)
    → All IsSound s.commands
    → All IsSound (run calls s).commands
run-IsSound calls s h = (run-Preserves calls s).sound h
