-- ===== src/Extension/Graph.antt =====
-- src/graph.js: the links between the steps of a profile, its validation and the search for a
-- cycle. An id or a link is an optional text: `none` is a value that is missing. What `Array.isArray`
-- refuses counts as an empty list. The step types are those of src/shared.js. `visit` calls itself
-- at most once for each id of the steps on the way: that many calls and one are its fuel.
pub mod Links
pub mod Chains
pub mod CycleSearch
pub mod Laws
pub mod Validation
use web_action_recorder_exte.Common.{
  ℕ, zero, suc, String, Bool, true, false, not, ◌&&◌, ◌||◌, ◌+◌, List, [], ◌∷◌, ◌++◌, map, length,
  any, is_empty, if◌then◌else◌, Option, none, some, str_eq, opt_eq, truthy,
}

abbrev pub StepId : Type 0
StepId = Option String

pub record Step : Type 0 where
  pub id : StepId
  pub kind : Option String
  pub next : StepId
  pub if_steps : List StepId
  pub else_steps : List StepId
  -- the `next` of each condition, when there is a list of conditions
  pub conditions : Option (List StepId)

abbrev pub condition_links : Option (List StepId) → List StepId
condition_links none = []
condition_links (some links) = links

abbrev pub keep_truthy : List StepId → List StepId
keep_truthy [] = []
keep_truthy (i ∷ ids) = let rest = keep_truthy ids in if truthy i then i ∷ rest else rest

-- The links that are false as conditions are filtered out at the end.
unfoldable pub collect_outgoing_ids : Step → List StepId
collect_outgoing_ids step =
    keep_truthy
      ((step.next ∷ []) ++ step.if_steps ++ step.else_steps ++ condition_links step.conditions)

-- `has` of a set of ids.
abbrev pub has : List StepId → StepId → Bool
has ids id = any (λ x. opt_eq x id) ids

abbrev pub step_ids : List Step → List StepId
step_ids steps = map Step.id steps

abbrev pub outgoing_of_all : List Step → List StepId
outgoing_of_all [] = []
outgoing_of_all (step ∷ steps) = collect_outgoing_ids step ++ outgoing_of_all steps

abbrev pub keep_roots : List StepId → List Step → List StepId
keep_roots incoming [] = []
keep_roots incoming (step ∷ steps) =
    let rest = keep_roots incoming steps in
    if truthy step.id && not (has incoming step.id) then step.id ∷ rest else rest

abbrev pub keep_known : List StepId → List StepId → List StepId
keep_known known [] = []
keep_known known (i ∷ ids) =
    let rest = keep_known known ids in if has known i then i ∷ rest else rest

unfoldable pub find_root_step_ids : List Step → List StepId
unfolding collect_outgoing_ids
find_root_step_ids steps =
    keep_roots (keep_known (keep_truthy (step_ids steps)) (outgoing_of_all steps)) steps

-- `byId.get(id)`: the last of the steps with the id.
abbrev pub last_of : Option Step → Option Step → Option Step
last_of earlier none = earlier
last_of earlier (some later) = some later

unfoldable pub get_step : List Step → StepId → Option Step
get_step [] id = none
get_step (step ∷ steps) id =
    last_of (if opt_eq step.id id then some step else none) (get_step steps id)

abbrev pub outgoing_of : Option Step → List StepId
outgoing_of none = []
outgoing_of (some step) = collect_outgoing_ids step

-- The links of a step that the search follows: those with `byId.has(next)`.
unfoldable pub known_links : List Step → StepId → List StepId
unfolding collect_outgoing_ids get_step
known_links steps id = keep_known (step_ids steps) (outgoing_of (get_step steps id))

pub record Search : Type 0 where
  pub visiting : List StepId
  pub visited : List StepId
  pub stack : List StepId

pub data Visit : Type 0 where
  cycle : List StepId → Visit
  -- `null`
  clear : Search → Visit
  out_of_fuel : Visit

-- `stack.slice(stack.indexOf(id))`, for an id on the stack.
abbrev pub slice_from : StepId → List StepId → List StepId
slice_from id [] = []
slice_from id (x ∷ xs) = let rest = slice_from id xs in if opt_eq x id then x ∷ xs else rest

abbrev pub delete : StepId → List StepId → List StepId
delete id [] = []
delete id (x ∷ xs) = let rest = delete id xs in if opt_eq x id then rest else x ∷ rest

abbrev pub pop : List StepId → List StepId
pop [] = []
pop (x ∷ []) = []
pop (x ∷ y ∷ xs) = x ∷ pop (y ∷ xs)

abbrev pub enter : StepId → Search → Search
enter id s = record { visiting = id ∷ s.visiting; visited = s.visited; stack = s.stack ++ id ∷ [] }

abbrev pub leave : StepId → Visit → Visit
leave id (clear s) =
    clear
      (record { visiting = delete id s.visiting; visited = id ∷ s.visited; stack = pop s.stack })
leave id (cycle c) = cycle c
leave id out_of_fuel = out_of_fuel

abbrev pub then_visit : Visit → (Search → Visit) → Visit
then_visit (clear s) next = next s
then_visit (cycle c) next = cycle c
then_visit out_of_fuel next = out_of_fuel

-- One `visit` after another, until one returns a cycle.
unfoldable pub visit_all : (StepId → Search → Visit) → List StepId → Search → Visit
visit_all v [] s = clear s
visit_all v (id ∷ ids) s = then_visit (v id s) (visit_all v ids)

unfoldable pub visit : List Step → ℕ → StepId → Search → Visit
unfolding visit_all known_links
visit steps zero id s = out_of_fuel
visit steps (suc fuel) id s =
    if has s.visiting id
    then cycle (slice_from id s.stack ++ id ∷ [])
    else if has s.visited id
    then clear s
    else leave id (visit_all (visit steps fuel) (known_links steps id) (enter id s))

abbrev pub start : Search
start = record { visiting = []; visited = []; stack = [] }

unfoldable pub find_cycle : List Step → Visit
unfolding visit_all visit
find_cycle steps = visit_all (visit steps (length steps + 1)) (step_ids steps) start
