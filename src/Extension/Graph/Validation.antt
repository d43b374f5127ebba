-- ===== src/Extension/Graph/Validation.antt =====
-- src/graph.js: validateGraph, on an array of steps that are objects. The messages are values that
-- carry what the texts mention; the step types are those of STEP_TYPES in src/shared.js.
pub mod Laws
use web_action_recorder_exte.Common.{
  ℕ, suc, String, Bool, true, false, not, ◌&&◌, ◌||◌, ◌+◌, List, [], ◌∷◌, ◌++◌, map, length, any,
  is_empty, if◌then◌else◌, Option, none, some, str_eq, truthy, text_or,
}
use web_action_recorder_exte.Extension.Graph.{
  StepId, Step, has, step_ids, collect_outgoing_ids, find_root_step_ids, find_cycle, Visit, cycle,
  clear, out_of_fuel,
}

pub data GraphError : Type 0 where
  -- the position of the step, from 1
  step_without_id : ℕ → GraphError
  duplicate_step_id : StepId → GraphError
  unsupported_step_type : Option String → GraphError
  dangling_link : StepId → StepId → GraphError
  no_root_step : GraphError
  cycle_detected : List StepId → GraphError

abbrev pub step_types : List String
step_types =
    "click" ∷ "type" ∷ "shortcut" ∷ "navigate" ∷ "switchTab" ∷ "log" ∷ "condition" ∷ "OR" ∷ "AND"
    ∷ "IFS" ∷ []

-- `STEP_TYPES.has(step.type || 'click')`
unfoldable pub is_step_type : Option String → Bool
is_step_type kind = any (λ t. str_eq t (text_or kind "click")) step_types

abbrev pub error_if : Bool → GraphError → List GraphError
error_if b e = if b then e ∷ [] else []

abbrev pub add_id : List StepId → StepId → List StepId
add_id ids id = if truthy id then id ∷ ids else ids

unfoldable pub step_errors : ℕ → List StepId → List Step → List GraphError
step_errors index ids [] = []
step_errors index ids (s ∷ steps) =
    error_if (not (truthy s.id)) (step_without_id (index + 1))
    ++ (error_if (truthy s.id && has ids s.id) (duplicate_step_id s.id)
        ++ (error_if (not (is_step_type s.kind)) (unsupported_step_type s.kind)
            ++ step_errors (index + 1) (add_id ids s.id) steps))

-- The ids of `ids` at the end of the loop.
abbrev pub true_ids : List Step → List StepId
true_ids [] = []
true_ids (s ∷ steps) = add_id (true_ids steps) s.id

abbrev pub dangling : List StepId → StepId → List StepId → List GraphError
dangling ids from [] = []
dangling ids from (to ∷ links) =
    error_if (not (has ids to)) (dangling_link from to) ++ dangling ids from links

unfoldable pub link_errors : List StepId → List Step → List GraphError
unfolding collect_outgoing_ids
link_errors ids [] = []
link_errors ids (s ∷ steps) = dangling ids s.id (collect_outgoing_ids s) ++ link_errors ids steps

abbrev pub cycle_errors : Visit → List GraphError
cycle_errors (cycle ids) = cycle_detected ids ∷ []
cycle_errors (clear s) = []
cycle_errors out_of_fuel = []

pub record Report : Type 0 where
  pub ok : Bool
  pub errors : List GraphError
  pub roots : List StepId

unfoldable pub graph_errors : List Step → List GraphError
unfolding step_errors link_errors find_root_step_ids find_cycle
graph_errors steps =
    step_errors 0 [] steps
    ++ (link_errors (true_ids steps) steps
        ++ (error_if (not (is_empty steps) && is_empty (find_root_step_ids steps)) no_root_step
            ++ cycle_errors (find_cycle steps)))

unfoldable pub validate_graph : List Step → Report
unfolding graph_errors find_root_step_ids
validate_graph steps = record {
  ok = is_empty (graph_errors steps);
  errors = graph_errors steps;
  roots = find_root_step_ids steps;
}
