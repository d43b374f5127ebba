-- ===== src/Extension/Graph/Links.antt =====
-- src/graph.js: applyLinksToSteps. The port of a link is read already: a text `cond-…` is the index
-- that it names, or none. A condition is its link to the next step.
use web_action_recorder_exte.Common.{
  ℕ, not, ◌||◌, List, [], ◌∷◌, ◌++◌, map, set, if◌then◌else◌, Option, none, some, opt_eq, ◌≡◌, refl,
  ap, ◌∙◌, Bool-cases, inl, inr,
}
use web_action_recorder_exte.Extension.Graph.{StepId, Step, has, step_ids}

pub data Port : Type 0 where
  out if_out else_out other_port : Port
  condition : Option ℕ → Port

pub record Link : Type 0 where
  pub from : StepId
  pub to : StepId
  pub from_port : Port

abbrev pub clear_conditions : Option (List StepId) → Option (List StepId)
clear_conditions none = none
clear_conditions (some links) = some (map (λ l. none) links)

abbrev pub clear_links : Step → Step
clear_links step = record step {
  next = none;
  if_steps = [];
  else_steps = [];
  conditions = clear_conditions step.conditions;
}

abbrev pub set_condition : Option ℕ → StepId → Option (List StepId) → Option (List StepId)
set_condition (some index) to (some links) = some (set links index to)
set_condition index to conditions = conditions

abbrev pub add_link : Port → StepId → Step → Step
add_link out to step = record step { next = to }
add_link if_out to step = record step { if_steps = step.if_steps ++ to ∷ [] }
add_link else_out to step = record step { else_steps = step.else_steps ++ to ∷ [] }
add_link (condition index) to step = record step {
  conditions = set_condition index to step.conditions;
}
add_link other_port to step = step

-- `nextById.get(id)`, changed where it stands: the last step with the id.
abbrev pub change_last : StepId → (Step → Step) → List Step → List Step
change_last id f [] = []
change_last id f (step ∷ steps) =
    let rest = change_last id f steps in
    if has (step_ids steps) id
    then step ∷ rest
    else if opt_eq step.id id
    then f step ∷ steps
    else step ∷ steps

abbrev pub apply_link : List Step → Link → List Step → List Step
apply_link known link steps =
    if not (has (step_ids known) link.from) || not (has (step_ids known) link.to)
    then steps
    else change_last link.from (add_link link.from_port link.to) steps

abbrev pub apply_all : List Step → List Link → List Step → List Step
apply_all known [] steps = steps
apply_all known (link ∷ links) steps = apply_all known links (apply_link known link steps)

-- `applyLinksToSteps`
unfoldable pub apply_links_to_steps : List Step → List Link → List Step
apply_links_to_steps steps links = apply_all steps links (map clear_links steps)

id-add_link : (p : Port) (to : StepId) (step : Step) → (add_link p to step).id ≡ step.id
id-add_link out to step = refl
id-add_link if_out to step = refl
id-add_link else_out to step = refl
id-add_link other_port to step = refl
id-add_link (condition index) to step = refl

step_ids-change_last :
    (id : StepId) (p : Port) (to : StepId) (steps : List Step)
    → step_ids (change_last id (add_link p to) steps) ≡ step_ids steps
step_ids-change_last id p to [] = refl
step_ids-change_last id p to (step ∷ steps) = elim (Bool-cases (has (step_ids steps) id)) [
  | inl e ↦ rw e (ap (λ ids. step.id ∷ ids) (step_ids-change_last id p to steps))
  | inr e ↦ elim (Bool-cases (opt_eq step.id id)) [
    | inl e' ↦ rw (e, e') (ap (λ i. i ∷ step_ids steps) (id-add_link p to step))
    | inr e' ↦ rw (e, e') refl
  ]
]

step_ids-apply_all :
    (known : List Step) (links : List Link) (steps : List Step)
    → step_ids (apply_all known links steps) ≡ step_ids steps
step_ids-apply_all known [] steps = refl
step_ids-apply_all known (link ∷ links) steps =
    step_ids-apply_all known links (apply_link known link steps)
    ∙ elim (Bool-cases
        (not (has (step_ids known) link.from) || not (has (step_ids known) link.to))) [
          | inl e ↦ rw e refl
          | inr e ↦ rw e (step_ids-change_last link.from link.from_port link.to steps)
        ]

step_ids-clear : (steps : List Step) → step_ids (map clear_links steps) ≡ step_ids steps
step_ids-clear [] = refl
step_ids-clear (step ∷ steps) = ap (λ ids. step.id ∷ ids) (step_ids-clear steps)

-- Whatever the links are, the steps stay the same by their ids and their order.
pub step_ids-apply_links_to_steps :
    (steps : List Step) (links : List Link)
    → step_ids (apply_links_to_steps steps links) ≡ step_ids steps
unfolding apply_links_to_steps
step_ids-apply_links_to_steps steps links =
    step_ids-apply_all steps links (map clear_links steps) ∙ step_ids-clear steps
