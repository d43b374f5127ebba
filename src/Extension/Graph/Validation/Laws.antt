-- ===== src/Extension/Graph/Validation/Laws.antt =====
-- src/graph.js: the graphs that validateGraph accepts.
use mathlib.Core.Path.{subst}
use web_action_recorder_exte.Common.{
  ℕ, Bool, true, false, not, ◌&&◌, ◌+◌, List, [], ◌∷◌, ◌++◌, is_empty, if◌then◌else◌, truthy,
  opt_eq, All, All-universal, ◌≡◌, ◌≢◌, refl, arith, ap, sym, ◌∙◌, Bool-cases, inl, inr, ◌↔◌,
}
use web_action_recorder_exte.Extension.Graph.{
  StepId, Step, has, step_ids, collect_outgoing_ids, find_root_step_ids, find_cycle, cycle, clear,
}
use web_action_recorder_exte.Extension.Graph.Validation.{
  GraphError, step_without_id, duplicate_step_id, unsupported_step_type, dangling_link,
  no_root_step, is_step_type, error_if, add_id, step_errors, true_ids, dangling, link_errors,
  cycle_errors, graph_errors, validate_graph,
}
use web_action_recorder_exte.Extension.Graph.Chains.{IsCycle, opt_eq_sound, opt_eq_refl}
use web_action_recorder_exte.Extension.Graph.Laws.{
  Visit-cases, find_cycle_iff, find_cycle-ends, IsCycle-find_cycle,
}

-- A step with an id, which no earlier id is, of a type that is supported.
abbrev pub IsGood : Step → Type 0
IsGood s = (truthy s.id ≡ true) × (is_step_type s.kind ≡ true)

abbrev pub HasDistinctIds : List Step → Type 0
HasDistinctIds [] = Unit
HasDistinctIds (s ∷ steps) = All (λ t. t.id ≢ s.id) steps × HasDistinctIds steps

-- Every link leads to a step.
abbrev pub LinksKnown : List Step → Type 0
LinksKnown steps =
    All (λ s. All (λ to. has (step_ids steps) to ≡ true) (collect_outgoing_ids s)) steps

error_if-empty :
    (b : Bool) (e : GraphError) (rest : List GraphError)
    → (is_empty (error_if b e ++ rest) ≡ true) ↔ ((b ≡ false) × (is_empty rest ≡ true))
error_if-empty b e rest = ground arith

is_empty-append :
    (xs ys : List GraphError)
    → (is_empty (xs ++ ys) ≡ true) ↔ ((is_empty xs ≡ true) × (is_empty ys ≡ true))
is_empty-append [] ys = ground arith
is_empty-append (x ∷ xs) ys = ground arith

-- No id is one of these.
abbrev Without : List StepId → List Step → Type 0
Without ids steps = All (λ s. has ids s.id ≡ false) steps

other_id : (id t : StepId) → (opt_eq id t ≡ false) ↔ (t ≢ id)
other_id id t = (
  λ h e. let same : opt_eq id t ≡ true = rw e (opt_eq_refl id) in absurd (ground arith),
  λ h. elim (Bool-cases (opt_eq id t)) [
    | inl e ↦ absurd (h (sym (opt_eq_sound id t e)))
    | inr e ↦ e
  ],
)

Without-more :
    (id : StepId) (ids : List StepId) (steps : List Step)
    → Without (id ∷ ids) steps ↔ (All (λ t. t.id ≢ id) steps × Without ids steps)
Without-more id ids [] = (λ h. (tt, tt), λ h. tt)
Without-more id ids (t ∷ steps) =
    let rest = Without-more id ids steps in
    (
      λ h.
          let more = rest.0 (h.1) in
          (((other_id id t.id).0 (ground arith), more.0), (ground arith, more.1)),
      λ h. (ground (arith, (other_id id t.id).1 (h.0.0), h.1.0), rest.1 (h.0.1, h.1.1)),
    )

step_errors_iff :
    (index : ℕ) (ids : List StepId) (steps : List Step)
    → (is_empty (step_errors index ids steps) ≡ true)
      ↔ (All IsGood steps × HasDistinctIds steps × Without ids steps)
unfolding step_errors
step_errors_iff index ids [] = (λ h. (tt, tt, tt), λ h. refl)
step_errors_iff index ids (s ∷ steps) =
    let later = step_errors (index + 1) (add_id ids s.id) steps in
    let third = error_if-empty (not (is_step_type s.kind)) (unsupported_step_type s.kind) later in
    let second =
      error_if-empty (truthy s.id && has ids s.id) (duplicate_step_id s.id)
        (error_if (not (is_step_type s.kind)) (unsupported_step_type s.kind) ++ later) in
    let first = error_if-empty (not (truthy s.id)) (step_without_id (index + 1)) _ in
    let rest = step_errors_iff (index + 1) (add_id ids s.id) steps in
    (
      λ h.
          let a = first.0 h in
          let b = second.0 (a.1) in
          let c = third.0 (b.1) in
          let t : truthy s.id ≡ true = ground (arith, a.0) in
          let more = rest.0 (c.1) in
          let w =
            (Without-more s.id ids steps).0
              (subst (λ x. Without (if x then s.id ∷ ids else ids) steps) t (more.2)) in
          (((t, ground (arith, c.0)), more.0), (w.0, more.1), (ground (arith, b.0), w.1)),
      λ h.
          let w = (Without-more s.id ids steps).1 (h.1.0, h.2.1) in
          let more = rest.1 (
            h.0.1,
            h.1.1,
            subst (λ x. Without (if x then s.id ∷ ids else ids) steps) (sym (h.0.0.0)) w,
          ) in
          first.1 (
            ground (arith, h.0.0.0),
            second.1 (ground (arith, h.2.0), third.1 (ground (arith, h.0.0.1), more)),
          ),
    )

dangling_iff :
    (ids : List StepId) (from : StepId) (links : List StepId)
    → (is_empty (dangling ids from links) ≡ true) ↔ All (λ to. has ids to ≡ true) links
dangling_iff ids from [] = (λ h. tt, λ h. refl)
dangling_iff ids from (to ∷ links) =
    let one = error_if-empty (not (has ids to)) (dangling_link from to) (dangling ids from links) in
    let rest = dangling_iff ids from links in
    (
      λ h. (ground (arith, (one.0 h).0), rest.0 ((one.0 h).1)),
      λ h. one.1 (ground (arith, h.0), rest.1 (h.1)),
    )

link_errors_iff :
    (ids : List StepId) (steps : List Step)
    → (is_empty (link_errors ids steps) ≡ true)
      ↔ All (λ s. All (λ to. has ids to ≡ true) (collect_outgoing_ids s)) steps
unfolding link_errors
link_errors_iff ids [] = (λ h. tt, λ h. refl)
link_errors_iff ids (s ∷ steps) =
    let both =
      is_empty-append (dangling ids s.id (collect_outgoing_ids s)) (link_errors ids steps) in
    let one = dangling_iff ids s.id (collect_outgoing_ids s) in
    let rest = link_errors_iff ids steps in
    (λ h. (one.0 ((both.0 h).0), rest.0 ((both.0 h).1)), λ h. both.1 (one.1 (h.0), rest.1 (h.1)))

true_ids-good : (steps : List Step) → All IsGood steps → true_ids steps ≡ step_ids steps
true_ids-good [] h = refl
true_ids-good (s ∷ steps) h = rw (h.0.0, true_ids-good steps (h.1)) refl

cycle_errors_iff :
    (steps : List Step)
    → (is_empty (cycle_errors (find_cycle steps)) ≡ true)
      ↔ (¬ ((c : List StepId) × IsCycle steps c))
cycle_errors_iff steps = elim (Visit-cases (find_cycle steps)) [
  | inl found ↦ (
    λ h. absurd (subst (λ r. is_empty (cycle_errors r) ≡ true → ⊥) (sym (found.1)) (λ e. cc) h),
    λ h. absurd (h (found.0, IsCycle-find_cycle steps (found.0) (found.1))),
  )
  | inr (inl found) ↦ (
    λ h cyc.
        let hit = (find_cycle_iff steps).1 cyc in
        let same : clear (found.0) ≡ cycle (hit.0) = sym (found.1) ∙ hit.1 in absurd (cc),
    λ h. ap (λ r. is_empty (cycle_errors r)) (found.1),
  )
  | inr (inr never) ↦ absurd (find_cycle-ends steps never)
]

-- What a graph is to be.
abbrev pub IsValid : List Step → Type 0
IsValid steps =
    (All IsGood steps × HasDistinctIds steps × LinksKnown steps)
    × ((not (is_empty steps) && is_empty (find_root_step_ids steps)) ≡ false)
    × (¬ ((c : List StepId) × IsCycle steps c))

-- `validateGraph` accepts a profile exactly when every step has an id of its own and a type that is
-- supported, every link leads to a step, there is a root step unless there are no steps, and the
-- links have no cycle.
pub validate_graph-IsValid :
    (steps : List Step) → ((validate_graph steps).ok ≡ true) ↔ IsValid steps
unfolding validate_graph graph_errors
validate_graph-IsValid steps =
    let rootless = not (is_empty steps) && is_empty (find_root_step_ids steps) in
    let last = cycle_errors (find_cycle steps) in
    let a = is_empty-append (step_errors 0 [] steps) _ in
    let b = is_empty-append (link_errors (true_ids steps) steps) _ in
    let c = error_if-empty rootless no_root_step last in
    let own = step_errors_iff 0 [] steps in
    let ends = cycle_errors_iff steps in
    (
      λ h.
          let x = a.0 h in
          let y = b.0 (x.1) in
          let z = c.0 (y.1) in
          let good = own.0 (x.0) in
          let links = (link_errors_iff (true_ids steps) steps).0 (y.0) in
          (
            (
              good.0,
              good.1,
              subst (λ ids. All (λ s. All (λ to. has ids to ≡ true) (collect_outgoing_ids s)) steps)
                  (true_ids-good steps (good.0)) links,
            ),
            z.0,
            ends.0 (z.1),
          ),
      λ h.
          let links = (link_errors_iff (true_ids steps) steps).1 (
            subst (λ ids. All (λ s. All (λ to. has ids to ≡ true) (collect_outgoing_ids s)) steps)
              (sym (true_ids-good steps (h.0.0))) (h.0.2)) in
          a.1 (
            own.1 (h.0.0, h.0.1, All-universal _ steps (λ s. refl)),
            b.1 (links, c.1 (h.1, ends.1 (h.2))),
          ),
    )
