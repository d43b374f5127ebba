-- ===== src/Extension/Graph/Laws.antt =====
-- src/graph.js: the search for a cycle, against the links of the steps.
use web_action_recorder_exte.Common.{
  true, List, [], ◌∷◌, ◌++◌, opt_eq, ◌≡◌, ◌≢◌, refl, arith, sym, Bool-cases, inl, inr, ◌⊎◌, ◌↔◌,
  All,
}
use mathlib.Core.Path.{subst}
use web_action_recorder_exte.Extension.Graph.{
  StepId, Step, has, step_ids, known_links, Search, Visit, cycle, clear, out_of_fuel, start,
  find_cycle,
}
use web_action_recorder_exte.Extension.Graph.CycleSearch.{has-keep_known, find_cycle-Cleared}
use web_action_recorder_exte.Extension.Graph.Chains.{
  opt_eq_sound, Edge, IsChain, IsCycle, IsOrdered, Cleared,
}

has-All :
    (P : StepId → Type 0) (ids : List StepId) (b : StepId) → All P ids → has ids b ≡ true → P b
has-All P [] b h k = absurd (cc)
has-All P (i ∷ ids) b h k = elim (Bool-cases (opt_eq i b)) [
  | inl e ↦ subst P (opt_eq_sound i b e) (h.0)
  | inr e ↦ has-All P ids b (h.1) (ground arith)
]

Edge-known : (steps : List Step) (a b : StepId) → Edge steps a b → has (step_ids steps) b ≡ true
unfolding known_links
Edge-known steps a b h =
    has-All (λ n. has (step_ids steps) n ≡ true) (known_links steps a) b
      (has-keep_known (step_ids steps) _) h

IsOrdered-closed :
    (steps : List Step) (vs : List StepId) (x y : StepId)
    → IsOrdered steps vs
    → has vs x ≡ true
    → Edge steps x y
    → has vs y ≡ true
IsOrdered-closed steps [] x y o h e = absurd (cc)
IsOrdered-closed steps (v ∷ vs) x y o h e = elim (Bool-cases (opt_eq v x)) [
  | inl same ↦
      let link : Edge steps v y = subst (λ z. Edge steps z y) (sym (opt_eq_sound v x same)) e in
      let behind = has-All (λ n. has vs n ≡ true) (known_links steps v) y (o.1) link in
      ground (arith, behind)
  | inr other ↦ ground (arith, IsOrdered-closed steps vs x y (o.2) (ground arith) e)
]

IsChain-last :
    (steps : List Step) (vs : List StepId) (x : StepId) (m : List StepId) (z : StepId)
    → IsOrdered steps vs
    → has vs x ≡ true
    → IsChain steps (x ∷ (m ++ z ∷ []))
    → has vs z ≡ true
IsChain-last steps vs x [] z o h c = IsOrdered-closed steps vs x z o h (c.0)
IsChain-last steps vs x (y ∷ m) z o h c =
    IsChain-last steps vs y m z o (IsOrdered-closed steps vs x y o h (c.0)) (c.1)

-- The first link of a chain back to its start leads behind the start.
IsChain-behind :
    (steps : List Step) (v : StepId) (vs m : List StepId)
    → IsOrdered steps (v ∷ vs)
    → IsChain steps (v ∷ (m ++ v ∷ []))
    → has vs v ≡ true
IsChain-behind steps v vs [] o c =
    has-All (λ n. has vs n ≡ true) (known_links steps v) v (o.1) (c.0)
IsChain-behind steps v vs (y ∷ m) o c =
    IsChain-last steps vs y m v (o.2)
      (has-All (λ n. has vs n ≡ true) (known_links steps v) y (o.1) (c.0)) (c.1)

IsOrdered-acyclic :
    (steps : List Step) (vs : List StepId) (a : StepId) (m : List StepId)
    → IsOrdered steps vs
    → has vs a ≡ true
    → ¬ IsChain steps (a ∷ (m ++ a ∷ []))
IsOrdered-acyclic steps [] a m o h c = absurd (cc)
IsOrdered-acyclic steps (v ∷ vs) a m o h c = elim (Bool-cases (opt_eq v a)) [
  | inl e ↦
      let back : has vs v ≡ true =
        IsChain-behind steps v vs m o
          (subst (λ x. IsChain steps (x ∷ (m ++ x ∷ []))) (sym (opt_eq_sound v a e)) c) in
      absurd (ground (arith, o.0))
  | inr e ↦ IsOrdered-acyclic steps vs a m (o.2) (ground arith) c
]

IsChain-known :
    (steps : List Step) (x : StepId) (m : List StepId) (z : StepId)
    → IsChain steps (x ∷ (m ++ z ∷ []))
    → has (step_ids steps) z ≡ true
IsChain-known steps x [] z c = Edge-known steps x z (c.0)
IsChain-known steps x (y ∷ m) z c = IsChain-known steps y m z (c.1)

-- What a search that ends as `r` does shows.
Ended : List Step → Visit → Type 0
Ended steps (cycle c) = IsCycle steps c
Ended steps (clear s) = (c : List StepId) → ¬ IsCycle steps c
Ended steps out_of_fuel = ⊥

Ended-find_cycle :
    (steps : List Step) (r : Visit) → Cleared steps (step_ids steps) start r → Ended steps r
unfolding Ended
Ended-find_cycle steps (cycle c) h = h
Ended-find_cycle steps out_of_fuel h = h
Ended-find_cycle steps (clear s) h = λ c cyc.
    IsOrdered-acyclic steps s.visited (cyc.0) (cyc.1) (h.2.0)
      (has-All (λ n. has s.visited n ≡ true) (step_ids steps) (cyc.0) (h.3)
        (IsChain-known steps (cyc.0) (cyc.1) (cyc.0) (cyc.3)))
      (cyc.3)

ended : (steps : List Step) → Ended steps (find_cycle steps)
ended steps = Ended-find_cycle steps (find_cycle steps) (find_cycle-Cleared steps)

pub Visit-cases :
    (r : Visit)
    → ((c : List StepId) × (r ≡ cycle c)) ⊎ ((s : Search) × (r ≡ clear s)) ⊎ (r ≡ out_of_fuel)
Visit-cases (cycle c) = inl (c, refl)
Visit-cases (clear s) = inr (inl (s, refl))
Visit-cases out_of_fuel = inr (inr refl)

-- `findCycle` comes to an end: the recursion is never deeper than the steps are many, and so the
-- fuel, one more than their number, is enough.
pub find_cycle-ends : (steps : List Step) → find_cycle steps ≢ out_of_fuel
unfolding Ended
find_cycle-ends steps h = subst (Ended steps) h (ended steps)

-- A cycle that `findCycle` returns is one: its ids begin and end with the same id, and each is that
-- of a step with a link to the next.
pub IsCycle-find_cycle :
    (steps : List Step) (c : List StepId) → find_cycle steps ≡ cycle c → IsCycle steps c
unfolding Ended
IsCycle-find_cycle steps c h = subst (Ended steps) h (ended steps)

-- `findCycle` returns a cycle exactly when the links of the steps have one.
pub find_cycle_iff :
    (steps : List Step)
    → ((c : List StepId) × (find_cycle steps ≡ cycle c)) ↔ ((c : List StepId) × IsCycle steps c)
unfolding Ended
find_cycle_iff steps = (
  λ x. (x.0, IsCycle-find_cycle steps (x.0) (x.1)),
  λ x. elim (Visit-cases (find_cycle steps)) [
    | inl found ↦ found
    | inr (inl found) ↦ absurd (subst (Ended steps) (found.1) (ended steps) (x.0) (x.1))
    | inr (inr never) ↦ absurd (find_cycle-ends steps never)
  ],
)
