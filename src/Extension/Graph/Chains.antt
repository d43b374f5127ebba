-- ===== src/Extension/Graph/Chains.antt =====
-- src/graph.js: links, chains of them and cycles, and ids in an order against the links.
use web_action_recorder_exte.Common.{
  ℕ, true, false, ◌+◌, List, [], ◌∷◌, ◌++◌, if◌then◌else◌, none, some, opt_eq, ◌≡◌, refl, arith, ap,
  eq_iff, str_eq_refl, All,
}
use web_action_recorder_exte.Extension.Graph.{
  StepId, Step, has, known_links, Search, Visit, cycle, clear, out_of_fuel,
}

pub opt_eq_refl : (a : StepId) → opt_eq a a ≡ true
opt_eq_refl none = refl
opt_eq_refl (some a) = str_eq_refl a

pub opt_eq_sound : (a b : StepId) → opt_eq a b ≡ true → a ≡ b
opt_eq_sound none none h = refl
opt_eq_sound (some a) (some b) h = ap some (ground (arith, h, eq_iff a b))
opt_eq_sound none (some b) h = absurd (ground arith)
opt_eq_sound (some a) none h = absurd (ground arith)

-- The step `a` has a link to the step `b`.
abbrev pub Edge : List Step → StepId → StepId → Type 0
Edge steps a b = has (known_links steps a) b ≡ true

-- Each id has a link to the next.
abbrev pub IsChain : List Step → List StepId → Type 0
IsChain steps [] = Unit
IsChain steps (a ∷ []) = Unit
IsChain steps (a ∷ b ∷ ids) = Edge steps a b × IsChain steps (b ∷ ids)

-- A chain from an id back to itself.
abbrev pub IsCycle : List Step → List StepId → Type 0
IsCycle steps ids =
    (a : StepId) × (m : List StepId) × (ids ≡ a ∷ (m ++ a ∷ [])) × IsChain steps (a ∷ (m ++ a ∷ []))

-- Every link from an id of the list leads to an id behind it, and no id is twice in it.
abbrev pub IsOrdered : List Step → List StepId → Type 0
IsOrdered steps [] = Unit
IsOrdered steps (v ∷ vs) =
    (has vs v ≡ false) × All (λ n. has vs n ≡ true) (known_links steps v) × IsOrdered steps vs

module _ (steps : List Step) where
  abbrev pub Fine : Search → Type 0
  Fine s =
      IsOrdered steps s.visited
      × ((x : StepId) → has s.visiting x ≡ has s.stack x)
      × ((x : StepId) → has s.visiting x ≡ true → has s.visited x ≡ false)

  abbrev pub Cleared : List StepId → Search → Visit → Type 0
  Cleared ids s (cycle c) = IsCycle steps c
  Cleared ids s out_of_fuel = ⊥
  Cleared ids s (clear t) =
      (t.visiting ≡ s.visiting)
      × (t.stack ≡ s.stack)
      × Fine t
      × All (λ n. has t.visited n ≡ true) ids
      × ((x : StepId) → has s.visited x ≡ true → has t.visited x ≡ true)

-- How many steps are not being visited: what the fuel is spent on.
abbrev pub unvisiting : List Step → List StepId → ℕ
unvisiting [] ids = 0
unvisiting (x ∷ xs) ids = (if has ids x.id then 0 else 1) + unvisiting xs ids
