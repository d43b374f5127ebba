-- ===== src/Extension/Graph/CycleSearch.antt =====
-- src/graph.js: findCycle. What a visit leaves: a cycle of the graph, or a search in which the ids
-- visited are in an order that follows the links backwards.
use web_action_recorder_exte.Common.{
  ℕ, zero, suc, true, false, ◌||◌, ◌+◌, ◌<◌, ◌≤◌, List, [], ◌∷◌, ◌++◌, length, opt_eq, ◌≡◌, refl,
  arith, ap, sym, ◌∙◌, Bool-cases, inl, inr, All, All-mono, All-universal,
}
use mathlib.Core.Path.{subst}
use web_action_recorder_exte.Extension.Graph.{
  StepId, Step, has, step_ids, keep_known, known_links, Search, Visit, cycle, clear, out_of_fuel,
  slice_from, delete, pop, enter, leave, then_visit, visit_all, visit, start, find_cycle,
}
use web_action_recorder_exte.Extension.Graph.Chains.{
  opt_eq_refl, opt_eq_sound, Edge, IsChain, IsCycle, Fine, Cleared, unvisiting,
}

has-append : (xs ys : List StepId) (x : StepId) → has (xs ++ ys) x ≡ (has xs x || has ys x)
has-append [] ys x = refl
has-append (a ∷ xs) ys x = ground (arith, has-append xs ys x)

IsChain-tail :
    (steps : List Step) (x : StepId) (ys : List StepId) → IsChain steps (x ∷ ys) → IsChain steps ys
IsChain-tail steps x [] h = tt
IsChain-tail steps x (y ∷ ys) h = h.1

-- The chain from the first `id` of the stack on, back to `id`.
IsCycle-slice_from :
    (steps : List Step) (id : StepId) (stack : List StepId)
    → has stack id ≡ true
    → IsChain steps (stack ++ id ∷ [])
    → IsCycle steps (slice_from id stack ++ id ∷ [])
IsCycle-slice_from steps id [] h c = absurd (cc)
IsCycle-slice_from steps id (x ∷ xs) h c = elim (Bool-cases (opt_eq x id)) [
  | inl e ↦
      let same : x ≡ id = opt_eq_sound x id e in
      rw e (
        id,
        xs,
        ap (λ y. y ∷ (xs ++ id ∷ [])) same,
        subst (λ y. IsChain steps (y ∷ (xs ++ id ∷ []))) same c,
      )
  | inr e ↦
      rw e (IsCycle-slice_from steps id xs (ground arith) (IsChain-tail steps x (xs ++ id ∷ []) c))
]

IsChain-snoc :
    (steps : List Step) (stack : List StepId) (a b : StepId)
    → IsChain steps (stack ++ a ∷ [])
    → Edge steps a b
    → IsChain steps ((stack ++ a ∷ []) ++ b ∷ [])
IsChain-snoc steps [] a b c e = (e, tt)
IsChain-snoc steps (x ∷ []) a b c e = (c.0, (e, tt))
IsChain-snoc steps (x ∷ y ∷ stack) a b c e = (c.0, IsChain-snoc steps (y ∷ stack) a b (c.1) e)

pop-snoc : (stack : List StepId) (a : StepId) → pop (stack ++ a ∷ []) ≡ stack
pop-snoc [] a = refl
pop-snoc (x ∷ []) a = refl
pop-snoc (x ∷ y ∷ stack) a = ap (λ r. x ∷ r) (pop-snoc (y ∷ stack) a)

delete-absent : (id : StepId) (ids : List StepId) → has ids id ≡ false → delete id ids ≡ ids
delete-absent id [] h = refl
delete-absent id (x ∷ xs) h =
    let first : opt_eq x id ≡ false = ground arith in
    rw first (ap (λ r. x ∷ r) (delete-absent id xs (ground arith)))

unvisiting-more :
    (xs : List Step) (ids : List StepId) (id : StepId)
    → unvisiting xs (id ∷ ids) ≤ unvisiting xs ids
unvisiting-more [] ids id = omega arith
unvisiting-more (x ∷ xs) ids id = ground (arith, unvisiting-more xs ids id)

unvisiting-less :
    (xs : List Step) (ids : List StepId) (id : StepId)
    → has (step_ids xs) id ≡ true
    → has ids id ≡ false
    → unvisiting xs (id ∷ ids) + 1 ≤ unvisiting xs ids
unvisiting-less [] ids id h k = absurd (cc)
unvisiting-less (x ∷ xs) ids id h k = elim (Bool-cases (opt_eq x.id id)) [
  | inl e ↦
      let same : x.id ≡ id = opt_eq_sound x.id id e in
      let old : has ids x.id ≡ false = rw same k in
      let new : opt_eq id x.id ≡ true = rw same (opt_eq_refl id) in
      ground (arith, old, new, unvisiting-more xs ids id)
  | inr e ↦ ground (arith, unvisiting-less xs ids id (ground arith) k)
]

pub has-keep_known :
    (known ids : List StepId) → All (λ n. has known n ≡ true) (keep_known known ids)
has-keep_known known [] = tt
has-keep_known known (i ∷ ids) = elim (Bool-cases (has known i)) [
  | inl e ↦ rw e (e, has-keep_known known ids)
  | inr e ↦ rw e (has-keep_known known ids)
]

-- A visit of the id, from a search in which less than the fuel is left to visit.
abbrev VisitClears : List Step → ℕ → (StepId → Search → Visit) → Type 0
VisitClears steps fuel v =
    (id : StepId) (s : Search)
    → Fine steps s
    → has (step_ids steps) id ≡ true
    → IsChain steps (s.stack ++ id ∷ [])
    → unvisiting steps s.visiting < fuel
    → Cleared steps (id ∷ []) s (v id s)

Cleared-trans :
    (steps : List Step) (id : StepId) (ids : List StepId) (s t : Search) (r : Visit)
    → Cleared steps (id ∷ []) s (clear t)
    → Cleared steps ids t r
    → Cleared steps (id ∷ ids) s r
Cleared-trans steps id ids s t (cycle c) h k = k
Cleared-trans steps id ids s t out_of_fuel h k = k
Cleared-trans steps id ids s t (clear u) h k =
    (k.0 ∙ h.0, k.1 ∙ h.1, k.2, (k.4 id (h.3.0), k.3), λ x m. k.4 x (h.4 x m))

then_visit-Cleared :
    (steps : List Step) (id : StepId) (ids : List StepId) (s : Search) (r : Visit)
    (next : Search → Visit)
    → Cleared steps (id ∷ []) s r
    → ((t : Search) → Cleared steps (id ∷ []) s (clear t) → Cleared steps ids t (next t))
    → Cleared steps (id ∷ ids) s (then_visit r next)
then_visit-Cleared steps id ids s (cycle c) next h k = h
then_visit-Cleared steps id ids s out_of_fuel next h k = h
then_visit-Cleared steps id ids s (clear t) next h k =
    Cleared-trans steps id ids s t (next t) h (k t h)

visit_all-Cleared :
    (steps : List Step) (fuel : ℕ) (v : StepId → Search → Visit) (ids : List StepId) (s : Search)
    → VisitClears steps fuel v
    → Fine steps s
    → All (λ n. has (step_ids steps) n ≡ true) ids
    → All (λ n. IsChain steps (s.stack ++ n ∷ [])) ids
    → unvisiting steps s.visiting < fuel
    → Cleared steps ids s (visit_all v ids s)
unfolding visit_all
visit_all-Cleared steps fuel v [] s ok f known chains less = (refl, refl, f, tt, λ x h. h)
visit_all-Cleared steps fuel v (id ∷ ids) s ok f known chains less =
    then_visit-Cleared steps id ids s (v id s) (visit_all v ids)
      (ok id s f (known.0) (chains.0) less)
      (λ t h.
        visit_all-Cleared steps fuel v ids t ok (h.2) (known.1)
          (subst (λ st. All (λ n. IsChain steps (st ++ n ∷ [])) ids) (sym (h.1)) (chains.1))
          (subst (λ vs. unvisiting steps vs < fuel) (sym (h.0)) less))

Fine-enter :
    (steps : List Step) (id : StepId) (s : Search)
    → Fine steps s
    → has s.visited id ≡ false
    → Fine steps (enter id s)
Fine-enter steps id s f h = (
  f.0,
  λ x. ground (arith, has-append s.stack (id ∷ []) x, f.1 x),
  λ x m. elim (Bool-cases (opt_eq id x)) [
    | inl e ↦ subst (λ y. has s.visited y ≡ false) (opt_eq_sound id x e) h
    | inr e ↦ f.2 x (ground arith)
  ],
)

leave-Cleared :
    (steps : List Step) (id : StepId) (s : Search) (r : Visit)
    → Fine steps s
    → has s.visiting id ≡ false
    → Cleared steps (known_links steps id) (enter id s) r
    → Cleared steps (id ∷ []) s (leave id r)
leave-Cleared steps id s (cycle c) f h k = k
leave-Cleared steps id s out_of_fuel f h k = k
leave-Cleared steps id s (clear t) f h k =
    let deleted : delete id t.visiting ≡ s.visiting =
      ap (delete id) (k.0) ∙ rw (opt_eq_refl id) (delete-absent id s.visiting h) in
    let popped : pop t.stack ≡ s.stack = ap pop (k.1) ∙ pop-snoc s.stack id in
    let inside : has t.visiting id ≡ true = rw (k.0, opt_eq_refl id) refl in
    let own : has (id ∷ t.visited) id ≡ true = rw (opt_eq_refl id) refl in
    (
      deleted,
      popped,
      (
        (k.2.2 id inside, k.3, k.2.0),
        λ x. ap (λ v. has v x) deleted ∙ (f.1 x ∙ ap (λ v. has v x) (sym popped)),
        λ x m.
            let before : has s.visiting x ≡ true = ap (λ v. has v x) (sym deleted) ∙ m in
            let during : has t.visiting x ≡ true = rw (k.0) (ground arith) in
            elim (Bool-cases (opt_eq id x)) [
              | inl e ↦
                  let same : has s.visiting id ≡ true =
                    subst (λ y. has s.visiting y ≡ true) (sym (opt_eq_sound id x e)) before in
                  absurd (ground arith)
              | inr e ↦ ground (arith, e, k.2.2 x during)
            ],
      ),
      (own, tt),
      λ x m. ground (arith, k.4 x m),
    )

IsChain-links :
    (steps : List Step) (id : StepId) (stack ids : List StepId)
    → IsChain steps (stack ++ id ∷ [])
    → All (λ n. Edge steps id n) ids
    → All (λ n. IsChain steps ((stack ++ id ∷ []) ++ n ∷ [])) ids
IsChain-links steps id stack [] h k = tt
IsChain-links steps id stack (n ∷ ids) h k =
    (IsChain-snoc steps stack id n h (k.0), IsChain-links steps id stack ids h (k.1))

All-self : (ids : List StepId) → All (λ n. has ids n ≡ true) ids
All-self [] = tt
All-self (i ∷ ids) =
    (rw (opt_eq_refl i) refl, All-mono _ _ ids (λ n h. ground (arith, h)) (All-self ids))

visit-Cleared : (steps : List Step) (fuel : ℕ) → VisitClears steps fuel (visit steps fuel)
unfolding visit known_links
visit-Cleared steps zero id s f known chain less = absurd (omega arith)
visit-Cleared steps (suc fuel) id s f known chain less = elim (Bool-cases (has s.visiting id)) [
  | inl e ↦ rw e (IsCycle-slice_from steps id s.stack (sym (f.1 id) ∙ e) chain)
  | inr e ↦ elim (Bool-cases (has s.visited id)) [
    | inl e' ↦ rw (e, e') (refl, refl, f, (e', tt), λ x h. h)
    | inr e' ↦
        rw (e, e')
          (leave-Cleared steps id s _ f e (
            visit_all-Cleared steps fuel (visit steps fuel) (known_links steps id) (enter id s)
              (visit-Cleared steps fuel) (Fine-enter steps id s f e')
              (has-keep_known (step_ids steps) _)
              (IsChain-links steps id s.stack (known_links steps id) chain
                (All-self (known_links steps id)))
              (omega (arith, less, unvisiting-less steps s.visiting id known e))))
  ]
]

unvisiting-le : (xs : List Step) (ids : List StepId) → unvisiting xs ids ≤ length xs
unvisiting-le [] ids = omega arith
unvisiting-le (x ∷ xs) ids = ground (arith, unvisiting-le xs ids)

pub find_cycle-Cleared :
    (steps : List Step) → Cleared steps (step_ids steps) start (find_cycle steps)
unfolding find_cycle
find_cycle-Cleared steps =
    visit_all-Cleared steps (length steps + 1) (visit steps (length steps + 1)) (step_ids steps)
      start (visit-Cleared steps (length steps + 1)) (tt, λ x. refl, λ x h. refl)
      (All-self (step_ids steps)) (All-universal _ (step_ids steps) (λ n. tt))
      (omega (arith, unvisiting-le steps []))
