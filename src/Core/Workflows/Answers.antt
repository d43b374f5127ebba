-- ===== src/Core/Workflows/Answers.antt =====
-- platform/controller-core/src/workflowRegistry.js: what the store says of a revision that was put.
use web_action_recorder_exte.Common.{
  ℕ, ◌==◌, ◌&&◌, ◌||◌, Bool, true, false, String, str_eq, Option, none, some, find_first,
  find_first-none, find_first-only, find_first-All, any, str_eq_refl, List, [], ◌∷◌, ◌++◌, All,
  All-mono, All-append, ◌≡◌, refl, sym, ap, ◌∙◌, arith, Bool-cases, inl, inr, ◌⊎◌, eq_iff,
}
use web_action_recorder_exte.Core.Errors.{
  ok, returns, throws, state_of, returns-injective, if_found-eq-returns,
}
use web_action_recorder_exte.Core.State.{State, WorkflowRevision}
use web_action_recorder_exte.Json.{Json}
use web_action_recorder_exte.Core.Workflows.{
  Submission, Stored, found_revision, get_revision, find_by_content_hash, next_revision, insert,
  sort_into, sort, accept, store_revision, submission_error, put_revision,
}
use web_action_recorder_exte.Core.Workflows.Laws.{
  Apart, IsNumbered, Apart-sym, All-sort_into, Apart-next_revision,
}

-- What the store says of a revision that was put: each way of asking gives it back.
Answers : State → WorkflowRevision → Type 0
Answers t x =
    (get_revision x.workflow_id x.revision t ≡ ok x)
    × (find_by_content_hash x.workflow_id x.content_hash t ≡ some x)

abbrev numbered_so : WorkflowRevision → WorkflowRevision → Bool
numbered_so x e = str_eq e.workflow_id x.workflow_id && e.revision == x.revision

abbrev holding : WorkflowRevision → WorkflowRevision → Bool
holding x e = str_eq e.workflow_id x.workflow_id && str_eq e.content_hash x.content_hash

numbered_so-Apart : (x e : WorkflowRevision) → Apart x e → numbered_so x e ≡ false
numbered_so-Apart x e (inl h) = ground (arith, h, eq_iff e.workflow_id x.workflow_id)
numbered_so-Apart x e (inr h) = ground (arith, h.0)

holding-Apart : (x e : WorkflowRevision) → Apart x e → holding x e ≡ false
holding-Apart x e (inl h) = ground (arith, h, eq_iff e.workflow_id x.workflow_id)
holding-Apart x e (inr h) = ground (arith, h.1, eq_iff e.content_hash x.content_hash)

any-insert :
    (precedes : String → String → Bool) (p : WorkflowRevision → Bool) (x : WorkflowRevision)
    (ys : List WorkflowRevision)
    → any p (insert precedes x ys) ≡ (p x || any p ys)
any-insert precedes p x [] = refl
any-insert precedes p x (y ∷ ys) = ground (arith, any-insert precedes p x ys)

any-sort_into :
    (precedes : String → String → Bool) (p : WorkflowRevision → Bool)
    (sorted xs : List WorkflowRevision)
    → any p (sort_into precedes sorted xs) ≡ (any p sorted || any p xs)
any-sort_into precedes p sorted [] = ground arith
any-sort_into precedes p sorted (x ∷ xs) =
    ground (
      arith,
      any-sort_into precedes p (insert precedes x sorted) xs,
      any-insert precedes p x sorted,
    )

any-snoc :
    (p : WorkflowRevision → Bool) (xs : List WorkflowRevision) (x : WorkflowRevision)
    → p x ≡ true
    → any p (xs ++ x ∷ []) ≡ true
any-snoc p [] x h = ground arith
any-snoc p (y ∷ ys) x h = ground (arith, any-snoc p ys x h)

module _ (precedes : String → String → Bool) (p : WorkflowRevision → Bool) where
  find_first-sort :
      (xs : List WorkflowRevision) (x : WorkflowRevision)
      → p x ≡ true
      → All (λ e. p e ≡ false) xs
      → find_first p (sort precedes (xs ++ x ∷ [])) ≡ some x
  unfolding sort
  find_first-sort xs x h k =
      find_first-only p x (sort_into precedes [] (xs ++ x ∷ []))
        (All-sort_into precedes (λ y. (y ≡ x) ⊎ (p y ≡ false)) [] (xs ++ x ∷ []) tt
          (All-append _ xs (x ∷ []) (All-mono _ _ xs (λ e g. inr g) k) (inl refl, tt)))
        (rw (any-sort_into precedes p [] (xs ++ x ∷ [])) (any-snoc p xs x h))

  find_first-numbered :
      (q : WorkflowRevision → Bool) (xs : List WorkflowRevision) (x : WorkflowRevision)
      → IsNumbered xs
      → find_first q xs ≡ some x
      → p x ≡ true
      → ((e : WorkflowRevision) → Apart x e → p e ≡ false)
      → find_first p xs ≡ some x
  find_first-numbered q [] x n h k a = absurd (cc)
  find_first-numbered q (y ∷ ys) x n h k a = elim (Bool-cases (q y)) [
    | inl e ↦ let same : y ≡ x = ground arith in rw (same, k) refl
    | inr e ↦
        let later : find_first q ys ≡ some x = rw e at h in
        let none_here : p y ≡ false =
          a y (Apart-sym y x (find_first-All q (Apart y) ys later (n.0))) in
        rw none_here (find_first-numbered q ys x (n.1) later k a)
  ]

Answers-accept :
    (precedes : String → String → Bool) (at : ℕ) (x : WorkflowRevision) (s : State)
    → All (Apart x) s.workflow_revisions
    → Answers (state_of (accept precedes at x s)) x
unfolding Answers get_revision
Answers-accept precedes at x s h = (
  ap found_revision (
      find_first-sort precedes (numbered_so x) s.workflow_revisions x
        (rw (str_eq_refl x.workflow_id) (ground arith))
        (All-mono _ _ s.workflow_revisions (numbered_so-Apart x) h)),
  find_first-sort precedes (holding x) s.workflow_revisions x
      (rw (str_eq_refl x.workflow_id) (str_eq_refl x.content_hash))
      (All-mono _ _ s.workflow_revisions (holding-Apart x) h),
)

Answers-IsNumbered :
    (q : WorkflowRevision → Bool) (x : WorkflowRevision) (s : State)
    → IsNumbered s.workflow_revisions
    → find_first q s.workflow_revisions ≡ some x
    → Answers s x
unfolding Answers get_revision
Answers-IsNumbered q x s n h = (
  ap found_revision (
      find_first-numbered precedes_any (numbered_so x) q s.workflow_revisions x n h
        (rw (str_eq_refl x.workflow_id) (ground arith)) (numbered_so-Apart x)),
  find_first-numbered precedes_any (holding x) q s.workflow_revisions x n h
      (rw (str_eq_refl x.workflow_id) (str_eq_refl x.content_hash)) (holding-Apart x),
)
  where
    precedes_any : String → String → Bool
    precedes_any a b = false

-- What a call that returns did: it knew the content, or accepted the next revision.
Put : (String → String → Bool) → ℕ → WorkflowRevision → State → Stored → State → Type 0
Put precedes at item s stored t =
    ((find_by_content_hash item.workflow_id item.content_hash s ≡ some stored.revision) × (t ≡ s))
    ⊎ ((find_by_content_hash item.workflow_id item.content_hash s ≡ none)
        × (stored.revision ≡ next_revision item s.workflow_revisions)
        × (t ≡ state_of (accept precedes at stored.revision s)))

store_revision-Put :
    (precedes : String → String → Bool) (at : ℕ) (item : WorkflowRevision) (s t : State)
    (stored : Stored) (o : Option WorkflowRevision)
    → find_by_content_hash item.workflow_id item.content_hash s ≡ o
    → store_revision precedes at item o s ≡ returns stored t
    → Put precedes at item s stored t
unfolding Put
store_revision-Put precedes at item s t stored (some x) e h =
    let same = returns-injective h in
    inl (e ∙ ap (λ y. some (Stored.revision y)) (same.0), sym (same.1))
store_revision-Put precedes at item s t stored none e h =
    let same = returns-injective h in
    inr (
      e,
      sym (ap Stored.revision (same.0)),
      sym (same.1) ∙ ap (λ x. state_of (accept precedes at x s)) (ap Stored.revision (same.0)),
    )

KnownAs : State → WorkflowRevision → WorkflowRevision → Type 0
KnownAs t item x =
    (get_revision x.workflow_id x.revision t ≡ ok x)
    × (find_by_content_hash item.workflow_id item.content_hash t ≡ some x)

KnownAs-Put :
    (precedes : String → String → Bool) (at : ℕ) (item : WorkflowRevision) (s t : State)
    (stored : Stored)
    → IsNumbered s.workflow_revisions
    → Put precedes at item s stored t
    → KnownAs t item stored.revision
unfolding KnownAs Put Answers next_revision
KnownAs-Put precedes at item s t stored n (inl h) =
    rw (h.1) ((Answers-IsNumbered _ stored.revision s n (h.0)).0, h.0)
KnownAs-Put precedes at item s t stored n (inr h) =
    let x : WorkflowRevision = next_revision item s.workflow_revisions in
    let answers = Answers-accept precedes at x s (
      Apart-next_revision item s.workflow_revisions
        (find_first-none _ s.workflow_revisions (h.0))) in
    rw (h.2, h.1) (answers.0, answers.1)

-- After a call of putRevision that returns, getRevision gives the revision back by its number, and
-- a repetition of the call creates nothing: it returns the same revision and leaves the state.
pub put_revision-get_revision :
    (precedes : String → String → Bool) (digest : Json → String) (is_valid : Bool) (at later : ℕ)
    (r : Submission) (s t : State) (stored : Stored)
    → IsNumbered s.workflow_revisions
    → put_revision precedes digest is_valid at r s ≡ returns stored t
    → (get_revision stored.revision.workflow_id stored.revision.revision t ≡ ok stored.revision)
      × (put_revision precedes digest is_valid later r t
          ≡ returns (record { created = false; revision = stored.revision }) t)
unfolding put_revision KnownAs
put_revision-get_revision precedes digest is_valid at later r s t stored n h =
    elim (if_found-eq-returns (submission_error digest is_valid r)
      (store_revision precedes at r.item
        (find_by_content_hash r.item.workflow_id r.item.content_hash s) s)
      (λ e. throws e s) h) [
        | inl accepted ↦
            let known =
              KnownAs-Put precedes at r.item s t stored n
                (store_revision-Put precedes at r.item s t stored _ refl (accepted.1)) in
            (known.0, rw (accepted.0, known.1) refl)
        | inr refused ↦ absurd (cc)
      ]
