-- ===== src/Core/Workflows/Laws.antt =====
-- platform/controller-core/src/workflowRegistry.js: how putRevision numbers the revisions.
use web_action_recorder_exte.Common.{
  ℕ, ◌&&◌, ◌+◌, ◌≤◌, ◌<◌, Bool, true, false, String, str_eq, find_first-none, List, [], ◌∷◌, ◌++◌,
  is_empty, if-both, All, All-append, All-universal, ◌≡◌, ◌≢◌, sym, arith, Bool-cases, Option-cases,
  inl, inr, ◌⊎◌, eq_iff,
}
use web_action_recorder_exte.Core.Errors.{throws, state_of, if_found-state}
use web_action_recorder_exte.Core.State.{State, WorkflowRevision}
use web_action_recorder_exte.Json.{Json}
use web_action_recorder_exte.Core.Workflows.{
  Submission, find_by_content_hash, of_workflow, max_revision, next_revision, with_revision,
  is_before, insert, sort_into, sort, store_revision, submission_error, put_revision,
}

-- Two revisions of one workflow have other numbers and other content.
abbrev pub Apart : WorkflowRevision → WorkflowRevision → Type 0
Apart a b =
    (a.workflow_id ≢ b.workflow_id)
    ⊎ ((a.revision ≢ b.revision) × (a.content_hash ≢ b.content_hash))

abbrev pub IsNumbered : List WorkflowRevision → Type 0
IsNumbered [] = Unit
IsNumbered (x ∷ xs) = All (Apart x) xs × IsNumbered xs

pub Apart-sym : (a b : WorkflowRevision) → Apart a b → Apart b a
Apart-sym a b (inl h) = inl (λ e. h (sym e))
Apart-sym a b (inr h) = inr (λ e. h.0 (sym e), λ e. h.1 (sym e))

module _ (precedes : String → String → Bool) where
  All-insert {κ} :
      (P : WorkflowRevision → Type κ) (x : WorkflowRevision) (ys : List WorkflowRevision)
      → P x
      → All P ys
      → All P (insert precedes x ys)
  All-insert P x [] h k = (h, tt)
  All-insert P x (y ∷ ys) h k =
      if-both (All P) (is_before precedes x y) (h, (k.0, k.1)) (k.0, All-insert P x ys h (k.1))

  IsNumbered-insert :
      (x : WorkflowRevision) (ys : List WorkflowRevision)
      → All (Apart x) ys
      → IsNumbered ys
      → IsNumbered (insert precedes x ys)
  IsNumbered-insert x [] h k = (tt, tt)
  IsNumbered-insert x (y ∷ ys) h k =
      if-both IsNumbered (is_before precedes x y) (h, k)
        (All-insert (Apart y) x ys (Apart-sym x y (h.0)) (k.0), IsNumbered-insert x ys (h.1) (k.1))

  pub All-sort_into {κ} :
      (P : WorkflowRevision → Type κ) (sorted xs : List WorkflowRevision)
      → All P sorted
      → All P xs
      → All P (sort_into precedes sorted xs)
  All-sort_into P sorted [] h k = h
  All-sort_into P sorted (x ∷ xs) h k =
      All-sort_into P (insert precedes x sorted) xs (All-insert P x sorted (k.0) h) (k.1)

  All-both :
      (x : WorkflowRevision) (sorted xs : List WorkflowRevision)
      → All (Apart x) xs
      → All (λ y. All (Apart y) sorted) xs
      → All (λ y. All (Apart y) (insert precedes x sorted)) xs
  All-both x sorted [] h k = tt
  All-both x sorted (y ∷ xs) h k =
      (All-insert (Apart y) x sorted (Apart-sym x y (h.0)) (k.0), All-both x sorted xs (h.1) (k.1))

  IsNumbered-sort_into :
      (sorted xs : List WorkflowRevision)
      → IsNumbered sorted
      → IsNumbered xs
      → All (λ y. All (Apart y) sorted) xs
      → IsNumbered (sort_into precedes sorted xs)
  IsNumbered-sort_into sorted [] h k a = h
  IsNumbered-sort_into sorted (x ∷ xs) h k a =
      IsNumbered-sort_into (insert precedes x sorted) xs (IsNumbered-insert x sorted (a.0) h) (k.1)
        (All-both x sorted xs (k.0) (a.1))

  IsNumbered-sort : (xs : List WorkflowRevision) → IsNumbered xs → IsNumbered (sort precedes xs)
  unfolding sort
  IsNumbered-sort xs h = IsNumbered-sort_into [] xs tt h (All-universal _ xs (λ y. tt))

IsNumbered-snoc :
    (xs : List WorkflowRevision) (x : WorkflowRevision)
    → IsNumbered xs
    → All (Apart x) xs
    → IsNumbered (xs ++ x ∷ [])
IsNumbered-snoc [] x h k = (tt, tt)
IsNumbered-snoc (y ∷ ys) x h k = (
  All-append (Apart y) ys (x ∷ []) (h.0) (Apart-sym x y (k.0), tt),
  IsNumbered-snoc ys x (h.1) (k.1),
)

-- The largest number of a workflow's revisions.
Below : String → ℕ → WorkflowRevision → Type 0
Below w n e = (e.workflow_id ≢ w) ⊎ (e.revision ≤ n)

max_revision-Below :
    (w : String) (xs : List WorkflowRevision) (n : ℕ)
    → max_revision (of_workflow w xs) ≤ n
    → All (Below w n) xs
unfolding Below
max_revision-Below w [] n h = tt
max_revision-Below w (x ∷ xs) n h = elim (Bool-cases (str_eq x.workflow_id w)) [
  | inl e ↦
      let both : (x.revision ≤ n) × (max_revision (of_workflow w xs) ≤ n) = ground arith in
      (inr (both.0), max_revision-Below w xs n (both.1))
  | inr e ↦ (inl (ground (arith, eq_iff x.workflow_id w)), max_revision-Below w xs n (rw e at h))
]

-- What is numbered higher than the workflow's revisions, and is not one by content.
Apart-next :
    (x : WorkflowRevision) (items : List WorkflowRevision) (n : ℕ)
    → All (Below x.workflow_id n) items
    → n < x.revision
    → All
        (λ e. (str_eq e.workflow_id x.workflow_id && str_eq e.content_hash x.content_hash) ≡ false)
        items
    → All (Apart x) items
unfolding Below
Apart-next x [] n b l h = tt
Apart-next x (e ∷ items) n b l h = (
  elim (Bool-cases (str_eq e.workflow_id x.workflow_id)) [
    | inl same ↦ inr (
      ground (arith, b.0, eq_iff e.workflow_id x.workflow_id),
      ground (arith, h.0, eq_iff e.content_hash x.content_hash),
    )
    | inr other ↦ inl (ground (arith, other, eq_iff e.workflow_id x.workflow_id))
  ],
  Apart-next x items n (b.1) l (h.1),
)

Apart-first :
    (x : WorkflowRevision) (items : List WorkflowRevision)
    → is_empty (of_workflow x.workflow_id items) ≡ true
    → All (Apart x) items
Apart-first x [] h = tt
Apart-first x (e ∷ items) h = elim (Bool-cases (str_eq e.workflow_id x.workflow_id)) [
  | inl same ↦ absurd (ground arith)
  | inr other ↦ (
    inl (ground (arith, other, eq_iff e.workflow_id x.workflow_id)),
    Apart-first x items (rw other at h),
  )
]

pub Apart-next_revision :
    (item : WorkflowRevision) (items : List WorkflowRevision)
    → All
        (λ e.
          (str_eq e.workflow_id item.workflow_id && str_eq e.content_hash item.content_hash)
          ≡ false)
        items
    → All (Apart (next_revision item items)) items
unfolding next_revision
Apart-next_revision item items h =
    elim (Bool-cases (is_empty (of_workflow item.workflow_id items))) [
      | inl e ↦ Apart-first (next_revision item items) items e
      | inr e ↦ rw e (
          Apart-next (with_revision item (max_revision (of_workflow item.workflow_id items) + 1))
            items (max_revision (of_workflow item.workflow_id items))
            (max_revision-Below item.workflow_id items _ (omega arith)) (omega arith) h)
    ]

-- A call of putRevision that goes wrong leaves the state, and one that does not leaves a numbered
-- list, if it was one.
store_revision-IsNumbered :
    (precedes : String → String → Bool) (at : ℕ) (item : WorkflowRevision) (s : State)
    → IsNumbered s.workflow_revisions
    → IsNumbered
        (state_of (
          store_revision precedes at item
            (find_by_content_hash item.workflow_id item.content_hash s)
            s)).workflow_revisions
store_revision-IsNumbered precedes at item s h =
    elim (Option-cases (find_by_content_hash item.workflow_id item.content_hash s)) [
      | inl e ↦
          let next = next_revision item s.workflow_revisions in
          rw e (
            IsNumbered-sort precedes (s.workflow_revisions ++ next ∷ []) (
              IsNumbered-snoc s.workflow_revisions next h (
                Apart-next_revision item s.workflow_revisions
                  (find_first-none _ s.workflow_revisions e))))
      | inr found ↦ rw (found.1) h
    ]

-- In the store, two revisions of a workflow never have the same number or the same content:
-- putRevision keeps this whatever it is given, and whether it returns or throws.
pub put_revision-IsNumbered :
    (precedes : String → String → Bool) (digest : Json → String) (is_valid : Bool) (at : ℕ)
    (r : Submission) (s : State)
    → IsNumbered s.workflow_revisions
    → IsNumbered (state_of (put_revision precedes digest is_valid at r s)).workflow_revisions
unfolding put_revision
put_revision-IsNumbered precedes digest is_valid at r s h =
    if_found-state (λ t. IsNumbered t.workflow_revisions) (submission_error digest is_valid r)
      (store_revision precedes at r.item
        (find_by_content_hash r.item.workflow_id r.item.content_hash s) s)
      (λ e. throws e s) (store_revision-IsNumbered precedes at r.item s h) (λ e k. h)
