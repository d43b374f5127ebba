-- ===== src/Workflow/Metadata/Canonical.antt =====
-- platform/workflow-core/src/workflowMetadata.js: which values have the same canonical form.
use mathlib.Core.Path.{subst}
use web_action_recorder_exte.Common.{
  String, true, false, List, ◌≡◌, ◌≢◌, ◌↔◌, refl, arith, ap, sym, ◌∙◌, Bool-cases, inl, inr, ◌⊎◌,
  eq_iff, [], ◌∷◌,
}
use web_action_recorder_exte.Json.{
  Json, Items, Fields, null, bool, num, str, arr, obj, nil, cons, end, field,
}
use web_action_recorder_exte.Json.Order.{
  text_less, text_less-connected, text_less-asym, text_less-le_trans,
}
use web_action_recorder_exte.Workflow.Metadata.{
  one_of, left_out, insert_field, insert_unless, stable_clone, clone_items, clone_fields,
  hash_excluded_keys, canonicalize_workflow_metadata,
}

-- An excluded key, or the name of the prototype, which is no key of the clone.
abbrev pub IsLeftOut : List String → String → Type 0
IsLeftOut excluded k = (one_of excluded k ≡ true) ⊎ (k ≡ "__proto__")

left_out_iff :
    (excluded : List String) (k : String) → (left_out excluded k ≡ true) ↔ IsLeftOut excluded k
left_out_iff excluded k =
    let proto = eq_iff k "__proto__" in
    (
      λ h. elim (Bool-cases (one_of excluded k)) [
        | inl e ↦ inl e
        | inr e ↦ inr (proto.0 (rw e at h))
      ],
      λ h. elim h [
        | inl e ↦ rw e refl
        | inr e ↦ elim (Bool-cases (one_of excluded k)) [
          | inl o ↦ rw o refl
          | inr o ↦ rw o (proto.1 e)
        ]
      ],
    )

-- Two values with the same content: objects may list their fields in another order, and have
-- fields of their own under the keys that are left out.
mutual
  pub data SameContent (excluded : List String) : Json → Json → Type 0 where
    same : (a : Json) → SameContent excluded a a
    back : {a b : Json} → SameContent excluded a b → SameContent excluded b a
    also :
        {a b c : Json}
        → SameContent excluded a b
        → SameContent excluded b c
        → SameContent excluded a c
    in_array : {xs ys : Items} → SameItems excluded xs ys → SameContent excluded (arr xs) (arr ys)
    in_object :
        {xs ys : Fields} → SameFields excluded xs ys → SameContent excluded (obj xs) (obj ys)

  pub data SameItems (excluded : List String) : Items → Items → Type 0 where
    no_items : SameItems excluded nil nil
    same_item :
        {a b : Json} {xs ys : Items}
        → SameContent excluded a b
        → SameItems excluded xs ys
        → SameItems excluded (cons a xs) (cons b ys)

  pub data SameFields (excluded : List String) : Fields → Fields → Type 0 where
    no_fields : SameFields excluded end end
    same_field :
        {a b : Json} {xs ys : Fields} (k : String)
        → SameContent excluded a b
        → SameFields excluded xs ys
        → SameFields excluded (field k a xs) (field k b ys)
    swapped :
        (k j : String) (a b : Json) (xs : Fields)
        → k ≢ j
        → SameFields excluded (field k a (field j b xs)) (field j b (field k a xs))
    dropped :
        (k : String) (a : Json) (xs : Fields)
        → IsLeftOut excluded k
        → SameFields excluded (field k a xs) xs
    flipped : {xs ys : Fields} → SameFields excluded xs ys → SameFields excluded ys xs
    followed :
        {xs ys zs : Fields}
        → SameFields excluded xs ys
        → SameFields excluded ys zs
        → SameFields excluded xs zs

-- Two texts that differ are in one order.
Order : String → String → Type 0
Order k j =
    ((text_less k j ≡ true) × (text_less j k ≡ false))
    ⊎ ((text_less k j ≡ false) × (text_less j k ≡ true))

text_order : (k j : String) → k ≢ j → Order k j
unfolding Order
text_order k j h = elim (Bool-cases (text_less k j)) [
  | inl e ↦ inl (e, text_less-asym k j e)
  | inr e ↦ elim (Bool-cases (text_less j k)) [
    | inl e' ↦ inr (e, e')
    | inr e' ↦ absurd (h (text_less-connected k j e e'))
  ]
]

insert_field_comm :
    (k j : String) (a b : Json) (xs : Fields)
    → k ≢ j
    → insert_field k a (insert_field j b xs) ≡ insert_field j b (insert_field k a xs)
unfolding insert_field Order
insert_field_comm k j a b end h = elim (text_order k j h) [
  | inl e ↦ rw (e.0, e.1) refl
  | inr e ↦ rw (e.0, e.1) refl
]
insert_field_comm k j a b (field i c xs) h = elim (Bool-cases (text_less i j)) [
  | inl ij ↦ elim (Bool-cases (text_less i k)) [
    | inl ik ↦ rw (ij, ik, ij) (ap (field i c) (insert_field_comm k j a b xs h))
    | inr ik ↦ let kj = text_less-le_trans k i j ik ij in rw (ij, ik, kj, ij) refl
  ]
  | inr ij ↦ elim (Bool-cases (text_less i k)) [
    | inl ik ↦ let jk = text_less-le_trans j i k ij ik in rw (ij, ik, jk, ij) refl
    | inr ik ↦ elim (text_order k j h) [
      | inl e ↦ rw (ij, ik, e.0, e.1, ij) refl
      | inr e ↦ rw (ij, ik, e.0, e.1) refl
    ]
  ]
]

mutual
  unfolding stable_clone

  clone-SameContent :
      (excluded : List String) (a b : Json)
      → SameContent excluded a b
      → stable_clone excluded a ≡ stable_clone excluded b
  clone-SameContent excluded a b (same _) = refl
  clone-SameContent excluded a b (back h) = sym (clone-SameContent excluded b a h)
  clone-SameContent excluded a c (also {b = b} h k) =
      clone-SameContent excluded a b h ∙ clone-SameContent excluded b c k
  clone-SameContent excluded _ _ (in_array {xs = xs} {ys = ys} h) =
      ap arr (clone-SameItems excluded xs ys h)
  clone-SameContent excluded _ _ (in_object {xs = xs} {ys = ys} h) =
      ap obj (clone-SameFields excluded xs ys h)

  clone-SameItems :
      (excluded : List String) (xs ys : Items)
      → SameItems excluded xs ys
      → clone_items excluded xs ≡ clone_items excluded ys
  clone-SameItems excluded _ _ no_items = refl
  clone-SameItems excluded _ _ (same_item {a = a} {b = b} {xs = xs} {ys = ys} h k) =
      λ i. cons (clone-SameContent excluded a b h i) (clone-SameItems excluded xs ys k i)

  clone-SameFields :
      (excluded : List String) (xs ys : Fields)
      → SameFields excluded xs ys
      → clone_fields excluded xs ≡ clone_fields excluded ys
  clone-SameFields excluded _ _ no_fields = refl
  clone-SameFields excluded _ _ (same_field {a = a} {b = b} {xs = xs} {ys = ys} k h t) = λ i.
      insert_unless (left_out excluded k) k (clone-SameContent excluded a b h i)
        (clone-SameFields excluded xs ys t i)
  clone-SameFields excluded _ _ (swapped k j a b xs h) = elim (Bool-cases (left_out excluded k)) [
    | inl ek ↦ rw ek refl
    | inr ek ↦ elim (Bool-cases (left_out excluded j)) [
      | inl ej ↦ rw (ek, ej) refl
      | inr ej ↦
          rw (ek, ej)
            (insert_field_comm k j (stable_clone excluded a) (stable_clone excluded b)
              (clone_fields excluded xs) h)
    ]
  ]
  clone-SameFields excluded _ _ (dropped k a xs h) = rw ((left_out_iff excluded k).1 h) refl
  clone-SameFields excluded xs ys (flipped h) = sym (clone-SameFields excluded ys xs h)
  clone-SameFields excluded xs zs (followed {ys = ys} h k) =
      clone-SameFields excluded xs ys h ∙ clone-SameFields excluded ys zs k

fields_same : (excluded : List String) (xs : Fields) → SameFields excluded xs xs
fields_same excluded end = no_fields
fields_same excluded (field k v xs) = same_field k (same v) (fields_same excluded xs)

insert_field-same :
    (excluded : List String) (k : String) (v : Json) (xs : Fields)
    → SameFields excluded (field k v xs) (insert_field k v xs)
unfolding insert_field
insert_field-same excluded k v end = fields_same excluded (field k v end)
insert_field-same excluded k v (field j w xs) = elim (Bool-cases (text_less j k)) [
  | inl e ↦
      let other : k ≢ j = λ p.
        let twice : text_less k k ≡ true = subst (λ x. text_less x k ≡ true) (sym p) e in
        absurd (ground (arith, twice, text_less-asym k k)) in
      rw e (
        followed (swapped k j v w xs other)
          (same_field j (same w) (insert_field-same excluded k v xs)))
  | inr e ↦ rw e (fields_same excluded (field k v (field j w xs)))
]

mutual
  unfolding stable_clone

  clone_content :
      (excluded : List String) (a : Json) → SameContent excluded a (stable_clone excluded a)
  clone_content excluded null = same null
  clone_content excluded (bool b) = same (bool b)
  clone_content excluded (num n) = same (num n)
  clone_content excluded (str s) = same (str s)
  clone_content excluded (arr xs) = in_array (clone_items_content excluded xs)
  clone_content excluded (obj fs) = in_object (clone_fields_content excluded fs)

  clone_items_content :
      (excluded : List String) (xs : Items) → SameItems excluded xs (clone_items excluded xs)
  clone_items_content excluded nil = no_items
  clone_items_content excluded (cons x xs) =
      same_item (clone_content excluded x) (clone_items_content excluded xs)

  clone_fields_content :
      (excluded : List String) (fs : Fields) → SameFields excluded fs (clone_fields excluded fs)
  clone_fields_content excluded end = no_fields
  clone_fields_content excluded (field k v fs) = elim (Bool-cases (left_out excluded k)) [
    | inl e ↦ rw e (
        followed (dropped k v fs ((left_out_iff excluded k).0 e))
          (clone_fields_content excluded fs))
    | inr e ↦ rw e (
        followed (same_field k (clone_content excluded v) (clone_fields_content excluded fs))
          (insert_field-same excluded k (stable_clone excluded v) (clone_fields excluded fs)))
  ]

-- The clones of two values are equal exactly when the values have the same content: at every depth,
-- the same fields in any order, those with a key that is left out not counted.
pub stable_clone_iff :
    (excluded : List String) (a b : Json)
    → (stable_clone excluded a ≡ stable_clone excluded b) ↔ SameContent excluded a b
stable_clone_iff excluded a b = (
  λ h.
      also (clone_content excluded a)
        (subst (λ c. SameContent excluded c b) (sym h) (back (clone_content excluded b))),
  clone-SameContent excluded a b,
)

-- A clone is its own clone.
pub stable_clone_idem :
    (excluded : List String) (a : Json)
    → stable_clone excluded (stable_clone excluded a) ≡ stable_clone excluded a
stable_clone_idem excluded a =
    clone-SameContent excluded (stable_clone excluded a) a (back (clone_content excluded a))

-- Two values have the same canonical form, which is all that the content hash is made of, exactly
-- when they have the same content: at every depth the same fields in any order, those of the keys
-- `contentHash`, `createdAt`, `updatedAt`, `revision`, `sourceDeviceId` and `__proto__` not counted.
pub canonicalize_workflow_metadata_iff :
    (a b : Json)
    → (canonicalize_workflow_metadata a ≡ canonicalize_workflow_metadata b)
      ↔ SameContent
          ("contentHash" ∷ "createdAt" ∷ "updatedAt" ∷ "revision" ∷ "sourceDeviceId" ∷ [])
          a
          b
unfolding canonicalize_workflow_metadata
canonicalize_workflow_metadata_iff a b = stable_clone_iff hash_excluded_keys a b
