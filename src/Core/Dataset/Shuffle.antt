-- ===== src/Core/Dataset/Shuffle.antt =====
-- platform/controller-core/src/datasetAssignment.js: what the shuffles do to a list of records.
use mathlib.Core.List.{Perm, Permᴰ}
use mathlib.Core.Logic.{∥∥₁_elim}
use native.Mathlib.Nat.{ℕ_set}
use mathlib.Core.List.Perm
use web_action_recorder_exte.Common.{
  ℕ, zero, suc, ◌+◌, ◌-◌, ◌%◌, ◌≡◌, refl, some, List, [], ◌∷◌, length, get_elem?, set, arith, inl,
  inr, Option-cases, ap, ◌∙◌,
}
use web_action_recorder_exte.Core.Dataset.{
  swap, shuffle_loop, seeded_shuffle, random_loop, random_shuffle, next_state, Order, seeded, drawn,
  shuffle_by,
}

module _ {ℓ} {A : Type ℓ} where
  -- A write exchanges the old item for the new one.
  set-perm :
      (xs : List A) (i : ℕ) {a : A} (b : A)
      → get_elem? xs i ≡ some a
      → Perm (a ∷ set xs i b) (b ∷ xs)
  set-perm [] i b h = cc
  set-perm (x ∷ xs) zero {a} b h =
      Perm.trans (Perm.swap b a xs) (Perm.cons b (Perm.cons' (ground arith) (Perm.refl xs)))
  set-perm (x ∷ xs) (suc i) {a} b h =
      Perm.trans (Perm.swap x a (set xs i b))
        (Perm.trans (Perm.cons x (set-perm xs i b h)) (Perm.swap b x xs))

  -- An item that stands at j still does where it is written at i.
  get_elem?-set :
      (xs : List A) (i j : ℕ) {b : A} → get_elem? xs j ≡ some b → get_elem? (set xs i b) j ≡ some b
  get_elem?-set [] i j h = h
  get_elem?-set (x ∷ xs) zero zero h = refl
  get_elem?-set (x ∷ xs) zero (suc j) h = h
  get_elem?-set (x ∷ xs) (suc i) zero h = h
  get_elem?-set (x ∷ xs) (suc i) (suc j) h = get_elem?-set xs i j h

  swap-perm : (xs : List A) (i j : ℕ) → Perm (swap xs i j) xs
  unfolding swap
  swap-perm xs i j = elim (Option-cases (get_elem? xs i)) [
    | inl e ↦ rw (e, swap) (Perm.refl xs)
    | inr (a, e) ↦ elim (Option-cases (get_elem? xs j)) [
      | inl f ↦ rw (e, f, swap) (Perm.refl xs)
      | inr (b, f) ↦
          rw (e, f, swap)
            (Perm.cons_inv
              (Perm.trans (set-perm (set xs i b) j a (get_elem?-set xs i j f)) (set-perm xs i b e)))
    ]
  ]

  shuffle_loop-perm : (i state : ℕ) (xs : List A) → Perm (shuffle_loop i state xs) xs
  unfolding shuffle_loop
  shuffle_loop-perm zero state xs = Perm.refl xs
  shuffle_loop-perm (suc i) state xs =
      Perm.trans (shuffle_loop-perm i (next_state state) _)
        (swap-perm xs (suc i) (next_state state % (suc i + 1)))

  random_loop-perm : (draw : ℕ → ℕ) (i : ℕ) (xs : List A) → Perm (random_loop draw i xs) xs
  unfolding random_loop
  random_loop-perm draw zero xs = Perm.refl xs
  random_loop-perm draw (suc i) xs =
      Perm.trans (random_loop-perm draw i _) (swap-perm xs (suc i) (draw (suc i)))

  -- Either shuffle, the seeded and the random one, returns a permutation of the records.
  pub shuffle_by-perm : (o : Order) (xs : List A) → Perm (shuffle_by o xs) xs
  unfolding seeded_shuffle random_shuffle
  shuffle_by-perm (seeded seed) xs = shuffle_loop-perm (length xs - 1) _ xs
  shuffle_by-perm (drawn draw) xs = random_loop-perm draw (length xs - 1) xs

module _ {ℓ} {A : Type ℓ} where
  length-permᴰ : {xs ys : List A} → Permᴰ xs ys → length xs ≡ length ys
  length-permᴰ Permᴰ.nil = refl
  length-permᴰ (Permᴰ.cons e p) = ap suc (length-permᴰ p)
  length-permᴰ (Permᴰ.swap e f) = refl
  length-permᴰ (Permᴰ.trans p q) = length-permᴰ p ∙ length-permᴰ q

  pub length-shuffle_by : (o : Order) (xs : List A) → length (shuffle_by o xs) ≡ length xs
  length-shuffle_by o xs = ∥∥₁_elim (shuffle_by-perm o xs) (ℕ_set _ _) length-permᴰ
