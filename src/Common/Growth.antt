-- ===== src/Common/Growth.antt =====
-- A list of stored objects after some calls: each old one stands where it stood, changed as a
-- relation allows, and new ones may follow.
use Prim.Native.Nat.{ℕ, zero, suc}
use mathlib.Core.Path.{subst, ◌≡◌, refl}
use mathlib.Core.Bool.{Bool}
use mathlib.Core.List.{List, [], ◌∷◌, ◌++◌, map}
use mathlib.Core.Logic.{inl, inr}
use mathlib.Core.Option.{some}
use native.Mathlib.Omega.{arith}
use web_action_recorder_exte.Common.Tests.{Bool-cases, eq_of_some}
use web_action_recorder_exte.Common.Lists.{get_elem?}
use web_action_recorder_exte.Common.Select.{find_first, update_first}

module _ {ℓ} {A : Type ℓ} where
  abbrev pub Grows : (A → A → Type 0) → List A → List A → Type 0
  Grows R [] ys = Unit
  Grows R (x ∷ xs) [] = ⊥
  Grows R (x ∷ xs) (y ∷ ys) = R x y × Grows R xs ys

  module _ (R : A → A → Type 0) (R-refl : (a : A) → R a a) where
    pub Grows-append : (xs ys : List A) → Grows R xs (xs ++ ys)
    Grows-append [] ys = tt
    Grows-append (x ∷ xs) ys = (R-refl x, Grows-append xs ys)

    pub Grows-self : (xs : List A) → Grows R xs xs
    Grows-self [] = tt
    Grows-self (x ∷ xs) = (R-refl x, Grows-self xs)

    pub Grows-write :
        (p : A → Bool) (xs : List A) {x y : A}
        → find_first p xs ≡ some x
        → R x y
        → Grows R xs (update_first p (λ _. y) xs)
    Grows-write p [] e r = tt
    Grows-write p (x ∷ xs) e r = elim (Bool-cases (p x)) [
      | inl h ↦ rw h (ground arith, Grows-self xs)
      | inr h ↦ rw h (R-refl x, Grows-write p xs (rw h at e) r)
    ]

    pub Grows-trans :
        ((a b c : A) → R a b → R b c → R a c)
        → (xs ys zs : List A) → Grows R xs ys
        → Grows R ys zs
        → Grows R xs zs
    Grows-trans t [] ys zs g h = tt
    Grows-trans t (x ∷ xs) [] zs g h = absurd g
    Grows-trans t (x ∷ xs) (y ∷ ys) [] g h = absurd h
    Grows-trans t (x ∷ xs) (y ∷ ys) (z ∷ zs) g h = (t x y z g.0 h.0, Grows-trans t xs ys zs g.1 h.1)

  pub Grows-map :
      (R : A → A → Type 0) (f : A → A)
      → ((a : A) → R a (f a))
      → (xs : List A) → Grows R xs (map f xs)
  Grows-map R f r [] = tt
  Grows-map R f r (x ∷ xs) = (r x, Grows-map R f r xs)

pub get_elem?-Grows {ℓ} :
    {A : Type ℓ} (R : A → A → Type 0) (xs ys : List A) (i : ℕ) {a : A}
    → Grows R xs ys
    → get_elem? xs i ≡ some a
    → (b : A) × (get_elem? ys i ≡ some b) × R a b
get_elem?-Grows R [] ys i g h = absurd (cc)
get_elem?-Grows R (x ∷ xs) [] i g h = absurd g
get_elem?-Grows R (x ∷ xs) (y ∷ ys) zero g h = (y, refl, subst (λ z. R z y) (eq_of_some h) g.0)
get_elem?-Grows R (x ∷ xs) (y ∷ ys) (suc i) g h = get_elem?-Grows R xs ys i g.1 h
