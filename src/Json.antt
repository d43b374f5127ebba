-- ===== src/Json.antt =====
-- JSON values as the controller keeps them, and the comparison of two by their `JSON.stringify`
-- text. Numbers are natural numbers; keys keep their order. Arrays and objects have list types of
-- their own, since a data type cannot hold a `List` of itself.
pub mod Pattern
pub mod Paths
pub mod Redact
pub mod Order
use web_action_recorder_exte.Common.{
  ℕ, String, Bool, true, false, ◌&&◌, ◌==◌, str_eq, ◌≡◌, refl, arith, eq_iff, str_eq_refl,
  Bool-cases, inl, inr, ap, if◌then◌else◌, Option, none, some,
}

mutual
  pub data Json : Type 0 where
    null : Json
    bool : Bool → Json
    num : ℕ → Json
    str : String → Json
    arr : Items → Json
    obj : Fields → Json

  pub data Items : Type 0 where
    nil : Items
    cons : Json → Items → Items

  pub data Fields : Type 0 where
    end : Fields
    field : String → Json → Fields → Fields

abbrev pub empty_object : Json
empty_object = obj end

abbrev bool_eq : Bool → Bool → Bool
bool_eq true b = b
bool_eq false true = false
bool_eq false false = true

-- Equality of the `JSON.stringify` texts: the same shape, keys in the same order.
unfoldable mutual
  pub json_eq : Json → Json → Bool
  json_eq null null = true
  json_eq (bool a) (bool b) = bool_eq a b
  json_eq (num a) (num b) = a == b
  json_eq (str a) (str b) = str_eq a b
  json_eq (arr xs) (arr ys) = items_eq xs ys
  json_eq (obj xs) (obj ys) = fields_eq xs ys
  json_eq _ _ = false

  pub items_eq : Items → Items → Bool
  items_eq nil nil = true
  items_eq (cons x xs) (cons y ys) = json_eq x y && items_eq xs ys
  items_eq _ _ = false

  pub fields_eq : Fields → Fields → Bool
  fields_eq end end = true
  fields_eq (field k x xs) (field j y ys) = (str_eq k j && json_eq x y) && fields_eq xs ys
  fields_eq _ _ = false

mutual
  unfolding json_eq

  json_refl : (a : Json) → json_eq a a ≡ true
  json_refl null = refl
  json_refl (bool a) = ground arith
  json_refl (num a) = ground arith
  json_refl (str a) = str_eq_refl a
  json_refl (arr xs) = items_refl xs
  json_refl (obj xs) = fields_refl xs

  items_refl : (a : Items) → items_eq a a ≡ true
  items_refl nil = refl
  items_refl (cons x xs) = ground (arith, json_refl x, items_refl xs)

  fields_refl : (a : Fields) → fields_eq a a ≡ true
  fields_refl end = refl
  fields_refl (field k x xs) = ground (arith, str_eq_refl k, json_refl x, fields_refl xs)

and_split : (a b : Bool) → (a && b) ≡ true → (a ≡ true) × (b ≡ true)
and_split a b h = ground arith

mutual
  unfolding json_eq

  json_sound : (a b : Json) → json_eq a b ≡ true → a ≡ b
  json_sound null null h = refl
  json_sound (bool a) (bool b) h = ground arith
  json_sound (num a) (num b) h = ground arith
  json_sound (str a) (str b) h = ground (arith, eq_iff a b)
  json_sound (arr xs) (arr ys) h = ap arr (items_sound xs ys h)
  json_sound (obj xs) (obj ys) h = ap obj (fields_sound xs ys h)
  json_sound _ _ h = cc

  items_sound : (a b : Items) → items_eq a b ≡ true → a ≡ b
  items_sound nil nil h = refl
  items_sound (cons x xs) (cons y ys) h =
      let (p, q) = and_split (json_eq x y) (items_eq xs ys) h in
      cc (json_sound x y p, items_sound xs ys q)
  items_sound _ _ h = cc

  fields_sound : (a b : Fields) → fields_eq a b ≡ true → a ≡ b
  fields_sound end end h = refl
  fields_sound (field k x xs) (field j y ys) h =
      let (p, r) = and_split (str_eq k j && json_eq x y) (fields_eq xs ys) h in
      let (p, q) = and_split (str_eq k j) (json_eq x y) p in
      cc ((eq_iff k j).0 p, json_sound x y q, fields_sound xs ys r)
  fields_sound _ _ h = cc

pub json_eq_refl : (a : Json) → json_eq a a ≡ true
json_eq_refl a = json_refl a

pub eq_of_json_eq : (a b : Json) → json_eq a b ≡ true → a ≡ b
eq_of_json_eq a b h = json_sound a b h

-- `result?.ok === false`.
abbrev is_false : Json → Bool
is_false (bool false) = true
is_false _ = false

unfoldable pub lookup_field : String → Fields → Option Json
lookup_field k end = none
lookup_field k (field j v rest) = if str_eq j k then some v else lookup_field k rest

field_is_false : Option Json → Bool
field_is_false none = false
field_is_false (some v) = is_false v

unfoldable pub ok_is_false : Json → Bool
unfolding field_is_false
ok_is_false (obj fs) = field_is_false (lookup_field "ok" fs)
ok_is_false _ = false
