-- ===== src/Domain/Equality.antt =====
-- The equality of JSON values does not depend on the order of its arguments.
use community_stack.Common.{
  ◌≡◌, refl, ap₂, String, Bool, true, false, ◌&&◌, Option, none, some, str_eq, str_eq_iff, arith,
}
use community_stack.Domain.Json.{
  Number, pos_int, neg_int, float, Value, Items, Fields, null, bool, number, string, array, object,
  nil, cons, end, field, number_eq, bool_eq, value_eq, items_eq, fields_eq, opt_value_eq,
}

number_eq_sym : (a b : Number) → number_eq a b ≡ number_eq b a
unfolding number_eq
number_eq_sym (pos_int a) (pos_int b) = ground arith
number_eq_sym (pos_int a) (neg_int b) = refl
number_eq_sym (pos_int a) (float b) = refl
number_eq_sym (neg_int a) (pos_int b) = refl
number_eq_sym (neg_int a) (neg_int b) = ground arith
number_eq_sym (neg_int a) (float b) = refl
number_eq_sym (float a) (pos_int b) = refl
number_eq_sym (float a) (neg_int b) = refl
number_eq_sym (float a) (float b) = ground arith

str_eq_sym : (a b : String) → str_eq a b ≡ str_eq b a
str_eq_sym a b = ground (arith, str_eq_iff a b, str_eq_iff b a)

bool_eq_sym : (a b : Bool) → bool_eq a b ≡ bool_eq b a
bool_eq_sym true true = refl
bool_eq_sym true false = refl
bool_eq_sym false true = refl
bool_eq_sym false false = refl

mutual
  unfolding value_eq items_eq fields_eq

  pub value_eq_sym : (a b : Value) → value_eq a b ≡ value_eq b a
  value_eq_sym null null = refl
  value_eq_sym (bool a) (bool b) = bool_eq_sym a b
  value_eq_sym (number a) (number b) = number_eq_sym a b
  value_eq_sym (string a) (string b) = str_eq_sym a b
  value_eq_sym (array a) (array b) = items_eq_sym a b
  value_eq_sym (object a) (object b) = fields_eq_sym a b
  value_eq_sym _ _ = refl

  items_eq_sym : (a b : Items) → items_eq a b ≡ items_eq b a
  items_eq_sym nil nil = refl
  items_eq_sym nil (cons b bs) = refl
  items_eq_sym (cons a as') nil = refl
  items_eq_sym (cons a as') (cons b bs) =
      ap₂ (λ x y. x && y) (value_eq_sym a b) (items_eq_sym as' bs)

  fields_eq_sym : (a b : Fields) → fields_eq a b ≡ fields_eq b a
  fields_eq_sym end end = refl
  fields_eq_sym end (field j b gs) = refl
  fields_eq_sym (field k a fs) end = refl
  fields_eq_sym (field k a fs) (field j b gs) =
      ap₂ (λ x y. x && y) (ap₂ (λ x y. x && y) (str_eq_sym k j) (value_eq_sym a b))
        (fields_eq_sym fs gs)

pub opt_value_eq_sym : (a b : Option Value) → opt_value_eq a b ≡ opt_value_eq b a
opt_value_eq_sym none none = refl
opt_value_eq_sym none (some b) = refl
opt_value_eq_sym (some a) none = refl
opt_value_eq_sym (some a) (some b) = value_eq_sym a b
