-- ===== src/Domain/Json.antt =====
-- The values of serde_json that the records hold, and `f64` as its 64 bits. An object is a list of
-- its entries in the order of their keys, so equal objects are equal lists.
use community_stack.Common.{
  ℕ, ◌/◌, ◌%◌, ◌^◌, String, Bool, true, false, not, ◌&&◌, ◌||◌, Option, none, some, ltb, ◌==◌,
  str_eq, if◌then◌else◌, List, [], ◌∷◌, ◌+◌, ◌*◌, ◌-◌, zero, leb,
}
use community_stack.Common.Int.{ℤ, pos, negsuc, ltb_ℤ, leb_ℤ}
use Prim.Native.Nat.{suc}

-- `f64::to_bits`: the sign, 11 bits of exponent, 52 bits of fraction.
abbrev pub F64 : Type 0
F64 = ℕ

abbrev pub exponent : F64 → ℕ
exponent x = (x / 2 ^ 52) % 2048

abbrev pub magnitude : F64 → ℕ
magnitude x = x % 2 ^ 63

unfoldable pub is_finite : F64 → Bool
is_finite x = not (exponent x == 2047)

unfoldable pub is_nan : F64 → Bool
is_nan x = exponent x == 2047 && not (x % 2 ^ 52 == 0)

-- Numbers that are not NaN are ordered as these integers; both zeros are 0.
unfoldable pub rank : F64 → ℤ
rank x =
    let m = magnitude x in
    if x / 2 ^ 63 % 2 == 0 then pos m else if m == 0 then pos 0 else negsuc (Prim.Native.Nat.pred m)

-- `a < b` and `a <= b` on `f64`: false if either is NaN.
unfoldable pub f64_lt : F64 → F64 → Bool
unfolding is_nan rank
f64_lt a b = not (is_nan a) && not (is_nan b) && ltb_ℤ (rank a) (rank b)

unfoldable pub f64_le : F64 → F64 → Bool
unfolding is_nan rank
f64_le a b = not (is_nan a) && not (is_nan b) && leb_ℤ (rank a) (rank b)

-- serde_json's numbers: `u64`, negative `i64` (`neg_int n` is -(n + 1)), or `f64`.
pub data Number : Type 0 where
  pos_int : ℕ → Number
  neg_int : ℕ → Number
  float : F64 → Number

mutual
  pub data Value : Type 0 where
    null : Value
    bool : Bool → Value
    number : Number → Value
    string : String → Value
    array : Items → Value
    object : Fields → Value

  pub data Items : Type 0 where
    nil : Items
    cons : Value → Items → Items

  pub data Fields : Type 0 where
    end : Fields
    field : String → Value → Fields → Fields

unfoldable pub number_eq : Number → Number → Bool
unfolding f64_le
number_eq (pos_int a) (pos_int b) = a == b
number_eq (neg_int a) (neg_int b) = a == b
number_eq (float a) (float b) = f64_le a b && f64_le b a
number_eq _ _ = false

abbrev pub bool_eq : Bool → Bool → Bool
bool_eq true b = b
bool_eq false b = not b

-- `Value: PartialEq`
unfoldable mutual
  unfolding number_eq

  pub value_eq : Value → Value → Bool
  value_eq null null = true
  value_eq (bool a) (bool b) = bool_eq a b
  value_eq (number a) (number b) = number_eq a b
  value_eq (string a) (string b) = str_eq a b
  value_eq (array a) (array b) = items_eq a b
  value_eq (object a) (object b) = fields_eq a b
  value_eq _ _ = false

  pub items_eq : Items → Items → Bool
  items_eq nil nil = true
  items_eq (cons a as') (cons b bs) = value_eq a b && items_eq as' bs
  items_eq _ _ = false

  pub fields_eq : Fields → Fields → Bool
  fields_eq end end = true
  fields_eq (field k a fs) (field j b gs) = str_eq k j && value_eq a b && fields_eq fs gs
  fields_eq _ _ = false

abbrev pub is_null : Value → Bool
is_null null = true
is_null _ = false

abbrev pub is_boolean : Value → Bool
is_boolean (bool b) = true
is_boolean _ = false

abbrev pub is_string : Value → Bool
is_string (string s) = true
is_string _ = false

abbrev pub as_str : Value → Option String
as_str (string s) = some s
as_str _ = none

abbrev pub as_array : Value → Option Items
as_array (array xs) = some xs
as_array _ = none

abbrev pub as_object : Value → Option Fields
as_object (object fs) = some fs
as_object _ = none

-- `i64` holds the unsigned numbers below 2^63.
unfoldable pub as_i64 : Value → Option ℤ
as_i64 (number (pos_int n)) = if ltb n (2 ^ 63) then some (pos n) else none
as_i64 (number (neg_int n)) = some (negsuc n)
as_i64 _ = none

abbrev pub as_u64 : Value → Option ℕ
as_u64 (number (pos_int n)) = some n
as_u64 _ = none

-- `Map::get`
unfoldable pub get : Fields → String → Option Value
get end k = none
get (field j v fs) k = if str_eq j k then some v else get fs k

-- `Map::contains_key`
unfoldable pub contains_key : Fields → String → Bool
contains_key end k = false
contains_key (field j v fs) k = str_eq j k || contains_key fs k

abbrev pub fields_len : Fields → ℕ
fields_len end = 0
fields_len (field k v fs) = suc (fields_len fs)

abbrev pub items_len : Items → ℕ
items_len nil = 0
items_len (cons x xs) = suc (items_len xs)

-- `Option<&Value>` compared with `==`.
abbrev pub opt_value_eq : Option Value → Option Value → Bool
opt_value_eq none none = true
opt_value_eq (some a) (some b) = value_eq a b
opt_value_eq _ _ = false

-- `values.contains(value)`
unfoldable pub items_contain : Items → Value → Bool
items_contain nil v = false
items_contain (cons x xs) v = value_eq x v || items_contain xs v

-- The items as a list.
abbrev pub items : Items → List Value
items nil = []
items (cons x xs) = x ∷ items xs

-- The place of the highest bit of `n`, which is not 0, if that is at most `fuel`.
unfoldable pub highest_bit : ℕ → ℕ → ℕ
highest_bit zero n = 0
highest_bit (suc fuel) n = let rest = highest_bit fuel (n / 2) in if ltb n 2 then 0 else suc rest

-- `n / 2^s` rounded to the nearest, a tie to the even one.
abbrev pub rounded : ℕ → ℕ → ℕ
rounded n s =
    let q = n / 2 ^ s in
    let twice = 2 * (n % 2 ^ s) in
    if ltb (2 ^ s) twice || twice == 2 ^ s && q % 2 == 1 then suc q else q

-- `n as f64` for a number of 64 bits: the fraction has 52 bits, and one that rounds up to 2^53 goes on
-- to the exponent.
unfoldable pub f64_of_nat : ℕ → F64
unfolding highest_bit
f64_of_nat zero = 0
f64_of_nat n =
    let e = highest_bit 64 n in
    if leb e 52
    then (1022 + e) * 2 ^ 52 + n * 2 ^ (52 - e)
    else (1022 + e) * 2 ^ 52 + rounded n (e - 52)

unfoldable pub number_f64 : Number → F64
unfolding f64_of_nat
number_f64 (pos_int n) = f64_of_nat n
number_f64 (neg_int n) = 2 ^ 63 + f64_of_nat (suc n)
number_f64 (float x) = x

unfoldable pub as_f64 : Value → Option F64
unfolding number_f64
as_f64 (number n) = some (number_f64 n)
as_f64 _ = none
