-- ===== src/Application/Facts/Registered.antt =====
-- What a registered schema holds, so that `validate_json_value` of src/application.rs, which reads it
-- again, finds it whole.
use community_stack.Common.{
  List, ◌∷◌, ℕ, suc, String, ◌≡◌, refl, sym, ap, ◌∙◌, subst, Bool, true, false, not, ◌&&◌, Option,
  none, some, is_none, str_eq, find, concat, arith, Bool-cases, if◌then◌else◌, inl, inr, ||-false,
}
use community_stack.Domain.Json.{
  Value, Items, nil, cons, Fields, end, field, get, contains_key, as_i64, as_u64, as_f64, F64,
}
use community_stack.Failure.{Check, Result, ok, bail, or_fail, >>=-eq-ok}
use community_stack.Application.Facts.Schema.{
  and_then, keys, not_finite, undeclared, check_children,
}
use community_stack.Application.Facts.Conform.{
  index, check_required, check_entries, check_items, check_range, place, below,
}
use community_stack.Application.Facts.Blame.{
  IsPlace, BlamesValue, concat-IsPlace, reject-BlamesValue, >>-BlamesValue, known-BlamesValue,
}

pub or_fail-eq-ok :
    {A : Type 0} (o : Option A) (message : String) {a : A}
    → or_fail o (bail message) ≡ ok a
    → o ≡ some a
or_fail-eq-ok none message e = cc
or_fail-eq-ok (some a) message e = cc

-- `get` and a reading that both succeed.
pub and_then-some :
    {A B : Type 0} (o : Option A) (f : A → Option B) (b : B)
    → and_then o f ≡ some b
    → (a : A) × (o ≡ some a) × (f a ≡ some b)
and_then-some none f b e = cc
and_then-some (some a) f b e = (a, refl, e)

some_eq : {A : Type 0} {a b : A} → some a ≡ some b → a ≡ b
some_eq e = cc

get-here :
    (k key : String) (v : Value) (fs : Fields)
    → str_eq k key ≡ true
    → get (field k v fs) key ≡ some v
unfolding get
get-here k key v fs same = ap (λ b. if b then some v else get fs key) same

get-later :
    (k key : String) (v : Value) (fs : Fields)
    → str_eq k key ≡ false
    → get (field k v fs) key ≡ get fs key
unfolding get
get-later k key v fs other = ap (λ b. if b then some v else get fs key) other

contains_key-get :
    (fs : Fields) (key : String) → contains_key fs key ≡ true → (v : Value) × (get fs key ≡ some v)
unfolding contains_key
contains_key-get end key h = cc
contains_key-get (field k v fs) key h = elim (Bool-cases (str_eq k key)) [
  | inl same ↦ (v, get-here k key v fs same)
  | inr other ↦
      let (w, found) = contains_key-get fs key (ground (arith, h, other)) in
      (w, get-later k key v fs other ∙ found)
]

pub check_children-get :
    (check : Value → ℕ → Result ℕ) (fs : Fields) (n m : ℕ) (key : String) (v : Value)
    → check_children check fs n ≡ ok m
    → get fs key ≡ some v
    → (i : ℕ) × (j : ℕ) × (check v i ≡ ok j)
unfolding check_children get
check_children-get check end n m key v e h = cc
check_children-get check (field k child fs) n m key v e h =
    let (i, first, rest) = >>=-eq-ok (check child n) _ e in
    elim (Bool-cases (str_eq k key)) [
      | inl same ↦ (
        n,
        i,
        subst (λ w. check w n ≡ ok i) (some_eq (sym (get-here k key child fs same) ∙ h)) first,
      )
      | inr other ↦
          check_children-get check fs i m key v rest (sym (get-later k key child fs other) ∙ h)
    ]

abbrev pub BlamesBelow : (Value → Value → String → Check) → Value → Type 0
BlamesBelow check schema =
    (value : Value) (path : String) → IsPlace path → BlamesValue (check value schema path)

pub required-BlamesValue :
    (properties entries : Fields) (path : String) (names : Items)
    → IsPlace path
    → undeclared properties names ≡ false
    → BlamesValue (check_required entries path names)
unfolding undeclared check_required BlamesValue
required-BlamesValue properties entries path nil p h = tt
required-BlamesValue properties entries path (cons (Value.string name) names) p h =
    let (here, rest) = ||-false (not (contains_key properties name)) _ h in
    >>-BlamesValue _ _
      (reject-BlamesValue (not (contains_key entries name)) _ (concat-IsPlace path _ p))
      (required-BlamesValue properties entries path names p rest)
required-BlamesValue properties entries path (cons v names) p h = cc

find-none_known :
    (known : String → Bool) (key : String) (rest : List String)
    → find (λ k. not (known k)) (key ∷ rest) ≡ none
    → (known key ≡ true) × (find (λ k. not (known k)) rest ≡ none)
unfolding find
find-none_known known key rest h = (ground (arith, h), ground (arith, h))

pub entries-BlamesValue :
    (check : Value → Value → String → Check) (properties : Fields) (path : String)
    (entries : Fields)
    → IsPlace path
    → ((key : String) (schema : Value)
        → get properties key ≡ some schema
        → BlamesBelow check schema)
    → find (λ key. not (contains_key properties key)) (keys entries) ≡ none
    → BlamesValue (check_entries check properties path entries)
unfolding check_entries BlamesValue keys index
entries-BlamesValue check properties path end p below h = tt
entries-BlamesValue check properties path (field name child fs) p below h =
    let (known, rest) = find-none_known (contains_key properties) name (keys fs) h in
    let (schema, found) = contains_key-get properties name known in
    known-BlamesValue (get properties name) _ _ schema found (
      >>-BlamesValue (check child schema (concat path (concat "." name))) _
        (below name schema found child (concat path (concat "." name)) (concat-IsPlace path _ p))
        (entries-BlamesValue check properties path fs p below rest))

pub items-BlamesValue :
    (check : Value → Value → String → Check) (fs : Fields) (schema : Value) (path : String) (n : ℕ)
    (values : Items)
    → IsPlace path
    → get fs "items" ≡ some schema
    → BlamesBelow check schema
    → BlamesValue (check_items check fs path n values)
unfolding check_items BlamesValue index
items-BlamesValue check fs schema path n nil p e below = tt
items-BlamesValue check fs schema path n (cons child vs) p e below =
    known-BlamesValue (get fs "items") _ _ schema e (
      >>-BlamesValue (check child schema (place path n)) _
        (below child (place path n) (concat-IsPlace path _ p))
        (items-BlamesValue check fs schema path (suc n) vs p e below))

pub is_integer-number :
    (v : Value)
    → (is_none (as_i64 v) && is_none (as_u64 v)) ≡ false
    → (x : F64) × (as_f64 v ≡ some x)
unfolding as_i64 as_f64
is_integer-number (Value.number n) h = (_, refl)
is_integer-number v h = cc

pub finite-number : (o : Option F64) → not_finite o ≡ false → (x : F64) × (o ≡ some x)
finite-number none h = cc
finite-number (some x) h = (x, refl)

pub range-BlamesValue :
    (fs : Fields) (value : Value) (path : String) (x : F64)
    → IsPlace path
    → as_f64 value ≡ some x
    → BlamesValue (check_range fs value path)
range-BlamesValue fs value path x p e =
    known-BlamesValue (as_f64 value) _ _ x e
      (reject-BlamesValue _ _ (concat-IsPlace path " is outside the allowed numeric range" p))
