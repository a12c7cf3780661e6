-- ===== src/Application/Facts/Whole.antt =====
-- The arms of `validate_json_value` of src/application.rs, on a node that `validate_schema_node` accepted.
use community_stack.Common.{ℕ, String, ◌≡◌, refl, false, not, ◌||◌, inr, some, ltb, find, ||-false}
use Prim.Native.String.{count as char_count}
use community_stack.Domain.Json.{
  Value, Fields, get, contains_key, is_boolean, is_null, as_str, as_object, as_array, as_u64,
  as_f64, items_len, fields_len, opt_value_eq,
}
use community_stack.Failure.{Check, Result, ok, err, bail, reject, or_fail, >>=-eq-ok, reject-eq-ok}
use community_stack.Application.Facts.Schema.{SchemaKind, and_then, keys, undeclared, check_arm}
use community_stack.Application.Facts.Conform.{
  index, check_required, check_value, not_among, unsupported_type,
}
use community_stack.Application.Facts.Blame.{
  IsPlace, BlamesValue, concat-IsPlace, reject-BlamesValue, >>-BlamesValue, read-BlamesValue,
  known-BlamesValue, unknown-BlamesValue, guard-BlamesValue,
}
use community_stack.Application.Facts.Registered.{
  BlamesBelow, or_fail-eq-ok, and_then-some, check_children-get, required-BlamesValue,
  entries-BlamesValue, items-BlamesValue, is_integer-number, finite-number, range-BlamesValue,
}

-- What a check of schemas accepts, a check of values finds whole.
abbrev pub Agree : (Value → ℕ → Result ℕ) → (Value → Value → String → Check) → Type 0
Agree node check = (schema : Value) (i j : ℕ) → node schema i ≡ ok j → BlamesBelow check schema

module _ (node : Value → ℕ → Result ℕ) (check : Value → Value → String → Check)
    (agree : Agree node check) (fs : Fields) where
  object-BlamesValue :
      (n m : ℕ) (value : Value) (path : String)
      → check_arm node SchemaKind.object fs n ≡ ok m
      → IsPlace path
      → BlamesValue (check_value check (some SchemaKind.object) fs value path)
  unfolding check_arm check_value index
  object-BlamesValue n m value path e place =
      let (u₀, e₀, f₀) =
        >>=-eq-ok
          (reject (not (opt_value_eq (get fs "additionalProperties") (some (Value.bool false)))) _)
          _ e in
      let (properties, e₁, f₁) =
        >>=-eq-ok (or_fail (and_then (get fs "properties") as_object) _) _ f₀ in
      let (u₂, e₂, f₂) = >>=-eq-ok (reject (ltb 64 (fields_len properties)) _) _ f₁ in
      let (required, e₃, f₃) = >>=-eq-ok (or_fail (and_then (get fs "required") as_array) _) _ f₂ in
      let (u₄, e₄, f₄) =
        >>=-eq-ok
          (reject
            (ltb (fields_len properties) (items_len required) || undeclared properties required) _)
          _ f₃ in
      let (p, g₁, h₁) =
        and_then-some (get fs "properties") as_object properties (or_fail-eq-ok _ _ e₁) in
      let (r, g₂, h₂) =
        and_then-some (get fs "required") as_array required (or_fail-eq-ok _ _ e₃) in
      let (few, declared) =
        ||-false (ltb (fields_len properties) (items_len required)) _ (reject-eq-ok _ _ e₄) in
      read-BlamesValue (as_object value) _ _ (concat-IsPlace path " must be an object" place)
        λ entries is_object. known-BlamesValue (get fs "properties") _ _ p g₁ (
          known-BlamesValue (as_object p) _ _ properties h₁ (
            unknown-BlamesValue (find (λ key. not (contains_key properties key)) (keys entries))
              path _ place
              λ known. known-BlamesValue (get fs "required") _ _ r g₂ (
                known-BlamesValue (as_array r) _ _ required h₂ (
                  >>-BlamesValue (check_required entries path required) _
                    (required-BlamesValue properties entries path required place declared)
                    (entries-BlamesValue check properties path entries place
                      (λ key schema found.
                        let (i, j, held) =
                          check_children-get node properties n m key schema f₄ found in
                        agree schema i j held)
                      known)))))

  array-BlamesValue :
      (n m : ℕ) (value : Value) (path : String)
      → check_arm node SchemaKind.array fs n ≡ ok m
      → IsPlace path
      → BlamesValue (check_value check (some SchemaKind.array) fs value path)
  unfolding check_arm check_value index
  array-BlamesValue n m value path e place =
      let (most, e₀, f₀) = >>=-eq-ok (or_fail (and_then (get fs "maxItems") as_u64) _) _ e in
      let (u₁, e₁, f₁) = >>=-eq-ok (reject (ltb 128 most) _) _ f₀ in
      let (items, e₂, f₂) = >>=-eq-ok (or_fail (get fs "items") _) _ f₁ in
      let (v, g, h) = and_then-some (get fs "maxItems") as_u64 most (or_fail-eq-ok _ _ e₀) in
      read-BlamesValue (as_array value) _ _ (concat-IsPlace path " must be an array" place)
        λ values is_array. known-BlamesValue (get fs "maxItems") _ _ v g (
          known-BlamesValue (as_u64 v) _ _ most h (
            >>-BlamesValue (reject (ltb most (items_len values)) _) _
              (reject-BlamesValue _ _ (concat-IsPlace path " exceeds maxItems" place))
              (items-BlamesValue check fs items path 0 values place (or_fail-eq-ok _ _ e₂)
                (agree items n m f₂))))

  string-BlamesValue :
      (n m : ℕ) (value : Value) (path : String)
      → check_arm node SchemaKind.string fs n ≡ ok m
      → IsPlace path
      → BlamesValue (check_value check (some SchemaKind.string) fs value path)
  unfolding check_arm check_value index
  string-BlamesValue n m value path e place =
      let (most, e₀, f₀) = >>=-eq-ok (or_fail (and_then (get fs "maxLength") as_u64) _) _ e in
      let (v, g, h) = and_then-some (get fs "maxLength") as_u64 most (or_fail-eq-ok _ _ e₀) in
      read-BlamesValue (as_str value) _ _ (concat-IsPlace path " must be a string" place)
        λ text is_text. known-BlamesValue (get fs "maxLength") _ _ v g (
          known-BlamesValue (as_u64 v) _ _ most h (
            >>-BlamesValue (reject (ltb most (char_count text)) _) _
              (reject-BlamesValue _ _ (concat-IsPlace path " exceeds maxLength" place))
              (reject-BlamesValue (not_among text (and_then (get fs "enum") as_array)) _
                (concat-IsPlace path " is not an allowed enum value" place))))

  pub arm-BlamesValue :
      (kind : SchemaKind) (n m : ℕ) (value : Value) (path : String)
      → check_arm node kind fs n ≡ ok m
      → IsPlace path
      → BlamesValue (check_value check (some kind) fs value path)
  unfolding check_value BlamesValue
  arm-BlamesValue SchemaKind.object n m value path e place =
      object-BlamesValue n m value path e place
  arm-BlamesValue SchemaKind.array n m value path e place = array-BlamesValue n m value path e place
  arm-BlamesValue SchemaKind.string n m value path e place =
      string-BlamesValue n m value path e place
  arm-BlamesValue SchemaKind.integer n m value path e place =
      guard-BlamesValue _ _ _ (concat-IsPlace path " must be an integer" place) λ whole.
        let (x, found) = is_integer-number value whole in
        range-BlamesValue fs value path x place found
  arm-BlamesValue SchemaKind.number n m value path e place =
      guard-BlamesValue _ _ _ (concat-IsPlace path " must be a finite number" place) λ finite.
        let (x, found) = finite-number (as_f64 value) finite in
        range-BlamesValue fs value path x place found
  arm-BlamesValue SchemaKind.boolean n m value path e place =
      guard-BlamesValue (not (is_boolean value)) _ (err (bail unsupported_type))
        (concat-IsPlace path " must be a boolean" place) (λ passed. inr refl)
  arm-BlamesValue SchemaKind.null n m value path e place =
      guard-BlamesValue (not (is_null value)) _ (err (bail unsupported_type))
        (concat-IsPlace path " must be null" place) (λ passed. inr refl)
