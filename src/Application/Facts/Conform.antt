-- ===== src/Application/Facts/Conform.antt =====
-- What src/application.rs checks of a fact against its schema: `validate_fact_against_schema` and
-- `validate_json_value`. The depth is kept as the levels that are left. An index of a key that a map
-- does not hold, where the source panics, is answered with an error of its own.
use community_stack.Common.{
  ℕ, zero, suc, String, Bool, false, not, ◌&&◌, ◌||◌, Option, none, some, is_none, ltb, ◌==◌,
  str_eq, find, concat, decimal,
}
use community_stack.Domain.Json.{
  Value, Items, nil, cons, Fields, end, field, get, contains_key, is_boolean, is_null, as_str,
  as_object, as_array, as_i64, as_u64, as_f64, items_len, f64_lt, F64,
}
use Prim.Native.String.{count as char_count}
use community_stack.Domain.Facts.{AssertFact, FactSchema, ProvenancePolicy}
use community_stack.Failure.{Check, Result, ok, err, bail, reject, or_fail, ◌>>=◌, ◌>>◌}
use community_stack.Application.Facts.Schema.{
  SchemaKind, schema_kind, and_then, keys, not_finite, levels,
}

-- `map[key]`
unfoldable pub index : Fields → String → Result Value
index fs key = or_fail (get fs key) (bail "no entry found for key")

abbrev pub refuse_unknown : String → Option String → Check
refuse_unknown path none = ok tt
refuse_unknown path (some unknown) =
    err (bail (concat path (concat "." (concat unknown " is not allowed by the schema"))))

-- `for required in …`
unfoldable pub check_required : Fields → String → Items → Check
check_required fs path nil = ok tt
check_required fs path (cons v vs) = do
  name ← or_fail (as_str v) (bail "stored required name is invalid")
  reject (not (contains_key fs name)) (bail (concat path (concat "." (concat name " is required"))))
  check_required fs path vs

-- `for (name, child) in value`; `check` is the check of a value one level below.
unfoldable pub check_entries : (Value → Value → String → Check) → Fields → String → Fields → Check
check_entries check properties path end = ok tt
check_entries check properties path (field name child fs) = do
  schema ← index properties name
  check child schema (concat path (concat "." name))
  check_entries check properties path fs

abbrev pub place : String → ℕ → String
place path n = concat path (concat "[" (concat (decimal n) "]"))

-- `for (index, child) in value.iter().enumerate()`
unfoldable pub check_items : (Value → Value → String → Check) → Fields → String → ℕ → Items → Check
check_items check fs path n nil = ok tt
check_items check fs path n (cons child vs) = do
  schema ← index fs "items"
  check child schema (place path n)
  check_items check fs path (suc n) vs

-- `values.iter().any(|candidate| candidate.as_str() == Some(value))`
unfoldable pub is_among : String → Items → Bool
is_among value nil = false
is_among value (cons v vs) =
    elim (as_str v) [ none ↦ false | some candidate ↦ str_eq candidate value ] || is_among value vs

abbrev pub not_among : String → Option Items → Bool
not_among value none = false
not_among value (some values) = not (is_among value values)

-- `schema.get("minimum").and_then(Value::as_f64).is_some_and(|min| number < min)`, and for "maximum".
abbrev pub below : F64 → Option F64 → Bool
below number none = false
below number (some least) = f64_lt number least

abbrev pub above : F64 → Option F64 → Bool
above number none = false
above number (some most) = f64_lt most number

abbrev pub check_range : Fields → Value → String → Check
check_range fs value path = do
  number ← or_fail (as_f64 value) (bail "numeric value is out of range")
  reject
      (below number (and_then (get fs "minimum") as_f64)
        || above number (and_then (get fs "maximum") as_f64))
      (bail (concat path " is outside the allowed numeric range"))

abbrev pub unsupported_type : String
unsupported_type = "stored object schema contains an unsupported type"

-- The `match kind`. The arms of "boolean" and "null" have a guard, and a value that passes it goes on to
-- the last arm.
unfoldable pub check_value :
    (Value → Value → String → Check) → Option SchemaKind → Fields → Value → String → Check
check_value check (some SchemaKind.object) fs value path = do
  entries ← or_fail (as_object value) (bail (concat path " must be an object"))
  p ← index fs "properties"
  properties ← or_fail (as_object p) (bail "stored properties are invalid")
  refuse_unknown path (find (λ key. not (contains_key properties key)) (keys entries))
  r ← index fs "required"
  required ← or_fail (as_array r) (bail "stored required list is invalid")
  check_required entries path required
  check_entries check properties path entries
check_value check (some SchemaKind.array) fs value path = do
  items ← or_fail (as_array value) (bail (concat path " must be an array"))
  m ← index fs "maxItems"
  most ← or_fail (as_u64 m) (bail "stored maxItems is invalid")
  reject (ltb most (items_len items)) (bail (concat path " exceeds maxItems"))
  check_items check fs path 0 items
check_value check (some SchemaKind.string) fs value path = do
  text ← or_fail (as_str value) (bail (concat path " must be a string"))
  m ← index fs "maxLength"
  most ← or_fail (as_u64 m) (bail "stored maxLength is invalid")
  reject (ltb most (char_count text)) (bail (concat path " exceeds maxLength"))
  reject (not_among text (and_then (get fs "enum") as_array))
      (bail (concat path " is not an allowed enum value"))
check_value check (some SchemaKind.integer) fs value path = do
  reject (is_none (as_i64 value) && is_none (as_u64 value))
      (bail (concat path " must be an integer"))
  check_range fs value path
check_value check (some SchemaKind.number) fs value path = do
  reject (not_finite (as_f64 value)) (bail (concat path " must be a finite number"))
  check_range fs value path
check_value check (some SchemaKind.boolean) fs value path = do
  reject (not (is_boolean value)) (bail (concat path " must be a boolean"))
  err (bail unsupported_type)
check_value check (some SchemaKind.null) fs value path = do
  reject (not (is_null value)) (bail (concat path " must be null"))
  err (bail unsupported_type)
check_value check none fs value path = err (bail unsupported_type)

unfoldable pub validate_json_value : ℕ → Value → Value → String → Check
validate_json_value zero value schema path =
    err (bail (concat "object at " (concat path " exceeds schema depth")))
validate_json_value (suc left) value schema path = do
  fs ← or_fail (as_object schema) (bail "stored object schema is invalid")
  type ← index fs "type"
  name ← or_fail (as_str type) (bail "stored object schema type is invalid")
  check_value (validate_json_value left) (schema_kind name) fs value path

-- The `match schema.provenance_policy`.
abbrev pub check_provenance : ProvenancePolicy → Option String → Option String → Check
check_provenance ProvenancePolicy.none source document = ok tt
check_provenance ProvenancePolicy.source source document =
    reject (is_none source) (bail "schema requires source provenance")
check_provenance ProvenancePolicy.source_document source document =
    reject (is_none document) (bail "schema requires source_document_id provenance")
check_provenance ProvenancePolicy.source_and_document source document =
    reject (is_none source || is_none document)
      (bail "schema requires source and source_document_id provenance")

unfoldable pub validate_fact_against_schema : AssertFact → FactSchema → Check
validate_fact_against_schema fact schema = do
  reject
      (not (str_eq fact.predicate schema.predicate)
        || not (str_eq fact.schema_id schema.schema_id)
        || not (fact.schema_version == schema.schema_version))
      (bail "predicate and schema reference do not match the registered schema")
  check_provenance schema.provenance_policy fact.source fact.source_document_id
  validate_json_value levels fact.object schema.object_schema "$"
