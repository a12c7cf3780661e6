-- ===== src/Application/Facts/Schema.antt =====
-- The registration of a fact schema in src/application.rs: `validate_schema_registration` and
-- `validate_schema_node`. The depth is kept as the levels that are left, of the five from 0 to 4, and
-- `nodes` is passed on as a state.
use community_stack.Common.{
  ℕ, zero, suc, String, Bool, true, false, not, ◌&&◌, ◌||◌, Option, none, some, List, [], ◌∷◌,
  is_none, ltb, leb, ◌==◌, str_eq, any, find, if◌then◌else◌, concat, decimal,
}
use community_stack.Domain.Json.{
  Value, Items, nil, cons, Fields, end, field, get, contains_key, as_str, as_object, as_array,
  as_u64, as_f64, opt_value_eq, fields_len, items_len, is_finite, F64,
}
use text.Mathlib.Text.{starts_with}
use community_stack.Domain.Facts.{RegisterFactSchema, max_fact_object_bytes}
use community_stack.Failure.{Check, Result, ok, err, bail, reject, or_fail, ◌>>=◌, ◌>>◌}
use community_stack.Application.Validate.{validate_object_id, validate_fact_term}

-- The arms of `match kind`: the types of JSON that a schema may name.
pub data SchemaKind : Type 0 where
  object array string integer number boolean null : SchemaKind

unfoldable pub schema_kind : String → Option SchemaKind
schema_kind name =
    if str_eq name "object"
    then some SchemaKind.object
    else if str_eq name "array"
    then some SchemaKind.array
    else if str_eq name "string"
    then some SchemaKind.string
    else if str_eq name "integer"
    then some SchemaKind.integer
    else if str_eq name "number"
    then some SchemaKind.number
    else if str_eq name "boolean"
    then some SchemaKind.boolean
    else if str_eq name "null"
    then some SchemaKind.null
    else none

abbrev pub allowed_keywords : SchemaKind → List String
allowed_keywords SchemaKind.object =
    "type" ∷ "description" ∷ "properties" ∷ "required" ∷ "additionalProperties" ∷ []
allowed_keywords SchemaKind.array = "type" ∷ "description" ∷ "items" ∷ "maxItems" ∷ []
allowed_keywords SchemaKind.string = "type" ∷ "description" ∷ "maxLength" ∷ "enum" ∷ []
allowed_keywords SchemaKind.integer = "type" ∷ "description" ∷ "minimum" ∷ "maximum" ∷ []
allowed_keywords SchemaKind.number = "type" ∷ "description" ∷ "minimum" ∷ "maximum" ∷ []
allowed_keywords SchemaKind.boolean = "type" ∷ "description" ∷ []
allowed_keywords SchemaKind.null = "type" ∷ "description" ∷ []

-- `Option::and_then`
abbrev pub and_then {μ ν} : {A : Type μ} {B : Type ν} → Option A → (A → Option B) → Option B
and_then none f = none
and_then (some a) f = f a

-- `Map::keys`
unfoldable pub keys : Fields → List String
keys end = []
keys (field k v fs) = k ∷ keys fs

abbrev pub refuse_keyword : Option String → Check
refuse_keyword none = ok tt
refuse_keyword (some keyword) = err (bail (concat "unsupported JSON schema keyword " keyword))

-- `name.as_str().is_none_or(|name| !properties.contains_key(name))`
abbrev pub is_undeclared : Fields → Option String → Bool
is_undeclared properties none = true
is_undeclared properties (some name) = not (contains_key properties name)

unfoldable pub undeclared : Fields → Items → Bool
undeclared properties nil = false
undeclared properties (cons v vs) = is_undeclared properties (as_str v) || undeclared properties vs

-- `values.iter().any(|value| value.as_str().is_none())`
unfoldable pub some_not_text : Items → Bool
some_not_text nil = false
some_not_text (cons v vs) = is_none (as_str v) || some_not_text vs

abbrev pub not_finite : Option F64 → Bool
not_finite none = true
not_finite (some x) = not (is_finite x)

abbrev pub is_bad_bound : Option Value → Bool
is_bad_bound none = false
is_bad_bound (some v) = not_finite (as_f64 v)

abbrev pub check_enum : Option Value → Check
check_enum none = ok tt
check_enum (some v) = do
  values ← or_fail (as_array v) (bail "enum must be an array")
  reject (items_len values == 0 || ltb 128 (items_len values) || some_not_text values)
      (bail "string enum must contain 1..=128 strings")

-- `for child in properties.values()`
unfoldable pub check_children : (Value → ℕ → Result ℕ) → Fields → ℕ → Result ℕ
check_children check end nodes = ok nodes
check_children check (field k child fs) nodes = do
  nodes' ← check child nodes
  check_children check fs nodes'

abbrev pub check_bounds : Fields → ℕ → Result ℕ
check_bounds fs nodes = do
  reject (is_bad_bound (get fs "minimum")) (bail "numeric schema bounds must be finite numbers")
  reject (is_bad_bound (get fs "maximum")) (bail "numeric schema bounds must be finite numbers")
  ok nodes

-- The second `match kind`; `check` is the check of a node one level below.
unfoldable pub check_arm : (Value → ℕ → Result ℕ) → SchemaKind → Fields → ℕ → Result ℕ
check_arm check SchemaKind.object fs nodes = do
  reject (not (opt_value_eq (get fs "additionalProperties") (some (Value.bool false))))
      (bail "object schemas must set additionalProperties to false")
  properties ←
      or_fail (and_then (get fs "properties") as_object)
        (bail "object schemas require a properties object")
  reject (ltb 64 (fields_len properties)) (bail "object schema has more than 64 properties")
  required ←
      or_fail (and_then (get fs "required") as_array)
        (bail "object schemas require a required array")
  reject (ltb (fields_len properties) (items_len required) || undeclared properties required)
      (bail "required must contain only declared property names")
  check_children check properties nodes
check_arm check SchemaKind.array fs nodes = do
  most ← or_fail (and_then (get fs "maxItems") as_u64) (bail "array schemas require maxItems")
  reject (ltb 128 most) (bail "array maxItems exceeds 128")
  items ← or_fail (get fs "items") (bail "array schemas require items")
  check items nodes
check_arm check SchemaKind.string fs nodes = do
  most ← or_fail (and_then (get fs "maxLength") as_u64) (bail "string schemas require maxLength")
  reject (ltb 4096 most) (bail "string maxLength exceeds 4096")
  check_enum (get fs "enum")
  ok nodes
check_arm check SchemaKind.integer fs nodes = check_bounds fs nodes
check_arm check SchemaKind.number fs nodes = check_bounds fs nodes
check_arm check SchemaKind.boolean fs nodes = ok nodes
check_arm check SchemaKind.null fs nodes = ok nodes

unfoldable pub validate_schema_node : ℕ → Bool → Value → ℕ → Result ℕ
validate_schema_node zero root schema nodes = err (bail "object schema nesting exceeds four levels")
validate_schema_node (suc left) root schema nodes = do
  reject (leb 65535 nodes) (bail "object schema is too large")
  reject (ltb 256 (suc nodes)) (bail "object schema exceeds 256 nodes")
  fs ← or_fail (as_object schema) (bail "every schema node must be a JSON object")
  name ←
      or_fail (and_then (get fs "type") as_str) (bail "every schema node requires one string type")
  reject (root && not (str_eq name "object")) (bail "fact object schema root type must be object")
  kind ← or_fail (schema_kind name) (bail (concat "unsupported JSON schema type " name))
  refuse_keyword (find (λ key. not (any (str_eq key) (allowed_keywords kind))) (keys fs))
  check_arm (validate_schema_node left false) kind fs (suc nodes)

-- The levels of a schema, and of a value that is checked against it.
abbrev pub levels : ℕ
levels = 5

-- `encoded` is the value that `serde_json::to_vec` makes of the schema.
unfoldable pub validate_schema_registration : RegisterFactSchema → ℕ → Check
validate_schema_registration r encoded_len = do
  validate_object_id r.app_id "app_id"
  validate_object_id r.schema_id "schema_id"
  validate_fact_term r.predicate "predicate"
  reject (r.schema_version == 0) (bail "schema_version must be greater than zero")
  reject (not (starts_with r.schema_id (concat r.app_id "/")))
      (bail "schema_id must be namespaced by app_id")
  reject (not (str_eq r.predicate (concat r.schema_id (concat "@" (decimal r.schema_version)))))
      (bail "predicate must equal <schema_id>@<schema_version>")
  reject (ltb max_fact_object_bytes encoded_len) (bail "object schema exceeds 65536 bytes")
  nodes ← validate_schema_node levels true r.object_schema 0
  ok tt
