-- ===== src/Application/Facts/Stored.antt =====
-- `validate_json_value` of src/application.rs on a schema that `validate_schema_registration` accepted.
use community_stack.Common.{
  ◌⊎◌, ℕ, zero, suc, String, ◌≡◌, refl, sym, subst, Bool, true, false, not, ◌&&◌, inl, inr, some,
  ltb, leb, ◌==◌, str_eq, any, find, concat,
}
use text.Mathlib.Text.{starts_with}
use text.Mathlib.TextLemmas.{append-nil}
use community_stack.Domain.Json.{Value, Fields, get, is_boolean, is_null, as_str, as_object}
use community_stack.Domain.Facts.{RegisterFactSchema, max_fact_object_bytes}
use community_stack.Failure.{Check, Error, ok, err, bail, is_ok, reject, or_fail, ◌>>◌, >>=-eq-ok}
use community_stack.Application.Validate.{validate_object_id, validate_fact_term}
use community_stack.Application.Facts.Schema.{
  SchemaKind, schema_kind, and_then, keys, check_arm, validate_schema_node, refuse_keyword,
  allowed_keywords, levels, validate_schema_registration,
}
use community_stack.Application.Facts.Conform.{
  index, check_value, validate_json_value, unsupported_type,
}
use community_stack.Application.Facts.Blame.{BlamesValue, known-BlamesValue}
use community_stack.Application.Facts.Registered.{or_fail-eq-ok, and_then-some}
use community_stack.Application.Facts.Whole.{Agree, arm-BlamesValue}

-- What a node of a registered schema holds.
node-inverse :
    (left : ℕ) (root : Bool) (schema : Value) (n m : ℕ)
    → validate_schema_node (suc left) root schema n ≡ ok m
    → (fs : Fields) × (name : String) × (kind : SchemaKind) × (as_object schema ≡ some fs)
      × (and_then (get fs "type") as_str ≡ some name)
      × (schema_kind name ≡ some kind)
      × (check_arm (validate_schema_node left false) kind fs (suc n) ≡ ok m)
unfolding validate_schema_node
node-inverse left root schema n m e =
    let (u₀, e₀, f₀) = >>=-eq-ok (reject (leb 65535 n) _) _ e in
    let (u₁, e₁, f₁) = >>=-eq-ok (reject (ltb 256 (suc n)) _) _ f₀ in
    let (fs, e₂, f₂) = >>=-eq-ok (or_fail (as_object schema) _) _ f₁ in
    let (name, e₃, f₃) = >>=-eq-ok (or_fail (and_then (get fs "type") as_str) _) _ f₂ in
    let (u₄, e₄, f₄) = >>=-eq-ok (reject (root && not (str_eq name "object")) _) _ f₃ in
    let (kind, e₅, f₅) = >>=-eq-ok (or_fail (schema_kind name) _) _ f₄ in
    let (u₆, e₆, f₆) =
      >>=-eq-ok
        (refuse_keyword (find (λ key. not (any (str_eq key) (allowed_keywords kind))) (keys fs))) _
        f₅ in
    (
      fs,
      name,
      kind,
      or_fail-eq-ok (as_object schema) _ e₂,
      or_fail-eq-ok (and_then (get fs "type") as_str) _ e₃,
      or_fail-eq-ok (schema_kind name) _ e₅,
      f₆,
    )

node-BlamesValue :
    (left : ℕ) (root : Bool) → Agree (validate_schema_node left root) (validate_json_value left)
unfolding validate_schema_node validate_json_value index
node-BlamesValue zero root schema n m e value path place = cc
node-BlamesValue (suc left) root schema n m e value path place =
    let (fs, name, kind, is_object, typed, named, arm) = node-inverse left root schema n m e in
    let (type, found, text) = and_then-some (get fs "type") as_str name typed in
    known-BlamesValue (as_object schema) _ _ fs is_object (
      known-BlamesValue (get fs "type") _ _ type found (
        known-BlamesValue (as_str type) _ _ name text (
          subst (λ k. BlamesValue (check_value (validate_json_value left) k fs value path))
            (sym named)
            (arm-BlamesValue (validate_schema_node left false) (validate_json_value left)
              (node-BlamesValue left false) fs kind (suc n) m value path arm place))))

-- If a schema is registered, the check of any value against it succeeds, or its message begins with `$`,
-- the root of the place in the value that it names, or it is the answer for a type that the last arm
-- refuses: it never finds a part of the schema missing, a schema too deep, or a key to panic on.
pub registered_schema-BlamesValue :
    (r : RegisterFactSchema) (encoded_len : ℕ) (value : Value)
    → validate_schema_registration r encoded_len ≡ ok tt
    → BlamesValue (validate_json_value levels value r.object_schema "$")
unfolding validate_schema_registration
registered_schema-BlamesValue r encoded_len value e =
    let (u₀, e₀, f₀) = >>=-eq-ok (validate_object_id r.app_id "app_id") _ e in
    let (u₁, e₁, f₁) = >>=-eq-ok (validate_object_id r.schema_id "schema_id") _ f₀ in
    let (u₂, e₂, f₂) = >>=-eq-ok (validate_fact_term r.predicate "predicate") _ f₁ in
    let (u₃, e₃, f₃) = >>=-eq-ok (reject (r.schema_version == 0) _) _ f₂ in
    let (u₄, e₄, f₄) =
      >>=-eq-ok (reject (not (starts_with r.schema_id (concat r.app_id "/"))) _) _ f₃ in
    let (u₅, e₅, f₅) = >>=-eq-ok (reject (not (str_eq r.predicate _)) _) _ f₄ in
    let (u₆, e₆, f₆) = >>=-eq-ok (reject (ltb max_fact_object_bytes encoded_len) _) _ f₅ in
    let (nodes, e₇, f₇) = >>=-eq-ok (validate_schema_node levels true r.object_schema 0) _ f₆ in
    node-BlamesValue levels true r.object_schema 0 nodes e₇ value "$" ("", append-nil "$")

refused_anyway :
    (b : Bool) (e : Error) (refusal : Check)
    → is_ok refusal ≡ false
    → is_ok (reject b e >> refusal) ≡ false
refused_anyway true e refusal h = refl
refused_anyway false e refusal h = h

-- No value conforms to a schema of the type "boolean" or "null".
pub boolean_never_conforms :
    (left : ℕ) (fs : Fields) (name : String) (value : Value) (path : String)
    → get fs "type" ≡ some (Value.string name)
    → (name ≡ "boolean") ⊎ (name ≡ "null")
    → is_ok (validate_json_value left value (Value.object fs) path) ≡ false
unfolding validate_json_value index check_value schema_kind
boolean_never_conforms zero fs name value path e kind = refl
boolean_never_conforms (suc left) fs name value path e (inl is_boolean_type) = rw (
  e,
  is_boolean_type,
  refused_anyway (not (is_boolean value)) (bail (concat path " must be a boolean"))
      (err (bail unsupported_type)) refl,
)
boolean_never_conforms (suc left) fs name value path e (inr is_null_type) = rw (
  e,
  is_null_type,
  refused_anyway (not (is_null value)) (bail (concat path " must be null"))
      (err (bail unsupported_type)) refl,
)
