-- ===== src/Examples/Schemas.antt =====
-- A fact schema of a place, and values that are checked against it.
use community_stack.Common.{ℕ, String, ◌≡◌, refl, inl, true, false}
use community_stack.Domain.Json.{Value, Items, nil, cons, Fields, end, field, pos_int, get}
use community_stack.Domain.Facts.{RegisterFactSchema, ProvenancePolicy, default_policy}
use community_stack.Failure.{ok, err, bail, is_ok}
use community_stack.Application.Facts.Schema.{validate_schema_registration, levels}
use community_stack.Application.Facts.Conform.{validate_json_value, unsupported_type}
use community_stack.Application.Facts.Blame.{BlamesValue}
use community_stack.Application.Facts.Stored.{registered_schema-BlamesValue, boolean_never_conforms}

abbrev boolean_fields : Fields
boolean_fields = field "type" (Value.string "boolean") end

abbrev name_fields : Fields
name_fields =
    field "maxLength" (Value.number (pos_int 8)) (field "type" (Value.string "string") end)

abbrev place_schema : Value
place_schema = Value.object (
    field "additionalProperties" (Value.bool false) (
      field "properties"
        (Value.object (
          field "name" (Value.object name_fields) (field "open" (Value.object boolean_fields) end)))
        (field "required" (Value.array (cons (Value.string "name") nil))
          (field "type" (Value.string "object") end))))

abbrev place : RegisterFactSchema
place = record {
  app_id = "app";
  schema_id = "app/place";
  schema_version = 1;
  predicate = "app/place@1";
  object_schema = place_schema;
  multiple_active_claims = false;
  provenance_policy = ProvenancePolicy.none;
  lifecycle_policy = default_policy;
  enabled = true;
}

place_registered : validate_schema_registration place 200 ≡ ok tt
unfolding validate_schema_registration community_stack.Application.Facts.Schema.validate_schema_node
    community_stack.Application.Facts.Schema.check_arm
    community_stack.Application.Facts.Schema.check_children
    community_stack.Application.Facts.Schema.schema_kind
    community_stack.Application.Facts.Schema.keys
    community_stack.Application.Facts.Schema.undeclared
    community_stack.Application.Facts.Schema.some_not_text community_stack.Common.find
    community_stack.Common.any community_stack.Common.decimal_digits
    community_stack.Common.has_control community_stack.Domain.Json.get
    community_stack.Domain.Json.contains_key community_stack.Domain.Json.value_eq
    community_stack.Application.Validate.validate_object_id
    community_stack.Application.Validate.validate_fact_term
place_registered = refl

abbrev named : Value
named = Value.object (field "name" (Value.string "Library") end)

abbrev open_place : Value
open_place =
    Value.object (field "name" (Value.string "Library") (field "open" (Value.bool true) end))

named_conforms : validate_json_value levels named place_schema "$" ≡ ok tt
unfolding validate_json_value community_stack.Application.Facts.Conform.check_value
    community_stack.Application.Facts.Conform.check_entries
    community_stack.Application.Facts.Conform.check_required
    community_stack.Application.Facts.Conform.index
    community_stack.Application.Facts.Conform.is_among
    community_stack.Application.Facts.Schema.schema_kind
    community_stack.Application.Facts.Schema.keys community_stack.Common.find
    community_stack.Domain.Json.get community_stack.Domain.Json.contains_key
named_conforms = refl

open_refused : validate_json_value levels open_place place_schema "$" ≡ err (bail unsupported_type)
unfolding validate_json_value community_stack.Application.Facts.Conform.check_value
    community_stack.Application.Facts.Conform.check_entries
    community_stack.Application.Facts.Conform.check_required
    community_stack.Application.Facts.Conform.index
    community_stack.Application.Facts.Conform.is_among
    community_stack.Application.Facts.Schema.schema_kind
    community_stack.Application.Facts.Schema.keys community_stack.Common.find
    community_stack.Domain.Json.get community_stack.Domain.Json.contains_key
open_refused = refl

registered_schema-BlamesValue_example :
    BlamesValue (validate_json_value levels open_place place_schema "$")
registered_schema-BlamesValue_example =
    registered_schema-BlamesValue place 200 open_place place_registered

boolean_never_conforms_example :
    is_ok (validate_json_value 4 (Value.bool true) (Value.object boolean_fields) "$.open") ≡ false
unfolding get
boolean_never_conforms_example =
    boolean_never_conforms 4 boolean_fields "boolean" (Value.bool true) "$.open" refl (inl refl)
