-- ===== src/Application/Toolkit/Values.antt =====
-- The values of assertions in src/application/toolkit.rs: what is checked of an assertion against its
-- concept and the catalog.
use community_stack.Common.{
  String, is_empty, Bool, true, false, not, ◌&&◌, ◌||◌, List, [], ◌∷◌, Option, none, some, is_some,
  is_none, str_eq, any, if◌then◌else◌,
}
use community_stack.Domain.Error.{conflict}
use community_stack.Domain.Json.{
  Value, bool, is_boolean, is_string, as_i64, as_f64, as_str, is_finite, f64_le, opt_value_eq,
}
use community_stack.Domain.Toolkit.{
  ConceptKind, ValueType, Cardinality, Scale, ConceptDefinition, ToolkitConcept, ToolkitAssertion,
  ToolkitCatalog, AssertToolkitValue, AssertionOrigin, VerificationState,
}
use community_stack.Failure.{Check, ok, err, bail, reject, or_fail, protocol_error, ◌>>=◌, ◌>>◌}
use community_stack.Store.Projection.Toolkit.{is_verified}
use community_stack.Application.Validate.{validate_object_id, validate_idempotency_key}
use community_stack.Application.Toolkit.{
  opt_is, validate_key, validate_text, validate_date, resolve_concept,
}

abbrev pub is_ai : AssertionOrigin → Bool
is_ai AssertionOrigin.ai = true
is_ai _ = false

abbrev pub is_proposed : VerificationState → Bool
is_proposed VerificationState.proposed = true
is_proposed _ = false

abbrev pub is_unknown : VerificationState → Bool
is_unknown VerificationState.unknown = true
is_unknown _ = false

unfoldable pub validate_assert_request : AssertToolkitValue → Check
validate_assert_request r = do
  validate_object_id r.community_id "community_id"
  validate_idempotency_key r.idempotency_key
  validate_key r.assertion_id "assertion_id"
  validate_key r.tool "tool"
  validate_key r.concept "concept"
  validate_text r.source "source" 2048
  validate_text r.evidence "evidence" 8192
  validate_date r.as_of "as_of"
  reject (is_ai r.origin && not (is_proposed r.verification_state))
      (bail "AI assertions must begin in proposed state")

-- `value.filter(|value| !value.is_null())`
abbrev pub non_null : Option Value → Option Value
non_null (some Value.null) = none
non_null o = o

-- The first `match` on the type of the concept.
unfoldable pub validate_type : ValueType → Value → Check
validate_type ValueType.boolean v =
    reject (not (is_boolean v)) (bail "value_type_mismatch: expected boolean")
validate_type ValueType.integer v =
    reject (is_none (as_i64 v)) (bail "value_type_mismatch: expected signed integer")
validate_type ValueType.number v =
    reject (is_none (as_f64 v)) (bail "value_type_mismatch: expected finite number")
validate_type _ v = reject (not (is_string v)) (bail "value_type_mismatch: expected string")

-- `if let Some(number) = value.as_f64()`
unfoldable pub validate_number : Option Scale → Value → Check
validate_number scale v = elim (as_f64 v) [
  | none ↦ ok tt
  | some x ↦ do
    reject (not (is_finite x)) (bail "numeric values must be finite")
    elim scale [
      | none ↦ ok tt
      | some s ↦
          reject (not (f64_le s.min x && f64_le x s.max))
            (bail "value_out_of_range: score must be within the concept scale")
    ]
]

-- `allowed.iter().any(|item| Some(item.as_str()) == value.as_str())`
abbrev pub is_allowed : Option (List String) → Value → Bool
is_allowed none v = false
is_allowed (some allowed) v = any (opt_is (as_str v)) allowed

abbrev pub str_or_default : Option String → String
str_or_default none = ""
str_or_default (some s) = s

-- The checks of enum values and dates.
unfoldable pub validate_string : ConceptDefinition → Value → Check
validate_string c v = elim c.value_type [
  | ValueType.enum ↦
      reject (not (is_allowed c.allowed_values v))
        (bail "value_not_allowed: enum value is outside allowed_values")
  | ValueType.date ↦ validate_date (str_or_default (as_str v)) "value"
  | _ ↦ ok tt
]

unfoldable pub validate_assertion_value : ToolkitConcept → Option Value → VerificationState → Check
unfolding validate_type validate_number validate_string
validate_assertion_value concept value VerificationState.unknown =
    reject (is_some (non_null value)) (bail "unknown assertions must not carry a value")
validate_assertion_value concept value state = do
  v ←
      or_fail (non_null value)
        (bail "proposed, verified, and rejected assertions require an explicit non-null value")
  validate_type concept.definition.value_type v
  validate_number concept.definition.scale v
  validate_string concept.definition v

-- `option.as_deref().is_none_or(str::is_empty)`
abbrev pub is_blank : Option String → Bool
is_blank none = true
is_blank (some s) = is_empty s

abbrev pub fields_present : AssertToolkitValue → Bool
fields_present r =
    is_some r.rubric
    || is_some r.rubric_version
    || is_some r.rationale
    || is_some r.evaluator_type
    || is_some r.evaluation_date

abbrev pub is_dimension : ConceptKind → Bool
is_dimension ConceptKind.dimension = true
is_dimension _ = false

-- A dimension without a scale, where `scale.unwrap()` panics, is answered with an error of its own.
unfoldable pub validate_assessment : ToolkitConcept → AssertToolkitValue → Check
validate_assessment concept r =
    if not (is_dimension concept.definition.kind)
    then reject (fields_present r) (bail "assessment metadata is valid only for dimensions")
    else do
      scale ← or_fail concept.definition.scale (bail "called `Option::unwrap()` on a `None` value")
      reject
          (not (opt_is r.rubric scale.rubric)
            || not (opt_is r.rubric_version scale.version)
            || is_blank r.rationale
            || is_blank r.evaluator_type
            || is_blank r.evaluation_date)
          (bail
            "incomplete_assessment: rubric, version, rationale, evaluator_type, and evaluation_date are required")
      validate_date (str_or_default r.evaluation_date) "evaluation_date"
      reject (opt_is r.evaluator_type "ai" && not (is_proposed r.verification_state))
          (bail "AI-only evaluations must begin in proposed state")

-- A verified assertion that the tool is of the category.
unfoldable pub places_in : String → String → ToolkitConcept → ToolkitAssertion → Bool
places_in tool category c a =
    str_eq a.tool tool
    && str_eq a.concept category
    && str_eq a.concept_revision c.revision
    && is_verified a.verification_state
    && opt_value_eq a.value (some (bool true))

abbrev pub has_category : ToolkitCatalog → String → String → Bool
has_category catalog tool category = elim (resolve_concept catalog category none) [
  | err e ↦ false
  | ok c ↦ any (places_in tool category c) catalog.assertions
]

unfoldable pub validate_applicability : ToolkitConcept → ToolkitCatalog → String → Check
unfolding resolve_concept
validate_applicability concept catalog tool = elim concept.definition.applicable_categories [
  | [] ↦ ok tt
  | c ∷ cs ↦
      reject (not (any (has_category catalog tool) (c ∷ cs)))
        (bail "concept_not_applicable: tool lacks a verified applicable category")
]

abbrev pub is_one : Cardinality → Bool
is_one Cardinality.one = true
is_one Cardinality.many = false

-- A visible verified assertion of another value.
unfoldable pub contradicts :
    ToolkitConcept → String → Option Value → Option String → ToolkitAssertion → Bool
contradicts c tool value except a =
    str_eq a.tool tool
    && str_eq a.concept c.definition.key
    && str_eq a.concept_revision c.revision
    && is_verified a.verification_state
    && not (opt_is except a.assertion_id)
    && not (opt_value_eq a.value value)

unfoldable pub reject_local_cardinality_conflict :
    ToolkitConcept → ToolkitCatalog → String → Option Value → Option String → Check
unfolding contradicts
reject_local_cardinality_conflict concept catalog tool value except =
    reject
      (is_one concept.definition.cardinality
        && any (contradicts concept tool value except) catalog.assertions)
      (protocol_error conflict "a different verified value is already visible" false)
