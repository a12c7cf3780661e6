-- ===== src/Application/Toolkit/Requirement.antt =====
-- One requirement of a query in src/application/toolkit.rs: what is checked of it, and its state for one
-- tool.
use community_stack.Common.{
  String, Bool, true, false, not, ◌&&◌, ◌||◌, List, [], ◌∷◌, ◌++◌, Option, none, some, is_some, ltb,
  ◌==◌, str_eq, if◌then◌else◌, any, all, select, length,
}
use community_stack.Common.Int.{ltb_ℤ}
use community_stack.Domain.Json.{
  Value, Items, cons, F64, as_array, as_f64, items, is_nan, rank, value_eq, opt_value_eq,
  items_contain,
}
use community_stack.Domain.Toolkit.{
  ToolkitConcept, ToolkitAssertion, ToolkitCatalog, ToolkitRequirement, QueryOperator,
  RequirementState, RequirementExplanation, VerificationState,
}
use community_stack.Failure.{Check, err, bail, reject, for_each, ◌>>◌}
use community_stack.Store.Projection.Toolkit.{is_verified, is_rejected}
use community_stack.Application.Toolkit.Concepts.{is_numeric}
use community_stack.Application.Toolkit.Values.{
  is_one, is_proposed, is_unknown, validate_assertion_value,
}

abbrev pub verified_value : ToolkitConcept → Option Value → Check
verified_value concept value = validate_assertion_value concept value VerificationState.verified

abbrev pub validate_range : ToolkitConcept → Option Value → Check
validate_range concept value = do
  reject (not (is_numeric concept.definition.value_type))
      (bail "range operators require a numeric concept")
  verified_value concept value

-- `value.as_ref().and_then(Value::as_array)`
abbrev pub as_array? : Option Value → Option Items
as_array? none = none
as_array? (some v) = as_array v

unfoldable pub validate_requirement : ToolkitConcept → ToolkitRequirement → Check
unfolding for_each
validate_requirement concept r = elim r.op [
  | QueryOperator.exists ↦ reject (is_some r.value) (bail "exists does not accept a value")
  | QueryOperator.in_list ↦ elim (as_array? r.value) [
    | some (cons v vs) ↦ for_each (λ x. verified_value concept (some x)) (v ∷ items vs)
    | _ ↦ err (bail "in requires a non-empty value array")
  ]
  | QueryOperator.eq ↦ verified_value concept r.value
  | QueryOperator.ne ↦ verified_value concept r.value
  | _ ↦ validate_range concept r.value
]

pub data Order : Type 0 where
  less equal greater : Order

-- `f64::partial_cmp`
unfoldable pub partial_cmp : F64 → F64 → Option Order
partial_cmp a b =
    if is_nan a || is_nan b
    then none
    else if ltb_ℤ (rank a) (rank b)
    then some Order.less
    else if ltb_ℤ (rank b) (rank a)
    then some Order.greater
    else some Order.equal

unfoldable pub numeric_cmp : Value → Option Value → Option Order
unfolding partial_cmp
numeric_cmp left none = none
numeric_cmp left (some right) = elim (as_f64 left) [
  | none ↦ none
  | some x ↦ elim (as_f64 right) [ none ↦ none | some y ↦ partial_cmp x y ]
]

abbrev pub ordered_as : QueryOperator → Option Order → Bool
ordered_as QueryOperator.gt (some Order.greater) = true
ordered_as QueryOperator.gte (some Order.greater) = true
ordered_as QueryOperator.gte (some Order.equal) = true
ordered_as QueryOperator.lt (some Order.less) = true
ordered_as QueryOperator.lte (some Order.less) = true
ordered_as QueryOperator.lte (some Order.equal) = true
ordered_as _ _ = false

-- The inner `match` on the operator, of a value that an assertion has.
unfoldable pub value_matches : ToolkitRequirement → Value → Bool
unfolding numeric_cmp
value_matches r v = elim r.op [
  | QueryOperator.eq ↦ opt_value_eq (some v) r.value
  | QueryOperator.in_list ↦ elim (as_array? r.value) [ none ↦ false | some vs ↦ items_contain vs v ]
  | QueryOperator.exists ↦ false
  | QueryOperator.ne ↦ false
  | op ↦ ordered_as op (numeric_cmp v r.value)
]

abbrev pub assertion_matches : ToolkitRequirement → ToolkitAssertion → Bool
assertion_matches r a = elim a.value [ none ↦ false | some v ↦ value_matches r v ]

unfoldable pub requirement_matches : List ToolkitAssertion → ToolkitRequirement → Bool
unfolding value_matches
requirement_matches assertions r = elim r.op [
  | QueryOperator.exists ↦ true
  | QueryOperator.ne ↦ all (λ a. not (opt_value_eq a.value r.value)) assertions
  | _ ↦ any (assertion_matches r) assertions
]

abbrev pub add_distinct : List Value → Option Value → List Value
add_distinct values none = values
add_distinct values (some v) = if any (λ x. value_eq x v) values then values else values ++ v ∷ []

-- The `fold` that collects the different values of the verified assertions.
unfoldable pub distinct_from : List Value → List ToolkitAssertion → List Value
distinct_from values [] = values
distinct_from values (a ∷ as') = distinct_from (add_distinct values a.value) as'

unfoldable pub about : String → ToolkitRequirement → ToolkitConcept → ToolkitAssertion → Bool
about tool r concept a =
    str_eq a.tool tool && str_eq a.concept r.concept && str_eq a.concept_revision concept.revision

abbrev pub has_state : (VerificationState → Bool) → ToolkitAssertion → Bool
has_state p a = p a.verification_state

unfoldable pub requirement_state :
    ToolkitConcept → ToolkitRequirement → List ToolkitAssertion → RequirementState
unfolding distinct_from requirement_matches
requirement_state concept r assertions =
    let verified = select (has_state is_verified) assertions in
    if is_one concept.definition.cardinality && ltb 1 (length (distinct_from [] verified))
    then RequirementState.conflict
    else if not (length verified == 0)
    then if requirement_matches verified r
      then RequirementState.satisfied
      else RequirementState.unsatisfied
    else if any (has_state is_rejected) assertions
    then RequirementState.rejected
    else if any (has_state is_proposed) assertions
    then RequirementState.proposed
    else if any (has_state is_unknown) assertions
    then RequirementState.unknown
    else RequirementState.missing

unfoldable pub evaluate_requirement :
    ToolkitCatalog → String → ToolkitRequirement → ToolkitConcept → RequirementExplanation
unfolding about requirement_state
evaluate_requirement catalog tool r concept =
    let assertions = select (about tool r concept) catalog.assertions in
    record {
      concept = r.concept;
      concept_revision = concept.revision;
      op = r.op;
      required = r.required;
      state = requirement_state concept r assertions;
      assertions = assertions;
    }
