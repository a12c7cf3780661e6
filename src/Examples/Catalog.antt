-- ===== src/Examples/Catalog.antt =====
-- A catalog of one concept and two tools, and queries of it.
use community_stack.Common.{
  ℕ, String, Bool, true, false, ◌≡◌, ◌↔◌, refl, subst, List, [], ◌∷◌, Option, none, some, inl, inr,
  In, take, drop, All, str_eq,
}
use community_stack.Common.Sort.{IsSorted}
use community_stack.Domain.Json.{Value, bool}
use community_stack.Domain.Toolkit.{
  ConceptKind, ValueType, Cardinality, ConceptStatus, ConceptDefinition, ToolkitConcept,
  ToolkitTool, AssertionOrigin, VerificationState, ToolkitAssertion, ToolkitCatalog, QueryOperator,
  ToolkitRequirement, ToolkitQueryPlan, ToolkitQueryResult, ToolkitQueryResponse, satisfied,
}
use community_stack.Failure.{ok, ok_eq}
use community_stack.Application.Toolkit.{resolve_concept}
use community_stack.Application.Toolkit.Concepts.{normalize_concept}
use community_stack.Application.Toolkit.Requirement.{about, requirement_state}
use community_stack.Application.Toolkit.Query.{
  all_requirements, is_asked, result_before, evaluate_query,
}
use community_stack.Application.Toolkit.Normal.{SameConcept, normalize_concept_iff}
use community_stack.Application.Toolkit.Order.{IsRanked}
use community_stack.Application.Toolkit.Ranking.{exact_first, exact_is_listed}
use community_stack.Examples.Data.{from_ok}

abbrev offline : List String → ConceptDefinition
offline aliases = record {
  key = "cap.offline";
  name = "Offline";
  kind = ConceptKind.capability;
  definition = "Works without a network";
  aliases = aliases;
  value_type = ValueType.boolean;
  cardinality = Cardinality.one;
  applicable_categories = [];
  allowed_values = none;
  scale = none;
  parent = none;
  status = ConceptStatus.active;
}

abbrev concept : ToolkitConcept
concept = record {
  definition = offline [];
  revision = "r1";
  source_operation_hash = 1;
  active_revision = true;
}

abbrev tool : String → ToolkitTool
tool key = record {
  key = key;
  name = key;
  description = none;
  homepage = none;
  status = "active";
  source_operation_hash = 2;
}

abbrev assertion : String → String → Bool → VerificationState → ToolkitAssertion
assertion id key value state = record {
  assertion_id = id;
  tool = key;
  concept = "cap.offline";
  concept_revision = "r1";
  value = some (bool value);
  origin = AssertionOrigin.human;
  verification_state = state;
  source = "manual";
  evidence = "tried";
  as_of = "2024-01-01";
  rubric = none;
  rubric_version = none;
  rationale = none;
  evaluator_type = none;
  evaluation_date = none;
  source_operation_hash = 3;
  review_operation_hash = none;
}

-- `alpha` is verified to work offline, `beta` is only said to.
abbrev catalog : ToolkitCatalog
catalog = record {
  concepts = concept ∷ [];
  tools = tool "beta" ∷ tool "alpha" ∷ [];
  assertions =
      assertion "a1" "alpha" true VerificationState.verified
      ∷ assertion "a2" "beta" true VerificationState.proposed
      ∷ [];
  reviews = [];
}

abbrev requirement : ToolkitRequirement
requirement = record {
  concept = "cap.offline";
  concept_revision = none;
  op = QueryOperator.eq;
  value = some (bool true);
  required = true;
}

abbrev plan : ToolkitQueryPlan
plan = record {
  tools = [];
  requirements = requirement ∷ [];
  mandatory = [];
  optional = [];
  include_partial = true;
}

abbrev response : ToolkitQueryResponse
response = from_ok (record { exact_count = 0; results = [] }) (evaluate_query catalog plan)

abbrev result : ToolkitQueryResult
result = elim response.results [
  | [] ↦ record {
    tool = "";
    name = "";
    match_state = "";
    satisfied_requirements = 0;
    requirements = [];
  }
  | r ∷ rs ↦ r
]

answered :
    (evaluate_query catalog plan ≡ ok response)
    × In result response.results
    × (result.match_state ≡ "exact")
    × (result.tool ≡ "alpha")
unfolding evaluate_query community_stack.Application.Toolkit.Query.normalized_requirements
    community_stack.Failure.collect community_stack.Failure.for_each
    community_stack.Application.Toolkit.Query.resolve_requirement resolve_concept
    community_stack.Application.Toolkit.names_concept
    community_stack.Application.Toolkit.validate_key community_stack.Common.all_chars
    community_stack.Common.find community_stack.Common.select community_stack.Common.any
    community_stack.Common.all community_stack.Common.count community_stack.Common.Sort.sort
    community_stack.Common.Sort.insert result_before community_stack.Common.StrOrder.str_lt is_asked
    community_stack.Application.Toolkit.Query.results_of
    community_stack.Application.Toolkit.Requirement.validate_requirement
    community_stack.Application.Toolkit.Values.validate_assertion_value
    community_stack.Application.Toolkit.Values.validate_type
    community_stack.Application.Toolkit.Values.validate_number
    community_stack.Application.Toolkit.Values.validate_string community_stack.Domain.Json.as_f64
    community_stack.Application.Toolkit.Requirement.evaluate_requirement about requirement_state
    community_stack.Application.Toolkit.Requirement.distinct_from
    community_stack.Application.Toolkit.Requirement.requirement_matches
    community_stack.Application.Toolkit.Requirement.value_matches
    community_stack.Domain.Json.value_eq
answered = (refl, inl refl, refl, refl)

exact_first_example :
    IsRanked response.results
    × All (λ y. y.match_state ≡ "exact") (take response.exact_count response.results)
    × All (λ y. str_eq y.match_state "exact" ≡ false) (drop response.exact_count response.results)
exact_first_example = exact_first catalog plan response answered.0

alpha_satisfies :
    (r : ToolkitRequirement) (c : ToolkitConcept)
    → In r (all_requirements plan)
    → r.required ≡ true
    → resolve_concept catalog r.concept r.concept_revision ≡ ok c
    → requirement_state c r (community_stack.Common.select (about "alpha" r c) catalog.assertions)
      ≡ satisfied
unfolding resolve_concept community_stack.Application.Toolkit.names_concept
    community_stack.Common.find community_stack.Common.select community_stack.Common.any about
    requirement_state community_stack.Application.Toolkit.Requirement.distinct_from
    community_stack.Application.Toolkit.Requirement.requirement_matches
    community_stack.Application.Toolkit.Requirement.value_matches
    community_stack.Domain.Json.value_eq
alpha_satisfies r c (inl q) required e =
    subst
      (λ (y : ToolkitRequirement).
        resolve_concept catalog y.concept y.concept_revision ≡ ok c
        → requirement_state c y
            (community_stack.Common.select (about "alpha" y c) catalog.assertions)
          ≡ satisfied)
      q
      (λ f.
        subst
          (λ k.
            requirement_state k requirement
              (community_stack.Common.select (about "alpha" requirement k) catalog.assertions)
            ≡ satisfied)
          (ok_eq f) refl)
      e
alpha_satisfies r c (inr m) required e = absurd m

asked : is_asked plan.tools (tool "alpha") ≡ true
unfolding is_asked
asked = refl

exact_is_listed_example :
    (y : ToolkitQueryResult) × In y response.results
    × (y.tool ≡ "alpha")
    × (y.match_state ≡ "exact")
exact_is_listed_example =
    exact_is_listed catalog plan response (tool "alpha") answered.0 (inr (inl refl)) asked
      alpha_satisfies

normalize_concept_iff_example :
    (normalize_concept (offline ("b" ∷ "a" ∷ "b" ∷ []))
      ≡ normalize_concept (offline ("a" ∷ "b" ∷ [])))
    ↔ SameConcept (offline ("b" ∷ "a" ∷ "b" ∷ [])) (offline ("a" ∷ "b" ∷ []))
normalize_concept_iff_example =
    normalize_concept_iff (offline ("b" ∷ "a" ∷ "b" ∷ [])) (offline ("a" ∷ "b" ∷ []))
