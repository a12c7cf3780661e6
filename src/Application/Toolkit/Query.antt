-- ===== src/Application/Toolkit/Query.antt =====
-- Queries of src/application/toolkit.rs: the requirements of a plan are resolved and validated, then
-- each active tool is evaluated against all of them.
use community_stack.Common.{
  ℕ, ◌+◌, String, Bool, true, false, not, ◌&&◌, ◌||◌, List, [], ◌∷◌, ◌++◌, map, ltb, ◌==◌, str_eq,
  if◌then◌else◌, any, all, select, count, length,
}
use community_stack.Common.Sort.{sort}
use community_stack.Common.StrOrder.{str_lt}
use community_stack.Domain.Toolkit.{
  ToolkitConcept, ToolkitTool, ToolkitCatalog, ToolkitRequirement, ToolkitQueryPlan,
  RequirementState, RequirementExplanation, ToolkitQueryResult, ToolkitQueryResponse,
}
use community_stack.Failure.{Result, ok, bail, reject, for_each, collect, ◌>>=◌, ◌>>◌}
use community_stack.Application.Toolkit.{validate_key, resolve_concept}
use community_stack.Application.Toolkit.Requirement.{validate_requirement, evaluate_requirement}

abbrev pub with_required : Bool → ToolkitRequirement → ToolkitRequirement
with_required b r = record r { required = b }

abbrev pub all_requirements : ToolkitQueryPlan → List ToolkitRequirement
all_requirements plan =
    plan.requirements
    ++ map (with_required true) plan.mandatory
    ++ map (with_required false) plan.optional

unfoldable pub normalized_requirements : ToolkitQueryPlan → Result (List ToolkitRequirement)
normalized_requirements plan = do
  let rs = all_requirements plan
  reject (length rs == 0 || ltb 64 (length rs)) (bail "query must contain 1..=64 requirements")
  ok rs

abbrev pub is_satisfied : RequirementState → Bool
is_satisfied RequirementState.satisfied = true
is_satisfied _ = false

-- `filter(|item| item.required).all(|item| item.state == Satisfied)`
abbrev pub is_exact : List RequirementExplanation → Bool
is_exact es =
    all (λ (e : RequirementExplanation). is_satisfied e.state) (select (λ e. e.required) es)

abbrev pub match_of : Bool → String
match_of true = "exact"
match_of false = "partial"

abbrev pub query_result : ToolkitTool → List RequirementExplanation → ToolkitQueryResult
query_result tool es = record {
  tool = tool.key;
  name = tool.name;
  match_state = match_of (is_exact es);
  satisfied_requirements = count (λ (e : RequirementExplanation). is_satisfied e.state) es;
  requirements = es;
}

unfoldable pub resolve_requirement :
    ToolkitCatalog → ToolkitRequirement → Result (ToolkitRequirement × ToolkitConcept)
resolve_requirement catalog r = do
  validate_key r.concept "requirement concept"
  concept ← resolve_concept catalog r.concept r.concept_revision
  validate_requirement concept r
  ok (r, concept)

abbrev pub explanations :
    ToolkitCatalog
    → String
    → List (ToolkitRequirement × ToolkitConcept)
    → List RequirementExplanation
explanations catalog tool resolved =
    map (λ (p : ToolkitRequirement × ToolkitConcept). evaluate_requirement catalog tool p.0 p.1)
      resolved

-- The tools that the plan asks about.
unfoldable pub is_asked : List String → ToolkitTool → Bool
is_asked tools t = str_eq t.status "active" && (length tools == 0 || any (str_eq t.key) tools)

-- The loop over the tools.
unfoldable pub results_of :
    ToolkitCatalog
    → Bool
    → List (ToolkitRequirement × ToolkitConcept)
    → List ToolkitTool
    → List ToolkitQueryResult
results_of catalog include_partial resolved [] = []
results_of catalog include_partial resolved (t ∷ ts) =
    let rest = results_of catalog include_partial resolved ts in
    let es = explanations catalog t.key resolved in
    if is_exact es || include_partial then query_result t es ∷ rest else rest

abbrev pub is_exact_result : ToolkitQueryResult → Bool
is_exact_result r = str_eq r.match_state "exact"

abbrev pub tie_before : ToolkitQueryResult → ToolkitQueryResult → Bool
tie_before a b =
    ltb b.satisfied_requirements a.satisfied_requirements
    || (a.satisfied_requirements == b.satisfied_requirements && str_lt a.tool b.tool)

-- The comparison of `sort_by`.
unfoldable pub result_before : ToolkitQueryResult → ToolkitQueryResult → Bool
result_before a b =
    if is_exact_result a
    then not (is_exact_result b) || tie_before a b
    else not (is_exact_result b) && tie_before a b

abbrev pub max_catalog_rows : ℕ
max_catalog_rows = 10000

unfoldable pub evaluate_query : ToolkitCatalog → ToolkitQueryPlan → Result ToolkitQueryResponse
unfolding result_before
evaluate_query catalog plan = do
  reject
      (ltb max_catalog_rows
        (length catalog.concepts + length catalog.tools + length catalog.assertions))
      (bail "toolkit catalog exceeds the bounded local query limit")
  reject (ltb 500 (length plan.tools)) (bail "tool restriction exceeds 500 entries")
  for_each (λ tool. validate_key tool "tool restriction") plan.tools
  requirements ← normalized_requirements plan
  resolved ← collect (resolve_requirement catalog) requirements
  let results = sort result_before (
      results_of catalog plan.include_partial resolved (select (is_asked plan.tools) catalog.tools))
  ok (record { exact_count = count is_exact_result results; results = results })
