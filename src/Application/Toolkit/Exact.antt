-- ===== src/Application/Toolkit/Exact.antt =====
-- What the exact results of a query say, and the order of the results.
use community_stack.Common.{
  ◌+◌, ◌≡◌, refl, sym, ap, ◌∙◌, subst, String, Bool, true, false, ◌||◌, List, ltb, ◌==◌, str_eq,
  str_eq_iff, arith, length, select, count,
}
use community_stack.Common.Sort.{sort}
use community_stack.Domain.Toolkit.{
  ToolkitConcept, ToolkitCatalog, ToolkitRequirement, ToolkitQueryPlan, ToolkitQueryResponse,
}
use community_stack.Failure.{ok, bail, reject, for_each, collect, >>=-eq-ok, ok_eq}
use community_stack.Application.Toolkit.{validate_key, resolve_concept}
use community_stack.Application.Toolkit.Requirement.{validate_requirement}
use community_stack.Application.Toolkit.Query.{
  all_requirements, normalized_requirements, resolve_requirement, match_of, is_asked, results_of,
  is_exact_result, result_before, max_catalog_rows, evaluate_query,
}

-- A query that is answered, in the steps of its evaluation.
pub record Answered (catalog : ToolkitCatalog) (plan : ToolkitQueryPlan)
    (response : ToolkitQueryResponse) : Type 0 where
  pub resolved : List (ToolkitRequirement × ToolkitConcept)
  pub resolves : collect (resolve_requirement catalog) (all_requirements plan) ≡ ok resolved
  pub listed :
      response.results
      ≡ sort result_before (
          results_of catalog plan.include_partial resolved
            (select (is_asked plan.tools) catalog.tools))
  pub counted : response.exact_count ≡ count is_exact_result response.results

pub query-Answered :
    (catalog : ToolkitCatalog) (plan : ToolkitQueryPlan) (response : ToolkitQueryResponse)
    → evaluate_query catalog plan ≡ ok response
    → Answered catalog plan response
unfolding evaluate_query normalized_requirements
query-Answered catalog plan response e =
    let (u, e₀, e₁) =
      >>=-eq-ok
        (reject
          (ltb max_catalog_rows
            (length catalog.concepts + length catalog.tools + length catalog.assertions))
          (bail "toolkit catalog exceeds the bounded local query limit"))
        _ e in
    let (v, e₂, e₃) =
      >>=-eq-ok (reject (ltb 500 (length plan.tools)) (bail "tool restriction exceeds 500 entries"))
        _ e₁ in
    let (w, e₄, e₅) =
      >>=-eq-ok (for_each (λ tool. validate_key tool "tool restriction") plan.tools) _ e₃ in
    let (rs, e₆, e₇) = >>=-eq-ok (normalized_requirements plan) _ e₅ in
    let (x, e₈, e₉) =
      >>=-eq-ok
        (reject (length (all_requirements plan) == 0 || ltb 64 (length (all_requirements plan)))
          (bail "query must contain 1..=64 requirements"))
        _ e₆ in
    let (resolved, e₁₀, e₁₁) = >>=-eq-ok (collect (resolve_requirement catalog) rs) _ e₇ in
    let same = ok_eq e₁₁ in
    record {
      resolved = resolved;
      resolves = ap (collect (resolve_requirement catalog)) (ok_eq e₉) ∙ e₁₀;
      listed = ap (λ (y : ToolkitQueryResponse). y.results) (sym same);
      counted =
          subst (λ (y : ToolkitQueryResponse). y.exact_count ≡ count is_exact_result y.results) same
            refl;
    }

-- A resolved requirement keeps its concept.
pub resolved_concept :
    (catalog : ToolkitCatalog) (r : ToolkitRequirement) (p : ToolkitRequirement × ToolkitConcept)
    → resolve_requirement catalog r ≡ ok p
    → (resolve_concept catalog r.concept r.concept_revision ≡ ok p.1) × (p.0 ≡ r)
unfolding resolve_requirement
resolved_concept catalog r p e =
    let (u, e₀, e₁) = >>=-eq-ok (validate_key r.concept "requirement concept") _ e in
    let (c, e₂, e₃) = >>=-eq-ok (resolve_concept catalog r.concept r.concept_revision) _ e₁ in
    let (v, e₄, e₅) = >>=-eq-ok (validate_requirement c r) _ e₃ in
    (
      subst
          (λ (q : ToolkitRequirement × ToolkitConcept).
            resolve_concept catalog r.concept r.concept_revision ≡ ok q.1)
          (ok_eq e₅) e₂,
      ap (λ (q : ToolkitRequirement × ToolkitConcept). q.0) (sym (ok_eq e₅)),
    )

different : (s : String) → s ≡ "partial" → s ≡ "exact" → ⊥
different s p q =
    let h : str_eq "partial" "exact" ≡ true = (str_eq_iff "partial" "exact").1 (sym p ∙ q) in
    absurd (ground (arith, h))

pub exact_state : (b : Bool) → match_of b ≡ "exact" → b ≡ true
exact_state true e = refl
exact_state false e = absurd (different (match_of false) refl e)
