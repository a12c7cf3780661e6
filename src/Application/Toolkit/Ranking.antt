-- ===== src/Application/Toolkit/Ranking.antt =====
-- The order and the completeness of a query's results.
use community_stack.Common.{
  ℕ, suc, ◌≡◌, refl, sym, ap, subst, inl, inr, String, Bool, true, false, ◌||◌, List, [], ◌∷◌,
  str_eq, str_eq_iff, arith, all, select, count, take, drop, In, All, All-mono, In-select,
  Bool-cases,
}
use community_stack.Common.Sort.{In-sort, IsSorted, sort-IsSorted}
use community_stack.Common.StrOrder.{str_lt_asym, str_lt_cotrans}
use community_stack.Domain.Toolkit.{
  ToolkitConcept, ToolkitTool, ToolkitCatalog, ToolkitRequirement, ToolkitQueryPlan,
  ToolkitQueryResult, ToolkitQueryResponse, satisfied,
}
use community_stack.Failure.{Result, ok, collect, >>=-eq-ok, ok_eq}
use community_stack.Application.Toolkit.{resolve_concept}
use community_stack.Application.Toolkit.Requirement.{about, requirement_state, evaluate_requirement}
use community_stack.Application.Toolkit.Query.{
  all_requirements, resolve_requirement, is_satisfied, is_exact, match_of, query_result,
  explanations, is_asked, results_of, is_exact_result, result_before, evaluate_query,
}
use community_stack.Application.Toolkit.Order.{IsRanked, sorted-IsRanked}
use community_stack.Application.Toolkit.Exact.{query-Answered, resolved_concept}

before_asym : (a b : ToolkitQueryResult) → result_before a b ≡ true → result_before b a ≡ false
unfolding result_before
before_asym a b h = ground (arith, h, str_lt_asym a.tool b.tool, str_lt_asym b.tool a.tool)

before_cotrans :
    (a b c : ToolkitQueryResult)
    → result_before a b ≡ false
    → result_before b c ≡ false
    → result_before a c ≡ false
unfolding result_before
before_cotrans a b c h k = ground (arith, h, k, str_lt_cotrans a.tool b.tool c.tool)

exact_above :
    (x y : ToolkitQueryResult)
    → result_before y x ≡ false
    → is_exact_result x ≡ false
    → is_exact_result y ≡ false
unfolding result_before
exact_above x y h e = ground (arith, h, e)

none_exact :
    (xs : List ToolkitQueryResult)
    → All (λ y. is_exact_result y ≡ false) xs
    → count is_exact_result xs ≡ 0
unfolding count
none_exact [] h = refl
none_exact (x ∷ xs) h = ground (arith, h.0, none_exact xs h.1)

-- The first `n` results are exact and no later one is.
abbrev pub SplitsAt : List ToolkitQueryResult → ℕ → Type 0
SplitsAt xs n =
    All (λ y. is_exact_result y ≡ true) (take n xs)
    × All (λ y. is_exact_result y ≡ false) (drop n xs)

exact_split :
    (xs : List ToolkitQueryResult)
    → IsSorted result_before xs
    → SplitsAt xs (count is_exact_result xs)
unfolding count
exact_split [] s = (tt, tt)
exact_split (x ∷ xs) s =
    let later = exact_split xs s.1 in
    elim (Bool-cases (is_exact_result x)) [
      | inl e ↦
          let n : suc (count is_exact_result xs) ≡ count is_exact_result (x ∷ xs) =
            ground (arith, e) in
          subst (SplitsAt (x ∷ xs)) n ((e, later.0), later.1)
      | inr e ↦
          let below : All (λ y. is_exact_result y ≡ false) xs =
            All-mono (λ y. result_before y x ≡ false) (λ y. is_exact_result y ≡ false) xs
              (λ y h. exact_above x y h e) s.0 in
          let n : 0 ≡ count is_exact_result (x ∷ xs) = ground (arith, e, none_exact xs below) in
          subst (SplitsAt (x ∷ xs)) n (tt, (e, below))
    ]

-- The results of a query are ranked: no exact one after one that is not exact, of those that are both
-- exact or both not the number of satisfied requirements falls, and of those with the same number the
-- tools' keys rise. The first `exact_count` of them are exact and no later one is.
pub exact_first :
    (catalog : ToolkitCatalog) (plan : ToolkitQueryPlan) (response : ToolkitQueryResponse)
    → evaluate_query catalog plan ≡ ok response
    → IsRanked response.results
      × All (λ y. y.match_state ≡ "exact") (take response.exact_count response.results)
      × All (λ y. str_eq y.match_state "exact" ≡ false) (drop response.exact_count response.results)
exact_first catalog plan response e =
    let a = query-Answered catalog plan response e in
    let sorted : IsSorted result_before response.results =
      subst (IsSorted result_before) (sym a.listed)
        (sort-IsSorted result_before before_asym before_cotrans _) in
    let split = exact_split response.results sorted in
    (
      sorted-IsRanked response.results sorted,
      All-mono (λ y. is_exact_result y ≡ true) (λ y. y.match_state ≡ "exact") _
          (λ y h. (str_eq_iff y.match_state "exact").0 h)
          (subst (λ n. All (λ y. is_exact_result y ≡ true) (take n response.results))
            (sym a.counted) split.0),
      subst (λ n. All (λ y. is_exact_result y ≡ false) (drop n response.results)) (sym a.counted)
          split.1,
    )

In-results :
    (catalog : ToolkitCatalog) (partial : Bool)
    (resolved : List (ToolkitRequirement × ToolkitConcept)) (ts : List ToolkitTool)
    (t : ToolkitTool)
    → In t ts
    → is_exact (explanations catalog t.key resolved) ≡ true
    → In
        (query_result t (explanations catalog t.key resolved))
        (results_of catalog partial resolved ts)
unfolding results_of
In-results catalog partial resolved [] t m h = absurd m
In-results catalog partial resolved (u ∷ ts) t (inl q) h =
    subst
      (λ (y : ToolkitTool).
        is_exact (explanations catalog y.key resolved) ≡ true
        → In (query_result y (explanations catalog y.key resolved))
            (results_of catalog partial resolved (u ∷ ts)))
      q (λ k. rw k (inl refl)) h
In-results catalog partial resolved (u ∷ ts) t (inr n) h =
    elim (Bool-cases (is_exact (explanations catalog u.key resolved) || partial)) [
      | inl b ↦ rw b (inr (In-results catalog partial resolved ts t n h))
      | inr b ↦ rw b (In-results catalog partial resolved ts t n h)
    ]

collect-source :
    {A B : Type 0} (f : A → Result B) (xs : List A) (ys : List B) (b : B)
    → collect f xs ≡ ok ys
    → In b ys
    → (a : A) × In a xs × (f a ≡ ok b)
unfolding collect
collect-source f [] ys b e m = absurd (subst (In b) (sym (ok_eq e)) m)
collect-source f (x ∷ xs) ys b e m =
    let (c, e₀, e₁) = >>=-eq-ok (f x) _ e in
    let (cs, e₂, e₃) = >>=-eq-ok (collect f xs) _ e₁ in
    elim (subst (In b) (sym (ok_eq e₃)) m) [
      | inl q ↦ (x, inl refl, subst (λ y. f x ≡ ok y) q e₀)
      | inr n ↦ let (a, i, h) = collect-source f xs cs b e₂ n in (a, inr i, h)
    ]

exact_from :
    (catalog : ToolkitCatalog) (tool : String) (ps : List (ToolkitRequirement × ToolkitConcept))
    → ((p : ToolkitRequirement × ToolkitConcept)
        → In p ps
        → p.0.required ≡ true
        → (evaluate_requirement catalog tool p.0 p.1).state ≡ satisfied)
    → is_exact (explanations catalog tool ps) ≡ true
unfolding all select evaluate_requirement
exact_from catalog tool [] h = refl
exact_from catalog tool (p ∷ ps) h =
    let later = exact_from catalog tool ps (λ q i. h q (inr i)) in
    elim (Bool-cases p.0.required) [
      | inl b ↦
          let this : is_satisfied (evaluate_requirement catalog tool p.0 p.1).state ≡ true =
            ap is_satisfied (h p (inl refl) b) in
          ground (arith, b, this, later)
      | inr b ↦ ground (arith, b, later)
    ]

-- An active tool that the plan asks about, and for which every required requirement of the plan is
-- satisfied by the concept that it names, is among the results, as exact.
pub exact_is_listed :
    (catalog : ToolkitCatalog) (plan : ToolkitQueryPlan) (response : ToolkitQueryResponse)
    (t : ToolkitTool)
    → evaluate_query catalog plan ≡ ok response
    → In t catalog.tools
    → is_asked plan.tools t ≡ true
    → ((r : ToolkitRequirement) (c : ToolkitConcept)
        → In r (all_requirements plan)
        → r.required ≡ true
        → resolve_concept catalog r.concept r.concept_revision ≡ ok c
        → requirement_state c r (select (about t.key r c) catalog.assertions) ≡ satisfied)
    → (result : ToolkitQueryResult) × In result response.results
      × (result.tool ≡ t.key)
      × (result.match_state ≡ "exact")
unfolding evaluate_requirement
exact_is_listed catalog plan response t e m asked h =
    let a = query-Answered catalog plan response e in
    let all_met = exact_from catalog t.key a.resolved (λ p i q.
      let (r, j, k) =
        collect-source (resolve_requirement catalog) (all_requirements plan) a.resolved p a.resolves
          i in
      let (found, kept) = resolved_concept catalog r p k in
      h p.0 p.1 (subst (λ y. In y (all_requirements plan)) (sym kept) j) q (
        subst
          (λ (y : ToolkitRequirement).
            resolve_concept catalog y.concept y.concept_revision ≡ ok p.1)
          (sym kept) found)) in
    (
      query_result t (explanations catalog t.key a.resolved),
      subst (In _) (sym a.listed) (
          (In-sort result_before _ _).1 (
            In-results catalog plan.include_partial a.resolved
              (select (is_asked plan.tools) catalog.tools) t
              ((In-select (is_asked plan.tools) catalog.tools t).1 (m, asked)) all_met)),
      refl,
      ap match_of all_met,
    )
