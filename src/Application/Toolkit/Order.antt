-- ===== src/Application/Toolkit/Order.antt =====
-- The order of a query's results, described without the comparison of `sort_by`.
use community_stack.Common.{
  ◌≡◌, ◌≤◌, ap, false, str_eq, str_eq_iff, List, [], ◌∷◌, arith, All, All-mono,
}
use community_stack.Common.Sort.{IsSorted}
use community_stack.Common.StrOrder.{str_lt}
use community_stack.Domain.Toolkit.{ToolkitQueryResult}
use community_stack.Application.Toolkit.Query.{result_before}

-- `x` stands before `y`: if `y` is exact, so is `x`; if both or neither are, `x` satisfies at least as
-- many requirements, and if as many, the key of `y` is not smaller.
abbrev pub RanksBefore : ToolkitQueryResult → ToolkitQueryResult → Type 0
RanksBefore x y =
    (y.match_state ≡ "exact" → x.match_state ≡ "exact")
    × (x.match_state ≡ y.match_state → y.satisfied_requirements ≤ x.satisfied_requirements)
    × (x.match_state ≡ y.match_state
        → x.satisfied_requirements ≡ y.satisfied_requirements
        → str_lt y.tool x.tool ≡ false)

-- Every result stands before all later ones.
abbrev pub IsRanked : List ToolkitQueryResult → Type 0
IsRanked [] = Unit
IsRanked (x ∷ xs) = All (RanksBefore x) xs × IsRanked xs

ranks : (x y : ToolkitQueryResult) → result_before y x ≡ false → RanksBefore x y
unfolding result_before
ranks x y h = (
  λ e.
      let exact_y = (str_eq_iff y.match_state "exact").1 e in
      (str_eq_iff x.match_state "exact").0 (ground (arith, h, exact_y)),
  λ e. let same = ap (λ m. str_eq m "exact") e in ground (arith, h, same),
  λ e n. let same = ap (λ m. str_eq m "exact") e in ground (arith, h, same, n),
)

pub sorted-IsRanked : (xs : List ToolkitQueryResult) → IsSorted result_before xs → IsRanked xs
sorted-IsRanked [] s = tt
sorted-IsRanked (x ∷ xs) s = (
  All-mono (λ y. result_before y x ≡ false) (RanksBefore x) xs (λ y h. ranks x y h) s.0,
  sorted-IsRanked xs s.1,
)
