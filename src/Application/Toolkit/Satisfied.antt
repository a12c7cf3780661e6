-- ===== src/Application/Toolkit/Satisfied.antt =====
-- When the state of a requirement is `satisfied`.
use community_stack.Common.{
  ◌≡◌, refl, sym, ap, ◌∙◌, subst, ◌≤◌, ◌⊎◌, inl, inr, true, false, not, List, [], ◌∷◌, Option, none,
  some, ◌==◌, arith, length, length-append, any, all, select, In, In-select, all-In, any-In,
}
use community_stack.Domain.Json.{Value, null, value_eq, opt_value_eq}
use community_stack.Domain.Toolkit.{
  ToolkitConcept, ToolkitAssertion, ToolkitRequirement, QueryOperator, RequirementState,
}
use community_stack.Store.Projection.Toolkit.{is_verified}
use community_stack.Application.Toolkit.Values.{is_one}
use community_stack.Application.Toolkit.Requirement.{
  value_matches, assertion_matches, requirement_matches, add_distinct, distinct_from, has_state,
  requirement_state,
}

-- The values of the assertions are all equal to one value.
abbrev pub IsOneValue : List ToolkitAssertion → Type 0
IsOneValue as' =
    (w : Value) × ((a : ToolkitAssertion) (v : Value)
      → In a as'
      → a.value ≡ some v
      → (w ≡ v) ⊎ (value_eq w v ≡ true))

add_grows : (vs : List Value) (o : Option Value) → length vs ≤ length (add_distinct vs o)
add_grows vs none = omega arith
add_grows vs (some v) = ground (arith, length-append vs (v ∷ []))

distinct_grows :
    (vs : List Value) (as' : List ToolkitAssertion) → length vs ≤ length (distinct_from vs as')
unfolding distinct_from
distinct_grows vs [] = omega arith
distinct_grows vs (a ∷ as') =
    omega (arith, add_grows vs a.value, distinct_grows (add_distinct vs a.value) as')

same_added : (w v : Value) → length (add_distinct (w ∷ []) (some v)) ≤ 1 → value_eq w v ≡ true
unfolding any
same_added w v le = ground arith

added_same :
    (w : Value) (o : Option Value)
    → length (add_distinct (w ∷ []) o) ≤ 1
    → add_distinct (w ∷ []) o ≡ w ∷ []
unfolding any
added_same w none le = refl
added_same w (some v) le = ground arith

agree_with :
    (w : Value) (as' : List ToolkitAssertion)
    → length (distinct_from (w ∷ []) as') ≤ 1
    → (a : ToolkitAssertion) (v : Value) → In a as'
    → a.value ≡ some v
    → value_eq w v ≡ true
unfolding distinct_from
agree_with w [] le a v m e = absurd m
agree_with w (b ∷ bs) le a v m e =
    let small : length (add_distinct (w ∷ []) b.value) ≤ 1 =
      omega (arith, le, distinct_grows (add_distinct (w ∷ []) b.value) bs) in
    elim m [
      | inl q ↦ same_added w v (
          subst (λ o. length (add_distinct (w ∷ []) o) ≤ 1)
            (ap (λ (x : ToolkitAssertion). x.value) q ∙ e) small)
      | inr n ↦
          agree_with w bs
            (subst (λ vs. length (distinct_from vs bs) ≤ 1) (added_same w b.value small) le) a v n e
    ]

none_is_some : {v : Value} → Option.none ≡ some v → ⊥
none_is_some e = cc

some_eq : {x y : Value} → some x ≡ some y → x ≡ y
some_eq e = cc

pub distinct-IsOneValue :
    (as' : List ToolkitAssertion) → length (distinct_from [] as') ≤ 1 → IsOneValue as'
unfolding distinct_from any
distinct-IsOneValue [] le = (null, λ a v m e. absurd m)
distinct-IsOneValue (b ∷ bs) le = go b.value refl le (distinct-IsOneValue bs)
  where
    go :
        (o : Option Value)
        → b.value ≡ o
        → length (distinct_from (add_distinct [] o) bs) ≤ 1
        → (length (distinct_from [] bs) ≤ 1 → IsOneValue bs)
        → IsOneValue (b ∷ bs)
    go none q le' later =
        let (w, same) = later le' in
        (
          w,
          λ a v m e. elim m [
            | inl p ↦ absurd (none_is_some (sym q ∙ ap (λ (x : ToolkitAssertion). x.value) p ∙ e))
            | inr n ↦ same a v n e
          ],
        )
    go (some w) q le' later = (
      w,
      λ a v m e. elim m [
        | inl p ↦ inl (some_eq (sym q ∙ ap (λ (x : ToolkitAssertion). x.value) p ∙ e))
        | inr n ↦ inr (agree_with w bs le' a v n e)
      ],
    )

-- A verified assertion among those about a tool and a concept.
abbrev pub IsVerifiedIn : List ToolkitAssertion → ToolkitAssertion → Type 0
IsVerifiedIn as' a = In a as' × (is_verified a.verification_state ≡ true)

abbrev SomeVerified : List ToolkitAssertion → Type 0
SomeVerified as' = (a : ToolkitAssertion) × IsVerifiedIn as' a

-- A verified value that the operator accepts.
abbrev SomeMatching : ToolkitRequirement → List ToolkitAssertion → Type 0
SomeMatching r as' =
    (a : ToolkitAssertion) × (v : Value) × IsVerifiedIn as' a
    × (a.value ≡ some v)
    × (value_matches r v ≡ true)

-- What each operator asks of the verified assertions.
abbrev pub IsMet : QueryOperator → ToolkitRequirement → List ToolkitAssertion → Type 0
IsMet QueryOperator.exists r as' = SomeVerified as'
IsMet QueryOperator.ne r as' =
    SomeVerified as'
    × ((a : ToolkitAssertion) → IsVerifiedIn as' a → opt_value_eq a.value r.value ≡ false)
IsMet op r as' = SomeMatching r as'

matching :
    (r : ToolkitRequirement) (as' : List ToolkitAssertion)
    → any (assertion_matches r) (select (has_state is_verified) as') ≡ true
    → SomeMatching r as'
matching r as' h =
    let (a, m, e) = any-In (assertion_matches r) (select (has_state is_verified) as') h in
    go a ((In-select (has_state is_verified) as' a).0 m) a.value refl e
  where
    go :
        (a : ToolkitAssertion)
        → IsVerifiedIn as' a
        → (o : Option Value) → a.value ≡ o
        → elim o [ none ↦ false | some v ↦ value_matches r v ] ≡ true
        → SomeMatching r as'
    go a i none q e = absurd (ground arith)
    go a i (some v) q e = (a, v, i, q, e)

nonempty-In :
    (xs : List ToolkitAssertion) → (length xs == 0) ≡ false → (a : ToolkitAssertion) × In a xs
nonempty-In [] h = absurd (ground arith)
nonempty-In (x ∷ xs) h = (x, inl refl)

matches-IsMet :
    (op : QueryOperator) (r : ToolkitRequirement) (as' : List ToolkitAssertion)
    → r.op ≡ op
    → SomeVerified as'
    → requirement_matches (select (has_state is_verified) as') r ≡ true
    → IsMet op r as'
unfolding requirement_matches
matches-IsMet QueryOperator.exists r as' q some' h = some'
matches-IsMet QueryOperator.ne r as' q some' h =
    let every : all (λ a. not (opt_value_eq a.value r.value)) (select (has_state is_verified) as')
        ≡ true =
      ground (arith, q, h) in
    (
      some',
      λ a i. ground (
        arith,
        all-In (λ a. not (opt_value_eq a.value r.value)) (select (has_state is_verified) as') every
            a ((In-select (has_state is_verified) as' a).1 i),
      ),
    )
matches-IsMet QueryOperator.eq r as' q some' h = matching r as' (ground (arith, q, h))
matches-IsMet QueryOperator.in_list r as' q some' h = matching r as' (ground (arith, q, h))
matches-IsMet QueryOperator.gt r as' q some' h = matching r as' (ground (arith, q, h))
matches-IsMet QueryOperator.gte r as' q some' h = matching r as' (ground (arith, q, h))
matches-IsMet QueryOperator.lt r as' q some' h = matching r as' (ground (arith, q, h))
matches-IsMet QueryOperator.lte r as' q some' h = matching r as' (ground (arith, q, h))

-- The verified assertions of a concept that has one value only.
abbrev pub Agrees : ToolkitConcept → List ToolkitAssertion → Type 0
Agrees concept as' =
    is_one concept.definition.cardinality ≡ true → IsOneValue (select (has_state is_verified) as')

pub satisfied_IsMet :
    (concept : ToolkitConcept) (r : ToolkitRequirement) (as' : List ToolkitAssertion)
    → requirement_state concept r as' ≡ RequirementState.satisfied
    → IsMet r.op r as' × Agrees concept as'
unfolding requirement_state
satisfied_IsMet concept r as' e =
    let verified = select (has_state is_verified) as' in
    let (a, m) = nonempty-In verified (ground (arith, e)) in
    (
      matches-IsMet r.op r as' refl (a, (In-select (has_state is_verified) as' a).0 m)
          (ground (arith, e)),
      λ one. distinct-IsOneValue verified (ground (arith, e, one)),
    )
