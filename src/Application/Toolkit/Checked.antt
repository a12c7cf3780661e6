-- ===== src/Application/Toolkit/Checked.antt =====
-- What the checks of an assertion and of a review leave: no visible verified assertion of another value.
use community_stack.Common.{
  ◌≡◌, ap, subst, String, Bool, true, false, not, ◌&&◌, Option, none, some, str_eq, str_eq_iff,
  arith, any, any-false, find, find-In, find-holds, In,
}
use community_stack.Domain.Json.{Value, opt_value_eq}
use community_stack.Domain.Toolkit.{
  ToolkitConcept, ToolkitTool, ToolkitAssertion, ToolkitReview, ToolkitCatalog, AssertToolkitValue,
  VerifyToolkitAssertion, one, verified,
}
use community_stack.Failure.{
  Check, Error, ok, bail, reject, or_fail, when, >>=-eq-ok, ok_eq, reject-eq-ok,
}
use community_stack.Store.Projection.Toolkit.{is_verified}
use community_stack.Application.Toolkit.{opt_is, names_concept, resolve_concept}
use community_stack.Application.Toolkit.Values.{
  validate_assertion_value, validate_assessment, validate_applicability, is_one, contradicts,
  reject_local_cardinality_conflict,
}
use community_stack.Application.Toolkit.Writes.{check_assertion, check_review}

or_fail-eq-ok : {A : Type 0} (o : Option A) (e : Error) {a : A} → or_fail o e ≡ ok a → o ≡ some a
or_fail-eq-ok none e h = cc
or_fail-eq-ok (some a) e h = cc

-- A concept that is found is in the catalog, under the key that was asked for.
pub resolve_concept-In :
    (catalog : ToolkitCatalog) (key : String) (revision : Option String) (c : ToolkitConcept)
    → resolve_concept catalog key revision ≡ ok c
    → In c catalog.concepts × (c.definition.key ≡ key)
unfolding resolve_concept names_concept
resolve_concept-In catalog key revision c e =
    let f =
      or_fail-eq-ok (find (names_concept key revision) catalog.concepts)
        (bail "concept revision was not found") e in
    let h = find-holds (names_concept key revision) catalog.concepts c f in
    (
      find-In (names_concept key revision) catalog.concepts c f,
      (str_eq_iff c.definition.key key).0 (ground (arith, h)),
    )

pub resolved_revision :
    (catalog : ToolkitCatalog) (key revision : String) (c : ToolkitConcept)
    → resolve_concept catalog key (some revision) ≡ ok c
    → c.revision ≡ revision
unfolding resolve_concept names_concept
resolved_revision catalog key revision c e =
    let f =
      or_fail-eq-ok (find (names_concept key (some revision)) catalog.concepts)
        (bail "concept revision was not found") e in
    let h = find-holds (names_concept key (some revision)) catalog.concepts c f in
    (str_eq_iff c.revision revision).0 (ground (arith, h))

-- Visible verified assertions about the concept and the tool have the value, for a concept of one
-- value.
abbrev pub NoOtherValue :
    ToolkitConcept → ToolkitCatalog → String → Option Value → Option String → Type 0
NoOtherValue c catalog tool value except =
    (a : ToolkitAssertion)
    → In a catalog.assertions
    → a.tool ≡ tool
    → a.concept ≡ c.definition.key
    → a.concept_revision ≡ c.revision
    → a.verification_state ≡ verified
    → opt_is except a.assertion_id ≡ false
    → opt_value_eq a.value value ≡ true

pub conflict_free :
    (c : ToolkitConcept) (catalog : ToolkitCatalog) (tool : String) (value : Option Value)
    (except : Option String)
    → reject_local_cardinality_conflict c catalog tool value except ≡ ok tt
    → c.definition.cardinality ≡ one
    → NoOtherValue c catalog tool value except
unfolding reject_local_cardinality_conflict contradicts
conflict_free c catalog tool value except e single a m t k r s x =
    let none_does : any (contradicts c tool value except) catalog.assertions ≡ false = ground (
      arith,
      reject-eq-ok
          (is_one c.definition.cardinality
            && any (contradicts c tool value except) catalog.assertions)
          _ e,
      ap is_one single,
    ) in
    ground (
      arith,
      any-false (contradicts c tool value except) catalog.assertions none_does a m,
      (str_eq_iff a.tool tool).1 t,
      (str_eq_iff a.concept c.definition.key).1 k,
      (str_eq_iff a.concept_revision c.revision).1 r,
      ap is_verified s,
      x,
    )

when-true : (b : Bool) (c : Check) {u : Unit {0}} → when b c ≡ ok u → b ≡ true → c ≡ ok u
when-true true c e h = e
when-true false c e h = absurd (ground arith)

-- A checked assertion: its concept, and that a verified one agrees with those in the catalog.
pub checked_assertion :
    (catalog : ToolkitCatalog) (r : AssertToolkitValue) (c : ToolkitConcept)
    → check_assertion catalog r ≡ ok c
    → (resolve_concept catalog r.concept r.concept_revision ≡ ok c)
      × (r.verification_state ≡ verified
          → c.definition.cardinality ≡ one
          → NoOtherValue c catalog r.tool r.value none)
unfolding check_assertion
checked_assertion catalog r c e =
    let (u₁, a₁, b₁) =
      >>=-eq-ok
        (reject
          (any (λ (a : ToolkitAssertion). str_eq a.assertion_id r.assertion_id) catalog.assertions)
          (bail "assertion_id already exists"))
        _ e in
    let (tool, a₂, b₂) =
      >>=-eq-ok
        (or_fail (find (λ (t : ToolkitTool). str_eq t.key r.tool) catalog.tools)
          (bail "tool was not found"))
        _ b₁ in
    let (u₃, a₃, b₃) =
      >>=-eq-ok
        (reject (not (str_eq tool.status "active")) (bail "assertions require an active tool")) _
        b₂ in
    let (k, a₄, b₄) = >>=-eq-ok (resolve_concept catalog r.concept r.concept_revision) _ b₃ in
    let (u₅, a₅, b₅) = >>=-eq-ok (validate_assertion_value k r.value r.verification_state) _ b₄ in
    let (u₆, a₆, b₆) = >>=-eq-ok (validate_assessment k r) _ b₅ in
    let (u₇, a₇, b₇) = >>=-eq-ok (validate_applicability k catalog r.tool) _ b₆ in
    let (u₈, a₈, b₈) =
      >>=-eq-ok
        (when (is_verified r.verification_state)
          (reject_local_cardinality_conflict k catalog r.tool r.value none))
        _ b₇ in
    subst
      (λ x.
        (resolve_concept catalog r.concept r.concept_revision ≡ ok x)
        × (r.verification_state ≡ verified
            → x.definition.cardinality ≡ one
            → NoOtherValue x catalog r.tool r.value none))
      (ok_eq b₈)
      (
        a₄,
        λ is single.
            conflict_free k catalog r.tool r.value none
              (when-true (is_verified r.verification_state) _ a₈ (ap is_verified is)) single,
      )

-- A checked review: the assertion and its concept, and that a verified one agrees with the others.
pub record CheckedReview (catalog : ToolkitCatalog) (r : VerifyToolkitAssertion) : Type 0 where
  pub assertion : ToolkitAssertion
  pub listed : In assertion catalog.assertions
  pub id : assertion.assertion_id ≡ r.assertion_id
  pub concept : ToolkitConcept
  pub resolved :
      resolve_concept catalog assertion.concept (some assertion.concept_revision) ≡ ok concept
  pub agrees :
      r.state ≡ verified
      → concept.definition.cardinality ≡ one
      → NoOtherValue concept catalog assertion.tool assertion.value (some assertion.assertion_id)

pub check_review-CheckedReview :
    (catalog : ToolkitCatalog) (r : VerifyToolkitAssertion)
    → check_review catalog r ≡ ok tt
    → CheckedReview catalog r
unfolding check_review
check_review-CheckedReview catalog r e =
    let (u₁, a₁, b₁) =
      >>=-eq-ok
        (reject (any (λ (v : ToolkitReview). str_eq v.review_id r.review_id) catalog.reviews)
          (bail "review_id already exists"))
        _ e in
    let (x, a₂, b₂) =
      >>=-eq-ok
        (or_fail
          (find (λ (a : ToolkitAssertion). str_eq a.assertion_id r.assertion_id) catalog.assertions)
          (bail "assertion was not found"))
        _ b₁ in
    let (k, a₃, b₃) =
      >>=-eq-ok (resolve_concept catalog x.concept (some x.concept_revision)) _ b₂ in
    let (u₄, a₄, b₄) = >>=-eq-ok (validate_assertion_value k x.value r.state) _ b₃ in
    let (u₅, a₅, b₅) = >>=-eq-ok (validate_applicability k catalog x.tool) _ b₄ in
    let found = or_fail-eq-ok _ _ a₂ in
    let same = λ (a : ToolkitAssertion). str_eq a.assertion_id r.assertion_id in
    record {
      assertion = x;
      listed = find-In same catalog.assertions x found;
      id =
          (str_eq_iff x.assertion_id r.assertion_id).0 (find-holds same catalog.assertions x found);
      concept = k;
      resolved = a₃;
      agrees = λ is single.
          conflict_free k catalog x.tool x.value (some x.assertion_id)
            (when-true (is_verified r.state) _ b₅ (ap is_verified is)) single;
    }
