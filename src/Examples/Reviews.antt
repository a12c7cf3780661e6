-- ===== src/Examples/Reviews.antt =====
-- The view of the toolkit.
use community_stack.Common.{
  ℕ, String, ◌≡◌, ◌↔◌, ◌<◌, ◌++◌, List, [], ◌∷◌, Option, none, some, true, false, arith, inr,
  length,
}
use community_stack.Domain.Toolkit.{ToolkitReview, AssertionOrigin, VerificationState}
use community_stack.Store.Tables.{Scoped, AssertionRow, Database}
use community_stack.Store.Projection.Toolkit.{aggregate, apply_review}
use community_stack.Store.Projection.Toolkit.Reviews.{aggregate-swap}
use community_stack.Examples.Data.{from_ok, two}

abbrev review : String → VerificationState → ℕ → ToolkitReview
review id state hash = record {
  review_id = id;
  assertion_id = "a1";
  state = state;
  reviewer = "r";
  rationale = "why";
  review_date = "2026-01-01";
  source_operation_hash = hash;
}

abbrev assertion : AssertionRow
assertion = record {
  assertion = record {
    assertion_id = "a1";
    tool = "t";
    concept = "c";
    concept_revision = "1";
    value = none;
    origin = AssertionOrigin.ai;
    verification_state = VerificationState.proposed;
    source = "s";
    evidence = "e";
    as_of = "2026-01-01";
    rubric = none;
    rubric_version = none;
    rationale = none;
    evaluator_type = none;
    evaluation_date = none;
    source_operation_hash = 11;
    review_operation_hash = none;
  };
  initial_state = VerificationState.proposed;
}

abbrev table : AssertionRow → Scoped AssertionRow
table a = record { app_id = "app"; community_id = "c1"; row = a }

abbrev asserted : Database
asserted = record two { toolkit = record two.toolkit { assertions = table assertion ∷ [] } }

abbrev reviewed : Database
reviewed =
    from_ok asserted
      (apply_review "app" "c1" 12 (review "v1" VerificationState.verified 0) asserted)

abbrev verified_row : Scoped AssertionRow
verified_row = table (aggregate (review "v1" VerificationState.verified 12 ∷ []) assertion)

aggregate-swap_example :
    aggregate
      (review "v1" VerificationState.verified 12 ∷ review "v2" VerificationState.rejected 11 ∷ [])
      assertion
    ≡ aggregate
        (review "v2" VerificationState.rejected 11 ∷ review "v1" VerificationState.verified 12 ∷ [])
        assertion
aggregate-swap_example =
    aggregate-swap (review "v1" VerificationState.verified 12 ∷ [])
      (review "v2" VerificationState.rejected 11 ∷ []) assertion
