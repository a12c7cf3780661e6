-- ===== src/Examples/Views.antt =====
-- The view of facts.
use community_stack.Common.{
  ℕ, String, ◌≡◌, ◌↔◌, ◌<◌, ◌++◌, refl, List, [], ◌∷◌, Option, none, some, true, false, arith, find,
  all, In, inl, inr, length, if◌then◌else◌,
}
use community_stack.Domain.Error.{conflict}
use community_stack.Domain.Facts.{FactRevisionProjection, FactLifecycleStatus}
use community_stack.Failure.{ok, err, protocol_error}
use community_stack.Store.Tables.{Claim, Database}
use community_stack.Store.Projection.Facts.{is_claim, apply_fact}
use community_stack.Store.Projection.Facts.Revisions.{
  IsAbout, revision_advances, stale_revision_conflicts, single_active_claim,
}
use community_stack.Examples.Data.{from_ok, two}

-- One claim, stated twice.
abbrev fact : Option ℕ → FactRevisionProjection
fact previous = record {
  claim_id = "claim";
  community_id = "c1";
  subject = "well";
  predicate = "depth";
  object_json = 49 ∷ [];
  source = none;
  confidence = 0;
  schema_id = "s";
  schema_version = 1;
  lifecycle_status = FactLifecycleStatus.asserted;
  source_document_id = none;
  multiple_active_claims = false;
  expected_previous_operation_hash = previous;
}

abbrev stated : Database
stated = from_ok two (apply_fact "app" 11 (fact none) 5000 two)

abbrev restated : Database
restated = from_ok two (apply_fact "app" 12 (fact (some 11)) 4000 stated)

abbrev current : Option Claim
current = find (is_claim "app" "c1" "claim") stated.facts.claims

abbrev or_claim : Option Claim → Claim → Claim
or_claim none c = c
or_claim (some d) c = d

abbrev row : Claim
row = record {
  app_id = "app";
  claim = record {
    claim_id = "claim";
    community_id = "c1";
    subject = "well";
    predicate = "depth";
    object_json = 49 ∷ [];
    source = none;
    confidence = 0;
    source_operation_hash = 11;
    updated_at_ms = 5000;
    schema_id = "s";
    schema_version = 1;
    lifecycle_status = FactLifecycleStatus.asserted;
    source_document_id = none;
  };
  retracted = false;
}

stated_done : apply_fact "app" 11 (fact none) 5000 two ≡ ok stated
unfolding community_stack.Common.update community_stack.Store.Projection.Facts.apply_fact
    community_stack.Store.Projection.Facts.is_claim community_stack.Store.Projection.Facts.is_rival
    community_stack.Store.Projection.Facts.active_conflict
    community_stack.Store.Projection.Facts.commit_author
    community_stack.Store.Projection.Facts.has_hash community_stack.Store.Projection.Facts.supersede
    community_stack.Store.Projection.Facts.new_claim
    community_stack.Store.Projection.Facts.upsert_claim
    community_stack.Store.Projection.Facts.write_fact community_stack.Store.Commit.commit_local
    community_stack.Store.Commit.admissible community_stack.Store.Read.update_count
    community_stack.Store.Read.log_head community_stack.Store.Commit.follows
    community_stack.Store.Commit.same_operation community_stack.Store.Commit.append_record
    community_stack.Store.Commit.apply_projections community_stack.Store.Commit.store_response
    community_stack.Store.Read.same_document community_stack.Common.any community_stack.Common.count
    community_stack.Common.find community_stack.Store.Read.of_key
    community_stack.Store.Commit.set_head community_stack.Store.Commit.next_outbox_id
    community_stack.Store.Commit.next_change_id community_stack.Store.Commit.priority_for
    community_stack.Store.Read.of_log community_stack.Store.Read.of_document
stated_done = refl

restated_done : apply_fact "app" 12 (fact (some 11)) 4000 stated ≡ ok restated
unfolding community_stack.Common.update community_stack.Store.Projection.Facts.apply_fact
    community_stack.Store.Projection.Facts.is_claim community_stack.Store.Projection.Facts.is_rival
    community_stack.Store.Projection.Facts.active_conflict
    community_stack.Store.Projection.Facts.commit_author
    community_stack.Store.Projection.Facts.has_hash community_stack.Store.Projection.Facts.supersede
    community_stack.Store.Projection.Facts.new_claim
    community_stack.Store.Projection.Facts.upsert_claim
    community_stack.Store.Projection.Facts.write_fact community_stack.Store.Commit.commit_local
    community_stack.Store.Commit.admissible community_stack.Store.Read.update_count
    community_stack.Store.Read.log_head community_stack.Store.Commit.follows
    community_stack.Store.Commit.same_operation community_stack.Store.Commit.append_record
    community_stack.Store.Commit.apply_projections community_stack.Store.Commit.store_response
    community_stack.Store.Read.same_document community_stack.Common.any community_stack.Common.count
    community_stack.Common.find community_stack.Store.Read.of_key
    community_stack.Store.Commit.set_head community_stack.Store.Commit.next_outbox_id
    community_stack.Store.Commit.next_change_id community_stack.Store.Commit.priority_for
    community_stack.Store.Read.of_log community_stack.Store.Read.of_document
restated_done = refl

stated_row : find (is_claim "app" "c1" "claim") stated.facts.claims ≡ some row
unfolding community_stack.Common.update community_stack.Store.Projection.Facts.apply_fact
    community_stack.Store.Projection.Facts.is_claim community_stack.Store.Projection.Facts.is_rival
    community_stack.Store.Projection.Facts.active_conflict
    community_stack.Store.Projection.Facts.commit_author
    community_stack.Store.Projection.Facts.has_hash community_stack.Store.Projection.Facts.supersede
    community_stack.Store.Projection.Facts.new_claim
    community_stack.Store.Projection.Facts.upsert_claim
    community_stack.Store.Projection.Facts.write_fact community_stack.Store.Commit.commit_local
    community_stack.Store.Commit.admissible community_stack.Store.Read.update_count
    community_stack.Store.Read.log_head community_stack.Store.Commit.follows
    community_stack.Store.Commit.same_operation community_stack.Store.Commit.append_record
    community_stack.Store.Commit.apply_projections community_stack.Store.Commit.store_response
    community_stack.Store.Read.same_document community_stack.Common.any community_stack.Common.count
    community_stack.Common.find community_stack.Store.Read.of_key
    community_stack.Store.Commit.set_head community_stack.Store.Commit.next_outbox_id
    community_stack.Store.Commit.next_change_id community_stack.Store.Commit.priority_for
    community_stack.Store.Read.of_log community_stack.Store.Read.of_document
stated_row = refl

revision_advances_example :
    (d : Claim) × (find (is_claim "app" "c1" "claim") restated.facts.claims ≡ some d)
    × (d.claim.source_operation_hash ≡ 12)
    × (5000 < d.claim.updated_at_ms)
revision_advances_example =
    revision_advances "app" 12 (fact (some 11)) 4000 stated restated row restated_done stated_row
      (omega arith)

stale_revision_conflicts_example :
    apply_fact "app" 12 (fact none) 6000 stated
    ≡ err (protocol_error conflict "fact current revision changed before commit" true)
stale_revision_conflicts_example =
    stale_revision_conflicts "app" 11 12 (fact none) (fact none) 5000 6000 two stated stated_done
      refl refl refl (λ e. absurd (cc))

row_there : In row stated.facts.claims
unfolding community_stack.Common.update community_stack.Store.Projection.Facts.apply_fact
    community_stack.Store.Projection.Facts.is_claim community_stack.Store.Projection.Facts.is_rival
    community_stack.Store.Projection.Facts.active_conflict
    community_stack.Store.Projection.Facts.commit_author
    community_stack.Store.Projection.Facts.has_hash community_stack.Store.Projection.Facts.supersede
    community_stack.Store.Projection.Facts.new_claim
    community_stack.Store.Projection.Facts.upsert_claim
    community_stack.Store.Projection.Facts.write_fact community_stack.Store.Commit.commit_local
    community_stack.Store.Commit.admissible community_stack.Store.Read.update_count
    community_stack.Store.Read.log_head community_stack.Store.Commit.follows
    community_stack.Store.Commit.same_operation community_stack.Store.Commit.append_record
    community_stack.Store.Commit.apply_projections community_stack.Store.Commit.store_response
    community_stack.Store.Read.same_document community_stack.Common.any community_stack.Common.count
    community_stack.Common.find community_stack.Store.Read.of_key
    community_stack.Store.Commit.set_head community_stack.Store.Commit.next_outbox_id
    community_stack.Store.Commit.next_change_id community_stack.Store.Commit.priority_for
    community_stack.Store.Read.of_log community_stack.Store.Read.of_document
row_there = inl refl

about : IsAbout "app" (fact none) row
about = record { app_ = refl; community = refl; subject = refl; predicate = refl; active = refl }

single_active_claim_example : row.claim.claim_id ≡ (fact none).claim_id
single_active_claim_example =
    single_active_claim "app" 11 (fact none) 5000 two stated row stated_done refl refl row_there
      about
