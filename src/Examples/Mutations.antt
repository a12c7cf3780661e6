-- ===== src/Examples/Mutations.antt =====
-- Requests to change a document.
use community_stack.Common.{
  any, false, ℕ, suc, String, ◌≡◌, ◌≢◌, ◌+◌, ◌<◌, refl, Option, none, some, arith, [], ◌∷◌,
}
use community_stack.Domain.Json.{null}
use community_stack.LocalApi.{response_for_error}
use community_stack.LocalApi.Errors.{reused_key_reported}
use community_stack.Failure.{Error, ok, err, bail}
use community_stack.Ports.{Response}
use community_stack.Store.Tables.{Database}
use community_stack.Store.Read.{update_count}
use community_stack.Store.Commit.{metadata_key}
use community_stack.Store.Commit.Chain.{empty-IsChained}
use community_stack.Application.Validate.{validate_object_id, validate_idempotency_key}
use community_stack.Application.Mutate.{next_place, u64_max, mutate, mutate_fresh, document_key}
use community_stack.Application.Mutate.Retry.{
  HasIds, stale, mutate_fresh-Carried, mutate_reused_key,
}
use community_stack.Application.Mutate.Progress.{ForgesFaithfully, IsReady, mutate_succeeds}
use community_stack.Application.Mutate.Again.{mutate_retry, second_writer_conflicts}
use community_stack.Store.Outbox.Steps.{Steps, done, next, committed}
use community_stack.Store.Commit.{commit_local}
use community_stack.Store.Read.{of_key}
use community_stack.Examples.Data.{
  second, registered, key, engine, secure, request, from_ok, canonical,
}

abbrev asked : String → Option ℕ → ℕ → Database → Response × Database
asked idempotency expected now a =
    from_ok (record { operation_hash = 0; state = null; revision = 0 }, a)
      (mutate engine secure 1 now "app" (request idempotency expected) 500 [] a)

ids : (expected : Option ℕ) → HasIds (request "k1" expected)
unfolding validate_object_id validate_idempotency_key community_stack.Common.has_control
ids expected = record { community = refl; document = refl; key = refl }

secure-ForgesFaithfully : ForgesFaithfully secure
secure-ForgesFaithfully = record {
  author = λ i c e. cc;
  log = λ i c e. cc;
  place = λ i c e. (cc, cc);
  document = λ i c e. cc;
}

-- The first mutation of the document, at revision 0.
abbrev response : Response
response = (asked "k1" (some 0) 1000 registered).0

abbrev after : Database
after = (asked "k1" (some 0) 1000 registered).1

asked_done :
    mutate engine secure 1 1000 "app" (request "k1" (some 0)) 500 [] registered
    ≡ ok (response, after)
unfolding mutate community_stack.Application.Mutate.mutate_in_namespace
    community_stack.Application.Mutate.mutate_locked mutate_fresh validate_object_id
    validate_idempotency_key community_stack.Common.has_control community_stack.Store.Channel.ask
    community_stack.Store.Read.idempotency community_stack.Store.Read.of_key
    community_stack.Store.Read.load_updates community_stack.Common.select
    community_stack.Common.Sort.sort community_stack.Store.Read.of_document next_place
    community_stack.Store.Commit.commit_local community_stack.Store.Commit.admissible update_count
    community_stack.Store.Read.log_head community_stack.Store.Commit.follows
    community_stack.Store.Commit.same_operation community_stack.Store.Commit.append_record
    community_stack.Store.Commit.apply_projections community_stack.Store.Commit.store_response
    community_stack.Store.Read.same_document community_stack.Common.any community_stack.Common.count
    community_stack.Common.find community_stack.Store.Commit.set_head
    community_stack.Store.Commit.next_outbox_id community_stack.Store.Commit.next_change_id
    community_stack.Store.Commit.priority_for
asked_done = refl

fresh_done :
    mutate_fresh engine secure 1 1000 "app" key (request "k1" (some 0)) 500 [] registered
    ≡ ok (response, after)
unfolding mutate community_stack.Application.Mutate.mutate_in_namespace
    community_stack.Application.Mutate.mutate_locked mutate_fresh validate_object_id
    validate_idempotency_key community_stack.Common.has_control community_stack.Store.Channel.ask
    community_stack.Store.Read.idempotency community_stack.Store.Read.of_key
    community_stack.Store.Read.load_updates community_stack.Common.select
    community_stack.Common.Sort.sort community_stack.Store.Read.of_document next_place
    community_stack.Store.Commit.commit_local community_stack.Store.Commit.admissible update_count
    community_stack.Store.Read.log_head community_stack.Store.Commit.follows
    community_stack.Store.Commit.same_operation community_stack.Store.Commit.append_record
    community_stack.Store.Commit.apply_projections community_stack.Store.Commit.store_response
    community_stack.Store.Read.same_document community_stack.Common.any community_stack.Common.count
    community_stack.Common.find community_stack.Store.Commit.set_head
    community_stack.Store.Commit.next_outbox_id community_stack.Store.Commit.next_change_id
    community_stack.Store.Commit.priority_for
fresh_done = refl

mutate_reused_key_example :
    mutate engine secure 1 9000 "app" (request "k1" none) 501 [] after
    ≡ err (bail "idempotency key was already used for a different request")
mutate_reused_key_example =
    mutate_reused_key engine secure 1 1000 9000 "app" (request "k1" (some 0)) (request "k1" none)
      500 501 [] [] registered response after
      (mutate_fresh-Carried engine secure 1 1000 "app" key (request "k1" (some 0)) 500 [] registered
        response after fresh_done)
      refl (λ e. absurd (omega (arith, e))) (ids none)

ready :
    IsReady engine secure 1 1000 "app" key
      (request "k1" (some 0))
      500
      registered
      (record { update_bytes = 9 ∷ []; state = null })
      0
      none
      (canonical 11 0 none)
unfolding next_place community_stack.Store.Read.log_head update_count community_stack.Common.count
    community_stack.Common.any community_stack.Common.find community_stack.Store.Read.load_updates
ready = record {
  expected = refl;
  staged = refl;
  place = refl;
  forged = refl;
  bounded = omega arith;
  registered = refl;
  unanswered = refl;
  new_hash = λ o m. absurd m;
}

mutate_succeeds_example :
    (answer : Response) × (b : Database) × (mutate engine secure 1 1000 "app"
        (request "k1" (some 0))
        500
        []
        registered
      ≡ ok (answer, b))
    × (answer.revision ≡ suc (update_count key registered))
mutate_succeeds_example =
    mutate_succeeds engine secure 1 1000 "app" (request "k1" (some 0)) 500 registered
      (record { update_bytes = 9 ∷ []; state = null }) 0 none (canonical 11 0 none) (ids (some 0))
      secure-ForgesFaithfully empty-IsChained ready

-- Another mutation, after the first one.
abbrev further : Database
further = from_ok after (commit_local 2000 second after)

further_done : commit_local 2000 second after ≡ ok further
unfolding mutate community_stack.Application.Mutate.mutate_in_namespace
    community_stack.Application.Mutate.mutate_locked mutate_fresh validate_object_id
    validate_idempotency_key community_stack.Common.has_control community_stack.Store.Channel.ask
    community_stack.Store.Read.idempotency community_stack.Store.Read.of_key
    community_stack.Store.Read.load_updates community_stack.Common.select
    community_stack.Common.Sort.sort community_stack.Store.Read.of_document next_place commit_local
    community_stack.Store.Commit.admissible update_count community_stack.Store.Read.log_head
    community_stack.Store.Commit.follows community_stack.Store.Commit.same_operation
    community_stack.Store.Commit.append_record community_stack.Store.Commit.apply_projections
    community_stack.Store.Commit.store_response community_stack.Store.Read.same_document
    community_stack.Common.any community_stack.Common.count community_stack.Common.find
    community_stack.Store.Commit.set_head community_stack.Store.Commit.next_outbox_id
    community_stack.Store.Commit.next_change_id community_stack.Store.Commit.priority_for
    community_stack.Store.Read.of_log
further_done = refl

since : Steps 0 after further
since = next (committed 2000 second further_done) done

mutate_retry_example :
    mutate engine secure 1 9000 "app" (request "k1" (some 0)) 500 [] further
    ≡ ok (response, further)
mutate_retry_example =
    mutate_retry engine secure 1 0 1000 9000 "app" (request "k1" (some 0)) 500 [] [] registered
      response after further asked_done since

unanswered : any (of_key "app" "k9") further.idempotency ≡ false
unfolding mutate community_stack.Application.Mutate.mutate_in_namespace
    community_stack.Application.Mutate.mutate_locked mutate_fresh validate_object_id
    validate_idempotency_key community_stack.Common.has_control community_stack.Store.Channel.ask
    community_stack.Store.Read.idempotency community_stack.Store.Read.of_key
    community_stack.Store.Read.load_updates community_stack.Common.select
    community_stack.Common.Sort.sort community_stack.Store.Read.of_document next_place commit_local
    community_stack.Store.Commit.admissible update_count community_stack.Store.Read.log_head
    community_stack.Store.Commit.follows community_stack.Store.Commit.same_operation
    community_stack.Store.Commit.append_record community_stack.Store.Commit.apply_projections
    community_stack.Store.Commit.store_response community_stack.Store.Read.same_document
    community_stack.Common.any community_stack.Common.count community_stack.Common.find
    community_stack.Store.Commit.set_head community_stack.Store.Commit.next_outbox_id
    community_stack.Store.Commit.next_change_id community_stack.Store.Commit.priority_for
    community_stack.Store.Read.of_log
unanswered = refl

other_ids : HasIds (request "k9" (some 0))
unfolding validate_object_id validate_idempotency_key community_stack.Common.has_control
other_ids = record { community = refl; document = refl; key = refl }

second_writer_conflicts_example :
    mutate engine secure 1 9000 "app" (request "k9" (some 0)) 501 [] further ≡ err stale
second_writer_conflicts_example =
    second_writer_conflicts engine secure 1 0 1000 9000 0 "app" (request "k1" (some 0))
      (request "k9" (some 0)) 500 501 [] registered response after further
      (mutate_fresh-Carried engine secure 1 1000 "app" key (request "k1" (some 0)) 500 [] registered
        response after fresh_done)
      since refl refl refl other_ids unanswered

reused_key_reported_example :
    (e : Error) × (mutate engine secure 1 9000 "app" (request "k1" none) 501 [] after ≡ err e)
    × (response_for_error "7" e ≡ record {
      id = "7";
      code = "INVALID_REQUEST";
      message = "request could not be processed";
      retryable = false;
    })
reused_key_reported_example =
    reused_key_reported engine secure 1 1000 9000 "app" (request "k1" (some 0)) (request "k1" none)
      500 501 [] [] registered response after "7"
      (mutate_fresh-Carried engine secure 1 1000 "app" key (request "k1" (some 0)) 500 [] registered
        response after fresh_done)
      refl (λ e. absurd (omega (arith, e))) (ids none)
