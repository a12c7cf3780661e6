-- ===== src/Examples/Log.antt =====
-- Commits to one log.
use community_stack.Common.{
  ◌∷◌, [], ℕ, suc, String, ◌≡◌, ◌+◌, ◌≤◌, refl, true, false, if◌then◌else◌, ◌==◌, Option, none,
  some, In, inl, inr, arith, [],
}
use community_stack.Domain.Error.{conflict, idempotency_conflict}
use community_stack.Failure.{ok, err, protocol_error}
use community_stack.Store.Tables.{Operation}
use community_stack.Store.Read.{same_document, update_count, log_head, of_key, idempotency}
use community_stack.Store.Commit.{
  follows, same_operation, new_operation, append_record, apply_projections, store_response,
  admissible, commit_local, set_head, next_outbox_id, next_change_id, priority_for,
}
use community_stack.Store.Commit.Chain.{IsChained, empty-IsChained, commit-IsChained}
use community_stack.Store.History.{history_no_gap}
use community_stack.Store.Outbox.Steps.{committed, done, next}
use community_stack.Store.Commit.Counts.{update_count-commit, stale_commit_conflicts}
use community_stack.Store.Commit.Answers.{idempotency-commit, idempotency-commit_other}
use community_stack.Examples.Data.{registered, key, first, second, late, one, two}

pub first_done : commit_local 1000 first registered ≡ ok one
unfolding commit_local admissible update_count log_head follows same_operation append_record
    apply_projections store_response same_document community_stack.Common.any
    community_stack.Common.count community_stack.Common.find of_key set_head next_outbox_id
    next_change_id priority_for
first_done = refl

pub second_done : commit_local 2000 second one ≡ ok two
unfolding commit_local admissible update_count log_head follows same_operation append_record
    apply_projections store_response same_document community_stack.Common.any
    community_stack.Common.count community_stack.Common.find of_key set_head next_outbox_id
    next_change_id priority_for community_stack.Store.Read.of_log
    community_stack.Store.Read.of_document
second_done = refl

commit-IsChained_example : IsChained two.log
commit-IsChained_example =
    commit-IsChained 2000 second one two
      (commit-IsChained 1000 first registered one empty-IsChained first_done) second_done

second_there : In (new_operation second 2000) two.log.operations
unfolding commit_local admissible update_count log_head follows same_operation append_record
    apply_projections store_response same_document community_stack.Common.any
    community_stack.Common.count community_stack.Common.find of_key set_head next_outbox_id
    next_change_id priority_for community_stack.Store.Read.of_log
    community_stack.Store.Read.of_document
second_there = inr (inl refl)

history_no_gap_example :
    (p : Operation) × In p two.log.operations
    × (p.author_key ≡ 77)
    × (p.log_id ≡ 88)
    × (p.sequence ≡ 0)
history_no_gap_example =
    history_no_gap ("app" ∷ []) 0 0 two (new_operation second 2000)
      (next (committed 1000 first first_done) (next (committed 2000 second second_done) done))
      second_there (omega arith)

update_count-commit_example :
    update_count key two
    ≡ update_count key one + (if same_document second.document key then 1 else 0)
update_count-commit_example = update_count-commit 2000 second one two key second_done

stale_commit_conflicts_example :
    commit_local 3000 late one
    ≡ err (protocol_error conflict "document state changed before commit" true)
stale_commit_conflicts_example =
    stale_commit_conflicts 1000 3000 first late registered one first_done refl refl refl

idempotency-commit_example :
    idempotency "app" "k1" 999 one
    ≡ err (
        protocol_error idempotency_conflict
          "idempotency key was already used for a different request" false)
idempotency-commit_example = idempotency-commit 1000 first registered one 999 first_done

idempotency-commit_other_example : idempotency "app" "k1" 511 two ≡ idempotency "app" "k1" 511 one
unfolding of_key
idempotency-commit_other_example =
    idempotency-commit_other 2000 second one two "app" "k1" 511 second_done refl
