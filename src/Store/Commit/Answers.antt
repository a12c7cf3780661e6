-- ===== src/Store/Commit/Answers.antt =====
-- The stored responses that make a retried request idempotent.
use community_stack.Common.{
  ℕ, String, ◌≡◌, ap, ◌∙◌, false, [], ◌∷◌, some, ◌==◌, if◌then◌else◌, find, find-append_none,
  find-none_of_any, find-append_last, find_last,
}
use community_stack.Domain.Error.{idempotency_conflict}
use community_stack.Domain.Replication.{Hash}
use community_stack.Failure.{ok, err, protocol_error}
use community_stack.Ports.{LocalCommit}
use community_stack.Store.Tables.{Database}
use community_stack.Store.Read.{of_key, of_key_self, idempotency, stored_response}
use community_stack.Store.Commit.{commit_local}
use community_stack.Store.Commit.Shape.{commit-Committed, answer_row}

-- What a later request with the key of a committed one gets: the stored response if it is the same
-- request, and an idempotency conflict if it is another.
pub idempotency-commit :
    (now : ℕ) (c : LocalCommit) (a b : Database) (hash : Hash)
    → commit_local now c a ≡ ok b
    → idempotency c.idempotency_app_id c.idempotency_key hash b ≡ (
        if c.request_hash == hash
        then ok (some c.response)
        else err (
            protocol_error idempotency_conflict
              "idempotency key was already used for a different request" false))
unfolding idempotency
idempotency-commit now c a b hash e =
    let done = commit-Committed now c a b e in
    let p = of_key c.idempotency_app_id c.idempotency_key in
    let found =
      ap (find p) done.idempotency
      ∙ find-append_none p a.idempotency (answer_row c ∷ [])
          (find-none_of_any p a.idempotency done.fresh_key)
      ∙ find_last p (answer_row c) (of_key_self (answer_row c)) in
    ap (λ o. stored_response o hash) found

-- A commit does not change what a key answers that is not the commit's.
pub idempotency-commit_other :
    (now : ℕ) (c : LocalCommit) (a b : Database) (app key : String) (hash : Hash)
    → commit_local now c a ≡ ok b
    → of_key app key (answer_row c) ≡ false
    → idempotency app key hash b ≡ idempotency app key hash a
unfolding idempotency
idempotency-commit_other now c a b app key hash e other =
    let done = commit-Committed now c a b e in
    let found =
      ap (find (of_key app key)) done.idempotency
      ∙ find-append_last (of_key app key) a.idempotency (answer_row c) other in
    ap (λ o. stored_response o hash) found
