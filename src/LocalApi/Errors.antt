-- ===== src/LocalApi/Errors.antt =====
-- What of an error reaches a client.
use community_stack.Common.{ℕ, String, false, ◌≡◌, ◌≢◌, refl, ap, List}
use community_stack.Domain.Documents.{MutateDocument}
use community_stack.Domain.Error.{idempotency_conflict}
use community_stack.Domain.Replication.{Hash}
use community_stack.Failure.{Error, api, bail, context, err}
use community_stack.Ports.{ProjectionWrite, Response, DocumentEngine, SecureLog}
use community_stack.Store.Tables.{Database}
use community_stack.Application.Mutate.{document_key, mutate}
use community_stack.Application.Mutate.Retry.{HasIds, Carried, mutate_reused_key}
use community_stack.LocalApi.{downcast, failure_of, response_for_error}

-- Every internal message of an error replaced by another.
unfoldable pub reword : (String → String) → Error → Error
reword f (api e) = api e
reword f (bail message) = bail (f message)
reword f (context message cause) = context (f message) (reword f cause)

downcast-reword : (f : String → String) (e : Error) → downcast (reword f e) ≡ downcast e
unfolding downcast reword
downcast-reword f (api e) = refl
downcast-reword f (bail message) = refl
downcast-reword f (context message cause) = downcast-reword f cause

-- The response to a failed request does not depend on the internal messages of its error: whatever
-- they are replaced by, the client gets the same.
pub messages_stay_inside :
    (f : String → String) (id : String) (e : Error)
    → response_for_error id (reword f e) ≡ response_for_error id e
unfolding response_for_error
messages_stay_inside f id e = ap (failure_of id) (downcast-reword f e)

-- After a mutation was carried out under a key, a client that uses the key for a request of another
-- hash, with valid identifiers, gets the code of an invalid request and a text that does not name
-- the conflict.
pub reused_key_reported :
    (engine : DocumentEngine) (secure : SecureLog) (peer now later : ℕ) (app : String)
    (r s : MutateDocument) (hash other : Hash) (ps qs : List ProjectionWrite) (a : Database)
    (response : Response) (b : Database) (id : String)
    → Carried now app (document_key app r) r hash ps a response b
    → s.idempotency_key ≡ r.idempotency_key
    → hash ≢ other
    → HasIds s
    → (e : Error) × (mutate engine secure peer later app s other qs b ≡ err e)
      × (response_for_error id e ≡ record {
        id = id;
        code = "INVALID_REQUEST";
        message = "request could not be processed";
        retryable = false;
      })
unfolding response_for_error downcast community_stack.Domain.Error.as_str
reused_key_reported engine secure peer now later app r s hash other ps qs a response b id k same ne
      ids =
    (
      bail "idempotency key was already used for a different request",
      mutate_reused_key engine secure peer now later app r s hash other ps qs a response b k same ne
          ids,
      refl,
    )
