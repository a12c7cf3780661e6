-- ===== src/Store/Read.antt =====
-- The reads of src/adapters/sqlite.rs on which a commit rests.
use community_stack.Common.{
  ℕ, String, Bool, true, false, ◌&&◌, ◌||◌, ◌≡◌, ◌↔◌, List, map, Option, none, some, ltb, ◌==◌,
  str_eq, str_eq_iff, if◌then◌else◌, arith, select, find, count, length, length-map, length-select,
}
use community_stack.Common.Sort.{sort, length-sort}
use community_stack.Domain.Error.{idempotency_conflict}
use community_stack.Domain.Documents.{DocumentKey}
use community_stack.Domain.Replication.{Hash, Bytes, LogHead}
use community_stack.Failure.{Result, ok, err, protocol_error}
use community_stack.Ports.{Response}
use community_stack.Store.Tables.{DocumentUpdate, Head, IdempotencyKey, Database}

-- The three columns of a document's key.
unfoldable pub same_document : DocumentKey → DocumentKey → Bool
same_document a b =
    str_eq a.app_id b.app_id
    && str_eq a.community_id b.community_id
    && str_eq a.document_id b.document_id

pub same_document_iff : (a b : DocumentKey) → (same_document a b ≡ true) ↔ (a ≡ b)
unfolding same_document
same_document_iff a b = ground (
  arith,
  str_eq_iff a.app_id b.app_id,
  str_eq_iff a.community_id b.community_id,
  str_eq_iff a.document_id b.document_id,
)

-- `ORDER BY created_at_ms, operation_hash`
unfoldable pub update_before : DocumentUpdate → DocumentUpdate → Bool
update_before a b =
    ltb a.created_at_ms b.created_at_ms
    || a.created_at_ms == b.created_at_ms && ltb a.operation_hash b.operation_hash

unfoldable pub of_document : DocumentKey → DocumentUpdate → Bool
of_document key u = same_document u.document key

unfoldable pub load_updates : DocumentKey → Database → List Bytes
load_updates key db =
    map (λ u. u.update_bytes) (sort update_before (select (of_document key) db.log.updates))

-- `SELECT count(*)` of the applied updates of a document.
unfoldable pub update_count : DocumentKey → Database → ℕ
update_count key db = count (of_document key) db.log.updates

unfoldable pub of_log : Hash → Hash → Head → Bool
of_log author log_id h = h.author_key == author && h.log_id == log_id

abbrev pub head_row : Option Head → Option LogHead
head_row none = none
head_row (some h) = some (record { sequence = h.sequence; operation_hash = h.operation_hash })

unfoldable pub log_head : Hash → Hash → Database → Option LogHead
log_head author log_id db = head_row (find (of_log author log_id) db.log.heads)

unfoldable pub of_key : String → String → IdempotencyKey → Bool
of_key app key r = str_eq r.app_id app && str_eq r.key key

abbrev pub stored_response : Option IdempotencyKey → Hash → Result (Option Response)
stored_response none hash = ok none
stored_response (some r) hash =
    if r.request_hash == hash
    then ok (some r.response)
    else err (
        protocol_error idempotency_conflict
          "idempotency key was already used for a different request" false)

unfoldable pub idempotency : String → String → Hash → Database → Result (Option Response)
idempotency app key hash db = stored_response (find (of_key app key) db.idempotency) hash

pub length-load_updates :
    (key : DocumentKey) (db : Database) → length (load_updates key db) ≡ update_count key db
unfolding load_updates update_count
length-load_updates key db = omega (
  arith,
  length-map (λ (u : DocumentUpdate). u.update_bytes)
      (sort update_before (select (of_document key) db.log.updates)),
  length-sort update_before (select (of_document key) db.log.updates),
  length-select (of_document key) db.log.updates,
)

-- A row is found under its own key.
pub of_key_self : (r : IdempotencyKey) → of_key r.app_id r.key r ≡ true
unfolding of_key
of_key_self r = ground (arith, str_eq_iff r.app_id r.app_id, str_eq_iff r.key r.key)
