-- ===== src/Store/Commit.antt =====
-- `commit_local` of src/adapters/sqlite.rs: one transaction for the operation, the document update,
-- the head of the log, the outbox, the views and the stored response.
pub mod Frame
pub mod Shape
pub mod Chain
pub mod Answers
pub mod Counts
pub mod Views
use community_stack.Common.{
  ℕ, suc, String, Bool, true, false, not, ◌&&◌, ◌||◌, ◌+◌, List, [], ◌∷◌, ◌++◌, Option, none, some,
  ◌==◌, str_eq, opt_eq, if◌then◌else◌, any, find, update, max, ltb, ◌^◌, ◌-◌,
}
use community_stack.Domain.Error.{conflict}
use community_stack.Domain.Documents.{DocumentKey}
use community_stack.Domain.Replication.{Hash, LogHead, RecordMetadata, CanonicalRecord}
use community_stack.Failure.{
  Error, Check, Result, ok, err, bail, reject, protocol_error, ◌>>=◌, ◌>>◌,
}
use community_stack.Ports.{LocalCommit, ProjectionWrite}
use community_stack.Store.Tables.{
  Operation, DocumentUpdate, DocumentChangeRow, Head, OutboxRow, IdempotencyKey, LogTables,
  Database,
}
use community_stack.Store.Read.{same_document, update_count, of_log, log_head, of_key}
use community_stack.Store.Projection.{apply_projection}

abbrev pub metadata_key : RecordMetadata → DocumentKey
metadata_key m = record {
  app_id = m.app_id;
  community_id = m.community_id;
  document_id = m.document_id;
}

unfoldable pub priority_for : ℕ → ℕ
priority_for record_kind = if record_kind == 1 then 40 else 50

abbrev pub u32_max : ℕ
u32_max = 2 ^ 32 - 1

-- The `match (record.sequence, current)`: the record opens the log or follows its head.
unfoldable pub follows : ℕ → Option Hash → Option LogHead → Bool
follows sequence backlink none = sequence == 0
follows sequence backlink (some head) =
    not (sequence == 0)
    && ltb head.sequence u32_max
    && sequence == suc head.sequence
    && opt_eq (some head.operation_hash) backlink

-- `INTEGER PRIMARY KEY`, one more than the greatest in use; no row is ever deleted.
unfoldable pub next_outbox_id : List OutboxRow → ℕ
next_outbox_id [] = 1
next_outbox_id (r ∷ rs) = max (suc r.outbox_id) (next_outbox_id rs)

unfoldable pub next_change_id : List DocumentChangeRow → ℕ
next_change_id [] = 1
next_change_id (r ∷ rs) = max (suc r.change_id) (next_change_id rs)

abbrev pub new_operation : LocalCommit → ℕ → Operation
new_operation c now = record {
  operation_hash = c.canonical_record.operation_hash;
  canonical_header = c.canonical_record.canonical_header;
  body_ciphertext = c.canonical_record.body_ciphertext;
  author_key = c.canonical_record.author_key;
  log_id = c.canonical_record.log_id;
  sequence = c.canonical_record.sequence;
  backlink = c.canonical_record.backlink;
  document = c.document;
  record_kind = c.canonical_record.metadata.record_kind;
  received_at_ms = now;
}

abbrev pub new_update : LocalCommit → ℕ → DocumentUpdate
new_update c now = record {
  operation_hash = c.canonical_record.operation_hash;
  document = c.document;
  codec = c.canonical_record.metadata.codec_version;
  key_epoch = c.canonical_record.metadata.key_epoch;
  update_bytes = c.update_bytes;
  created_at_ms = now;
}

abbrev pub new_head : LocalCommit → Head
new_head c = record {
  author_key = c.canonical_record.author_key;
  log_id = c.canonical_record.log_id;
  sequence = c.canonical_record.sequence;
  operation_hash = c.canonical_record.operation_hash;
}

-- `INSERT … ON CONFLICT(author_key,log_id,generation) DO UPDATE`
unfoldable pub set_head : Head → List Head → List Head
set_head h [] = h ∷ []
set_head h (x ∷ xs) = if of_log h.author_key h.log_id x then h ∷ xs else x ∷ set_head h xs

-- The columns that `operations` keeps unique: the hash, and the place in a log.
unfoldable pub same_operation : Operation → Operation → Bool
same_operation o p =
    p.operation_hash == o.operation_hash
    || p.author_key == o.author_key && p.log_id == o.log_id && p.sequence == o.sequence

-- The inserts into `operations`, `document_updates` (with its trigger), `log_heads` and
-- `durable_outbox`.
unfoldable pub append_record : LocalCommit → ℕ → LogTables → LogTables
append_record c now t = record {
  operations = t.operations ++ new_operation c now ∷ [];
  updates = t.updates ++ new_update c now ∷ [];
  changes =
      t.changes
      ++ record {
        change_id = next_change_id t.changes;
        operation_hash = c.canonical_record.operation_hash;
        document = c.document;
      }
        ∷ [];
  heads = set_head (new_head c) t.heads;
  outbox =
      t.outbox
      ++ record {
        outbox_id = next_outbox_id t.outbox;
        operation_hash = c.canonical_record.operation_hash;
        priority = priority_for c.canonical_record.metadata.record_kind;
        available_at_ms = now;
      }
        ∷ [];
}

unfoldable pub apply_projections :
    String → String → Hash → ℕ → List ProjectionWrite → Database → Result Database
apply_projections app community hash now [] db = ok db
apply_projections app community hash now (p ∷ ps) db = do
  db' ← apply_projection app community hash p now db
  apply_projections app community hash now ps db'

-- The key of the row is its application and the key, and the application has to be registered.
unfoldable pub store_response : LocalCommit → Database → Result Database
store_response c db = do
  reject (any (of_key c.idempotency_app_id c.idempotency_key) db.idempotency)
      (bail "UNIQUE constraint failed")
  reject (not (any (str_eq c.idempotency_app_id) db.applications))
      (bail "FOREIGN KEY constraint failed")
  ok (record db {
    idempotency =
        db.idempotency
        ++ record {
          app_id = c.idempotency_app_id;
          key = c.idempotency_key;
          request_hash = c.request_hash;
          response = c.response;
        }
          ∷ [];
  })

abbrev pub moved : Error
moved = protocol_error conflict "log head changed before commit" true

-- What is checked before the first write.
unfoldable pub admissible : LocalCommit → Database → Check
admissible c db = do
  reject (not (same_document (metadata_key c.canonical_record.metadata) c.document))
      (bail "record metadata does not match its document commit")
  reject (not (update_count c.document db == c.expected_update_count))
      (protocol_error conflict "document state changed before commit" true)
  reject
      (not (
        follows c.canonical_record.sequence c.canonical_record.backlink
          (log_head c.canonical_record.author_key c.canonical_record.log_id db)))
      moved

unfoldable pub commit_local : ℕ → LocalCommit → Database → Result Database
commit_local now c db = do
  admissible c db
  reject (any (same_operation (new_operation c now)) db.log.operations)
      (bail "UNIQUE constraint failed")
  db' ←
      apply_projections c.document.app_id c.document.community_id c.canonical_record.operation_hash
        now c.projections (record db { log = append_record c now db.log })
  store_response c db'
