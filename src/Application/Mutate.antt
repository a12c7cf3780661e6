-- ===== src/Application/Mutate.antt =====
-- `mutate`, `mutate_in_namespace` and `mutate_locked` of src/application.rs, over a document engine
-- and a secure log. `peer` is the writer's peer number.
pub mod Retry
pub mod Progress
pub mod Again
use community_stack.Common.{
  ℕ, suc, ◌-◌, ◌^◌, String, Bool, true, false, not, List, [], Option, none, some, ltb, ◌==◌, length,
  if◌then◌else◌,
}
use community_stack.Domain.Error.{revision_conflict}
use community_stack.Domain.Documents.{DocumentKey, MutateDocument}
use community_stack.Domain.Replication.{Hash, LogHead, CanonicalRecord, ForgeDocumentUpdate}
use community_stack.Failure.{Result, ok, err, bail, reject, or_fail, protocol_error, ◌>>=◌, ◌>>◌}
use community_stack.Ports.{
  ProjectionWrite, Response, LocalCommit, DocumentChange, DocumentEngine, SecureLog,
}
use community_stack.Store.Tables.{Database}
use community_stack.Store.Read.{load_updates, log_head, idempotency}
use community_stack.Store.Commit.{u32_max, commit_local}
use community_stack.Store.Channel.{ask}
use community_stack.Application.Validate.{validate_object_id, validate_idempotency_key}

abbrev pub expected_other : Option ℕ → ℕ → Bool
expected_other none revision = false
expected_other (some expected) revision = not (expected == revision)

-- `match head`: the place of the next record in its log.
unfoldable pub next_place : Option LogHead → Result (ℕ × Option Hash)
next_place none = ok (0, none)
next_place (some head) =
    if ltb head.sequence u32_max
    then ok (suc head.sequence, some head.operation_hash)
    else err (bail "secure log sequence space exhausted")

abbrev pub u64_max : ℕ
u64_max = 2 ^ 64 - 1

abbrev pub document_key : String → MutateDocument → DocumentKey
document_key namespace r = record {
  app_id = namespace;
  community_id = r.community_id;
  document_id = r.document_id;
}

abbrev pub forge_input :
    DocumentKey → MutateDocument → ℕ × Option Hash → DocumentChange → ForgeDocumentUpdate
forge_input key r (sequence, backlink) change = record {
  key = key;
  sequence = sequence;
  backlink = backlink;
  schema_version = r.schema_version;
  key_epoch = 1;
  auth_frontier = [];
  loro_update = change.update_bytes;
  semantic_transaction = r.idempotency_key;
}

abbrev pub local_commit :
    String
    → DocumentKey
    → MutateDocument
    → Hash
    → List ProjectionWrite
    → ℕ
    → DocumentChange
    → CanonicalRecord
    → LocalCommit
local_commit caller key r hash projections revision change canonical = record {
  expected_update_count = revision;
  idempotency_app_id = caller;
  canonical_record = canonical;
  document = key;
  update_bytes = change.update_bytes;
  projections = projections;
  request_hash = hash;
  idempotency_key = r.idempotency_key;
  response = record {
    operation_hash = canonical.operation_hash;
    state = change.state;
    revision = suc revision;
  };
}

module _ (engine : DocumentEngine) (secure : SecureLog) (peer : ℕ) where
  -- What follows the look-up of a stored response.
  unfoldable pub mutate_fresh :
      ℕ
      → String
      → DocumentKey
      → MutateDocument
      → Hash
      → List ProjectionWrite
      → Database
      → Result (Response × Database)
  mutate_fresh now caller key r hash projections db = do
    let updates = load_updates key db
    let revision = length updates
    reject (expected_other r.expected_revision revision) (
        protocol_error revision_conflict
          "document revision conflict; read the document and reconcile before retrying" false)
    change ← engine.stage_mutations updates peer r.mutations
    place ← next_place (log_head secure.author_key (secure.document_log_id key) db)
    canonical ← secure.forge_document_update (forge_input key r place change)
    reject (not (ltb revision u64_max)) (bail "document revision exhausted")
    let c = local_commit caller key r hash projections revision change canonical
    db' ← ask (commit_local now c db)
    ok (c.response, db')

  unfoldable pub mutate_locked :
      ℕ
      → String
      → DocumentKey
      → MutateDocument
      → Hash
      → List ProjectionWrite
      → Database
      → Result (Response × Database)
  mutate_locked now caller key r hash projections db = do
    stored ← ask (idempotency caller r.idempotency_key hash db)
    elim stored [
      | some response ↦ ok (response, db)
      | none ↦ mutate_fresh now caller key r hash projections db
    ]

  unfoldable pub mutate_in_namespace :
      ℕ
      → String
      → String
      → MutateDocument
      → Hash
      → List ProjectionWrite
      → Database
      → Result (Response × Database)
  mutate_in_namespace now caller namespace r hash projections db =
      mutate_locked now caller (document_key namespace r) r hash projections db

  unfoldable pub mutate :
      ℕ
      → String
      → MutateDocument
      → Hash
      → List ProjectionWrite
      → Database
      → Result (Response × Database)
  mutate now app r hash projections db = do
    validate_object_id r.community_id "community_id"
    validate_object_id r.document_id "document_id"
    validate_idempotency_key r.idempotency_key
    stored ← ask (idempotency app r.idempotency_key hash db)
    elim stored [
      | some response ↦ ok (response, db)
      | none ↦ mutate_in_namespace now app app r hash projections db
    ]
