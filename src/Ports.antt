-- ===== src/Ports.antt =====
-- src/ports.rs: what the use cases ask of the document engine, the secure log, the hasher and the
-- repository. The three engines are implemented on third-party libraries (loro, p2panda, blake3), so
-- they are parameters; the repository is modelled in Store.
use community_stack.Common.{ℕ, String, List}
use community_stack.Domain.Json.{Value}
use community_stack.Domain.Documents.{DocumentKey, Mutation}
use community_stack.Domain.Replication.{Hash, Bytes, CanonicalRecord, ForgeDocumentUpdate}
use community_stack.Domain.Facts.{FactRevisionProjection}
use community_stack.Domain.Planning.{PlanningProjectionWrite}
use community_stack.Domain.Toolkit.{ToolkitProjection}
use community_stack.Failure.{Result}

-- src/domain/facts.rs, `ProjectionWrite`
pub data ProjectionWrite : Type 0 where
  fact_revision : FactRevisionProjection → ProjectionWrite
  planning : PlanningProjectionWrite → ProjectionWrite
  toolkit : ToolkitProjection → ProjectionWrite

-- The JSON object that a mutation answers with; the constant fields `status` and `durable` are left
-- out.
pub record Response : Type 0 where
  pub operation_hash : Hash
  pub state : Value
  pub revision : ℕ

pub record LocalCommit : Type 0 where
  pub expected_update_count : ℕ
  pub idempotency_app_id : String
  pub canonical_record : CanonicalRecord
  pub document : DocumentKey
  pub update_bytes : Bytes
  pub projections : List ProjectionWrite
  pub request_hash : Hash
  pub idempotency_key : String
  pub response : Response

-- src/domain/documents.rs
pub record DocumentChange : Type 0 where
  pub update_bytes : Bytes
  pub state : Value

pub record DocumentEngine : Type 0 where
  pub read_state : List Bytes → ℕ → Result Value
  pub stage_mutations : List Bytes → ℕ → List Mutation → Result DocumentChange

pub record SecureLog : Type 0 where
  pub author_key : Hash
  pub document_log_id : DocumentKey → Hash
  pub forge_document_update : ForgeDocumentUpdate → Result CanonicalRecord
