-- ===== src/Domain/Replication.antt =====
-- src/domain/replication.rs. A hash or key of 32 bytes is the number that the bytes write in
-- big-endian order, so equality and the order of such byte strings are those of the numbers; its
-- hexadecimal text is kept as that number too. `Bytes` is a byte vector.
use community_stack.Common.{ℕ, String, List, Option}
use community_stack.Domain.Documents.{DocumentKey}

abbrev pub Hash : Type 0
Hash = ℕ

abbrev pub Bytes : Type 0
Bytes = List ℕ

pub record LogHead : Type 0 where
  pub sequence : ℕ
  pub operation_hash : Hash

pub record RecordMetadata : Type 0 where
  pub app_id : String
  pub community_id : String
  pub document_id : String
  pub record_kind : ℕ
  pub codec_version : ℕ
  pub key_epoch : ℕ

pub record CanonicalRecord : Type 0 where
  pub operation_hash : Hash
  pub canonical_header : Bytes
  pub body_ciphertext : Bytes
  pub author_key : Hash
  pub log_id : Hash
  pub sequence : ℕ
  pub backlink : Option Hash
  pub metadata : RecordMetadata

pub record ForgeDocumentUpdate : Type 0 where
  pub key : DocumentKey
  pub sequence : ℕ
  pub backlink : Option Hash
  pub schema_version : ℕ
  pub key_epoch : ℕ
  pub auth_frontier : Bytes
  pub loro_update : Bytes
  pub semantic_transaction : String

pub record ClaimOutbox : Type 0 where
  pub transport : String
  pub limit : ℕ
  pub max_bytes : ℕ

pub data DeliveryAck : Type 0 where
  stored applied pending_deps rejected : DeliveryAck

pub record AckOutbox : Type 0 where
  pub transport : String
  pub operation_hash : Hash
  pub lease_attempt : ℕ
  pub status : DeliveryAck
  pub detail : Option String

-- The header and body are kept as bytes; the source sends them in base64.
pub record OutboxItem : Type 0 where
  pub operation_hash : Hash
  pub lease_attempt : ℕ
  pub header : Bytes
  pub body : Bytes
  pub priority : ℕ
