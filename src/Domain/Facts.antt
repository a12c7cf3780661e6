-- ===== src/Domain/Facts.antt =====
-- src/domain/facts.rs: governed facts, their schemas, revisions and reports.
use community_stack.Common.{ℕ, String, Bool, true, false, List, Option}
use community_stack.Domain.Json.{Value, F64}
use community_stack.Domain.Replication.{Hash, Bytes}

abbrev pub max_fact_object_bytes : ℕ
max_fact_object_bytes = 65536

abbrev pub max_fact_history_page : ℕ
max_fact_history_page = 100

pub data FactLifecycleStatus : Type 0 where
  asserted superseded retracted disputed expired : FactLifecycleStatus

pub data SubmittedFactLifecycle : Type 0 where
  asserted retracted disputed expired : SubmittedFactLifecycle

-- `impl From<SubmittedFactLifecycle> for FactLifecycleStatus`
unfoldable pub from : SubmittedFactLifecycle → FactLifecycleStatus
from SubmittedFactLifecycle.asserted = FactLifecycleStatus.asserted
from SubmittedFactLifecycle.retracted = FactLifecycleStatus.retracted
from SubmittedFactLifecycle.disputed = FactLifecycleStatus.disputed
from SubmittedFactLifecycle.expired = FactLifecycleStatus.expired

unfoldable pub as_str : FactLifecycleStatus → String
as_str FactLifecycleStatus.asserted = "ASSERTED"
as_str FactLifecycleStatus.superseded = "SUPERSEDED"
as_str FactLifecycleStatus.retracted = "RETRACTED"
as_str FactLifecycleStatus.disputed = "DISPUTED"
as_str FactLifecycleStatus.expired = "EXPIRED"

pub data ProvenancePolicy : Type 0 where
  none source source_document source_and_document : ProvenancePolicy

pub record FactLifecyclePolicy : Type 0 where
  pub allow_supersession : Bool
  pub allow_retraction : Bool
  pub allow_dispute : Bool
  pub allow_expiry : Bool

-- `impl Default for FactLifecyclePolicy`
abbrev pub default_policy : FactLifecyclePolicy
default_policy = record {
  allow_supersession = true;
  allow_retraction = true;
  allow_dispute = false;
  allow_expiry = false;
}

pub record RegisterFactSchema : Type 0 where
  pub app_id : String
  pub schema_id : String
  pub schema_version : ℕ
  pub predicate : String
  pub object_schema : Value
  pub multiple_active_claims : Bool
  pub provenance_policy : ProvenancePolicy
  pub lifecycle_policy : FactLifecyclePolicy
  pub enabled : Bool

pub record GetFactSchema : Type 0 where
  pub app_id : String
  pub schema_id : String
  pub schema_version : Option ℕ

pub record ListFactSchemas : Type 0 where
  pub app_id : String
  pub limit : ℕ

pub record FactSchema : Type 0 where
  pub app_id : String
  pub schema_id : String
  pub schema_version : ℕ
  pub predicate : String
  pub object_schema : Value
  pub multiple_active_claims : Bool
  pub provenance_policy : ProvenancePolicy
  pub lifecycle_policy : FactLifecyclePolicy
  pub created_at_ms : ℕ
  pub enabled : Bool

pub record AssertFact : Type 0 where
  pub community_id : String
  pub claim_id : String
  pub subject : String
  pub predicate : String
  pub object : Value
  pub source : Option String
  pub source_document_id : Option String
  pub confidence : F64
  pub schema_id : String
  pub schema_version : ℕ
  pub lifecycle_status : SubmittedFactLifecycle
  pub idempotency_key : String

pub record QueryFacts : Type 0 where
  pub community_id : String
  pub subject : Option String
  pub predicate : Option String
  pub limit : ℕ

pub record InspectFact : Type 0 where
  pub community_id : String
  pub claim_id : String

-- The cursor is read: a time and a hash.
pub record FactHistoryRequest : Type 0 where
  pub community_id : String
  pub claim_id : String
  pub limit : ℕ
  pub cursor : Option (ℕ × Hash)

pub record FactClaim : Type 0 where
  pub claim_id : String
  pub community_id : String
  pub subject : String
  pub predicate : String
  pub object_json : Bytes
  pub source : Option String
  pub confidence : F64
  pub source_operation_hash : Hash
  pub updated_at_ms : ℕ
  pub schema_id : String
  pub schema_version : ℕ
  pub lifecycle_status : FactLifecycleStatus
  pub source_document_id : Option String

pub record FactRevision : Type 0 where
  pub operation_hash : Hash
  pub claim_id : String
  pub community_id : String
  pub subject : String
  pub predicate : String
  pub object_json : Bytes
  pub source : Option String
  pub confidence : F64
  pub author_key : Hash
  pub schema_id : String
  pub schema_version : ℕ
  pub asserted_at_ms : ℕ
  pub supersedes_operation_hash : Option Hash
  pub lifecycle_status : FactLifecycleStatus
  pub source_document_id : Option String

pub record FactHistoryPage : Type 0 where
  pub revisions : List FactRevision
  pub next_cursor : Option (ℕ × Hash)
  pub limit : ℕ

pub record FactCurrentRevision : Type 0 where
  pub operation_hash : Hash
  pub subject : String
  pub predicate : String
  pub schema_id : String
  pub schema_version : ℕ
  pub lifecycle_status : FactLifecycleStatus

pub record FactRevisionProjection : Type 0 where
  pub claim_id : String
  pub community_id : String
  pub subject : String
  pub predicate : String
  pub object_json : Bytes
  pub source : Option String
  pub confidence : F64
  pub schema_id : String
  pub schema_version : ℕ
  pub lifecycle_status : FactLifecycleStatus
  pub source_document_id : Option String
  pub multiple_active_claims : Bool
  pub expected_previous_operation_hash : Option Hash

pub data CheckStatus : Type 0 where
  ok warning error : CheckStatus

pub record DoctorCheck : Type 0 where
  pub check_name : String
  pub status : CheckStatus
  pub count : ℕ
  pub examples : List String
  pub repairable : Bool
