-- ===== src/Store/Tables.antt =====
-- The tables of migrations/*.sql that the operations use, with their columns. Columns with one
-- constant value in this program are left out: generation 0, applied 1, 'VERIFIED', 'APPLIED'.
use community_stack.Common.{ℕ, String, Bool, ◌&&◌, List, [], Option, str_eq}
use community_stack.Domain.Documents.{DocumentKey}
use community_stack.Domain.Replication.{Hash, Bytes}
use community_stack.Domain.Profiles.{ProfileAccess}
use community_stack.Domain.Facts.{FactClaim, FactRevision, FactSchema}
use community_stack.Domain.Planning.{
  PlanningProject, PlanningTask, PlanningEvent, PlanningDependency,
}
use community_stack.Domain.Toolkit.{
  ToolkitConcept, ToolkitTool, ToolkitAssertion, ToolkitReview, VerificationState,
}
use community_stack.Ports.{Response}

pub record Operation : Type 0 where
  pub operation_hash : Hash
  pub canonical_header : Bytes
  pub body_ciphertext : Bytes
  pub author_key : Hash
  pub log_id : Hash
  pub sequence : ℕ
  pub backlink : Option Hash
  pub document : DocumentKey
  pub record_kind : ℕ
  pub received_at_ms : ℕ

-- `document_updates`
pub record DocumentUpdate : Type 0 where
  pub operation_hash : Hash
  pub document : DocumentKey
  pub codec : ℕ
  pub key_epoch : ℕ
  pub update_bytes : Bytes
  pub created_at_ms : ℕ

-- `document_changes`, filled by the trigger of migration 6.
pub record DocumentChangeRow : Type 0 where
  pub change_id : ℕ
  pub operation_hash : Hash
  pub document : DocumentKey

-- `log_heads`
pub record Head : Type 0 where
  pub author_key : Hash
  pub log_id : Hash
  pub sequence : ℕ
  pub operation_hash : Hash

-- `durable_outbox`
pub record OutboxRow : Type 0 where
  pub outbox_id : ℕ
  pub operation_hash : Hash
  pub priority : ℕ
  pub available_at_ms : ℕ

pub data DeliveryState : Type 0 where
  claimed delivered rejected retry : DeliveryState

-- `transport_deliveries`
pub record Delivery : Type 0 where
  pub operation_hash : Hash
  pub transport : String
  pub state : DeliveryState
  pub attempts : ℕ
  pub lease_until_ms : Option ℕ
  pub last_error : Option String
  pub durable_ack : Option String
  pub updated_at_ms : ℕ

-- `idempotency_keys`
pub record IdempotencyKey : Type 0 where
  pub app_id : String
  pub key : String
  pub request_hash : Hash
  pub response : Response

-- A row of a table whose key begins with an application (or namespace) and a community.
pub record Scoped (A : Type 0) : Type 0 where
  pub app_id : String
  pub community_id : String
  pub row : A

abbrev pub in_scope : {A : Type 0} → String → String → Scoped A → Bool
in_scope app community r = str_eq r.app_id app && str_eq r.community_id community

-- `fact_claims` and `fact_claim_revisions`; the community is a field of the row.
pub record Claim : Type 0 where
  pub app_id : String
  pub claim : FactClaim
  pub retracted : Bool

pub record Revision : Type 0 where
  pub app_id : String
  pub revision : FactRevision

-- `profile_grants`
pub record Grant : Type 0 where
  pub app_id : String
  pub profile_id : String
  pub community_id : String
  pub access : ProfileAccess

-- `toolkit_assertions`: the state and the review of the assertion are the effective ones.
pub record AssertionRow : Type 0 where
  pub assertion : ToolkitAssertion
  pub initial_state : VerificationState

pub record FactTables : Type 0 where
  pub claims : List Claim
  pub revisions : List Revision
  pub schemas : List FactSchema

pub record PlanningTables : Type 0 where
  pub versions : List (Scoped ℕ)
  pub projects : List (Scoped PlanningProject)
  pub tasks : List (Scoped PlanningTask)
  pub events : List (Scoped PlanningEvent)
  pub dependencies : List (Scoped PlanningDependency)

pub record ToolkitTables : Type 0 where
  pub concepts : List (Scoped ToolkitConcept)
  pub tools : List (Scoped ToolkitTool)
  pub assertions : List (Scoped AssertionRow)
  pub reviews : List (Scoped ToolkitReview)

-- The signed operations, the document history, the heads of the logs and the outbox.
pub record LogTables : Type 0 where
  pub operations : List Operation
  pub updates : List DocumentUpdate
  pub changes : List DocumentChangeRow
  pub heads : List Head
  pub outbox : List OutboxRow

-- `applications` holds the column `app_id` of its table.
pub record Database : Type 0 where
  pub applications : List String
  pub log : LogTables
  pub deliveries : List Delivery
  pub idempotency : List IdempotencyKey
  pub facts : FactTables
  pub grants : List Grant
  pub planning : PlanningTables
  pub toolkit : ToolkitTables

-- A store in which applications are registered, and nothing else.
abbrev pub empty : List String → Database
empty apps = record {
  applications = apps;
  log = record { operations = []; updates = []; changes = []; heads = []; outbox = [] };
  deliveries = [];
  idempotency = [];
  facts = record { claims = []; revisions = []; schemas = [] };
  grants = [];
  planning = record { versions = []; projects = []; tasks = []; events = []; dependencies = [] };
  toolkit = record { concepts = []; tools = []; assertions = []; reviews = [] };
}
