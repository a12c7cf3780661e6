-- ===== src/Domain/Toolkit.antt =====
-- src/domain/toolkit.rs: controlled concepts, tools, evidence-bearing assertions and reviews. The
-- signed-request types of the writes are those of the projections, with the request's own fields.
use community_stack.Common.{ℕ, String, Bool, List, Option}
use community_stack.Domain.Json.{Value, F64}
use community_stack.Domain.Replication.{Hash}

pub data ConceptKind : Type 0 where
  domain role capability standard attribute dimension descriptor : ConceptKind

pub data ValueType : Type 0 where
  boolean integer number text enum date reference : ValueType

pub data Cardinality : Type 0 where
  one many : Cardinality

pub data ConceptStatus : Type 0 where
  active deprecated : ConceptStatus

pub record Scale : Type 0 where
  pub min : F64
  pub max : F64
  pub rubric : String
  pub version : String
  pub anchors : List (String × String)

pub record AddConcept : Type 0 where
  pub community_id : String
  pub idempotency_key : String
  pub key : String
  pub name : String
  pub kind : ConceptKind
  pub definition : String
  pub aliases : List String
  pub value_type : ValueType
  pub cardinality : Cardinality
  pub applicable_categories : List String
  pub allowed_values : Option (List String)
  pub scale : Option Scale
  pub parent : Option String
  pub status : ConceptStatus

pub record ConceptDefinition : Type 0 where
  pub key : String
  pub name : String
  pub kind : ConceptKind
  pub definition : String
  pub aliases : List String
  pub value_type : ValueType
  pub cardinality : Cardinality
  pub applicable_categories : List String
  pub allowed_values : Option (List String)
  pub scale : Option Scale
  pub parent : Option String
  pub status : ConceptStatus

pub record ToolkitConcept : Type 0 where
  pub definition : ConceptDefinition
  pub revision : String
  pub source_operation_hash : Hash
  pub active_revision : Bool

pub record ListConcepts : Type 0 where
  pub community_id : String
  pub active_only : Bool
  pub limit : ℕ

pub record ShowConcept : Type 0 where
  pub community_id : String
  pub key : String
  pub revision : Option String

pub record AddTool : Type 0 where
  pub community_id : String
  pub idempotency_key : String
  pub key : String
  pub name : String
  pub description : Option String
  pub homepage : Option String
  pub status : String

pub record ToolkitTool : Type 0 where
  pub key : String
  pub name : String
  pub description : Option String
  pub homepage : Option String
  pub status : String
  pub source_operation_hash : Hash

pub data AssertionOrigin : Type 0 where
  human ai fixture : AssertionOrigin

pub data VerificationState : Type 0 where
  proposed verified rejected unknown : VerificationState

pub record AssertToolkitValue : Type 0 where
  pub community_id : String
  pub idempotency_key : String
  pub assertion_id : String
  pub tool : String
  pub concept : String
  pub concept_revision : Option String
  pub value : Option Value
  pub origin : AssertionOrigin
  pub verification_state : VerificationState
  pub source : String
  pub evidence : String
  pub as_of : String
  pub rubric : Option String
  pub rubric_version : Option String
  pub rationale : Option String
  pub evaluator_type : Option String
  pub evaluation_date : Option String

pub record VerifyToolkitAssertion : Type 0 where
  pub community_id : String
  pub idempotency_key : String
  pub review_id : String
  pub assertion_id : String
  pub state : VerificationState
  pub reviewer : String
  pub rationale : String
  pub review_date : String

pub record ToolkitAssertion : Type 0 where
  pub assertion_id : String
  pub tool : String
  pub concept : String
  pub concept_revision : String
  pub value : Option Value
  pub origin : AssertionOrigin
  pub verification_state : VerificationState
  pub source : String
  pub evidence : String
  pub as_of : String
  pub rubric : Option String
  pub rubric_version : Option String
  pub rationale : Option String
  pub evaluator_type : Option String
  pub evaluation_date : Option String
  pub source_operation_hash : Hash
  pub review_operation_hash : Option Hash

pub record ToolkitReview : Type 0 where
  pub review_id : String
  pub assertion_id : String
  pub state : VerificationState
  pub reviewer : String
  pub rationale : String
  pub review_date : String
  pub source_operation_hash : Hash

pub data QueryOperator : Type 0 where
  eq ne in_list exists gt gte lt lte : QueryOperator

pub record ToolkitRequirement : Type 0 where
  pub concept : String
  pub concept_revision : Option String
  pub op : QueryOperator
  pub value : Option Value
  pub required : Bool

pub record ToolkitQueryPlan : Type 0 where
  pub tools : List String
  pub requirements : List ToolkitRequirement
  pub mandatory : List ToolkitRequirement
  pub optional : List ToolkitRequirement
  pub include_partial : Bool

pub record QueryToolkit : Type 0 where
  pub community_id : String
  pub plan : ToolkitQueryPlan

pub record ExplainToolkit : Type 0 where
  pub community_id : String
  pub tool : String
  pub query : ToolkitQueryPlan

pub data RequirementState : Type 0 where
  satisfied unsatisfied unknown missing proposed rejected conflict : RequirementState

pub record RequirementExplanation : Type 0 where
  pub concept : String
  pub concept_revision : String
  pub op : QueryOperator
  pub required : Bool
  pub state : RequirementState
  pub assertions : List ToolkitAssertion

pub record ToolkitQueryResult : Type 0 where
  pub tool : String
  pub name : String
  pub match_state : String
  pub satisfied_requirements : ℕ
  pub requirements : List RequirementExplanation

pub record ToolkitQueryResponse : Type 0 where
  pub exact_count : ℕ
  pub results : List ToolkitQueryResult

pub record ExportToolkit : Type 0 where
  pub community_id : String
  pub offset : ℕ
  pub limit : ℕ

pub record ToolkitCatalog : Type 0 where
  pub concepts : List ToolkitConcept
  pub tools : List ToolkitTool
  pub assertions : List ToolkitAssertion
  pub reviews : List ToolkitReview

pub data ToolkitProjection : Type 0 where
  concept : ToolkitConcept → ToolkitProjection
  tool : ToolkitTool → ToolkitProjection
  assertion : ToolkitAssertion → ToolkitProjection
  review : ToolkitReview → ToolkitProjection
