-- ===== src/Application/Toolkit/Writes.antt =====
-- The handlers of src/application/toolkit.rs that write: each checks its request against the catalog
-- and commits one record with its view. The lock of the community's toolkit, held from the reading of
-- the catalog to the commit, makes a handler one step.
use community_stack.Common.{Option, String, Bool, not, [], ◌∷◌, none, some, str_eq, any, find}
use community_stack.Domain.Documents.{MutateDocument, PrimitiveValue, Mutation}
use community_stack.Domain.Replication.{Hash}
use community_stack.Domain.Toolkit.{
  ConceptDefinition, ToolkitConcept, ToolkitTool, ToolkitAssertion, ToolkitReview, ToolkitCatalog,
  ToolkitProjection, AddConcept, AddTool, AssertToolkitValue, VerifyToolkitAssertion,
  VerificationState,
}
use community_stack.Failure.{Check, Result, ok, err, bail, reject, or_fail, when, ◌>>=◌, ◌>>◌}
use community_stack.Ports.{Response}
use community_stack.Store.Tables.{Database}
use community_stack.Store.Projection.Toolkit.{is_verified}
use community_stack.Application.Toolkit.{resolve_concept}
use community_stack.Application.Toolkit.Values.{
  validate_assertion_value, validate_assessment, validate_applicability,
  reject_local_cardinality_conflict,
}

-- serde_json and the hasher: the canonical text of a record, and the revision of a definition,
-- `hex::encode(hash_content(canonical))`.
pub record Encoding : Type 0 where
  pub canonical_json : ToolkitProjection → Result String
  pub revision : ConceptDefinition → Result String

-- A response with its `revision` replaced by that of the concept.
pub record ConceptResponse : Type 0 where
  pub response : Response
  pub revision : String

-- A response with the fields `assertion_id` (or `review_id`) and `verification_state`.
pub record StateResponse : Type 0 where
  pub response : Response
  pub id : String
  pub verification_state : VerificationState

unfoldable pub toolkit_mutation :
    Encoding → String → String → String → ToolkitProjection → Result MutateDocument
toolkit_mutation encoding community document_id key record_ = do
  canonical ← encoding.canonical_json record_
  ok (record {
    community_id = community;
    document_id = document_id;
    idempotency_key = key;
    schema_version = 1;
    expected_revision = none;
    mutations = Mutation.map_set "record" "canonical_json" (PrimitiveValue.string canonical) ∷ [];
  })

abbrev pub definition_of : AddConcept → ConceptDefinition
definition_of r = record {
  key = r.key;
  name = r.name;
  kind = r.kind;
  definition = r.definition;
  aliases = r.aliases;
  value_type = r.value_type;
  cardinality = r.cardinality;
  applicable_categories = r.applicable_categories;
  allowed_values = r.allowed_values;
  scale = r.scale;
  parent = r.parent;
  status = r.status;
}

-- `String::new()`: the view writes the hash of the operation in its place.
abbrev pub no_hash : Hash
no_hash = 0

abbrev pub new_concept : ConceptDefinition → String → ToolkitConcept
new_concept definition revision = record {
  definition = definition;
  revision = revision;
  source_operation_hash = no_hash;
  active_revision = Bool.true;
}

abbrev pub new_tool : AddTool → ToolkitTool
new_tool r = record {
  key = r.key;
  name = r.name;
  description = r.description;
  homepage = r.homepage;
  status = r.status;
  source_operation_hash = no_hash;
}

abbrev pub new_assertion : AssertToolkitValue → String → ToolkitAssertion
new_assertion r revision = record {
  assertion_id = r.assertion_id;
  tool = r.tool;
  concept = r.concept;
  concept_revision = revision;
  value = r.value;
  origin = r.origin;
  verification_state = r.verification_state;
  source = r.source;
  evidence = r.evidence;
  as_of = r.as_of;
  rubric = r.rubric;
  rubric_version = r.rubric_version;
  rationale = r.rationale;
  evaluator_type = r.evaluator_type;
  evaluation_date = r.evaluation_date;
  source_operation_hash = no_hash;
  review_operation_hash = none;
}

abbrev pub new_review : VerifyToolkitAssertion → ToolkitReview
new_review r = record {
  review_id = r.review_id;
  assertion_id = r.assertion_id;
  state = r.state;
  reviewer = r.reviewer;
  rationale = r.rationale;
  review_date = r.review_date;
  source_operation_hash = no_hash;
}

-- What is checked of an assertion against the catalog; the revision of its concept is the answer.
unfoldable pub check_assertion : ToolkitCatalog → AssertToolkitValue → Result ToolkitConcept
check_assertion c r = do
  reject (any (λ (a : ToolkitAssertion). str_eq a.assertion_id r.assertion_id) c.assertions)
      (bail "assertion_id already exists")
  tool ←
      or_fail (find (λ (t : ToolkitTool). str_eq t.key r.tool) c.tools) (bail "tool was not found")
  reject (not (str_eq tool.status "active")) (bail "assertions require an active tool")
  concept ← resolve_concept c r.concept r.concept_revision
  validate_assertion_value concept r.value r.verification_state
  validate_assessment concept r
  validate_applicability concept c r.tool
  when (is_verified r.verification_state)
      (reject_local_cardinality_conflict concept c r.tool r.value none)
  ok concept

-- What is checked of a review against the catalog.
unfoldable pub check_review : ToolkitCatalog → VerifyToolkitAssertion → Check
check_review c r = do
  reject (any (λ (v : ToolkitReview). str_eq v.review_id r.review_id) c.reviews)
      (bail "review_id already exists")
  assertion ←
      or_fail (find (λ (a : ToolkitAssertion). str_eq a.assertion_id r.assertion_id) c.assertions)
        (bail "assertion was not found")
  concept ← resolve_concept c assertion.concept (some assertion.concept_revision)
  validate_assertion_value concept assertion.value r.state
  validate_applicability concept c assertion.tool
  when (is_verified r.state) (
      reject_local_cardinality_conflict concept c assertion.tool assertion.value
        (some assertion.assertion_id))

-- `if let Some(response) = …idempotency(…).await? { return Ok(…) }`, before what is done for a new
-- request.
unfoldable pub or_stored :
    {A : Type 0}
    → (Response → A)
    → Database
    → Result (Option Response)
    → Result (A × Database)
    → Result (A × Database)
or_stored answer db (err e) fresh = err e
or_stored answer db (ok none) fresh = fresh
or_stored answer db (ok (some response)) fresh = ok (answer response, db)
