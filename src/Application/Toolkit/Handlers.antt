-- ===== src/Application/Toolkit/Handlers.antt =====
-- The four writing handlers of src/application/toolkit.rs, over a document engine, a secure log and an
-- encoding. `peer` is the writer's peer number, `hash` that of the request.
use community_stack.Common.{Bool, ℕ, String, concat, not, ◌&&◌, ◌||◌, [], ◌∷◌, str_eq, any}
use community_stack.Domain.Replication.{Hash}
use community_stack.Domain.Toolkit.{
  ConceptDefinition, VerificationState, ToolkitConcept, ToolkitTool, ToolkitProjection, AddConcept,
  AddTool, AssertToolkitValue, VerifyToolkitAssertion,
}
use community_stack.Failure.{Check, Result, ok, bail, reject, ◌>>=◌, ◌>>◌}
use community_stack.Ports.{toolkit, Response, DocumentEngine, SecureLog}
use community_stack.Store.Tables.{Database}
use community_stack.Store.Read.{idempotency}
use community_stack.Store.Channel.{ask}
use community_stack.Store.Catalog.{catalog}
use community_stack.Store.Projection.Toolkit.{is_review_state}
use community_stack.Application.Validate.{validate_object_id, validate_idempotency_key}
use community_stack.Application.Mutate.{mutate}
use community_stack.Application.Toolkit.{
  validate_key, validate_text, validate_optional_text, validate_date,
}
use community_stack.Application.Toolkit.Concepts.{
  normalize_concept, validate_concept_shape, validate_concept_references,
}
use community_stack.Application.Toolkit.Values.{validate_assert_request}
use community_stack.Application.Toolkit.Writes.{
  Encoding, ConceptResponse, StateResponse, toolkit_mutation, definition_of, new_concept, new_tool,
  new_assertion, new_review, check_assertion, check_review, or_stored,
}

unfoldable pub is_revision : ConceptDefinition → String → ToolkitConcept → Bool
is_revision definition revision item =
    str_eq item.definition.key definition.key && str_eq item.revision revision

-- What is checked of a new tool before anything is read.
unfoldable pub validate_tool : AddTool → Check
validate_tool r = do
  validate_object_id r.community_id "community_id"
  validate_idempotency_key r.idempotency_key
  validate_key r.key "tool key"
  validate_text r.name "name" 256
  validate_optional_text r.description "description" 4096
  validate_optional_text r.homepage "homepage" 2048
  reject (not (str_eq r.status "active" || str_eq r.status "deprecated"))
      (bail "tool status must be active or deprecated")

-- What is checked of a review before anything is read.
unfoldable pub validate_review : VerifyToolkitAssertion → Check
validate_review r = do
  validate_object_id r.community_id "community_id"
  validate_idempotency_key r.idempotency_key
  validate_key r.review_id "review_id"
  validate_key r.assertion_id "assertion_id"
  validate_text r.reviewer "reviewer" 256
  validate_text r.rationale "rationale" 8192
  validate_date r.review_date "review_date"
  reject (not (is_review_state r.state)) (bail "a review state must be verified or rejected")

abbrev pub state_response : String → VerificationState → Response → StateResponse
state_response id state response = record {
  response = response;
  id = id;
  verification_state = state;
}

module _ (engine : DocumentEngine) (secure : SecureLog) (encoding : Encoding) (peer : ℕ) where
  -- The call of `mutate` with which every writing handler ends.
  unfoldable pub write :
      ℕ
      → String
      → String
      → String
      → String
      → ToolkitProjection
      → Hash
      → Database
      → Result (Response × Database)
  write now app community document_id key record_ hash db = do
    request ← toolkit_mutation encoding community document_id key record_
    mutate engine secure peer now app request hash (toolkit record_ ∷ []) db

  unfoldable pub toolkit_schema_add :
      ℕ → String → AddConcept → Hash → Database → Result (ConceptResponse × Database)
  toolkit_schema_add now app r hash db = do
    validate_object_id r.community_id "community_id"
    validate_idempotency_key r.idempotency_key
    let definition = normalize_concept (definition_of r)
    validate_concept_shape definition
    let c = catalog app r.community_id db
    validate_concept_references definition c
    revision ← encoding.revision definition
    or_stored (λ response. record { response = response; revision = revision }) db
        (ask (idempotency app r.idempotency_key hash db))
        (do
          reject (any (is_revision definition revision) c.concepts)
              (bail "this immutable concept revision already exists")
          done ←
              write now app r.community_id
                (concat "toolkit/concepts/" (concat definition.key (concat "/" revision)))
                r.idempotency_key (ToolkitProjection.concept (new_concept definition revision)) hash
                db
          ok (record { response = done.0; revision = revision }, done.1))

  unfoldable pub toolkit_tool_add :
      ℕ → String → AddTool → Hash → Database → Result (Response × Database)
  toolkit_tool_add now app r hash db = do
    validate_tool r
    or_stored (λ response. response) db (ask (idempotency app r.idempotency_key hash db))
        (do
          let c = catalog app r.community_id db
          reject (any (λ (t : ToolkitTool). str_eq t.key r.key) c.tools)
              (bail "tool key already exists")
          write now app r.community_id (concat "toolkit/tools/" r.key) r.idempotency_key
              (ToolkitProjection.tool (new_tool r)) hash db)

  unfoldable pub toolkit_assert :
      ℕ → String → AssertToolkitValue → Hash → Database → Result (StateResponse × Database)
  toolkit_assert now app r hash db = do
    validate_assert_request r
    or_stored (state_response r.assertion_id r.verification_state) db
        (ask (idempotency app r.idempotency_key hash db))
        (do
          concept ← check_assertion (catalog app r.community_id db) r
          done ←
              write now app r.community_id (concat "toolkit/assertions/" r.assertion_id)
                r.idempotency_key (ToolkitProjection.assertion (new_assertion r concept.revision))
                hash db
          ok (state_response r.assertion_id r.verification_state done.0, done.1))

  unfoldable pub toolkit_verify :
      ℕ → String → VerifyToolkitAssertion → Hash → Database → Result (StateResponse × Database)
  toolkit_verify now app r hash db = do
    validate_review r
    or_stored (state_response r.review_id r.state) db
        (ask (idempotency app r.idempotency_key hash db))
        (do
          check_review (catalog app r.community_id db) r
          done ←
              write now app r.community_id (concat "toolkit/reviews/" r.review_id) r.idempotency_key
                (ToolkitProjection.review (new_review r)) hash db
          ok (state_response r.review_id r.state done.0, done.1))
