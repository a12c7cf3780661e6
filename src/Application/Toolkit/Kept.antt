-- ===== src/Application/Toolkit/Kept.antt =====
-- Each writing handler keeps the toolkit's tables sound.
use community_stack.Common.{
  ℕ, ◌≡◌, ap, subst, ◌⊎◌, inl, inr, String, Option, none, some, str_eq, concat, any,
}
use community_stack.Domain.Replication.{Hash}
use community_stack.Domain.Toolkit.{
  ToolkitTool, ToolkitProjection, AddConcept, AddTool, AssertToolkitValue, VerifyToolkitAssertion,
}
use community_stack.Failure.{Result, ok, err, bail, reject, ◌>>=◌, >>=-eq-ok, ok_eq}
use community_stack.Ports.{Response, DocumentEngine, SecureLog}
use community_stack.Store.Tables.{Database}
use community_stack.Store.Read.{idempotency}
use community_stack.Store.Channel.{ask}
use community_stack.Store.Catalog.{catalog}
use community_stack.Store.Projection.Toolkit.Rivals.{IsSound}
use community_stack.Application.Validate.{validate_object_id, validate_idempotency_key}
use community_stack.Application.Toolkit.Concepts.{
  normalize_concept, validate_concept_shape, validate_concept_references,
}
use community_stack.Application.Toolkit.Values.{validate_assert_request}
use community_stack.Application.Toolkit.Writes.{
  Encoding, ConceptResponse, StateResponse, definition_of, new_concept, new_tool, new_assertion,
  new_review, check_assertion, check_review, or_stored,
}
use community_stack.Application.Toolkit.Handlers.{
  is_revision, validate_tool, validate_review, state_response, write, toolkit_schema_add,
  toolkit_tool_add, toolkit_assert, toolkit_verify,
}
use community_stack.Application.Toolkit.Written.{Written, write-Written}
use community_stack.Application.Toolkit.Guards.{
  assert-Guard, verify_guard, concept-Written, tool-Written, assertion-Written, review-Written,
}

-- A handler that answers has answered from the store, or has done its work.
pub or_stored-cases :
    {A : Type 0} (answer : Response → A) (db : Database) (m : Result (Option Response))
    (fresh : Result (A × Database)) (x : A) (b : Database)
    → or_stored answer db m fresh ≡ ok (x, b)
    → (db ≡ b) ⊎ (fresh ≡ ok (x, b))
unfolding or_stored
or_stored-cases answer db (err e) fresh x b h = absurd (cc)
or_stored-cases answer db (ok none) fresh x b h = inr h
or_stored-cases answer db (ok (some y)) fresh x b h = inl (ap (λ (z : _ × Database). z.1) (ok_eq h))

-- Nothing has changed, or the view of the record was written.
abbrev Outcome : String → String → ToolkitProjection → Database → Database → Type 0
Outcome app community p a b = (a ≡ b) ⊎ Written app community p a b

module _ (engine : DocumentEngine) (secure : SecureLog) (encoding : Encoding) (peer : ℕ) where
  answered-Outcome :
      {A : Type 0} (now : ℕ) (app community document_id key : String) (p : ToolkitProjection)
      (hash : Hash) (a b : Database) (answer : Response → A) (x : A)
      → (◌>>=◌ {Y = A × Database}
          (write engine secure encoding peer now app community document_id key p hash a)
          (λ done. ok (answer done.0, done.1)))
        ≡ ok (x, b)
      → Outcome app community p a b
  answered-Outcome now app community document_id key p hash a b answer x e =
      let (done, e₀, e₁) =
        >>=-eq-ok (write engine secure encoding peer now app community document_id key p hash a) _
          e in
      subst (Outcome app community p a) (ap (λ (z : _ × Database). z.1) (ok_eq e₁)) (
        write-Written engine secure encoding peer now app community document_id key p hash a done.1
          done.0 e₀)

  pub concept-step :
      (now : ℕ) (app : String) (r : AddConcept) (hash : Hash) (response : ConceptResponse)
      (a b : Database)
      → toolkit_schema_add engine secure encoding peer now app r hash a ≡ ok (response, b)
      → IsSound a.toolkit
      → IsSound b.toolkit
  unfolding toolkit_schema_add
  concept-step now app r hash response a b e sound =
      let d = normalize_concept (definition_of r) in
      let c = catalog app r.community_id a in
      let (u₁, a₁, b₁) = >>=-eq-ok (validate_object_id r.community_id "community_id") _ e in
      let (u₂, a₂, b₂) = >>=-eq-ok (validate_idempotency_key r.idempotency_key) _ b₁ in
      let (u₃, a₃, b₃) = >>=-eq-ok (validate_concept_shape d) _ b₂ in
      let (u₄, a₄, b₄) = >>=-eq-ok (validate_concept_references d c) _ b₃ in
      let (v, a₅, b₅) = >>=-eq-ok (encoding.revision d) _ b₄ in
      elim (or_stored-cases _ a (ask (idempotency app r.idempotency_key hash a)) _ response b b₅) [
        | inl same ↦ subst (λ (x : Database). IsSound x.toolkit) same sound
        | inr fresh ↦
            let (u₆, a₆, b₆) =
              >>=-eq-ok
                (reject (any (is_revision d v) c.concepts)
                  (bail "this immutable concept revision already exists"))
                _ fresh in
            elim (answered-Outcome now app r.community_id
              (concat "toolkit/concepts/" (concat d.key (concat "/" v))) r.idempotency_key
              (ToolkitProjection.concept (new_concept d v)) hash a b
              (λ done. record { response = done; revision = v }) response b₆) [
                | inl same ↦ subst (λ (x : Database). IsSound x.toolkit) same sound
                | inr w ↦ concept-Written (new_concept d v) w sound
              ]
      ]

  pub tool-step :
      (now : ℕ) (app : String) (r : AddTool) (hash : Hash) (response : Response) (a b : Database)
      → toolkit_tool_add engine secure encoding peer now app r hash a ≡ ok (response, b)
      → IsSound a.toolkit
      → IsSound b.toolkit
  unfolding toolkit_tool_add
  tool-step now app r hash response a b e sound =
      let (u₁, a₁, b₁) = >>=-eq-ok (validate_tool r) _ e in
      elim (or_stored-cases (λ x. x) a (ask (idempotency app r.idempotency_key hash a)) _ response b
        b₁) [
          | inl same ↦ subst (λ (x : Database). IsSound x.toolkit) same sound
          | inr fresh ↦
              let (u₂, a₂, b₂) =
                >>=-eq-ok
                  (reject
                    (any (λ (t : ToolkitTool). str_eq t.key r.key)
                      (catalog app r.community_id a).tools)
                    (bail "tool key already exists"))
                  _ fresh in
              elim (write-Written engine secure encoding peer now app r.community_id
                (concat "toolkit/tools/" r.key) r.idempotency_key
                (ToolkitProjection.tool (new_tool r)) hash a b response b₂) [
                  | inl same ↦ subst (λ (x : Database). IsSound x.toolkit) same sound
                  | inr w ↦ tool-Written (new_tool r) w sound
                ]
        ]

  pub assertion-step :
      (now : ℕ) (app : String) (r : AssertToolkitValue) (hash : Hash) (response : StateResponse)
      (a b : Database)
      → toolkit_assert engine secure encoding peer now app r hash a ≡ ok (response, b)
      → IsSound a.toolkit
      → IsSound b.toolkit
  unfolding toolkit_assert
  assertion-step now app r hash response a b e sound =
      let answer = state_response r.assertion_id r.verification_state in
      let (u₁, a₁, b₁) = >>=-eq-ok (validate_assert_request r) _ e in
      elim (or_stored-cases answer a (ask (idempotency app r.idempotency_key hash a)) _ response b
        b₁) [
          | inl same ↦ subst (λ (x : Database). IsSound x.toolkit) same sound
          | inr fresh ↦
              let (c, a₂, b₂) =
                >>=-eq-ok (check_assertion (catalog app r.community_id a) r) _ fresh in
              elim (answered-Outcome now app r.community_id
                (concat "toolkit/assertions/" r.assertion_id) r.idempotency_key
                (ToolkitProjection.assertion (new_assertion r c.revision)) hash a b answer response
                b₂) [
                  | inl same ↦ subst (λ (x : Database). IsSound x.toolkit) same sound
                  | inr w ↦
                      assertion-Written (new_assertion r c.revision) w
                        (λ h. assert-Guard app r c h a sound a₂) sound
                ]
        ]

  pub review-step :
      (now : ℕ) (app : String) (r : VerifyToolkitAssertion) (hash : Hash) (response : StateResponse)
      (a b : Database)
      → toolkit_verify engine secure encoding peer now app r hash a ≡ ok (response, b)
      → IsSound a.toolkit
      → IsSound b.toolkit
  unfolding toolkit_verify
  review-step now app r hash response a b e sound =
      let answer = state_response r.review_id r.state in
      let (u₁, a₁, b₁) = >>=-eq-ok (validate_review r) _ e in
      elim (or_stored-cases answer a (ask (idempotency app r.idempotency_key hash a)) _ response b
        b₁) [
          | inl same ↦ subst (λ (x : Database). IsSound x.toolkit) same sound
          | inr fresh ↦
              let (u₂, a₂, b₂) =
                >>=-eq-ok (check_review (catalog app r.community_id a) r) _ fresh in
              elim (answered-Outcome now app r.community_id (concat "toolkit/reviews/" r.review_id)
                r.idempotency_key (ToolkitProjection.review (new_review r)) hash a b answer response
                b₂) [
                  | inl same ↦ subst (λ (x : Database). IsSound x.toolkit) same sound
                  | inr w ↦
                      review-Written app r a b w (λ rs. verify_guard app r rs a sound a₂) sound
                ]
        ]
