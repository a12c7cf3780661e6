-- ===== src/Examples/Requests.antt =====
-- Requests at the boundary: errors, methods and the lives of claims.
use community_stack.Common.{◌≢◌, str_eq_iff, String, ℕ, ◌≡◌, refl, true, false, if◌then◌else◌}
use community_stack.Domain.Error.{ApiErrorCode}
use community_stack.Domain.Facts.{
  FactSchema, FactLifecycleStatus, FactCurrentRevision, ProvenancePolicy, default_policy,
}
use community_stack.Domain.Json.{null}
use community_stack.Domain.Security.{Principal, PrincipalRole}
use community_stack.Failure.{ok, err, context, protocol_error}
use community_stack.Application.Dispatch.{is_routed, is_reserved, call_authenticated}
use community_stack.Application.Dispatch.Access.{roles_are_separate}
use community_stack.LocalApi.{response_for_error}
use community_stack.LocalApi.Errors.{reword, messages_stay_inside}

messages_stay_inside_example :
    response_for_error "1" (
      reword (λ s. "redacted") (context "path" (protocol_error ApiErrorCode.conflict "moved" true)))
    ≡ response_for_error "1" (context "path" (protocol_error ApiErrorCode.conflict "moved" true))
messages_stay_inside_example =
    messages_stay_inside (λ s. "redacted") "1"
      (context "path" (protocol_error ApiErrorCode.conflict "moved" true))

abbrev adapter : Principal
adapter = record { id = "rns"; role = PrincipalRole.transport }

adapter_free : is_reserved adapter ≡ false
unfolding is_reserved
adapter_free = refl

abbrev client : Principal
client = record { id = "app"; role = PrincipalRole.app }

app_not_transport : PrincipalRole.app ≢ PrincipalRole.transport
app_not_transport e = cc

no : false ≡ true → ⊥
no e = cc

fact_not_list : Path String "fact.assert" "profile.list" → ⊥
fact_not_list e = no ((str_eq_iff "fact.assert" "profile.list").1 e)

fact_not_get : Path String "fact.assert" "profile.get" → ⊥
fact_not_get e = no ((str_eq_iff "fact.assert" "profile.get").1 e)

roles_are_separate_example :
    call_authenticated (λ p m v. ok null) adapter "fact.assert" null
    ≡ err (
        protocol_error ApiErrorCode.forbidden "method is unknown or not allowed for this principal"
          false)
unfolding call_authenticated is_reserved is_routed community_stack.Common.any
roles_are_separate_example =
    roles_are_separate (λ p m v. ok v) (λ p m v. ok null) client adapter "fact.assert" null null
      null refl app_not_transport adapter_free (λ e. fact_not_list e) (λ e. fact_not_get e)

abbrev schema : FactSchema
schema = record {
  app_id = "app";
  schema_id = "app/s";
  schema_version = 1;
  predicate = "app/s@1";
  object_schema = null;
  multiple_active_claims = false;
  provenance_policy = ProvenancePolicy.none;
  lifecycle_policy = default_policy;
  created_at_ms = 0;
  enabled = true;
}

abbrev revision : ℕ → FactLifecycleStatus → FactCurrentRevision
revision hash status = record {
  operation_hash = hash;
  subject = "well";
  predicate = "app/s@1";
  schema_id = "app/s";
  schema_version = 1;
  lifecycle_status = status;
}
