-- ===== src/Domain/Error.antt =====
-- src/domain/error.rs: the stable error categories of the local API.
use community_stack.Common.{String, Bool}

pub data ApiErrorCode : Type 0 where
  unauthenticated forbidden conflict revision_conflict : ApiErrorCode
  idempotency_conflict method_not_found invalid_request invalid_json : ApiErrorCode

unfoldable pub as_str : ApiErrorCode → String
as_str ApiErrorCode.unauthenticated = "UNAUTHENTICATED"
as_str ApiErrorCode.forbidden = "FORBIDDEN"
as_str ApiErrorCode.conflict = "CONFLICT"
as_str ApiErrorCode.revision_conflict = "REVISION_CONFLICT"
as_str ApiErrorCode.idempotency_conflict = "IDEMPOTENCY_CONFLICT"
as_str ApiErrorCode.method_not_found = "METHOD_NOT_FOUND"
as_str ApiErrorCode.invalid_request = "INVALID_REQUEST"
as_str ApiErrorCode.invalid_json = "INVALID_JSON"

pub record ApiError : Type 0 where
  pub code : ApiErrorCode
  pub message : String
  pub retryable : Bool
