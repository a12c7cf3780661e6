-- ===== src/LocalApi.antt =====
-- src/adapters/local_api.rs: what a client learns of a failed request, and which frames are read.
pub mod Errors
use community_stack.Common.{ℕ, String, Bool, true, false, ◌||◌, ◌==◌, ltb, Option, none, some}
use community_stack.Domain.Error.{ApiErrorCode, ApiError, as_str}
use community_stack.Failure.{Error, api, bail, context, Result, ok, err, reject, ◌>>=◌, ◌>>◌}

-- A failed `ApiResponse`.
pub record ApiFailure : Type 0 where
  pub id : String
  pub code : String
  pub message : String
  pub retryable : Bool

-- `error.downcast_ref::<ApiError>()`, which looks through contexts.
unfoldable pub downcast : Error → Option ApiError
downcast (api e) = some e
downcast (bail message) = none
downcast (context message cause) = downcast cause

abbrev pub failure_of : String → Option ApiError → ApiFailure
failure_of id none = record {
  id = id;
  code = as_str ApiErrorCode.invalid_request;
  message = "request could not be processed";
  retryable = false;
}
failure_of id (some e) = record {
  id = id;
  code = as_str e.code;
  message = e.message;
  retryable = e.retryable;
}

unfoldable pub response_for_error : String → Error → ApiFailure
response_for_error id e = failure_of id (downcast e)

-- 1 MiB
abbrev pub max_request_bytes : ℕ
max_request_bytes = 1048576

unfoldable pub validate_frame_length : ℕ → Result ℕ
validate_frame_length length = do
  reject (length == 0 || ltb max_request_bytes length) (bail "invalid request frame length")
  ok length
