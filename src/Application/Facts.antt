-- ===== src/Application/Facts.antt =====
-- `validate_lifecycle_transition` of src/application.rs.
pub mod Lifecycle
pub mod Schema
pub mod Conform
pub mod Blame
pub mod Registered
pub mod Whole
pub mod Stored
use community_stack.Common.{
  String, Bool, true, false, not, ◌&&◌, ◌||◌, Option, none, some, is_some, is_none,
}
use community_stack.Domain.Facts.{FactLifecycleStatus, FactSchema, FactCurrentRevision}
use community_stack.Failure.{Check, Result, bail, reject, ◌>>=◌, ◌>>◌}

abbrev pub is_asserted : FactLifecycleStatus → Bool
is_asserted FactLifecycleStatus.asserted = true
is_asserted _ = false

abbrev pub is_retracted : FactLifecycleStatus → Bool
is_retracted FactLifecycleStatus.retracted = true
is_retracted _ = false

abbrev pub is_disputed : FactLifecycleStatus → Bool
is_disputed FactLifecycleStatus.disputed = true
is_disputed _ = false

abbrev pub is_expired : FactLifecycleStatus → Bool
is_expired FactLifecycleStatus.expired = true
is_expired _ = false

-- `matches!(status, Retracted | Expired)`
abbrev pub is_terminal : FactLifecycleStatus → Bool
is_terminal s = is_retracted s || is_expired s

-- `previous.is_some_and(…)`
abbrev pub was_terminal : Option FactCurrentRevision → Bool
was_terminal none = false
was_terminal (some r) = is_terminal r.lifecycle_status

unfoldable pub validate_lifecycle_transition :
    Option FactCurrentRevision → FactLifecycleStatus → FactSchema → Check
validate_lifecycle_transition previous next schema = do
  reject (is_none previous && not (is_asserted next))
      (bail "the first claim revision must be ASSERTED")
  reject (was_terminal previous)
      (bail "retracted or expired claims are terminal; create a new claim_id")
  reject (is_some previous && is_asserted next && not schema.lifecycle_policy.allow_supersession)
      (bail "schema lifecycle policy forbids supersession")
  reject (is_retracted next && not schema.lifecycle_policy.allow_retraction)
      (bail "schema lifecycle policy forbids retraction")
  reject (is_disputed next && not schema.lifecycle_policy.allow_dispute)
      (bail "schema lifecycle policy forbids disputes")
  reject (is_expired next && not schema.lifecycle_policy.allow_expiry)
      (bail "schema lifecycle policy forbids expiry")
