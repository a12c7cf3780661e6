-- ===== src/Application/Planning/Checks.antt =====
-- The other validators of src/application/planning.rs, and the access to the planning profile.
use community_stack.Common.{
  ℕ, String, len, is_empty, has_control, concat, Bool, false, not, ◌||◌, [], ◌∷◌, Option, none,
  some, ltb, ◌==◌, str_eq, length, any,
}
use community_stack.Domain.Error.{ApiErrorCode}
use community_stack.Domain.Profiles.{planning_profile_id, planning_profile_version}
use community_stack.Domain.Planning.{PlanningProject, PlanningCatalog, PlanningViewRequest}
use community_stack.Failure.{Check, ok, bail, reject, protocol_error, ◌>>◌}
use community_stack.Store.Tables.{Database}
use community_stack.Store.Projection.Planning.{profile_access}
use community_stack.Application.Validate.{validate_object_id, validate_idempotency_key}

-- The message of the source also shows `max`.
unfoldable pub validate_text : String → String → ℕ → Check
validate_text value field max =
    reject (is_empty value || ltb max (len value) || has_control value)
      (bail (concat field " must contain non-control bytes"))

unfoldable pub validate_optional_text : Option String → String → ℕ → Check
unfolding validate_text
validate_optional_text none field max = ok tt
validate_optional_text (some value) field max = validate_text value field max

unfoldable pub validate_optional_id : Option String → String → Check
validate_optional_id none field = ok tt
validate_optional_id (some value) field = validate_object_id value field

unfoldable pub validate_common_write :
    String → String → String → String → String → Option String → Check
unfolding validate_text validate_optional_text
validate_common_write community key record_id record_field title description = do
  validate_object_id community "community_id"
  validate_idempotency_key key
  validate_object_id record_id record_field
  validate_text title "title" 512
  validate_optional_text description "description" 8192

abbrev pub max_profile_rows : ℕ
max_profile_rows = 10001

abbrev pub max_profile_records : ℕ
max_profile_records = 10000

unfoldable pub validate_catalog_bound : PlanningCatalog → Check
validate_catalog_bound c =
    reject
      (any (ltb max_profile_records)
        (length c.projects ∷ length c.tasks ∷ length c.events ∷ length c.dependencies ∷ []))
      (bail "planning catalog exceeds the validation bound")

unfoldable pub require_project : Option String → PlanningCatalog → Check
require_project none c = ok tt
require_project (some id) c =
    reject (not (any (λ (p : PlanningProject). str_eq p.project_id id) c.projects))
      (bail "project_id does not reference an existing project")

unfoldable pub validate_view : PlanningViewRequest → Check
validate_view r = do
  validate_object_id r.community_id "community_id"
  reject (r.limit == 0 || ltb 500 r.limit) (bail "limit must be between 1 and 500")

abbrev pub other_version : Option ℕ → Bool
other_version none = false
other_version (some version) = not (version == planning_profile_version)

unfoldable pub validate_profile_reference : String → Option ℕ → Check
validate_profile_reference profile version =
    reject (not (str_eq profile planning_profile_id) || other_version version)
      (bail "profile is not supported")

unfoldable pub require_profile_read : String → String → Database → Check
unfolding profile_access
require_profile_read app community db =
    reject (not (profile_access app planning_profile_id community db).can_read) (
      protocol_error ApiErrorCode.forbidden
        "application is not granted read access to community.planning" false)

unfoldable pub require_profile_write : String → String → Database → Check
unfolding profile_access
require_profile_write app community db =
    let access = profile_access app planning_profile_id community db in
    reject (not access.can_read || not access.can_write) (
      protocol_error ApiErrorCode.forbidden
        "application is not granted write access to community.planning" false)
