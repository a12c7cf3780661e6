-- ===== src/Application/Planning/Views.antt =====
-- The reading handlers of src/application/planning.rs and the profile's grants. The manifest of the
-- profile, read from a file when the program is built, is a parameter; so are the local principals.
use community_stack.Common.{String, Bool, true, false, not, ◌&&◌, List, [], ◌∷◌, Option, none, some}
use community_stack.Domain.Planning.{
  PlanningProject, PlanningTask, PlanningEvent, PlanningDependency, PlanningViewRequest,
}
use community_stack.Domain.Profiles.{
  planning_profile_id, planning_namespace, GetProfile, GrantProfile, ProfileAccess, ProfileManifest,
  ProfileDescription,
}
use community_stack.Domain.Security.{Principal, PrincipalRole}
use community_stack.Failure.{Result, ok, bail, reject, or_fail, ◌>>=◌, ◌>>◌}
use community_stack.Store.Tables.{Database}
use community_stack.Store.Plans.{planning_catalog}
use community_stack.Store.Projection.Planning.{profile_access, grant_profile}
use community_stack.Application.Validate.{validate_object_id}
use community_stack.Application.Planning.Checks.{
  validate_view, validate_profile_reference, require_profile_read,
}

abbrev pub no_access : ProfileAccess
no_access = record { can_read = false; can_write = false }

-- What the two views answer, but for `resolved_truth`, which is always false.
pub record Calendar : Type 0 where
  pub profile : ProfileManifest
  pub events : List PlanningEvent

pub record Gantt : Type 0 where
  pub profile : ProfileManifest
  pub projects : List PlanningProject
  pub tasks : List PlanningTask
  pub dependencies : List PlanningDependency

abbrev pub is_app_role : PrincipalRole → Bool
is_app_role PrincipalRole.app = true
is_app_role _ = false

module _ (planning_manifest : Result ProfileManifest) where
  unfoldable pub profile_list : Result (List ProfileDescription)
  profile_list = do
    manifest ← planning_manifest
    ok (record { manifest = manifest; access = no_access } ∷ [])

  abbrev pub access_of : String → Option String → Database → Result ProfileAccess
  access_of app none db = ok no_access
  access_of app (some community) db = do
    validate_object_id community "community_id"
    ok (profile_access app planning_profile_id community db)

  unfoldable pub profile_get : String → GetProfile → Database → Result ProfileDescription
  profile_get app r db = do
    validate_profile_reference r.profile_id r.profile_version
    access ← access_of app r.community_id db
    manifest ← planning_manifest
    ok (record { manifest = manifest; access = access })

  unfoldable pub planning_calendar_list : String → PlanningViewRequest → Database → Result Calendar
  planning_calendar_list app r db = do
    require_profile_read app r.community_id db
    validate_view r
    let c = planning_catalog planning_namespace r.community_id r.limit db
    manifest ← planning_manifest
    ok (record { profile = manifest; events = c.events })

  unfoldable pub planning_gantt_get : String → PlanningViewRequest → Database → Result Gantt
  planning_gantt_get app r db = do
    require_profile_read app r.community_id db
    validate_view r
    let c = planning_catalog planning_namespace r.community_id r.limit db
    manifest ← planning_manifest
    ok (record {
      profile = manifest;
      projects = c.projects;
      tasks = c.tasks;
      dependencies = c.dependencies;
    })

-- The answer repeats the request; only the database after it is given.
unfoldable pub profile_grant :
    (String → Result (Option Principal)) → GrantProfile → Database → Result Database
profile_grant principal_by_id r db = do
  validate_object_id r.app_id "app_id"
  validate_object_id r.community_id "community_id"
  validate_profile_reference r.profile_id none
  found ← principal_by_id r.app_id
  target ← or_fail found (bail "profile grant target is not an enabled local principal")
  reject (not (is_app_role target.role)) (bail "profile grants target APP principals only")
  reject (r.can_write && not r.can_read) (bail "profile write access requires read access")
  ok (
      grant_profile r.app_id r.profile_id r.community_id
        (record { can_read = r.can_read; can_write = r.can_write }) db)
