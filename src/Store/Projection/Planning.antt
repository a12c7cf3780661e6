-- ===== src/Store/Projection/Planning.antt =====
-- src/adapters/sqlite/planning.rs: grants, and the views of the planning records.
pub mod Version
pub mod Granted
use community_stack.Common.{
  ℕ, suc, String, Bool, true, false, not, ◌&&◌, ◌||◌, List, [], ◌∷◌, ◌++◌, Option, none, some, ◌==◌,
  str_eq, if◌then◌else◌, any, find, update,
}
use community_stack.Domain.Error.{conflict}
use community_stack.Domain.Replication.{Hash}
use community_stack.Domain.Profiles.{ProfileAccess}
use community_stack.Domain.Planning.{
  PlanningProject, PlanningTask, PlanningProjection, PlanningProjectionWrite,
}
use community_stack.Failure.{Result, ok, bail, reject, protocol_error, ◌>>◌}
use community_stack.Store.Tables.{Scoped, in_scope, Grant, Database}

unfoldable pub is_grant : String → String → String → Grant → Bool
is_grant app profile community g =
    str_eq g.app_id app && str_eq g.profile_id profile && str_eq g.community_id community

abbrev granted_access : Option Grant → ProfileAccess
granted_access none = record { can_read = false; can_write = false }
granted_access (some g) = g.access

unfoldable pub profile_access : String → String → String → Database → ProfileAccess
profile_access app profile community db =
    granted_access (find (is_grant app profile community) db.grants)

-- The grant alone; the audit event that is written beside it is not modelled.
unfoldable pub grant_profile : String → String → String → ProfileAccess → Database → Database
grant_profile app profile community access db =
    let row : Grant = record {
      app_id = app;
      profile_id = profile;
      community_id = community;
      access = access;
    } in
    record db {
      grants =
          if any (is_grant app profile community) db.grants
          then update (is_grant app profile community) (λ _. row) db.grants
          else db.grants ++ row ∷ [];
    }

unfoldable pub may_write : String → String → String → Grant → Bool
may_write app profile community g =
    is_grant app profile community g && g.access.can_read && g.access.can_write

abbrev pub version_of : Option (Scoped ℕ) → ℕ
version_of none = 0
version_of (some r) = r.row

unfoldable pub community_version : String → String → Database → ℕ
community_version namespace community db =
    version_of (find (in_scope namespace community) db.planning.versions)

-- `INSERT … VALUES(…,1) ON CONFLICT DO UPDATE SET version=version+1`
unfoldable pub bump_version : String → String → List (Scoped ℕ) → List (Scoped ℕ)
bump_version namespace community vs =
    if any (in_scope namespace community) vs
    then update (in_scope namespace community) (λ r. record r { row = suc r.row }) vs
    else vs ++ record { app_id = namespace; community_id = community; row = 1 } ∷ []

-- `INSERT … ON CONFLICT(namespace_id,community_id,id) DO UPDATE` of every other column.
unfoldable pub upsert :
    {A : Type 0} → (A → String) → String → String → A → List (Scoped A) → List (Scoped A)
upsert id namespace community a rows =
    let same = λ (r : Scoped _). in_scope namespace community r && str_eq (id r.row) (id a) in
    let row : Scoped _ = record { app_id = namespace; community_id = community; row = a } in
    if any same rows then update same (λ _. row) rows else rows ++ row ∷ []

-- The foreign keys of migration 4.
unfoldable pub has_row :
    {A : Type 0} → (A → String) → String → String → String → List (Scoped A) → Bool
has_row id namespace community key rows =
    any (λ r. in_scope namespace community r && str_eq (id r.row) key) rows

abbrev pub has_project : String → String → Option String → Database → Bool
has_project namespace community none db = true
has_project namespace community (some id) db =
    has_row (λ (p : PlanningProject). p.project_id) namespace community id db.planning.projects

abbrev pub has_task : String → String → String → Database → Bool
has_task namespace community id db =
    has_row (λ (t : PlanningTask). t.task_id) namespace community id db.planning.tasks

-- Of the columns' checks, those on the lengths of `timing_json` and `recurrence_json` (8192 bytes) are
-- left out: the checks of `planning_event_put` leave both far below that.
unfoldable pub write_planning :
    String → String → Hash → PlanningProjection → Database → Result Database
unfolding upsert has_row
write_planning namespace community hash (PlanningProjection.project p) db = ok (record db {
  planning = record db.planning {
    projects =
        upsert (λ q. q.project_id) namespace community (record p { source_operation_hash = hash })
          db.planning.projects;
  };
})
write_planning namespace community hash (PlanningProjection.task t) db = do
  reject (not (has_project namespace community t.project_id db))
      (bail "FOREIGN KEY constraint failed")
  ok (record db {
    planning = record db.planning {
      tasks =
          upsert (λ u. u.task_id) namespace community (record t { source_operation_hash = hash })
            db.planning.tasks;
    };
  })
write_planning namespace community hash (PlanningProjection.event e) db = do
  reject (not (has_project namespace community e.project_id db))
      (bail "FOREIGN KEY constraint failed")
  ok (record db {
    planning = record db.planning {
      events =
          upsert (λ f. f.event_id) namespace community (record e { source_operation_hash = hash })
            db.planning.events;
    };
  })
write_planning namespace community hash (PlanningProjection.dependency d) db = do
  reject
      (not (has_task namespace community d.predecessor_task_id db)
        || not (has_task namespace community d.successor_task_id db)
        || str_eq d.predecessor_task_id d.successor_task_id)
      (bail "constraint failed")
  ok (record db {
    planning = record db.planning {
      dependencies =
          upsert (λ e. e.dependency_id) namespace community
            (record d { source_operation_hash = hash }) db.planning.dependencies;
    };
  })

unfoldable pub apply_planning :
    String → String → Hash → PlanningProjectionWrite → Database → Result Database
unfolding write_planning
apply_planning namespace community hash w db = do
  reject (not (any (may_write w.authorized_app_id w.profile_id community) db.grants))
      (protocol_error conflict "planning profile grant was revoked before commit" true)
  reject (not (community_version namespace community db == w.expected_community_version))
      (protocol_error conflict "planning state changed before commit" true)
  write_planning namespace community hash w.projection (record db {
    planning = record db.planning {
      versions = bump_version namespace community db.planning.versions;
    };
  })
