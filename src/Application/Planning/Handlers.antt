-- ===== src/Application/Planning/Handlers.antt =====
-- The put handlers of src/application/planning.rs.
use community_stack.Common.{ℕ, String, len, concat, Bool, not, [], ◌∷◌, ltb, str_eq, any}
use community_stack.Domain.Planning.{
  PutProject, PutTask, PutEvent, PutDependency, PlanningProject, PlanningTask, PlanningEvent,
  PlanningDependency, PlanningCatalog, PlanningProjection,
}
use community_stack.Domain.Profiles.{planning_namespace}
use community_stack.Domain.Replication.{Hash}
use community_stack.Failure.{Check, Result, bail, reject, ◌>>=◌, ◌>>◌}
use community_stack.Ports.{planning, Response, DocumentEngine, SecureLog}
use community_stack.Store.Tables.{Database}
use community_stack.Store.Read.{idempotency}
use community_stack.Store.Channel.{ask}
use community_stack.Store.Plans.{planning_catalog}
use community_stack.Application.Mutate.{mutate_in_namespace}
use community_stack.Application.Toolkit.Writes.{or_stored}
use community_stack.Application.Planning.{reject_dependency_cycle}
use community_stack.Application.Planning.Checks.{
  validate_catalog_bound, require_project, require_profile_write, max_profile_rows,
}
use community_stack.Application.Planning.Puts.{
  PlanningEncoding, planning_request, planning_write, project_of, task_of, event_of, dependency_of,
  is_full, validate_project, validate_task, validate_event, validate_dependency,
}

-- What is checked of each request against the catalog of its community.
unfoldable pub check_project : PlanningCatalog → PutProject → Check
check_project c r = do
  validate_catalog_bound c
  reject (is_full (λ (p : PlanningProject). str_eq p.project_id r.project_id) c.projects)
      (bail "planning project limit reached")

unfoldable pub check_task : PlanningCatalog → PutTask → Check
check_task c r = do
  validate_catalog_bound c
  require_project r.project_id c
  reject (is_full (λ (t : PlanningTask). str_eq t.task_id r.task_id) c.tasks)
      (bail "planning task limit reached")

unfoldable pub check_event : PlanningCatalog → PutEvent → Check
check_event c r = do
  validate_catalog_bound c
  require_project r.project_id c
  reject (is_full (λ (e : PlanningEvent). str_eq e.event_id r.event_id) c.events)
      (bail "planning event limit reached")

abbrev pub is_task : String → PlanningTask → Bool
is_task id t = str_eq t.task_id id

unfoldable pub check_dependency : PlanningCatalog → PutDependency → Check
check_dependency c r = do
  validate_catalog_bound c
  reject
      (is_full (λ (d : PlanningDependency). str_eq d.dependency_id r.dependency_id) c.dependencies)
      (bail "planning dependency limit reached")
  reject (not (any (is_task r.predecessor_task_id) c.tasks))
      (bail "dependency references an unknown task")
  reject (not (any (is_task r.successor_task_id) c.tasks))
      (bail "dependency references an unknown task")
  reject_dependency_cycle r c

module _ (engine : DocumentEngine) (secure : SecureLog) (encoding : PlanningEncoding)
    (peer : ℕ) where
  unfoldable pub commit_planning_record :
      ℕ
      → String
      → String
      → String
      → String
      → Hash
      → ℕ
      → PlanningProjection
      → Database
      → Result (Response × Database)
  commit_planning_record now app community document_id key hash version projection db = do
    canonical ← encoding.canonical_json app projection
    reject (ltb 65536 (len canonical)) (bail "planning record exceeds 65536 bytes")
    mutate_in_namespace engine secure peer now app planning_namespace
        (planning_request app community document_id key canonical) hash
        (planning (planning_write app version projection) ∷ []) db

  -- What the put handlers share: the grant, the checks of the request, the stored response, the
  -- checks against the catalog and the commit.
  unfoldable pub put :
      ℕ
      → String
      → String
      → String
      → Check
      → (PlanningCatalog → Check)
      → String
      → PlanningProjection
      → Hash
      → Database
      → Result (Response × Database)
  put now app community key valid check document_id projection hash db = do
    require_profile_write app community db
    valid
    or_stored (λ response. response) db (ask (idempotency app key hash db))
        (do
          let c = planning_catalog planning_namespace community max_profile_rows db
          check c
          commit_planning_record now app community document_id key hash c.version projection db)

  unfoldable pub planning_project_put :
      ℕ → String → PutProject → Hash → Database → Result (Response × Database)
  planning_project_put now app r hash db =
      put now app r.community_id r.idempotency_key (validate_project r) (λ c. check_project c r)
        (concat "planning/projects/" r.project_id) (PlanningProjection.project (project_of app r))
        hash db

  unfoldable pub planning_task_put :
      ℕ → String → PutTask → Hash → Database → Result (Response × Database)
  planning_task_put now app r hash db =
      put now app r.community_id r.idempotency_key (validate_task r) (λ c. check_task c r)
        (concat "planning/tasks/" r.task_id) (PlanningProjection.task (task_of app r)) hash db

  unfoldable pub planning_event_put :
      ℕ → String → PutEvent → Hash → Database → Result (Response × Database)
  planning_event_put now app r hash db =
      put now app r.community_id r.idempotency_key (validate_event r) (λ c. check_event c r)
        (concat "planning/events/" r.event_id) (PlanningProjection.event (event_of app r)) hash db

  unfoldable pub planning_dependency_put :
      ℕ → String → PutDependency → Hash → Database → Result (Response × Database)
  planning_dependency_put now app r hash db =
      put now app r.community_id r.idempotency_key (validate_dependency r)
        (λ c. check_dependency c r) (concat "planning/dependencies/" r.dependency_id)
        (PlanningProjection.dependency (dependency_of app r)) hash db
