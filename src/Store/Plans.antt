-- ===== src/Store/Plans.antt =====
-- `catalog` of src/adapters/sqlite/planning.rs: the planning records of a community.
use community_stack.Common.{Bool, ℕ, String, List, min, take}
use community_stack.Common.Sort.{sort}
use community_stack.Common.StrOrder.{str_lt}
use community_stack.Domain.Planning.{
  PlanningProject, PlanningTask, PlanningEvent, PlanningDependency, PlanningCatalog,
}
use community_stack.Store.Tables.{Database}
use community_stack.Store.Catalog.{rows_of}
use community_stack.Store.Projection.Planning.{community_version}

unfoldable pub project_before : PlanningProject → PlanningProject → Bool
project_before a b = str_lt a.project_id b.project_id

unfoldable pub task_before : PlanningTask → PlanningTask → Bool
task_before a b = str_lt a.task_id b.task_id

unfoldable pub event_before : PlanningEvent → PlanningEvent → Bool
event_before a b = str_lt a.event_id b.event_id

unfoldable pub dependency_before : PlanningDependency → PlanningDependency → Bool
dependency_before a b = str_lt a.dependency_id b.dependency_id

unfoldable pub projects : String → String → ℕ → Database → List PlanningProject
projects namespace community limit db =
    take limit (sort project_before (rows_of namespace community db.planning.projects))

unfoldable pub tasks : String → String → ℕ → Database → List PlanningTask
tasks namespace community limit db =
    take limit (sort task_before (rows_of namespace community db.planning.tasks))

unfoldable pub events : String → String → ℕ → Database → List PlanningEvent
events namespace community limit db =
    take limit (sort event_before (rows_of namespace community db.planning.events))

unfoldable pub dependencies : String → String → ℕ → Database → List PlanningDependency
dependencies namespace community limit db =
    take limit (sort dependency_before (rows_of namespace community db.planning.dependencies))

unfoldable pub planning_catalog : String → String → ℕ → Database → PlanningCatalog
unfolding projects tasks events dependencies
planning_catalog namespace community limit db =
    let bound = min limit 10001 in
    record {
      version = community_version namespace community db;
      projects = projects namespace community bound db;
      tasks = tasks namespace community bound db;
      events = events namespace community bound db;
      dependencies = dependencies namespace community bound db;
    }
