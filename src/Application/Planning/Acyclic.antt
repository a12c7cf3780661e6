-- ===== src/Application/Planning/Acyclic.antt =====
-- Over any sequence of the puts of the planning profile, with other use cases between them, the task
-- dependencies of each community stay acyclic.
use community_stack.Common.{
  [], concat, ℕ, ◌≡◌, refl, sym, ap, ◌∙◌, subst, ◌⊎◌, inl, inr, String, List, arith, select,
}
use community_stack.Domain.Planning.{
  PutProject, PutTask, PutEvent, PutDependency, PlanningDependency, PlanningCatalog,
  PlanningProjection,
}
use community_stack.Domain.Profiles.{planning_namespace}
use community_stack.Domain.Replication.{Hash}
use community_stack.Failure.{Check, ok}
use community_stack.Ports.{Response, DocumentEngine, SecureLog}
use community_stack.Store.Tables.{Scoped, PlanningTables, Database, empty}
use community_stack.Store.Projection.Planning.{upsert, apply_planning, write_planning}
use community_stack.Application.Planning.Graph.{IsAcyclic}
use community_stack.Application.Planning.Puts.{
  validate_event, event_of, validate_task, task_of, validate_project, validate_dependency,
  project_of, PlanningEncoding, dependency_of, planning_write,
}
use community_stack.Application.Planning.Handlers.{
  check_event, check_task, check_project, check_dependency, planning_project_put, planning_task_put,
  planning_event_put, planning_dependency_put,
}
use community_stack.Application.Planning.Written.{Put, put-Put}
use community_stack.Application.Planning.Guarded.{table_edges, PlansAreAcyclic, put-PlansAreAcyclic}

-- Which dependencies the view of a record leaves.
abbrev dependencies_after :
    Hash → String → PlanningProjection → PlanningTables → List (Scoped PlanningDependency)
dependencies_after hash community (PlanningProjection.dependency d) t =
    upsert (λ e. e.dependency_id) planning_namespace community
      (record d { source_operation_hash = hash }) t.dependencies
dependencies_after hash community _ t = t.dependencies

planning-dependencies :
    (community : String) (hash : Hash) (app : String) (version : ℕ) (p : PlanningProjection)
    (a b : Database)
    → apply_planning planning_namespace community hash (planning_write app version p) a ≡ ok b
    → b.planning.dependencies ≡ dependencies_after hash community p a.planning
unfolding apply_planning write_planning
planning-dependencies community hash app version (PlanningProjection.project p) a b e = ground arith
planning-dependencies community hash app version (PlanningProjection.task p) a b e = ground arith
planning-dependencies community hash app version (PlanningProjection.event p) a b e = ground arith
planning-dependencies community hash app version (PlanningProjection.dependency p) a b e =
    ground arith

Put-dependencies :
    {app community : String} {check : PlanningCatalog → Check} {a b : Database}
    (p : PlanningProjection) (w : Put app community check p a b)
    → b.planning.dependencies ≡ dependencies_after w.hash community p a.planning
Put-dependencies {app} {community} p w =
    ap (λ (t : PlanningTables). t.dependencies) w.planning_
    ∙ planning-dependencies community w.hash app _ p w.before w.after w.applied
    ∙ ap (dependencies_after w.hash community p) w.same

same_dependencies :
    (a b : Database)
    → b.planning.dependencies ≡ a.planning.dependencies
    → PlansAreAcyclic a
    → PlansAreAcyclic b
same_dependencies a b e acyclic community =
    subst (λ rows. IsAcyclic (table_edges community rows)) (sym e) (acyclic community)

no_plans : PlansAreAcyclic (empty [])
unfolding select
no_plans community e m = absurd m

module _ (engine : DocumentEngine) (secure : SecureLog) (encoding : PlanningEncoding)
    (peer : ℕ) where
  -- A use case: a put of the planning profile that answers, or another one, which leaves the task
  -- dependencies alone.
  pub data Step : Database → Database → Type 0 where
    put_project :
        {a b : Database} (now : ℕ) (app : String) (r : PutProject) (hash : Hash)
        (response : Response)
        → planning_project_put engine secure encoding peer now app r hash a ≡ ok (response, b)
        → Step a b
    put_task :
        {a b : Database} (now : ℕ) (app : String) (r : PutTask) (hash : Hash) (response : Response)
        → planning_task_put engine secure encoding peer now app r hash a ≡ ok (response, b)
        → Step a b
    put_event :
        {a b : Database} (now : ℕ) (app : String) (r : PutEvent) (hash : Hash) (response : Response)
        → planning_event_put engine secure encoding peer now app r hash a ≡ ok (response, b)
        → Step a b
    put_dependency :
        {a b : Database} (now : ℕ) (app : String) (r : PutDependency) (hash : Hash)
        (response : Response)
        → planning_dependency_put engine secure encoding peer now app r hash a ≡ ok (response, b)
        → Step a b
    elsewhere : {a b : Database} → b.planning.dependencies ≡ a.planning.dependencies → Step a b

  pub data Steps : Database → Database → Type 0 where
    start : {a : Database} → Steps a a
    next : {a b c : Database} → Steps a b → Step b c → Steps a c

  -- A put of another record than a dependency.
  other-Put :
      (app community : String) (check : PlanningCatalog → Check) (a b : Database)
      (p : PlanningProjection)
      → ((h : Hash) → dependencies_after h community p a.planning ≡ a.planning.dependencies)
      → (a ≡ b) ⊎ Put app community check p a b
      → PlansAreAcyclic a
      → PlansAreAcyclic b
  other-Put app community check a b p same (inl e) acyclic = subst PlansAreAcyclic e acyclic
  other-Put app community check a b p same (inr w) acyclic =
      same_dependencies a b (Put-dependencies p w ∙ same w.hash) acyclic

  dependency_put :
      (now : ℕ) (app : String) (r : PutDependency) (hash : Hash) (response : Response)
      (a b : Database)
      → planning_dependency_put engine secure encoding peer now app r hash a ≡ ok (response, b)
      → PlansAreAcyclic a
      → PlansAreAcyclic b
  unfolding planning_dependency_put
  dependency_put now app r hash response a b e acyclic =
      let p = PlanningProjection.dependency (dependency_of app r) in
      elim (put-Put engine secure encoding peer now app r.community_id r.idempotency_key
        (validate_dependency r) (λ c. check_dependency c r)
        (concat "planning/dependencies/" r.dependency_id) p hash a response b e) [
          | inl same ↦ subst PlansAreAcyclic same acyclic
          | inr w ↦ λ community.
              subst (λ rows. IsAcyclic (table_edges community rows)) (sym (Put-dependencies p w))
                (put-PlansAreAcyclic r a app w.hash w.checked acyclic community)
        ]

  Step-PlansAreAcyclic : (a b : Database) → Step a b → PlansAreAcyclic a → PlansAreAcyclic b
  unfolding planning_project_put planning_task_put planning_event_put
  Step-PlansAreAcyclic a b (put_project now app r hash response e) acyclic =
      let p = PlanningProjection.project (project_of app r) in
      other-Put app r.community_id (λ c. check_project c r) a b p (λ h. refl)
        (put-Put engine secure encoding peer now app r.community_id r.idempotency_key
          (validate_project r) (λ c. check_project c r) (concat "planning/projects/" r.project_id) p
          hash a response b e)
        acyclic
  Step-PlansAreAcyclic a b (put_task now app r hash response e) acyclic =
      let p = PlanningProjection.task (task_of app r) in
      other-Put app r.community_id (λ c. check_task c r) a b p (λ h. refl)
        (put-Put engine secure encoding peer now app r.community_id r.idempotency_key
          (validate_task r) (λ c. check_task c r) (concat "planning/tasks/" r.task_id) p hash a
          response b e)
        acyclic
  Step-PlansAreAcyclic a b (put_event now app r hash response e) acyclic =
      let p = PlanningProjection.event (event_of app r) in
      other-Put app r.community_id (λ c. check_event c r) a b p (λ h. refl)
        (put-Put engine secure encoding peer now app r.community_id r.idempotency_key
          (validate_event r) (λ c. check_event c r) (concat "planning/events/" r.event_id) p hash a
          response b e)
        acyclic
  Step-PlansAreAcyclic a b (put_dependency now app r hash response e) acyclic =
      dependency_put now app r hash response a b e acyclic
  Step-PlansAreAcyclic a b (elsewhere e) acyclic = same_dependencies a b e acyclic

  -- In a database that the use cases have made from one in which only applications are registered, the task dependencies of each
  -- community are acyclic.
  pub Steps-PlansAreAcyclic :
      {apps : List String} {b : Database} → Steps (empty apps) b → PlansAreAcyclic b
  Steps-PlansAreAcyclic start = no_plans
  Steps-PlansAreAcyclic (next {b = b} {c = c} steps step) =
      Step-PlansAreAcyclic b c step (Steps-PlansAreAcyclic steps)
