-- ===== src/Application/Planning/Puts.antt =====
-- The four put handlers of src/application/planning.rs, over a document engine, a secure log and an
-- encoding. The lock of the community's profile, held from the look-up of a stored response to the
-- commit, makes a handler one step. `peer` is the writer's peer number, `hash` that of the request.
use community_stack.Common.{
  ℕ, String, Bool, false, not, ◌&&◌, List, [], ◌∷◌, Option, none, some, ltb, ◌==◌, str_eq, length,
  any,
}
use community_stack.Common.Int.{ℤ, ltb_ℤ, unsigned_abs, pos}
use community_stack.Domain.Documents.{MutateDocument, PrimitiveValue, Mutation}
use community_stack.Domain.Planning.{
  PutProject, PutTask, PutEvent, PutDependency, RecurrenceRule, EventTiming, PlanningProject,
  PlanningTask, PlanningEvent, PlanningDependency, PlanningProjection, PlanningProjectionWrite,
}
use community_stack.Domain.Profiles.{
  planning_profile_id, planning_profile_version, planning_profile_digest,
}
use community_stack.Domain.Replication.{Hash}
use community_stack.Failure.{Check, Result, ok, bail, reject, ◌>>◌}
use community_stack.Application.Validate.{validate_object_id, validate_idempotency_key}
use community_stack.Application.Planning.Dates.{validate_timing}
use community_stack.Application.Planning.Recurrence.{validate_recurrence}
use community_stack.Application.Planning.Checks.{
  validate_common_write, validate_optional_id, validate_optional_text, max_profile_records,
}

-- serde_json: the text of a signed planning record, by the application that submits it.
pub record PlanningEncoding : Type 0 where
  pub canonical_json : String → PlanningProjection → Result String

unfoldable pub planning_map : String → String → Mutation
planning_map key value = Mutation.map_set "record" key (PrimitiveValue.string value)

abbrev pub planning_request : String → String → String → String → String → MutateDocument
planning_request app community document_id key canonical = record {
  community_id = community;
  document_id = document_id;
  idempotency_key = key;
  schema_version = planning_profile_version;
  expected_revision = none;
  mutations =
      planning_map "canonical_json" canonical
      ∷ planning_map "profile_id" planning_profile_id
      ∷ planning_map "profile_digest" planning_profile_digest
      ∷ planning_map "submitted_by_app_id" app
      ∷ Mutation.map_set "record" "profile_version"
          (PrimitiveValue.integer (pos planning_profile_version))
      ∷ [];
}

abbrev pub planning_write : String → ℕ → PlanningProjection → PlanningProjectionWrite
planning_write app version projection = record {
  profile_digest = planning_profile_digest;
  authorized_app_id = app;
  profile_id = planning_profile_id;
  expected_community_version = version;
  projection = projection;
}

-- `String::new()`: the view writes the hash of the operation in its place.
abbrev pub unwritten : Hash
unwritten = 0

abbrev pub project_of : String → PutProject → PlanningProject
project_of app r = record {
  project_id = r.project_id;
  title = r.title;
  description = r.description;
  status = r.status;
  submitted_by_app_id = app;
  source_operation_hash = unwritten;
}

abbrev pub task_of : String → PutTask → PlanningTask
task_of app r = record {
  task_id = r.task_id;
  project_id = r.project_id;
  title = r.title;
  description = r.description;
  status = r.status;
  start_at_ms = r.start_at_ms;
  due_at_ms = r.due_at_ms;
  progress_percent = r.progress_percent;
  submitted_by_app_id = app;
  source_operation_hash = unwritten;
}

abbrev pub event_of : String → PutEvent → PlanningEvent
event_of app r = record {
  event_id = r.event_id;
  project_id = r.project_id;
  title = r.title;
  description = r.description;
  status = r.status;
  timing = r.timing;
  recurrence = r.recurrence;
  location = r.location;
  submitted_by_app_id = app;
  source_operation_hash = unwritten;
}

abbrev pub dependency_of : String → PutDependency → PlanningDependency
dependency_of app r = record {
  dependency_id = r.dependency_id;
  predecessor_task_id = r.predecessor_task_id;
  successor_task_id = r.successor_task_id;
  kind = r.kind;
  lag_ms = r.lag_ms;
  submitted_by_app_id = app;
  source_operation_hash = unwritten;
}

-- `catalog.….len() == MAX_PROFILE_RECORDS && !catalog.….iter().any(…)`
abbrev pub is_full : {A : Type 0} → (A → Bool) → List A → Bool
is_full same xs = length xs == max_profile_records && not (any same xs)

-- `start.zip(due).is_some_and(|(start, due)| due < start)`
abbrev pub is_before_start : Option ℤ → Option ℤ → Bool
is_before_start (some start) (some due) = ltb_ℤ due start
is_before_start _ _ = false

abbrev pub validate_optional_recurrence : Option RecurrenceRule → EventTiming → Check
validate_optional_recurrence none timing = ok tt
validate_optional_recurrence (some rule) timing = validate_recurrence rule timing

-- What is checked of each request before anything is read but the grant.
unfoldable pub validate_project : PutProject → Check
validate_project r =
    validate_common_write r.community_id r.idempotency_key r.project_id "project_id" r.title
      r.description

unfoldable pub validate_task : PutTask → Check
validate_task r = do
  validate_common_write r.community_id r.idempotency_key r.task_id "task_id" r.title r.description
  validate_optional_id r.project_id "project_id"
  reject (ltb 100 r.progress_percent) (bail "progress_percent must be between 0 and 100")
  reject (is_before_start r.start_at_ms r.due_at_ms) (bail "due_at_ms must not precede start_at_ms")

unfoldable pub validate_event : PutEvent → Check
validate_event r = do
  validate_common_write r.community_id r.idempotency_key r.event_id "event_id" r.title r.description
  validate_optional_id r.project_id "project_id"
  validate_optional_text r.location "location" 1024
  validate_timing r.timing
  validate_optional_recurrence r.recurrence r.timing

unfoldable pub validate_dependency : PutDependency → Check
validate_dependency r = do
  validate_object_id r.community_id "community_id"
  validate_idempotency_key r.idempotency_key
  validate_object_id r.dependency_id "dependency_id"
  validate_object_id r.predecessor_task_id "predecessor_task_id"
  validate_object_id r.successor_task_id "successor_task_id"
  reject (str_eq r.predecessor_task_id r.successor_task_id) (bail "a task cannot depend on itself")
  reject (ltb 31536000000 (unsigned_abs r.lag_ms)) (bail "dependency lag must not exceed one year")
