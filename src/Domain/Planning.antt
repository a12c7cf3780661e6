-- ===== src/Domain/Planning.antt =====
-- src/domain/planning.rs: projects, tasks, events and dependencies.
use community_stack.Common.{ℕ, String, List, Option}
use community_stack.Common.Int.{ℤ}
use community_stack.Domain.Replication.{Hash}

pub data PlanningStatus : Type 0 where
  planned active completed cancelled archived : PlanningStatus

pub data RecurrenceFrequency : Type 0 where
  daily weekly monthly yearly : RecurrenceFrequency

pub data Weekday : Type 0 where
  monday tuesday wednesday thursday friday saturday sunday : Weekday

pub record RecurrenceRule : Type 0 where
  pub frequency : RecurrenceFrequency
  pub interval : ℕ
  pub count : Option ℕ
  pub until_ms : Option ℤ
  pub by_weekday : List Weekday

-- `all_day start_date end_date_exclusive` and `utc start_at_ms end_at_ms time_zone`
pub data EventTiming : Type 0 where
  all_day : String → String → EventTiming
  utc : ℤ → ℤ → String → EventTiming

pub record PutProject : Type 0 where
  pub community_id : String
  pub idempotency_key : String
  pub project_id : String
  pub title : String
  pub description : Option String
  pub status : PlanningStatus

pub record PutTask : Type 0 where
  pub community_id : String
  pub idempotency_key : String
  pub task_id : String
  pub project_id : Option String
  pub title : String
  pub description : Option String
  pub status : PlanningStatus
  pub start_at_ms : Option ℤ
  pub due_at_ms : Option ℤ
  pub progress_percent : ℕ

pub record PutEvent : Type 0 where
  pub community_id : String
  pub idempotency_key : String
  pub event_id : String
  pub project_id : Option String
  pub title : String
  pub description : Option String
  pub status : PlanningStatus
  pub timing : EventTiming
  pub recurrence : Option RecurrenceRule
  pub location : Option String

pub data DependencyKind : Type 0 where
  finish_to_start start_to_start finish_to_finish start_to_finish : DependencyKind

pub record PutDependency : Type 0 where
  pub community_id : String
  pub idempotency_key : String
  pub dependency_id : String
  pub predecessor_task_id : String
  pub successor_task_id : String
  pub kind : DependencyKind
  pub lag_ms : ℤ

pub record PlanningViewRequest : Type 0 where
  pub community_id : String
  pub limit : ℕ

pub record PlanningProject : Type 0 where
  pub project_id : String
  pub title : String
  pub description : Option String
  pub status : PlanningStatus
  pub submitted_by_app_id : String
  pub source_operation_hash : Hash

pub record PlanningTask : Type 0 where
  pub task_id : String
  pub project_id : Option String
  pub title : String
  pub description : Option String
  pub status : PlanningStatus
  pub start_at_ms : Option ℤ
  pub due_at_ms : Option ℤ
  pub progress_percent : ℕ
  pub submitted_by_app_id : String
  pub source_operation_hash : Hash

pub record PlanningEvent : Type 0 where
  pub event_id : String
  pub project_id : Option String
  pub title : String
  pub description : Option String
  pub status : PlanningStatus
  pub timing : EventTiming
  pub recurrence : Option RecurrenceRule
  pub location : Option String
  pub submitted_by_app_id : String
  pub source_operation_hash : Hash

pub record PlanningDependency : Type 0 where
  pub dependency_id : String
  pub predecessor_task_id : String
  pub successor_task_id : String
  pub kind : DependencyKind
  pub lag_ms : ℤ
  pub submitted_by_app_id : String
  pub source_operation_hash : Hash

pub record PlanningCatalog : Type 0 where
  pub version : ℕ
  pub projects : List PlanningProject
  pub tasks : List PlanningTask
  pub events : List PlanningEvent
  pub dependencies : List PlanningDependency

pub data PlanningProjection : Type 0 where
  project : PlanningProject → PlanningProjection
  task : PlanningTask → PlanningProjection
  event : PlanningEvent → PlanningProjection
  dependency : PlanningDependency → PlanningProjection

pub record PlanningProjectionWrite : Type 0 where
  pub profile_digest : String
  pub authorized_app_id : String
  pub profile_id : String
  pub expected_community_version : ℕ
  pub projection : PlanningProjection
