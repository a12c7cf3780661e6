-- ===== src/Examples/Schedules.antt =====
-- Two tasks and a dependency, put through the handlers, and the dates of events.
use community_stack.Common.{
  String, true, false, ◌≡◌, refl, List, [], ◌∷◌, Option, none, some, inl, inr, any,
}
use community_stack.Common.Int.{pos}
use community_stack.Domain.Json.{null}
use community_stack.Domain.Planning.{
  PutTask, PutDependency, PlanningStatus, DependencyKind, EventTiming,
}
use community_stack.Failure.{ok}
use community_stack.Ports.{Response}
use community_stack.Store.Tables.{Database}
use community_stack.Store.Projection.Planning.{grant_profile}
use community_stack.Application.Planning.Dates.{validate_timing}
use community_stack.Application.Planning.Guarded.{PlansAreAcyclic}
use community_stack.Application.Planning.Puts.{PlanningEncoding}
use community_stack.Application.Planning.Handlers.{planning_task_put, planning_dependency_put}
use community_stack.Application.Planning.Acyclic.{
  Steps, start, next, put_task, put_dependency, elsewhere, Steps-PlansAreAcyclic,
}
use community_stack.Examples.Data.{registered, engine, secure, from_ok}

abbrev encoding : PlanningEncoding
encoding = record { canonical_json = λ app p. ok "{}" }

abbrev task : String → String → PutTask
task key id = record {
  community_id = "c1";
  idempotency_key = key;
  task_id = id;
  project_id = none;
  title = "Dig";
  description = none;
  status = PlanningStatus.planned;
  start_at_ms = none;
  due_at_ms = none;
  progress_percent = 0;
}

abbrev dependency : PutDependency
dependency = record {
  community_id = "c1";
  idempotency_key = "k3";
  dependency_id = "d1";
  predecessor_task_id = "t1";
  successor_task_id = "t2";
  kind = DependencyKind.finish_to_start;
  lag_ms = pos 0;
}

abbrev no_response : Response
no_response = record { operation_hash = 0; state = null; revision = 0 }

abbrev granted : Database
granted =
    grant_profile "app" "community.planning" "c1" (record { can_read = true; can_write = true })
      registered

abbrev with_one : Response × Database
with_one =
    from_ok (no_response, registered)
      (planning_task_put engine secure encoding 1 1000 "app" (task "k1" "t1") 500 granted)

abbrev with_two : Response × Database
with_two =
    from_ok (no_response, registered)
      (planning_task_put engine secure encoding 1 2000 "app" (task "k2" "t2") 501 with_one.1)

abbrev planned : Response × Database
planned =
    from_ok (no_response, registered)
      (planning_dependency_put engine secure encoding 1 3000 "app" dependency 502 with_two.1)

run : Steps engine secure encoding 1 registered planned.1
unfolding planning_task_put planning_dependency_put grant_profile
    community_stack.Application.Planning.Handlers.put
    community_stack.Application.Planning.Handlers.commit_planning_record
    community_stack.Application.Planning.Handlers.check_task
    community_stack.Application.Planning.Handlers.check_dependency
    community_stack.Application.Planning.Puts.validate_task
    community_stack.Application.Planning.Puts.validate_dependency
    community_stack.Application.Planning.Puts.planning_map
    community_stack.Application.Planning.Checks.require_profile_write
    community_stack.Application.Planning.Checks.validate_common_write
    community_stack.Application.Planning.Checks.validate_text
    community_stack.Application.Planning.Checks.validate_optional_text
    community_stack.Application.Planning.Checks.validate_optional_id
    community_stack.Application.Planning.Checks.validate_catalog_bound
    community_stack.Application.Planning.Checks.require_project
    community_stack.Application.Planning.reject_dependency_cycle
    community_stack.Application.Planning.search community_stack.Application.Planning.push_all
    community_stack.Application.Planning.successors
    community_stack.Application.Toolkit.Writes.or_stored
    community_stack.Store.Plans.planning_catalog community_stack.Store.Plans.projects
    community_stack.Store.Plans.tasks community_stack.Store.Plans.events
    community_stack.Store.Plans.dependencies community_stack.Store.Plans.task_before
    community_stack.Store.Plans.dependency_before community_stack.Common.StrOrder.str_lt
    community_stack.Application.Mutate.mutate_in_namespace
    community_stack.Application.Mutate.mutate_locked community_stack.Application.Mutate.mutate_fresh
    community_stack.Application.Mutate.next_place
    community_stack.Application.Validate.validate_object_id
    community_stack.Application.Validate.validate_idempotency_key community_stack.Common.has_control
    community_stack.Store.Channel.ask community_stack.Store.Read.idempotency
    community_stack.Store.Read.of_key community_stack.Store.Read.load_updates
    community_stack.Store.Read.update_before community_stack.Store.Read.of_document
    community_stack.Store.Read.of_log community_stack.Store.Read.update_count
    community_stack.Store.Read.log_head community_stack.Store.Read.same_document
    community_stack.Common.select community_stack.Common.Sort.sort
    community_stack.Common.Sort.insert community_stack.Store.Commit.commit_local
    community_stack.Store.Commit.admissible community_stack.Store.Commit.follows
    community_stack.Store.Commit.same_operation community_stack.Store.Commit.append_record
    community_stack.Store.Commit.apply_projections community_stack.Store.Commit.store_response any
    community_stack.Common.count community_stack.Common.find community_stack.Common.update
    community_stack.Store.Commit.set_head community_stack.Store.Commit.next_outbox_id
    community_stack.Store.Commit.next_change_id community_stack.Store.Commit.priority_for
    community_stack.Store.Projection.apply_projection
    community_stack.Store.Projection.Planning.apply_planning
    community_stack.Store.Projection.Planning.write_planning
    community_stack.Store.Projection.Planning.may_write
    community_stack.Store.Projection.Planning.is_grant
    community_stack.Store.Projection.Planning.profile_access
    community_stack.Store.Projection.Planning.community_version
    community_stack.Store.Projection.Planning.bump_version
    community_stack.Store.Projection.Planning.upsert
    community_stack.Store.Projection.Planning.has_row
run =
    next
      (next
        (next (next start (elsewhere refl))
          (put_task {a = granted} 1000 "app" (task "k1" "t1") 500 with_one.0 refl))
        (put_task 2000 "app" (task "k2" "t2") 501 with_two.0 refl))
      (put_dependency 3000 "app" dependency 502 planned.0 refl)

Steps-PlansAreAcyclic_example : PlansAreAcyclic planned.1
Steps-PlansAreAcyclic_example = Steps-PlansAreAcyclic engine secure encoding 1 run

-- A sign is accepted as part of a number, and the event of September ends in January.
signed : validate_timing (EventTiming.all_day "2024-+9-01" "2024-01-01") ≡ ok tt
unfolding validate_timing community_stack.Application.Planning.Dates.validate_date
    community_stack.Application.Planning.Dates.parse
    community_stack.Application.Planning.Dates.parse_digits
    community_stack.Application.Planning.Dates.max_day
    community_stack.Application.Planning.Dates.bytes_lt community_stack.Common.as_bytes any
signed = refl
