-- ===== src/Examples/Plans.antt =====
-- The planning profile.
use community_stack.Common.{
  In, ℕ, suc, String, ◌≡◌, ◌≢◌, ◌↔◌, refl, List, [], ◌∷◌, Option, none, some, true, false, arith,
  any,
}
use community_stack.Common.Int.{pos}
use community_stack.Domain.Error.{conflict}
use community_stack.Domain.Planning.{
  PutDependency, PlanningDependency, PlanningCatalog, PlanningProjectionWrite, PlanningProjection,
  DependencyKind, PlanningStatus,
}
use community_stack.Failure.{ok, err, protocol_error}
use community_stack.Store.Tables.{Grant, Database}
use community_stack.Store.Projection.Planning.{may_write, community_version, apply_planning}
use community_stack.Store.Projection.Planning.Granted.{
  MayWrite, IsWritten, planning_write_is_granted,
}
use community_stack.Store.Projection.Planning.Version.{stale_planning_conflicts}
use community_stack.Application.Planning.{
  kept_edges, edges, request_edge, Search, search, reject_dependency_cycle,
}
use community_stack.Application.Planning.Graph.{IsAcyclic}
use community_stack.Application.Planning.Dfs.{search_has_fuel}
use community_stack.Application.Planning.Cycle.{reject_dependency_cycle-IsAcyclic}
use community_stack.Examples.Data.{from_ok, two}

abbrev put : String → String → String → PutDependency
put id from to = record {
  community_id = "c1";
  idempotency_key = "k";
  dependency_id = id;
  predecessor_task_id = from;
  successor_task_id = to;
  kind = DependencyKind.finish_to_start;
  lag_ms = pos 0;
}

abbrev dependency : String → String → String → PlanningDependency
dependency id from to = record {
  dependency_id = id;
  predecessor_task_id = from;
  successor_task_id = to;
  kind = DependencyKind.finish_to_start;
  lag_ms = pos 0;
  submitted_by_app_id = "app";
  source_operation_hash = 11;
}

abbrev catalog : List PlanningDependency → PlanningCatalog
catalog ds = record { version = 0; projects = []; tasks = []; events = []; dependencies = ds }

-- `a` comes before `b`, which a first request has put.
first_accepted : reject_dependency_cycle (put "d1" "a" "b") (catalog []) ≡ ok tt
unfolding community_stack.Application.Planning.successors
    community_stack.Application.Planning.push_all community_stack.Application.Planning.search
    community_stack.Application.Planning.reject_dependency_cycle community_stack.Common.select
    community_stack.Common.any
first_accepted = refl

one-IsAcyclic : IsAcyclic (edges (put "d1" "a" "b") (catalog []))
unfolding community_stack.Application.Planning.successors
    community_stack.Application.Planning.push_all community_stack.Application.Planning.search
    community_stack.Application.Planning.reject_dependency_cycle community_stack.Common.select
    community_stack.Common.any
one-IsAcyclic =
    (reject_dependency_cycle-IsAcyclic (put "d1" "a" "b") (catalog []) (λ e m w. absurd m)).0
      first_accepted

kept-IsAcyclic : IsAcyclic (kept_edges (put "d2" "b" "a") (catalog (dependency "d1" "a" "b" ∷ [])))
unfolding community_stack.Application.Planning.successors
    community_stack.Application.Planning.push_all community_stack.Application.Planning.search
    community_stack.Application.Planning.reject_dependency_cycle community_stack.Common.select
    community_stack.Common.any
kept-IsAcyclic = one-IsAcyclic

reject_dependency_cycle-IsAcyclic_example :
    (reject_dependency_cycle (put "d2" "b" "a") (catalog (dependency "d1" "a" "b" ∷ [])) ≡ ok tt)
    ↔ IsAcyclic (edges (put "d2" "b" "a") (catalog (dependency "d1" "a" "b" ∷ [])))
reject_dependency_cycle-IsAcyclic_example =
    reject_dependency_cycle-IsAcyclic (put "d2" "b" "a") (catalog (dependency "d1" "a" "b" ∷ []))
      kept-IsAcyclic

search_has_fuel_example :
    search 2 "b" (request_edge (put "d1" "a" "b") ∷ []) ("a" ∷ []) [] ≢ Search.out_of_fuel
unfolding community_stack.Common.count community_stack.Common.any
search_has_fuel_example =
    search_has_fuel 2 "b" (request_edge (put "d1" "a" "b") ∷ []) ("a" ∷ []) [] (omega arith)

abbrev granted : Database
granted = record two {
  grants =
      record {
        app_id = "app";
        profile_id = "p";
        community_id = "c1";
        access = record { can_read = true; can_write = true };
      }
      ∷ [];
}

abbrev write : PlanningProjectionWrite
write = record {
  profile_digest = "digest";
  authorized_app_id = "app";
  profile_id = "p";
  expected_community_version = 0;
  projection = PlanningProjection.project (record {
    project_id = "project";
    title = "Well";
    description = none;
    status = PlanningStatus.planned;
    submitted_by_app_id = "app";
    source_operation_hash = 0;
  });
}

abbrev planned : Database
planned = from_ok granted (apply_planning "ns" "c1" 11 write granted)

planned_done : apply_planning "ns" "c1" 11 write granted ≡ ok planned
unfolding community_stack.Common.update community_stack.Store.Projection.Planning.apply_planning
    community_stack.Store.Projection.Planning.may_write
    community_stack.Store.Projection.Planning.is_grant
    community_stack.Store.Projection.Planning.community_version
    community_stack.Store.Projection.Planning.bump_version
    community_stack.Store.Projection.Planning.upsert
    community_stack.Store.Projection.Planning.has_row
    community_stack.Store.Projection.Planning.write_planning
    community_stack.Store.Commit.commit_local community_stack.Store.Commit.admissible
    community_stack.Store.Read.update_count community_stack.Store.Read.log_head
    community_stack.Store.Commit.follows community_stack.Store.Commit.same_operation
    community_stack.Store.Commit.append_record community_stack.Store.Commit.apply_projections
    community_stack.Store.Commit.store_response community_stack.Store.Read.same_document
    community_stack.Common.any community_stack.Common.count community_stack.Common.find
    community_stack.Store.Read.of_key community_stack.Store.Commit.set_head
    community_stack.Store.Commit.next_outbox_id community_stack.Store.Commit.next_change_id
    community_stack.Store.Commit.priority_for community_stack.Store.Read.of_log
    community_stack.Store.Read.of_document
planned_done = refl

still_granted : any (may_write "app" "p" "c1") planned.grants ≡ true
unfolding community_stack.Common.update community_stack.Store.Projection.Planning.apply_planning
    community_stack.Store.Projection.Planning.may_write
    community_stack.Store.Projection.Planning.is_grant
    community_stack.Store.Projection.Planning.community_version
    community_stack.Store.Projection.Planning.bump_version
    community_stack.Store.Projection.Planning.upsert
    community_stack.Store.Projection.Planning.has_row
    community_stack.Store.Projection.Planning.write_planning
    community_stack.Store.Commit.commit_local community_stack.Store.Commit.admissible
    community_stack.Store.Read.update_count community_stack.Store.Read.log_head
    community_stack.Store.Commit.follows community_stack.Store.Commit.same_operation
    community_stack.Store.Commit.append_record community_stack.Store.Commit.apply_projections
    community_stack.Store.Commit.store_response community_stack.Store.Read.same_document
    community_stack.Common.any community_stack.Common.count community_stack.Common.find
    community_stack.Store.Read.of_key community_stack.Store.Commit.set_head
    community_stack.Store.Commit.next_outbox_id community_stack.Store.Commit.next_change_id
    community_stack.Store.Commit.priority_for community_stack.Store.Read.of_log
    community_stack.Store.Read.of_document
still_granted = refl

planning_write_is_granted_example :
    ((g : Grant) × In g granted.grants × MayWrite "app" "p" "c1" g)
    × (community_version "ns" "c1" granted ≡ 0)
    × (community_version "ns" "c1" planned ≡ 1)
    × IsWritten "ns" "c1" 11 write.projection planned
planning_write_is_granted_example =
    planning_write_is_granted "ns" "c1" 11 write granted planned planned_done

stale_planning_conflicts_example :
    apply_planning "ns" "c1" 12 write planned
    ≡ err (protocol_error conflict "planning state changed before commit" true)
stale_planning_conflicts_example =
    stale_planning_conflicts "ns" "c1" 11 12 write write granted planned planned_done refl
      still_granted
