-- ===== src/Application/Planning.antt =====
-- The planning profile of src/application/planning.rs: the guard of the task dependencies.
pub mod Graph
pub mod Dfs
pub mod Cycle
pub mod Dates
pub mod Recurrence
pub mod Digits
pub mod DateOrder
pub mod Checks
pub mod Puts
pub mod Handlers
pub mod Views
pub mod Written
pub mod Guarded
pub mod Acyclic
use community_stack.Common.{
  ℕ, suc, zero, String, Bool, not, List, [], ◌∷◌, ◌++◌, str_eq, length, any, select, map,
  if◌then◌else◌,
}
use community_stack.Domain.Planning.{PutDependency, PlanningDependency, PlanningCatalog}
use community_stack.Failure.{Check, ok, err, bail}

-- A dependency as an edge from the predecessor to the successor.
pub record Edge : Type 0 where
  pub from : String
  pub to : String

abbrev pub edge : PlanningDependency → Edge
edge d = record { from = d.predecessor_task_id; to = d.successor_task_id }

abbrev pub request_edge : PutDependency → Edge
request_edge r = record { from = r.predecessor_task_id; to = r.successor_task_id }

-- The dependencies that stay: all but the one that the request replaces.
abbrev pub kept_edges : PutDependency → PlanningCatalog → List Edge
kept_edges r catalog =
    map edge (select (λ d. not (str_eq d.dependency_id r.dependency_id)) catalog.dependencies)

-- The map `edges`, as a list: what it holds under a task are the ends of the edges from it, in order.
abbrev pub edges : PutDependency → PlanningCatalog → List Edge
edges r catalog = kept_edges r catalog ++ request_edge r ∷ []

abbrev pub is_from : String → Edge → Bool
is_from task e = str_eq e.from task

-- `edges.get(task).into_iter().flatten()`
unfoldable pub successors : String → List Edge → List String
successors task es = map (λ (e : Edge). e.to) (select (is_from task) es)

-- `pending.extend(…)`; the top of the stack is the head of the list.
unfoldable pub push_all : List String → List String → List String
push_all [] pending = pending
push_all (x ∷ xs) pending = push_all xs (x ∷ pending)

pub data Search : Type 0 where
  found exhausted out_of_fuel : Search

-- The loop `while let Some(task) = pending.pop()`.
unfoldable pub search : ℕ → String → List Edge → List String → List String → Search
search fuel target es [] visited = Search.exhausted
search zero target es (task ∷ pending) visited = Search.out_of_fuel
search (suc fuel) target es (task ∷ pending) visited =
    let seen = search fuel target es pending visited in
    let fresh = search fuel target es (push_all (successors task es) pending) (task ∷ visited) in
    if str_eq task target then Search.found else if any (str_eq task) visited then seen else fresh

abbrev pub verdict : Search → Check
verdict Search.exhausted = ok tt
verdict _ = err (bail "dependency would create a cycle")

-- One turn for each edge and one for the start are enough.
unfoldable pub reject_dependency_cycle : PutDependency → PlanningCatalog → Check
reject_dependency_cycle r catalog =
    let es = edges r catalog in
    verdict (search (suc (length es)) r.predecessor_task_id es (r.successor_task_id ∷ []) [])
