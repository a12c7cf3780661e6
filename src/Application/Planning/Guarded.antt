-- ===== src/Application/Planning/Guarded.antt =====
-- A checked dependency leaves the dependencies of each community acyclic.
use community_stack.Common.{
  ℕ, ◌≡◌, sym, ap, ◌∙◌, subst, ◌⊎◌, inl, inr, ◌≤◌, String, false, not, ◌&&◌, List, [], ◌∷◌, ◌++◌,
  str_eq, str_eq_iff, ltb, arith, length, length-take, take, take_all, any, map, update, In,
  In-append_one, In-append_left, In-last, In-map, In-select, In-take, In-update, any-false,
  Bool-cases, if◌then◌else◌,
}
use community_stack.Common.Sort.{sort, In-sort}
use community_stack.Domain.Planning.{PutDependency, PlanningDependency, PlanningCatalog}
use community_stack.Domain.Profiles.{planning_namespace}
use community_stack.Domain.Replication.{Hash}
use community_stack.Failure.{ok, bail, reject, >>=-eq-ok, reject-eq-ok}
use community_stack.Store.Tables.{Scoped, in_scope, Database}
use community_stack.Store.Catalog.{rows_of}
use community_stack.Store.Catalog.Members.{rows-In, In-rows, In-map_from}
use community_stack.Store.Plans.{dependency_before, dependencies, planning_catalog}
use community_stack.Store.Projection.Planning.{upsert}
use community_stack.Application.Planning.{Edge, edge, request_edge, kept_edges, edges}
use community_stack.Application.Planning.Graph.{IsAcyclic, IsAcyclic-mono}
use community_stack.Application.Planning.Cycle.{reject_dependency_cycle-IsAcyclic}
use community_stack.Application.Planning.Checks.{
  validate_catalog_bound, max_profile_rows, max_profile_records,
}
use community_stack.Application.Planning.Puts.{dependency_of, is_full}
use community_stack.Application.Planning.Handlers.{is_task, check_dependency}
use community_stack.Application.Planning.Written.{read_catalog}

abbrev pub table_edges : String → List (Scoped PlanningDependency) → List Edge
table_edges community rows = map edge (rows_of planning_namespace community rows)

-- The task dependencies that the store holds for a community.
abbrev pub plan_edges : String → Database → List Edge
plan_edges community db = table_edges community db.planning.dependencies

last_within :
    (a b c d : ℕ)
    → any (ltb max_profile_records) (a ∷ b ∷ c ∷ d ∷ []) ≡ false
    → d ≤ max_profile_records
unfolding any
last_within a b c d h = ground (arith, h)

within_bound :
    (c : PlanningCatalog)
    → validate_catalog_bound c ≡ ok tt
    → length c.dependencies ≤ max_profile_records
unfolding validate_catalog_bound
within_bound c e =
    last_within (length c.projects) (length c.tasks) (length c.events) (length c.dependencies)
      (reject-eq-ok _ (bail "planning catalog exceeds the validation bound") e)

taken_all :
    {A : Type 0} (xs : List A)
    → length (take max_profile_rows xs) ≤ max_profile_records
    → take max_profile_rows xs ≡ xs
taken_all xs le = take_all max_profile_rows xs (omega (arith, length-take max_profile_rows xs, le))

-- The catalog holds all dependencies of the community, if it is within its bound.
catalog-In :
    (community : String) (db : Database) (d : PlanningDependency)
    → validate_catalog_bound (read_catalog community db) ≡ ok tt
    → In d (rows_of planning_namespace community db.planning.dependencies)
    → In d (read_catalog community db).dependencies
unfolding planning_catalog dependencies
catalog-In community db d e m =
    let rows = rows_of planning_namespace community db.planning.dependencies in
    subst (In d)
      (sym (taken_all (sort dependency_before rows) (within_bound (read_catalog community db) e)))
      ((In-sort dependency_before d rows).1 m)

catalog_rows :
    (community : String) (db : Database) (d : PlanningDependency)
    → In d (read_catalog community db).dependencies
    → In d (rows_of planning_namespace community db.planning.dependencies)
unfolding planning_catalog dependencies
catalog_rows community db d m = (In-sort dependency_before d _).0 (In-take max_profile_rows _ d m)

-- The dependencies that a request leaves are among those of the store.
kept-In :
    (r : PutDependency) (db : Database) (e : Edge)
    → In e (kept_edges r (read_catalog r.community_id db))
    → In e (plan_edges r.community_id db)
kept-In r db e m =
    let (d, i, q) = In-map_from edge _ e m in
    let (j, k) = (In-select (λ x. not (str_eq x.dependency_id r.dependency_id)) _ d).0 i in
    subst (λ x. In x (plan_edges r.community_id db)) q
      (In-map edge _ d (catalog_rows r.community_id db d j))

-- A row after an upsert is the new one, or an old one of another identifier or place.
upsert-In :
    (community : String) (d : PlanningDependency) (rows : List (Scoped PlanningDependency))
    (x : Scoped PlanningDependency)
    → In x (upsert (λ e. e.dependency_id) planning_namespace community d rows)
    → (record { app_id = planning_namespace; community_id = community; row = d } ≡ x)
      ⊎ (In x rows
          × ((in_scope planning_namespace community x && str_eq x.row.dependency_id d.dependency_id)
              ≡ false))
unfolding upsert
upsert-In community d rows x m =
    let same = λ (r : Scoped PlanningDependency).
      in_scope planning_namespace community r && str_eq r.row.dependency_id d.dependency_id in
    let row : Scoped PlanningDependency = record {
      app_id = planning_namespace;
      community_id = community;
      row = d;
    } in
    elim (Bool-cases (any same rows)) [
      | inl b ↦
          let (y, i, why) =
            In-update same (λ _. row) rows x
              (subst (λ c. In x (if c then update same (λ _. row) rows else rows ++ row ∷ [])) b
                m) in
          elim why [
            | inl (p, q) ↦ inl q
            | inr (p, q) ↦ inr (subst (λ z. In z rows) q i, subst (λ z. same z ≡ false) q p)
          ]
      | inr b ↦
          elim (In-append_one x row rows
            (subst (λ c. In x (if c then update same (λ _. row) rows else rows ++ row ∷ [])) b m)) [
              | inr q ↦ inl q
              | inl i ↦ inr (i, any-false same rows b x i)
            ]
    ]

abbrev new_row : PutDependency → String → Hash → PlanningDependency
new_row r app hash = record (dependency_of app r) { source_operation_hash = hash }

abbrev pub after_put : PutDependency → Database → String → Hash → List (Scoped PlanningDependency)
after_put r db app hash =
    upsert (λ e. e.dependency_id) planning_namespace r.community_id (new_row r app hash)
      db.planning.dependencies

module _ (r : PutDependency) (db : Database) (app : String) (hash : Hash)
    (bounded : validate_catalog_bound (read_catalog r.community_id db) ≡ ok tt) where
  -- Each dependency after the put is the new one or one that the request leaves.
  new_edges :
      (e : Edge)
      → In e (table_edges r.community_id (after_put r db app hash))
      → In e (edges r (read_catalog r.community_id db))
  new_edges e m =
      let c = read_catalog r.community_id db in
      let (d, i, q) =
        In-map_from edge (rows_of planning_namespace r.community_id (after_put r db app hash)) e
          m in
      let (x, j, a, b, p) =
        rows-In planning_namespace r.community_id (after_put r db app hash) d i in
      elim (upsert-In r.community_id (new_row r app hash) db.planning.dependencies x j) [
        | inl new ↦
            let same : request_edge r ≡ e =
              ap (λ (y : Scoped PlanningDependency). edge y.row) new ∙ ap edge p ∙ q in
            subst (λ y. In y (kept_edges r c ++ request_edge r ∷ [])) same
              (In-last (request_edge r) (kept_edges r c))
        | inr (k, other) ↦
            let id : str_eq x.row.dependency_id r.dependency_id ≡ false = ground (
              arith,
              other,
              (str_eq_iff x.app_id planning_namespace).1 a,
              (str_eq_iff x.community_id r.community_id).1 b,
            ) in
            let there =
              catalog-In r.community_id db x.row bounded
                (In-rows planning_namespace r.community_id db.planning.dependencies x k a b) in
            let kept =
              (In-select (λ y. not (str_eq y.dependency_id r.dependency_id)) c.dependencies x.row).1
                (there, ap not id) in
            subst (λ y. In y (edges r c)) (ap edge p ∙ q)
              (In-append_left (edge x.row) (kept_edges r c) (request_edge r ∷ [])
                (In-map edge _ x.row kept))
      ]

  -- The dependencies of another community stay as they are.
  other_edges :
      (community : String) (e : Edge)
      → str_eq community r.community_id ≡ false
      → In e (table_edges community (after_put r db app hash))
      → In e (plan_edges community db)
  other_edges community e ne m =
      let (d, i, q) =
        In-map_from edge (rows_of planning_namespace community (after_put r db app hash)) e m in
      let (x, j, a, b, p) = rows-In planning_namespace community (after_put r db app hash) d i in
      elim (upsert-In r.community_id (new_row r app hash) db.planning.dependencies x j) [
        | inl new ↦
            let same : community ≡ r.community_id =
              sym b ∙ ap (λ (y : Scoped PlanningDependency). y.community_id) (sym new) in
            absurd (ground (arith, ne, (str_eq_iff community r.community_id).1 same))
        | inr (k, other) ↦
            subst (λ y. In y (plan_edges community db)) (ap edge p ∙ q)
              (In-map edge _ x.row
                (In-rows planning_namespace community db.planning.dependencies x k a b))
      ]

-- The dependencies of every community are acyclic.
abbrev pub PlansAreAcyclic : Database → Type 0
PlansAreAcyclic db = (community : String) → IsAcyclic (plan_edges community db)

pub put-PlansAreAcyclic :
    (r : PutDependency) (db : Database) (app : String) (hash : Hash)
    → check_dependency (read_catalog r.community_id db) r ≡ ok tt
    → PlansAreAcyclic db
    → (community : String) → IsAcyclic (table_edges community (after_put r db app hash))
unfolding check_dependency
put-PlansAreAcyclic r db app hash e acyclic community =
    let c = read_catalog r.community_id db in
    let (u₁, bounded, b₁) = >>=-eq-ok (validate_catalog_bound c) _ e in
    let (u₂, a₂, b₂) =
      >>=-eq-ok
        (reject
          (is_full (λ (d : PlanningDependency). str_eq d.dependency_id r.dependency_id)
            c.dependencies)
          (bail "planning dependency limit reached"))
        _ b₁ in
    let (u₃, a₃, b₃) =
      >>=-eq-ok
        (reject (not (any (is_task r.predecessor_task_id) c.tasks))
          (bail "dependency references an unknown task"))
        _ b₂ in
    let (u₄, a₄, accepted) =
      >>=-eq-ok
        (reject (not (any (is_task r.successor_task_id) c.tasks))
          (bail "dependency references an unknown task"))
        _ b₃ in
    elim (Bool-cases (str_eq community r.community_id)) [
      | inl same ↦
          subst (λ x. IsAcyclic (table_edges x (after_put r db app hash)))
            (sym ((str_eq_iff community r.community_id).0 same))
            (IsAcyclic-mono (table_edges r.community_id (after_put r db app hash)) (edges r c)
              (new_edges r db app hash bounded)
              ((reject_dependency_cycle-IsAcyclic r c (
                  IsAcyclic-mono (kept_edges r c) (plan_edges r.community_id db) (kept-In r db)
                    (acyclic r.community_id))).0
                accepted))
      | inr other ↦
          IsAcyclic-mono (table_edges community (after_put r db app hash)) (plan_edges community db)
            (λ x. other_edges r db app hash bounded community x other) (acyclic community)
    ]
