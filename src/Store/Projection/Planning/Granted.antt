-- ===== src/Store/Projection/Planning/Granted.antt =====
-- Under what grant a planning record is written, and where it then stands.
use community_stack.Common.{
  suc, ◌≡◌, subst, String, true, not, ◌&&◌, ◌||◌, List, arith, any, any-In, In, In-last,
  In-update_holds, str_eq, str_eq_iff, Bool-cases, ◌==◌, inl, inr,
}
use community_stack.Domain.Error.{conflict}
use community_stack.Domain.Replication.{Hash}
use community_stack.Domain.Planning.{
  PlanningProject, PlanningTask, PlanningEvent, PlanningDependency, PlanningProjectionWrite,
  PlanningProjection,
}
use community_stack.Failure.{ok, bail, reject, protocol_error, >>=-eq-ok, ok_eq}
use community_stack.Store.Tables.{Scoped, in_scope, Grant, Database}
use community_stack.Store.Projection.Planning.{
  may_write, is_grant, community_version, upsert, has_project, has_task, write_planning,
  apply_planning,
}
use community_stack.Store.Projection.Planning.Version.{planning_at_version}

-- A grant of the profile for the community, both to read and to write, to the application.
pub record MayWrite (app profile community : String) (g : Grant) : Type 0 where
  pub application : g.app_id ≡ app
  pub profile_ : g.profile_id ≡ profile
  pub community_ : g.community_id ≡ community
  pub reads : g.access.can_read ≡ true
  pub writes : g.access.can_write ≡ true

granted :
    (app profile community : String) (gs : List Grant)
    → any (may_write app profile community) gs ≡ true
    → (g : Grant) × In g gs × MayWrite app profile community g
unfolding may_write is_grant
granted app profile community gs e =
    let (g, m, h) = any-In (may_write app profile community) gs e in
    (
      g,
      m,
      record {
        application = (str_eq_iff g.app_id app).0 (ground (arith, h));
        profile_ = (str_eq_iff g.profile_id profile).0 (ground (arith, h));
        community_ = (str_eq_iff g.community_id community).0 (ground (arith, h));
        reads = ground (arith, h);
        writes = ground (arith, h);
      },
    )

abbrev scoped : {A : Type 0} → String → String → A → Scoped A
scoped namespace community a = record { app_id = namespace; community_id = community; row = a }

-- The record of the write stands in its table, under the namespace and the community, and names the
-- operation that carries it.
abbrev pub IsWritten : String → String → Hash → PlanningProjection → Database → Type 0
IsWritten namespace community hash (PlanningProjection.project p) b =
    In (scoped namespace community (record p { source_operation_hash = hash })) b.planning.projects
IsWritten namespace community hash (PlanningProjection.task t) b =
    In (scoped namespace community (record t { source_operation_hash = hash })) b.planning.tasks
IsWritten namespace community hash (PlanningProjection.event v) b =
    In (scoped namespace community (record v { source_operation_hash = hash })) b.planning.events
IsWritten namespace community hash (PlanningProjection.dependency d) b =
    In (scoped namespace community (record d { source_operation_hash = hash }))
      b.planning.dependencies

In-upsert :
    {A : Type 0} (id : A → String) (namespace community : String) (a : A) (rows : List (Scoped A))
    → In (scoped namespace community a) (upsert id namespace community a rows)
unfolding upsert
In-upsert id namespace community a rows =
    let same = λ (r : Scoped _). in_scope namespace community r && str_eq (id r.row) (id a) in
    let new = scoped namespace community a in
    elim (Bool-cases (any same rows)) [
      | inl b ↦
          let (r, m, h) = any-In same rows b in rw b (In-update_holds same (λ _. new) rows r h m)
      | inr b ↦ rw b (In-last new rows)
    ]

write-IsWritten :
    (namespace community : String) (hash : Hash) (w : PlanningProjection) (a b : Database)
    → write_planning namespace community hash w a ≡ ok b
    → IsWritten namespace community hash w b
unfolding write_planning
write-IsWritten namespace community hash (PlanningProjection.project p) a b e =
    subst
      (λ d.
        In (scoped namespace community (record p { source_operation_hash = hash }))
          d.planning.projects)
      (ok_eq e)
      (In-upsert (λ (x : PlanningProject). x.project_id) namespace community
        (record p { source_operation_hash = hash }) a.planning.projects)
write-IsWritten namespace community hash (PlanningProjection.task t) a b e =
    let (u, e₀, e₁) =
      >>=-eq-ok
        (reject (not (has_project namespace community t.project_id a))
          (bail "FOREIGN KEY constraint failed"))
        _ e in
    subst
      (λ x.
        In (scoped namespace community (record t { source_operation_hash = hash }))
          x.planning.tasks)
      (ok_eq e₁)
      (In-upsert (λ (x : PlanningTask). x.task_id) namespace community
        (record t { source_operation_hash = hash }) a.planning.tasks)
write-IsWritten namespace community hash (PlanningProjection.event v) a b e =
    let (u, e₀, e₁) =
      >>=-eq-ok
        (reject (not (has_project namespace community v.project_id a))
          (bail "FOREIGN KEY constraint failed"))
        _ e in
    subst
      (λ x.
        In (scoped namespace community (record v { source_operation_hash = hash }))
          x.planning.events)
      (ok_eq e₁)
      (In-upsert (λ (x : PlanningEvent). x.event_id) namespace community
        (record v { source_operation_hash = hash }) a.planning.events)
write-IsWritten namespace community hash (PlanningProjection.dependency d) a b e =
    let (u, e₀, e₁) =
      >>=-eq-ok
        (reject
          (not (has_task namespace community d.predecessor_task_id a)
            || not (has_task namespace community d.successor_task_id a)
            || str_eq d.predecessor_task_id d.successor_task_id)
          (bail "constraint failed"))
        _ e in
    subst
      (λ x.
        In (scoped namespace community (record d { source_operation_hash = hash }))
          x.planning.dependencies)
      (ok_eq e₁)
      (In-upsert (λ (x : PlanningDependency). x.dependency_id) namespace community
        (record d { source_operation_hash = hash }) a.planning.dependencies)

-- A planning write succeeds only if the store holds a grant of the profile for the community, to read
-- and to write, to the application on whose behalf it is made, and only at the version that it expects.
-- It then moves the community to the next version, and its record stands in its table under the
-- namespace and the community, with the operation that carries it.
pub planning_write_is_granted :
    (namespace community : String) (hash : Hash) (w : PlanningProjectionWrite) (a b : Database)
    → apply_planning namespace community hash w a ≡ ok b
    → ((g : Grant) × In g a.grants × MayWrite w.authorized_app_id w.profile_id community g)
      × (community_version namespace community a ≡ w.expected_community_version)
      × (community_version namespace community b ≡ suc w.expected_community_version)
      × IsWritten namespace community hash w.projection b
unfolding apply_planning
planning_write_is_granted namespace community hash w a b e =
    let (may, before, after) = planning_at_version namespace community hash w a b e in
    let (u, e₀, e₁) =
      >>=-eq-ok
        (reject (not (any (may_write w.authorized_app_id w.profile_id community) a.grants))
          (protocol_error conflict "planning profile grant was revoked before commit" true))
        _ e in
    let (v, e₂, e₃) =
      >>=-eq-ok
        (reject (not (community_version namespace community a == w.expected_community_version))
          (protocol_error conflict "planning state changed before commit" true))
        _ e₁ in
    (
      granted w.authorized_app_id w.profile_id community a.grants may,
      before,
      after,
      write-IsWritten namespace community hash w.projection _ b e₃,
    )
