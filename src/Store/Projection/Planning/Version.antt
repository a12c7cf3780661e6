-- ===== src/Store/Projection/Planning/Version.antt =====
-- The version of a community's plan, which serialises the writers of the planning profile.
use community_stack.Common.{
  ℕ, suc, ◌≡◌, sym, ap, ◌∙◌, String, true, false, not, List, [], ◌∷◌, arith, find, any, update,
  find-append_none, find-none_of_any, find_last, str_eq_iff, ◌==◌, Bool-cases, inl, inr,
}
use community_stack.Domain.Error.{conflict}
use community_stack.Domain.Replication.{Hash}
use community_stack.Domain.Planning.{PlanningProjectionWrite, PlanningProjection}
use community_stack.Failure.{ok, err, reject, protocol_error, >>=-eq-ok, reject-eq-ok}
use community_stack.Store.Tables.{Scoped, Database, in_scope}
use community_stack.Store.Projection.Planning.{
  may_write, version_of, community_version, bump_version, write_planning, apply_planning,
}

find-bump :
    (namespace community : String) (vs : List (Scoped ℕ))
    → any (in_scope namespace community) vs ≡ true
    → version_of (
        find
          (in_scope namespace community)
          (update (in_scope namespace community) (λ r. record r { row = suc r.row }) vs))
      ≡ suc (version_of (find (in_scope namespace community) vs))
unfolding find update any
find-bump namespace community [] e = absurd (cc)
find-bump namespace community (v ∷ vs) e = ground (arith, e, find-bump namespace community vs)

bump-version :
    (namespace community : String) (vs : List (Scoped ℕ))
    → version_of (find (in_scope namespace community) (bump_version namespace community vs))
      ≡ suc (version_of (find (in_scope namespace community) vs))
unfolding bump_version
bump-version namespace community vs = elim (Bool-cases (any (in_scope namespace community) vs)) [
  | inl b ↦ rw b (find-bump namespace community vs b)
  | inr b ↦
      let missing = find-none_of_any (in_scope namespace community) vs b in
      let new : Scoped ℕ = record { app_id = namespace; community_id = community; row = 1 } in
      let here : in_scope namespace community new ≡ true =
        ground (arith, str_eq_iff namespace namespace, str_eq_iff community community) in
      rw b (
        ap version_of (
          find-append_none (in_scope namespace community) vs (new ∷ []) missing
          ∙ find_last _ new here)
        ∙ ap (λ o. suc (version_of o)) (sym missing))
]

-- The record that is written leaves the versions and the grants.
write-versions :
    (namespace community : String) (hash : Hash) (w : PlanningProjection) (a b : Database)
    → write_planning namespace community hash w a ≡ ok b
    → (b.planning.versions ≡ a.planning.versions) × (b.grants ≡ a.grants)
unfolding write_planning
write-versions namespace community hash (PlanningProjection.project p) a b e =
    (ground arith, ground arith)
write-versions namespace community hash (PlanningProjection.task t) a b e =
    (ground arith, ground arith)
write-versions namespace community hash (PlanningProjection.event v) a b e =
    (ground arith, ground arith)
write-versions namespace community hash (PlanningProjection.dependency d) a b e =
    (ground arith, ground arith)

-- A planning write succeeds only under a grant to read and write and at the version that it expects,
-- and it moves the community to the next version.
pub planning_at_version :
    (namespace community : String) (hash : Hash) (w : PlanningProjectionWrite) (a b : Database)
    → apply_planning namespace community hash w a ≡ ok b
    → (any (may_write w.authorized_app_id w.profile_id community) a.grants ≡ true)
      × (community_version namespace community a ≡ w.expected_community_version)
      × (community_version namespace community b ≡ suc w.expected_community_version)
unfolding apply_planning community_version
planning_at_version namespace community hash w a b e =
    let (u, e₀, e₁) =
      >>=-eq-ok
        (reject (not (any (may_write w.authorized_app_id w.profile_id community) a.grants))
          (protocol_error conflict "planning profile grant was revoked before commit" true))
        _ e in
    let (v, e₂, e₃) =
      >>=-eq-ok
        (reject (not (community_version namespace community a == w.expected_community_version))
          (protocol_error conflict "planning state changed before commit" true))
        _ e₁ in
    let granted = reject-eq-ok _ _ e₀ in
    let equal = reject-eq-ok _ _ e₂ in
    let kept = write-versions namespace community hash w.projection _ b e₃ in
    let before : version_of (find (in_scope namespace community) a.planning.versions)
        ≡ w.expected_community_version =
      ground (arith, equal) in
    (
      ground (arith, granted),
      before,
      ap (λ vs. version_of (find (in_scope namespace community) vs)) kept.0
          ∙ bump-version namespace community a.planning.versions
          ∙ ap suc before,
    )

-- After a planning write, a second one that was prepared at the same version, by an application that
-- still holds the grant, is refused in the store with a retryable conflict.
pub stale_planning_conflicts :
    (namespace community : String) (hash other : Hash) (w x : PlanningProjectionWrite)
    (a b : Database)
    → apply_planning namespace community hash w a ≡ ok b
    → x.expected_community_version ≡ w.expected_community_version
    → any (may_write x.authorized_app_id x.profile_id community) b.grants ≡ true
    → apply_planning namespace community other x b
      ≡ err (protocol_error conflict "planning state changed before commit" true)
unfolding apply_planning
stale_planning_conflicts namespace community hash other w x a b e same granted =
    let after = (planning_at_version namespace community hash w a b e).2 in
    let differs : (community_version namespace community b == x.expected_community_version)
        ≡ false =
      ground (arith, after, same) in
    rw (granted, differs)
