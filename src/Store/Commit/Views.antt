-- ===== src/Store/Commit/Views.antt =====
-- The views after a commit are those that its projections make.
use community_stack.Common.{ℕ, String, ◌≡◌, subst, List, [], ◌∷◌, any, arith}
use community_stack.Domain.Replication.{Hash}
use community_stack.Failure.{ok, bail, reject, >>=-eq-ok, ok_eq}
use community_stack.Ports.{LocalCommit, ProjectionWrite}
use community_stack.Store.Tables.{Database}
use community_stack.Store.Projection.{apply_projection}
use community_stack.Store.Commit.{
  new_operation, append_record, same_operation, admissible, apply_projections, store_response,
  commit_local,
}

-- The state of the views on which the projections of a commit have worked, and after them.
pub record Viewed (now : ℕ) (c : LocalCommit) (ps : List ProjectionWrite) (a b : Database)
    : Type 0 where
  pub after : Database
  pub applied :
      apply_projections c.document.app_id c.document.community_id c.canonical_record.operation_hash
        now ps
        (record a { log = append_record c now a.log })
      ≡ ok after
  pub facts : b.facts ≡ after.facts
  pub planning : b.planning ≡ after.planning
  pub toolkit : b.toolkit ≡ after.toolkit

store-views :
    (c : LocalCommit) (a b : Database)
    → store_response c a ≡ ok b
    → (b.facts ≡ a.facts) × (b.planning ≡ a.planning) × (b.toolkit ≡ a.toolkit)
unfolding store_response
store-views c a b e = (ground arith, ground arith, ground arith)

pub commit-Viewed :
    (now : ℕ) (c : LocalCommit) (a b : Database)
    → commit_local now c a ≡ ok b
    → Viewed now c c.projections a b
unfolding commit_local
commit-Viewed now c a b e =
    let (u, e₀, e₁) = >>=-eq-ok (admissible c a) _ e in
    let (v, e₂, e₃) =
      >>=-eq-ok
        (reject (any (same_operation (new_operation c now)) a.log.operations)
          (bail "UNIQUE constraint failed"))
        _ e₁ in
    let (d, e₄, e₅) =
      >>=-eq-ok
        (apply_projections c.document.app_id c.document.community_id
          c.canonical_record.operation_hash now c.projections
          (record a { log = append_record c now a.log }))
        _ e₃ in
    let (f, p, t) = store-views c d b e₅ in
    record { after = d; applied = e₄; facts = f; planning = p; toolkit = t }

-- One projection.
pub single-projection :
    (app community : String) (hash : Hash) (now : ℕ) (p : ProjectionWrite) (a b : Database)
    → apply_projections app community hash now (p ∷ []) a ≡ ok b
    → apply_projection app community hash p now a ≡ ok b
unfolding apply_projections
single-projection app community hash now p a b e =
    let (c, e₀, e₁) = >>=-eq-ok (apply_projection app community hash p now a) _ e in
    subst (λ x. apply_projection app community hash p now a ≡ ok x) (ok_eq e₁) e₀
