-- ===== src/Application/Planning/Written.antt =====
-- What a put handler of the planning profile has checked and written.
use community_stack.Common.{ℕ, String, len, ◌≡◌, refl, subst, ◌⊎◌, inl, inr, [], ◌∷◌, ltb}
use community_stack.Domain.Documents.{DocumentKey}
use community_stack.Domain.Planning.{PlanningCatalog, PlanningProjection}
use community_stack.Domain.Profiles.{planning_namespace}
use community_stack.Domain.Replication.{Hash}
use community_stack.Failure.{Check, ok, bail, reject, >>=-eq-ok}
use community_stack.Ports.{planning, Response, DocumentEngine, SecureLog}
use community_stack.Store.Tables.{Database}
use community_stack.Store.Read.{idempotency}
use community_stack.Store.Channel.{ask}
use community_stack.Store.Plans.{planning_catalog}
use community_stack.Store.Commit.{apply_projections, append_record}
use community_stack.Store.Commit.Views.{Viewed, commit-Viewed, single-projection}
use community_stack.Store.Projection.{apply_projection}
use community_stack.Store.Projection.Planning.{apply_planning}
use community_stack.Application.Mutate.{mutate_in_namespace, document_key}
use community_stack.Application.Mutate.Retry.{locked-Outcome}
use community_stack.Application.Toolkit.Kept.{or_stored-cases}
use community_stack.Application.Planning.Checks.{require_profile_write, max_profile_rows}
use community_stack.Application.Planning.Puts.{PlanningEncoding, planning_request, planning_write}
use community_stack.Application.Planning.Handlers.{commit_planning_record, put}

abbrev pub read_catalog : String → Database → PlanningCatalog
read_catalog community db = planning_catalog planning_namespace community max_profile_rows db

-- The request met the catalog's checks, and the view of its record was applied to the plans of the
-- first database, and is in the second.
pub record Put (app community : String) (check : PlanningCatalog → Check) (p : PlanningProjection)
    (a b : Database) : Type 0 where
  pub checked : check (read_catalog community a) ≡ ok tt
  pub hash : Hash
  pub before : Database
  pub after : Database
  pub same : before.planning ≡ a.planning
  pub applied :
      apply_planning planning_namespace community hash
        (planning_write app (read_catalog community a).version p)
        before
      ≡ ok after
  pub planning_ : b.planning ≡ after.planning

module _ (engine : DocumentEngine) (secure : SecureLog) (encoding : PlanningEncoding)
    (peer : ℕ) where
  -- A put that succeeds has changed nothing, or has written the view of its record.
  pub put-Put :
      (now : ℕ) (app community key : String) (valid : Check) (check : PlanningCatalog → Check)
      (document_id : String) (p : PlanningProjection) (hash : Hash) (a : Database)
      (response : Response) (b : Database)
      → put engine secure encoding peer now app community key valid check document_id p hash a
        ≡ ok (response, b)
      → (a ≡ b) ⊎ Put app community check p a b
  unfolding put commit_planning_record mutate_in_namespace apply_projection
  put-Put now app community key valid check document_id p hash a response b e =
      let (u₁, a₁, b₁) = >>=-eq-ok (require_profile_write app community a) _ e in
      let (u₂, a₂, b₂) = >>=-eq-ok valid _ b₁ in
      elim (or_stored-cases (λ x. x) a (ask (idempotency app key hash a)) _ response b b₂) [
        | inl same ↦ inl same
        | inr fresh ↦
            let c = read_catalog community a in
            let (u₃, a₃, b₃) = >>=-eq-ok (check c) _ fresh in
            let (text, a₄, b₄) = >>=-eq-ok (encoding.canonical_json app p) _ b₃ in
            let (u₅, a₅, b₅) =
              >>=-eq-ok (reject (ltb 65536 (len text)) (bail "planning record exceeds 65536 bytes"))
                _ b₄ in
            let r = planning_request app community document_id key text in
            let w = planning (planning_write app c.version p) in
            elim (locked-Outcome engine secure peer now app (document_key planning_namespace r) r
              hash (w ∷ []) a response b b₅) [
                | inl (known, same) ↦ inl same
                | inr k ↦
                    let v : Viewed now k.commit (w ∷ []) a b =
                      subst (λ ps. Viewed now k.commit ps a b) k.views
                        (commit-Viewed now k.commit a b k.done) in
                    let before = record a { log = append_record k.commit now a.log } in
                    let applied =
                      subst
                        (λ (d : DocumentKey).
                          apply_projections d.app_id d.community_id
                            k.commit.canonical_record.operation_hash now (w ∷ []) before
                          ≡ ok v.after)
                        k.document v.applied in
                    inr (record {
                      checked = a₃;
                      hash = k.commit.canonical_record.operation_hash;
                      before = before;
                      after = v.after;
                      same = refl;
                      applied =
                          single-projection planning_namespace community
                            k.commit.canonical_record.operation_hash now w before v.after applied;
                      planning_ = v.planning;
                    })
              ]
      ]
