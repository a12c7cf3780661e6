-- ===== src/Application/Toolkit/Written.antt =====
-- What a writing handler of the toolkit has written.
use community_stack.Common.{ℕ, String, ◌≡◌, refl, sym, ap, subst, ◌⊎◌, inl, inr, [], ◌∷◌}
use community_stack.Domain.Documents.{MutateDocument}
use community_stack.Domain.Replication.{Hash}
use community_stack.Domain.Toolkit.{ToolkitProjection}
use community_stack.Failure.{ok, >>=-eq-ok, ok_eq}
use community_stack.Ports.{toolkit, Response, DocumentEngine, SecureLog}
use community_stack.Store.Tables.{Database}
use community_stack.Store.Commit.{apply_projections, append_record}
use community_stack.Store.Commit.Views.{Viewed, commit-Viewed, single-projection}
use community_stack.Store.Projection.{apply_projection}
use community_stack.Store.Projection.Toolkit.{apply_toolkit}
use community_stack.Application.Mutate.{document_key}
use community_stack.Application.Mutate.Retry.{Carried, mutate-Outcome}
use community_stack.Application.Toolkit.Writes.{Encoding, toolkit_mutation}
use community_stack.Application.Toolkit.Handlers.{write}

-- The record's view was applied to the toolkit of the first database, and is in the second.
pub record Written (app community : String) (p : ToolkitProjection) (a b : Database) : Type 0 where
  pub hash : Hash
  pub before : Database
  pub after : Database
  pub same : before.toolkit ≡ a.toolkit
  pub applied : apply_toolkit app community hash p before ≡ ok after
  pub toolkit_ : b.toolkit ≡ after.toolkit

module _ (engine : DocumentEngine) (secure : SecureLog) (encoding : Encoding) (peer : ℕ) where
  Carried-Written :
      (now : ℕ) (app : String) (r : MutateDocument) (hash : Hash) (p : ToolkitProjection)
      (a : Database) (response : Response) (b : Database)
      → Carried now app (document_key app r) r hash (toolkit p ∷ []) a response b
      → Written app r.community_id p a b
  unfolding apply_projection
  Carried-Written now app r hash p a response b k =
      let v : Viewed now k.commit (toolkit p ∷ []) a b =
        subst (λ ps. Viewed now k.commit ps a b) k.views (commit-Viewed now k.commit a b k.done) in
      let before = record a { log = append_record k.commit now a.log } in
      let applied =
        subst
          (λ key.
            apply_projections key.app_id key.community_id k.commit.canonical_record.operation_hash
              now (toolkit p ∷ []) before
            ≡ ok v.after)
          k.document v.applied in
      record {
        hash = k.commit.canonical_record.operation_hash;
        before = before;
        after = v.after;
        same = refl;
        applied =
            single-projection app r.community_id k.commit.canonical_record.operation_hash now
              (toolkit p) before v.after applied;
        toolkit_ = v.toolkit;
      }

  -- A write that succeeds has changed nothing, or has written the view of its record.
  pub write-Written :
      (now : ℕ) (app community document_id key : String) (p : ToolkitProjection) (hash : Hash)
      (a b : Database) (response : Response)
      → write engine secure encoding peer now app community document_id key p hash a
        ≡ ok (response, b)
      → (a ≡ b) ⊎ Written app community p a b
  unfolding write toolkit_mutation
  write-Written now app community document_id key p hash a b response e =
      let (r, e₀, e₁) = >>=-eq-ok (toolkit_mutation encoding community document_id key p) _ e in
      let (text, e₂, e₃) = >>=-eq-ok (encoding.canonical_json p) _ e₀ in
      elim (mutate-Outcome engine secure peer now app r hash (toolkit p ∷ []) a response b e₁) [
        | inl (known, same) ↦ inl same
        | inr k ↦
            let w = Carried-Written now app r hash p a response b k in
            let c : r.community_id ≡ community =
              ap (λ (x : MutateDocument). x.community_id) (sym (ok_eq e₃)) in
            inr (subst (λ y. Written app y p a b) c w)
      ]
