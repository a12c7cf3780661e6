-- ===== src/Store/Commit/Frame.antt =====
-- What the views of a commit leave alone: the signed log, the deliveries, the stored responses and
-- the grants.
use community_stack.Common.{ℕ, String, ◌≡◌, refl, ◌∙◌, List, [], ◌∷◌, arith}
use community_stack.Domain.Replication.{Hash}
use community_stack.Domain.Planning.{PlanningProjectionWrite}
use community_stack.Domain.Facts.{FactRevisionProjection}
use community_stack.Domain.Toolkit.{ToolkitProjection}
use community_stack.Failure.{ok, >>=-eq-ok}
use community_stack.Ports.{ProjectionWrite, fact_revision, planning, toolkit}
use community_stack.Store.Tables.{Database}
use community_stack.Store.Projection.{apply_projection}
use community_stack.Store.Projection.Facts.{apply_fact, write_fact}
use community_stack.Store.Projection.Planning.{apply_planning}
use community_stack.Store.Projection.Toolkit.{apply_toolkit}
use community_stack.Store.Commit.{apply_projections}

pub record SameCore (a b : Database) : Type 0 where
  pub log : b.log ≡ a.log
  pub deliveries : b.deliveries ≡ a.deliveries
  pub idempotency : b.idempotency ≡ a.idempotency
  pub grants : b.grants ≡ a.grants

SameCore-refl : (a : Database) → SameCore a a
SameCore-refl a = record { log = refl; deliveries = refl; idempotency = refl; grants = refl }

SameCore-trans : {a b c : Database} → SameCore a b → SameCore b c → SameCore a c
SameCore-trans f g = record {
  log = g.log ∙ f.log;
  deliveries = g.deliveries ∙ f.deliveries;
  idempotency = g.idempotency ∙ f.idempotency;
  grants = g.grants ∙ f.grants;
}

fact-SameCore :
    (app : String) (h : Hash) (p : FactRevisionProjection) (now : ℕ) (a b : Database)
    → apply_fact app h p now a ≡ ok b
    → SameCore a b
unfolding apply_fact write_fact
fact-SameCore app h p now a b e = ground arith

planning-SameCore :
    (app community : String) (h : Hash) (w : PlanningProjectionWrite) (a b : Database)
    → apply_planning app community h w a ≡ ok b
    → SameCore a b
unfolding apply_planning
planning-SameCore app community h w a b e = ground arith

toolkit-SameCore :
    (app community : String) (h : Hash) (p : ToolkitProjection) (a b : Database)
    → apply_toolkit app community h p a ≡ ok b
    → SameCore a b
unfolding apply_toolkit
toolkit-SameCore app community h p a b e = ground arith

projection-SameCore :
    (app community : String) (h : Hash) (p : ProjectionWrite) (now : ℕ) (a b : Database)
    → apply_projection app community h p now a ≡ ok b
    → SameCore a b
unfolding apply_projection
projection-SameCore app community h (fact_revision p) now a b e = fact-SameCore app h p now a b e
projection-SameCore app community h (planning w) now a b e =
    planning-SameCore app community h w a b e
projection-SameCore app community h (toolkit p) now a b e = toolkit-SameCore app community h p a b e

pub projections-SameCore :
    (app community : String) (h : Hash) (now : ℕ) (ps : List ProjectionWrite) (a b : Database)
    → apply_projections app community h now ps a ≡ ok b
    → SameCore a b
unfolding apply_projections
projections-SameCore app community h now [] a b e = ground arith
projections-SameCore app community h now (p ∷ ps) a b e =
    let (c, first, rest) = >>=-eq-ok (apply_projection app community h p now a) _ e in
    SameCore-trans (projection-SameCore app community h p now a c first)
      (projections-SameCore app community h now ps c b rest)
