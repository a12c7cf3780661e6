-- ===== src/Application/Facts/Lifecycle.antt =====
-- The lives of claims that the lifecycle check admits.
use community_stack.Common.{◌≡◌, ◌⊎◌, true, none, some, List, [], ◌∷◌}
use community_stack.Domain.Facts.{FactLifecycleStatus, FactSchema, FactCurrentRevision}
use community_stack.Failure.{ok}
use community_stack.Application.Facts.{validate_lifecycle_transition}

-- The revisions of a claim, the last one first, each of them admitted after those before it.
pub data Life (schema : FactSchema) : List FactCurrentRevision → Type 0 where
  born :
      (r : FactCurrentRevision)
      → validate_lifecycle_transition none r.lifecycle_status schema ≡ ok tt
      → Life schema (r ∷ [])
  revised :
      {p : FactCurrentRevision} {rs : List FactCurrentRevision} (r : FactCurrentRevision)
      → Life schema (p ∷ rs)
      → validate_lifecycle_transition (some p) r.lifecycle_status schema ≡ ok tt
      → Life schema (r ∷ p ∷ rs)

abbrev pub IsFinal : FactLifecycleStatus → Type 0
IsFinal s = (s ≡ FactLifecycleStatus.retracted) ⊎ (s ≡ FactLifecycleStatus.expired)

-- What the policy of a schema says of a revision that is not the first.
abbrev pub Permits : FactSchema → FactLifecycleStatus → Type 0
Permits schema FactLifecycleStatus.asserted = schema.lifecycle_policy.allow_supersession ≡ true
Permits schema FactLifecycleStatus.superseded = Unit
Permits schema FactLifecycleStatus.retracted = schema.lifecycle_policy.allow_retraction ≡ true
Permits schema FactLifecycleStatus.disputed = schema.lifecycle_policy.allow_dispute ≡ true
Permits schema FactLifecycleStatus.expired = schema.lifecycle_policy.allow_expiry ≡ true

module _ (schema : FactSchema) (p : FactCurrentRevision) (earlier : List FactCurrentRevision) where
  -- What is said of the revision `p` that stands between `earlier` and `later` ones.
  abbrev pub IsInOrder : List FactCurrentRevision → Type 0
  IsInOrder later =
      (IsFinal p.lifecycle_status → later ≡ [])
      × (((earlier ≡ []) × (p.lifecycle_status ≡ FactLifecycleStatus.asserted))
          ⊎ Permits schema p.lifecycle_status)
