-- ===== src/Store/Outbox/Fencing.antt =====
-- The attempt number of a lease tells it from every earlier lease of the record.
use community_stack.Common.{ℕ, String, ◌≡◌, ◌<◌, ◌≤◌, arith, true, In, subst, ap, List}
use community_stack.Domain.Replication.{OutboxItem}
use community_stack.Failure.{ok}
use community_stack.Store.Tables.{Database}
use community_stack.Store.Outbox.{candidates, lease_attempt, claim_outbox}
use community_stack.Store.Outbox.Lease.{claim_each_attempt}
use community_stack.Store.Outbox.Steps.{Steps, claim-eq-ok}
use community_stack.Store.Outbox.Settled.{Steps-grow}

claimed_attempt :
    (now : ℕ) (t : String) (limit m : ℕ) (items : List OutboxItem) (a b : Database) (i : OutboxItem)
    → claim_outbox now t limit m a ≡ ok (items, b)
    → In i items
    → (lease_attempt i.operation_hash t a.deliveries < i.lease_attempt)
      × (i.lease_attempt ≤ lease_attempt i.operation_hash t b.deliveries)
claimed_attempt now t limit m items a b i e mi =
    let shape = claim-eq-ok now t limit m items a b e in
    let bounds =
      claim_each_attempt t m now true 0 (candidates t limit now a) a.deliveries i
        (subst (In i) shape.0 mi) in
    (bounds.0, omega (arith, bounds.1, ap (lease_attempt i.operation_hash t) shape.1))

-- When a transport gets the same record a second time, after any commits, claims and
-- acknowledgements, the second lease has a greater attempt number.
pub attempts_increase :
    (from now later : ℕ) (t : String) (limit m limit' m' : ℕ) (items items' : List OutboxItem)
    (a b c d : Database) (i j : OutboxItem)
    → claim_outbox now t limit m a ≡ ok (items, b)
    → Steps from b c
    → claim_outbox later t limit' m' c ≡ ok (items', d)
    → In i items
    → In j items'
    → i.operation_hash ≡ j.operation_hash
    → i.lease_attempt < j.lease_attempt
attempts_increase from now later t limit m limit' m' items items' a b c d i j e steps e' mi mj
      same =
    omega (
      arith,
      (claimed_attempt now t limit m items a b i e mi).1,
      Steps-grow from i.operation_hash t b c steps,
      ap (λ h. lease_attempt h t c.deliveries) same,
      (claimed_attempt later t limit' m' items' c d j e' mj).0,
    )
