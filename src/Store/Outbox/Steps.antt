-- ===== src/Store/Outbox/Steps.antt =====
-- What happens to the outbox over time: commits, claims by any transport and acknowledgements, in any
-- order, by a clock that does not go back behind `from`.
use community_stack.Common.{
  ℕ, String, true, ◌≡◌, ◌≤◌, refl, List, [], ◌∷◌, none, some, arith, if◌then◌else◌, find, update,
  any, ◌⊎◌, inl, inr,
}
use community_stack.Domain.Replication.{
  Hash, OutboxItem, AckOutbox, DeliveryAck, stored, applied, pending_deps, rejected,
}
use community_stack.Failure.{ok, >>=-eq-ok}
use community_stack.Ports.{LocalCommit}
use community_stack.Store.Tables.{Delivery, DeliveryState, Database}
use community_stack.Store.Commit.{commit_local}
use community_stack.Store.Outbox.{
  validate_id, of_delivery, candidates, claim_each, claim_outbox, ack_state, is_leased, settle,
  ack_outbox,
}
use community_stack.Store.Outbox.Rows.{IsSettled}

pub data Step : ℕ → Database → Database → Type 0 where
  committed :
      {from : ℕ} {a b : Database} (now : ℕ) (c : LocalCommit)
      → commit_local now c a ≡ ok b
      → Step from a b
  claimed :
      {from : ℕ} {a b : Database} (now : ℕ) (t : String) (limit max_bytes : ℕ)
      (items : List OutboxItem)
      → from ≤ now
      → claim_outbox now t limit max_bytes a ≡ ok (items, b)
      → Step from a b
  acknowledged :
      {from : ℕ} {a b : Database} (now : ℕ) (ack : AckOutbox)
      → ack_outbox now ack a ≡ ok b
      → Step from a b

pub data Steps : ℕ → Database → Database → Type 0 where
  done : {from : ℕ} {a : Database} → Steps from a a
  next : {from : ℕ} {a b c : Database} → Step from a b → Steps from b c → Steps from a c

-- What a successful claim hands out and leaves.
pub claim-eq-ok :
    (now : ℕ) (t : String) (limit max_bytes : ℕ) (items : List OutboxItem) (a b : Database)
    → claim_outbox now t limit max_bytes a ≡ ok (items, b)
    → let r = claim_each t max_bytes now true 0 (candidates t limit now a) a.deliveries in
      (items ≡ r.0) × (b.deliveries ≡ r.1)
unfolding claim_outbox
claim-eq-ok now t limit max_bytes items a b e =
    let (u, v, w) = >>=-eq-ok (validate_id t "transport") _ e in (ground arith, ground arith)

-- What a successful acknowledgement leaves.
pub ack-eq-ok :
    (now : ℕ) (ack : AckOutbox) (a b : Database)
    → ack_outbox now ack a ≡ ok b
    → (any (is_leased ack now) a.deliveries ≡ true)
      × (b.deliveries ≡ update (is_leased ack now) (settle ack now) a.deliveries)
unfolding ack_outbox
ack-eq-ok now ack a b e =
    let (u, v, w) = >>=-eq-ok (validate_id ack.transport "transport") _ e in
    (ground arith, ground arith)

-- An acknowledged row stays under its key.
pub find-settle :
    (k : Hash) (u : String) (ack : AckOutbox) (now : ℕ) (ds : List Delivery)
    → find (of_delivery k u) (update (is_leased ack now) (settle ack now) ds)
      ≡ elim (find (of_delivery k u) ds) [
        | none ↦ none
        | some d ↦ some (if is_leased ack now d then settle ack now d else d)
      ]
unfolding find update of_delivery
find-settle k u ack now [] = refl
find-settle k u ack now (x ∷ ds) = ground (arith, find-settle k u ack now ds)

pub settle-IsSettled : (ack : AckOutbox) (now : ℕ) (d : Delivery) → IsSettled (settle ack now d)
settle-IsSettled ack now d = of ack.status
  where
    of :
        (s : DeliveryAck)
        → ((ack_state s).0 ≡ DeliveryState.delivered) ⊎ ((ack_state s).0 ≡ DeliveryState.rejected)
    of stored = inl refl
    of applied = inl refl
    of pending_deps = inl refl
    of rejected = inr refl
