-- ===== src/Store/Outbox/Exclusion.antt =====
-- A record is worked on by one holder at a time, an acknowledgement is final, and the attempt number
-- of a lease tells it from every earlier one.
use community_stack.Common.{
  ℕ, String, true, false, ◌≡◌, ◌≢◌, ◌≤◌, ◌+◌, sym, ap, ◌∙◌, subst, List, some, arith, find, In, ◌⊎◌,
  inl, inr, Bool-cases,
}
use community_stack.Domain.Replication.{Hash, OutboxItem, AckOutbox}
use community_stack.Failure.{ok}
use community_stack.Store.Tables.{Delivery, DeliveryState, Database}
use community_stack.Store.Commit.Shape.{commit-Committed}
use community_stack.Store.Outbox.{
  of_delivery, is_open, candidates, lease_ms, claim_outbox, is_leased, settle, ack_outbox,
}
use community_stack.Store.Outbox.Rows.{
  IsHeld, IsSettled, candidate_open, settled_closed, held_closed,
}
use community_stack.Store.Outbox.Lease.{Has, claim_each-In, claim_each-Has, claim_each-leased}
use community_stack.Store.Outbox.Steps.{
  Step, committed, claimed, acknowledged, Steps, done, next, claim-eq-ok, ack-eq-ok, find-settle,
  settle-IsSettled,
}

abbrev IsWithheld : ℕ → Delivery → Type 0
IsWithheld n d = IsHeld n d ⊎ IsSettled d

new_lease :
    (n now : ℕ) (d : Delivery)
    → n ≤ now + lease_ms
    → d.state ≡ DeliveryState.claimed
    → d.lease_until_ms ≡ some (now + lease_ms)
    → IsHeld n d
new_lease n now d le s l = record { claimed = s; until = now + lease_ms; lease = l; late = le }

-- An acknowledgement of any row keeps a property that settled rows have.
pub ack-Has :
    (P : Delivery → Type 0) (k : Hash) (u : String) (now : ℕ) (ack : AckOutbox) (a b : Database)
    → ((d : Delivery) → IsSettled d → P d)
    → ack_outbox now ack a ≡ ok b
    → Has P k u a.deliveries
    → Has P k u b.deliveries
ack-Has P k u now ack a b settled e (d, f, p) =
    let row = (ack-eq-ok now ack a b e).1 in
    let found = ap (find (of_delivery k u)) row ∙ find-settle k u ack now a.deliveries in
    elim (Bool-cases (is_leased ack now d)) [
      | inl q ↦ (settle ack now d, found ∙ rw (f, q), settled _ (settle-IsSettled ack now d))
      | inr q ↦ (d, found ∙ rw (f, q), p)
    ]

-- A withheld row is withheld after every step, if no lease begun meanwhile ends before `n`.
Step-IsWithheld :
    (n from : ℕ) (k : Hash) (u : String) (a b : Database)
    → n ≤ from + lease_ms
    → Step from a b
    → Has (IsWithheld n) k u a.deliveries
    → Has (IsWithheld n) k u b.deliveries
Step-IsWithheld n from k u a b le (committed now c e) h =
    subst (Has (IsWithheld n) k u) (sym (commit-Committed now c a b e).deliveries) h
Step-IsWithheld n from k u a b le (claimed now t limit m items since e) h =
    subst (Has (IsWithheld n) k u) (sym (claim-eq-ok now t limit m items a b e).1) (
      claim_each-Has t m now (IsWithheld n) k u
        (λ d s l. inl (new_lease n now d (omega (arith, le, since)) s l)) true 0 _ a.deliveries h)
Step-IsWithheld n from k u a b le (acknowledged now ack e) h =
    ack-Has (IsWithheld n) k u now ack a b (λ d s. inr s) e h

Steps-IsWithheld :
    (n from : ℕ) (k : Hash) (u : String) (a b : Database)
    → n ≤ from + lease_ms
    → Steps from a b
    → Has (IsWithheld n) k u a.deliveries
    → Has (IsWithheld n) k u b.deliveries
Steps-IsWithheld n from k u a b le done h = h
Steps-IsWithheld n from k u a b le (next {b = c} s r) h =
    Steps-IsWithheld n from k u c b le r (Step-IsWithheld n from k u a c le s h)

-- A claim hands out no record whose row is closed.
pub claim_skips :
    (now : ℕ) (t : String) (limit m : ℕ) (items : List OutboxItem) (a b : Database) (j : OutboxItem)
    → claim_outbox now t limit m a ≡ ok (items, b)
    → In j items
    → is_open now (find (of_delivery j.operation_hash t) a.deliveries) ≡ true
claim_skips now t limit m items a b j e i =
    let (c, l, q) =
      claim_each-In t m now true 0 (candidates t limit now a) a.deliveries j
        (subst (In j) (claim-eq-ok now t limit m items a b e).0 i) in
    subst (λ h. is_open now (find (of_delivery h t) a.deliveries) ≡ true) (sym q)
      (candidate_open t now limit a c l)

pub closed_out :
    (now : ℕ) (k : Hash) (t : String) (limit m : ℕ) (items : List OutboxItem) (a b : Database)
    (j : OutboxItem) (d : Delivery)
    → claim_outbox now t limit m a ≡ ok (items, b)
    → In j items
    → find (of_delivery k t) a.deliveries ≡ some d
    → is_open now (some d) ≡ false
    → j.operation_hash ≢ k
closed_out now k t limit m items a b j d e i f closed = λ same.
    let open_ =
      subst (λ h. is_open now (find (of_delivery h t) a.deliveries) ≡ true) same
        (claim_skips now t limit m items a b j e i) in
    absurd (ground (arith, ap (is_open now) (sym f), closed, open_))

-- While a lease runs, no other claim of the transport gets its record, whatever commits, claims and
-- acknowledgements come between.
pub lease_excludes :
    (now later : ℕ) (t : String) (limit m limit' m' : ℕ) (items items' : List OutboxItem)
    (a b c d : Database) (i j : OutboxItem)
    → claim_outbox now t limit m a ≡ ok (items, b)
    → Steps now b c
    → later ≤ now + lease_ms
    → claim_outbox later t limit' m' c ≡ ok (items', d)
    → In i items
    → In j items'
    → j.operation_hash ≢ i.operation_hash
lease_excludes now later t limit m limit' m' items items' a b c d i j e steps le e' mi mj =
    let shape = claim-eq-ok now t limit m items a b e in
    let held : Has (IsWithheld (now + lease_ms)) i.operation_hash t b.deliveries =
      subst (Has (IsWithheld (now + lease_ms)) i.operation_hash t) (sym shape.1) (
        claim_each-leased t m now (IsWithheld (now + lease_ms))
          (λ x s l. inl (new_lease (now + lease_ms) now x (omega arith) s l)) true 0
          (candidates t limit now a) a.deliveries i (subst (In i) shape.0 mi)) in
    let (x, f, w) =
      Steps-IsWithheld (now + lease_ms) now i.operation_hash t b c (omega arith) steps held in
    closed_out later i.operation_hash t limit' m' items' c d j x e' mj f (elim w [
      | inl h ↦ held_closed later (now + lease_ms) x h le
      | inr s ↦ settled_closed later x s
    ])
