-- ===== src/Store/Outbox/Holder.antt =====
-- The holder of a lease can acknowledge its record while the lease runs.
use community_stack.Common.{
  ℕ, suc, zero, ◌+◌, ◌≤◌, ◌≡◌, ◌≢◌, refl, sym, ap, ◌∙◌, subst, String, Bool, true, false, not, ◌&&◌,
  List, [], ◌∷◌, Option, none, some, arith, ◌==◌, ==_iff, leb, count, count-In, take, min,
  filter_map, any, find, find-In, find-holds, any-false, In, Bool-cases, ◌⊎◌, inl, inr,
  Option-cases, if◌then◌else◌,
}
use community_stack.Common.Sort.{sort, count-sort}
use community_stack.Domain.Replication.{Hash, OutboxItem, AckOutbox}
use community_stack.Failure.{ok, >>=-eq-ok}
use community_stack.Store.Tables.{OutboxRow, Delivery, DeliveryState, Database}
use community_stack.Store.Outbox.{
  Candidate, join_row, candidate_before, candidates, lease_ms, of_delivery, lease_row, attempt_of,
  lease_attempt, size, claim_each, claim_outbox, validate_id, is_leased, settle, ack_outbox,
}
use community_stack.Store.Outbox.Rows.{find-lease_row, join_row-eq-some}
use community_stack.Store.Outbox.Lease.{Has, claim_each-other, claim_each-cases}
use community_stack.Store.Outbox.Steps.{claim-eq-ok}

abbrev of_hash : Hash → Candidate → Bool
of_hash h c = c.operation_hash == h

-- The outbox holds an operation once, as its unique column says.
abbrev pub IsDistinct : List OutboxRow → Type 0
IsDistinct qs = (h : Hash) → count (λ q. q.operation_hash == h) qs ≤ 1

count-join :
    (t : String) (now : ℕ) (db : Database) (h : Hash) (qs : List OutboxRow)
    → count (of_hash h) (filter_map (join_row t now db) qs) ≤ count (λ q. q.operation_hash == h) qs
unfolding count filter_map
count-join t now db h [] = omega arith
count-join t now db h (q ∷ qs) = go (join_row t now db q) refl (count-join t now db h qs)
  where
    go :
        (o : Option Candidate)
        → join_row t now db q ≡ o
        → count (of_hash h) (filter_map (join_row t now db) qs)
          ≤ count (λ r. r.operation_hash == h) qs
        → count (of_hash h) (elim o [
          | none ↦ filter_map (join_row t now db) qs
          | some c ↦ c ∷ filter_map (join_row t now db) qs
        ])
          ≤ (if q.operation_hash == h then 1 else 0) + count (λ r. r.operation_hash == h) qs
    go none e le = omega (arith, le)
    go (some c) e le =
        let (o, i, s, same) = (join_row-eq-some t now db q c e).2 in
        let hash : c.operation_hash ≡ q.operation_hash =
          ap (λ (x : Candidate). x.operation_hash) same in
        ground (arith, hash, le)

count-take : (p : Candidate → Bool) (n : ℕ) (cs : List Candidate) → count p (take n cs) ≤ count p cs
unfolding count
count-take p zero cs = omega arith
count-take p (suc n) [] = omega arith
count-take p (suc n) (c ∷ cs) = omega (arith, count-take p n cs)

candidates-distinct :
    (t : String) (now limit : ℕ) (db : Database) (h : Hash)
    → IsDistinct db.log.outbox
    → count (of_hash h) (candidates t limit now db) ≤ 1
unfolding candidates
candidates-distinct t now limit db h distinct = omega (
  arith,
  distinct h,
  count-join t now db h db.log.outbox,
  count-sort candidate_before (of_hash h) (filter_map (join_row t now db) db.log.outbox),
  count-take (of_hash h) (min limit 256)
      (sort candidate_before (filter_map (join_row t now db) db.log.outbox)),
)

-- The row of an item carries the item's attempt number and the end of its lease.
abbrev IsHeldBy : ℕ → OutboxItem → Delivery → Type 0
IsHeldBy now i d =
    (d.state ≡ DeliveryState.claimed)
    × (d.lease_until_ms ≡ some (now + lease_ms))
    × (d.attempts ≡ i.lease_attempt)

module _ (t : String) (max_bytes now : ℕ) where
  item_row :
      (first : Bool) (used : ℕ) (cs : List Candidate) (ds : List Delivery) (i : OutboxItem)
      → ((h : Hash) → count (of_hash h) cs ≤ 1)
      → In i (claim_each t max_bytes now first used cs ds).0
      → Has (IsHeldBy now i) i.operation_hash t (claim_each t max_bytes now first used cs ds).1
  unfolding claim_each count lease_attempt
  item_row first used [] ds i distinct m = absurd m
  item_row first used (c ∷ cs) ds i distinct m =
      let fewer : (h : Hash) → count (of_hash h) cs ≤ 1 = λ h. omega (arith, distinct h) in
      elim (claim_each-cases t max_bytes now first used c cs ds) [
        | inl e ↦ absurd (subst (λ r. In i r.0) e m)
        | inr (inl e) ↦
            subst (λ r. Has (IsHeldBy now i) i.operation_hash t r.1) (sym e)
              (item_row first used cs ds i fewer (subst (λ r. In i r.0) e m))
        | inr (inr e) ↦
            let leased = lease_row c.operation_hash t now ds in
            let rest = claim_each t max_bytes now false (used + size c) cs leased in
            let (d, f, s, l, g) = find-lease_row c.operation_hash t now ds in
            let others : (x : Candidate)
                → In x cs
                → (c.operation_hash ≢ x.operation_hash) ⊎ (t ≢ t) =
              λ x k. inl (λ same. absurd (
                ground (
                  arith,
                  distinct c.operation_hash,
                  ==_iff c.operation_hash c.operation_hash,
                  count-In (of_hash c.operation_hash) cs x k
                      ((==_iff x.operation_hash c.operation_hash).1 (sym same)),
                ))) in
            let kept =
              claim_each-other t max_bytes now c.operation_hash t false (used + size c) cs leased
                others in
            subst (λ r. Has (IsHeldBy now i) i.operation_hash t r.1) (sym e.0)
              (elim (subst (λ r. In i r.0) e.0 m) [
                | inl q ↦
                    subst (λ (y : OutboxItem). Has (IsHeldBy now y) y.operation_hash t rest.1) q
                      (d, kept ∙ f, (s, l, ap attempt_of (sym f)))
                | inr n ↦ item_row false (used + size c) cs leased i fewer n
              ])
      ]

any_of-In :
    (p : Delivery → Bool) (ds : List Delivery) (d : Delivery)
    → In d ds
    → p d ≡ true
    → any p ds ≡ true
any_of-In p ds d m h = elim (Bool-cases (any p ds)) [
  | inl e ↦ e
  | inr e ↦ absurd (ground (arith, any-false p ds e d m, h))
]

-- A transport that got a record can acknowledge it, with the attempt number that came with it, until
-- the lease ends, if nothing else happens between. The outbox holds every operation once.
pub holder_can_acknowledge :
    (now later : ℕ) (limit m : ℕ) (items : List OutboxItem) (a b : Database) (i : OutboxItem)
    (ack : AckOutbox)
    → IsDistinct a.log.outbox
    → claim_outbox now ack.transport limit m a ≡ ok (items, b)
    → In i items
    → ack.operation_hash ≡ i.operation_hash
    → ack.lease_attempt ≡ i.lease_attempt
    → later ≤ now + lease_ms
    → (c : Database) × (ack_outbox later ack b ≡ ok c)
unfolding ack_outbox is_leased claim_outbox
holder_can_acknowledge now later limit m items a b i ack distinct e mi hash attempt le =
    let (u, valid, v) = >>=-eq-ok (validate_id ack.transport "transport") _ e in
    let shape = claim-eq-ok now ack.transport limit m items a b e in
    let (d, f, (s, l, n)) =
      item_row ack.transport m now true 0 (candidates ack.transport limit now a) a.deliveries i
        (λ h. candidates-distinct ack.transport now limit a h distinct) (subst (In i) shape.0 mi) in
    let found : find (of_delivery i.operation_hash ack.transport) b.deliveries ≡ some d =
      ap (find (of_delivery i.operation_hash ack.transport)) shape.1 ∙ f in
    let own : of_delivery ack.operation_hash ack.transport d ≡ true =
      subst (λ h. of_delivery h ack.transport d ≡ true) (sym hash)
        (find-holds _ b.deliveries d found) in
    let leased : is_leased ack later d ≡ true = rw (own, s, l) (ground (arith, n, attempt, le)) in
    let there =
      any_of-In (is_leased ack later) b.deliveries d (find-In _ b.deliveries d found) leased in
    (
      record b {
        deliveries =
            community_stack.Common.update (is_leased ack later) (settle ack later) b.deliveries;
      },
      rw (valid, there) refl,
    )
