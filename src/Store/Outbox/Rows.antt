-- ===== src/Store/Outbox/Rows.antt =====
-- The delivery rows of the outbox: what a lease changes, and which records a claim considers.
use community_stack.Common.{
  ℕ, suc, String, Bool, true, false, ◌+◌, ◌≡◌, ◌≢◌, ◌≤◌, refl, sym, ap, subst, List, [], ◌∷◌,
  Option, none, some, ◌==◌, ==_iff, str_eq_iff, arith, if◌then◌else◌, find, min, In, In-take,
  In-filter_map, find-In, find-holds, ◌⊎◌, inl, inr, Bool-cases,
}
use community_stack.Common.Sort.{In-sort}
use community_stack.Domain.Replication.{Hash}
use community_stack.Store.Tables.{Operation, OutboxRow, Delivery, DeliveryState, Database}
use community_stack.Store.Outbox.{
  Candidate, of_delivery, is_open, is_claimable, candidate, join_row, candidate_before, candidates,
  lease_ms, first_lease, lease_again, lease_row, lease_attempt,
}

-- A row that no claim at a time up to `n` takes.
pub record IsHeld (n : ℕ) (d : Delivery) : Type 0 where
  pub claimed : d.state ≡ DeliveryState.claimed
  pub until : ℕ
  pub lease : d.lease_until_ms ≡ some until
  pub late : n ≤ until

abbrev pub IsSettled : Delivery → Type 0
IsSettled d = (d.state ≡ DeliveryState.delivered) ⊎ (d.state ≡ DeliveryState.rejected)

pub find_first : (h : Hash) (t : String) (now : ℕ) → of_delivery h t (first_lease h t now) ≡ true
unfolding of_delivery
find_first h t now = ground (arith, ==_iff h h, str_eq_iff t t)

-- The leased row is the one found under its key.
pub find-lease_row :
    (h : Hash) (t : String) (now : ℕ) (ds : List Delivery)
    → (d : Delivery) × (find (of_delivery h t) (lease_row h t now ds) ≡ some d)
      × (d.state ≡ DeliveryState.claimed)
      × (d.lease_until_ms ≡ some (now + lease_ms))
      × (d.attempts ≡ suc (lease_attempt h t ds))
unfolding find lease_row of_delivery lease_attempt
find-lease_row h t now [] = (first_lease h t now, rw (find_first h t now), refl, refl, refl)
find-lease_row h t now (x ∷ ds) = elim (Bool-cases (of_delivery h t x)) [
  | inl b ↦
      let again : of_delivery h t (lease_again now x) ≡ true = b in
      (lease_again now x, rw (b, again), refl, refl, ground (arith, b))
  | inr b ↦
      let (y, f, s, l, g) = find-lease_row h t now ds in
      (y, rw (b, b) f, s, l, ground (arith, b, g))
]

-- A lease leaves the rows of every other key.
pub find-lease_row_other :
    (h k : Hash) (t u : String) (now : ℕ) (ds : List Delivery)
    → (k ≢ h) ⊎ (u ≢ t)
    → find (of_delivery k u) (lease_row h t now ds) ≡ find (of_delivery k u) ds
unfolding find lease_row of_delivery
find-lease_row_other h k t u now [] ne = ground (arith, ==_iff h k, str_eq_iff t u, ne)
find-lease_row_other h k t u now (x ∷ ds) ne = ground (
  arith,
  ==_iff x.operation_hash h,
  ==_iff x.operation_hash k,
  str_eq_iff x.transport t,
  str_eq_iff x.transport u,
  ne,
  find-lease_row_other h k t u now ds ne,
)

-- What the query joins for a row of the outbox.
pub join_row-eq-some :
    (t : String) (now : ℕ) (db : Database) (q : OutboxRow) (c : Candidate)
    → join_row t now db q ≡ some c
    → (q.available_at_ms ≤ now)
      × (is_open now (find (of_delivery c.operation_hash t) db.deliveries) ≡ true)
      × ((o : Operation) × In o db.log.operations
          × (o.operation_hash ≡ q.operation_hash)
          × (c ≡ candidate q o))
unfolding join_row is_claimable
join_row-eq-some t now db q c e = go _ refl e
  where
    p : Operation → Bool
    p o = o.operation_hash == q.operation_hash

    go :
        (f : Option Operation)
        → find p db.log.operations ≡ f
        → (if is_claimable t now db.deliveries q
            then elim f [ none ↦ none | some o ↦ some (candidate q o) ]
            else none)
          ≡ some c
        → (q.available_at_ms ≤ now)
          × (is_open now (find (of_delivery c.operation_hash t) db.deliveries) ≡ true)
          × ((o : Operation) × In o db.log.operations
              × (o.operation_hash ≡ q.operation_hash)
              × (c ≡ candidate q o))
    go none f e = absurd (ground arith)
    go (some o) f e =
        let is : candidate q o ≡ c = ground arith in
        let same : q.operation_hash ≡ c.operation_hash =
          ap (λ (x : Candidate). x.operation_hash) is in
        (
          ground arith,
          subst (λ h. is_open now (find (of_delivery h t) db.deliveries) ≡ true) same
              (ground arith),
          (
            o,
            find-In p db.log.operations o f,
            (==_iff _ _).0 (find-holds p db.log.operations o f),
            sym is,
          ),
        )

-- A candidate joins a row of the outbox that is open to the transport with its operation.
pub In-candidates :
    (t : String) (now limit : ℕ) (db : Database) (c : Candidate)
    → In c (candidates t limit now db)
    → (q : OutboxRow) × In q db.log.outbox × (join_row t now db q ≡ some c)
unfolding candidates
In-candidates t now limit db c m =
    In-filter_map (join_row t now db) db.log.outbox c
      ((In-sort candidate_before c _).0 (In-take (min limit 256) _ c m))

pub candidate_open :
    (t : String) (now limit : ℕ) (db : Database) (c : Candidate)
    → In c (candidates t limit now db)
    → is_open now (find (of_delivery c.operation_hash t) db.deliveries) ≡ true
candidate_open t now limit db c m =
    let (q, i, e) = In-candidates t now limit db c m in (join_row-eq-some t now db q c e).1

-- A settled row is closed to every claim.
pub settled_closed : (now : ℕ) (d : Delivery) → IsSettled d → is_open now (some d) ≡ false
unfolding is_open
settled_closed now d (inl e) = rw e
settled_closed now d (inr e) = rw e

-- A held row is closed until its lease ends.
pub held_closed : (now n : ℕ) (d : Delivery) → IsHeld n d → now ≤ n → is_open now (some d) ≡ false
unfolding is_open
held_closed now n d held le =
    let late = held.late in rw (held.claimed, held.lease) (ground (arith, late, le))
