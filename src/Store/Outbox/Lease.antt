-- ===== src/Store/Outbox/Lease.antt =====
-- What a claim does to the delivery rows: the records that it hands out are held for the length of
-- the lease, the others keep their rows, and the attempt number only grows.
use community_stack.Common.{
  ℕ, suc, String, Bool, true, false, not, ◌&&◌, ◌+◌, ◌≡◌, ◌≢◌, ◌≤◌, ◌<◌, refl, sym, ap, ap₂, ◌∙◌,
  subst, List, [], ◌∷◌, some, ◌==◌, ==_iff, str_eq, str_eq_iff, ltb, arith, find, In, ◌⊎◌, inl, inr,
  Bool-cases,
}
use community_stack.Domain.Replication.{Hash, OutboxItem}
use community_stack.Store.Tables.{Delivery, DeliveryState}
use community_stack.Store.Outbox.{
  Candidate, of_delivery, lease_ms, lease_row, attempt_of, lease_attempt, size, item, claim_each,
}
use community_stack.Store.Outbox.Rows.{find-lease_row, find-lease_row_other}

-- The row of a record and a transport is there, and `P` holds of it.
abbrev pub Has : (Delivery → Type 0) → Hash → String → List Delivery → Type 0
Has P k u ds = (d : Delivery) × (find (of_delivery k u) ds ≡ some d) × P d

pub same_key : (h k : Hash) (t u : String) → ((k ≡ h) × (u ≡ t)) ⊎ ((k ≢ h) ⊎ (u ≢ t))
same_key h k t u = elim (Bool-cases (k == h)) [
  | inl a ↦ elim (Bool-cases (str_eq u t)) [
    | inl b ↦ inl ((==_iff k h).0 a, (str_eq_iff u t).0 b)
    | inr b ↦ inr (inr (λ e. absurd (ground (arith, str_eq_iff u t, b, e))))
  ]
  | inr a ↦ inr (inl (λ e. absurd (ground (arith, ==_iff k h, a, e))))
]

-- The row after a lease, for every key.
lease_row-Has :
    (P : Delivery → Type 0) (h k : Hash) (t u : String) (now : ℕ) (ds : List Delivery)
    → ((d : Delivery)
        → d.state ≡ DeliveryState.claimed
        → d.lease_until_ms ≡ some (now + lease_ms)
        → P d)
    → Has P k u ds
    → Has P k u (lease_row h t now ds)
lease_row-Has P h k t u now ds new (d, e, p) = elim (same_key h k t u) [
  | inl (a, b) ↦
      let (x, f, s, l, g) = find-lease_row h t now ds in
      (x, ap₂ (λ y z. find (of_delivery y z) (lease_row h t now ds)) a b ∙ f, new x s l)
  | inr ne ↦ (d, find-lease_row_other h k t u now ds ne ∙ e, p)
]

module _ (t : String) (max_bytes now : ℕ) where
  -- One turn of the loop stops, passes a record that is too large, or takes the record.
  pub claim_each-cases :
      (first : Bool) (used : ℕ) (c : Candidate) (cs : List Candidate) (ds : List Delivery)
      → (claim_each t max_bytes now first used (c ∷ cs) ds ≡ ([], ds))
        ⊎ (claim_each t max_bytes now first used (c ∷ cs) ds
            ≡ claim_each t max_bytes now first used cs ds)
        ⊎ ((claim_each t max_bytes now first used (c ∷ cs) ds ≡ (
          item c (lease_attempt c.operation_hash t (lease_row c.operation_hash t now ds))
              ∷ (claim_each t max_bytes now false
                  (used + size c)
                  cs
                  (lease_row c.operation_hash t now ds)).0,
          (claim_each t max_bytes now false
              (used + size c)
              cs
              (lease_row c.operation_hash t now ds)).1,
        ))
            × (size c ≤ max_bytes)
            × ((first ≡ true) ⊎ (used + size c ≤ max_bytes)))
  unfolding claim_each
  claim_each-cases first used c cs ds =
      elim (Bool-cases (not first && ltb max_bytes (used + size c))) [
        | inl a ↦ inl (ground arith)
        | inr a ↦ elim (Bool-cases (ltb max_bytes (size c))) [
          | inl b ↦ inr (inl (rw (a, b)))
          | inr b ↦ inr (inr (rw (a, b), ground arith, fits first a))
        ]
      ]
    where
      fits :
          (f : Bool)
          → (not f && ltb max_bytes (used + size c)) ≡ false
          → (f ≡ true) ⊎ (used + size c ≤ max_bytes)
      fits true e = inl refl
      fits false e = inr (ground arith)

  -- Records that are not candidates keep their rows.
  pub claim_each-other :
      (k : Hash) (u : String) (first : Bool) (used : ℕ) (cs : List Candidate) (ds : List Delivery)
      → ((c : Candidate) → In c cs → (k ≢ c.operation_hash) ⊎ (u ≢ t))
      → find (of_delivery k u) (claim_each t max_bytes now first used cs ds).1
        ≡ find (of_delivery k u) ds
  unfolding claim_each
  claim_each-other k u first used [] ds other = refl
  claim_each-other k u first used (c ∷ cs) ds other =
      let leased = lease_row c.operation_hash t now ds in
      ground (
        arith,
        claim_each-other k u first used cs ds (λ d m. other d (inr m)),
        claim_each-other k u false (used + size c) cs leased (λ d m. other d (inr m)),
        find-lease_row_other c.operation_hash k t u now ds (other c (inl refl)),
      )

  -- Every item is a candidate's.
  pub claim_each-In :
      (first : Bool) (used : ℕ) (cs : List Candidate) (ds : List Delivery) (i : OutboxItem)
      → In i (claim_each t max_bytes now first used cs ds).0
      → (c : Candidate) × In c cs × (i.operation_hash ≡ c.operation_hash)
  unfolding claim_each
  claim_each-In first used [] ds i m = absurd m
  claim_each-In first used (c ∷ cs) ds i m = elim (claim_each-cases first used c cs ds) [
    | inl e ↦ absurd (subst (λ r. In i r.0) e m)
    | inr (inl e) ↦
        let (d, n, q) = claim_each-In first used cs ds i (subst (λ r. In i r.0) e m) in
        (d, inr n, q)
    | inr (inr e) ↦ elim (subst (λ r. In i r.0) e.0 m) [
      | inl q ↦ (c, inl refl, ap (λ (x : OutboxItem). x.operation_hash) (sym q))
      | inr n ↦ let (d, l, q) = claim_each-In false _ cs _ i n in (d, inr l, q)
    ]
  ]

  -- A property that every new lease has stays true of a row.
  pub claim_each-Has :
      (P : Delivery → Type 0) (k : Hash) (u : String)
      → ((d : Delivery)
          → d.state ≡ DeliveryState.claimed
          → d.lease_until_ms ≡ some (now + lease_ms)
          → P d)
      → (first : Bool) (used : ℕ) (cs : List Candidate) (ds : List Delivery) → Has P k u ds
      → Has P k u (claim_each t max_bytes now first used cs ds).1
  unfolding claim_each
  claim_each-Has P k u new first used [] ds h = h
  claim_each-Has P k u new first used (c ∷ cs) ds h = elim (claim_each-cases first used c cs ds) [
    | inl e ↦ subst (λ r. Has P k u r.1) (sym e) h
    | inr (inl e) ↦ subst (λ r. Has P k u r.1) (sym e) (claim_each-Has P k u new first used cs ds h)
    | inr (inr e) ↦
        subst (λ r. Has P k u r.1) (sym e.0)
          (claim_each-Has P k u new false _ cs _
            (lease_row-Has P c.operation_hash k t u now ds new h))
  ]

  -- Every item's row is a new lease.
  pub claim_each-leased :
      (P : Delivery → Type 0)
      → ((d : Delivery)
          → d.state ≡ DeliveryState.claimed
          → d.lease_until_ms ≡ some (now + lease_ms)
          → P d)
      → (first : Bool) (used : ℕ) (cs : List Candidate) (ds : List Delivery) (i : OutboxItem)
      → In i (claim_each t max_bytes now first used cs ds).0
      → Has P i.operation_hash t (claim_each t max_bytes now first used cs ds).1
  unfolding claim_each
  claim_each-leased P new first used [] ds i m = absurd m
  claim_each-leased P new first used (c ∷ cs) ds i m = elim (claim_each-cases first used c cs ds) [
    | inl e ↦ absurd (subst (λ r. In i r.0) e m)
    | inr (inl e) ↦
        subst (λ r. Has P i.operation_hash t r.1) (sym e)
          (claim_each-leased P new first used cs ds i (subst (λ r. In i r.0) e m))
    | inr (inr e) ↦
        let (x, f, s, l, g) = find-lease_row c.operation_hash t now ds in
        let leased = lease_row c.operation_hash t now ds in
        let rest = claim_each t max_bytes now false (used + size c) cs leased in
        subst (λ r. Has P i.operation_hash t r.1) (sym e.0)
          (elim (subst (λ r. In i r.0) e.0 m) [
            | inl q ↦
                subst (λ (y : OutboxItem). Has P y.operation_hash t rest.1) q
                  (claim_each-Has P c.operation_hash t new false (used + size c) cs leased
                    (x, f, new x s l))
            | inr n ↦ claim_each-leased P new false (used + size c) cs leased i n
          ])
  ]

-- The attempt number of one key.
pub lease_attempt-lease_row :
    (h : Hash) (t : String) (now : ℕ) (ds : List Delivery)
    → lease_attempt h t (lease_row h t now ds) ≡ suc (lease_attempt h t ds)
unfolding lease_attempt
lease_attempt-lease_row h t now ds =
    let (x, f, s, l, g) = find-lease_row h t now ds in rw (lease_attempt, f) g

lease_attempt_grows :
    (h k : Hash) (t u : String) (now : ℕ) (ds : List Delivery)
    → lease_attempt k u ds ≤ lease_attempt k u (lease_row h t now ds)
unfolding lease_attempt
lease_attempt_grows h k t u now ds = elim (same_key h k t u) [
  | inl (a, b) ↦ omega (
    arith,
    lease_attempt-lease_row h t now ds,
    ap₂ (λ y z. lease_attempt y z ds) a b,
    ap₂ (λ y z. lease_attempt y z (lease_row h t now ds)) a b,
  )
  | inr ne ↦ omega (arith, ap attempt_of (find-lease_row_other h k t u now ds ne))
]

module _ (t : String) (max_bytes now : ℕ) where
  pub claim_each_grows :
      (k : Hash) (u : String) (first : Bool) (used : ℕ) (cs : List Candidate) (ds : List Delivery)
      → lease_attempt k u ds ≤ lease_attempt k u (claim_each t max_bytes now first used cs ds).1
  unfolding claim_each
  claim_each_grows k u first used [] ds = omega arith
  claim_each_grows k u first used (c ∷ cs) ds =
      let leased = lease_row c.operation_hash t now ds in
      ground (
        arith,
        claim_each_grows k u first used cs ds,
        claim_each_grows k u false (used + size c) cs leased,
        lease_attempt_grows c.operation_hash k t u now ds,
      )

  -- The attempt of an item is above every attempt before the claim, and not above any after it.
  pub claim_each_attempt :
      (first : Bool) (used : ℕ) (cs : List Candidate) (ds : List Delivery) (i : OutboxItem)
      → In i (claim_each t max_bytes now first used cs ds).0
      → (lease_attempt i.operation_hash t ds < i.lease_attempt)
        × (i.lease_attempt
            ≤ lease_attempt i.operation_hash t (claim_each t max_bytes now first used cs ds).1)
  unfolding claim_each
  claim_each_attempt first used [] ds i m = absurd m
  claim_each_attempt first used (c ∷ cs) ds i m =
      elim (claim_each-cases t max_bytes now first used c cs ds) [
        | inl e ↦ absurd (subst (λ r. In i r.0) e m)
        | inr (inl e) ↦
            subst
              (λ r.
                (lease_attempt i.operation_hash t ds < i.lease_attempt)
                × (i.lease_attempt ≤ lease_attempt i.operation_hash t r.1))
              (sym e) (claim_each_attempt first used cs ds i (subst (λ r. In i r.0) e m))
        | inr (inr e) ↦
            let leased = lease_row c.operation_hash t now ds in
            let rest = claim_each t max_bytes now false (used + size c) cs leased in
            subst
              (λ r.
                (lease_attempt i.operation_hash t ds < i.lease_attempt)
                × (i.lease_attempt ≤ lease_attempt i.operation_hash t r.1))
              (sym e.0)
              (elim (subst (λ r. In i r.0) e.0 m) [
                | inl q ↦
                    subst
                      (λ (y : OutboxItem).
                        (lease_attempt y.operation_hash t ds < y.lease_attempt)
                        × (y.lease_attempt ≤ lease_attempt y.operation_hash t rest.1))
                      q
                      (
                        omega (arith, lease_attempt-lease_row c.operation_hash t now ds),
                        claim_each_grows c.operation_hash t false (used + size c) cs leased,
                      )
                | inr n ↦
                    let ih = claim_each_attempt false (used + size c) cs leased i n in
                    (
                      omega (
                        arith,
                        ih.0,
                        lease_attempt_grows c.operation_hash i.operation_hash t t now ds,
                      ),
                      ih.1,
                    )
              ])
      ]
