-- ===== src/Store/Outbox/Settled.antt =====
-- An acknowledgement is final, and an attempt number is never used twice.
use community_stack.Common.{
  ℕ, String, Bool, true, false, ◌≡◌, ◌≢◌, ◌≤◌, ◌+◌, refl, sym, ap, ◌∙◌, subst, List, [], ◌∷◌,
  Option, none, some, arith, find, find_only, update, any-In, count, In, ◌⊎◌, inl, inr, ==_iff,
  str_eq_iff, max, if◌then◌else◌,
}
use community_stack.Domain.Replication.{Hash, OutboxItem, AckOutbox}
use community_stack.Failure.{ok}
use community_stack.Store.Tables.{Delivery, Database}
use community_stack.Store.Commit.Shape.{commit-Committed}
use community_stack.Store.Outbox.{
  Candidate, of_delivery, is_open, candidates, lease_row, attempt_of, lease_attempt, size,
  claim_each, claim_outbox, is_leased, settle, ack_outbox,
}
use community_stack.Store.Outbox.Rows.{IsSettled, find_first, candidate_open, settled_closed}
use community_stack.Store.Outbox.Lease.{Has, same_key, claim_each-other, claim_each_grows}
use community_stack.Store.Outbox.Steps.{
  Step, committed, claimed, acknowledged, Steps, done, next, claim-eq-ok, ack-eq-ok, find-settle,
  settle-IsSettled,
}
use community_stack.Store.Outbox.Exclusion.{ack-Has, closed_out}

-- The primary key of `transport_deliveries`.
abbrev pub IsKeyed : List Delivery → Type 0
IsKeyed ds = (k : Hash) (u : String) → count (of_delivery k u) ds ≤ 1

count-lease_row :
    (h : Hash) (t : String) (now : ℕ) (ds : List Delivery)
    → count (of_delivery h t) (lease_row h t now ds) ≡ max 1 (count (of_delivery h t) ds)
unfolding count lease_row of_delivery
count-lease_row h t now [] = ground (arith, find_first h t now)
count-lease_row h t now (x ∷ ds) = ground (arith, count-lease_row h t now ds)

count-lease_row_other :
    (h k : Hash) (t u : String) (now : ℕ) (ds : List Delivery)
    → (k ≢ h) ⊎ (u ≢ t)
    → count (of_delivery k u) (lease_row h t now ds) ≡ count (of_delivery k u) ds
unfolding count lease_row of_delivery
count-lease_row_other h k t u now [] ne = ground (arith, ==_iff h k, str_eq_iff t u, ne)
count-lease_row_other h k t u now (x ∷ ds) ne = ground (
  arith,
  ==_iff x.operation_hash h,
  ==_iff x.operation_hash k,
  str_eq_iff x.transport t,
  str_eq_iff x.transport u,
  ne,
  count-lease_row_other h k t u now ds ne,
)

lease_row-IsKeyed :
    (h : Hash) (t : String) (now : ℕ) (ds : List Delivery)
    → IsKeyed ds
    → IsKeyed (lease_row h t now ds)
lease_row-IsKeyed h t now ds keyed k u = elim (same_key h k t u) [
  | inl (a, b) ↦
      subst (λ y. count (of_delivery y u) (lease_row h t now ds) ≤ 1) (sym a)
        (subst (λ z. count (of_delivery h z) (lease_row h t now ds) ≤ 1) (sym b)
          (omega (arith, count-lease_row h t now ds, keyed h t)))
  | inr ne ↦ omega (arith, count-lease_row_other h k t u now ds ne, keyed k u)
]

claim_each-IsKeyed :
    (t : String) (m now : ℕ) (first : Bool) (used : ℕ) (cs : List Candidate) (ds : List Delivery)
    → IsKeyed ds
    → IsKeyed (claim_each t m now first used cs ds).1
unfolding claim_each
claim_each-IsKeyed t m now first used [] ds keyed = keyed
claim_each-IsKeyed t m now first used (c ∷ cs) ds keyed = λ k u.
    let leased = lease_row c.operation_hash t now ds in
    let skipped = claim_each-IsKeyed t m now first used cs ds keyed k u in
    let rest =
      claim_each-IsKeyed t m now false (used + size c) cs leased
        (lease_row-IsKeyed _ t now ds keyed) k u in
    ground (arith, skipped, rest, keyed k u)

count-settle :
    (k : Hash) (u : String) (ack : AckOutbox) (now : ℕ) (ds : List Delivery)
    → count (of_delivery k u) (update (is_leased ack now) (settle ack now) ds)
      ≡ count (of_delivery k u) ds
unfolding count update of_delivery
count-settle k u ack now [] = refl
count-settle k u ack now (x ∷ ds) = ground (arith, count-settle k u ack now ds)

-- The delivery rows keep their primary key over every commit, claim and acknowledgement.
pub Steps-IsKeyed :
    (from : ℕ) (a b : Database) → Steps from a b → IsKeyed a.deliveries → IsKeyed b.deliveries
Steps-IsKeyed from a b done keyed = keyed
Steps-IsKeyed from a b (next {b = c} s r) keyed = Steps-IsKeyed from c b r (step s)
  where
    step : Step from a c → IsKeyed c.deliveries
    step (committed now x e) = subst IsKeyed (sym (commit-Committed now x a c e).deliveries) keyed
    step (claimed now t limit m items since e) =
        subst IsKeyed (sym (claim-eq-ok now t limit m items a c e).1)
          (claim_each-IsKeyed t m now true 0 _ a.deliveries keyed)
    step (acknowledged now ack e) = λ k u.
        subst (λ ds. count (of_delivery k u) ds ≤ 1) (sym (ack-eq-ok now ack a c e).1)
          (omega (arith, count-settle k u ack now a.deliveries, keyed k u))

-- A claim passes a settled row.
claim-IsSettled :
    (now : ℕ) (k : Hash) (u t : String) (limit m : ℕ) (items : List OutboxItem) (a b : Database)
    → claim_outbox now t limit m a ≡ ok (items, b)
    → Has IsSettled k u a.deliveries
    → Has IsSettled k u b.deliveries
claim-IsSettled now k u t limit m items a b e (d, f, p) =
    let cs = candidates t limit now a in
    let other : (c : Candidate) → In c cs → (k ≢ c.operation_hash) ⊎ (u ≢ t) = λ c i.
      elim (same_key c.operation_hash k t u) [
        | inl (x, y) ↦
            let open_ =
              subst (λ h. is_open now (find (of_delivery h t) a.deliveries) ≡ true) (sym x)
                (candidate_open t now limit a c i) in
            let found = subst (λ v. find (of_delivery k v) a.deliveries ≡ some d) y f in
            absurd (ground (arith, open_, ap (is_open now) (sym found), settled_closed now d p))
        | inr ne ↦ ne
      ] in
    let row = (claim-eq-ok now t limit m items a b e).1 in
    (
      d,
      ap (find (of_delivery k u)) row
          ∙ claim_each-other t m now k u true 0 cs a.deliveries other
          ∙ f,
      p,
    )

-- A settled row stays as it is.
Steps-IsSettled :
    (from : ℕ) (k : Hash) (u : String) (a b : Database)
    → Steps from a b
    → Has IsSettled k u a.deliveries
    → Has IsSettled k u b.deliveries
Steps-IsSettled from k u a b done h = h
Steps-IsSettled from k u a b (next {b = c} s r) h = Steps-IsSettled from k u c b r (step s h)
  where
    step : Step from a c → Has IsSettled k u a.deliveries → Has IsSettled k u c.deliveries
    step (committed now x e) g =
        subst (Has IsSettled k u) (sym (commit-Committed now x a c e).deliveries) g
    step (acknowledged now ack e) g = ack-Has IsSettled k u now ack a c (λ d s. s) e g
    step (claimed now t limit m items since e) g = claim-IsSettled now k u t limit m items a c e g

-- The row that an acknowledgement settles.
acknowledged_row :
    (now : ℕ) (ack : AckOutbox) (a b : Database)
    → IsKeyed a.deliveries
    → ack_outbox now ack a ≡ ok b
    → Has IsSettled ack.operation_hash ack.transport b.deliveries
unfolding is_leased
acknowledged_row now ack a b keyed e =
    let (leased, row) = ack-eq-ok now ack a b e in
    let (d, m, q) = any-In (is_leased ack now) a.deliveries leased in
    let own : of_delivery ack.operation_hash ack.transport d ≡ true = ground arith in
    let f =
      find_only (of_delivery ack.operation_hash ack.transport) a.deliveries d (keyed _ _) m own in
    (
      settle ack now d,
      ap (find (of_delivery ack.operation_hash ack.transport)) row
          ∙ find-settle ack.operation_hash ack.transport ack now a.deliveries
          ∙ rw (f, q),
      settle-IsSettled ack now d,
    )

-- Once a record is acknowledged, whatever the status, no later claim of that transport gets it again,
-- whatever commits, claims and acknowledgements come between.
pub ack_is_final :
    (from now later : ℕ) (ack : AckOutbox) (limit m : ℕ) (items : List OutboxItem)
    (a b c d : Database) (j : OutboxItem)
    → IsKeyed a.deliveries
    → ack_outbox now ack a ≡ ok b
    → Steps from b c
    → claim_outbox later ack.transport limit m c ≡ ok (items, d)
    → In j items
    → j.operation_hash ≢ ack.operation_hash
ack_is_final from now later ack limit m items a b c d j keyed e steps e' mj =
    let (x, f, s) =
      Steps-IsSettled from ack.operation_hash ack.transport b c steps
        (acknowledged_row now ack a b keyed e) in
    closed_out later ack.operation_hash ack.transport limit m items c d j x e' mj f
      (settled_closed later x s)

-- An acknowledgement leaves every attempt number.
ack-attempt :
    (now : ℕ) (k : Hash) (u : String) (ack : AckOutbox) (a b : Database)
    → ack_outbox now ack a ≡ ok b
    → lease_attempt k u b.deliveries ≡ lease_attempt k u a.deliveries
unfolding lease_attempt
ack-attempt now k u ack a b e =
    let found =
      ap (find (of_delivery k u)) (ack-eq-ok now ack a b e).1
      ∙ find-settle k u ack now a.deliveries in
    ap attempt_of found ∙ same (find (of_delivery k u) a.deliveries)
  where
    same :
        (o : Option Delivery)
        → attempt_of (elim o [
          | none ↦ none
          | some d ↦ some (if is_leased ack now d then settle ack now d else d)
        ])
          ≡ attempt_of o
    same none = refl
    same (some d) = ground arith

pub Steps-grow :
    (from : ℕ) (k : Hash) (u : String) (a b : Database)
    → Steps from a b
    → lease_attempt k u a.deliveries ≤ lease_attempt k u b.deliveries
Steps-grow from k u a b done = omega arith
Steps-grow from k u a b (next {b = c} s r) = omega (arith, step s, Steps-grow from k u c b r)
  where
    step : Step from a c → lease_attempt k u a.deliveries ≤ lease_attempt k u c.deliveries
    step (committed now x e) =
        omega (arith, ap (lease_attempt k u) (commit-Committed now x a c e).deliveries)
    step (claimed now t limit m items since e) = omega (
      arith,
      ap (lease_attempt k u) (claim-eq-ok now t limit m items a c e).1,
      claim_each_grows t m now k u true 0 (candidates t limit now a) a.deliveries,
    )
    step (acknowledged now ack e) = omega (arith, ack-attempt now k u ack a c e)
