-- ===== src/Store/Outbox/Budget.antt =====
-- How much one claim hands out, and when it hands out nothing.
use community_stack.Common.{
  ℕ, String, Bool, true, false, ◌≡◌, ◌≤◌, ◌<◌, ◌+◌, refl, sym, ap, subst, List, [], ◌∷◌, arith,
  length, length-take, inl, inr, All, min, take, ◌↔◌, Bool-cases, ltb,
}
use community_stack.Domain.Replication.{OutboxItem}
use community_stack.Failure.{ok}
use community_stack.Store.Tables.{Delivery, Database}
use community_stack.Store.Outbox.{
  Candidate, validate_id, sorted_candidates, candidates, lease_row, size, claim_each, claim_outbox,
}
use community_stack.Store.Outbox.Lease.{claim_each-cases}
use community_stack.Store.Outbox.Steps.{claim-eq-ok}

-- The bytes of the items that are handed out.
unfoldable pub total : List OutboxItem → ℕ
total [] = 0
total (i ∷ is) = length i.header + length i.body + total is

module _ (t : String) (max_bytes now : ℕ) where
  abbrev taken : Bool → ℕ → List Candidate → List Delivery → List OutboxItem
  taken first used cs ds = (claim_each t max_bytes now first used cs ds).0

  within_later :
      (used : ℕ) (cs : List Candidate) (ds : List Delivery)
      → used ≤ max_bytes
      → used + total (taken false used cs ds) ≤ max_bytes
  unfolding claim_each total size
  within_later used [] ds le = omega (arith, le)
  within_later used (c ∷ cs) ds le =
      let leased = lease_row c.operation_hash t now ds in
      elim (claim_each-cases t max_bytes now false used c cs ds) [
        | inl e ↦ subst (λ r. used + total r.0 ≤ max_bytes) (sym e) (omega (arith, le))
        | inr (inl e) ↦
            subst (λ r. used + total r.0 ≤ max_bytes) (sym e) (within_later used cs ds le)
        | inr (inr (e, small, fit)) ↦
            subst (λ r. used + total r.0 ≤ max_bytes) (sym e)
              (elim fit [
                | inl f ↦ absurd (cc)
                | inr f ↦ omega (arith, within_later (used + size c) cs leased f)
              ])
      ]

  within_first : (cs : List Candidate) (ds : List Delivery) → total (taken true 0 cs ds) ≤ max_bytes
  unfolding claim_each total size
  within_first [] ds = omega arith
  within_first (c ∷ cs) ds =
      let leased = lease_row c.operation_hash t now ds in
      elim (claim_each-cases t max_bytes now true 0 c cs ds) [
        | inl e ↦ subst (λ r. total r.0 ≤ max_bytes) (sym e) (omega arith)
        | inr (inl e) ↦ subst (λ r. total r.0 ≤ max_bytes) (sym e) (within_first cs ds)
        | inr (inr (e, small, fit)) ↦
            subst (λ r. total r.0 ≤ max_bytes) (sym e)
              (omega (arith, within_later (0 + size c) cs leased (omega (arith, small))))
      ]

  at_most :
      (first : Bool) (used : ℕ) (cs : List Candidate) (ds : List Delivery)
      → length (taken first used cs ds) ≤ length cs
  unfolding claim_each
  at_most first used [] ds = omega arith
  at_most first used (c ∷ cs) ds =
      let leased = lease_row c.operation_hash t now ds in
      ground (arith, at_most first used cs ds, at_most false (used + size c) cs leased)

  -- Records that are all too large are all passed.
  too_large_skipped :
      (first : Bool) (used : ℕ) (cs : List Candidate) (ds : List Delivery)
      → All (λ c. max_bytes < size c) cs
      → claim_each t max_bytes now first used cs ds ≡ ([], ds)
  unfolding claim_each
  too_large_skipped first used [] ds large = refl
  too_large_skipped first used (c ∷ cs) ds large =
      let rest = too_large_skipped first used cs ds large.1 in ground (arith, rest, large.0)

  -- Nothing is taken only if every record is too large.
  nothing_taken :
      (cs : List Candidate) (ds : List Delivery)
      → taken true 0 cs ds ≡ []
      → All (λ c. max_bytes < size c) cs
  unfolding claim_each
  nothing_taken [] ds e = tt
  nothing_taken (c ∷ cs) ds e = elim (Bool-cases (ltb max_bytes (size c))) [
    | inl large ↦ (ground (arith, large), nothing_taken cs ds (ground (arith, e, large)))
    | inr fits ↦ absurd (ground (arith, e, fits))
  ]

-- A claim hands out no more than `max_bytes` bytes of headers and bodies, and no more records than
-- `limit` and 256.
pub claim_within_budget :
    (now : ℕ) (t : String) (limit max_bytes : ℕ) (items : List OutboxItem) (a b : Database)
    → claim_outbox now t limit max_bytes a ≡ ok (items, b)
    → (total items ≤ max_bytes) × (length items ≤ min limit 256)
unfolding candidates
claim_within_budget now t limit max_bytes items a b e =
    let shape = claim-eq-ok now t limit max_bytes items a b e in
    (
      omega (
        arith,
        ap total shape.0,
        within_first t max_bytes now (candidates t limit now a) a.deliveries,
      ),
      omega (
        arith,
        ap (λ (x : List OutboxItem). length x) shape.0,
        at_most t max_bytes now true 0 (candidates t limit now a) a.deliveries,
        length-take (min limit 256) (sorted_candidates t now a),
      ),
    )

-- A claim with a valid transport hands out nothing and changes nothing exactly if each of the first
-- `limit` (at most 256) open records of the outbox, by priority and place, is larger than `max_bytes`:
-- the records behind these do not matter, however small they are.
pub claim_nothing_iff :
    (now : ℕ) (t : String) (limit max_bytes : ℕ) (a : Database)
    → validate_id t "transport" ≡ ok tt
    → (claim_outbox now t limit max_bytes a ≡ ok ([], a))
      ↔ All (λ c. max_bytes < size c) (take (min limit 256) (sorted_candidates t now a))
unfolding claim_outbox candidates
claim_nothing_iff now t limit max_bytes a valid = (
  λ e.
      nothing_taken t max_bytes now (take (min limit 256) (sorted_candidates t now a)) a.deliveries
        (sym (claim-eq-ok now t limit max_bytes [] a a e).0),
  λ large. rw (
    valid,
    too_large_skipped t max_bytes now true 0 (take (min limit 256) (sorted_candidates t now a))
        a.deliveries large,
  ),
)
