-- ===== src/Store/Projection/Facts/Revisions.antt =====
-- What a fact revision guarantees: it follows the current one, and it is the only active claim where
-- its schema permits one.
use community_stack.Common.{
  ℕ, ◌+◌, ◌<◌, ◌≡◌, ◌≢◌, refl, sym, ap, ap₂, ◌∙◌, subst, String, true, false, not, ◌&&◌, List, [],
  ◌∷◌, Option, none, some, arith, max, min, In, In-append_one, In-update, find, find-append_none,
  find_last, find-update, any, any-false, opt_eq, opt_eq_iff, str_eq_iff, inl, inr,
}
use community_stack.Domain.Error.{conflict}
use community_stack.Domain.Replication.{Hash}
use community_stack.Domain.Facts.{FactRevisionProjection}
use community_stack.Failure.{ok, err, bail, reject, protocol_error, >>=-eq-ok, reject-eq-ok}
use community_stack.Store.Tables.{Claim, Database}
use community_stack.Store.Projection.Facts.{
  is_asserted, is_claim, is_rival, active_conflict, previous_hash, i64_max, revision_time,
  commit_author, has_hash, new_claim, upsert_claim, write_fact, apply_fact,
}

abbrev stored_claim : String → FactRevisionProjection → Database → Option Claim
stored_claim app p db = find (is_claim app p.community_id p.claim_id) db.facts.claims

-- An active claim with the subject and predicate of a revision.
pub record IsAbout (app : String) (p : FactRevisionProjection) (c : Claim) : Type 0 where
  pub app_ : c.app_id ≡ app
  pub community : c.claim.community_id ≡ p.community_id
  pub subject : c.claim.subject ≡ p.subject
  pub predicate : c.claim.predicate ≡ p.predicate
  pub active : c.retracted ≡ false

-- What a successful revision has checked and written.
record Revised (app : String) (hash : Hash) (p : FactRevisionProjection) (now : ℕ) (a b : Database)
    : Type 0 where
  followed : previous_hash (stored_claim app p a) ≡ p.expected_previous_operation_hash
  alone :
      (is_asserted p.lifecycle_status
        && not p.multiple_active_claims
        && active_conflict app p.community_id p.claim_id p.subject p.predicate a)
      ≡ false
  claims :
      b.facts.claims
      ≡ upsert_claim
          (stored_claim app p a)
          (new_claim app hash p (revision_time (stored_claim app p a) now))
          a.facts.claims

apply_fact-Revised :
    (app : String) (hash : Hash) (p : FactRevisionProjection) (now : ℕ) (a b : Database)
    → apply_fact app hash p now a ≡ ok b
    → Revised app hash p now a b
unfolding apply_fact write_fact
apply_fact-Revised app hash p now a b e =
    let (u, e₀, e₁) =
      >>=-eq-ok
        (reject
          (not (opt_eq (previous_hash (stored_claim app p a)) p.expected_previous_operation_hash))
          (protocol_error conflict "fact current revision changed before commit" true))
        _ e in
    let (v, e₂, e₃) =
      >>=-eq-ok
        (reject
          (is_asserted p.lifecycle_status
            && not p.multiple_active_claims
            && active_conflict app p.community_id p.claim_id p.subject p.predicate a)
          (bail "schema permits only one active claim for this subject and predicate"))
        _ e₁ in
    let (author, e₄, e₅) = >>=-eq-ok (commit_author hash a) _ e₃ in
    let (w, e₆, e₇) =
      >>=-eq-ok (reject (any (has_hash hash) a.facts.revisions) (bail "UNIQUE constraint failed")) _
        e₅ in
    let equal = reject-eq-ok _ _ e₀ in
    record {
      followed = (opt_eq_iff _ _).0 (ground (arith, equal));
      alone = reject-eq-ok _ _ e₂;
      claims = ground (arith, e₇);
    }

is_claim_new :
    (app : String) (hash : Hash) (p : FactRevisionProjection) (t : ℕ)
    → is_claim app p.community_id p.claim_id (new_claim app hash p t) ≡ true
unfolding is_claim new_claim
is_claim_new app hash p t = ground (
  arith,
  str_eq_iff app app,
  str_eq_iff p.community_id p.community_id,
  str_eq_iff p.claim_id p.claim_id,
)

-- After a revision, the claim that is found under its identifier is the revision's.
find-upsert_claim :
    (app : String) (hash : Hash) (p : FactRevisionProjection) (t : ℕ) (stored : Option Claim)
    (cs : List Claim)
    → find (is_claim app p.community_id p.claim_id) cs ≡ stored
    → find
        (is_claim app p.community_id p.claim_id)
        (upsert_claim stored (new_claim app hash p t) cs)
      ≡ some (new_claim app hash p t)
unfolding upsert_claim new_claim
find-upsert_claim app hash p t none cs e =
    find-append_none _ cs (new_claim app hash p t ∷ []) e
    ∙ find_last _ _ (is_claim_new app hash p t)
find-upsert_claim app hash p t (some c) cs e =
    find-update (is_claim app p.community_id p.claim_id) (new_claim app hash p t) cs c
      (is_claim_new app hash p t) e

-- A revision that is accepted becomes the current one of its claim, and its time is later than that
-- of the revision before it, even if the clock went back (below the greatest time of the store).
pub revision_advances :
    (app : String) (hash : Hash) (p : FactRevisionProjection) (now : ℕ) (a b : Database) (c : Claim)
    → apply_fact app hash p now a ≡ ok b
    → find (is_claim app p.community_id p.claim_id) a.facts.claims ≡ some c
    → c.claim.updated_at_ms < i64_max
    → (d : Claim) × (find (is_claim app p.community_id p.claim_id) b.facts.claims ≡ some d)
      × (d.claim.source_operation_hash ≡ hash)
      × (c.claim.updated_at_ms < d.claim.updated_at_ms)
unfolding new_claim
revision_advances app hash p now a b c e before small =
    let done = apply_fact-Revised app hash p now a b e in
    let t = revision_time (stored_claim app p a) now in
    let time : t ≡ max now (min (c.claim.updated_at_ms + 1) i64_max) =
      ap (λ o. revision_time o now) before in
    (
      new_claim app hash p t,
      ap (find (is_claim app p.community_id p.claim_id)) done.claims
          ∙ find-upsert_claim app hash p t (stored_claim app p a) a.facts.claims refl,
      refl,
      omega (arith, time, small),
    )

-- After a revision, a second one of the same claim that was prepared against the same current
-- revision, which is not the first one's own, is refused in the store with a retryable conflict.
pub stale_revision_conflicts :
    (app : String) (hash other : Hash) (p q : FactRevisionProjection) (now later : ℕ)
    (a b : Database)
    → apply_fact app hash p now a ≡ ok b
    → q.claim_id ≡ p.claim_id
    → q.community_id ≡ p.community_id
    → q.expected_previous_operation_hash ≡ p.expected_previous_operation_hash
    → p.expected_previous_operation_hash ≢ some hash
    → apply_fact app other q later b
      ≡ err (protocol_error conflict "fact current revision changed before commit" true)
unfolding apply_fact new_claim
stale_revision_conflicts app hash other p q now later a b e id community same ne =
    let done = apply_fact-Revised app hash p now a b e in
    let found =
      ap (find (is_claim app p.community_id p.claim_id)) done.claims
      ∙ find-upsert_claim app hash p (revision_time (stored_claim app p a) now)
          (stored_claim app p a) a.facts.claims refl in
    let current : previous_hash (stored_claim app q b) ≡ some hash =
      ap previous_hash (ap₂ (λ x y. find (is_claim app x y) b.facts.claims) community id ∙ found) in
    let unequal : opt_eq (previous_hash (stored_claim app q b)) q.expected_previous_operation_hash
        ≡ false =
      ground
        (arith, current, same, ne, opt_eq_iff (some hash) q.expected_previous_operation_hash) in
    rw unequal

-- An active claim that is not a rival of a claim is that claim.
not_rival :
    (app : String) (p : FactRevisionProjection) (cs : List Claim) (c : Claim)
    → any (is_rival app p.community_id p.claim_id p.subject p.predicate) cs ≡ false
    → In c cs
    → IsAbout app p c
    → c.claim.claim_id ≡ p.claim_id
unfolding is_rival
not_rival app p cs c free m about =
    let no_rival =
      any-false (is_rival app p.community_id p.claim_id p.subject p.predicate) cs free c m in
    let app_ = (str_eq_iff c.app_id app).1 about.app_ in
    let community_ = (str_eq_iff c.claim.community_id p.community_id).1 about.community in
    let subject_ = (str_eq_iff c.claim.subject p.subject).1 about.subject in
    let predicate_ = (str_eq_iff c.claim.predicate p.predicate).1 about.predicate in
    (str_eq_iff c.claim.claim_id p.claim_id).0
      (ground (arith, no_rival, app_, community_, subject_, predicate_, about.active))

-- After an asserted revision under a schema with one active claim, every active claim of the same
-- application, community, subject and predicate is that claim.
pub single_active_claim :
    (app : String) (hash : Hash) (p : FactRevisionProjection) (now : ℕ) (a b : Database) (c : Claim)
    → apply_fact app hash p now a ≡ ok b
    → is_asserted p.lifecycle_status ≡ true
    → p.multiple_active_claims ≡ false
    → In c b.facts.claims
    → IsAbout app p c
    → c.claim.claim_id ≡ p.claim_id
unfolding active_conflict upsert_claim new_claim
single_active_claim app hash p now a b c e asserted single m about =
    let done = apply_fact-Revised app hash p now a b e in
    let alone = done.alone in
    let free : active_conflict app p.community_id p.claim_id p.subject p.predicate a ≡ false =
      ground (arith, alone, asserted, single) in
    place (stored_claim app p a) free (subst (In c) done.claims m)
  where
    place :
        (stored : Option Claim)
        → active_conflict app p.community_id p.claim_id p.subject p.predicate a ≡ false
        → In c (
            upsert_claim stored
              (new_claim app hash p (revision_time (stored_claim app p a) now))
              a.facts.claims)
        → c.claim.claim_id ≡ p.claim_id
    place none free i = elim (In-append_one c _ a.facts.claims i) [
      | inl old ↦ not_rival app p a.facts.claims c free old about
      | inr new ↦ ap (λ (x : Claim). x.claim.claim_id) (sym new)
    ]
    place (some s) free i =
        let (d, n, why) = In-update _ _ a.facts.claims c i in
        elim why [
          | inl new ↦ ap (λ (x : Claim). x.claim.claim_id) (sym new.1)
          | inr old ↦
              not_rival app p a.facts.claims c free (subst (λ x. In x a.facts.claims) old.1 n) about
        ]
