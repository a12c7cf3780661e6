-- ===== src/Store/Commit/Shape.antt =====
-- What a successful commit has checked and written.
use community_stack.Common.{ℕ, ◌≡◌, ap, subst, ◌∙◌, false, true, [], ◌∷◌, ◌++◌, any, arith}
use community_stack.Failure.{ok, >>=-eq-ok, reject-eq-ok}
use community_stack.Ports.{LocalCommit}
use community_stack.Store.Tables.{IdempotencyKey, Database}
use community_stack.Store.Read.{same_document, update_count, log_head, of_key}
use community_stack.Store.Commit.{
  metadata_key, follows, same_operation, new_operation, append_record, store_response, admissible,
  commit_local,
}
use community_stack.Store.Commit.Frame.{projections-SameCore}

abbrev pub answer_row : LocalCommit → IdempotencyKey
answer_row c = record {
  app_id = c.idempotency_app_id;
  key = c.idempotency_key;
  request_hash = c.request_hash;
  response = c.response;
}

-- The facts that a successful commit from `a` to `b` leaves.
pub record Committed (now : ℕ) (c : LocalCommit) (a b : Database) : Type 0 where
  pub described : same_document (metadata_key c.canonical_record.metadata) c.document ≡ true
  pub counted : update_count c.document a ≡ c.expected_update_count
  pub followed :
      follows c.canonical_record.sequence c.canonical_record.backlink
        (log_head c.canonical_record.author_key c.canonical_record.log_id a)
      ≡ true
  pub unique : any (same_operation (new_operation c now)) a.log.operations ≡ false
  pub fresh_key : any (of_key c.idempotency_app_id c.idempotency_key) a.idempotency ≡ false
  pub log : b.log ≡ append_record c now a.log
  pub idempotency : b.idempotency ≡ a.idempotency ++ answer_row c ∷ []
  pub deliveries : b.deliveries ≡ a.deliveries
  pub grants : b.grants ≡ a.grants

record Admitted (c : LocalCommit) (a : Database) : Type 0 where
  described : same_document (metadata_key c.canonical_record.metadata) c.document ≡ true
  counted : update_count c.document a ≡ c.expected_update_count
  followed :
      follows c.canonical_record.sequence c.canonical_record.backlink
        (log_head c.canonical_record.author_key c.canonical_record.log_id a)
      ≡ true

admissible-Admitted : (c : LocalCommit) (a : Database) → admissible c a ≡ ok tt → Admitted c a
unfolding admissible
admissible-Admitted c a e = ground arith

record Stored (c : LocalCommit) (a b : Database) : Type 0 where
  fresh_key : any (of_key c.idempotency_app_id c.idempotency_key) a.idempotency ≡ false
  log : b.log ≡ a.log
  idempotency : b.idempotency ≡ a.idempotency ++ answer_row c ∷ []
  deliveries : b.deliveries ≡ a.deliveries
  grants : b.grants ≡ a.grants

store_response-Stored :
    (c : LocalCommit) (a b : Database) → store_response c a ≡ ok b → Stored c a b
unfolding store_response
store_response-Stored c a b e = ground arith

pub commit-Committed :
    (now : ℕ) (c : LocalCommit) (a b : Database) → commit_local now c a ≡ ok b → Committed now c a b
unfolding commit_local
commit-Committed now c a b e =
    let (u, admitted, e₁) = >>=-eq-ok (admissible c a) _ e in
    let (v, fresh, e₂) = >>=-eq-ok _ _ e₁ in
    let (d, views, e₃) = >>=-eq-ok _ _ e₂ in
    let before = admissible-Admitted c a admitted in
    let core = projections-SameCore _ _ _ now c.projections _ d views in
    let after = store_response-Stored c d b e₃ in
    record {
      described = before.described;
      counted = before.counted;
      followed = before.followed;
      unique = reject-eq-ok _ _ fresh;
      fresh_key =
          subst (λ rows. any (of_key c.idempotency_app_id c.idempotency_key) rows ≡ false)
            core.idempotency after.fresh_key;
      log = after.log ∙ core.log;
      idempotency = after.idempotency ∙ ap (λ rows. rows ++ answer_row c ∷ []) core.idempotency;
      deliveries = after.deliveries ∙ core.deliveries;
      grants = after.grants ∙ core.grants;
    }
