-- ===== src/Application/Mutate/Progress.antt =====
-- A mutation under the lock of its document is not turned away by the store.
use community_stack.Common.{
  ℕ, suc, String, ◌≡◌, ◌≢◌, ◌<◌, refl, ap, ap₂, ◌∙◌, sym, true, false, [], ◌∷◌, ◌++◌, Option, none,
  some, ==_iff, length, arith, find, any, In, str_eq, find-none_of_any, any_from, opt_eq_iff, ltb,
}
use mathlib.Core.Path.{subst₂}
use community_stack.Domain.Documents.{DocumentKey, MutateDocument}
use community_stack.Domain.Replication.{Hash, LogHead, CanonicalRecord, ForgeDocumentUpdate}
use community_stack.Failure.{ok, err}
use community_stack.Ports.{Response, LocalCommit, DocumentChange, DocumentEngine, SecureLog}
use community_stack.Store.Tables.{Operation, Database}
use community_stack.Store.Read.{
  same_document, load_updates, update_count, log_head, of_log, of_key, same_document_iff,
  idempotency, stored_response, length-load_updates,
}
use community_stack.Application.Mutate.Retry.{HasIds, stale}
use community_stack.Store.Channel.{ask}
use community_stack.Store.Commit.{
  metadata_key, follows, same_operation, new_operation, append_record, admissible,
  apply_projections, store_response, commit_local,
}
use community_stack.Store.Commit.Chain.{IsChained}
use community_stack.Store.Commit.Shape.{answer_row}
use community_stack.Application.Mutate.{
  expected_other, next_place, forge_input, local_commit, u64_max, mutate_fresh, mutate_locked,
  mutate_in_namespace, mutate, document_key,
}

-- What the forged record says of its place, as `forge_update` of src/adapters/p2panda.rs fills it in.
pub record ForgesFaithfully (secure : SecureLog) : Type 0 where
  pub author :
      (i : ForgeDocumentUpdate) (c : CanonicalRecord)
      → secure.forge_document_update i ≡ ok c
      → c.author_key ≡ secure.author_key
  pub log :
      (i : ForgeDocumentUpdate) (c : CanonicalRecord)
      → secure.forge_document_update i ≡ ok c
      → c.log_id ≡ secure.document_log_id i.key
  pub place :
      (i : ForgeDocumentUpdate) (c : CanonicalRecord)
      → secure.forge_document_update i ≡ ok c
      → (c.sequence ≡ i.sequence) × (c.backlink ≡ i.backlink)
  pub document :
      (i : ForgeDocumentUpdate) (c : CanonicalRecord)
      → secure.forge_document_update i ≡ ok c
      → metadata_key c.metadata ≡ i.key

-- The place that the use case computes is one that the commit accepts.
next_place-follows :
    (head : Option LogHead) (n : ℕ) (backlink : Option Hash)
    → next_place head ≡ ok (n, backlink)
    → follows n backlink head ≡ true
unfolding next_place follows
next_place-follows none n backlink e = ground arith
next_place-follows (some h) n backlink e =
    ground (arith, opt_eq_iff (some h.operation_hash) backlink)

-- No record of the log stands at that place yet.
next_place_free :
    (a l : Hash) (db : Database) (n : ℕ) (backlink : Option Hash) (o : Operation)
    → IsChained db.log
    → next_place (log_head a l db) ≡ ok (n, backlink)
    → In o db.log.operations
    → o.author_key ≡ a
    → o.log_id ≡ l
    → o.sequence < n
unfolding next_place log_head
next_place_free a l db n backlink o chained e m ea el =
    let (h, found, le) = chained.headed o m in
    let here : find (of_log a l) db.log.heads ≡ some h =
      subst₂ (λ x y. find (of_log x y) db.log.heads ≡ some h) ea el found in
    ground (arith, here, le)

commit_succeeds :
    (now : ℕ) (c : LocalCommit) (a : Database)
    → same_document (metadata_key c.canonical_record.metadata) c.document ≡ true
    → update_count c.document a ≡ c.expected_update_count
    → follows c.canonical_record.sequence c.canonical_record.backlink
        (log_head c.canonical_record.author_key c.canonical_record.log_id a)
      ≡ true
    → any (same_operation (new_operation c now)) a.log.operations ≡ false
    → any (of_key c.idempotency_app_id c.idempotency_key) a.idempotency ≡ false
    → any (str_eq c.idempotency_app_id) a.applications ≡ true
    → c.projections ≡ []
    → (b : Database) × (commit_local now c a ≡ ok b)
unfolding commit_local admissible apply_projections store_response
commit_succeeds now c a h₁ h₂ h₃ h₄ h₅ h₆ h₇ = (
  record a { log = append_record c now a.log; idempotency = a.idempotency ++ answer_row c ∷ [] },
  ground arith,
)

module _ (engine : DocumentEngine) (secure : SecureLog) (peer now : ℕ) (caller : String)
    (key : DocumentKey) (r : MutateDocument) (hash : Hash) (a : Database) where
  -- What a fresh request needs of the database and of the engines.
  pub record IsReady (change : DocumentChange) (n : ℕ) (backlink : Option Hash)
      (c : CanonicalRecord) : Type 0 where
    pub expected : expected_other r.expected_revision (update_count key a) ≡ false
    pub staged : engine.stage_mutations (load_updates key a) peer r.mutations ≡ ok change
    pub place :
        next_place (log_head secure.author_key (secure.document_log_id key) a) ≡ ok (n, backlink)
    pub forged : secure.forge_document_update (forge_input key r (n, backlink) change) ≡ ok c
    pub bounded : update_count key a < u64_max
    pub registered : any (str_eq caller) a.applications ≡ true
    pub unanswered : any (of_key caller r.idempotency_key) a.idempotency ≡ false
    pub new_hash : (o : Operation) → In o a.log.operations → o.operation_hash ≢ c.operation_hash

  -- The forged record stands where no record stands yet, so the store's uniqueness checks pass.
  unique_place :
      (change : DocumentChange) (n : ℕ) (backlink : Option Hash) (c : CanonicalRecord)
      → ForgesFaithfully secure
      → IsChained a.log
      → IsReady change n backlink c
      → (m : LocalCommit) → m.canonical_record ≡ c
      → any (same_operation (new_operation m now)) a.log.operations ≡ false
  unfolding same_operation
  unique_place change n backlink c faithful chained ready m same =
      any_from (same_operation (new_operation m now)) a.log.operations (λ o i.
        let fresh = ready.new_hash o i in
        let hash_ = ap (λ (x : CanonicalRecord). x.operation_hash) same in
        let place_ =
          ap (λ (x : CanonicalRecord). x.sequence) same ∙ (faithful.place _ c ready.forged).0 in
        let author_ =
          ap (λ (x : CanonicalRecord). x.author_key) same ∙ faithful.author _ c ready.forged in
        let log_ = ap (λ (x : CanonicalRecord). x.log_id) same ∙ faithful.log _ c ready.forged in
        let free = next_place_free _ _ a n backlink o chained ready.place i in
        ground (arith, fresh, hash_, place_, author_, log_, free))

  -- A fresh request at the current revision, with an engine that accepts its mutations and a secure
  -- log that places its records faithfully, is answered with the next revision: none of the checks
  -- of the store can turn it away.
  pub mutate_fresh_succeeds :
      (change : DocumentChange) (n : ℕ) (backlink : Option Hash) (c : CanonicalRecord)
      → ForgesFaithfully secure
      → IsChained a.log
      → IsReady change n backlink c
      → (response : Response) × (b : Database) × (mutate_fresh engine secure peer now caller key r
            hash [] a
          ≡ ok (response, b))
        × (response.revision ≡ suc (update_count key a))
  unfolding mutate_fresh ask
  mutate_fresh_succeeds change n backlink c faithful chained ready =
      let counted = length-load_updates key a in
      let m = local_commit caller key r hash [] (length (load_updates key a)) change c in
      let is = faithful.place _ c ready.forged in
      let described : same_document (metadata_key c.metadata) key ≡ true =
        (same_document_iff _ key).1 (faithful.document _ c ready.forged) in
      let author_ = faithful.author _ c ready.forged in
      let log_ = faithful.log _ c ready.forged in
      let followed : follows c.sequence c.backlink (log_head c.author_key c.log_id a) ≡ true =
        subst₂ (λ x y. follows c.sequence c.backlink (log_head x y a) ≡ true) (sym author_)
          (sym log_)
          (subst₂
            (λ x y. follows x y (log_head secure.author_key (secure.document_log_id key) a) ≡ true)
            (sym is.0) (sym is.1) (next_place-follows _ n backlink ready.place)) in
      let (b, done) =
        commit_succeeds now m a described (sym counted) followed
          (unique_place change n backlink c faithful chained ready m refl) ready.unanswered
          ready.registered refl in
      let small : ltb (length (load_updates key a)) u64_max ≡ true =
        ground (arith, ready.bounded, counted) in
      let current : expected_other r.expected_revision (length (load_updates key a)) ≡ false =
        ap (expected_other r.expected_revision) counted ∙ ready.expected in
      (
        m.response,
        b,
        rw (current, ready.staged, ready.place, ready.forged, small, done),
        ap suc counted,
      )

pub unknown_key :
    (app key : String) (hash : Hash) (a : Database)
    → any (of_key app key) a.idempotency ≡ false
    → idempotency app key hash a ≡ ok none
unfolding idempotency
unknown_key app key hash a unanswered =
    ap (λ o. stored_response o hash) (find-none_of_any (of_key app key) a.idempotency unanswered)

module _ (engine : DocumentEngine) (secure : SecureLog) (peer now : ℕ) (app : String)
    (r : MutateDocument) (hash : Hash) (a : Database) where
  locked-fresh :
      idempotency app r.idempotency_key hash a ≡ ok none
      → mutate_in_namespace engine secure peer now app app r hash [] a
        ≡ mutate_fresh engine secure peer now app (document_key app r) r hash [] a
  unfolding mutate_in_namespace mutate_locked ask
  locked-fresh unknown = rw unknown

  -- A valid request under a key that has no answer yet is carried out in the namespace of the caller.
  mutate-fresh :
      HasIds r
      → any (of_key app r.idempotency_key) a.idempotency ≡ false
      → mutate engine secure peer now app r hash [] a
        ≡ mutate_fresh engine secure peer now app (document_key app r) r hash [] a
  unfolding mutate ask
  mutate-fresh ids unanswered =
      let unknown = unknown_key app r.idempotency_key hash a unanswered in
      rw (ids.community, ids.document, ids.key, unknown, locked-fresh unknown)

  -- A mutation is carried out and answered with the next revision if its identifiers are valid and its
  -- key is fresh, it is sent by a registered application at the document's current revision, the engine
  -- accepts its mutations, the log and the revision are below their bounds, the logs are chained, and
  -- the secure log forges a record at the place asked for, with a hash that no stored record has. That
  -- the store finds the record's place free and next in its log is part of the claim.
  pub mutate_succeeds :
      (change : DocumentChange) (n : ℕ) (backlink : Option Hash) (c : CanonicalRecord)
      → HasIds r
      → ForgesFaithfully secure
      → IsChained a.log
      → IsReady engine secure peer now app (document_key app r) r hash a change n backlink c
      → (response : Response) × (b : Database) × (mutate engine secure peer now app r hash [] a
          ≡ ok (response, b))
        × (response.revision ≡ suc (update_count (document_key app r) a))
  mutate_succeeds change n backlink c ids faithful chained ready =
      let (response, b, done, next) =
        mutate_fresh_succeeds engine secure peer now app (document_key app r) r hash a change n
          backlink c faithful chained ready in
      (response, b, mutate-fresh ids ready.unanswered ∙ done, next)

  -- A fresh request that expects another revision than the current one is refused.
  pub mutate-stale_revision :
      (expected : ℕ)
      → HasIds r
      → any (of_key app r.idempotency_key) a.idempotency ≡ false
      → r.expected_revision ≡ some expected
      → expected ≢ update_count (document_key app r) a
      → mutate engine secure peer now app r hash [] a ≡ err stale
  unfolding mutate_fresh
  mutate-stale_revision expected ids unanswered e ne =
      let key = document_key app r in
      let counted = length-load_updates key a in
      let other : expected_other r.expected_revision (length (load_updates key a)) ≡ true =
        ap₂ expected_other e counted ∙ ground (arith, ==_iff expected (update_count key a)) in
      mutate-fresh ids unanswered ∙ rw other
