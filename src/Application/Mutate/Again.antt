-- ===== src/Application/Mutate/Again.antt =====
-- Requests that are sent again, and requests that come second, after others have gone between.
use community_stack.Common.{
  ◌<◌, count, ℕ, String, ◌≡◌, sym, ap, ap₂, ◌∙◌, true, false, inl, inr, List, [], Option, none,
  some, str_eq_iff, any, find, arith, Bool-cases,
}
use community_stack.Domain.Documents.{DocumentKey, MutateDocument}
use community_stack.Domain.Replication.{Hash, OutboxItem, AckOutbox}
use community_stack.Failure.{Result, ok, err, >>=-eq-ok}
use community_stack.Ports.{ProjectionWrite, Response, LocalCommit, DocumentEngine, SecureLog}
use community_stack.Store.Tables.{Database}
use community_stack.Store.Read.{update_count, of_document, of_key, idempotency, stored_response}
use community_stack.Store.Commit.{commit_local}
use community_stack.Store.Commit.Shape.{commit-Committed, answer_row}
use community_stack.Store.Commit.Answers.{idempotency-commit_other}
use community_stack.Store.Commit.Counts.{update_count-commit, commit_at_revision}
use community_stack.Store.History.{Steps-keep}
use community_stack.Store.Outbox.{validate_id, claim_outbox, ack_outbox}
use community_stack.Store.Outbox.Steps.{Step, committed, claimed, acknowledged, Steps, done, next}
use community_stack.Application.Mutate.{mutate, document_key, expected_other}
use community_stack.Application.Mutate.Retry.{
  HasIds, Carried, stale, mutate_known, mutate-HasIds, mutate-stored,
}
use community_stack.Application.Mutate.Progress.{unknown_key, mutate-stale_revision}

claim-idempotency :
    (now : ℕ) (t : String) (limit m : ℕ) (items : List OutboxItem) (a b : Database)
    → claim_outbox now t limit m a ≡ ok (items, b)
    → b.idempotency ≡ a.idempotency
unfolding claim_outbox
claim-idempotency now t limit m items a b e =
    let (u, v, w) = >>=-eq-ok (validate_id t "transport") _ e in ground arith

ack-idempotency :
    (now : ℕ) (ack : AckOutbox) (a b : Database)
    → ack_outbox now ack a ≡ ok b
    → b.idempotency ≡ a.idempotency
unfolding ack_outbox
ack-idempotency now ack a b e =
    let (u, v, w) = >>=-eq-ok (validate_id ack.transport "transport") _ e in ground arith

same_rows :
    (app key : String) (hash : Hash) (a b : Database)
    → b.idempotency ≡ a.idempotency
    → idempotency app key hash b ≡ idempotency app key hash a
unfolding idempotency
same_rows app key hash a b e = ap (λ rows. stored_response (find (of_key app key) rows) hash) e

of_key-eq :
    (app key : String) (c : LocalCommit)
    → of_key app key (answer_row c) ≡ true
    → (c.idempotency_app_id ≡ app) × (c.idempotency_key ≡ key)
unfolding of_key
of_key-eq app key c h = (
  (str_eq_iff c.idempotency_app_id app).0 (ground (arith, h)),
  (str_eq_iff c.idempotency_key key).0 (ground (arith, h)),
)

no_answer : {x : Response} → Path (Result (Option Response)) (ok none) (ok (some x)) → ⊥
no_answer e = cc

-- A commit under a key that has an answer does not succeed, so a stored answer stays.
commit-keeps :
    (now : ℕ) (c : LocalCommit) (app key : String) (hash : Hash) (response : Response)
    (a b : Database)
    → commit_local now c a ≡ ok b
    → idempotency app key hash a ≡ ok (some response)
    → idempotency app key hash b ≡ ok (some response)
commit-keeps now c app key hash response a b e known =
    elim (Bool-cases (of_key app key (answer_row c))) [
      | inl same ↦
          let keys = of_key-eq app key c same in
          let fresh : any (of_key app key) a.idempotency ≡ false =
            ap₂ (λ x y. any (of_key x y) a.idempotency) (sym keys.0) (sym keys.1)
            ∙ (commit-Committed now c a b e).fresh_key in
          absurd (no_answer (sym (unknown_key app key hash a fresh) ∙ known))
      | inr other ↦ idempotency-commit_other now c a b app key hash e other ∙ known
    ]

Steps-keep_answer :
    (from : ℕ) (app key : String) (hash : Hash) (response : Response) (a b : Database)
    → Steps from a b
    → idempotency app key hash a ≡ ok (some response)
    → idempotency app key hash b ≡ ok (some response)
Steps-keep_answer from app key hash response a b done known = known
Steps-keep_answer from app key hash response a b (next {b = c} s r) known =
    Steps-keep_answer from app key hash response c b r (step s)
  where
    step : Step from a c → idempotency app key hash c ≡ ok (some response)
    step (committed now x e) = commit-keeps now x app key hash response a c e known
    step (claimed now t limit m items since e) =
        same_rows app key hash a c (claim-idempotency now t limit m items a c e) ∙ known
    step (acknowledged now ack e) =
        same_rows app key hash a c (ack-idempotency now ack a c e) ∙ known

-- The revision of a document does not go back.
Steps-past :
    (key : DocumentKey) (n from : ℕ) (a b : Database)
    → Steps from a b
    → n < update_count key a
    → n < update_count key b
unfolding update_count
Steps-past key n from a b steps past =
    Steps-keep (λ t. n < count (of_document key) t.updates)
      (λ now c x y e h. omega (arith, h, update_count-commit now c x y key e)) from a b steps past

revision_past :
    (now : ℕ) (app : String) (key : DocumentKey) (r : MutateDocument) (hash : Hash)
    (ps : List ProjectionWrite) (a : Database) (response : Response) (b : Database) (expected : ℕ)
    → r.expected_revision ≡ some expected
    → Carried now app key r hash ps a response b
    → expected < update_count key b
revision_past now app key r hash ps a response b expected er k =
    let met : expected_other (some expected) k.commit.expected_update_count ≡ false =
      ap (λ o. expected_other o k.commit.expected_update_count) (sym er) ∙ k.expected in
    let next = (commit_at_revision now k.commit a b k.done).1 in
    ground (arith, met, next, ap (λ x. update_count x b) k.document)

module _ (engine : DocumentEngine) (secure : SecureLog) (peer : ℕ) where
  -- A request that is sent again (with the same hash) after it succeeded, and after any sequence of
  -- commits, claims and acknowledgements since then, gets the response of the first time, and the
  -- second time nothing is written.
  pub mutate_retry :
      (from now later : ℕ) (app : String) (r : MutateDocument) (hash : Hash)
      (ps qs : List ProjectionWrite) (a : Database) (response : Response) (b d : Database)
      → mutate engine secure peer now app r hash ps a ≡ ok (response, b)
      → Steps from b d
      → mutate engine secure peer later app r hash qs d ≡ ok (response, d)
  mutate_retry from now later app r hash ps qs a response b d e steps =
      mutate_known engine secure peer later app r hash qs d response
        (mutate-HasIds engine secure peer now app r hash ps a _ e)
        (Steps-keep_answer from app r.idempotency_key hash response b d steps
          (mutate-stored engine secure peer now app r hash ps a response b e))

  -- Of two mutations of a document that expect the same revision, the second one loses: after the
  -- first is carried out, and after any sequence of commits, claims and acknowledgements since then,
  -- the other one, with valid identifiers and a key without an answer, is refused with a revision
  -- conflict.
  pub second_writer_conflicts :
      (from now later expected : ℕ) (app : String) (r s : MutateDocument) (hash other : Hash)
      (ps : List ProjectionWrite) (a : Database) (response : Response) (b d : Database)
      → Carried now app (document_key app r) r hash ps a response b
      → Steps from b d
      → document_key app s ≡ document_key app r
      → r.expected_revision ≡ some expected
      → s.expected_revision ≡ some expected
      → HasIds s
      → any (of_key app s.idempotency_key) d.idempotency ≡ false
      → mutate engine secure peer later app s other [] d ≡ err stale
  second_writer_conflicts from now later expected app r s hash other ps a response b d k steps same
        er es ids fresh =
      let past =
        Steps-past (document_key app r) expected from b d steps
          (revision_past now app (document_key app r) r hash ps a response b expected er k) in
      mutate-stale_revision engine secure peer later app s other d expected ids fresh es
        (λ e. omega (arith, past, e, ap (λ x. update_count x d) same))
