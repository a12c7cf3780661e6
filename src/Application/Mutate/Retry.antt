-- ===== src/Application/Mutate/Retry.antt =====
-- What a mutation that succeeds leaves, and what its key answers afterwards.
use community_stack.Common.{
  ℕ, suc, String, ◌⊎◌, ◌≡◌, ◌≢◌, refl, ap, ap₂, ◌∙◌, sym, false, List, Option, none, some, ◌==◌,
  ==_iff, length, if◌then◌else◌, arith, inl, inr, not, ltb,
}
use community_stack.Domain.Error.{revision_conflict, idempotency_conflict}
use community_stack.Domain.Documents.{DocumentKey, MutateDocument}
use community_stack.Domain.Replication.{Hash}
use community_stack.Failure.{Error, ok, err, bail, reject, protocol_error, >>=-eq-ok, reject-eq-ok}
use community_stack.Ports.{ProjectionWrite, Response, LocalCommit, DocumentEngine, SecureLog}
use community_stack.Store.Tables.{Database}
use community_stack.Store.Read.{load_updates, log_head, idempotency}
use community_stack.Store.Channel.{to_string, ask, ask-eq-ok}
use community_stack.Store.Commit.{commit_local}
use community_stack.Store.Commit.Answers.{idempotency-commit}
use community_stack.Application.Validate.{validate_object_id, validate_idempotency_key}
use community_stack.Application.Mutate.{
  expected_other, next_place, forge_input, local_commit, u64_max, document_key, mutate_fresh,
  mutate_locked, mutate_in_namespace, mutate,
}

abbrev exhausted : Error
exhausted = bail "document revision exhausted"

abbrev pub reused : Error
reused =
    protocol_error idempotency_conflict "idempotency key was already used for a different request"
      false

abbrev pub stale : Error
stale =
    protocol_error revision_conflict
      "document revision conflict; read the document and reconcile before retrying" false

-- What a mutation that was carried out has committed.
pub record Carried (now : ℕ) (caller : String) (key : DocumentKey) (r : MutateDocument)
    (hash : Hash) (projections : List ProjectionWrite) (a : Database) (response : Response)
    (b : Database) : Type 0 where
  pub commit : LocalCommit
  pub done : commit_local now commit a ≡ ok b
  pub answer : commit.response ≡ response
  pub caller_ : commit.idempotency_app_id ≡ caller
  pub key_ : commit.idempotency_key ≡ r.idempotency_key
  pub hash_ : commit.request_hash ≡ hash
  pub document : commit.document ≡ key
  pub views : commit.projections ≡ projections
  pub expected : expected_other r.expected_revision commit.expected_update_count ≡ false
  pub next : response.revision ≡ suc commit.expected_update_count

module _ (engine : DocumentEngine) (secure : SecureLog) (peer : ℕ) where
  pub mutate_fresh-Carried :
      (now : ℕ) (caller : String) (key : DocumentKey) (r : MutateDocument) (hash : Hash)
      (ps : List ProjectionWrite) (a : Database) (response : Response) (b : Database)
      → mutate_fresh engine secure peer now caller key r hash ps a ≡ ok (response, b)
      → Carried now caller key r hash ps a response b
  unfolding mutate_fresh
  mutate_fresh-Carried now caller key r hash ps a response b e =
      let (u, e₀, e₁) =
        >>=-eq-ok (reject (expected_other r.expected_revision (length (load_updates key a))) stale)
          _ e in
      let (change, e₂, e₃) =
        >>=-eq-ok (engine.stage_mutations (load_updates key a) peer r.mutations) _ e₁ in
      let (place, e₄, e₅) =
        >>=-eq-ok (next_place (log_head secure.author_key (secure.document_log_id key) a)) _ e₃ in
      let (canonical, e₆, e₇) =
        >>=-eq-ok (secure.forge_document_update (forge_input key r place change)) _ e₅ in
      let (v, e₈, e₉) =
        >>=-eq-ok (reject (not (ltb (length (load_updates key a)) u64_max)) exhausted) _ e₇ in
      let c = local_commit caller key r hash ps (length (load_updates key a)) change canonical in
      let (d, committed, last) = >>=-eq-ok (ask (commit_local now c a)) _ e₉ in
      let same : (c.response, d) ≡ (response, b) = cc in
      record {
        commit = c;
        done = ask-eq-ok _ committed ∙ ap (λ (x : Response × Database). ok x.1) same;
        answer = ap (λ (x : Response × Database). x.0) same;
        caller_ = refl;
        key_ = refl;
        hash_ = refl;
        document = refl;
        views = refl;
        expected = reject-eq-ok _ _ e₀;
        next = ap (λ (x : Response × Database). x.0.revision) (sym same);
      }

-- The three checks on the identifiers of a request.
pub record HasIds (r : MutateDocument) : Type 0 where
  pub community : validate_object_id r.community_id "community_id" ≡ ok tt
  pub document : validate_object_id r.document_id "document_id" ≡ ok tt
  pub key : validate_idempotency_key r.idempotency_key ≡ ok tt

module _ (engine : DocumentEngine) (secure : SecureLog) (peer : ℕ) where
  -- A mutation that succeeds is answered from the store or carried out.
  abbrev pub Outcome :
      ℕ
      → String
      → DocumentKey
      → MutateDocument
      → Hash
      → List ProjectionWrite
      → Database
      → Response
      → Database
      → Type 0
  Outcome now app key r hash ps a response b =
      ((idempotency app r.idempotency_key hash a ≡ ok (some response)) × (a ≡ b))
      ⊎ Carried now app key r hash ps a response b

  pub locked-Outcome :
      (now : ℕ) (app : String) (key : DocumentKey) (r : MutateDocument) (hash : Hash)
      (ps : List ProjectionWrite) (a : Database) (response : Response) (b : Database)
      → mutate_locked engine secure peer now app key r hash ps a ≡ ok (response, b)
      → Outcome now app key r hash ps a response b
  unfolding mutate_locked
  locked-Outcome now app key r hash ps a response b e =
      let (stored, known, rest) = >>=-eq-ok (ask (idempotency app r.idempotency_key hash a)) _ e in
      go stored (ask-eq-ok _ known) rest
    where
      go :
          (stored : Option Response)
          → idempotency app r.idempotency_key hash a ≡ ok stored
          → elim stored [
            | some x ↦ ok (x, a)
            | none ↦ mutate_fresh engine secure peer now app key r hash ps a
          ]
            ≡ ok (response, b)
          → Outcome now app key r hash ps a response b
      go (some x) known e = inl (ground arith, ground arith)
      go none known e =
          inr (mutate_fresh-Carried engine secure peer now app key r hash ps a response b e)

  pub mutate-HasIds :
      (now : ℕ) (app : String) (r : MutateDocument) (hash : Hash) (ps : List ProjectionWrite)
      (a : Database) (answer : Response × Database)
      → mutate engine secure peer now app r hash ps a ≡ ok answer
      → HasIds r
  unfolding mutate
  mutate-HasIds now app r hash ps a answer e =
      let (u, e₀, e₁) = >>=-eq-ok (validate_object_id r.community_id "community_id") _ e in
      let (v, e₂, e₃) = >>=-eq-ok (validate_object_id r.document_id "document_id") _ e₁ in
      let (w, e₄, e₅) = >>=-eq-ok (validate_idempotency_key r.idempotency_key) _ e₃ in
      record { community = e₀; document = e₂; key = e₄ }

  pub mutate-Outcome :
      (now : ℕ) (app : String) (r : MutateDocument) (hash : Hash) (ps : List ProjectionWrite)
      (a : Database) (response : Response) (b : Database)
      → mutate engine secure peer now app r hash ps a ≡ ok (response, b)
      → Outcome now app (document_key app r) r hash ps a response b
  unfolding mutate mutate_in_namespace
  mutate-Outcome now app r hash ps a response b e =
      let (u, e₀, e₁) = >>=-eq-ok (validate_object_id r.community_id "community_id") _ e in
      let (v, e₂, e₃) = >>=-eq-ok (validate_object_id r.document_id "document_id") _ e₁ in
      let (w, e₄, e₅) = >>=-eq-ok (validate_idempotency_key r.idempotency_key) _ e₃ in
      let (stored, known, rest) = >>=-eq-ok (ask (idempotency app r.idempotency_key hash a)) _ e₅ in
      go stored (ask-eq-ok _ known) rest
    where
      go :
          (stored : Option Response)
          → idempotency app r.idempotency_key hash a ≡ ok stored
          → elim stored [
            | some x ↦ ok (x, a)
            | none ↦ mutate_locked engine secure peer now app (document_key app r) r hash ps a
          ]
            ≡ ok (response, b)
          → Outcome now app (document_key app r) r hash ps a response b
      go (some x) known e = inl (ground arith, ground arith)
      go none known e = locked-Outcome now app (document_key app r) r hash ps a response b e

  -- A request whose answer is stored gets that answer, and nothing is written.
  pub mutate_known :
      (now : ℕ) (app : String) (r : MutateDocument) (hash : Hash) (ps : List ProjectionWrite)
      (a : Database) (response : Response)
      → HasIds r
      → idempotency app r.idempotency_key hash a ≡ ok (some response)
      → mutate engine secure peer now app r hash ps a ≡ ok (response, a)
  unfolding mutate ask
  mutate_known now app r hash ps a response ids known =
      rw (ids.community, ids.document, ids.key, known)

  -- The answer that a carried-out mutation leaves for its key.
  stored_answer :
      (now : ℕ) (app : String) (r : MutateDocument) (hash other : Hash) (ps : List ProjectionWrite)
      (a : Database) (response : Response) (b : Database)
      → Carried now app (document_key app r) r hash ps a response b
      → idempotency app r.idempotency_key other b
        ≡ (if hash == other then ok (some response) else err reused)
  stored_answer now app r hash other ps a response b k =
      ap₂ (λ x y. idempotency x y other b) (sym k.caller_) (sym k.key_)
      ∙ idempotency-commit now k.commit a b other k.done
      ∙ ap₂ (λ x y. if x == other then ok (some y) else err reused) k.hash_ k.answer

  -- The response of a mutation that succeeded is stored for its key.
  pub mutate-stored :
      (now : ℕ) (app : String) (r : MutateDocument) (hash : Hash) (ps : List ProjectionWrite)
      (a : Database) (response : Response) (b : Database)
      → mutate engine secure peer now app r hash ps a ≡ ok (response, b)
      → idempotency app r.idempotency_key hash b ≡ ok (some response)
  mutate-stored now app r hash ps a response b e =
      elim (mutate-Outcome now app r hash ps a response b e) [
        | inl (known, same) ↦ ap (idempotency app r.idempotency_key hash) (sym same) ∙ known
        | inr k ↦
            stored_answer now app r hash hash ps a response b k
            ∙ ap (λ t. if t then ok (some response) else err reused) ((==_iff hash hash).1 refl)
      ]

  -- After a carried-out mutation, a request of another hash under the same key, with valid
  -- identifiers, is refused; the typed conflict of the store arrives as its message alone.
  pub mutate_reused_key :
      (now later : ℕ) (app : String) (r s : MutateDocument) (hash other : Hash)
      (ps qs : List ProjectionWrite) (a : Database) (response : Response) (b : Database)
      → Carried now app (document_key app r) r hash ps a response b
      → s.idempotency_key ≡ r.idempotency_key
      → hash ≢ other
      → HasIds s
      → mutate engine secure peer later app s other qs b
        ≡ err (bail "idempotency key was already used for a different request")
  unfolding mutate ask to_string protocol_error
  mutate_reused_key now later app r s hash other ps qs a response b k same ne ids =
      let known : idempotency app s.idempotency_key other b ≡ err reused =
        ap (λ x. idempotency app x other b) same
        ∙ stored_answer now app r hash other ps a response b k
        ∙ ground (arith, ==_iff hash other) in
      rw (ids.community, ids.document, ids.key, known)
