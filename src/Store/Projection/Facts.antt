-- ===== src/Store/Projection/Facts.antt =====
-- `ProjectionWrite::FactRevision` in `apply_projection` of src/adapters/sqlite.rs.
pub mod Revisions
use community_stack.Common.{
  ℕ, ◌+◌, ◌^◌, ◌-◌, String, Bool, true, false, not, ◌&&◌, List, [], ◌∷◌, ◌++◌, Option, none, some,
  min, max, ◌==◌, opt_eq, str_eq, any, find, update,
}
use community_stack.Domain.Error.{conflict}
use community_stack.Domain.Replication.{Hash}
use community_stack.Domain.Facts.{FactLifecycleStatus, FactRevisionProjection}
use community_stack.Failure.{Result, ok, bail, reject, or_fail, protocol_error, ◌>>=◌, ◌>>◌}
use community_stack.Store.Tables.{Operation, Claim, Revision, Database}

abbrev pub is_asserted : FactLifecycleStatus → Bool
is_asserted FactLifecycleStatus.asserted = true
is_asserted _ = false

-- `WHERE app_id=?1 AND community_id=?2 AND claim_id=?3`
unfoldable pub is_claim : String → String → String → Claim → Bool
is_claim app community id c =
    str_eq c.app_id app && str_eq c.claim.community_id community && str_eq c.claim.claim_id id

-- The active claims of other identifiers that say something of the same subject and predicate.
unfoldable pub is_rival : String → String → String → String → String → Claim → Bool
is_rival app community id subject predicate c =
    str_eq c.app_id app
    && str_eq c.claim.community_id community
    && not (str_eq c.claim.claim_id id)
    && str_eq c.claim.subject subject
    && str_eq c.claim.predicate predicate
    && not c.retracted

unfoldable pub active_conflict : String → String → String → String → String → Database → Bool
active_conflict app community id subject predicate db =
    any (is_rival app community id subject predicate) db.facts.claims

abbrev pub previous_hash : Option Claim → Option Hash
previous_hash none = none
previous_hash (some c) = some c.claim.source_operation_hash

abbrev pub i64_max : ℕ
i64_max = 2 ^ 63 - 1

-- `previous_time.saturating_add(1)`
abbrev pub revision_time : Option Claim → ℕ → ℕ
revision_time none now = now
revision_time (some c) now = max now (min (c.claim.updated_at_ms + 1) i64_max)

-- `commit_author`
unfoldable pub commit_author : Hash → Database → Result Hash
commit_author hash db = do
  o ←
      or_fail (find (λ (o : Operation). o.operation_hash == hash) db.log.operations)
        (bail "Query returned no rows")
  ok o.author_key

unfoldable pub has_hash : Hash → Revision → Bool
has_hash hash r = r.revision.operation_hash == hash

-- `UPDATE fact_claim_revisions SET lifecycle_status='SUPERSEDED' WHERE operation_hash=?1`
unfoldable pub supersede : Option Hash → List Revision → List Revision
unfolding has_hash
supersede none rs = rs
supersede (some hash) rs =
    update (has_hash hash)
      (λ r. record r {
        revision = record r.revision { lifecycle_status = FactLifecycleStatus.superseded };
      })
      rs

new_revision : String → Hash → FactRevisionProjection → Hash → ℕ → Option Hash → Revision
new_revision app hash p author now previous = record {
  app_id = app;
  revision = record {
    operation_hash = hash;
    claim_id = p.claim_id;
    community_id = p.community_id;
    subject = p.subject;
    predicate = p.predicate;
    object_json = p.object_json;
    source = p.source;
    confidence = p.confidence;
    author_key = author;
    schema_id = p.schema_id;
    schema_version = p.schema_version;
    asserted_at_ms = now;
    supersedes_operation_hash = previous;
    lifecycle_status = p.lifecycle_status;
    source_document_id = p.source_document_id;
  };
}

unfoldable pub new_claim : String → Hash → FactRevisionProjection → ℕ → Claim
new_claim app hash p now = record {
  app_id = app;
  claim = record {
    claim_id = p.claim_id;
    community_id = p.community_id;
    subject = p.subject;
    predicate = p.predicate;
    object_json = p.object_json;
    source = p.source;
    confidence = p.confidence;
    source_operation_hash = hash;
    updated_at_ms = now;
    schema_id = p.schema_id;
    schema_version = p.schema_version;
    lifecycle_status = p.lifecycle_status;
    source_document_id = p.source_document_id;
  };
  retracted = not (is_asserted p.lifecycle_status);
}

-- `INSERT … ON CONFLICT(app_id,community_id,claim_id) DO UPDATE` of every other column.
unfoldable pub upsert_claim : Option Claim → Claim → List Claim → List Claim
upsert_claim none c cs = cs ++ c ∷ []
upsert_claim (some old) c cs =
    update (is_claim c.app_id c.claim.community_id c.claim.claim_id) (λ _. c) cs

-- The writes, after the guards have passed.
unfoldable pub write_fact :
    String → Hash → FactRevisionProjection → Option Claim → ℕ → Hash → Database → Database
unfolding new_revision new_claim
write_fact app hash p stored now author db = record db {
  facts = record db.facts {
    revisions =
        supersede (previous_hash stored) db.facts.revisions
        ++ new_revision app hash p author now (previous_hash stored) ∷ [];
    claims = upsert_claim stored (new_claim app hash p now) db.facts.claims;
  };
}

unfoldable pub apply_fact : String → Hash → FactRevisionProjection → ℕ → Database → Result Database
apply_fact app hash p now db = do
  let stored = find (is_claim app p.community_id p.claim_id) db.facts.claims
  reject (not (opt_eq (previous_hash stored) p.expected_previous_operation_hash))
      (protocol_error conflict "fact current revision changed before commit" true)
  reject
      (is_asserted p.lifecycle_status
        && not p.multiple_active_claims
        && active_conflict app p.community_id p.claim_id p.subject p.predicate db)
      (bail "schema permits only one active claim for this subject and predicate")
  author ← commit_author hash db
  reject (any (has_hash hash) db.facts.revisions) (bail "UNIQUE constraint failed")
  ok (write_fact app hash p stored (revision_time stored now) author db)
