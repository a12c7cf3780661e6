-- ===== src/Examples/Data.antt =====
-- A small community: one author, one document, one transport.
use community_stack.Common.{ℕ, String, [], ◌∷◌, Option, none, some, suc, ◌+◌}
use community_stack.Domain.Json.{null}
use community_stack.Domain.Documents.{DocumentKey, MutateDocument}
use community_stack.Domain.Replication.{Hash, CanonicalRecord}
use community_stack.Failure.{Result, ok, err}
use community_stack.Ports.{LocalCommit, DocumentEngine, SecureLog}
use community_stack.Store.Tables.{Database, empty}
use community_stack.Store.Commit.{commit_local}

abbrev pub from_ok : {A : Type 0} → A → Result A → A
from_ok a (ok b) = b
from_ok a (err e) = a

abbrev pub key : DocumentKey
key = record { app_id = "app"; community_id = "c1"; document_id = "d1" }

abbrev pub canonical : ℕ → ℕ → Option Hash → CanonicalRecord
canonical hash sequence backlink = record {
  operation_hash = hash;
  canonical_header = 1 ∷ 2 ∷ [];
  body_ciphertext = 3 ∷ [];
  author_key = 77;
  log_id = 88;
  sequence = sequence;
  backlink = backlink;
  metadata = record {
    app_id = "app";
    community_id = "c1";
    document_id = "d1";
    record_kind = 1;
    codec_version = 1;
    key_epoch = 1;
  };
}

abbrev pub commit : String → ℕ → ℕ → Option Hash → LocalCommit
commit idempotency hash revision backlink = record {
  expected_update_count = revision;
  idempotency_app_id = "app";
  canonical_record = canonical hash revision backlink;
  document = key;
  update_bytes = 9 ∷ [];
  projections = [];
  request_hash = 500 + hash;
  idempotency_key = idempotency;
  response = record { operation_hash = hash; state = null; revision = suc revision };
}

abbrev pub first : LocalCommit
first = commit "k1" 11 0 none

abbrev pub second : LocalCommit
second = commit "k2" 12 1 (some 11)

-- Prepared while `first` was not there yet.
abbrev pub late : LocalCommit
late = commit "k3" 13 0 none

-- A store in which the application is registered.
abbrev pub registered : Database
registered = empty ("app" ∷ [])

abbrev pub one : Database
one = from_ok registered (commit_local 1000 first registered)

abbrev pub two : Database
two = from_ok registered (commit_local 2000 second one)

abbrev pub engine : DocumentEngine
engine = record {
  read_state = λ us p. ok null;
  stage_mutations = λ us p ms. ok (record { update_bytes = 9 ∷ []; state = null });
}

-- The hash of a forged record is a number that grows with its place.
abbrev pub secure : SecureLog
secure = record {
  author_key = 77;
  document_log_id = λ k. 88;
  forge_document_update = λ i. ok (record {
    operation_hash = 11 + i.sequence;
    canonical_header = 1 ∷ 2 ∷ [];
    body_ciphertext = 3 ∷ [];
    author_key = 77;
    log_id = 88;
    sequence = i.sequence;
    backlink = i.backlink;
    metadata = record {
      app_id = i.key.app_id;
      community_id = i.key.community_id;
      document_id = i.key.document_id;
      record_kind = 1;
      codec_version = 1;
      key_epoch = i.key_epoch;
    };
  });
}

abbrev pub request : String → Option ℕ → MutateDocument
request idempotency expected = record {
  community_id = "c1";
  document_id = "d1";
  mutations = [];
  expected_revision = expected;
  schema_version = 1;
  idempotency_key = idempotency;
}
