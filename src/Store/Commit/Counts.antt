-- ===== src/Store/Commit/Counts.antt =====
-- The number of updates of a document, which clients see as its revision.
use community_stack.Common.{
  ℕ, suc, ◌+◌, ◌≡◌, refl, ◌∙◌, ap, Bool, true, [], ◌∷◌, arith, if◌then◌else◌, count, count-append,
  sym,
}
use community_stack.Domain.Error.{conflict}
use community_stack.Domain.Documents.{DocumentKey}
use community_stack.Failure.{ok, err, protocol_error}
use community_stack.Ports.{LocalCommit}
use community_stack.Store.Tables.{Database}
use community_stack.Store.Read.{same_document, same_document_iff, of_document, update_count}
use community_stack.Store.Commit.{metadata_key, append_record, new_update, admissible, commit_local}
use community_stack.Store.Commit.Shape.{commit-Committed}

-- A commit adds one update to its own document and none to any other.
pub update_count-commit :
    (now : ℕ) (c : LocalCommit) (a b : Database) (key : DocumentKey)
    → commit_local now c a ≡ ok b
    → update_count key b ≡ update_count key a + (if same_document c.document key then 1 else 0)
unfolding update_count append_record of_document count
update_count-commit now c a b key e =
    let done = commit-Committed now c a b e in
    omega (
      arith,
      ap (λ t. count (of_document key) t.updates) done.log,
      count-append (of_document key) a.log.updates (new_update c now ∷ []),
    )

-- A commit succeeds only at the revision that it expects, and moves its document to the next one.
pub commit_at_revision :
    (now : ℕ) (c : LocalCommit) (a b : Database)
    → commit_local now c a ≡ ok b
    → (update_count c.document a ≡ c.expected_update_count)
      × (update_count c.document b ≡ suc c.expected_update_count)
commit_at_revision now c a b e =
    let done = commit-Committed now c a b e in
    let same = (same_document_iff c.document c.document).1 refl in
    (
      done.counted,
      omega (
        arith,
        done.counted,
        update_count-commit now c a b c.document e,
        ap {B = ℕ} (λ (t : Bool). if t then 1 else 0) same,
      ),
    )

-- After a commit, a second commit to the same document that was prepared at the same revision, and
-- whose record names its document, fails in the store with a retryable conflict.
pub stale_commit_conflicts :
    (now later : ℕ) (c d : LocalCommit) (a b : Database)
    → commit_local now c a ≡ ok b
    → d.document ≡ c.document
    → d.expected_update_count ≡ c.expected_update_count
    → metadata_key d.canonical_record.metadata ≡ d.document
    → commit_local later d b
      ≡ err (protocol_error conflict "document state changed before commit" true)
unfolding commit_local admissible
stale_commit_conflicts now later c d a b e doc expected described =
    let after = (commit_at_revision now c a b e).1 in
    let here : update_count d.document b ≡ suc d.expected_update_count =
      ap (λ k. update_count k b) doc ∙ after ∙ ap suc (sym expected) in
    ground (
      arith,
      (same_document_iff (metadata_key d.canonical_record.metadata) d.document).1 described,
      here,
    )
