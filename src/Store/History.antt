-- ===== src/Store/History.antt =====
-- What holds of the store after any history of commits, claims and acknowledgements.
use community_stack.Common.{
  ◌↔◌, ◌<◌, ◌++◌, length, true, ℕ, String, ◌≡◌, ◌≤◌, sym, subst, List, In, arith,
}
use community_stack.Domain.Replication.{OutboxItem, AckOutbox}
use community_stack.Failure.{ok, >>=-eq-ok}
use community_stack.Domain.Documents.{DocumentChanges, DocumentChangesPage}
use community_stack.Ports.{LocalCommit}
use community_stack.Store.Commit.{commit_local}
use community_stack.Store.Documents.{feed, changes}
use community_stack.Store.Documents.Pages.{IsAscending, commit-IsAscending, changes_resume}
use community_stack.Store.Tables.{LogTables, Operation, Database, empty}
use community_stack.Store.Commit.Chain.{IsChained, empty-IsChained, commit-IsChained, no_gap}
use community_stack.Store.Outbox.{validate_id, claim_outbox, ack_outbox}
use community_stack.Store.Outbox.Steps.{Step, committed, claimed, acknowledged, Steps, done, next}

claim-log :
    (now : ℕ) (t : String) (limit m : ℕ) (items : List OutboxItem) (a b : Database)
    → claim_outbox now t limit m a ≡ ok (items, b)
    → b.log ≡ a.log
unfolding claim_outbox
claim-log now t limit m items a b e =
    let (u, v, w) = >>=-eq-ok (validate_id t "transport") _ e in ground arith

ack-log : (now : ℕ) (ack : AckOutbox) (a b : Database) → ack_outbox now ack a ≡ ok b → b.log ≡ a.log
unfolding ack_outbox
ack-log now ack a b e =
    let (u, v, w) = >>=-eq-ok (validate_id ack.transport "transport") _ e in ground arith

-- A property of the signed logs that commits keep is kept by every history.
pub Steps-keep :
    (P : LogTables → Type 0)
    → ((now : ℕ) (c : LocalCommit) (a b : Database)
        → commit_local now c a ≡ ok b
        → P a.log
        → P b.log)
    → (from : ℕ) (a b : Database) → Steps from a b
    → P a.log
    → P b.log
Steps-keep P keep from a b done h = h
Steps-keep P keep from a b (next {b = c} s r) h = Steps-keep P keep from c b r (step s)
  where
    step : Step from a c → P c.log
    step (committed now x e) = keep now x a c e h
    step (claimed now t limit m items since e) =
        subst P (sym (claim-log now t limit m items a c e)) h
    step (acknowledged now ack e) = subst P (sym (ack-log now ack a c e)) h

-- After any history from a store in which only applications are registered, the logs have no gap: below every stored operation of a
-- log there is one of the same author and log at each smaller sequence number.
pub history_no_gap :
    (apps : List String) (from n : ℕ) (b : Database) (o : Operation)
    → Steps from (empty apps) b
    → In o b.log.operations
    → n ≤ o.sequence
    → (p : Operation) × In p b.log.operations
      × (p.author_key ≡ o.author_key)
      × (p.log_id ≡ o.log_id)
      × (p.sequence ≡ n)
history_no_gap apps from n b o steps m le =
    no_gap b.log n o
      (Steps-keep IsChained (λ now c x y e h. commit-IsChained now c x y h e) from (empty apps) b
        steps empty-IsChained)
      m le

-- After any history from a store in which only applications are registered, a page of the change feed and the feed behind its cursor
-- are together the feed from where the page began, so a reader that goes on from each cursor gets
-- every change once and in order; and `has_more` says exactly whether anything is left.
pub history_pages_cover :
    (apps : List String) (from : ℕ) (app : String) (r : DocumentChanges) (b : Database)
    (page : DocumentChangesPage)
    → Steps from (empty apps) b
    → changes app r b ≡ ok page
    → (page.changes ++ feed app r.community_id page.next_cursor b
        ≡ feed app r.community_id r.after b)
      × ((page.has_more ≡ true) ↔ (0 < length (feed app r.community_id page.next_cursor b)))
history_pages_cover apps from app r b page steps e =
    changes_resume app r b page
      (Steps-keep (λ t. IsAscending 0 t.changes) commit-IsAscending from (empty apps) b steps tt) e
