-- ===== src/Examples/Feed.antt =====
-- The change feed.
use community_stack.Common.{
  ℕ, String, ◌≡◌, ◌↔◌, ◌<◌, ◌++◌, refl, List, [], ◌∷◌, Option, none, some, true, false, arith, find,
  all, In, inl, inr, length, if◌then◌else◌,
}
use community_stack.Domain.Documents.{DocumentChanges, DocumentChangesPage}
use community_stack.Failure.{ok}
use community_stack.Store.Documents.{feed, changes}
use community_stack.Store.Outbox.Steps.{committed, done, next}
use community_stack.Store.History.{history_pages_cover}
use community_stack.Examples.Data.{first, second, two}
use community_stack.Examples.Log.{first_done, second_done}

abbrev asked : DocumentChanges
asked = record { community_id = "c1"; profile_id = none; after = 0; limit = 1 }

abbrev page : DocumentChangesPage
page = record {
  changes = record { cursor = 1; document_id = "d1"; operation_hash = 11 } ∷ [];
  next_cursor = 1;
  has_more = true;
}

asked_done : changes "app" asked two ≡ ok page
unfolding changes feed community_stack.Store.Documents.in_feed
    community_stack.Store.Documents.row_before community_stack.Common.select
    community_stack.Common.Sort.sort community_stack.Common.Sort.insert
    community_stack.Store.Commit.commit_local community_stack.Store.Commit.admissible
    community_stack.Store.Read.update_count community_stack.Store.Read.log_head
    community_stack.Store.Commit.follows community_stack.Store.Commit.same_operation
    community_stack.Store.Commit.append_record community_stack.Store.Commit.apply_projections
    community_stack.Store.Commit.store_response community_stack.Store.Read.same_document
    community_stack.Common.any community_stack.Common.count community_stack.Common.find
    community_stack.Store.Read.of_key community_stack.Store.Commit.set_head
    community_stack.Store.Commit.next_outbox_id community_stack.Store.Commit.next_change_id
    community_stack.Store.Commit.priority_for community_stack.Store.Read.of_log
    community_stack.Store.Read.of_document
asked_done = refl

history_pages_cover_example :
    (page.changes ++ feed "app" "c1" page.next_cursor two ≡ feed "app" "c1" 0 two)
    × ((page.has_more ≡ true) ↔ (0 < length (feed "app" "c1" page.next_cursor two)))
history_pages_cover_example =
    history_pages_cover ("app" ∷ []) 0 "app" asked two page
      (next (committed 1000 first first_done) (next (committed 2000 second second_done) done))
      asked_done
