-- ===== src/Store/Documents.antt =====
-- `changes` of src/adapters/sqlite/documents.rs: the change feed of a namespace, page by page.
pub mod Feed
pub mod Pages
use community_stack.Common.{
  ℕ, suc, ◌+◌, ◌^◌, ◌-◌, String, Bool, not, ◌&&◌, List, [], ◌∷◌, Option, none, some, str_eq, ltb,
  leb, map, select, take, length, get_last?,
}
use community_stack.Common.Sort.{sort}
use community_stack.Domain.Documents.{DocumentChanges, DocumentChangeEntry, DocumentChangesPage}
use community_stack.Failure.{Result, ok, bail, reject, ◌>>=◌, ◌>>◌}
use community_stack.Store.Tables.{DocumentChangeRow, Database}

-- `WHERE app_id=?1 AND community_id=?2 AND change_id>?3`
unfoldable pub in_feed : String → String → ℕ → DocumentChangeRow → Bool
in_feed app community after r =
    str_eq r.document.app_id app
    && str_eq r.document.community_id community
    && ltb after r.change_id

unfoldable pub row_before : DocumentChangeRow → DocumentChangeRow → Bool
row_before a b = ltb a.change_id b.change_id

abbrev pub entry : DocumentChangeRow → DocumentChangeEntry
entry r = record {
  cursor = r.change_id;
  document_id = r.document.document_id;
  operation_hash = r.operation_hash;
}

-- The query without its `LIMIT`.
unfoldable pub feed : String → String → ℕ → Database → List DocumentChangeEntry
feed app community after db =
    map entry (sort row_before (select (in_feed app community after) db.log.changes))

abbrev pub cursor_of : Option DocumentChangeEntry → ℕ → ℕ
cursor_of none after = after
cursor_of (some e) after = e.cursor

unfoldable pub changes : String → DocumentChanges → Database → Result DocumentChangesPage
changes app r db = do
  reject (not (ltb r.after (2 ^ 63))) (bail "out of range integral type conversion attempted")
  let fetched = take (suc r.limit) (feed app r.community_id r.after db)
  let page = take r.limit fetched
  ok (record {
    changes = page;
    next_cursor = cursor_of (get_last? page) r.after;
    has_more = ltb r.limit (length fetched);
  })
