-- ===== src/Store/Documents/Pages.antt =====
-- The pages of the change feed cover it.
use community_stack.Common.{
  ◌↔◌, length-take, length-append, ℕ, suc, zero, ◌<◌, ◌≤◌, ◌^◌, ◌≡◌, refl, sym, ap, ap₂, ◌∙◌, subst,
  String, Bool, true, not, List, [], ◌∷◌, ◌++◌, arith, select, take, drop, get_last?, ltb, map,
  length, Bool-cases, inl, inr,
}
use community_stack.Common.Sort.{sort, insert}
use community_stack.Domain.Documents.{DocumentChanges, DocumentChangeEntry, DocumentChangesPage}
use community_stack.Failure.{ok, reject, bail, >>=-eq-ok, ok_eq}
use community_stack.Store.Tables.{DocumentChangeRow, Database}
use community_stack.Store.Commit.{next_change_id, append_record}
use community_stack.Store.Commit.Shape.{commit-Committed}
use community_stack.Store.Documents.{in_feed, row_before, entry, feed, cursor_of, changes}
use community_stack.Store.Documents.Feed.{IsRising, is_after, page_advances, select-after_page}

-- The rows of the feed are in the order of their identifiers.
abbrev pub IsAscending : ℕ → List DocumentChangeRow → Type 0
IsAscending n [] = Unit
IsAscending n (r ∷ rs) = (n < r.change_id) × IsAscending r.change_id rs

IsAscending-mono :
    (n m : ℕ) (rs : List DocumentChangeRow) → n ≤ m → IsAscending m rs → IsAscending n rs
IsAscending-mono n m [] le h = tt
IsAscending-mono n m (r ∷ rs) le h = (omega (arith, le, h.0), h.1)

IsAscending-select :
    (p : DocumentChangeRow → Bool) (n : ℕ) (rs : List DocumentChangeRow)
    → IsAscending n rs
    → IsAscending n (select p rs)
unfolding select
IsAscending-select p n [] h = tt
IsAscending-select p n (r ∷ rs) h = elim (Bool-cases (p r)) [
  | inl b ↦ rw b (h.0, IsAscending-select p r.change_id rs h.1)
  | inr b ↦
      rw b (IsAscending-select p n rs (IsAscending-mono n r.change_id rs (omega (arith, h.0)) h.1))
]

sort-ascending : (n : ℕ) (rs : List DocumentChangeRow) → IsAscending n rs → sort row_before rs ≡ rs
unfolding sort insert row_before
sort-ascending n [] h = refl
sort-ascending n (r ∷ []) h = refl
sort-ascending n (r ∷ q ∷ rs) h =
    ap (insert (λ a b. not (row_before b a)) r) (sort-ascending r.change_id (q ∷ rs) h.1)
    ∙ ground (arith, h.1.0)

-- A later cursor selects from the feed what is behind it.
feed_after :
    (app community : String) (after later : ℕ) (rs : List DocumentChangeRow)
    → after ≤ later
    → map entry (select (in_feed app community later) rs)
      ≡ select (is_after later) (map entry (select (in_feed app community after) rs))
unfolding select in_feed
feed_after app community after later [] le = refl
feed_after app community after later (r ∷ rs) le =
    ground (arith, le, feed_after app community after later rs le)

IsRising-from :
    (p : DocumentChangeRow → Bool) (n : ℕ) (rs : List DocumentChangeRow)
    → IsAscending n rs
    → IsRising n (map entry (select p rs))
unfolding select
IsRising-from p n [] h = tt
IsRising-from p n (r ∷ rs) h = elim (Bool-cases (p r)) [
  | inl b ↦ rw b (h.0, IsRising-from p r.change_id rs h.1)
  | inr b ↦ rw b (IsRising-from p n rs (IsAscending-mono n r.change_id rs (omega (arith, h.0)) h.1))
]

IsRising-after :
    (app community : String) (after n : ℕ) (rs : List DocumentChangeRow)
    → IsAscending n rs
    → IsRising after (map entry (select (in_feed app community after) rs))
unfolding select in_feed
IsRising-after app community after n [] h = tt
IsRising-after app community after n (r ∷ rs) h =
    elim (Bool-cases (in_feed app community after r)) [
      | inl b ↦
          rw b (ground (arith, b), IsRising-from (in_feed app community after) r.change_id rs h.1)
      | inr b ↦ rw b (IsRising-after app community after r.change_id rs h.1)
    ]

append-IsAscending :
    (n : ℕ) (rs : List DocumentChangeRow) (new : DocumentChangeRow)
    → IsAscending n rs
    → n < new.change_id
    → next_change_id rs ≤ new.change_id
    → IsAscending n (rs ++ new ∷ [])
unfolding next_change_id
append-IsAscending n [] new h lt le = (lt, tt)
append-IsAscending n (r ∷ rs) new h lt le =
    (h.0, append-IsAscending r.change_id rs new h.1 (omega (arith, le)) (omega (arith, le)))

next_change_id_pos : (rs : List DocumentChangeRow) → 0 < next_change_id rs
unfolding next_change_id
next_change_id_pos [] = omega arith
next_change_id_pos (r ∷ rs) = omega (arith, next_change_id_pos rs)

-- A commit puts its change behind all others.
pub commit-IsAscending :
    (now : ℕ) (c : community_stack.Ports.LocalCommit) (a b : Database)
    → community_stack.Store.Commit.commit_local now c a ≡ ok b
    → IsAscending 0 a.log.changes
    → IsAscending 0 b.log.changes
unfolding append_record
commit-IsAscending now c a b e h =
    let done = commit-Committed now c a b e in
    subst (λ t. IsAscending 0 t.changes) (sym done.log)
      (append-IsAscending 0 a.log.changes _ h (next_change_id_pos a.log.changes) (omega arith))

-- The feed of a database whose changes are in order is the rows behind the cursor.
feed-eq :
    (app community : String) (after : ℕ) (db : Database)
    → IsAscending 0 db.log.changes
    → feed app community after db ≡ map entry (select (in_feed app community after) db.log.changes)
unfolding feed
feed-eq app community after db h =
    ap (map entry)
      (sort-ascending 0 _ (IsAscending-select (in_feed app community after) 0 db.log.changes h))

take-take : (k : ℕ) (es : List DocumentChangeEntry) → take k (take (suc k) es) ≡ take k es
take-take zero es = refl
take-take (suc k) [] = refl
take-take (suc k) (e ∷ es) = ap (λ xs. e ∷ xs) (take-take k es)

take-drop : (k : ℕ) (es : List DocumentChangeEntry) → take k es ++ drop k es ≡ es
take-drop zero es = refl
take-drop (suc k) [] = refl
take-drop (suc k) (e ∷ es) = ap (λ xs. e ∷ xs) (take-drop k es)

feed-resume :
    (app community : String) (k after : ℕ) (db : Database)
    → IsAscending 0 db.log.changes
    → feed app community (cursor_of (get_last? (take k (feed app community after db))) after) db
      ≡ drop k (feed app community after db)
feed-resume app community k after db h =
    let here = feed-eq app community after db h in
    let es = map entry (select (in_feed app community after) db.log.changes) in
    let rising : IsRising after es = IsRising-after app community after 0 db.log.changes h in
    let later = cursor_of (get_last? (take k es)) after in
    ap (λ xs. feed app community (cursor_of (get_last? (take k xs)) after) db) here
    ∙ feed-eq app community later db h
    ∙ feed_after app community after later db.log.changes (page_advances k after es rising)
    ∙ select-after_page k after es rising
    ∙ ap (drop k) (sym here)

-- What a successful request gets.
changes-eq-ok :
    (app : String) (r : DocumentChanges) (db : Database) (page : DocumentChangesPage)
    → changes app r db ≡ ok page
    → let es = feed app r.community_id r.after db in
      (page.changes ≡ take r.limit es)
      × (page.next_cursor ≡ cursor_of (get_last? (take r.limit es)) r.after)
      × (page.has_more ≡ ltb r.limit (length (take (suc r.limit) es)))
unfolding changes
changes-eq-ok app r db page e =
    let es = feed app r.community_id r.after db in
    let (u, e₀, e₁) =
      >>=-eq-ok
        (reject (not (ltb r.after (2 ^ 63)))
          (bail "out of range integral type conversion attempted"))
        _ e in
    let is = ok_eq e₁ in
    let shorter = take-take r.limit es in
    (
      ap (λ (x : DocumentChangesPage). x.changes) (sym is) ∙ shorter,
      ap (λ (x : DocumentChangesPage). x.next_cursor) (sym is)
          ∙ ap (λ xs. cursor_of (get_last? xs) r.after) shorter,
      ap (λ (x : DocumentChangesPage). x.has_more) (sym is),
    )

-- A page and the feed behind its cursor are together the feed from where the page began, so a
-- reader that goes on from each cursor gets every change once and in order; the flag `has_more`
-- says whether anything is left behind the page. The changes of the store are in order.
pub changes_resume :
    (app : String) (r : DocumentChanges) (db : Database) (page : DocumentChangesPage)
    → IsAscending 0 db.log.changes
    → changes app r db ≡ ok page
    → (page.changes ++ feed app r.community_id page.next_cursor db
        ≡ feed app r.community_id r.after db)
      × ((page.has_more ≡ true) ↔ (0 < length (feed app r.community_id page.next_cursor db)))
changes_resume app r db page h e =
    let (shown, next, more) = changes-eq-ok app r db page e in
    let es = feed app r.community_id r.after db in
    let left : feed app r.community_id page.next_cursor db ≡ drop r.limit es =
      ap (λ c. feed app r.community_id c db) next
      ∙ feed-resume app r.community_id r.limit r.after db h in
    let parts = ap (λ (xs : List DocumentChangeEntry). length xs) (take-drop r.limit es) in
    let sum = length-append (take r.limit es) (drop r.limit es) in
    let rest = ap (λ (xs : List DocumentChangeEntry). length xs) left in
    let one_more = length-take (suc r.limit) es in
    let page_size = length-take r.limit es in
    (
      ap₂ (λ xs ys. xs ++ ys) shown left ∙ take-drop r.limit es,
      ground (arith, more, parts, sum, rest, one_more, page_size),
    )
