-- ===== src/Store/Documents/Feed.antt =====
-- Lists of entries with rising cursors: the part behind the last entry of a page is what is left.
use community_stack.Common.{
  ℕ, suc, zero, ◌<◌, ◌≤◌, ◌≡◌, refl, ap, ◌∙◌, Bool, false, List, [], ◌∷◌, arith, select, take, drop,
  get_last?, ltb,
}
use community_stack.Domain.Documents.{DocumentChangeEntry}
use community_stack.Store.Documents.{cursor_of}

-- Every cursor is above `n` and above those before it.
abbrev pub IsRising : ℕ → List DocumentChangeEntry → Type 0
IsRising n [] = Unit
IsRising n (e ∷ es) = (n < e.cursor) × IsRising e.cursor es

abbrev pub is_after : ℕ → DocumentChangeEntry → Bool
is_after n e = ltb n e.cursor

-- Nothing of a rising list is at or below its bound.
pub select-after_all :
    (n m : ℕ) (es : List DocumentChangeEntry) → m ≤ n → IsRising n es → select (is_after m) es ≡ es
unfolding select
select-after_all n m [] le h = refl
select-after_all n m (e ∷ es) le h =
    ground (arith, le, h.0, select-after_all e.cursor m es (omega (arith, le, h.0)) h.1)

later_cursor :
    (e : DocumentChangeEntry) (es : List DocumentChangeEntry) (n m : ℕ)
    → cursor_of (get_last? (e ∷ es)) n ≡ cursor_of (get_last? (e ∷ es)) m
later_cursor e [] n m = refl
later_cursor e (f ∷ es) n m = later_cursor f es n m

last_cursor :
    (e : DocumentChangeEntry) (es : List DocumentChangeEntry) (n : ℕ)
    → cursor_of (get_last? (e ∷ es)) n ≡ cursor_of (get_last? es) e.cursor
last_cursor e [] n = refl
last_cursor e (f ∷ es) n = later_cursor f es n e.cursor

-- The cursor behind a page is not below the cursor before it.
pub page_advances :
    (k n : ℕ) (es : List DocumentChangeEntry)
    → IsRising n es
    → n ≤ cursor_of (get_last? (take k es)) n
page_advances zero n es h = omega arith
page_advances (suc k) n [] h = omega arith
page_advances (suc k) n (e ∷ es) h =
    omega (arith, last_cursor e (take k es) n, page_advances k e.cursor es h.1, h.0)

-- What stands behind a page.
pub select-after_page :
    (k n : ℕ) (es : List DocumentChangeEntry)
    → IsRising n es
    → select (is_after (cursor_of (get_last? (take k es)) n)) es ≡ drop k es
unfolding select
select-after_page zero n es h = select-after_all n n es (omega arith) h
select-after_page (suc k) n [] h = refl
select-after_page (suc k) n (e ∷ es) h =
    let last = cursor_of (get_last? (take k es)) e.cursor in
    let passed : is_after last e ≡ false = ground (arith, page_advances k e.cursor es h.1) in
    ap (λ c. select (is_after c) (e ∷ es)) (last_cursor e (take k es) n)
    ∙ rw passed (select-after_page k e.cursor es h.1)
