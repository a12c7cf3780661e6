-- ===== src/Store/Catalog.antt =====
-- The queries of src/adapters/sqlite/toolkit.rs: the catalog of a community, and its pages.
pub mod Members
use community_stack.Common.{
  ℕ, String, Bool, not, ◌&&◌, ◌||◌, List, map, Option, none, some, str_eq, min, select, take, drop,
}
use community_stack.Common.Sort.{sort}
use community_stack.Common.StrOrder.{str_lt}
use community_stack.Domain.Toolkit.{
  ToolkitConcept, ToolkitTool, ToolkitAssertion, ToolkitReview, ToolkitCatalog,
}
use community_stack.Store.Tables.{Scoped, in_scope, AssertionRow, Database}

-- `LIMIT ?3 OFFSET ?4`, without a limit for `LIMIT -1`.
unfoldable pub page {ℓ} : {A : Type ℓ} → Option ℕ → ℕ → List A → List A
page none offset xs = drop offset xs
page (some limit) offset xs = take limit (drop offset xs)

-- `ORDER BY concept_key,revision_hash`
unfoldable pub concept_before : ToolkitConcept → ToolkitConcept → Bool
concept_before a b =
    str_lt a.definition.key b.definition.key
    || (str_eq a.definition.key b.definition.key && str_lt a.revision b.revision)

abbrev pub rows_of : {A : Type 0} → String → String → List (Scoped A) → List A
rows_of app community rows = map (λ (r : Scoped _). r.row) (select (in_scope app community) rows)

-- `AND (?3=0 OR active_revision=1)`
unfoldable pub concepts : String → String → Bool → ℕ → Database → List ToolkitConcept
concepts app community active_only limit db = take (min limit 500) (
    sort concept_before (
      select (λ (c : ToolkitConcept). not active_only || c.active_revision)
        (rows_of app community db.toolkit.concepts)))

unfoldable pub query_concepts : String → String → Option ℕ → ℕ → Database → List ToolkitConcept
unfolding page
query_concepts app community limit offset db =
    page limit offset (sort concept_before (rows_of app community db.toolkit.concepts))

abbrev pub tool_before : ToolkitTool → ToolkitTool → Bool
tool_before a b = str_lt a.key b.key

unfoldable pub query_tools : String → String → Option ℕ → ℕ → Database → List ToolkitTool
unfolding page
query_tools app community limit offset db =
    page limit offset (sort tool_before (rows_of app community db.toolkit.tools))

abbrev pub assertion_before : AssertionRow → AssertionRow → Bool
assertion_before a b = str_lt a.assertion.assertion_id b.assertion.assertion_id

unfoldable pub query_assertions : String → String → Option ℕ → ℕ → Database → List ToolkitAssertion
unfolding page
query_assertions app community limit offset db = page limit offset (
    map (λ (r : AssertionRow). r.assertion)
      (sort assertion_before (rows_of app community db.toolkit.assertions)))

abbrev pub review_before : ToolkitReview → ToolkitReview → Bool
review_before a b = str_lt a.review_id b.review_id

unfoldable pub query_reviews : String → String → Option ℕ → ℕ → Database → List ToolkitReview
unfolding page
query_reviews app community limit offset db =
    page limit offset (sort review_before (rows_of app community db.toolkit.reviews))

unfoldable pub catalog : String → String → Database → ToolkitCatalog
unfolding query_concepts query_tools query_assertions query_reviews
catalog app community db = record {
  concepts = query_concepts app community none 0 db;
  tools = query_tools app community none 0 db;
  assertions = query_assertions app community none 0 db;
  reviews = query_reviews app community none 0 db;
}

unfoldable pub export : String → String → ℕ → ℕ → Database → ToolkitCatalog
unfolding query_concepts query_tools query_assertions query_reviews
export app community offset limit db = record {
  concepts = query_concepts app community (some (min limit 500)) offset db;
  tools = query_tools app community (some (min limit 500)) offset db;
  assertions = query_assertions app community (some (min limit 500)) offset db;
  reviews = query_reviews app community (some (min limit 500)) offset db;
}
