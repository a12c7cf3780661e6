-- ===== src/Application/Toolkit/Reads.antt =====
-- The handlers of src/application/toolkit.rs that read. What they answer is given as the record that
-- serde_json turns into a value.
use community_stack.Common.{ℕ, String, ◌||◌, List, [], ◌∷◌, ◌==◌, ltb, find, Option, none, some}
use community_stack.Domain.Toolkit.{
  ToolkitConcept, ToolkitCatalog, ToolkitQueryResult, ToolkitQueryResponse, ListConcepts,
  ShowConcept, QueryToolkit, ExplainToolkit, ExportToolkit,
}
use community_stack.Failure.{Result, ok, bail, reject, or_fail, ◌>>=◌, ◌>>◌}
use community_stack.Store.Tables.{Database}
use community_stack.Store.Catalog.{catalog, concepts, export}
use community_stack.Application.Validate.{validate_object_id}
use community_stack.Application.Toolkit.{validate_key, names_concept}
use community_stack.Application.Toolkit.Query.{evaluate_query}

unfoldable pub toolkit_schema_list : String → ListConcepts → Database → Result (List ToolkitConcept)
toolkit_schema_list app r db = do
  validate_object_id r.community_id "community_id"
  reject (r.limit == 0 || ltb 500 r.limit) (bail "limit must be between 1 and 500")
  ok (concepts app r.community_id r.active_only r.limit db)

unfoldable pub toolkit_schema_show : String → ShowConcept → Database → Result ToolkitConcept
toolkit_schema_show app r db = do
  validate_object_id r.community_id "community_id"
  validate_key r.key "concept key"
  let c = catalog app r.community_id db
  or_fail (find (names_concept r.key r.revision) c.concepts) (bail "concept revision was not found")

unfoldable pub toolkit_query : String → QueryToolkit → Database → Result ToolkitQueryResponse
toolkit_query app r db = do
  validate_object_id r.community_id "community_id"
  evaluate_query (catalog app r.community_id db) r.plan

abbrev pub first : List ToolkitQueryResult → Option ToolkitQueryResult
first [] = none
first (r ∷ rs) = some r

unfoldable pub toolkit_explain : String → ExplainToolkit → Database → Result ToolkitQueryResult
toolkit_explain app r db = do
  validate_object_id r.community_id "community_id"
  validate_key r.tool "tool"
  response ← evaluate_query (catalog app r.community_id db) (record r.query { tools = r.tool ∷ [] })
  or_fail (first response.results) (bail "tool was not found")

-- The fields of the answer that are constants are left out.
pub record ToolkitExport : Type 0 where
  pub community_id : String
  pub offset : ℕ
  pub limit : ℕ
  pub catalog : ToolkitCatalog

unfoldable pub toolkit_export : String → ExportToolkit → Database → Result ToolkitExport
toolkit_export app r db = do
  validate_object_id r.community_id "community_id"
  reject (r.limit == 0 || ltb 500 r.limit) (bail "export limit must be between 1 and 500")
  ok (record {
    community_id = r.community_id;
    offset = r.offset;
    limit = r.limit;
    catalog = export app r.community_id r.offset r.limit db;
  })
