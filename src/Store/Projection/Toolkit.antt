-- ===== src/Store/Projection/Toolkit.antt =====
-- src/adapters/sqlite/toolkit.rs: the views of concepts, tools, assertions and reviews.
pub mod States
pub mod Reviews
pub mod Rivals
pub mod Sound
pub mod Guarded
pub mod Reviewed
pub mod ReviewSound
use community_stack.Common.{
  String, Bool, true, false, not, ◌&&◌, List, [], ◌∷◌, ◌++◌, map, Option, none, some, str_eq,
  if◌then◌else◌, any, all, select, update, leb,
}
use community_stack.Domain.Replication.{Hash}
use community_stack.Domain.Json.{Value, null, array, object}
use community_stack.Domain.Toolkit.{
  ToolkitConcept, ToolkitTool, ToolkitAssertion, ToolkitReview, ToolkitProjection,
  VerificationState, verified, rejected,
}
use community_stack.Failure.{Check, Result, ok, err, bail, reject, ◌>>◌}
use community_stack.Store.Tables.{Scoped, in_scope, AssertionRow, Database}

abbrev pub unique : Bool → Check
unique present = reject present (bail "UNIQUE constraint failed")

abbrev pub foreign : Bool → Check
foreign present = reject (not present) (bail "FOREIGN KEY constraint failed")

unfoldable pub concept_row : String → String → String → String → Scoped ToolkitConcept → Bool
concept_row app community key revision r =
    in_scope app community r && str_eq r.row.definition.key key && str_eq r.row.revision revision

unfoldable pub tool_row : String → String → String → Scoped ToolkitTool → Bool
tool_row app community key r = in_scope app community r && str_eq r.row.key key

unfoldable pub assertion_row : String → String → String → Scoped AssertionRow → Bool
assertion_row app community id r =
    in_scope app community r && str_eq r.row.assertion.assertion_id id

unfoldable pub review_row : String → String → String → Scoped ToolkitReview → Bool
review_row app community id r = in_scope app community r && str_eq r.row.review_id id

unfoldable pub active_concept : String → String → String → Scoped ToolkitConcept → Bool
active_concept app community key r =
    in_scope app community r && str_eq r.row.definition.key key && r.row.active_revision

abbrev pub in_table : {A : Type 0} → String → String → A → Scoped A
in_table app community a = record { app_id = app; community_id = community; row = a }

unfoldable pub apply_concept : String → String → Hash → ToolkitConcept → Database → Result Database
unfolding active_concept concept_row
apply_concept app community hash c db = do
  let cs =
      update (active_concept app community c.definition.key)
        (λ r. record r { row = record r.row { active_revision = false } }) db.toolkit.concepts
  unique (any (concept_row app community c.definition.key c.revision) cs)
  ok (record db {
    toolkit = record db.toolkit {
      concepts =
          cs
          ++ in_table app community
              (record c { source_operation_hash = hash; active_revision = true })
            ∷ [];
    };
  })

unfoldable pub apply_tool : String → String → Hash → ToolkitTool → Database → Result Database
unfolding tool_row
apply_tool app community hash t db = do
  unique (any (tool_row app community t.key) db.toolkit.tools)
  ok (record db {
    toolkit = record db.toolkit {
      tools =
          db.toolkit.tools
          ++ in_table app community (record t { source_operation_hash = hash }) ∷ [];
    };
  })

-- `typed_value`: an array or an object has no columns. The table's CHECK refuses a stored JSON null.
unfoldable pub typed_value : Option Value → Check
typed_value none = ok tt
typed_value (some null) = err (bail "CHECK constraint failed")
typed_value (some (array xs)) = err (bail "unsupported toolkit projection value")
typed_value (some (object fs)) = err (bail "unsupported toolkit projection value")
typed_value (some _) = ok tt

unfoldable pub apply_assertion :
    String → String → Hash → ToolkitAssertion → Database → Result Database
unfolding typed_value assertion_row tool_row concept_row
apply_assertion app community hash a db = do
  typed_value a.value
  unique (any (assertion_row app community a.assertion_id) db.toolkit.assertions)
  foreign (any (tool_row app community a.tool) db.toolkit.tools)
  foreign (any (concept_row app community a.concept a.concept_revision) db.toolkit.concepts)
  ok (record db {
    toolkit = record db.toolkit {
      assertions =
          db.toolkit.assertions
          ++ in_table app community (record {
            assertion = record a { source_operation_hash = hash; review_operation_hash = none };
            initial_state = a.verification_state;
          })
            ∷ [];
    };
  })

abbrev pub is_verified : VerificationState → Bool
is_verified verified = true
is_verified _ = false

abbrev pub is_rejected : VerificationState → Bool
is_rejected rejected = true
is_rejected _ = false

unfoldable pub reviews_assertion : String → String → String → Scoped ToolkitReview → Bool
reviews_assertion app community id r = in_scope app community r && str_eq r.row.assertion_id id

-- Equality of the states, as texts.
abbrev pub same_state : VerificationState → VerificationState → Bool
same_state VerificationState.proposed VerificationState.proposed = true
same_state VerificationState.verified s = is_verified s
same_state VerificationState.rejected s = is_rejected s
same_state VerificationState.unknown VerificationState.unknown = true
same_state _ _ = false

-- `CASE WHEN count(*)=0 THEN initial_state WHEN count(DISTINCT state)=1 THEN min(state) ELSE
-- 'rejected' END`: the states are not distinct if all of them are that of the first.
unfoldable pub effective_state : VerificationState → List ToolkitReview → VerificationState
effective_state initial [] = initial
effective_state initial (r ∷ rs) =
    if all (λ (q : ToolkitReview). same_state r.state q.state) rs then r.state else rejected

-- `ORDER BY hex(source_operation_hash) LIMIT 1`
unfoldable pub first_hash : List ToolkitReview → Option Hash
first_hash [] = none
first_hash (r ∷ rs) = elim (first_hash rs) [
  | none ↦ some r.source_operation_hash
  | some h ↦ some (if leb r.source_operation_hash h then r.source_operation_hash else h)
]

unfoldable pub aggregate : List ToolkitReview → AssertionRow → AssertionRow
unfolding effective_state first_hash
aggregate rs a = record a {
  assertion = record a.assertion {
    verification_state = effective_state a.initial_state rs;
    review_operation_hash = first_hash rs;
  };
}

abbrev pub is_review_state : VerificationState → Bool
is_review_state verified = true
is_review_state rejected = true
is_review_state _ = false

unfoldable pub apply_review : String → String → Hash → ToolkitReview → Database → Result Database
unfolding review_row assertion_row reviews_assertion aggregate
apply_review app community hash v db = do
  reject (not (is_review_state v.state)) (bail "CHECK constraint failed")
  unique (any (review_row app community v.review_id) db.toolkit.reviews)
  foreign (any (assertion_row app community v.assertion_id) db.toolkit.assertions)
  let reviews =
      db.toolkit.reviews ++ in_table app community (record v { source_operation_hash = hash }) ∷ []
  let mine =
      map (λ (r : Scoped ToolkitReview). r.row)
        (select (reviews_assertion app community v.assertion_id) reviews)
  ok (record db {
    toolkit = record db.toolkit {
      reviews = reviews;
      assertions =
          update (assertion_row app community v.assertion_id)
            (λ r. record r { row = aggregate mine r.row }) db.toolkit.assertions;
    };
  })

unfoldable pub apply_toolkit :
    String → String → Hash → ToolkitProjection → Database → Result Database
unfolding apply_concept apply_tool apply_assertion apply_review
apply_toolkit app community hash (ToolkitProjection.concept c) db =
    apply_concept app community hash c db
apply_toolkit app community hash (ToolkitProjection.tool t) db = apply_tool app community hash t db
apply_toolkit app community hash (ToolkitProjection.assertion a) db =
    apply_assertion app community hash a db
apply_toolkit app community hash (ToolkitProjection.review v) db =
    apply_review app community hash v db
