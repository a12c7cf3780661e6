-- ===== src/Application/Toolkit/OneValue.antt =====
-- Over any sequence of the toolkit's writes, with other writes between them, no two different values
-- of a concept that has one value are verified for a tool.
use community_stack.Common.{List, ℕ, ◌≡◌, subst, String, In}
use community_stack.Domain.Replication.{Hash}
use community_stack.Domain.Toolkit.{AddConcept, AddTool, AssertToolkitValue, VerifyToolkitAssertion}
use community_stack.Failure.{ok}
use community_stack.Ports.{Response, DocumentEngine, SecureLog}
use community_stack.Store.Tables.{Scoped, AssertionRow, Database, empty}
use community_stack.Store.Projection.Toolkit.Rivals.{Rivals, SameValue, IsSound}
use community_stack.Application.Toolkit.Writes.{Encoding, ConceptResponse, StateResponse}
use community_stack.Application.Toolkit.Handlers.{
  toolkit_schema_add, toolkit_tool_add, toolkit_assert, toolkit_verify,
}
use community_stack.Application.Toolkit.Kept.{concept-step, tool-step, assertion-step, review-step}

module _ (engine : DocumentEngine) (secure : SecureLog) (encoding : Encoding) (peer : ℕ) where
  -- A use case: a handler of the toolkit that answers, or another one, which leaves its tables alone.
  pub data Step : Database → Database → Type 0 where
    add_concept :
        {a b : Database} (now : ℕ) (app : String) (r : AddConcept) (hash : Hash)
        (response : ConceptResponse)
        → toolkit_schema_add engine secure encoding peer now app r hash a ≡ ok (response, b)
        → Step a b
    add_tool :
        {a b : Database} (now : ℕ) (app : String) (r : AddTool) (hash : Hash) (response : Response)
        → toolkit_tool_add engine secure encoding peer now app r hash a ≡ ok (response, b)
        → Step a b
    assert_value :
        {a b : Database} (now : ℕ) (app : String) (r : AssertToolkitValue) (hash : Hash)
        (response : StateResponse)
        → toolkit_assert engine secure encoding peer now app r hash a ≡ ok (response, b)
        → Step a b
    verify :
        {a b : Database} (now : ℕ) (app : String) (r : VerifyToolkitAssertion) (hash : Hash)
        (response : StateResponse)
        → toolkit_verify engine secure encoding peer now app r hash a ≡ ok (response, b)
        → Step a b
    elsewhere : {a b : Database} → a.toolkit ≡ b.toolkit → Step a b

  pub data Steps : Database → Database → Type 0 where
    start : {a : Database} → Steps a a
    then : {a b c : Database} → Steps a b → Step b c → Steps a c

  Step-IsSound : {a b : Database} → Step a b → IsSound a.toolkit → IsSound b.toolkit
  Step-IsSound (add_concept now app r hash response e) sound =
      concept-step engine secure encoding peer now app r hash response _ _ e sound
  Step-IsSound (add_tool now app r hash response e) sound =
      tool-step engine secure encoding peer now app r hash response _ _ e sound
  Step-IsSound (assert_value now app r hash response e) sound =
      assertion-step engine secure encoding peer now app r hash response _ _ e sound
  Step-IsSound (verify now app r hash response e) sound =
      review-step engine secure encoding peer now app r hash response _ _ e sound
  Step-IsSound (elsewhere same) sound = subst IsSound same sound

  Steps-IsSound : {apps : List String} {b : Database} → Steps (empty apps) b → IsSound b.toolkit
  Steps-IsSound start = record {
    defined_once = λ c d m. absurd m;
    known = λ r m. absurd m;
    stored_once = λ r s m. absurd m;
    agree = λ r s m. absurd m;
  }
  Steps-IsSound (then steps step) = Step-IsSound step (Steps-IsSound steps)

  -- In a database that the use cases have made from one in which only applications are registered, two verified assertions about the
  -- same tool and the same revision of a concept with one value have equal values.
  pub one_verified_value :
      {apps : List String} {b : Database} (r s : Scoped AssertionRow)
      → Steps (empty apps) b
      → In r b.toolkit.assertions
      → In s b.toolkit.assertions
      → Rivals b.toolkit.concepts r s
      → SameValue r s
  one_verified_value r s steps m n v = (Steps-IsSound steps).agree r s m n v
