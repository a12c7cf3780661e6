-- ===== src/Examples/Verdicts.antt =====
-- A concept, a tool and two verified assertions of one value, added through the handlers.
use community_stack.Common.{
  ℕ, String, Bool, true, false, ◌≡◌, ◌≢◌, refl, List, [], ◌∷◌, Option, none, some, inl, inr, In,
  str_eq, str_eq_iff, arith,
}
use community_stack.Domain.Json.{Value, null, bool}
use community_stack.Domain.Toolkit.{
  ToolkitConcept, ConceptKind, ValueType, Cardinality, ConceptStatus, AssertionOrigin,
  VerificationState, AddConcept, AddTool, AssertToolkitValue,
}
use community_stack.Failure.{ok}
use community_stack.Ports.{Response}
use community_stack.Store.Tables.{Scoped, AssertionRow, Database}
use community_stack.Store.Projection.Toolkit.Rivals.{SameValue}
use community_stack.Application.Toolkit.Writes.{
  definition_of, new_concept, new_assertion, Encoding, ConceptResponse, StateResponse,
}
use community_stack.Application.Toolkit.Handlers.{
  toolkit_schema_add, toolkit_tool_add, toolkit_assert,
}
use community_stack.Application.Toolkit.OneValue.{
  Steps, start, then, add_concept, add_tool, assert_value, one_verified_value,
}
use community_stack.Examples.Data.{registered, engine, secure, from_ok}

abbrev encoding : Encoding
encoding = record { canonical_json = λ p. ok "{}"; revision = λ d. ok "r1" }

abbrev concept : AddConcept
concept = record {
  community_id = "c1";
  idempotency_key = "k1";
  key = "cap.offline";
  name = "Offline";
  kind = ConceptKind.capability;
  definition = "Works without a network";
  aliases = [];
  value_type = ValueType.boolean;
  cardinality = Cardinality.one;
  applicable_categories = [];
  allowed_values = none;
  scale = none;
  parent = none;
  status = ConceptStatus.active;
}

abbrev tool : AddTool
tool = record {
  community_id = "c1";
  idempotency_key = "k2";
  key = "alpha";
  name = "Alpha";
  description = none;
  homepage = none;
  status = "active";
}

abbrev assertion : String → String → AssertToolkitValue
assertion key id = record {
  community_id = "c1";
  idempotency_key = key;
  assertion_id = id;
  tool = "alpha";
  concept = "cap.offline";
  concept_revision = none;
  value = some (bool true);
  origin = AssertionOrigin.human;
  verification_state = VerificationState.verified;
  source = "manual";
  evidence = "tried";
  as_of = "2024-01-01";
  rubric = none;
  rubric_version = none;
  rationale = none;
  evaluator_type = none;
  evaluation_date = none;
}

abbrev no_response : Response
no_response = record { operation_hash = 0; state = null; revision = 0 }

abbrev no_state : StateResponse
no_state = record {
  response = no_response;
  id = "";
  verification_state = VerificationState.unknown;
}

abbrev with_concept : ConceptResponse × Database
with_concept =
    from_ok (record { response = no_response; revision = "" }, registered)
      (toolkit_schema_add engine secure encoding 1 1000 "app" concept 500 registered)

abbrev with_tool : Response × Database
with_tool =
    from_ok (no_response, registered)
      (toolkit_tool_add engine secure encoding 1 2000 "app" tool 501 with_concept.1)

abbrev with_one : StateResponse × Database
with_one =
    from_ok (no_state, registered)
      (toolkit_assert engine secure encoding 1 3000 "app" (assertion "k3" "a1") 502 with_tool.1)

abbrev with_two : StateResponse × Database
with_two =
    from_ok (no_state, registered)
      (toolkit_assert engine secure encoding 1 4000 "app" (assertion "k4" "a2") 503 with_one.1)

abbrev concept_row : Scoped ToolkitConcept
concept_row = record {
  app_id = "app";
  community_id = "c1";
  row = record (new_concept (definition_of concept) "r1") { source_operation_hash = 11 };
}

abbrev row : String → String → ℕ → Scoped AssertionRow
row key id hash = record {
  app_id = "app";
  community_id = "c1";
  row = record {
    assertion = record (new_assertion (assertion key id) "r1") { source_operation_hash = hash };
    initial_state = VerificationState.verified;
  };
}

run :
    Steps engine secure encoding 1 registered with_two.1
    × In (row "k3" "a1" 13) with_two.1.toolkit.assertions
    × In (row "k4" "a2" 14) with_two.1.toolkit.assertions
    × In concept_row with_two.1.toolkit.concepts
unfolding toolkit_schema_add toolkit_tool_add toolkit_assert
    community_stack.Application.Toolkit.Handlers.write
    community_stack.Application.Toolkit.Handlers.validate_tool
    community_stack.Application.Toolkit.Handlers.is_revision
    community_stack.Application.Toolkit.Writes.toolkit_mutation
    community_stack.Application.Toolkit.Writes.or_stored
    community_stack.Application.Toolkit.Writes.check_assertion
    community_stack.Application.Toolkit.validate_key
    community_stack.Application.Toolkit.validate_text
    community_stack.Application.Toolkit.validate_optional_text
    community_stack.Application.Toolkit.validate_date
    community_stack.Application.Toolkit.resolve_concept
    community_stack.Application.Toolkit.names_concept
    community_stack.Application.Toolkit.Concepts.normalize_concept
    community_stack.Application.Toolkit.Concepts.sort_dedup
    community_stack.Application.Toolkit.Concepts.validate_concept_shape
    community_stack.Application.Toolkit.Concepts.has_dot
    community_stack.Application.Toolkit.Concepts.validate_allowed_values
    community_stack.Application.Toolkit.Concepts.validate_scale
    community_stack.Application.Toolkit.Concepts.validate_concept_references
    community_stack.Application.Toolkit.Values.validate_assert_request
    community_stack.Application.Toolkit.Values.validate_assertion_value
    community_stack.Application.Toolkit.Values.validate_type
    community_stack.Application.Toolkit.Values.validate_number
    community_stack.Application.Toolkit.Values.validate_string
    community_stack.Application.Toolkit.Values.validate_assessment
    community_stack.Application.Toolkit.Values.validate_applicability
    community_stack.Application.Toolkit.Values.reject_local_cardinality_conflict
    community_stack.Application.Toolkit.Values.contradicts community_stack.Domain.Json.as_f64
    community_stack.Domain.Json.value_eq community_stack.Store.Catalog.catalog
    community_stack.Store.Catalog.query_concepts community_stack.Store.Catalog.query_tools
    community_stack.Store.Catalog.query_assertions community_stack.Store.Catalog.page
    community_stack.Store.Catalog.concept_before community_stack.Common.StrOrder.str_lt
    community_stack.Common.all_chars community_stack.Failure.for_each
    community_stack.Application.Mutate.mutate community_stack.Application.Mutate.mutate_in_namespace
    community_stack.Application.Mutate.mutate_locked community_stack.Application.Mutate.mutate_fresh
    community_stack.Application.Mutate.next_place
    community_stack.Application.Validate.validate_object_id
    community_stack.Application.Validate.validate_idempotency_key community_stack.Common.has_control
    community_stack.Store.Channel.ask community_stack.Store.Read.idempotency
    community_stack.Store.Read.of_key community_stack.Store.Read.load_updates
    community_stack.Store.Read.update_before community_stack.Store.Read.of_document
    community_stack.Store.Read.of_log community_stack.Store.Read.update_count
    community_stack.Store.Read.log_head community_stack.Store.Read.same_document
    community_stack.Common.select community_stack.Common.Sort.sort
    community_stack.Common.Sort.insert community_stack.Store.Commit.commit_local
    community_stack.Store.Commit.admissible community_stack.Store.Commit.follows
    community_stack.Store.Commit.same_operation community_stack.Store.Commit.append_record
    community_stack.Store.Commit.apply_projections community_stack.Store.Commit.store_response
    community_stack.Common.any community_stack.Common.count community_stack.Common.find
    community_stack.Common.update community_stack.Store.Commit.set_head
    community_stack.Store.Commit.next_outbox_id community_stack.Store.Commit.next_change_id
    community_stack.Store.Commit.priority_for community_stack.Store.Projection.apply_projection
    community_stack.Store.Projection.Toolkit.apply_toolkit
    community_stack.Store.Projection.Toolkit.apply_concept
    community_stack.Store.Projection.Toolkit.apply_tool
    community_stack.Store.Projection.Toolkit.apply_assertion
    community_stack.Store.Projection.Toolkit.typed_value
    community_stack.Store.Projection.Toolkit.concept_row
    community_stack.Store.Projection.Toolkit.tool_row
    community_stack.Store.Projection.Toolkit.assertion_row
    community_stack.Store.Projection.Toolkit.active_concept
run = (
  then
      (then
        (then (then start (add_concept 1000 "app" concept 500 with_concept.0 refl))
          (add_tool 2000 "app" tool 501 with_tool.0 refl))
        (assert_value 3000 "app" (assertion "k3" "a1") 502 with_one.0 refl))
      (assert_value 4000 "app" (assertion "k4" "a2") 503 with_two.0 refl),
  inl refl,
  inr (inl refl),
  inl refl,
)

abbrev id : String → String
id s = s

apart : id "a1" ≢ id "a2"
apart e = ground (arith, (str_eq_iff (id "a1") (id "a2")).1 e)

one_verified_value_example : SameValue (row "k3" "a1" 13) (row "k4" "a2" 14)
one_verified_value_example =
    one_verified_value engine secure encoding 1 (row "k3" "a1" 13) (row "k4" "a2" 14) run.0 run.1
      run.2
      (record {
        scope = record { app = refl; community = refl };
        tool = refl;
        concept = refl;
        revision = refl;
        left = refl;
        right = refl;
        apart = apart;
        about = concept_row;
        listed = run.3;
        is_about = record {
          scope = record { app = refl; community = refl };
          key = refl;
          revision = refl;
        };
        single = refl;
      })
