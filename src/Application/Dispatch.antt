-- ===== src/Application/Dispatch.antt =====
-- `call_authenticated` and `known_method` of src/application.rs: which methods a principal may call.
-- The handlers of the methods are an argument.
pub mod Access
use community_stack.Common.{
  String, Bool, true, false, ◌&&◌, ◌||◌, List, [], ◌∷◌, ◌++◌, any, str_eq, if◌then◌else◌,
}
use community_stack.Domain.Error.{ApiErrorCode}
use community_stack.Domain.Json.{Value}
use community_stack.Domain.Profiles.{planning_namespace}
use community_stack.Domain.Security.{Principal, PrincipalRole}
use community_stack.Failure.{Result, err, protocol_error}

-- The arms of the `match`, by their role.
abbrev pub methods : PrincipalRole → List String
methods PrincipalRole.app =
    "document.mutate" ∷ "document.list" ∷ "document.changes" ∷ "document.get" ∷ "fact.assert"
    ∷ "fact.query" ∷ "fact.inspect" ∷ "fact.history" ∷ "profile.list" ∷ "profile.get"
    ∷ "planning.project.put" ∷ "planning.task.put" ∷ "planning.event.put"
    ∷ "planning.dependency.put" ∷ "planning.calendar.list" ∷ "planning.gantt.get"
    ∷ "toolkit.schema.list" ∷ "toolkit.schema.show" ∷ "toolkit.schema.add" ∷ "toolkit.tool.add"
    ∷ "toolkit.assert" ∷ "toolkit.verify" ∷ "toolkit.query" ∷ "toolkit.explain" ∷ "toolkit.export"
    ∷ []
methods PrincipalRole.admin =
    "profile.list" ∷ "profile.get" ∷ "profile.grant" ∷ "schema.register" ∷ "schema.get"
    ∷ "schema.list" ∷ "system.doctor" ∷ "projection.check" ∷ "projection.rebuild" ∷ []
methods PrincipalRole.transport = "outbox.claim" ∷ "outbox.ack" ∷ []

unfoldable pub is_routed : PrincipalRole → String → Bool
is_routed role method = any (str_eq method) (methods role)

abbrev pub known_methods : List String
known_methods =
    "document.mutate" ∷ "document.list" ∷ "document.changes" ∷ "document.get" ∷ "fact.assert"
    ∷ "fact.query" ∷ "fact.inspect" ∷ "fact.history" ∷ "profile.list" ∷ "profile.get"
    ∷ "planning.project.put" ∷ "planning.task.put" ∷ "planning.event.put"
    ∷ "planning.dependency.put" ∷ "planning.calendar.list" ∷ "planning.gantt.get" ∷ "profile.grant"
    ∷ "schema.register" ∷ "schema.get" ∷ "schema.list" ∷ "system.doctor" ∷ "projection.check"
    ∷ "projection.rebuild" ∷ "toolkit.schema.list" ∷ "toolkit.schema.show" ∷ "toolkit.schema.add"
    ∷ "toolkit.tool.add" ∷ "toolkit.assert" ∷ "toolkit.verify" ∷ "toolkit.query" ∷ "toolkit.explain"
    ∷ "toolkit.export" ∷ "outbox.claim" ∷ "outbox.ack" ∷ []

unfoldable pub known_method : String → Bool
known_method method = any (str_eq method) known_methods

abbrev pub is_app : PrincipalRole → Bool
is_app PrincipalRole.app = true
is_app _ = false

-- An application that names the namespace of the planning profile.
unfoldable pub is_reserved : Principal → Bool
is_reserved p = is_app p.role && str_eq p.id planning_namespace

unfoldable pub call_authenticated :
    (Principal → String → Value → Result Value) → Principal → String → Value → Result Value
call_authenticated handler principal method params =
    if is_reserved principal
    then err (
        protocol_error ApiErrorCode.invalid_request
          "APP principal uses a reserved code-owned data namespace" false)
    else if is_routed principal.role method
    then handler principal method params
    else if known_method method
    then err (
        protocol_error ApiErrorCode.forbidden "method is unknown or not allowed for this principal"
          false)
    else err (protocol_error ApiErrorCode.method_not_found "method is not available" false)
