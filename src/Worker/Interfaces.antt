-- ===== src/Worker/Interfaces.antt =====
-- The interfaces that a scan stores (`process_next` of backend/app/workers/task_worker.py): those of
-- the source, and what the OpenAPI document adds to them.
pub mod Routes
use ai_test.Base.{
  ℕ, String, Bool, true, false, not, ◌&&◌, Option, none, some, List, [], ◌∷◌, ◌++◌, any, str_eq,
  if◌then◌else◌,
}
use ai_test.Base.Outcome.{done, failed, ◌>>=◌, ◌>>◌}
use ai_test.Json.{dict, Fields, end, field}
use ai_test.Runtime.{Runtime}
use ai_test.SourceScans.Models.{CodeSymbol, ScannedApi, ParsedApiDefinition}
use ai_test.SourceScans.OpenApi.{Scanning, unexpected, OpenApiOperation}
use ai_test.SourceScans.OpenApi.Compare.{compare_request_definitions}
use ai_test.Worker.Symbols.{by_qualified_name}

abbrev pub Route : Type 0
Route = String × String

abbrev pub same_route : Route → Route → Bool
same_route r s = str_eq r.0 s.0 && str_eq r.1 s.1

abbrev pub has_route : List Route → Route → Bool
has_route routes r = any (same_route r) routes

module _ {F : Type 0} where
  -- `symbols_by_qualified_name[name].id`, which raises on a missing name
  abbrev pub symbol_id : List (CodeSymbol F) → String → Scanning ℕ
  symbol_id symbols name = elim (by_qualified_name symbols name) [
    | none ↦ failed unexpected
    | some s ↦ done s.id
  ]

  abbrev pub source_route : ParsedApiDefinition F → Route
  source_route d = (d.method, d.normalized_path)

  abbrev pub api_route : ScannedApi F → Route
  api_route a = (a.method, a.normalized_path)

  abbrev pub operation_route : OpenApiOperation F → Route
  operation_route o = (o.method, o.normalized_path)

  abbrev source_api : ParsedApiDefinition F → ℕ → ℕ → ScannedApi F
  source_api d controller method = record {
    method = d.method;
    normalized_path = d.normalized_path;
    operation_id = none;
    controller_symbol_id = some controller;
    method_symbol_id = some method;
    request_definition = some d.request_definition;
    response_definition = end;
    security_definition = end;
    source_definition = d.source_definition;
    openapi_definition = end;
    conflicts = [];
    is_conflicted = false;
  }

  -- The loop over the interfaces of the source: the first one of a route is kept.
  unfoldable pub source_apis :
      List (CodeSymbol F)
      → List Route
      → List (ParsedApiDefinition F)
      → Scanning (List (ScannedApi F))
  unfolding by_qualified_name
  source_apis symbols seen [] = done []
  source_apis symbols seen (d ∷ rest) = elim (has_route seen (source_route d)) [
    | true ↦ source_apis symbols seen rest
    | false ↦ do
      controller ← symbol_id symbols d.controller_qualified_name
      method ← symbol_id symbols d.method_qualified_name
      others ← source_apis symbols (source_route d ∷ seen) rest
      done (source_api d controller method ∷ others)
  ]

  -- `ApiDefinition(…)` of an operation that the source does not have
  abbrev pub new_api : OpenApiOperation F → ScannedApi F
  new_api o = record {
    method = o.method;
    normalized_path = o.normalized_path;
    operation_id = none;
    controller_symbol_id = none;
    method_symbol_id = none;
    request_definition = none;
    response_definition = end;
    security_definition = end;
    source_definition = end;
    openapi_definition = end;
    conflicts = [];
    is_conflicted = false;
  }

  abbrev is_any_conflict : List (Fields F) → Bool
  is_any_conflict [] = false
  is_any_conflict (c ∷ cs) = true

  -- The row with what the operation adds.
  abbrev pub merged : ScannedApi F → Fields F → OpenApiOperation F → List (Fields F) → ScannedApi F
  merged a source_request o conflicts = record {
    method = a.method;
    normalized_path = a.normalized_path;
    operation_id = o.operation_id;
    controller_symbol_id = a.controller_symbol_id;
    method_symbol_id = a.method_symbol_id;
    request_definition =
        some
          (field "source" (dict source_request) (field "openapi" (dict o.request_definition) end));
    response_definition = o.response_definition;
    security_definition = o.security_definition;
    source_definition = a.source_definition;
    openapi_definition = o.openapi_definition;
    conflicts = conflicts;
    is_conflicted = is_any_conflict conflicts;
  }

  module _ (py : Runtime F) where
    abbrev pub merge_compared :
        ScannedApi F → Option (Fields F) → OpenApiOperation F → Scanning (ScannedApi F)
    merge_compared a none o = failed unexpected
    merge_compared a (some source_request) o = do
      conflicts ← compare_request_definitions py (some source_request) o.request_definition
      done (merged a source_request o conflicts)

    -- The statements behind the lookup of the route; the comparison comes first.
    unfoldable pub merge_api : ScannedApi F → OpenApiOperation F → Scanning (ScannedApi F)
    unfolding compare_request_definitions
    merge_api a o = merge_compared a a.request_definition o

    -- One round: the row of the operation's route is changed, or a new one is added at the end.
    unfoldable pub merge_operation :
        List (ScannedApi F) → OpenApiOperation F → Scanning (List (ScannedApi F))
    unfolding merge_api
    merge_operation [] o = do a ← merge_api (new_api o) o; done (a ∷ [])
    merge_operation (a ∷ apis) o = elim (same_route (operation_route o) (api_route a)) [
      | true ↦ do b ← merge_api a o; done (b ∷ apis)
      | false ↦ do others ← merge_operation apis o; done (a ∷ others)
    ]

    -- The loop over the operations.
    unfoldable pub merge_operations :
        List (ScannedApi F) → List (OpenApiOperation F) → Scanning (List (ScannedApi F))
    unfolding merge_operation
    merge_operations apis [] = done apis
    merge_operations apis (o ∷ rest) = merge_operation apis o >>= λ more. merge_operations more rest

    -- All interfaces of a scan.
    unfoldable pub api_definitions :
        List (CodeSymbol F)
        → List (ParsedApiDefinition F)
        → List (OpenApiOperation F)
        → Scanning (List (ScannedApi F))
    unfolding source_apis merge_operations
    api_definitions symbols parsed operations = do
      apis ← source_apis symbols [] parsed
      merge_operations apis operations
