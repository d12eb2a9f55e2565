-- ===== src/Tests/Scans.antt =====
-- A scan of one controller with one route.
use ai_test.Base.{ℕ, String, true, false, none, some, List, [], ◌∷◌, refl, All}
use ai_test.Base.Outcome.{done}
use ai_test.Json.{end}
use ai_test.Execution.Models.{TaskStatus}
use ai_test.SourceScans.Models.{
  CodeSymbol, SymbolType, RelationType, SymbolRelation, ScannedApi, ParsedCodeSymbol,
  ParsedApiDefinition, ParsedSymbolRelation,
}
use ai_test.SourceScans.OpenApi.{Sources, no_json}
use ai_test.Worker.Rows.{TaskType, ScanStatus, ScanWorld}
use ai_test.Worker.Symbols.{symbol_relations}
use ai_test.Worker.Symbols.Graph.{IsEdge, HasUniqueKeys, symbol_relations_lem}
use ai_test.Worker.Interfaces.{api_definitions}
use ai_test.Worker.Interfaces.Routes.{HasRoutes, api_definitions-HasRoutes}
use ai_test.Worker.Queue.{ScanInputs}
use ai_test.Tests.{py, lookup, same_text}
use ai_test.Tests.Sources.{file_system, read_settings, archive}

abbrev symbol : ℕ → SymbolType → String → CodeSymbol ⊥
symbol id symbol_type name = record {
  id = id;
  source_file_id = 1;
  parent_symbol_id = none;
  symbol_type = symbol_type;
  name = name;
  qualified_name = name;
  signature = none;
  start_line = 1;
  end_line = 2;
  annotations = [];
  metadata = end;
}

abbrev symbols : List (CodeSymbol ⊥)
symbols = symbol 1 SymbolType.class "Api" ∷ symbol 2 SymbolType.dto "User" ∷ []

abbrev uses : String → ParsedSymbolRelation ⊥
uses name = record {
  source_qualified_name = "Api";
  target_name = name;
  relation_type = RelationType.uses_dto;
  metadata = end;
}

abbrev use_twice : List (ParsedSymbolRelation ⊥)
use_twice = uses "User" ∷ uses "Api" ∷ uses "User" ∷ []

abbrev one_use : List (SymbolRelation ⊥)
one_use =
    record {
      source_symbol_id = 1;
      target_symbol_id = 2;
      relation_type = RelationType.uses_dto;
      metadata = end;
    }
    ∷ []

symbol_relations_lem_example : All (IsEdge symbols) one_use × HasUniqueKeys one_use
unfolding symbol_relations
symbol_relations_lem_example = symbol_relations_lem symbols use_twice

abbrev route : String → ParsedApiDefinition ⊥
route path = record {
  method = "GET";
  normalized_path = path;
  controller_qualified_name = "Api";
  method_qualified_name = "Api";
  request_definition = end;
  source_definition = end;
}

abbrev routes : List (ParsedApiDefinition ⊥)
routes = route "/users" ∷ route "/users" ∷ []

abbrev stored_api : ScannedApi ⊥
stored_api = record {
  method = "GET";
  normalized_path = "/users";
  operation_id = none;
  controller_symbol_id = some 1;
  method_symbol_id = some 1;
  request_definition = some end;
  response_definition = end;
  security_definition = end;
  source_definition = end;
  openapi_definition = end;
  conflicts = [];
  is_conflicted = false;
}

api_definitions-HasRoutes_example : HasRoutes py routes [] (stored_api ∷ [])
unfolding api_definitions
api_definitions-HasRoutes_example =
    api_definitions-HasRoutes py symbols routes [] (stored_api ∷ []) refl

abbrev parsed_symbol : ParsedCodeSymbol ⊥
parsed_symbol = record {
  source_file_id = 1;
  symbol_type = SymbolType.class;
  name = "Api";
  qualified_name = "Api";
  signature = none;
  start_line = 1;
  end_line = 2;
  annotations = [];
  metadata = end;
  parent_qualified_name = none;
}

abbrev sources : Sources ⊥
sources = record {
  upper = same_text;
  loads = λ b. no_json;
  yaml = λ b. none;
  download = λ url. record { chunks = []; ended = true };
  first_lookup = lookup;
  second_lookup = lookup;
  files = file_system;
}

abbrev inputs : ScanInputs ⊥
inputs = record {
  artifact = some archive;
  project = some (none, none);
  read_settings = read_settings;
  openapi_settings = record {
    openapi_host_allowlist = [];
    source_upload_root = "uploads";
    max_openapi_document_bytes = 10;
  };
  sources = sources;
  parse_java = λ files. done (record {
    code_symbols = parsed_symbol ∷ [];
    api_definitions = routes;
    symbol_relations = [];
  });
  sha256 = same_text;
  first_id = 1;
}

abbrev claimed : ScanWorld ⊥
claimed = record {
  task = record {
    id = 1;
    task_type = TaskType.source_scan;
    status = TaskStatus.pending;
    phase = "";
    error_code = none;
    error_message = none;
    started = false;
    completed = false;
  };
  scan = record {
    status = ScanStatus.pending;
    summary = none;
    error_code = none;
    error_message = none;
    started = false;
    completed = false;
  };
  files = [];
  contents = none;
}
