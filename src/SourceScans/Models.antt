-- ===== src/SourceScans/Models.antt =====
-- backend/app/modules/source_scans/models.py: what a scan stores. An identifier is a number, as it is
-- in the other rows; the scan that a row belongs to is left out, since each query names one scan.
use ai_test.Base.{ℕ, String, Bool, Option, List, ◌==◌}
use ai_test.Json.{Value, Fields}

pub data SymbolType : Type 0 where
  class interface enum method field dto exception repository mapper : SymbolType

pub data RelationType : Type 0 where
  calls references throws uses_dto : RelationType

-- The `value` of a symbol type.
unfoldable pub symbol_type_value : SymbolType → String
symbol_type_value SymbolType.class = "class"
symbol_type_value SymbolType.interface = "interface"
symbol_type_value SymbolType.enum = "enum"
symbol_type_value SymbolType.method = "method"
symbol_type_value SymbolType.field = "field"
symbol_type_value SymbolType.dto = "dto"
symbol_type_value SymbolType.exception = "exception"
symbol_type_value SymbolType.repository = "repository"
symbol_type_value SymbolType.mapper = "mapper"

abbrev pub relation_type_number : RelationType → ℕ
relation_type_number RelationType.calls = 0
relation_type_number RelationType.references = 1
relation_type_number RelationType.throws = 2
relation_type_number RelationType.uses_dto = 3

abbrev pub same_relation_type : RelationType → RelationType → Bool
same_relation_type s t = relation_type_number s == relation_type_number t

pub record SourceFile : Type 0 where
  pub id : ℕ
  pub relative_path : String
  pub content : String
  pub content_sha256 : String
  pub size_bytes : ℕ

pub record CodeSymbol (F : Type 0) : Type 0 where
  pub id : ℕ
  pub source_file_id : ℕ
  pub parent_symbol_id : Option ℕ
  pub symbol_type : SymbolType
  pub name : String
  pub qualified_name : String
  pub signature : Option String
  pub start_line : ℕ
  pub end_line : ℕ
  pub annotations : List (Value F)
  pub metadata : Fields F

pub record SymbolRelation (F : Type 0) : Type 0 where
  pub source_symbol_id : ℕ
  pub target_symbol_id : ℕ
  pub relation_type : RelationType
  pub metadata : Fields F

-- An interface of a scan. A column that a new row is not given reads as `None` until the row is
-- stored, which matters for `request_definition` alone; the others are only written.
pub record ScannedApi (F : Type 0) : Type 0 where
  pub method : String
  pub normalized_path : String
  pub operation_id : Option String
  pub controller_symbol_id : Option ℕ
  pub method_symbol_id : Option ℕ
  pub request_definition : Option (Fields F)
  pub response_definition : Fields F
  pub security_definition : Fields F
  pub source_definition : Fields F
  pub openapi_definition : Fields F
  pub conflicts : List (Fields F)
  pub is_conflicted : Bool

-- What `parse_java_sources` of backend/app/modules/source_scans/java_parser.py gives.
pub record ParsedCodeSymbol (F : Type 0) : Type 0 where
  pub source_file_id : ℕ
  pub symbol_type : SymbolType
  pub name : String
  pub qualified_name : String
  pub signature : Option String
  pub start_line : ℕ
  pub end_line : ℕ
  pub annotations : List (Value F)
  pub metadata : Fields F
  pub parent_qualified_name : Option String

pub record ParsedApiDefinition (F : Type 0) : Type 0 where
  pub method : String
  pub normalized_path : String
  pub controller_qualified_name : String
  pub method_qualified_name : String
  pub request_definition : Fields F
  pub source_definition : Fields F

pub record ParsedSymbolRelation (F : Type 0) : Type 0 where
  pub source_qualified_name : String
  pub target_name : String
  pub relation_type : RelationType
  pub metadata : Fields F

pub record JavaParseResult (F : Type 0) : Type 0 where
  pub code_symbols : List (ParsedCodeSymbol F)
  pub api_definitions : List (ParsedApiDefinition F)
  pub symbol_relations : List (ParsedSymbolRelation F)
