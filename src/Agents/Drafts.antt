-- ===== src/Agents/Drafts.antt =====
-- backend/app/modules/agents/schemas.py: what the model's output is read as.
use ai_test.Base.{ℕ, String, Bool, Option, List, ◌==◌}
use ai_test.Base.Int.{ℤ}
use ai_test.Json.{Fields}

pub data BusinessRuleSourceType : Type 0 where
  source_confirmed inferred : BusinessRuleSourceType

pub data TestCaseCategory : Type 0 where
  functional boundary exception permission : TestCaseCategory

abbrev category_number : TestCaseCategory → ℕ
category_number TestCaseCategory.functional = 0
category_number TestCaseCategory.boundary = 1
category_number TestCaseCategory.exception = 2
category_number TestCaseCategory.permission = 3

abbrev pub same_category : TestCaseCategory → TestCaseCategory → Bool
same_category a b = category_number a == category_number b

pub record SourceReference : Type 0 where
  pub source_symbol_id : Option ℕ
  pub knowledge_chunk_id : Option ℕ
  pub source_file_path : String
  pub start_line : ℕ
  pub end_line : ℕ

pub record BusinessRuleDraft (F : Type 0) : Type 0 where
  pub api_definition_id : ℕ
  pub content : String
  pub source_type : BusinessRuleSourceType
  pub confidence : F
  pub evidence : List SourceReference

pub record TestScenarioDraft (F : Type 0) : Type 0 where
  pub api_definition_id : ℕ
  pub category : TestCaseCategory
  pub name : String
  pub description : String
  pub rule_indexes : List ℤ
  pub source_symbol_ids : List ℕ
  pub confidence : F

pub record AssertionDraft (F : Type 0) : Type 0 where
  pub assertion_type : String
  pub config : Fields F
  pub description : String

pub record StructuredCaseDraft (F : Type 0) : Type 0 where
  pub api_definition_id : ℕ
  pub scenario_index : ℕ
  pub name : String
  pub description : String
  pub category : TestCaseCategory
  pub priority : String
  pub preconditions : List String
  pub request_template : Fields F
  pub assertions : List (AssertionDraft F)
  pub rule_indexes : List ℤ
  pub source_symbol_ids : List ℕ
  pub confidence : F
  pub is_inferred : Bool

-- The names of the fields that a request to an interface may have, of `ToolApiDefinition`.
pub record KnownFields : Type 0 where
  pub id : ℕ
  pub known_path_fields : List String
  pub known_query_fields : List String
  pub known_header_fields : List String
  pub known_body_fields : List String
