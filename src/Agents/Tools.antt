-- ===== src/Agents/Tools.antt =====
-- `AgentTools` of backend/app/modules/agents/tools.py: what the graph may read and write.
use ai_test.Base.{
  map, ℕ, suc, ◌-◌, String, Bool, true, false, not, ◌&&◌, Option, none, some, List, [], ◌∷◌, ◌++◌,
  length, any, concat_map, get_elem?, ltb, ◌==◌, str_eq, if◌then◌else◌, all,
}
use ai_test.Base.Int.{ℤ, pos, negsuc}
use ai_test.Base.Result.{Result, ok, refuse_if, ◌>>◌}
use ai_test.Json.{Value, str, dict, Fields}
use ai_test.Runtime.{Runtime}
use ai_test.Execution.Create.{among, distinct}
use ai_test.Execution.Models.{TestCaseStatus}
use ai_test.SourceScans.Models.{
  SymbolType, RelationType, CodeSymbol, SymbolRelation, same_relation_type,
}
use ai_test.SourceScans.OpenApi.{get_value, as_list, truthy, or_else}
use ai_test.SourceScans.OpenApi.Compare.{text_leb}
use ai_test.Agents.Drafts.{
  BusinessRuleSourceType, TestCaseCategory, SourceReference, BusinessRuleDraft, AssertionDraft,
  StructuredCaseDraft, KnownFields,
}

pub data UserRole : Type 0 where
  admin member : UserRole

-- `_validate_scope`, with what its queries give
unfoldable pub validate_scope : Bool → UserRole → Bool → Bool → Result (Unit {0})
validate_scope project_found role is_member scan_found = do
  refuse_if (not project_found) "PROJECT_NOT_FOUND" "项目不存在" 404
  refuse_if (not (is_admin role) && not is_member) "PROJECT_ACCESS_DENIED" "无权访问该项目" 403
  refuse_if (not scan_found) "SOURCE_SCAN_NOT_FOUND" "扫描任务不存在" 404
  ok tt
  where
    is_admin : UserRole → Bool
    is_admin UserRole.admin = true
    is_admin UserRole.member = false

-- Into a sorted list, unless it is there.
unfoldable pub insert_name : String → List String → List String
unfolding text_leb
insert_name name [] = name ∷ []
insert_name name (n ∷ names) =
    let rest = insert_name name names in
    if str_eq name n then n ∷ names else if text_leb name n then name ∷ n ∷ names else n ∷ rest

abbrev pub sorted_names : List String → List String
sorted_names [] = []
sorted_names (name ∷ names) = insert_name name (sorted_names names)

module _ {F : Type 0} (py : Runtime F) where
  -- The name of a parameter of one group.
  abbrev name_in : String → Value F → Value F → List String
  name_in group (str source) (str name) = if str_eq source group then name ∷ [] else []
  name_in group source name = []

  abbrev parameter_name : String → Value F → List String
  parameter_name group (dict p) =
      name_in group (or_else py (get_value p "source") (get_value p "in"))
        (or_else py (get_value p "bindingName") (get_value p "name"))
  parameter_name group v = []

  abbrev names_of : String → Value F → List String
  names_of group (dict d) = concat_map (parameter_name group) (as_list (get_value d "parameters"))
  names_of group v = []

  -- `_extract_parameter_groups(request_definition)[group]`, sorted
  unfoldable pub parameter_group : Fields F → String → List String
  unfolding insert_name truthy
  parameter_group definition group = sorted_names (
      names_of group (dict definition)
      ++ names_of group (get_value definition "source")
      ++ names_of group (get_value definition "openapi"))

abbrev is_field : SymbolType → Bool
is_field SymbolType.field = true
is_field _ = false

abbrev is_child_of : List ℕ → Option ℕ → Bool
is_child_of ids none = false
is_child_of ids (some parent) = among parent ids

module _ {F : Type 0} where
  -- The targets of the USES_DTO relations of a method.
  unfoldable pub dto_ids : ℕ → List (SymbolRelation F) → List ℕ
  dto_ids method [] = []
  dto_ids method (r ∷ relations) =
      let rest = dto_ids method relations in
      if r.source_symbol_id == method && same_relation_type r.relation_type RelationType.uses_dto
      then r.target_symbol_id ∷ rest
      else rest

  -- The names of the fields of some symbols.
  unfoldable pub child_fields : List ℕ → List (CodeSymbol F) → List String
  child_fields ids [] = []
  child_fields ids (s ∷ symbols) =
      let rest = child_fields ids symbols in
      if is_child_of ids s.parent_symbol_id && is_field s.symbol_type then s.name ∷ rest else rest

  abbrev stored : List (CodeSymbol F) → ℕ → Bool
  stored symbols id = any (λ s. s.id == id) symbols

  abbrev keep_stored : List (CodeSymbol F) → List ℕ → List ℕ
  keep_stored symbols [] = []
  keep_stored symbols (i ∷ ids) =
      let rest = keep_stored symbols ids in if stored symbols i then i ∷ rest else rest

  -- `_get_body_fields`, sorted
  unfoldable pub get_body_fields :
      Option ℕ → List (CodeSymbol F) → List (SymbolRelation F) → List String
  unfolding dto_ids child_fields insert_name
  get_body_fields none symbols relations = []
  get_body_fields (some method) symbols relations =
      sorted_names (child_fields (keep_stored symbols (dto_ids method relations)) symbols)

-- The row of a business rule.
pub record BusinessRule (F : Type 0) : Type 0 where
  pub id : ℕ
  pub source_symbol_id : Option ℕ
  pub source_type : BusinessRuleSourceType
  pub content : String
  pub api_definition_id : ℕ
  pub confidence : F
  pub references : List SourceReference

-- The row of a generated test case, and that of an assertion.
pub record DraftCase (F : Type 0) : Type 0 where
  pub id : ℕ
  pub api_definition_id : ℕ
  pub agent_run_id : ℕ
  pub name : String
  pub description : String
  pub category : TestCaseCategory
  pub priority : String
  pub status : TestCaseStatus
  pub preconditions : List String
  pub request_template : Fields F
  pub source_rule_ids : List ℕ
  pub source_symbol_ids : List ℕ
  pub confidence : F
  pub is_inferred : Bool

pub record DraftAssertion (F : Type 0) : Type 0 where
  pub test_case_id : ℕ
  pub position : ℕ
  pub assertion_type : String
  pub config : Fields F
  pub description : String

-- `rule_ids[index]`, with `none` for an `IndexError`; a negative index counts from the end
unfoldable pub rule_at : List ℕ → ℤ → Option ℕ
rule_at ids (pos n) = get_elem? ids n
rule_at ids (negsuc n) = if ltb n (length ids) then get_elem? ids (length ids - suc n) else none

unfoldable pub rules_at : List ℕ → List ℤ → Option (List ℕ)
unfolding rule_at
rules_at ids [] = some []
rules_at ids (i ∷ is) = elim (rule_at ids i) [
  | none ↦ none
  | some rule ↦ elim (rules_at ids is) [ none ↦ none | some rest ↦ some (rule ∷ rest) ]
]

abbrev first_symbol : List SourceReference → Option ℕ
first_symbol [] = none
first_symbol (r ∷ rest) = elim r.source_symbol_id [ none ↦ first_symbol rest | some i ↦ some i ]

-- The foreign key of a rule to a row of `code_symbols`.
abbrev has_symbol : List ℕ → Option ℕ → Bool
has_symbol symbol_ids none = true
has_symbol symbol_ids (some i) = among i symbol_ids

module _ {F : Type 0} where
  -- The rows of the rules, with the identifiers from `id` on.
  unfoldable pub rule_rows : ℕ → List (BusinessRuleDraft F) → List (BusinessRule F)
  rule_rows id [] = []
  rule_rows id (draft ∷ drafts) =
      record {
        id = id;
        source_symbol_id = first_symbol draft.evidence;
        source_type = draft.source_type;
        content = draft.content;
        api_definition_id = draft.api_definition_id;
        confidence = draft.confidence;
        references = draft.evidence;
      }
      ∷ rule_rows (suc id) drafts

  -- `save_analysis_drafts`, with the identifiers of all symbols; `none` is the error of the flush for a
  -- symbol that does not exist
  unfoldable pub save_analysis_drafts :
      List ℕ → ℕ → List (BusinessRuleDraft F) → Option (List (BusinessRule F))
  unfolding rule_rows
  save_analysis_drafts symbol_ids id drafts =
      let rows = rule_rows id drafts in
      if all (λ r. has_symbol symbol_ids r.source_symbol_id) rows then some rows else none

  abbrev pub draft_case : ℕ → ℕ → List ℕ → StructuredCaseDraft F → DraftCase F
  draft_case id run rule_ids draft = record {
    id = id;
    api_definition_id = draft.api_definition_id;
    agent_run_id = run;
    name = draft.name;
    description = draft.description;
    category = draft.category;
    priority = draft.priority;
    status = TestCaseStatus.draft;
    preconditions = draft.preconditions;
    request_template = draft.request_template;
    source_rule_ids = rule_ids;
    source_symbol_ids = draft.source_symbol_ids;
    confidence = draft.confidence;
    is_inferred = draft.is_inferred;
  }

  -- The loop over the drafts; an index that is out of range raises.
  unfoldable pub draft_cases :
      ℕ → ℕ → List ℕ → List (StructuredCaseDraft F) → Option (List (DraftCase F))
  unfolding rules_at
  draft_cases id run rule_ids [] = some []
  draft_cases id run rule_ids (draft ∷ drafts) = elim (rules_at rule_ids draft.rule_indexes) [
    | none ↦ none
    | some rules ↦ elim (draft_cases (suc id) run rule_ids drafts) [
      | none ↦ none
      | some rest ↦ some (draft_case id run rules draft ∷ rest)
    ]
  ]

  abbrev assertions_from : ℕ → ℕ → List (AssertionDraft F) → List (DraftAssertion F)
  assertions_from id position [] = []
  assertions_from id position (a ∷ rest) =
      record {
        test_case_id = id;
        position = position;
        assertion_type = a.assertion_type;
        config = a.config;
        description = a.description;
      }
      ∷ assertions_from id (suc position) rest

  -- The assertions of the cases whose identifiers count from `id` on.
  unfoldable pub draft_assertions : ℕ → List (StructuredCaseDraft F) → List (DraftAssertion F)
  draft_assertions id [] = []
  draft_assertions id (draft ∷ drafts) =
      assertions_from id 1 draft.assertions ++ draft_assertions (suc id) drafts

-- The rows of a query by identifiers.
abbrev pub selected : List ℕ → List KnownFields → List KnownFields
selected ids [] = []
selected ids (api ∷ apis) =
    let rest = selected ids apis in if among api.id ids then api ∷ rest else rest

-- `read_api_definitions`, of the interfaces of a scan
unfoldable pub read_api_definitions : List KnownFields → List ℕ → Result (List KnownFields)
unfolding distinct
read_api_definitions apis ids = do
  refuse_if (not (length (selected ids apis) == length (distinct ids))) "API_DEFINITION_NOT_FOUND"
      "接口定义不存在或不属于当前扫描版本" 404
  ok (selected ids apis)

module _ {F : Type 0} where
  -- `_serialize_api_definition`, but for the fields that no check reads
  unfoldable pub serialize_api_definition :
      Runtime F
      → ℕ
      → Fields F
      → Option ℕ
      → List (CodeSymbol F)
      → List (SymbolRelation F)
      → KnownFields
  unfolding parameter_group get_body_fields
  serialize_api_definition py id definition method symbols relations = record {
    id = id;
    known_path_fields = parameter_group py definition "path";
    known_query_fields = parameter_group py definition "query";
    known_header_fields = parameter_group py definition "header";
    known_body_fields = get_body_fields method symbols relations;
  }

  -- The checks of `save_case_drafts`, and its rows; `none` is an `IndexError`
  unfoldable pub save_case_drafts :
      List KnownFields
      → ℕ
      → ℕ
      → List ℕ
      → List (StructuredCaseDraft F)
      → Result (Option (List (DraftCase F)))
  unfolding distinct draft_cases
  save_case_drafts apis id run rule_ids cases = do
    let ids = map (λ c. c.api_definition_id) cases
    refuse_if (not (length (selected ids apis) == length (distinct ids))) "API_DEFINITION_NOT_FOUND"
        "用例引用了不存在的接口" 422
    ok (draft_cases id run rule_ids cases)
