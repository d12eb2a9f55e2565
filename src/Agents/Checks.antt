-- ===== src/Agents/Checks.antt =====
-- The checks of the model's output in backend/app/modules/agents/graph.py. A `ValueError` is its
-- message.
pub mod Traced
use ai_test.Base.{
  ℕ, String, Bool, true, false, not, ◌&&◌, ◌||◌, Option, none, some, List, [], ◌∷◌, length, any,
  all, get_elem?, leb, ◌==◌, if◌then◌else◌,
}
use ai_test.Base.Int.{ℤ, pos, negsuc}
use ai_test.Base.Dict
use ai_test.Base.Dict.{mem}
use ai_test.Base.Outcome.{Outcome, done, failed, ◌>>=◌, ◌>>◌, fail_if}
use ai_test.Json.{Value, dict, Fields, end, entries, get_field}
use ai_test.Execution.Create.{among, by_id}
use ai_test.Agents.Drafts.{
  BusinessRuleSourceType, TestCaseCategory, same_category, SourceReference, BusinessRuleDraft,
  TestScenarioDraft, StructuredCaseDraft, KnownFields,
}

abbrev pub Check : Type 0
Check = Outcome String (Unit {0})

abbrev is_confirmed : BusinessRuleSourceType → Bool
is_confirmed BusinessRuleSourceType.source_confirmed = true
is_confirmed BusinessRuleSourceType.inferred = false

abbrev cited : List ℕ → Option ℕ → Bool
cited chunks none = false
cited chunks (some i) = among i chunks

abbrev pub all_categories : List TestCaseCategory
all_categories =
    TestCaseCategory.functional ∷ TestCaseCategory.boundary ∷ TestCaseCategory.exception
    ∷ TestCaseCategory.permission ∷ []

-- `0 <= index < count`
abbrev pub is_index : ℕ → ℤ → Bool
is_index count (pos n) = not (leb count n)
is_index count (negsuc n) = false

abbrev pub sections : List String
sections = "path" ∷ "query" ∷ "headers" ∷ "body" ∷ "auth" ∷ []

abbrev pub or_fail : {A : Type 0} → String → Option A → Outcome String A
or_fail message none = failed message
or_fail message (some a) = done a

module _ {F : Type 0} where
  -- `_validate_rules`
  unfoldable pub validate_rules : List ℕ → List ℕ → List (BusinessRuleDraft F) → Check
  validate_rules api_ids valid_chunks [] = done tt
  validate_rules api_ids valid_chunks (rule ∷ rules) = do
    fail_if (not (among rule.api_definition_id api_ids)) "规则引用了未选择的接口"
    fail_if
        (is_confirmed rule.source_type
          && any (λ r. not (cited valid_chunks r.knowledge_chunk_id)) rule.evidence)
        "源码确认规则引用了检索结果之外的代码切块"
    validate_rules api_ids valid_chunks rules

  -- The loop over the scenarios.
  unfoldable pub validate_each_scenario : List ℕ → ℕ → List (TestScenarioDraft F) → Check
  validate_each_scenario api_ids rule_count [] = done tt
  validate_each_scenario api_ids rule_count (scenario ∷ scenarios) = do
    fail_if (not (among scenario.api_definition_id api_ids)) "场景引用了未选择的接口"
    fail_if (any (λ i. not (is_index rule_count i)) scenario.rule_indexes) "场景引用了不存在的业务规则"
    validate_each_scenario api_ids rule_count scenarios

  -- `category in categories_by_api[api_id]`, once all scenarios are read
  abbrev pub covers : List (TestScenarioDraft F) → ℕ → TestCaseCategory → Bool
  covers scenarios api_id category =
      any (λ s. s.api_definition_id == api_id && same_category s.category category) scenarios

  -- `_validate_scenarios`
  unfoldable pub validate_scenarios : List ℕ → ℕ → List (TestScenarioDraft F) → Check
  unfolding validate_each_scenario
  validate_scenarios api_ids rule_count scenarios = do
    validate_each_scenario api_ids rule_count scenarios
    fail_if (any (λ i. not (all (covers scenarios i) all_categories)) api_ids) "每个接口必须覆盖四类测试场景"

  abbrev pub or_empty : Option (Value F) → Value F
  or_empty none = dict end
  or_empty (some v) = v

  -- The keys of a section are known.
  abbrev pub section_is_known : List String → Value F → Bool
  section_is_known allowed (dict fields) = all (λ k. mem k allowed) (Dict.keys (entries fields))
  section_is_known allowed v = false

  abbrev pub is_object : Value F → Bool
  is_object (dict fields) = true
  is_object v = false

  -- One round of the loop over the sections.
  abbrev pub check_section : Fields F → String → List String → Check
  check_section template section allowed = do
    let values = or_empty (get_field template section)
    fail_if (not (is_object values)) "请求模板区段必须是对象"
    fail_if (not (section_is_known allowed values)) "用例包含接口中不存在的请求字段"

  -- `_validate_request_fields`
  unfoldable pub validate_request_fields : Fields F → KnownFields → Check
  validate_request_fields template api = do
    fail_if (any (λ k. not (mem k sections)) (Dict.keys (entries template))) "请求模板包含不支持的区段"
    check_section template "path" api.known_path_fields
    check_section template "query" api.known_query_fields
    check_section template "headers" api.known_header_fields
    check_section template "body" api.known_body_fields
    fail_if (not (is_object (or_empty (get_field template "auth")))) "认证配置必须是对象"

  -- `rules[index].source_type == INFERRED`
  abbrev pub is_inferred_rule : List (BusinessRuleDraft F) → ℤ → Bool
  is_inferred_rule rules (pos n) = elim (get_elem? rules n) [
    | none ↦ false
    | some rule ↦ not (is_confirmed rule.source_type)
  ]
  is_inferred_rule rules (negsuc n) = false

  module _ (apis : List KnownFields) (scenarios : List (TestScenarioDraft F))
      (rules : List (BusinessRuleDraft F)) where
    -- One round of the loop over the cases.
    unfoldable pub validate_case : StructuredCaseDraft F → Check
    unfolding by_id validate_request_fields
    validate_case case = do
      api ← or_fail "用例引用了未选择的接口" (by_id (λ a. a.id) case.api_definition_id apis)
      scenario ← or_fail "用例引用了不存在的测试场景" (get_elem? scenarios case.scenario_index)
      fail_if
          (not (scenario.api_definition_id == case.api_definition_id)
            || not (same_category scenario.category case.category))
          "用例必须匹配所属接口和场景类别"
      fail_if (any (λ i. not (is_index (length rules) i)) case.rule_indexes) "用例引用了不存在的业务规则"
      fail_if (any (is_inferred_rule rules) case.rule_indexes && not case.is_inferred)
          "引用 AI 推断规则的用例必须标记为推断"
      validate_request_fields case.request_template api

    -- `_validate_cases`
    unfoldable pub validate_cases : List (StructuredCaseDraft F) → Check
    unfolding validate_case
    validate_cases [] = done tt
    validate_cases (case ∷ cases) = do validate_case case; validate_cases cases
