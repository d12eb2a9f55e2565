-- ===== src/Tests/Generations.antt =====
-- A model that answers with one rule, four scenarios and one case, and the review of the case.
use ai_test.Base.{
  ℕ, String, ◌≡◌, refl, true, false, none, some, List, [], ◌∷◌, ◌⊎◌, All, str_eq, any,
  if◌then◌else◌,
}
use ai_test.Base.Int.{pos}
use ai_test.Base.Result.{ok}
use ai_test.Base.Outcome.{Outcome, done, failed}
use ai_test.Json.{field, end, dict, str}
use ai_test.Execution.Models.{TestCaseStatus}
use ai_test.Agents.Drafts.{
  BusinessRuleSourceType, TestCaseCategory, BusinessRuleDraft, TestScenarioDraft,
  StructuredCaseDraft, KnownFields,
}
use ai_test.Agents.Checks.{validate_cases}
use ai_test.Agents.Checks.Traced.{IsTraced, validate_cases-IsTraced}
use ai_test.Agents.Llm.{Answer, text, complete_structured}
use ai_test.Agents.Llm.Repaired.{IsValidated, complete_structured-IsValidated}
use ai_test.Agents.Review.{
  AgentRun, GeneratedCase, AgentRunStatus, approve, review_agent_run, awaits_review, belongs_to,
  reviewed, decided_status,
}
use ai_test.Agents.Review.Reviewed.{Decided, review_agent_run-Decided}
use ai_test.Agents.Generation.{Model, create_testcase_generation_run, reviewable_run, new_run}
use ai_test.Agents.Generation.Settled.{HasEnded, create_testcase_generation_run-HasEnded}

abbrev user_api : KnownFields
user_api = record {
  id = 1;
  known_path_fields = "id" ∷ [];
  known_query_fields = [];
  known_header_fields = [];
  known_body_fields = [];
}

abbrev user_rule : BusinessRuleDraft ℕ
user_rule = record {
  api_definition_id = 1;
  content = "a user has an identifier";
  source_type = BusinessRuleSourceType.inferred;
  confidence = 1;
  evidence = [];
}

abbrev user_scenario : TestCaseCategory → TestScenarioDraft ℕ
user_scenario category = record {
  api_definition_id = 1;
  category = category;
  name = "read a user";
  description = "";
  rule_indexes = pos 0 ∷ [];
  source_symbol_ids = [];
  confidence = 1;
}

abbrev user_scenarios : List (TestScenarioDraft ℕ)
user_scenarios =
    user_scenario TestCaseCategory.functional
    ∷ user_scenario TestCaseCategory.boundary
    ∷ user_scenario TestCaseCategory.exception
    ∷ user_scenario TestCaseCategory.permission
    ∷ []

abbrev user_case : StructuredCaseDraft ℕ
user_case = record {
  api_definition_id = 1;
  scenario_index = 0;
  name = "read a user";
  description = "";
  category = TestCaseCategory.functional;
  priority = "P1";
  preconditions = [];
  request_template = field "path" (dict (field "id" (str "7") end)) end;
  assertions = [];
  rule_indexes = pos 0 ∷ [];
  source_symbol_ids = [];
  confidence = 1;
  is_inferred = true;
}

validate_cases-IsTraced_example :
    All (IsTraced (user_api ∷ []) user_scenarios (user_rule ∷ [])) (user_case ∷ [])
unfolding validate_cases ai_test.Agents.Checks.validate_case
    ai_test.Agents.Checks.validate_request_fields ai_test.Execution.Create.by_id
    ai_test.Base.Dict.keys ai_test.Base.Dict.get
validate_cases-IsTraced_example =
    validate_cases-IsTraced (user_api ∷ []) user_scenarios (user_rule ∷ []) (user_case ∷ []) refl

-- It answers with the prompt.
abbrev echo : String → Answer
echo prompt = text prompt

abbrev read_yes : String → Outcome String String
read_yes raw_output = done raw_output

abbrev is_yes : String → Outcome String (Unit {0})
is_yes answer = if str_eq answer "yes" then done tt else failed "no"

complete_structured-IsValidated_example :
    IsValidated echo read_yes is_yes (complete_structured echo read_yes is_yes "yes")
complete_structured-IsValidated_example = complete_structured-IsValidated echo read_yes is_yes "yes"

abbrev waiting_case : GeneratedCase
waiting_case = record {
  id = 1;
  agent_run_id = some 5;
  status = TestCaseStatus.pending_review;
  version = 1;
  reviewed_by = none;
}

abbrev waiting_run : AgentRun
waiting_run = reviewable_run (new_run 5)

abbrev approved_run : AgentRun
approved_run = record waiting_run {
  status = AgentRunStatus.approved;
  current_node = "human_review_interrupt";
}

review_agent_run-Decided_example :
    (awaits_review waiting_run.status ≡ true)
    × (any (belongs_to 5) (waiting_case ∷ []) ≡ true)
    × (approved_run.status ≡ decided_status approve)
    × Decided 5 2 approve (waiting_case ∷ []) (reviewed 2 approve waiting_case ∷ [])
unfolding review_agent_run ai_test.Agents.Review.review_cases
review_agent_run-Decided_example =
    review_agent_run-Decided 2 approve waiting_run (waiting_case ∷ []) approved_run
      (reviewed 2 approve waiting_case ∷ []) refl

abbrev user_model : Model ℕ (List ℕ)
user_model = record {
  request = echo;
  rules_prompt = λ apis context confirmed. "rules";
  scenarios_prompt = λ apis rules. "scenarios";
  cases_prompt = λ apis rules scenarios. "cases";
  read_rules = λ raw_output. done (user_rule ∷ []);
  read_scenarios = λ raw_output. done user_scenarios;
  read_cases = λ raw_output. done (user_case ∷ []);
  search_context = λ ids. ok [];
  chunk_ids = λ chunks. chunks;
  confirmed_rules = [];
}

create_testcase_generation_run-HasEnded_example :
    HasEnded [] (1 ∷ []) 5 10 20 (
      create_testcase_generation_run user_model (λ call. ok tt) (user_api ∷ []) [] 5 10 20 (1 ∷ []))
create_testcase_generation_run-HasEnded_example =
    create_testcase_generation_run-HasEnded user_model (λ call. ok tt) (user_api ∷ []) [] 5 10 20
      (1 ∷ [])
