-- ===== src/Agents/Generation.antt =====
-- The graph of backend/app/modules/agents/graph.py up to the review, and its run in
-- `create_testcase_generation_run` of service.py. The state keeps the values themselves, not their JSON
-- copies; of the checkpoints, the name of the node is kept.
pub mod State
pub mod Traced
pub mod Settled
unfoldable pub use State.*
use ai_test.Base.{ℕ, String, Bool, true, false, Option, none, some, List, [], ◌∷◌, map, length}
use ai_test.Base.Result.{Result, ok, err, AppError, refuse_if}
use ai_test.Base.Outcome.{Outcome, done, failed, map_error, ◌>>=◌, ◌>>◌}
use ai_test.Execution.Models.{TestCaseStatus}
use ai_test.Agents.Drafts.{BusinessRuleDraft, TestScenarioDraft, StructuredCaseDraft, KnownFields}
use ai_test.Agents.Checks.{validate_rules, validate_scenarios, validate_cases}
use ai_test.Agents.Llm.{AgentLlmError, Answer, complete_structured}
use ai_test.Agents.Review.{
  AgentRun, AgentRunStatus, AgentErrorCategory, mark_failed, error_category_for_llm,
  error_category_for_app_error,
}
use ai_test.Agents.Tools.{
  BusinessRule, DraftCase, DraftAssertion, read_api_definitions, save_analysis_drafts,
  save_case_drafts, draft_assertions,
}

module _ {F C : Type 0} (model : Model F C) (scope : ToolCall → Result (Unit {0}))
    (apis : List KnownFields) (symbol_ids : List ℕ) where
  -- A call of the model in a node.
  abbrev pub ask :
      {A : Type 0}
      → (A → Outcome String (Unit {0}))
      → (String → Outcome String A)
      → String
      → Outcome GraphError A
  ask validate read prompt =
      map_error from_llm (complete_structured model.request read validate prompt)

  unfoldable pub validate_input : List ℕ → Outcome Stopped (Unit {0})
  validate_input ids =
      after "validate_input" (lift (refuse_if (is_nil ids) "AGENT_INPUT_INVALID" "至少需要选择一个接口" 422))

  unfoldable pub load_api_definition : List ℕ → Outcome Stopped (List KnownFields)
  unfolding read_api_definitions
  load_api_definition ids =
      after "validate_input" (lift (scope read_definitions) >> lift (read_api_definitions apis ids))

  -- The confirmed rules are read too.
  unfoldable pub retrieve_code_context : List ℕ → Outcome Stopped C
  retrieve_code_context ids = after "load_api_definition" (do
    lift (scope search)
    context ← lift (model.search_context ids)
    lift (scope read_rules)
    done context)

  unfoldable pub analyze_business_rules :
      List ℕ → List KnownFields → C → Outcome Stopped (List (BusinessRuleDraft F))
  unfolding validate_rules complete_structured
  analyze_business_rules ids definitions context = after "retrieve_code_context" (
      ask (validate_rules ids (model.chunk_ids context)) model.read_rules
        (model.rules_prompt definitions context model.confirmed_rules))

  unfoldable pub generate_test_scenarios :
      List ℕ
      → List KnownFields
      → List (BusinessRuleDraft F)
      → Outcome Stopped (List (TestScenarioDraft F))
  unfolding validate_scenarios complete_structured
  generate_test_scenarios ids definitions rules = after "analyze_business_rules" (
      ask (validate_scenarios ids (length rules)) model.read_scenarios
        (model.scenarios_prompt definitions rules))

  unfoldable pub generate_structured_cases :
      List KnownFields
      → List (BusinessRuleDraft F)
      → List (TestScenarioDraft F)
      → Outcome Stopped (List (StructuredCaseDraft F))
  unfolding validate_cases complete_structured
  generate_structured_cases definitions rules scenarios = after "generate_test_scenarios" (
      ask (validate_cases definitions scenarios rules) model.read_cases
        (model.cases_prompt definitions rules scenarios))

  unfoldable pub validate_generated_cases :
      List KnownFields
      → List (BusinessRuleDraft F)
      → List (TestScenarioDraft F)
      → List (StructuredCaseDraft F)
      → Outcome Stopped (Unit {0})
  unfolding validate_cases
  validate_generated_cases definitions rules scenarios cases =
      after "generate_structured_cases"
        (map_error (λ message. unexpected) (validate_cases definitions scenarios rules cases))

  -- The nodes before `persist_drafts`, in the order of the edges.
  unfoldable pub generate : List ℕ → Outcome Stopped (Generated F)
  unfolding validate_input load_api_definition retrieve_code_context analyze_business_rules
      generate_test_scenarios generate_structured_cases validate_generated_cases
  generate ids = do
    validate_input ids
    definitions ← load_api_definition ids
    context ← retrieve_code_context ids
    rules ← analyze_business_rules ids definitions context
    scenarios ← generate_test_scenarios ids definitions rules
    cases ← generate_structured_cases definitions rules scenarios
    validate_generated_cases definitions rules scenarios cases
    done (record {
      api_definitions = definitions;
      rules = rules;
      scenarios = scenarios;
      cases = cases;
    })

  -- `save_case_drafts`, as the node calls it.
  unfoldable pub save_cases :
      AgentRun → List (BusinessRule F) → ℕ → Generated F → Outcome GraphError (List (DraftCase F))
  unfolding save_case_drafts
  save_cases run rules next_case g = do
    lift (scope save_drafts)
    rows ← lift (save_case_drafts apis next_case run.id (map (λ r. r.id) rules) g.cases)
    or_unexpected rows

  -- `mark_drafts_pending_review` and what follows it.
  abbrev pub marked :
      AgentRun
      → List (BusinessRule F)
      → List (DraftCase F)
      → List (DraftAssertion F)
      → Result (Unit {0})
      → Generation F
  marked run rules cases assertions (err e) =
      failure run rules cases assertions
        (record { node = "validate_generated_cases"; error = from_app e })
  marked run rules cases assertions (ok u) = record {
    run = reviewable_run run;
    rules = rules;
    cases = map to_pending cases;
    assertions = assertions;
    raised = none;
  }

  -- What follows `save_case_drafts`; the rules that are stored before an error stay.
  abbrev pub saved :
      AgentRun
      → List (BusinessRule F)
      → ℕ
      → Generated F
      → Outcome GraphError (List (DraftCase F))
      → Generation F
  saved run rules next_case g (failed e) =
      failure run rules [] [] (record { node = "validate_generated_cases"; error = e })
  saved run rules next_case g (done cases) =
      marked run rules cases (draft_assertions next_case g.cases) (scope mark_drafts)

  -- What follows `save_analysis_drafts`.
  abbrev pub with_rules : AgentRun → ℕ → Generated F → Option (List (BusinessRule F)) → Generation F
  with_rules run next_case g none = unsaved run
  with_rules run next_case g (some rules) =
      saved run rules next_case g (save_cases run rules next_case g)

  -- What `persist_drafts` does after the first check of the scope.
  abbrev pub persisted : AgentRun → ℕ → ℕ → Generated F → Result (Unit {0}) → Generation F
  persisted run next_rule next_case g (err e) =
      failure run [] [] [] (record { node = "validate_generated_cases"; error = from_app e })
  persisted run next_rule next_case g (ok u) =
      with_rules run next_case g (save_analysis_drafts symbol_ids next_rule g.rules)

  unfoldable pub persist_drafts : AgentRun → ℕ → ℕ → Generated F → Generation F
  unfolding save_analysis_drafts save_cases draft_assertions fail_generation
  persist_drafts run next_rule next_case g = persisted run next_rule next_case g (scope save_rules)

  abbrev pub concluded : AgentRun → ℕ → ℕ → Outcome Stopped (Generated F) → Generation F
  concluded run next_rule next_case (failed stop) = failure run [] [] [] stop
  concluded run next_rule next_case (done g) = persist_drafts run next_rule next_case g

  -- `create_testcase_generation_run`, once the run is stored; new rows are numbered from two numbers on
  unfoldable pub create_testcase_generation_run : ℕ → ℕ → ℕ → List ℕ → Generation F
  unfolding generate persist_drafts fail_generation
  create_testcase_generation_run run next_rule next_case ids =
      concluded (new_run run) next_rule next_case (generate ids)
