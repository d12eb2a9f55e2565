-- ===== src/Agents/Generation/State.antt =====
-- The state of the graph, its errors, and what a run of it leaves: `TestGenerationState` of
-- backend/app/modules/agents/graph.py, and the rows and errors of service.py.
use ai_test.Base.{ℕ, String, Bool, true, false, Option, none, some, List, [], ◌∷◌}
use ai_test.Base.Result.{Result, ok, err, AppError}
use ai_test.Base.Outcome.{Outcome, done, failed, map_error}
use ai_test.Execution.Models.{TestCaseStatus}
use ai_test.Agents.Drafts.{BusinessRuleDraft, TestScenarioDraft, StructuredCaseDraft, KnownFields}
use ai_test.Agents.Llm.{AgentLlmError, Answer}
use ai_test.Agents.Review.{
  AgentRun, AgentRunStatus, AgentErrorCategory, mark_failed, error_category_for_llm,
  error_category_for_app_error,
}
use ai_test.Agents.Tools.{BusinessRule, DraftCase, DraftAssertion}

-- What `create_testcase_generation_run` catches.
pub data GraphError : Type 0 where
  from_llm : AgentLlmError → GraphError
  from_app : AppError → GraphError
  unexpected : GraphError

-- The calls of tools by the graph; each checks the scope anew (`_validate_scope`).
pub data ToolCall : Type 0 where
  read_definitions search read_rules save_rules save_drafts mark_drafts : ToolCall

-- What leaves `create_testcase_generation_run`: a business error, or an exception of the session.
pub data Raised : Type 0 where
  app_raised : AppError → Raised
  rollback_pending : Raised

-- An error, with the node of the last checkpoint.
pub record Stopped : Type 0 where
  pub node : String
  pub error : GraphError

abbrev pub after : {A : Type 0} → String → Outcome GraphError A → Outcome Stopped A
after node m = map_error (λ e. record { node = node; error = e }) m

abbrev pub lift : {A : Type 0} → Result A → Outcome GraphError A
lift (ok a) = done a
lift (err e) = failed (from_app e)

abbrev pub or_unexpected : {A : Type 0} → Option A → Outcome GraphError A
or_unexpected none = failed unexpected
or_unexpected (some a) = done a

abbrev pub is_nil : List ℕ → Bool
is_nil [] = true
is_nil (i ∷ ids) = false

-- The model with its prompts and the reading of its answers, and the retrieval of the context.
pub record Model (F C : Type 0) : Type 0 where
  pub request : String → Answer
  pub rules_prompt : List KnownFields → C → List (BusinessRule F) → String
  pub scenarios_prompt : List KnownFields → List (BusinessRuleDraft F) → String
  pub cases_prompt :
      List KnownFields → List (BusinessRuleDraft F) → List (TestScenarioDraft F) → String
  pub read_rules : String → Outcome String (List (BusinessRuleDraft F))
  pub read_scenarios : String → Outcome String (List (TestScenarioDraft F))
  pub read_cases : String → Outcome String (List (StructuredCaseDraft F))
  pub search_context : List ℕ → Result C
  pub chunk_ids : C → List ℕ
  pub confirmed_rules : List (BusinessRule F)

-- What the nodes before `persist_drafts` have put into the state.
pub record Generated (F : Type 0) : Type 0 where
  pub api_definitions : List KnownFields
  pub rules : List (BusinessRuleDraft F)
  pub scenarios : List (TestScenarioDraft F)
  pub cases : List (StructuredCaseDraft F)

-- A run that has ended, the rows that are stored, and the error that is raised.
pub record Generation (F : Type 0) : Type 0 where
  pub run : AgentRun
  pub rules : List (BusinessRule F)
  pub cases : List (DraftCase F)
  pub assertions : List (DraftAssertion F)
  pub raised : Option Raised

-- The run that is stored before the graph starts.
abbrev pub new_run : ℕ → AgentRun
new_run id = record {
  id = id;
  status = AgentRunStatus.running;
  current_node = "validate_input";
  raw_output_preview = none;
  error_category = none;
  error_code = none;
  error_message = none;
  completed = false;
}

-- The run after a checkpoint.
abbrev at_node : String → AgentRun → AgentRun
at_node node run = record run { current_node = node }

abbrev pub reviewable_run : AgentRun → AgentRun
reviewable_run run = record run {
  status = AgentRunStatus.pending_review;
  current_node = "persist_drafts";
  completed = true;
}

abbrev app_error : String → String → ℕ → AppError
app_error code message status = record { code = code; message = message; status_code = status }

abbrev raised_error : GraphError → AppError
raised_error (from_llm e) = app_error e.code e.message 422
raised_error (from_app e) = e
raised_error unexpected = app_error "AGENT_RUN_FAILED" "Agent 运行失败" 500

-- The arguments of `_mark_failed` for an error.
unfoldable pub fail_generation : AgentRun → GraphError → AgentRun
unfolding mark_failed error_category_for_llm error_category_for_app_error
fail_generation run (from_llm e) =
    mark_failed (error_category_for_llm e.code) e.code e.message e.raw_preview run
fail_generation run (from_app e) =
    mark_failed (error_category_for_app_error e.code) e.code e.message "" run
fail_generation run unexpected =
    mark_failed AgentErrorCategory.recovery "AGENT_RUN_FAILED" "Agent 运行失败" "" run

module _ {F : Type 0} where
  -- A draft after `mark_drafts_pending_review`; all cases of the run are new, and drafts.
  abbrev pub to_pending : DraftCase F → DraftCase F
  to_pending c = record c { status = TestCaseStatus.pending_review }

  -- A run that fails; `_mark_failed` commits what has been flushed before.
  abbrev pub failure :
      AgentRun
      → List (BusinessRule F)
      → List (DraftCase F)
      → List (DraftAssertion F)
      → Stopped
      → Generation F
  failure run rules cases assertions stop = record {
    run = fail_generation (at_node stop.node run) stop.error;
    rules = rules;
    cases = cases;
    assertions = assertions;
    raised = some (app_raised (raised_error stop.error));
  }

  -- A run whose flush has failed: without a rollback the commit of `_mark_failed` raises, so that the
  -- row of the run stays as the last checkpoint has left it.
  abbrev pub unsaved : AgentRun → Generation F
  unsaved run = record {
    run = at_node "validate_generated_cases" run;
    rules = [];
    cases = [];
    assertions = [];
    raised = some rollback_pending;
  }
