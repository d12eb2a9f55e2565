-- ===== src/Agents/Review.antt =====
-- The review of a run of the agent and its end: backend/app/modules/agents/service.py, and
-- `mark_drafts_pending_review` of tools.py. A handler that raises writes nothing.
pub mod Reviewed
use ai_test.Base.{
  ℕ, suc, ◌+◌, String, Bool, true, false, not, ◌&&◌, ◌||◌, Option, none, some, List, [], ◌∷◌, map,
  length, any, ◌==◌, str_eq, if◌then◌else◌, is_some,
}
use ai_test.Base.Text.{is_empty}
use ai_test.Base.Result.{Result, ok, err, raise, refuse_if, ◌>>=◌, ◌>>◌}
use ai_test.Execution.Models.{TestCaseStatus}

pub data AgentRunStatus : Type 0 where
  pending running pending_review approved disabled failed : AgentRunStatus

pub data AgentErrorCategory : Type 0 where
  input retrieval model output interrupt recovery : AgentErrorCategory

pub record AgentRun : Type 0 where
  pub id : ℕ
  pub status : AgentRunStatus
  pub current_node : String
  pub raw_output_preview : Option String
  pub error_category : Option AgentErrorCategory
  pub error_code : Option String
  pub error_message : Option String
  pub completed : Bool

pub record GeneratedCase : Type 0 where
  pub id : ℕ
  pub agent_run_id : Option ℕ
  pub status : TestCaseStatus
  pub version : ℕ
  pub reviewed_by : Option ℕ

-- `ReviewRequest.status`
pub data Decision : Type 0 where
  approve disable : Decision

abbrev pub target_status : Decision → TestCaseStatus
target_status approve = TestCaseStatus.approved
target_status disable = TestCaseStatus.disabled

abbrev pub decided_status : Decision → AgentRunStatus
decided_status approve = AgentRunStatus.approved
decided_status disable = AgentRunStatus.disabled

abbrev pub is_pending_review : TestCaseStatus → Bool
is_pending_review TestCaseStatus.pending_review = true
is_pending_review _ = false

abbrev is_draft : TestCaseStatus → Bool
is_draft TestCaseStatus.draft = true
is_draft _ = false

abbrev pub awaits_review : AgentRunStatus → Bool
awaits_review AgentRunStatus.pending_review = true
awaits_review _ = false

abbrev pub same_run : ℕ → Option ℕ → Bool
same_run run none = false
same_run run (some i) = run == i

-- The cases of the project; those of the run are found by its identifier.
abbrev pub belongs_to : ℕ → GeneratedCase → Bool
belongs_to run c = same_run run c.agent_run_id

abbrev pub reviewed : ℕ → Decision → GeneratedCase → GeneratedCase
reviewed reviewer decision c = record {
  id = c.id;
  agent_run_id = c.agent_run_id;
  status = target_status decision;
  version = c.version + 1;
  reviewed_by = some reviewer;
}

-- The loop over the cases of the run, which stand among the other cases of the project.
unfoldable pub review_cases : ℕ → ℕ → Decision → List GeneratedCase → Result (List GeneratedCase)
review_cases run reviewer decision [] = ok []
review_cases run reviewer decision (c ∷ cases) =
    if belongs_to run c
    then (do
      refuse_if (not (is_pending_review c.status)) "TEST_CASE_REVIEW_STATE_INVALID"
          "存在非待审核用例，无法批量审核" 409
      rest ← review_cases run reviewer decision cases
      ok (reviewed reviewer decision c ∷ rest))
    else (do rest ← review_cases run reviewer decision cases; ok (c ∷ rest))

-- `review_agent_run` of a run that is found
unfoldable pub review_agent_run :
    ℕ → Decision → AgentRun → List GeneratedCase → Result (AgentRun × List GeneratedCase)
unfolding review_cases
review_agent_run reviewer decision run cases = do
  refuse_if (not (awaits_review run.status)) "AGENT_REVIEW_NOT_AVAILABLE" "当前运行不在待审核状态" 409
  refuse_if (not (any (belongs_to run.id) cases)) "TEST_CASE_NOT_FOUND" "当前运行没有待审核用例" 409
  changed ← review_cases run.id reviewer decision cases
  ok (
    record {
      id = run.id;
      status = decided_status decision;
      current_node = "human_review_interrupt";
      raw_output_preview = run.raw_output_preview;
      error_category = run.error_category;
      error_code = run.error_code;
      error_message = run.error_message;
      completed = true;
    },
    changed,
  )

abbrev to_pending_review : ℕ → GeneratedCase → GeneratedCase
to_pending_review run c =
    if belongs_to run c && is_draft c.status
    then record {
      id = c.id;
      agent_run_id = c.agent_run_id;
      status = TestCaseStatus.pending_review;
      version = c.version;
      reviewed_by = c.reviewed_by;
    }
    else c

-- `mark_drafts_pending_review`
unfoldable pub mark_drafts_pending_review : ℕ → List GeneratedCase → List GeneratedCase
mark_drafts_pending_review run cases = map (to_pending_review run) cases

-- `_mark_failed`
unfoldable pub mark_failed : AgentErrorCategory → String → String → String → AgentRun → AgentRun
mark_failed category code message preview run = record {
  id = run.id;
  status = AgentRunStatus.failed;
  current_node = run.current_node;
  raw_output_preview = if is_empty preview then run.raw_output_preview else some preview;
  error_category = some category;
  error_code = some code;
  error_message = some message;
  completed = true;
}

abbrev is_running : AgentRunStatus → Bool
is_running AgentRunStatus.running = true
is_running _ = false

-- The loop of `fail_interrupted_agent_runs`, which keeps the preview.
unfoldable pub fail_interrupted_agent_runs : List AgentRun → List AgentRun
unfolding mark_failed
fail_interrupted_agent_runs [] = []
fail_interrupted_agent_runs (run ∷ runs) =
    (if is_running run.status
      then mark_failed AgentErrorCategory.recovery "AGENT_RUN_INTERRUPTED"
          "服务重启导致 Agent 运行中断，请重新发起分析" "" run
      else run)
    ∷ fail_interrupted_agent_runs runs

-- `_error_category_for_llm`
unfoldable pub error_category_for_llm : String → AgentErrorCategory
error_category_for_llm code =
    if str_eq code "AGENT_OUTPUT_INVALID"
    then AgentErrorCategory.output
    else AgentErrorCategory.model

-- `_error_category_for_app_error`
unfoldable pub error_category_for_app_error : String → AgentErrorCategory
error_category_for_app_error code =
    if str_eq code "API_DEFINITION_NOT_FOUND" || str_eq code "SOURCE_SCAN_NOT_FOUND"
    then AgentErrorCategory.retrieval
    else AgentErrorCategory.input
