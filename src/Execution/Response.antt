-- ===== src/Execution/Response.antt =====
-- The view of a run: `get_execution_response` of backend/app/modules/executions/service.py. The
-- assertion results of a step stand with the step.
use ai_test.Base.{ℕ, String, Bool, Option, none, some, List, map}
use ai_test.Base.Result.{Result, ok, raise}
use ai_test.Json.{Value, Fields}
use ai_test.Runner.{ExecutionErrorCategory}
use ai_test.Execution.Models.{
  ExecutionStep, ExecutionRunStatus, ExecutionStepStatus, AssertionResult,
}
use ai_test.Execution.Run.{World}

-- `ExecutionStepResponse` of backend/app/modules/executions/schemas.py
pub record ExecutionStepResponse (F : Type 0) : Type 0 where
  pub test_case_id : ℕ
  pub position : ℕ
  pub status : ExecutionStepStatus
  pub method : Option String
  pub target_url : Option String
  pub request_snapshot : Value F
  pub request_override : Fields F
  pub variable_extractions : List (Value F)
  pub extracted_variables : Value F
  pub response_snapshot : Value F
  pub redacted_curl : Option String
  pub duration_ms : Option ℕ
  pub error_category : Option ExecutionErrorCategory
  pub error_code : Option String
  pub error_message : Option String
  pub skip_reason : Option String
  pub assertions : List (AssertionResult F)
  pub started : Bool
  pub completed : Bool

-- `ExecutionRunResponse` of the same file
pub record ExecutionRunResponse (F : Type 0) : Type 0 where
  pub environment_id : ℕ
  pub status : ExecutionRunStatus
  pub stop_on_failure : Bool
  pub total_count : ℕ
  pub passed_count : ℕ
  pub failed_count : ℕ
  pub skipped_count : ℕ
  pub error_code : Option String
  pub error_message : Option String
  pub started : Bool
  pub completed : Bool
  pub steps : List (ExecutionStepResponse F)

module _ {F : Type 0} where
  abbrev step_response : ExecutionStep F → ExecutionStepResponse F
  step_response step = record {
    test_case_id = step.test_case_id;
    position = step.position;
    status = step.status;
    method = step.method;
    target_url = step.target_url;
    request_snapshot = step.request_snapshot;
    request_override = step.request_override;
    variable_extractions = step.variable_extractions;
    extracted_variables = step.extracted_variables;
    response_snapshot = step.response_snapshot;
    redacted_curl = step.redacted_curl;
    duration_ms = step.duration_ms;
    error_category = step.error_category;
    error_code = step.error_code;
    error_message = step.error_message;
    skip_reason = step.skip_reason;
    assertions = step.results;
    started = step.started;
    completed = step.completed;
  }

  unfoldable pub get_execution_response : Option (World F) → Result (ExecutionRunResponse F)
  get_execution_response none = raise "EXECUTION_RUN_NOT_FOUND" "执行任务不存在" 404
  get_execution_response (some w) = ok (record {
    environment_id = w.run.environment_id;
    status = w.run.status;
    stop_on_failure = w.run.stop_on_failure;
    total_count = w.run.total_count;
    passed_count = w.run.passed_count;
    failed_count = w.run.failed_count;
    skipped_count = w.run.skipped_count;
    error_code = w.run.error_code;
    error_message = w.run.error_message;
    started = w.run.started;
    completed = w.run.completed;
    steps = map step_response w.steps;
  })
