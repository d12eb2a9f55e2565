-- ===== src/Execution/Step.antt =====
-- One execution step: `_process_step` of backend/app/modules/executions/service.py and its helpers.
-- What the step reads from the database, and what it meets outside, are arguments.
pub mod Verdict
use ai_test.Base.{◌+◌, String, Bool, true, false, none, some, all, str_eq, if◌then◌else◌}
use ai_test.Base.Dict
use ai_test.Base.Dict.{Dict, mem}
use ai_test.Base.Outcome.{Outcome, done, failed}
use ai_test.Base.Exec.{Exec, pure, lift, gets, modify, ◌>>=◌, ◌>>◌}
use ai_test.Json.{dict, of_entries}
use ai_test.Runtime.{Runtime}
use ai_test.Extraction.{extract_step_variables}
use ai_test.Redaction.{redact_value}
use ai_test.Redaction.Curl.{build_redacted_curl}
use ai_test.Request.{build_request}
use ai_test.Runner.{
  Exn, app, runner, unexpected, ExecutionErrorCategory, request_build, assertion, precondition,
  variable_extraction, internal, TestEnvironment, Network, validate_execution_target, send_request,
}
use ai_test.Execution.Models.{
  BackgroundTask, ExecutionRun, ExecutionStep, ExecutionStepStatus, TestCase, ApiDefinition,
}
use ai_test.Execution.Evidence.{
  Catalogue, from_result, merge_request_template, load_variable_namespaces, request_snapshot,
  parse_response_json, response_snapshot, evaluate_all, result_rows, from_built,
}

-- What a step changes: its run and itself.
pub record StepState (F : Type 0) : Type 0 where
  pub run : ExecutionRun F
  pub step : ExecutionStep F

abbrev pub StepExec : Type 0 → Type 0 → Type 0
StepExec F A = Exec (StepState F) Exn A

abbrev pub app_category : String → ExecutionErrorCategory
app_category code =
    if str_eq code "VARIABLE_EXTRACTION_FAILED"
    then variable_extraction
    else if str_eq code "EXECUTION_VARIABLE_MISSING"
    then precondition
    else request_build

module _ {F : Type 0} where
  abbrev on_step : (ExecutionStep F → ExecutionStep F) → StepExec F (Unit {0})
  on_step f = modify λ s. record s { step = f s.step }

  abbrev on_run : (ExecutionRun F → ExecutionRun F) → StepExec F (Unit {0})
  on_run f = modify λ s. record s { run = f s.run }

  -- The end of the `try` block: the step passes if every assertion did.
  abbrev pub conclude : Bool → StepState F → StepState F
  conclude true s = record s {
    step = record s.step { status = ExecutionStepStatus.passed };
    run = record s.run { passed_count = s.run.passed_count + 1 };
  }
  conclude false s = record s {
    step = record s.step {
      status = ExecutionStepStatus.failed;
      error_category = some assertion;
      error_code = some "ASSERTION_FAILED";
      error_message = some "存在未通过断言";
    };
    run = record s.run { failed_count = s.run.failed_count + 1 };
  }

  -- `_record_step_error`
  unfoldable pub record_step_error :
      ExecutionErrorCategory → String → String → StepState F → StepState F
  record_step_error category code message s = record s {
    step = record s.step {
      status = ExecutionStepStatus.error;
      error_category = some category;
      error_code = some code;
      error_message = some message;
    };
    run = record s.run { failed_count = s.run.failed_count + 1 };
  }

  -- The `except` clauses.
  abbrev pub handle_error : Exn → StepState F → StepState F
  handle_error (runner e) s = record_step_error e.category e.code e.message s
  handle_error (app e) s = record_step_error (app_category e.code) e.code e.message s
  handle_error unexpected s = record_step_error internal "EXECUTION_STEP_FAILED" "执行用例时发生内部错误" s

  abbrev pub settle : Outcome Exn Bool → StepState F → StepState F
  settle (done passed) s = conclude passed s
  settle (failed e) s = handle_error e s

  abbrev pub begin_step : StepState F → StepState F
  begin_step s = record s {
    step = record s.step { status = ExecutionStepStatus.running; started = true };
  }

  abbrev pub finish_step : StepState F → StepState F
  finish_step s = record s { step = record s.step { completed = true } }

module _ {F : Type 0} (py : Runtime F) (db : Catalogue F) where
  -- What the `try` block does before its verdict, which is whether every assertion passed.
  unfoldable pub attempt_step :
      Network F → BackgroundTask → TestEnvironment → TestCase F → ApiDefinition → StepExec F Bool
  attempt_step network task environment test_case api = do
    s ← gets (λ s. s)
    namespaces ←
        lift (from_result (load_variable_namespaces py db environment s.run.runtime_variables))
    request ← lift (
        from_built (
          build_request py api.method api.normalized_path environment.base_url
            environment.common_headers
            (merge_request_template test_case.request_template s.step.request_override) namespaces))
    on_step λ step. record step {
      method = some request.method;
      target_url = some request.url;
      request_snapshot = request_snapshot py db request;
      redacted_curl = some (build_redacted_curl py request);
    }
    target ← lift (
        validate_execution_target py network.first_lookup environment request task.write_confirmed
          task.confirmed_host)
    response ← lift (
        send_request py network.second_lookup network.exchange request db.max_response_body_bytes
          target)
    on_step λ step. record step {
      duration_ms = some response.duration_ms;
      response_snapshot = response_snapshot py db response;
    }
    evaluations ← lift (from_result (evaluate_all py db test_case.assertions response))
    on_step λ step. record step { results = result_rows py db 1 evaluations }
    extracted ← lift (
        from_result (
          extract_step_variables py s.step.variable_extractions
            (parse_response_json py db response.body_text) response.body_text response.headers
            response.status_code))
    on_run λ run. record run { runtime_variables = Dict.merge run.runtime_variables extracted }
    on_step λ step. record step {
      extracted_variables = redact_value py.lower (dict (of_entries extracted)) none;
    }
    pure (all (λ e. e.passed) evaluations)

  -- `_process_step`. Only the reads of the test case and its interface, which stand before the `try`
  -- block, can raise.
  unfoldable pub process_step : Network F → BackgroundTask → TestEnvironment → StepExec F (Unit {0})
  process_step network task environment s =
      let started = begin_step s in
      elim (db.find_case s.step.test_case_id) [
        | none ↦ (failed unexpected, started)
        | some test_case ↦ elim (db.find_api test_case.api_definition_id) [
          | none ↦ (failed unexpected, started)
          | some api ↦
              let (verdict, after) = attempt_step network task environment test_case api started in
              (done tt, finish_step (settle verdict after))
        ]
      ]
