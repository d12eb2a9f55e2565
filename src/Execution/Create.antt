-- ===== src/Execution/Create.antt =====
-- The creation of a run: `create_execution_run`, `create_suite_execution_run`,
-- `retry_failed_execution` and their checks (backend/app/modules/executions/service.py). The
-- catalogue holds the rows of the project; a query by a list of keys gives each row once.
pub mod Fresh
use ai_test.Base.{
  ℕ, suc, ◌+◌, String, ◌<>◌, Bool, true, false, not, ◌&&◌, ◌||◌, Option, none, some, List, [], ◌∷◌,
  length, any, map, ◌==◌, str_eq, is_some, if◌then◌else◌,
}
use ai_test.Base.Text.{is_empty}
use ai_test.Base.Dict
use ai_test.Base.Dict.{Dict, mem}
use ai_test.Base.Outcome.{Outcome, done, failed, ◌>>=◌, ◌>>◌, fail_if}
use ai_test.Json.{Value, null, str, dict, Fields, end, field, entries}
use ai_test.Runtime.{Runtime, ParsedUrl}
use ai_test.Template.{Namespaces}
use ai_test.Request.{build_request, is_http, with_port}
use ai_test.Extraction.{VariableExtractionSource}
use ai_test.Runner.{
  Exn, app, unexpected, Attempt, TestEnvironment, is_production, write_methods, display_host,
  confirms,
}
use ai_test.Execution.Models.{
  BackgroundTask, ExecutionRun, ExecutionStep, ExecutionRunStatus, ExecutionStepStatus, TaskStatus,
  TestCase, TestCaseStatus, ApiDefinition, is_failure,
}
use ai_test.Execution.Evidence.{
  Catalogue, from_result, merge_request_template, load_variable_namespaces, from_built,
}
use ai_test.Execution.Run.{World}

-- `ExecutionStartRequest` of backend/app/modules/executions/schemas.py
pub record ExecutionStartRequest : Type 0 where
  pub environment_id : ℕ
  pub test_case_ids : List ℕ
  pub stop_on_failure : Bool
  pub write_confirmed : Bool
  pub confirmed_host : Option String

pub record VariableExtraction : Type 0 where
  pub variable_key : String
  pub source : VariableExtractionSource
  pub expression : Option String

-- A step of a suite, with its extractions.
pub record TestSuiteStep (F : Type 0) : Type 0 where
  pub test_case_id : ℕ
  pub position : ℕ
  pub request_override : Fields F
  pub variable_extractions : List VariableExtraction

abbrev pub among : ℕ → List ℕ → Bool
among i ids = any (λ j. j == i) ids

-- The members of `set(ids)`.
unfoldable pub distinct : List ℕ → List ℕ
distinct [] = []
distinct (i ∷ ids) = if among i ids then distinct ids else i ∷ distinct ids

-- The rows of a query by keys.
unfoldable pub found : {A : Type 0} → (ℕ → Option A) → List ℕ → List A
found find [] = []
found find (i ∷ ids) = elim (find i) [ none ↦ found find ids | some a ↦ a ∷ found find ids ]

-- `{row.id: row for row in rows}[i]`, with `none` for a `KeyError`
unfoldable pub by_id : {A : Type 0} → (A → ℕ) → ℕ → List A → Option A
by_id id_of i [] = none
by_id id_of i (a ∷ rest) = if id_of a == i then some a else by_id id_of i rest

abbrev app_error : {A : Type 0} → String → String → ℕ → Attempt A
app_error code message status =
    failed (app (record { code = code; message = message; status_code = status }))

abbrev pub present_or_raise : {A : Type 0} → Option A → Attempt A
present_or_raise none = failed unexpected
present_or_raise (some a) = done a

abbrev pub is_approved : TestCaseStatus → Bool
is_approved TestCaseStatus.approved = true
is_approved _ = false

abbrev source_value : VariableExtractionSource → String
source_value VariableExtractionSource.json_path = "json_path"
source_value VariableExtractionSource.response_header = "response_header"
source_value VariableExtractionSource.text = "text"
source_value VariableExtractionSource.status_code = "status_code"

module _ {F : Type 0} where
  abbrev or_none : Option String → Value F
  or_none none = null
  or_none (some s) = str s

  -- A rule as it is frozen in a step.
  abbrev pub frozen_rule : VariableExtraction → Value F
  frozen_rule e = dict (
      field "variableKey" (str e.variable_key) (
        field "source" (str (source_value e.source))
          (field "expression" (or_none e.expression) end)))

  -- A row of `execution_steps` with the defaults of its columns.
  abbrev pub new_step : ℕ → ℕ → Fields F → List (Value F) → ExecutionStep F
  new_step test_case_id position request_override variable_extractions = record {
    test_case_id = test_case_id;
    position = position;
    status = ExecutionStepStatus.pending;
    method = none;
    target_url = none;
    request_snapshot = dict end;
    request_override = request_override;
    variable_extractions = variable_extractions;
    extracted_variables = dict end;
    response_snapshot = dict end;
    redacted_curl = none;
    duration_ms = none;
    error_category = none;
    error_code = none;
    error_message = none;
    skip_reason = none;
    started = false;
    completed = false;
    results = [];
  }

  -- `enumerate(ordered_cases, start=position)`
  unfoldable pub numbered : ℕ → List (TestCase F) → List (ExecutionStep F)
  numbered position [] = []
  numbered position (c ∷ cases) = new_step c.id position end [] ∷ numbered (position + 1) cases

  -- The task, the run and its steps, as they are committed.
  abbrev pub new_world : ℕ → Bool → Bool → Option String → List (ExecutionStep F) → World F
  new_world environment_id stop_on_failure write_confirmed confirmed_host steps = record {
    task = record {
      status = TaskStatus.pending;
      error_code = none;
      error_message = none;
      started = false;
      completed = false;
      write_confirmed = write_confirmed;
      confirmed_host = confirmed_host;
    };
    run = record {
      status = ExecutionRunStatus.pending;
      environment_id = environment_id;
      stop_on_failure = stop_on_failure;
      runtime_variables = [];
      total_count = length steps;
      passed_count = 0;
      failed_count = 0;
      skipped_count = 0;
      error_code = none;
      error_message = none;
      started = false;
      completed = false;
    };
    steps = steps;
  }

  -- `[cases_by_id[case_id] for case_id in ids]`
  unfoldable pub ordered : List (TestCase F) → List ℕ → Attempt (List (TestCase F))
  ordered cases [] = done []
  ordered cases (i ∷ ids) = do
    c ← present_or_raise (by_id (λ c. c.id) i cases)
    rest ← ordered cases ids
    done (c ∷ rest)

module _ {F : Type 0} (py : Runtime F) (db : Catalogue F) where
  -- `_environment_host`
  unfoldable pub environment_host : String → Attempt String
  environment_host base_url = elim (py.urlparse base_url) [
    | none ↦ app_error "ENVIRONMENT_BASE_URL_INVALID" "测试环境 Base URL 无效" 400
    | some u ↦
        if not (is_some u.port) || not (is_http u.scheme) || is_empty u.netloc
        then app_error "ENVIRONMENT_BASE_URL_INVALID" "测试环境 Base URL 无效" 400
        else done (display_host u)
  ]

  -- `_validate_write_confirmation`
  unfoldable pub validate_write_confirmation :
      TestEnvironment → Bool → Bool → Option String → Attempt (Unit {0})
  unfolding environment_host
  validate_write_confirmation environment write_required write_confirmed confirmed_host =
      if is_production environment.environment_type
      then app_error "EXECUTION_PRODUCTION_FORBIDDEN" "生产环境禁止执行" 403
      else if not write_required
      then done tt
      else (do
        expected_host ← environment_host environment.base_url
        fail_if (not environment.allow_write_requests) (
            app (record {
              code = "EXECUTION_WRITE_FORBIDDEN";
              message = "当前环境禁止写请求";
              status_code = 403;
            }))
        fail_if (not write_confirmed || not (confirms confirmed_host expected_host)) (
            app (record {
              code = "EXECUTION_WRITE_CONFIRMATION_REQUIRED";
              message = "写请求需要确认当前目标 Host";
              status_code = 409;
            }))
        done tt)

  -- `session.get(TestEnvironment, id)` of the project.
  abbrev pub environment_or_raise : Option TestEnvironment → Attempt TestEnvironment
  environment_or_raise none = app_error "ENVIRONMENT_NOT_FOUND" "测试环境不存在" 404
  environment_or_raise (some e) = done e

  -- The loop that builds every request once; it gives whether one of them writes.
  unfoldable pub precheck :
      TestEnvironment
      → Namespaces F
      → List ApiDefinition
      → List (TestCase F × Fields F)
      → Attempt Bool
  precheck environment namespaces apis [] = done false
  precheck environment namespaces apis ((c, template) ∷ rest) = do
    api ← present_or_raise (by_id (λ a. a.id) c.api_definition_id apis)
    request ← from_built (
        build_request py api.method api.normalized_path environment.base_url
          environment.common_headers template namespaces)
    write_required ← precheck environment namespaces apis rest
    done (mem api.method write_methods || write_required)

  -- The checks of `create_execution_run`, up to the ordered test cases.
  unfoldable pub cases_of_request : List ℕ → Attempt (List (TestCase F))
  cases_of_request test_case_ids = do
    fail_if (not (length (distinct test_case_ids) == length test_case_ids)) (
        app (record {
          code = "EXECUTION_TEST_CASE_DUPLICATED";
          message = "执行用例不能重复";
          status_code = 400;
        }))
    let test_cases = found db.find_case (distinct test_case_ids)
    fail_if (not (length test_cases == length test_case_ids))
        (app (record { code = "TEST_CASE_NOT_FOUND"; message = "测试用例不存在"; status_code = 404 }))
    fail_if (any (λ c. not (is_approved c.status)) test_cases) (
        app (record { code = "TEST_CASE_NOT_APPROVED"; message = "仅已审核用例可以执行"; status_code = 409 }))
    ordered test_cases test_case_ids

  -- The interfaces of the test cases, or the refusal if one is missing.
  unfoldable pub apis_of_cases : List (TestCase F) → Attempt (List ApiDefinition)
  apis_of_cases cases = do
    let api_ids = distinct (map (λ c. c.api_definition_id) cases)
    let apis = found db.find_api api_ids
    fail_if (not (length apis == length api_ids)) (
        app (record {
          code = "API_DEFINITION_NOT_FOUND";
          message = "测试用例关联接口不存在";
          status_code = 409;
        }))
    done apis

  unfoldable pub create_execution_run :
      (ℕ → Option TestEnvironment) → ExecutionStartRequest → Attempt (World F)
  create_execution_run find_environment payload = do
    environment ← environment_or_raise (find_environment payload.environment_id)
    ordered_cases ← cases_of_request payload.test_case_ids
    apis ← apis_of_cases ordered_cases
    namespaces ← from_result (load_variable_namespaces py db environment [])
    write_required ←
        precheck environment namespaces apis (map (λ c. (c, c.request_template)) ordered_cases)
    validate_write_confirmation environment write_required payload.write_confirmed
        payload.confirmed_host
    done (
        new_world payload.environment_id payload.stop_on_failure payload.write_confirmed
          payload.confirmed_host (numbered 1 ordered_cases))

  -- The failed steps of a run, for `retry_failed_execution`.
  unfoldable pub failed_cases : List (ExecutionStep F) → List ℕ
  failed_cases [] = []
  failed_cases (step ∷ rest) =
      if is_failure step.status then step.test_case_id ∷ failed_cases rest else failed_cases rest

  abbrev retry_request : World F → Bool → Option String → ExecutionStartRequest
  retry_request previous write_confirmed confirmed_host = record {
    environment_id = previous.run.environment_id;
    test_case_ids = failed_cases previous.steps;
    stop_on_failure = previous.run.stop_on_failure;
    write_confirmed = write_confirmed;
    confirmed_host = confirmed_host;
  }

  -- `retry_failed_execution` of a run that is found.
  unfoldable pub retry_failed_execution :
      (ℕ → Option TestEnvironment) → World F → Bool → Option String → Attempt (World F)
  retry_failed_execution find_environment previous write_confirmed confirmed_host = do
    fail_if (length (failed_cases previous.steps) == 0) (
        app (record {
          code = "EXECUTION_RETRY_NOT_AVAILABLE";
          message = "没有可重新执行的失败用例";
          status_code = 409;
        }))
    create_execution_run find_environment (retry_request previous write_confirmed confirmed_host)
