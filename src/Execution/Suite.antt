-- ===== src/Execution/Suite.antt =====
-- The run of a suite: `create_suite_execution_run` of
-- backend/app/modules/executions/service.py.
pub mod Queued
use ai_test.Base.{
  ℕ, suc, ◌+◌, String, ◌<>◌, Bool, true, false, not, ◌&&◌, ◌||◌, Option, none, some, List, [], ◌∷◌,
  length, any, map, ◌==◌, str_eq, is_some, if◌then◌else◌,
}
use ai_test.Base.Text.{is_empty}
use ai_test.Base.Dict
use ai_test.Base.Dict.{Dict, mem}
use ai_test.Base.Outcome.{Outcome, done, failed, ◌>>=◌, ◌>>◌, fail_if}
use ai_test.Json.{Value, null, str, dict, Fields, end, field, entries}
use ai_test.Runtime.{Runtime, ParsedUrl}
use ai_test.Template.{Namespaces}
use ai_test.Request.{build_request, is_http, with_port}
use ai_test.Extraction.{VariableExtractionSource}
use ai_test.Runner.{
  Exn, app, unexpected, Attempt, TestEnvironment, is_production, write_methods, display_host,
  confirms,
}
use ai_test.Execution.Models.{
  BackgroundTask, ExecutionRun, ExecutionStep, ExecutionRunStatus, ExecutionStepStatus, TaskStatus,
  TestCase, TestCaseStatus, ApiDefinition, is_failure,
}
use ai_test.Execution.Evidence.{
  Catalogue, from_result, merge_request_template, load_variable_namespaces,
}
use ai_test.Execution.Run.{World}
use ai_test.Execution.Create.{
  VariableExtraction, TestSuiteStep, distinct, found, by_id, present_or_raise, is_approved,
  frozen_rule, new_step, new_world, environment_or_raise, precheck, validate_write_confirmation,
  apis_of_cases,
}

module _ {F : Type 0} where
  -- `{key: "__flow_precheck__" for key in produced_keys}`
  unfoldable pub placeholders : List VariableExtraction → Dict (Value F) → Dict (Value F)
  unfolding Dict.put
  placeholders [] values = values
  placeholders (e ∷ rest) values =
      placeholders rest (Dict.put values e.variable_key (str "__flow_precheck__"))

  unfoldable pub produced_values : List (TestSuiteStep F) → Dict (Value F) → Dict (Value F)
  produced_values [] values = values
  produced_values (step ∷ rest) values =
      produced_values rest (placeholders step.variable_extractions values)

  -- The test case of each step with its merged template; after the check of the rows none is missing.
  unfoldable pub suite_requests :
      List (TestCase F) → List (TestSuiteStep F) → Attempt (List (TestCase F × Fields F))
  suite_requests cases [] = done []
  suite_requests cases (step ∷ rest) = do
    c ← present_or_raise (by_id (λ c. c.id) step.test_case_id cases)
    requests ← suite_requests cases rest
    done ((c, merge_request_template c.request_template step.request_override) ∷ requests)

  unfoldable pub copied_steps : List (TestSuiteStep F) → List (ExecutionStep F)
  copied_steps [] = []
  copied_steps (step ∷ rest) =
      new_step step.test_case_id step.position step.request_override
        (map frozen_rule step.variable_extractions)
      ∷ copied_steps rest

module _ {F : Type 0} (py : Runtime F) (db : Catalogue F) where
  -- The rows of the steps' test cases, if all are there and approved.
  unfoldable pub cases_of_suite : List ℕ → Attempt (List (TestCase F))
  cases_of_suite case_ids = do
    let test_cases = found db.find_case (distinct case_ids)
    fail_if
        (not (length test_cases == length (distinct case_ids))
          || any (λ c. not (is_approved c.status)) test_cases)
        (app (record {
          code = "TEST_CASE_NOT_APPROVED";
          message = "流程引用的用例不存在或未审核";
          status_code = 409;
        }))
    done test_cases

  unfoldable pub create_suite_execution_run :
      (ℕ → Option TestEnvironment)
      → Bool
      → List (TestSuiteStep F)
      → ℕ
      → Bool
      → Option String
      → Attempt (World F)
  create_suite_execution_run find_environment stop_on_failure suite_steps environment_id
        write_confirmed confirmed_host =
      do
        environment ← environment_or_raise py db (find_environment environment_id)
        test_cases ← cases_of_suite (map (λ step. step.test_case_id) suite_steps)
        apis ← apis_of_cases py db test_cases
        namespaces ←
            from_result
              (load_variable_namespaces py db environment (produced_values suite_steps []))
        requests ← suite_requests test_cases suite_steps
        write_required ← precheck py db environment namespaces apis requests
        validate_write_confirmation py db environment write_required write_confirmed confirmed_host
        done (
            new_world environment_id stop_on_failure write_confirmed confirmed_host
              (copied_steps suite_steps))
