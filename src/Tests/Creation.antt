-- ===== src/Tests/Creation.antt =====
-- Runs that are created.
use ai_test.Base.{ℕ, ◌≡◌, refl, true, false, Bool, Option, none, some, arith, List, [], ◌∷◌, length}
use ai_test.Base.Outcome.{done}
use ai_test.Json.{end}
use ai_test.Execution.Models.{TestCase, ApiDefinition}
use ai_test.Execution.Run.{World, process_execution_task}
use ai_test.Execution.Run.Accounting.Task.{IsBalanced}
use ai_test.Execution.Create.{
  ExecutionStartRequest, TestSuiteStep, create_execution_run, new_world, new_step,
}
use ai_test.Execution.Create.Fresh.{
  create_execution_run-IsQueued, create_execution_run-IsBalanced, IsQueued, IsKeyed,
}
use ai_test.Execution.Suite.{create_suite_execution_run, copied_steps}
use ai_test.Execution.Suite.Queued.{create_suite_execution_run-IsQueued}
use ai_test.Tests.{py, catalogue, network, find_environment}

cases_keyed : IsKeyed (λ (c : TestCase ⊥). c.id) catalogue.find_case
cases_keyed i c e = ground (arith, e)

apis_keyed : IsKeyed (λ (a : ApiDefinition). a.id) catalogue.find_api
apis_keyed i a e = ground (arith, e)

abbrev one_case : ExecutionStartRequest
one_case = record {
  environment_id = 1;
  test_case_ids = 7 ∷ [];
  stop_on_failure = true;
  write_confirmed = false;
  confirmed_host = none;
}

abbrev one_step : World ⊥
one_step = new_world 1 true false none (new_step 7 1 end [] ∷ [])

created : create_execution_run py catalogue find_environment one_case ≡ done one_step
unfolding create_execution_run ai_test.Execution.Create.cases_of_request
    ai_test.Execution.Create.ordered ai_test.Execution.Create.numbered
    ai_test.Execution.Create.found ai_test.Execution.Create.distinct ai_test.Execution.Create.by_id
    ai_test.Execution.Create.apis_of_cases ai_test.Execution.Evidence.load_variable_namespaces
    ai_test.Execution.Create.precheck ai_test.Request.build_request ai_test.Base.Dict.keys
    ai_test.Template.resolve_template ai_test.Request.string_section ai_test.Base.Dict.get
    ai_test.Request.Path.has_parameter ai_test.Request.Path.fill_path ai_test.Request.build_url
    ai_test.Request.parse_target ai_test.Base.Dict.merge ai_test.Base.Text.strip_left
    ai_test.Base.Text.strip_prefix ai_test.Execution.Create.validate_write_confirmation
    ai_test.Execution.Evidence.load_variables ai_test.Request.apply_auth
created = refl

create_execution_run-IsQueued_example :
    IsQueued py catalogue cases_keyed apis_keyed find_environment one_step
create_execution_run-IsQueued_example =
    create_execution_run-IsQueued py catalogue cases_keyed apis_keyed find_environment one_case
      one_step created

abbrev suite : List (TestSuiteStep ⊥)
suite =
    (record { test_case_id = 7; position = 1; request_override = end; variable_extractions = [] })
    ∷ []

create_suite_execution_run-IsQueued_example :
    IsQueued py catalogue cases_keyed apis_keyed find_environment one_step
unfolding create_suite_execution_run copied_steps ai_test.Execution.Suite.cases_of_suite
    ai_test.Execution.Suite.suite_requests ai_test.Execution.Evidence.merge_request_template
    ai_test.Execution.Suite.produced_values ai_test.Execution.Create.found
    ai_test.Execution.Create.distinct ai_test.Execution.Create.by_id
    ai_test.Execution.Create.apis_of_cases ai_test.Execution.Evidence.load_variable_namespaces
    ai_test.Execution.Create.precheck ai_test.Request.build_request ai_test.Base.Dict.keys
    ai_test.Template.resolve_template ai_test.Request.string_section ai_test.Base.Dict.get
    ai_test.Request.Path.has_parameter ai_test.Request.Path.fill_path ai_test.Request.build_url
    ai_test.Request.parse_target ai_test.Base.Dict.merge ai_test.Base.Text.strip_left
    ai_test.Base.Text.strip_prefix ai_test.Execution.Create.validate_write_confirmation
    ai_test.Execution.Evidence.load_variables ai_test.Request.apply_auth
create_suite_execution_run-IsQueued_example =
    create_suite_execution_run-IsQueued py catalogue cases_keyed apis_keyed find_environment true
      suite 1 false none one_step (tt, tt) refl

create_execution_run-IsBalanced_example : IsBalanced 1 (
    process_execution_task py catalogue
      (λ position. network)
      find_environment
      (true ∷ [])
      false
      one_step)
create_execution_run-IsBalanced_example =
    create_execution_run-IsBalanced py catalogue cases_keyed apis_keyed (λ position. network)
      find_environment one_case (true ∷ []) false one_step created
