-- ===== src/Execution/Suite/Queued.antt =====
-- The created run of a suite, and what its execution relies on.
use ai_test.Base.{ℕ, String, ◌≡◌, refl, sym, subst, Bool, Option, List, [], ◌∷◌, map, All}
use ai_test.Base.Outcome.{done, >>=-eq-done, fail_if-eq-done, done-injective}
use ai_test.Json.{Fields}
use ai_test.Runtime.{Runtime}
use ai_test.Runner.{TestEnvironment}
use ai_test.Execution.Models.{TestCase}
use ai_test.Execution.Evidence.{Catalogue, from_result, load_variable_namespaces}
use ai_test.Execution.Step.Verdict.{HasRows}
use ai_test.Execution.Run.{World}
use ai_test.Execution.Run.Accounting.Steps.{Ascending, AllPending}
use ai_test.Execution.Create.{
  TestSuiteStep, distinct, found, by_id, present_or_raise, precheck, apis_of_cases,
  environment_or_raise, validate_write_confirmation,
}
use ai_test.Execution.Create.Fresh.{
  IsKeyed, IsQueued, HasApi, by_id-found, present_or_raise-eq, apis_of_cases-HasApi,
  environment_or_raise-eq,
}
use ai_test.Execution.Suite.{
  produced_values, suite_requests, copied_steps, cases_of_suite, create_suite_execution_run,
}

module _ {F : Type 0} where
  copied_steps-AllPending : (steps : List (TestSuiteStep F)) → AllPending (copied_steps steps)
  unfolding copied_steps
  copied_steps-AllPending [] = tt
  copied_steps-AllPending (step ∷ rest) = (refl, copied_steps-AllPending rest)

module _ {F : Type 0} (py : Runtime F) (db : Catalogue F)
    (cases_keyed : IsKeyed (λ c. c.id) db.find_case)
    (apis_keyed : IsKeyed (λ a. a.id) db.find_api) where
  copied_steps-AllRows :
      (ids : List ℕ) (steps : List (TestSuiteStep F)) (requests : List (TestCase F × Fields F))
      → suite_requests (found db.find_case ids) steps ≡ done requests
      → All (λ (r : TestCase F × Fields F). HasApi py db cases_keyed apis_keyed r.0) requests
      → All (HasRows py db) (copied_steps steps)
  unfolding suite_requests copied_steps
  copied_steps-AllRows ids [] requests h k = tt
  copied_steps-AllRows ids (step ∷ rest) requests h k =
      let rows = found db.find_case ids in
      let (c, e, h1) =
        >>=-eq-done (present_or_raise (by_id (λ c. c.id) step.test_case_id rows)) _ h in
      let (others, e1, h2) = >>=-eq-done (suite_requests rows rest) _ h1 in
      let (api, others_api) =
        subst (All (λ (r : TestCase F × Fields F). HasApi py db cases_keyed apis_keyed r.0))
          (sym (done-injective h2)) k in
      (
        (
          c,
          api.0,
          by_id-found (λ c. c.id) db.find_case cases_keyed _ ids c (present_or_raise-eq _ c e),
          api.1,
        ),
        copied_steps-AllRows ids rest others e1 others_api,
      )

  -- A run that `create_suite_execution_run` accepts, of steps in the order of their positions, has its
  -- environment, its test cases and their interfaces, nothing counted, and all steps pending.
  pub create_suite_execution_run-IsQueued :
      (find_environment : ℕ → Option TestEnvironment) (stop_on_failure : Bool)
      (suite_steps : List (TestSuiteStep F)) (environment_id : ℕ) (write_confirmed : Bool)
      (confirmed_host : Option String) (w : World F)
      → Ascending (copied_steps suite_steps)
      → create_suite_execution_run py db find_environment stop_on_failure suite_steps environment_id
          write_confirmed confirmed_host
        ≡ done w
      → IsQueued py db cases_keyed apis_keyed find_environment w
  unfolding create_suite_execution_run cases_of_suite
  create_suite_execution_run-IsQueued find_environment stop_on_failure suite_steps environment_id
        write_confirmed confirmed_host w up h =
      let ids = map (λ step. step.test_case_id) suite_steps in
      let (environment, e, h1) =
        >>=-eq-done (environment_or_raise py db (find_environment environment_id)) _ h in
      let (cases, e1, h2) = >>=-eq-done (cases_of_suite py db ids) _ h1 in
      let (n, f) = fail_if-eq-done _ _ (done (found db.find_case (distinct ids))) e1 in
      let (apis, e2, h3) = >>=-eq-done (apis_of_cases py db cases) _ h2 in
      let (namespaces, e3, h4) =
        >>=-eq-done
          (from_result
            (load_variable_namespaces py db environment (produced_values suite_steps [])))
          _ h3 in
      let (requests, e4, h5) = >>=-eq-done (suite_requests cases suite_steps) _ h4 in
      let (write_required, e5, h6) =
        >>=-eq-done (precheck py db environment namespaces apis requests) _ h5 in
      let (x, e6, h7) =
        >>=-eq-done
          (validate_write_confirmation py db environment write_required write_confirmed
            confirmed_host)
          _ h6 in
      subst (IsQueued py db cases_keyed apis_keyed find_environment) (done-injective h7) (record {
        environment = environment;
        environment_found = environment_or_raise-eq py db cases_keyed apis_keyed _ environment e;
        fresh = record {
          passed = refl;
          failed = refl;
          skipped = refl;
          pending = copied_steps-AllPending suite_steps;
          ascending = up;
        };
        rows =
            copied_steps-AllRows (distinct ids) suite_steps requests
              (subst (λ rows. suite_requests rows suite_steps ≡ done requests)
                (sym (done-injective f)) e4)
              (apis_of_cases-HasApi py db cases_keyed apis_keyed cases apis e2 environment
                namespaces requests write_required e5);
        total = refl;
      })
