-- ===== src/Tests/Runs.antt =====
-- A run of two steps.
use ai_test.Base.{◌≡◌, refl, true, false, arith, [], ◌∷◌}
use ai_test.Base.Outcome.{done}
use ai_test.Execution.Step.{StepState, process_step}
use ai_test.Execution.Step.Verdict.{process_step-IsSettled, IsSettled}
use ai_test.Execution.Run.{process_execution_task}
use ai_test.Execution.Run.Lifecycle.{process_execution_task-unstopped, EndsUnstopped}
use ai_test.Execution.Run.Accounting.Task.{process_execution_task-IsBalanced, IsBalanced}
use ai_test.Tests.{
  py, catalogue, network, pending_task, pending_run, pending_step, staging_environment, two_steps,
  find_environment, status_case, users_api,
}

abbrev first_step : StepState ⊥
first_step = record { run = pending_run; step = pending_step 1 }

process_step-IsSettled_example :
    (t : StepState ⊥) × (process_step py catalogue network pending_task staging_environment
        first_step
      ≡ (done tt, t))
    × IsSettled first_step t
process_step-IsSettled_example =
    process_step-IsSettled py catalogue network pending_task staging_environment first_step
      (status_case, users_api, refl, refl)

process_execution_task-IsBalanced_example : IsBalanced 2 (
    process_execution_task py catalogue
      (λ position. network)
      find_environment
      (false ∷ true ∷ [])
      false
      two_steps)
process_execution_task-IsBalanced_example =
    process_execution_task-IsBalanced py catalogue (λ position. network) find_environment
      (false ∷ true ∷ []) false two_steps staging_environment refl
      (record {
        passed = refl;
        failed = refl;
        skipped = refl;
        pending = (refl, (refl, tt));
        ascending = ((omega arith, tt), (tt, tt));
      })
      ((status_case, users_api, refl, refl), ((status_case, users_api, refl, refl), tt))

process_execution_task-unstopped_example :
    EndsUnstopped true false
      (process_execution_task py catalogue
        (λ position. network)
        find_environment
        (false ∷ [])
        true
        two_steps).1
process_execution_task-unstopped_example =
    process_execution_task-unstopped py catalogue (λ position. network) find_environment
      (false ∷ []) true two_steps staging_environment refl (refl, tt)
      ((status_case, users_api, refl, refl), ((status_case, users_api, refl, refl), tt))
