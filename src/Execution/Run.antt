-- ===== src/Execution/Run.antt =====
-- The run of an execution task: `process_execution_task`, `request_execution_stop` and their helpers
-- (backend/app/modules/executions/service.py). A stop request comes from another session: it is seen
-- where the code refreshes the task, so it is an event before a step, or before the final check.
pub mod Accounting
pub mod Lifecycle
use ai_test.Base.{
  ℕ, suc, ◌+◌, String, Bool, true, false, not, ◌&&◌, ◌||◌, Option, none, some, List, [], ◌∷◌, ◌++◌,
  ltb, if◌then◌else◌,
}
use ai_test.Base.Result.{Result, ok, err, raise}
use ai_test.Base.Outcome.{Outcome, done, failed}
use ai_test.Runtime.{Runtime}
use ai_test.Runner.{Exn, TestEnvironment, Network}
use ai_test.Execution.Models.{
  BackgroundTask, ExecutionRun, ExecutionStep, ExecutionRunStatus, ExecutionStepStatus, TaskStatus,
  is_pending, is_failure, is_cancelled,
}
use ai_test.Execution.Evidence.{Catalogue}
use ai_test.Execution.Step.{StepState, process_step}

-- A run with its task and its steps, in the order of their positions.
pub record World (F : Type 0) : Type 0 where
  pub task : BackgroundTask
  pub run : ExecutionRun F
  pub steps : List (ExecutionStep F)

abbrev is_stoppable : ExecutionRunStatus → Bool
is_stoppable ExecutionRunStatus.pending = true
is_stoppable ExecutionRunStatus.running = true
is_stoppable _ = false

abbrev awaits_worker : ExecutionRunStatus → Bool
awaits_worker ExecutionRunStatus.pending = true
awaits_worker _ = false

module _ {F : Type 0} where
  -- The loop of `_skip_remaining_steps` and `_stop_remaining_steps`.
  unfoldable pub close_steps :
      (ExecutionStep F → Bool)
      → ExecutionStepStatus
      → String
      → List (ExecutionStep F)
      → ExecutionRun F
      → List (ExecutionStep F) × ExecutionRun F
  close_steps test status reason [] run = ([], run)
  close_steps test status reason (step ∷ rest) run =
      let closed = record step { status = status; skip_reason = some reason; completed = true } in
      let counted = record run { skipped_count = run.skipped_count + 1 } in
      let (rest', run') =
        close_steps test status reason rest (if test step then counted else run) in
      ((if test step then closed else step) ∷ rest', run')

  abbrev pub pending_after : ℕ → ExecutionStep F → Bool
  pending_after position step = ltb position step.position && is_pending step.status

  abbrev pub still_pending : ExecutionStep F → Bool
  still_pending step = is_pending step.status

  -- `_skip_remaining_steps`
  unfoldable pub skip_remaining_steps :
      ℕ → String → List (ExecutionStep F) → ExecutionRun F → List (ExecutionStep F) × ExecutionRun F
  unfolding close_steps
  skip_remaining_steps position reason =
      close_steps (pending_after position) ExecutionStepStatus.skipped reason

  -- `_stop_remaining_steps`
  unfoldable pub stop_remaining_steps :
      String → List (ExecutionStep F) → ExecutionRun F → List (ExecutionStep F) × ExecutionRun F
  unfolding close_steps
  stop_remaining_steps reason = close_steps still_pending ExecutionStepStatus.stopped reason

  -- `_fail_run`
  unfoldable pub fail_run : String → String → World F → World F
  fail_run code message w = record w {
    task = record w.task {
      status = TaskStatus.failed;
      error_code = some code;
      error_message = some message;
      completed = true;
    };
    run = record w.run {
      status = ExecutionRunStatus.failed;
      error_code = some code;
      error_message = some message;
      completed = true;
    };
  }

  abbrev pub stop_run : World F → World F
  stop_run w =
      let (steps, run) = stop_remaining_steps "用户停止执行" w.steps w.run in
      record w {
        steps = steps;
        run = record run { status = ExecutionRunStatus.stopped; completed = true };
      }

  -- `request_execution_stop` of a run that is found, with its task.
  unfoldable pub request_execution_stop : World F → Result (World F)
  unfolding stop_remaining_steps
  request_execution_stop w =
      if is_stoppable w.run.status
      then ok (
          let marked = record w { task = record w.task { status = TaskStatus.cancelled } } in
          if awaits_worker w.run.status
          then (let stopped = stop_run marked in
              record stopped { task = record stopped.task { completed = true } })
          else marked)
      else raise "EXECUTION_STOP_NOT_AVAILABLE" "当前执行任务不能停止" 409

-- `session.refresh(task)`, where a stop request may have been committed since the last one.
abbrev pub refresh : Bool → BackgroundTask → BackgroundTask
refresh true task = record task { status = TaskStatus.cancelled }
refresh false task = task

abbrev pub next_stop : List Bool → Bool
next_stop [] = false
next_stop (b ∷ stops) = b

abbrev pub later_stops : List Bool → List Bool
later_stops [] = []
later_stops (b ∷ stops) = stops

-- How the loop over the steps ends: at the last step or by the stop policy, by a stop request, or by
-- an exception.
pub data LoopEnd : Type 0 where
  finished halted : LoopEnd
  crashed : Exn → LoopEnd

-- What the loop does with a processed step: an exception leaves it, the stop policy passes over the
-- steps that are left, and otherwise `continue` goes on with the run and the steps that are done.
unfoldable pub after_step :
    {F : Type 0}
    → BackgroundTask
    → List (ExecutionStep F)
    → List (ExecutionStep F)
    → (ExecutionRun F → List (ExecutionStep F) → LoopEnd × World F)
    → Outcome Exn (Unit {0}) × StepState F
    → LoopEnd × World F
after_step task past rest continue (failed e, s) =
    (crashed e, record { task = task; run = s.run; steps = past ++ (s.step ∷ rest) })
after_step task past rest continue (done _, s) =
    elim (s.run.stop_on_failure && is_failure s.step.status) [
      | true ↦
          let (steps, run) =
            skip_remaining_steps s.step.position "前序用例失败，已按停止策略跳过" (past ++ (s.step ∷ rest))
              s.run in
          (finished, record { task = task; run = run; steps = steps })
      | false ↦ continue s.run (past ++ (s.step ∷ []))
    ]

module _ {F : Type 0} where
  -- What follows the loop; `last` says whether a stop request came before the final refresh.
  unfoldable pub conclude_run : Bool → LoopEnd × World F → Outcome Exn (Unit {0}) × World F
  unfolding fail_run
  conclude_run last (halted, w) = (done tt, w)
  conclude_run last (crashed e, w) = (failed e, fail_run "EXECUTION_TASK_FAILED" "执行任务发生内部错误" w)
  conclude_run last (finished, w) =
      let task = refresh last w.task in
      if is_cancelled task.status then (done tt, record w { task = task }) else (
        done tt,
        record w {
          task = record task { status = TaskStatus.succeeded; completed = true };
          run = record w.run { status = ExecutionRunStatus.completed; completed = true };
        },
      )

  abbrev pub start : World F → World F
  start w = record w {
    task = record w.task { status = TaskStatus.running; started = true };
    run = record w.run { status = ExecutionRunStatus.running; started = true };
  }

module _ {F : Type 0} (py : Runtime F) (db : Catalogue F) (network : ℕ → Network F) where
  -- The loop, from the steps that are done and those that are left.
  unfoldable pub run_steps :
      TestEnvironment
      → List Bool
      → BackgroundTask
      → ExecutionRun F
      → List (ExecutionStep F)
      → List (ExecutionStep F)
      → LoopEnd × World F
  run_steps environment stops task run past [] =
      (finished, record { task = task; run = run; steps = past })
  run_steps environment stops task run past (step ∷ rest) =
      let task' = refresh (next_stop stops) task in
      elim (is_cancelled task'.status) [
        | true ↦
            (halted, stop_run (record { task = task'; run = run; steps = past ++ (step ∷ rest) }))
        | false ↦
            after_step task' past rest
              (λ run' past'. run_steps environment (later_stops stops) task' run' past' rest)
              (process_step py db (network step.position) task' environment
                (record { run = run; step = step }))
      ]

  -- `process_execution_task` of a task whose run is found; `find_environment` reads a row.
  unfoldable pub process_execution_task :
      (ℕ → Option TestEnvironment) → List Bool → Bool → World F → Outcome Exn (Unit {0}) × World F
  unfolding fail_run conclude_run
  process_execution_task find_environment stops last w =
      elim (find_environment w.run.environment_id) [
        | none ↦ (done tt, fail_run "ENVIRONMENT_NOT_FOUND" "测试环境不存在" w)
        | some environment ↦
            let begun = start w in
            conclude_run last (run_steps environment stops begun.task begun.run [] begun.steps)
      ]
