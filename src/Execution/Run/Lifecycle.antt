-- ===== src/Execution/Run/Lifecycle.antt =====
-- How a task and its run end: `process_execution_task` of service.py.
use ai_test.Base.{
  ℕ, String, ◌+◌, ◌≡◌, refl, ◌∙◌, Bool, true, false, ◌&&◌, Option, some, List, [], ◌∷◌, ◌++◌, All,
  arith, inl, inr, Bool-cases,
}
use ai_test.Runtime.{Runtime}
use ai_test.Runner.{TestEnvironment, Network}
use ai_test.Execution.Models.{
  BackgroundTask, ExecutionRun, ExecutionRunStatus, ExecutionStep, ExecutionStepStatus, TaskStatus,
  is_failure, is_cancelled,
}
use ai_test.Execution.Evidence.{Catalogue}
use ai_test.Execution.Step.Verdict.{process_step-IsSettled}
use ai_test.Execution.Run.{
  World, pending_after, close_steps, skip_remaining_steps, next_stop, later_stops, LoopEnd,
  finished, halted, crashed, after_step, run_steps, conclude_run, start, process_execution_task,
}
use ai_test.Execution.Run.Accounting.Loop.{AllRows}

abbrev NoStop : Bool → Type 0
NoStop b = b ≡ false

module _ {F : Type 0} where
  -- The loop ended at the last step or by the stop policy, and left the task and the status of the
  -- run as they were.
  record IsUnstopped (task : BackgroundTask) (run : ExecutionRun F) (r : LoopEnd × World F)
      : Type 0 where
    in_order : r.0 ≡ finished
    same_task : r.1.task ≡ task
    same_status : r.1.run.status ≡ run.status
    same_completed : r.1.run.completed ≡ run.completed

  close_steps-status :
      (test : ExecutionStep F → Bool) (status : ExecutionStepStatus) (reason : String)
      (steps : List (ExecutionStep F)) (run : ExecutionRun F)
      → ((close_steps test status reason steps run).1.status ≡ run.status)
        × ((close_steps test status reason steps run).1.completed ≡ run.completed)
  unfolding close_steps
  close_steps-status test status reason [] run = (refl, refl)
  close_steps-status test status reason (step ∷ rest) run = elim (Bool-cases (test step)) [
    | inl e ↦ rw e (
        close_steps-status test status reason rest
          (record run { skipped_count = run.skipped_count + 1 }))
    | inr e ↦ rw e (close_steps-status test status reason rest run)
  ]

  unstopped :
      {task : BackgroundTask} {run run' : ExecutionRun F} {r : LoopEnd × World F}
      → run'.status ≡ run.status
      → run'.completed ≡ run.completed
      → IsUnstopped task run' r
      → IsUnstopped task run r
  unstopped e f x = record {
    in_order = x.in_order;
    same_task = x.same_task;
    same_status = x.same_status ∙ e;
    same_completed = x.same_completed ∙ f;
  }

  skipped-IsUnstopped :
      (task : BackgroundTask) (run : ExecutionRun F) (position : ℕ) (reason : String)
      (steps : List (ExecutionStep F))
      → IsUnstopped task run (
        finished,
        record {
          task = task;
          run = (skip_remaining_steps position reason steps run).1;
          steps = (skip_remaining_steps position reason steps run).0;
        },
      )
  unfolding skip_remaining_steps
  skipped-IsUnstopped task run position reason steps =
      let (s, c) =
        close_steps-status (pending_after position) ExecutionStepStatus.skipped reason steps run in
      record { in_order = refl; same_task = refl; same_status = s; same_completed = c }

  -- The statuses at the end, `last` being whether a stop came before the final refresh.
  abbrev pub EndsUnstopped : Bool → Bool → World F → Type 0
  EndsUnstopped false was_completed w =
      (w.task.status ≡ TaskStatus.succeeded)
      × (w.task.completed ≡ true)
      × (w.run.status ≡ ExecutionRunStatus.completed)
      × (w.run.completed ≡ true)
  EndsUnstopped true was_completed w =
      (w.task.status ≡ TaskStatus.cancelled)
      × (w.run.status ≡ ExecutionRunStatus.running)
      × (w.run.completed ≡ was_completed)

  conclude_run-EndsUnstopped :
      (last : Bool) (w : World F) (r : LoopEnd × World F)
      → IsUnstopped (start w).task (start w).run r
      → EndsUnstopped last w.run.completed (conclude_run last r).1
  unfolding conclude_run
  conclude_run-EndsUnstopped last w (halted, v) u = ground (arith, u.in_order)
  conclude_run-EndsUnstopped last w (crashed e, v) u = ground (arith, u.in_order)
  conclude_run-EndsUnstopped true w (finished, v) u = (refl, u.same_status, u.same_completed)
  conclude_run-EndsUnstopped false w (finished, v) u =
      rw (u.same_task, conclude_run) (refl, refl, refl, refl)

quiet :
    (stops : List Bool)
    → All NoStop stops
    → (next_stop stops ≡ false) × All NoStop (later_stops stops)
quiet [] n = (refl, tt)
quiet (b ∷ stops) n = n

module _ {F : Type 0} (py : Runtime F) (db : Catalogue F) (network : ℕ → Network F) where
  run_steps-IsUnstopped :
      (environment : TestEnvironment) (stops : List Bool) (task : BackgroundTask)
      (run : ExecutionRun F) (past todo : List (ExecutionStep F))
      → All NoStop stops
      → is_cancelled task.status ≡ false
      → AllRows py db network todo
      → IsUnstopped task run (run_steps py db network environment stops task run past todo)
  unfolding run_steps after_step
  run_steps-IsUnstopped environment stops task run past [] n c rows = record {
    in_order = refl;
    same_task = refl;
    same_status = refl;
    same_completed = refl;
  }
  run_steps-IsUnstopped environment stops task run past (step ∷ rest) n c rows =
      let (q, n') = quiet stops n in
      let (t, eq, settled) =
        process_step-IsSettled py db (network step.position) task environment
          (record { run = run; step = step }) rows.0 in
      rw (q, c, q, eq, run_steps)
        (unstopped {run' = t.run} settled.same_status settled.same_completed
          (elim (Bool-cases (t.run.stop_on_failure && is_failure t.step.status)) [
            | inl f ↦
                rw (f, after_step)
                  (skipped-IsUnstopped task t.run t.step.position "前序用例失败，已按停止策略跳过"
                    (past ++ (t.step ∷ rest)))
            | inr f ↦
                rw (f, after_step)
                  (run_steps-IsUnstopped environment (later_stops stops) task t.run
                    (past ++ (t.step ∷ [])) rest n' c rows.1)
          ]))

  -- Without a stop request before the last step, `process_execution_task` ends with the task
  -- succeeded and the run completed; but a stop request that comes before the final refresh leaves the
  -- task cancelled and the run `running`, not completed if it was not before.
  pub process_execution_task-unstopped :
      (find_environment : ℕ → Option TestEnvironment) (stops : List Bool) (last : Bool)
      (w : World F) (environment : TestEnvironment)
      → find_environment w.run.environment_id ≡ some environment
      → All NoStop stops
      → AllRows py db network w.steps
      → EndsUnstopped last w.run.completed
          (process_execution_task py db network find_environment stops last w).1
  unfolding process_execution_task conclude_run
  process_execution_task-unstopped find_environment stops last w environment e n rows =
      let r = run_steps py db network environment stops (start w).task (start w).run [] w.steps in
      let u =
        run_steps-IsUnstopped environment stops (start w).task (start w).run [] w.steps n refl
          rows in
      rw (e, process_execution_task) (conclude_run-EndsUnstopped last w r u)
