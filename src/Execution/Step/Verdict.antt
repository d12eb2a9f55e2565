-- ===== src/Execution/Step/Verdict.antt =====
-- How a step ends: its own verdict and the counters of its run.
use ai_test.Base.{ℕ, ◌+◌, ◌≡◌, refl, ap, ◌∙◌, Bool, true, false, some, ◌⊎◌, inl, inr}
use ai_test.Base.Outcome.{Outcome, done, failed}
use ai_test.Base.Exec.{Keeps, Keeps-pure, Keeps-lift, Keeps-gets, Keeps-modify, Keeps-bind}
use ai_test.Runtime.{Runtime}
use ai_test.Runner.{Exn, app, runner, unexpected, TestEnvironment, Network}
use ai_test.Execution.Models.{
  BackgroundTask, ExecutionRun, ExecutionRunStatus, ExecutionStep, ExecutionStepStatus, TestCase,
  ApiDefinition, is_failure,
}
use ai_test.Execution.Evidence.{Catalogue}
use ai_test.Execution.Step.{
  StepState, on_step, on_run, attempt_step, conclude, record_step_error, handle_error, settle,
  begin_step, finish_step, process_step,
}

-- What the `try` block leaves alone: the run's status, policy and counters, and the step's identity.
pub record Frame : Type 0 where
  pub run_status : ExecutionRunStatus
  pub run_completed : Bool
  pub stop_on_failure : Bool
  pub total_count : ℕ
  pub passed_count : ℕ
  pub failed_count : ℕ
  pub skipped_count : ℕ
  pub test_case_id : ℕ
  pub position : ℕ

module _ {F : Type 0} where
  abbrev pub frame : StepState F → Frame
  frame s = record {
    run_status = s.run.status;
    run_completed = s.run.completed;
    stop_on_failure = s.run.stop_on_failure;
    total_count = s.run.total_count;
    passed_count = s.run.passed_count;
    failed_count = s.run.failed_count;
    skipped_count = s.run.skipped_count;
    test_case_id = s.step.test_case_id;
    position = s.step.position;
  }

  frame-on_step :
      (f : ExecutionStep F → ExecutionStep F)
      → ((x : ExecutionStep F) → (f x).test_case_id ≡ x.test_case_id)
      → ((x : ExecutionStep F) → (f x).position ≡ x.position)
      → Keeps frame (on_step f)
  frame-on_step f h k = Keeps-modify frame _ λ s. cc (h s.step, k s.step)

  frame-on_run :
      (f : ExecutionRun F → ExecutionRun F)
      → ((s : StepState F) → frame (record s { run = f s.run }) ≡ frame s)
      → Keeps frame (on_run f)
  frame-on_run f h = Keeps-modify frame _ h

module _ {F : Type 0} (py : Runtime F) (db : Catalogue F) where
  frame-attempt_step :
      (network : Network F) (task : BackgroundTask) (environment : TestEnvironment)
      (test_case : TestCase F) (api : ApiDefinition)
      → Keeps frame (attempt_step py db network task environment test_case api)
  unfolding attempt_step
  frame-attempt_step network task environment test_case api =
      Keeps-bind frame _ _ (Keeps-gets frame _) λ s.
        Keeps-bind frame _ _ (Keeps-lift frame _) λ namespaces.
          Keeps-bind frame _ _ (Keeps-lift frame _) λ request.
            Keeps-bind frame _ _ (frame-on_step _ (λ x. refl) (λ x. refl)) λ _.
              Keeps-bind frame _ _ (Keeps-lift frame _) λ target.
                Keeps-bind frame _ _ (Keeps-lift frame _) λ response.
                  Keeps-bind frame _ _ (frame-on_step _ (λ x. refl) (λ x. refl)) λ _.
                    Keeps-bind frame _ _ (Keeps-lift frame _) λ evaluations.
                      Keeps-bind frame _ _ (frame-on_step _ (λ x. refl) (λ x. refl)) λ _.
                        Keeps-bind frame _ _ (Keeps-lift frame _) λ extracted.
                          Keeps-bind frame _ _ (frame-on_run _ (λ s. refl)) λ _.
                            Keeps-bind frame _ _ (frame-on_step _ (λ x. refl) (λ x. refl))
                              λ _. Keeps-pure frame _

module _ {F : Type 0} where
  -- A step has its verdict, and exactly one counter of its run has grown, by one.
  pub record IsSettled (s t : StepState F) : Type 0 where
    pub same_status : t.run.status ≡ s.run.status
    pub same_completed : t.run.completed ≡ s.run.completed
    pub same_policy : t.run.stop_on_failure ≡ s.run.stop_on_failure
    pub same_total : t.run.total_count ≡ s.run.total_count
    pub same_skipped : t.run.skipped_count ≡ s.run.skipped_count
    pub same_case : t.step.test_case_id ≡ s.step.test_case_id
    pub same_position : t.step.position ≡ s.step.position
    pub completed : t.step.completed ≡ true
    pub verdict :
        ((t.step.status ≡ ExecutionStepStatus.passed)
          × (t.run.passed_count ≡ s.run.passed_count + 1)
          × (t.run.failed_count ≡ s.run.failed_count))
        ⊎ ((is_failure t.step.status ≡ true)
            × (t.run.passed_count ≡ s.run.passed_count)
            × (t.run.failed_count ≡ s.run.failed_count + 1))

  module _ (s t : StepState F) (e : frame t ≡ frame s) where
    kept {ℓ} : {A : Type ℓ} (f : Frame → A) → f (frame t) ≡ f (frame s)
    kept f = ap f e

    passed-IsSettled : IsSettled s (finish_step (conclude true t))
    passed-IsSettled = record {
      same_status = kept (λ x. x.run_status);
      same_completed = kept (λ x. x.run_completed);
      same_policy = kept (λ x. x.stop_on_failure);
      same_total = kept (λ x. x.total_count);
      same_skipped = kept (λ x. x.skipped_count);
      same_case = kept (λ x. x.test_case_id);
      same_position = kept (λ x. x.position);
      completed = refl;
      verdict = inl (refl, kept (λ x. x.passed_count + 1), kept (λ x. x.failed_count));
    }

    failed-IsSettled :
        (step : ExecutionStep F)
        → is_failure step.status ≡ true
        → step.test_case_id ≡ t.step.test_case_id
        → step.position ≡ t.step.position
        → IsSettled s (
            finish_step (record {
              run = record t.run { failed_count = t.run.failed_count + 1 };
              step = step;
            }))
    failed-IsSettled step f c p = record {
      same_status = kept (λ x. x.run_status);
      same_completed = kept (λ x. x.run_completed);
      same_policy = kept (λ x. x.stop_on_failure);
      same_total = kept (λ x. x.total_count);
      same_skipped = kept (λ x. x.skipped_count);
      same_case = c ∙ kept (λ x. x.test_case_id);
      same_position = p ∙ kept (λ x. x.position);
      completed = refl;
      verdict = inr (f, kept (λ x. x.passed_count), kept (λ x. x.failed_count + 1));
    }

    settle-IsSettled : (r : Outcome Exn Bool) → IsSettled s (finish_step (settle r t))
    unfolding record_step_error
    settle-IsSettled (done true) = passed-IsSettled
    settle-IsSettled (done false) = failed-IsSettled (conclude false t).step refl refl refl
    settle-IsSettled (failed (app a)) =
        failed-IsSettled (handle_error (app a) t).step refl refl refl
    settle-IsSettled (failed (runner a)) =
        failed-IsSettled (handle_error (runner a) t).step refl refl refl
    settle-IsSettled (failed unexpected) =
        failed-IsSettled (handle_error unexpected t).step refl refl refl

module _ {F : Type 0} (py : Runtime F) (db : Catalogue F) where
  -- The rows that a step needs are there.
  abbrev pub HasRows : ExecutionStep F → Type 0
  HasRows step =
      (c : TestCase F) × (a : ApiDefinition) × (db.find_case step.test_case_id ≡ some c)
      × (db.find_api c.api_definition_id ≡ some a)

  -- Whatever the network answers and whatever fails on the way, a step whose test case and interface
  -- are found ends with a verdict, `passed`, `failed` or `error`, and its run counts it once.
  pub process_step-IsSettled :
      (network : Network F) (task : BackgroundTask) (environment : TestEnvironment)
      (s : StepState F)
      → HasRows s.step
      → (t : StepState F) × (process_step py db network task environment s ≡ (done tt, t))
        × IsSettled s t
  unfolding process_step
  process_step-IsSettled network task environment s (c, a, ec, ea) =
      let begun = begin_step s in
      let result = attempt_step py db network task environment c a begun in
      (
        finish_step (settle result.0 result.1),
        rw (ec, ea, process_step) refl,
        settle-IsSettled s result.1
            ((frame-attempt_step py db network task environment c a).at begun) result.0,
      )
