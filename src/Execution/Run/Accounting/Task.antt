-- ===== src/Execution/Run/Accounting/Task.antt =====
-- The counters at the end of an execution task.
use ai_test.Base.{
  ℕ, ◌+◌, ◌≡◌, refl, sym, ◌∙◌, subst, Bool, Option, some, List, [], length, arith, inl, inr,
  Bool-cases,
}
use ai_test.Base.Outcome.{Outcome, done}
use ai_test.Runtime.{Runtime}
use ai_test.Runner.{TestEnvironment, Network, Exn}
use ai_test.Execution.Models.{ExecutionRun, ExecutionStep, is_cancelled}
use ai_test.Execution.Evidence.{Catalogue}
use ai_test.Execution.Run.{
  World, refresh, LoopEnd, finished, halted, crashed, conclude_run, start, process_execution_task,
}
use ai_test.Execution.Run.Accounting.{is_open, tally, tally-total, IsCounted}
use ai_test.Execution.Run.Accounting.Steps.{Ascending, AllPending}
use ai_test.Execution.Run.Accounting.Loop.{IsAccounted, AllRows, recount, run_steps-IsAccounted}

module _ {F : Type 0} where
  -- A run as it is created: nothing is counted, its steps are pending and in the order of positions.
  pub record IsFresh (w : World F) : Type 0 where
    pub passed : w.run.passed_count ≡ 0
    pub failed : w.run.failed_count ≡ 0
    pub skipped : w.run.skipped_count ≡ 0
    pub pending : AllPending w.steps
    pub ascending : Ascending w.steps

  -- No exception, the counters right and summing up to the number of steps, and no step open.
  pub record IsBalanced (n : ℕ) (r : Outcome Exn (Unit {0}) × World F) : Type 0 where
    pub returned : r.0 ≡ done tt
    pub counted : IsCounted r.1.run r.1.steps
    pub all_closed : tally is_open r.1.steps ≡ 0
    pub same_length : length r.1.steps ≡ n
    pub balance : r.1.run.passed_count + r.1.run.failed_count + r.1.run.skipped_count ≡ n

  balanced :
      {n total : ℕ} (r : LoopEnd × World F) (o : Outcome Exn (Unit {0})) (w : World F)
      → IsAccounted n total r
      → o ≡ done tt
      → w.steps ≡ r.1.steps
      → IsCounted w.run r.1.steps
      → IsBalanced n (o, w)
  balanced r o w a e s c = record {
    returned = e;
    counted = subst (λ steps. IsCounted w.run steps) (sym s) c;
    all_closed = rw s a.all_closed;
    same_length = rw s a.same_length;
    balance =
        omega (
          arith,
          tally-total r.1.steps,
          c.passed,
          c.failed,
          c.skipped,
          a.all_closed,
          a.same_length,
        );
  }

  same_counts :
      (run run' : ExecutionRun F) (steps : List (ExecutionStep F))
      → run'.passed_count ≡ run.passed_count
      → run'.failed_count ≡ run.failed_count
      → run'.skipped_count ≡ run.skipped_count
      → IsCounted run steps
      → IsCounted run' steps
  same_counts run run' steps p f s c = record {
    passed = p ∙ c.passed;
    failed = f ∙ c.failed;
    skipped = s ∙ c.skipped;
  }

  conclude_run-IsBalanced :
      {n total : ℕ} (last : Bool) (r : LoopEnd × World F)
      → IsAccounted n total r
      → IsBalanced n (conclude_run last r)
  unfolding conclude_run
  conclude_run-IsBalanced last (halted, w) a = balanced (halted, w) _ _ a refl refl a.counted
  conclude_run-IsBalanced last (crashed e, w) a = ground (arith, a.in_order)
  conclude_run-IsBalanced last (finished, w) a =
      elim (Bool-cases (is_cancelled (refresh last w.task).status)) [
        | inl e ↦ rw e (
            balanced (finished, w) _ _ a refl refl
              (same_counts w.run _ w.steps refl refl refl a.counted))
        | inr e ↦ rw e (
            balanced (finished, w) _ _ a refl refl
              (same_counts w.run _ w.steps refl refl refl a.counted))
      ]

module _ {F : Type 0} (py : Runtime F) (db : Catalogue F) (network : ℕ → Network F) where
  -- Whatever the network answers and whenever a stop is requested, `process_execution_task` of a
  -- fresh run whose environment and rows are there ends without an exception, with no step open, each
  -- counter equal to the number of steps with its status, and the three counters summing up to the
  -- number of steps.
  pub process_execution_task-IsBalanced :
      (find_environment : ℕ → Option TestEnvironment) (stops : List Bool) (last : Bool)
      (w : World F) (environment : TestEnvironment)
      → find_environment w.run.environment_id ≡ some environment
      → IsFresh w
      → AllRows py db network w.steps
      → IsBalanced
          (length w.steps)
          (process_execution_task py db network find_environment stops last w)
  unfolding process_execution_task tally
  process_execution_task-IsBalanced find_environment stops last w environment e fresh rows =
      rw (e, process_execution_task)
        (conclude_run-IsBalanced last _ (
          recount (omega arith) refl (
            run_steps-IsAccounted py db network environment stops (start w).task (start w).run []
              w.steps
              (record { passed = fresh.passed; failed = fresh.failed; skipped = fresh.skipped }) tt
              fresh.pending rows fresh.ascending)))
