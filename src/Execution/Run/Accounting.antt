-- ===== src/Execution/Run/Accounting.antt =====
-- The counters of a run against the statuses of its steps.
pub mod Closing
pub mod Steps
pub mod Loop
pub mod Task
use ai_test.Base.{
  ℕ, zero, suc, ◌+◌, ◌≡◌, Bool, true, false, List, [], ◌∷◌, ◌++◌, All, length, if◌then◌else◌, arith,
  ◌<◌,
}
use ai_test.Execution.Models.{ExecutionRun, ExecutionStep, ExecutionStepStatus, is_failure}

abbrev pub is_passed : ExecutionStepStatus → Bool
is_passed ExecutionStepStatus.passed = true
is_passed _ = false

-- The step was passed over, by the stop policy or by a stop request.
abbrev pub is_unrun : ExecutionStepStatus → Bool
is_unrun ExecutionStepStatus.skipped = true
is_unrun ExecutionStepStatus.stopped = true
is_unrun _ = false

-- The step has no final status yet.
abbrev pub is_open : ExecutionStepStatus → Bool
is_open ExecutionStepStatus.pending = true
is_open ExecutionStepStatus.running = true
is_open _ = false

abbrev pub one_if : Bool → ℕ
one_if b = if b then 1 else 0

one_kind :
    (s : ExecutionStepStatus)
    → one_if (is_passed s) + one_if (is_failure s) + one_if (is_unrun s) + one_if (is_open s) ≡ 1
one_kind ExecutionStepStatus.pending = omega arith
one_kind _ = omega arith

module _ {F : Type 0} where
  -- The number of steps whose status passes a test.
  pub tally : (ExecutionStepStatus → Bool) → List (ExecutionStep F) → ℕ
  tally p [] = 0
  tally p (step ∷ rest) = one_if (p step.status) + tally p rest

  pub tally-append :
      (p : ExecutionStepStatus → Bool) (xs ys : List (ExecutionStep F))
      → tally p (xs ++ ys) ≡ tally p xs + tally p ys
  unfolding tally
  tally-append p [] ys = omega arith
  tally-append p (x ∷ xs) ys = omega (arith, tally-append p xs ys)

  -- Every step has one of the four kinds of status.
  pub tally-total :
      (steps : List (ExecutionStep F))
      → tally is_passed steps + tally is_failure steps + tally is_unrun steps + tally is_open steps
        ≡ length steps
  unfolding tally
  tally-total [] = omega arith
  tally-total (step ∷ rest) = ground (arith, tally-total rest, one_kind step.status)

  -- The counters of the run are the numbers of its steps with the statuses that they stand for.
  pub record IsCounted (run : ExecutionRun F) (steps : List (ExecutionStep F)) : Type 0 where
    pub passed : run.passed_count ≡ tally is_passed steps
    pub failed : run.failed_count ≡ tally is_failure steps
    pub skipped : run.skipped_count ≡ tally is_unrun steps
