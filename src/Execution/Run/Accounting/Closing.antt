-- ===== src/Execution/Run/Accounting/Closing.antt =====
-- Passing over the pending steps keeps the books.
use ai_test.Base.{
  some, ◌+◌, String, ◌≡◌, refl, Bool, true, false, List, [], ◌∷◌, length, arith, All, inl, inr,
  Bool-cases,
}
use ai_test.Execution.Models.{
  ExecutionRun, ExecutionStep, ExecutionStepStatus, is_failure, is_pending,
}
use ai_test.Execution.Run.{close_steps}
use ai_test.Execution.Run.Accounting.{is_passed, is_unrun, is_open, tally, IsCounted}

-- What a test selects is pending.
abbrev pub OnlyPending : {F : Type 0} → (ExecutionStep F → Bool) → Type 0
OnlyPending {F} test = (step : ExecutionStep F) → test step ≡ true → is_pending step.status ≡ true

unrun_only :
    (s : ExecutionStepStatus)
    → is_unrun s ≡ true
    → (is_passed s ≡ false) × (is_failure s ≡ false) × (is_open s ≡ false)
unrun_only ExecutionStepStatus.skipped h = (refl, refl, refl)
unrun_only ExecutionStepStatus.stopped h = (refl, refl, refl)
unrun_only _ h = cc

pending_only :
    (s : ExecutionStepStatus)
    → is_pending s ≡ true
    → (is_passed s ≡ false) × (is_failure s ≡ false) × (is_unrun s ≡ false)
pending_only ExecutionStepStatus.pending h = (refl, refl, refl)
pending_only _ h = cc

module _ {F : Type 0} (test : ExecutionStep F → Bool) (only : OnlyPending test)
    (status : ExecutionStepStatus) (unrun : is_unrun status ≡ true) (reason : String) where
  abbrev closing : List (ExecutionStep F) → ExecutionRun F → List (ExecutionStep F) × ExecutionRun F
  closing steps run = close_steps test status reason steps run

  record Books (steps steps' : List (ExecutionStep F)) (run run' : ExecutionRun F) : Type 0 where
    same_length : length steps' ≡ length steps
    same_passed : run'.passed_count ≡ run.passed_count
    same_failed : run'.failed_count ≡ run.failed_count
    same_total : run'.total_count ≡ run.total_count
    passed : tally is_passed steps' ≡ tally is_passed steps
    failed : tally is_failure steps' ≡ tally is_failure steps
    skipped : run'.skipped_count + tally is_unrun steps ≡ run.skipped_count + tally is_unrun steps'

  abbrev closed : ExecutionStep F → ExecutionStep F
  closed step = record step { status = status; skip_reason = some reason; completed = true }

  abbrev counted : ExecutionRun F → ExecutionRun F
  counted run = record run { skipped_count = run.skipped_count + 1 }

  Books-closed :
      (step : ExecutionStep F) (rest rest' : List (ExecutionStep F)) (run run' : ExecutionRun F)
      → test step ≡ true
      → Books rest rest' (counted run) run'
      → Books (step ∷ rest) (closed step ∷ rest') run run'
  unfolding tally
  Books-closed step rest rest' run run' e b =
      let (sp, sf, _) = unrun_only status unrun in
      let (pp, pf, pu) = pending_only step.status (only step e) in
      record {
        same_length = omega (arith, b.same_length);
        same_passed = b.same_passed;
        same_failed = b.same_failed;
        same_total = b.same_total;
        passed = rw (sp, pp) (omega (arith, b.passed));
        failed = rw (sf, pf) (omega (arith, b.failed));
        skipped = rw (unrun, pu) (omega (arith, b.skipped));
      }

  Books-kept :
      (step : ExecutionStep F) (rest rest' : List (ExecutionStep F)) (run run' : ExecutionRun F)
      → Books rest rest' run run'
      → Books (step ∷ rest) (step ∷ rest') run run'
  unfolding tally
  Books-kept step rest rest' run run' b = record {
    same_length = omega (arith, b.same_length);
    same_passed = b.same_passed;
    same_failed = b.same_failed;
    same_total = b.same_total;
    passed = omega (arith, b.passed);
    failed = omega (arith, b.failed);
    skipped = omega (arith, b.skipped);
  }

  closing-Books :
      (steps : List (ExecutionStep F)) (run : ExecutionRun F)
      → Books steps (closing steps run).0 run (closing steps run).1
  unfolding close_steps tally
  closing-Books [] run = record {
    same_length = refl;
    same_passed = refl;
    same_failed = refl;
    same_total = refl;
    passed = refl;
    failed = refl;
    skipped = refl;
  }
  closing-Books (step ∷ rest) run = elim (Bool-cases (test step)) [
    | inl e ↦ rw e (Books-closed step rest _ run _ e (closing-Books rest (counted run)))
    | inr e ↦ rw e (Books-kept step rest _ run _ (closing-Books rest run))
  ]

  -- Passing over pending steps keeps the counters right, and the number of steps.
  pub closing-IsCounted :
      (steps : List (ExecutionStep F)) (run : ExecutionRun F)
      → IsCounted run steps
      → IsCounted (closing steps run).1 (closing steps run).0
  closing-IsCounted steps run c =
      let b = closing-Books steps run in
      record {
        passed = omega (arith, b.same_passed, b.passed, c.passed);
        failed = omega (arith, b.same_failed, b.failed, c.failed);
        skipped = omega (arith, b.skipped, c.skipped);
      }

  pub length-closing :
      (steps : List (ExecutionStep F)) (run : ExecutionRun F)
      → (length (closing steps run).0 ≡ length steps)
        × ((closing steps run).1.total_count ≡ run.total_count)
  length-closing steps run = let b = closing-Books steps run in (b.same_length, b.same_total)

  -- A step that the test does not select is open afterwards if it was before; a selected one is not.
  pub open-closing :
      (steps : List (ExecutionStep F)) (run : ExecutionRun F)
      → All (λ step. is_open step.status ≡ true → test step ≡ true) steps
      → tally is_open (closing steps run).0 ≡ 0
  unfolding close_steps tally
  open-closing [] run h = refl
  open-closing (step ∷ rest) run h = elim (Bool-cases (test step)) [
    | inl e ↦
        rw (e, (unrun_only status unrun).2) (omega (arith, open-closing rest (counted run) h.1))
    | inr e ↦ rw e (ground (arith, h.0, open-closing rest run h.1))
  ]
