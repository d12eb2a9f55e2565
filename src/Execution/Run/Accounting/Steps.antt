-- ===== src/Execution/Run/Accounting/Steps.antt =====
-- The statuses of the steps that are done, settled and pending, and the counters.
use ai_test.Base.{◌<◌, ◌≡◌, refl, true, false, List, [], ◌∷◌, ◌++◌, All, arith, inl, inr}
use ai_test.Execution.Models.{
  ExecutionRun, ExecutionStep, ExecutionStepStatus, is_failure, is_pending,
}
use ai_test.Execution.Step.{StepState}
use ai_test.Execution.Step.Verdict.{IsSettled}
use ai_test.Execution.Run.Accounting.{
  is_passed, is_unrun, is_open, tally, tally-append, IsCounted, one_if,
}

pending_kinds :
    (s : ExecutionStepStatus)
    → is_pending s ≡ true
    → (one_if (is_passed s) ≡ 0) × (one_if (is_failure s) ≡ 0) × (one_if (is_unrun s) ≡ 0)
pending_kinds ExecutionStepStatus.pending h = (refl, refl, refl)
pending_kinds _ h = cc

failure_kinds :
    (s : ExecutionStepStatus)
    → is_failure s ≡ true
    → (is_passed s ≡ false) × (is_unrun s ≡ false) × (is_open s ≡ false)
failure_kinds ExecutionStepStatus.failed h = (refl, refl, refl)
failure_kinds ExecutionStepStatus.error h = (refl, refl, refl)
failure_kinds _ h = cc

module _ {F : Type 0} where
  -- The positions grow, as `order_by(position)` gives them.
  abbrev pub Ascending : List (ExecutionStep F) → Type 0
  Ascending [] = Unit
  Ascending (step ∷ rest) = All (λ later. step.position < later.position) rest × Ascending rest

  abbrev pub AllPending : List (ExecutionStep F) → Type 0
  AllPending steps = All (λ step. is_pending step.status ≡ true) steps

  abbrev pub AllClosed : List (ExecutionStep F) → Type 0
  AllClosed steps = All (λ step. is_open step.status ≡ false) steps

  pub tally-AllClosed : (steps : List (ExecutionStep F)) → AllClosed steps → tally is_open steps ≡ 0
  unfolding tally
  tally-AllClosed [] h = refl
  tally-AllClosed (step ∷ rest) h = rw h.0 (omega (arith, tally-AllClosed rest h.1))

  tally-AllPending :
      (steps : List (ExecutionStep F))
      → AllPending steps
      → (tally is_passed steps ≡ 0) × (tally is_failure steps ≡ 0) × (tally is_unrun steps ≡ 0)
  unfolding tally
  tally-AllPending [] h = (refl, refl, refl)
  tally-AllPending (step ∷ rest) h =
      let (p, f, u) = pending_kinds step.status h.0 in
      let (ps, fs, us) = tally-AllPending rest h.1 in (omega arith, omega arith, omega arith)

  -- Pending steps do not count.
  pub IsCounted-append :
      (run : ExecutionRun F) (past todo : List (ExecutionStep F))
      → IsCounted run past
      → AllPending todo
      → IsCounted run (past ++ todo)
  IsCounted-append run past todo c h =
      let (p, f, u) = tally-AllPending todo h in
      record {
        passed = omega (arith, c.passed, tally-append is_passed past todo);
        failed = omega (arith, c.failed, tally-append is_failure past todo);
        skipped = omega (arith, c.skipped, tally-append is_unrun past todo);
      }

  pub settled_closed : (s t : StepState F) → IsSettled s t → is_open t.step.status ≡ false
  settled_closed s t h = elim h.verdict [
    | inl v ↦ rw v.0 refl
    | inr v ↦ (failure_kinds t.step.status v.0).2
  ]

  pub settled_counted :
      (s t : StepState F) (past : List (ExecutionStep F))
      → IsSettled s t
      → IsCounted s.run past
      → IsCounted t.run (past ++ (t.step ∷ []))
  unfolding tally
  settled_counted s t past h c = elim h.verdict [
    | inl v ↦ record {
      passed = rw (tally-append, v.0) (omega (arith, c.passed, v.1));
      failed = rw (tally-append, v.0) (omega (arith, c.failed, v.2));
      skipped = rw (tally-append, v.0) (omega (arith, c.skipped, h.same_skipped));
    }
    | inr v ↦
        let (p, u, _) = failure_kinds t.step.status v.0 in
        record {
          passed = rw (tally-append, p) (omega (arith, c.passed, v.1));
          failed = rw (tally-append, v.0) (omega (arith, c.failed, v.2));
          skipped = rw (tally-append, u) (omega (arith, c.skipped, h.same_skipped));
        }
  ]
