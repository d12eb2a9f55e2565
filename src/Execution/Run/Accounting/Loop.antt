-- ===== src/Execution/Run/Accounting/Loop.antt =====
-- The loop over the steps keeps the books, whatever the network answers and whenever a stop comes.
use ai_test.Base.{
  ℕ, suc, ◌+◌, ◌<◌, String, ◌≡◌, refl, sym, ap, ◌∙◌, Bool, true, false, ◌&&◌, List, [], ◌∷◌, ◌++◌,
  length, length-append, All, arith, inl, inr, Bool-cases,
}
use ai_test.Runtime.{Runtime}
use ai_test.Runner.{TestEnvironment, Network}
use ai_test.Execution.Models.{
  BackgroundTask, ExecutionRun, ExecutionStep, ExecutionStepStatus, is_failure, is_pending,
  is_cancelled,
}
use ai_test.Execution.Evidence.{Catalogue}
use ai_test.Execution.Step.Verdict.{HasRows, process_step-IsSettled}
use ai_test.Execution.Run.{
  World, close_steps, skip_remaining_steps, stop_remaining_steps, stop_run, pending_after,
  still_pending, refresh, next_stop, later_stops, LoopEnd, finished, halted, crashed, after_step,
  run_steps,
}
use ai_test.Execution.Run.Accounting.{is_unrun, is_open, tally, IsCounted}
use ai_test.Execution.Run.Accounting.Closing.{closing-IsCounted, length-closing, open-closing}
use ai_test.Execution.Run.Accounting.Steps.{
  Ascending, AllPending, AllClosed, tally-AllClosed, IsCounted-append, settled_closed,
  settled_counted,
}

abbrev pub no_crash : LoopEnd → Bool
no_crash (crashed e) = false
no_crash _ = true

module _ {F : Type 0} where
  -- A loop over `n` steps in all that ended in order, with each step closed and each counter right.
  pub record IsAccounted (n total : ℕ) (r : LoopEnd × World F) : Type 0 where
    pub in_order : no_crash r.0 ≡ true
    pub counted : IsCounted r.1.run r.1.steps
    pub all_closed : tally is_open r.1.steps ≡ 0
    pub same_length : length r.1.steps ≡ n
    pub same_total : r.1.run.total_count ≡ total

  pub recount :
      {m n a b : ℕ} {r : LoopEnd × World F} → m ≡ n → a ≡ b → IsAccounted m a r → IsAccounted n b r
  recount e f x = record {
    in_order = x.in_order;
    counted = x.counted;
    all_closed = x.all_closed;
    same_length = x.same_length ∙ e;
    same_total = x.same_total ∙ f;
  }

  -- After the pending steps that a test selects are passed over, nothing is open.
  module _ (test : ExecutionStep F → Bool)
      (only : (step : ExecutionStep F) → test step ≡ true → is_pending step.status ≡ true) where
    closed-IsAccounted :
        (end : LoopEnd) (task : BackgroundTask) (status : ExecutionStepStatus) (reason : String)
        (past todo : List (ExecutionStep F)) (run : ExecutionRun F)
        → no_crash end ≡ true
        → is_unrun status ≡ true
        → IsCounted run (past ++ todo)
        → All (λ step. is_open step.status ≡ true → test step ≡ true) (past ++ todo)
        → IsAccounted (length past + length todo) run.total_count (
          end,
          record {
            task = task;
            run = (close_steps test status reason (past ++ todo) run).1;
            steps = (close_steps test status reason (past ++ todo) run).0;
          },
        )
    closed-IsAccounted end task status reason past todo run o u c h = record {
      in_order = o;
      counted = closing-IsCounted test only status u reason (past ++ todo) run c;
      all_closed = open-closing test only status u reason (past ++ todo) run h;
      same_length =
          (length-closing test only status u reason (past ++ todo) run).0 ∙ length-append past todo;
      same_total = (length-closing test only status u reason (past ++ todo) run).1;
    }

  selected_after :
      (test : ExecutionStep F → Bool) (past todo : List (ExecutionStep F))
      → AllClosed past
      → All (λ step. test step ≡ true) todo
      → All (λ step. is_open step.status ≡ true → test step ≡ true) (past ++ todo)
  selected_after test [] [] h k = tt
  selected_after test [] (t ∷ todo) h k = ((λ _. k.0), selected_after test [] todo tt k.1)
  selected_after test (p ∷ past) todo h k =
      ((λ o. cc (h.0, o)), selected_after test past todo h.1 k)

  pending_after-All :
      (position : ℕ) (todo : List (ExecutionStep F))
      → AllPending todo
      → All (λ later. position < later.position) todo
      → All (λ step. pending_after position step ≡ true) todo
  pending_after-All position [] h k = tt
  pending_after-All position (t ∷ todo) h k =
      (ground (arith, h.0, k.0), pending_after-All position todo h.1 k.1)

  snoc-append :
      (past : List (ExecutionStep F)) (step : ExecutionStep F) (rest : List (ExecutionStep F))
      → past ++ (step ∷ rest) ≡ (past ++ (step ∷ [])) ++ rest
  snoc-append [] step rest = refl
  snoc-append (p ∷ past) step rest = ap (λ xs. p ∷ xs) (snoc-append past step rest)

  lengths :
      (past : List (ExecutionStep F)) (step : ExecutionStep F) (rest : List (ExecutionStep F))
      → length past + suc (length rest) ≡ length (past ++ (step ∷ [])) + length rest
  lengths past step rest = omega (arith, length-append past (step ∷ []))

  AllClosed-snoc :
      (past : List (ExecutionStep F)) (step : ExecutionStep F)
      → AllClosed past
      → is_open step.status ≡ false
      → AllClosed (past ++ (step ∷ []))
  AllClosed-snoc [] step h k = (k, tt)
  AllClosed-snoc (p ∷ past) step h k = (h.0, AllClosed-snoc past step h.1 k)

module _ {F : Type 0} (py : Runtime F) (db : Catalogue F) (network : ℕ → Network F) where
  -- The rows of every step are there.
  abbrev pub AllRows : List (ExecutionStep F) → Type 0
  AllRows steps = All (HasRows py db) steps

  stopped-IsAccounted :
      (task : BackgroundTask) (run : ExecutionRun F) (past todo : List (ExecutionStep F))
      → IsCounted run past
      → AllClosed past
      → AllPending todo
      → IsAccounted
          (length past + length todo)
          run.total_count
          (halted, stop_run (record { task = task; run = run; steps = past ++ todo }))
  unfolding stop_remaining_steps
  stopped-IsAccounted task run past todo c h k =
      let a =
        closed-IsAccounted still_pending (λ step e. e) halted task ExecutionStepStatus.stopped
          "用户停止执行" past todo run refl refl (IsCounted-append run past todo c k)
          (selected_after still_pending past todo h k) in
      record {
        in_order = refl;
        counted = record {
          passed = a.counted.passed;
          failed = a.counted.failed;
          skipped = a.counted.skipped;
        };
        all_closed = a.all_closed;
        same_length = a.same_length;
        same_total = a.same_total;
      }

  skipped-IsAccounted :
      (task : BackgroundTask) (run : ExecutionRun F) (step : ExecutionStep F) (reason : String)
      (past rest : List (ExecutionStep F))
      → IsCounted run (past ++ (step ∷ []))
      → AllClosed (past ++ (step ∷ []))
      → AllPending rest
      → All (λ later. step.position < later.position) rest
      → IsAccounted (length past + suc (length rest)) run.total_count (
        finished,
        record {
          task = task;
          run = (skip_remaining_steps step.position reason (past ++ (step ∷ rest)) run).1;
          steps = (skip_remaining_steps step.position reason (past ++ (step ∷ rest)) run).0;
        },
      )
  unfolding skip_remaining_steps
  skipped-IsAccounted task run step reason past rest c h k up =
      rw (snoc-append past step rest, lengths past step rest)
        (closed-IsAccounted (pending_after step.position) (λ later e. ground arith) finished task
          ExecutionStepStatus.skipped reason (past ++ (step ∷ [])) rest run refl refl
          (IsCounted-append run (past ++ (step ∷ [])) rest c k)
          (selected_after (pending_after step.position) (past ++ (step ∷ [])) rest h
            (pending_after-All step.position rest k up)))

  pub run_steps-IsAccounted :
      (environment : TestEnvironment) (stops : List Bool) (task : BackgroundTask)
      (run : ExecutionRun F) (past todo : List (ExecutionStep F))
      → IsCounted run past
      → AllClosed past
      → AllPending todo
      → AllRows todo
      → Ascending todo
      → IsAccounted
          (length past + length todo)
          run.total_count
          (run_steps py db network environment stops task run past todo)
  unfolding run_steps after_step
  run_steps-IsAccounted environment stops task run past [] c h k rows up = record {
    in_order = refl;
    counted = c;
    all_closed = tally-AllClosed past h;
    same_length = omega arith;
    same_total = refl;
  }
  run_steps-IsAccounted environment stops task run past (step ∷ rest) c h k rows up =
      elim (Bool-cases (is_cancelled (refresh (next_stop stops) task).status)) [
        | inl e ↦
            rw (e, run_steps)
              (stopped-IsAccounted (refresh (next_stop stops) task) run past (step ∷ rest) c h k)
        | inr e ↦
            let task' = refresh (next_stop stops) task in
            let (t, eq, settled) =
              process_step-IsSettled py db (network step.position) task' environment
                (record { run = run; step = step }) rows.0 in
            let c' = settled_counted _ t past settled c in
            let h' = AllClosed-snoc past t.step h (settled_closed _ t settled) in
            rw (e, eq, run_steps)
              (elim (Bool-cases (t.run.stop_on_failure && is_failure t.step.status)) [
                | inl f ↦
                    rw (f, after_step)
                      (recount refl settled.same_total (
                        skipped-IsAccounted task' t.run t.step "前序用例失败，已按停止策略跳过" past rest c' h' k.1
                          (rw settled.same_position up.0)))
                | inr f ↦
                    rw (f, after_step)
                      (recount (sym (lengths past t.step rest)) settled.same_total (
                        run_steps-IsAccounted environment (later_stops stops) task' t.run
                          (past ++ (t.step ∷ [])) rest c' h' k.1 rows.1 up.1))
              ])
      ]
