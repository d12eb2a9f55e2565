-- ===== src/Agents/Generation/Settled.antt =====
-- How a run of the graph ends.
use ai_test.Execution.Models.{TestCaseStatus}
use ai_test.Base.{ℕ, ◌≡◌, refl, ap, ◌∙◌, true, Option, none, some, List, [], map, is_some, All}
use ai_test.Base.Result.{Result, ok, err, refuse_if-eq-ok, ok-injective}
use ai_test.Base.Outcome.{Outcome, done, failed, >>=-eq-done, done-injective}
use ai_test.Agents.Drafts.{KnownFields}
use ai_test.Agents.Review.{AgentRun, AgentRunStatus, mark_failed}
use ai_test.Agents.Tools.{
  BusinessRule, draft_assertions, DraftCase, draft_cases, save_case_drafts, save_analysis_drafts,
  DraftAssertion,
}
use ai_test.Agents.Generation.{
  Model, Generated, Generation, GraphError, from_llm, from_app, or_unexpected, unexpected, Stopped,
  lift, failure, new_run, fail_generation, generate, saved, save_cases, persist_drafts, persisted,
  concluded, create_testcase_generation_run, ToolCall, save_drafts, save_rules, mark_drafts,
  rollback_pending, marked, with_rules,
}
use ai_test.Agents.Generation.Traced.{
  AreDrawn-All, to_pending-AreDrawn, AreDrawn, IsChecked, draft_cases-AreDrawn, generate-IsChecked,
}

lift-eq-done : {A : Type 0} (r : Result A) {a : A} → lift r ≡ done a → r ≡ ok a
lift-eq-done (ok b) h = ap ok (done-injective h)
lift-eq-done (err e) h = cc

or_unexpected-eq-done : {A : Type 0} (o : Option A) {a : A} → or_unexpected o ≡ done a → o ≡ some a
or_unexpected-eq-done none h = cc
or_unexpected-eq-done (some b) h = ap some (done-injective h)

fail_generation-status :
    (run : AgentRun) (e : GraphError) → (fail_generation run e).status ≡ AgentRunStatus.failed
unfolding fail_generation mark_failed
fail_generation-status run (from_llm e) = refl
fail_generation-status run (from_app e) = refl
fail_generation-status run unexpected = refl

fail_generation-completed :
    (run : AgentRun) (e : GraphError) → (fail_generation run e).completed ≡ true
unfolding fail_generation mark_failed
fail_generation-completed run (from_llm e) = refl
fail_generation-completed run (from_app e) = refl
fail_generation-completed run unexpected = refl

fail_generation-error_code :
    (run : AgentRun) (e : GraphError) → is_some (fail_generation run e).error_code ≡ true
unfolding fail_generation mark_failed
fail_generation-error_code run (from_llm e) = refl
fail_generation-error_code run (from_app e) = refl
fail_generation-error_code run unexpected = refl

module _ {F : Type 0} where
  -- The error is both recorded and raised, and no stored case waits for a review or is approved.
  pub record HasFailed (g : Generation F) : Type 0 where
    pub status : g.run.status ≡ AgentRunStatus.failed
    pub completed : g.run.completed ≡ true
    pub recorded : is_some g.run.error_code ≡ true
    pub raised : is_some g.raised ≡ true
    pub drafts : All (λ c. c.status ≡ TestCaseStatus.draft) g.cases

  -- The run waits for the review; the rows are those of the checked drafts.
  pub record IsReviewable (ids : List ℕ) (run next_case : ℕ) (g : Generation F) : Type 0 where
    pub state : Generated F
    pub checked : IsChecked ids state
    pub status : g.run.status ≡ AgentRunStatus.pending_review
    pub raised : g.raised ≡ none
    pub rows :
        AreDrawn TestCaseStatus.pending_review run
          (map (λ r. r.id) g.rules)
          next_case
          state.cases
          g.cases
    pub assertions : g.assertions ≡ draft_assertions next_case state.cases

  failure-HasFailed :
      (run : AgentRun) (rules : List (BusinessRule F)) (cases : List (DraftCase F))
      (assertions : List (DraftAssertion F)) (stop : Stopped)
      → All (λ c. c.status ≡ TestCaseStatus.draft) cases
      → HasFailed (failure run rules cases assertions stop)
  failure-HasFailed run rules cases assertions stop h = record {
    status = fail_generation-status _ stop.error;
    completed = fail_generation-completed _ stop.error;
    recorded = fail_generation-error_code _ stop.error;
    raised = refl;
    drafts = h;
  }

  -- Nothing is stored of a checked state, since one of its rules names a symbol that does not exist, and
  -- the run stays running.
  pub record IsUnsaved (symbol_ids ids : List ℕ) (next_rule : ℕ) (g : Generation F) : Type 0 where
    pub state : Generated F
    pub checked : IsChecked ids state
    pub refused : save_analysis_drafts symbol_ids next_rule state.rules ≡ none
    pub status : g.run.status ≡ AgentRunStatus.running
    pub raised : g.raised ≡ some rollback_pending
    pub no_rule : g.rules ≡ []
    pub no_case : g.cases ≡ []

  -- The three ways in which a run ends.
  pub data HasEnded (symbol_ids ids : List ℕ) (run next_rule next_case : ℕ) (g : Generation F)
      : Type 0 where
    has_failed : HasFailed g → HasEnded symbol_ids ids run next_rule next_case g
    is_reviewable :
        IsReviewable ids run next_case g → HasEnded symbol_ids ids run next_rule next_case g
    is_unsaved :
        IsUnsaved symbol_ids ids next_rule g → HasEnded symbol_ids ids run next_rule next_case g

module _ {F C : Type 0} (model : Model F C) (scope : ToolCall → Result (Unit {0}))
    (apis : List KnownFields) (symbol_ids : List ℕ) where
  save_cases-AreDrawn :
      (run : AgentRun) (rules : List (BusinessRule F)) (next_case : ℕ) (g : Generated F)
      (rows : List (DraftCase F))
      → save_cases model scope apis symbol_ids run rules next_case g ≡ done rows
      → AreDrawn TestCaseStatus.draft run.id (map (λ r. r.id) rules) next_case g.cases rows
  unfolding save_cases save_case_drafts
  save_cases-AreDrawn run rules next_case g rows h =
      let (u, e, h1) = >>=-eq-done (lift (scope save_drafts)) _ h in
      let ids = map (λ r. r.id) rules in
      let (found, e1, h2) =
        >>=-eq-done (lift (save_case_drafts apis next_case run.id ids g.cases)) _ h1 in
      let (t, k) =
        refuse_if-eq-ok _ _ _ _ (ok (draft_cases next_case run.id ids g.cases))
          (lift-eq-done _ e1) in
      draft_cases-AreDrawn run.id ids next_case g.cases rows
        (ok-injective k ∙ or_unexpected-eq-done found h2)

  abbrev Ended : List ℕ → ℕ → ℕ → ℕ → Generation F → Type 0
  Ended ids run next_rule next_case g = HasEnded symbol_ids ids run next_rule next_case g

  marked-Ended :
      (ids : List ℕ) (run next_rule next_case : ℕ) (rules : List (BusinessRule F)) (g : Generated F)
      (rows : List (DraftCase F)) (allowed : Result (Unit {0}))
      → IsChecked ids g
      → AreDrawn TestCaseStatus.draft run (map (λ r. r.id) rules) next_case g.cases rows
      → Ended ids run next_rule next_case (
          marked model scope apis symbol_ids
            (new_run run)
            rules
            rows
            (draft_assertions next_case g.cases)
            allowed)
  marked-Ended ids run next_rule next_case rules g rows (err e) c h = has_failed (
      failure-HasFailed (new_run run) rules rows (draft_assertions next_case g.cases)
        (record { node = "validate_generated_cases"; error = from_app e }) (AreDrawn-All h))
  marked-Ended ids run next_rule next_case rules g rows (ok u) c h = is_reviewable (record {
    state = g;
    checked = c;
    status = refl;
    raised = refl;
    rows = to_pending-AreDrawn h;
    assertions = refl;
  })

  saved-Ended :
      (ids : List ℕ) (run next_rule next_case : ℕ) (rules : List (BusinessRule F)) (g : Generated F)
      (m : Outcome GraphError (List (DraftCase F)))
      → IsChecked ids g
      → save_cases model scope apis symbol_ids (new_run run) rules next_case g ≡ m
      → Ended ids run next_rule next_case
          (saved model scope apis symbol_ids (new_run run) rules next_case g m)
  saved-Ended ids run next_rule next_case rules g (failed e) c h = has_failed (
      failure-HasFailed (new_run run) rules [] []
        (record { node = "validate_generated_cases"; error = e }) tt)
  saved-Ended ids run next_rule next_case rules g (done rows) c h =
      marked-Ended ids run next_rule next_case rules g rows (scope mark_drafts) c
        (save_cases-AreDrawn (new_run run) rules next_case g rows h)

  with_rules-Ended :
      (ids : List ℕ) (run next_rule next_case : ℕ) (g : Generated F)
      (o : Option (List (BusinessRule F)))
      → IsChecked ids g
      → save_analysis_drafts symbol_ids next_rule g.rules ≡ o
      → Ended ids run next_rule next_case
          (with_rules model scope apis symbol_ids (new_run run) next_case g o)
  with_rules-Ended ids run next_rule next_case g none c h = is_unsaved (record {
    state = g;
    checked = c;
    refused = h;
    status = refl;
    raised = refl;
    no_rule = refl;
    no_case = refl;
  })
  with_rules-Ended ids run next_rule next_case g (some rules) c h =
      saved-Ended ids run next_rule next_case rules g _ c refl

  persisted-Ended :
      (ids : List ℕ) (run next_rule next_case : ℕ) (g : Generated F) (allowed : Result (Unit {0}))
      → IsChecked ids g
      → Ended ids run next_rule next_case
          (persisted model scope apis symbol_ids (new_run run) next_rule next_case g allowed)
  persisted-Ended ids run next_rule next_case g (err e) c = has_failed (
      failure-HasFailed (new_run run) [] [] []
        (record { node = "validate_generated_cases"; error = from_app e }) tt)
  persisted-Ended ids run next_rule next_case g (ok u) c =
      with_rules-Ended ids run next_rule next_case g _ c refl

  concluded-Ended :
      (ids : List ℕ) (run next_rule next_case : ℕ) (m : Outcome Stopped (Generated F))
      → generate model scope apis symbol_ids ids ≡ m
      → Ended ids run next_rule next_case
          (concluded model scope apis symbol_ids (new_run run) next_rule next_case m)
  unfolding persist_drafts
  concluded-Ended ids run next_rule next_case (failed stop) h =
      has_failed (failure-HasFailed (new_run run) [] [] [] stop tt)
  concluded-Ended ids run next_rule next_case (done g) h =
      persisted-Ended ids run next_rule next_case g (scope save_rules)
        (generate-IsChecked model scope apis symbol_ids ids g h)

  -- Whatever the model and the checks of the scope answer, a run ends in one of three ways. It has
  -- failed, with an error that is recorded and raised, and every stored case is a draft. Or it waits for
  -- the review: the scenarios cover all four categories of each interface, and the stored cases are the
  -- generated ones, all checked, all pending review, with the stored rules that their indexes name. Or
  -- a rule names a symbol that does not exist: then nothing is stored, an exception of the session is
  -- raised, and the run stays running.
  pub create_testcase_generation_run-HasEnded :
      (run next_rule next_case : ℕ) (ids : List ℕ)
      → HasEnded symbol_ids ids run next_rule next_case
          (create_testcase_generation_run model scope apis symbol_ids run next_rule next_case ids)
  unfolding create_testcase_generation_run
  create_testcase_generation_run-HasEnded run next_rule next_case ids =
      concluded-Ended ids run next_rule next_case (generate model scope apis symbol_ids ids) refl
