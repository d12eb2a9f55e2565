-- ===== src/Agents/Review/Reviewed.antt =====
-- A review decides on all cases of a run at once.
use ai_test.Execution.Models.{TestCaseStatus}
use ai_test.Base.{
  suc, some, ℕ, ◌≡◌, refl, subst, true, false, not, List, [], ◌∷◌, any, arith, inl, inr, Bool-cases,
}
use ai_test.Base.Result.{ok, >>=-eq-ok, refuse_if-eq-ok, ok-injective}
use ai_test.Agents.Review.{
  AgentRun, GeneratedCase, Decision, decided_status, is_pending_review, awaits_review, belongs_to,
  reviewed, target_status, review_cases, review_agent_run, approve, disable,
}

-- An approval makes a case approved, and the other decision disables it.
pub data Gives : Decision → TestCaseStatus → Type 0 where
  gives_approved : Gives approve TestCaseStatus.approved
  gives_disabled : Gives disable TestCaseStatus.disabled

target_status-Gives : (decision : Decision) → Gives decision (target_status decision)
target_status-Gives approve = gives_approved
target_status-Gives disable = gives_disabled

-- The cases of the run were pending review and are decided; all others are as they were.
pub data Decided (run reviewer : ℕ) (decision : Decision)
    : List GeneratedCase → List GeneratedCase → Type 0 where
  none_left : Decided run reviewer decision [] []
  of_run :
      (c c' : GeneratedCase) (before after : List GeneratedCase)
      → belongs_to run c ≡ true
      → is_pending_review c.status ≡ true
      → c'.id ≡ c.id
      → c'.agent_run_id ≡ c.agent_run_id
      → Gives decision c'.status
      → c'.version ≡ suc c.version
      → c'.reviewed_by ≡ some reviewer
      → Decided run reviewer decision before after
      → Decided run reviewer decision (c ∷ before) (c' ∷ after)
  of_another :
      (c : GeneratedCase) (before after : List GeneratedCase)
      → belongs_to run c ≡ false
      → Decided run reviewer decision before after
      → Decided run reviewer decision (c ∷ before) (c ∷ after)

review_cases-Decided :
    (run reviewer : ℕ) (decision : Decision) (before after : List GeneratedCase)
    → review_cases run reviewer decision before ≡ ok after
    → Decided run reviewer decision before after
unfolding review_cases
review_cases-Decided run reviewer decision [] after h =
    subst (Decided run reviewer decision []) (ok-injective h) none_left
review_cases-Decided run reviewer decision (c ∷ before) after h =
    elim (Bool-cases (belongs_to run c)) [
      | inl e ↦
          let (p, h1) =
            refuse_if-eq-ok (not (is_pending_review c.status)) _ _ _ _
              (rw (e, review_cases) at h) in
          let (rest, r, h2) = >>=-eq-ok (review_cases run reviewer decision before) _ h1 in
          subst (Decided run reviewer decision (c ∷ before)) (ok-injective h2) (
            of_run c (reviewed reviewer decision c) before rest e (ground (arith, p)) refl refl
              (target_status-Gives decision) (omega arith) refl
              (review_cases-Decided run reviewer decision before rest r))
      | inr e ↦
          let (rest, r, h2) =
            >>=-eq-ok (review_cases run reviewer decision before) _ (rw (e, review_cases) at h) in
          subst (Decided run reviewer decision (c ∷ before)) (ok-injective h2)
            (of_another c before rest e (review_cases-Decided run reviewer decision before rest r))
    ]

-- A review that is accepted is of a run pending review with at least one case; all of its cases were
-- pending review, and get the decision, the reviewer and their next version; no other case changes, and
-- the run gets the decision.
pub review_agent_run-Decided :
    (reviewer : ℕ) (decision : Decision) (run : AgentRun) (cases : List GeneratedCase)
    (run' : AgentRun) (cases' : List GeneratedCase)
    → review_agent_run reviewer decision run cases ≡ ok (run', cases')
    → (awaits_review run.status ≡ true)
      × (any (belongs_to run.id) cases ≡ true)
      × (run'.status ≡ decided_status decision)
      × Decided run.id reviewer decision cases cases'
unfolding review_agent_run
review_agent_run-Decided reviewer decision run cases run' cases' h =
    let (a, h1) = refuse_if-eq-ok (not (awaits_review run.status)) _ _ _ _ h in
    let (n, h2) = refuse_if-eq-ok (not (any (belongs_to run.id) cases)) _ _ _ _ h1 in
    let (changed, r, h3) = >>=-eq-ok (review_cases run.id reviewer decision cases) _ h2 in
    let e = ok-injective h3 in
    (
      ground (arith, a),
      ground (arith, n),
      subst (λ (p : AgentRun × List GeneratedCase). p.0.status ≡ decided_status decision) e refl,
      subst (λ (p : AgentRun × List GeneratedCase). Decided run.id reviewer decision cases p.1) e
          (review_cases-Decided run.id reviewer decision cases changed r),
    )
