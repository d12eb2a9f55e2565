-- ===== src/Agents/Generation/Traced.antt =====
-- A run that reaches the review has stored traced cases, which all wait for it.
use ai_test.Base.{
  refl, ℕ, suc, String, ◌≡◌, subst, none, some, List, [], ◌∷◌, map, length, All, any, all, not,
  false, inl, inr, Option-cases,
}
use ai_test.Execution.Models.{TestCaseStatus}
use ai_test.Base.Result.{Result}
use ai_test.Base.Outcome.{Outcome, done, map_error, >>=-eq-done, map_error-eq-done, done-injective}
use ai_test.Agents.Drafts.{BusinessRuleDraft, TestScenarioDraft, StructuredCaseDraft, KnownFields}
use ai_test.Agents.Checks.{
  validate_each_scenario, validate_scenarios, covers, all_categories, validate_cases,
}
use ai_test.Agents.Checks.Traced.{fail_if-false, IsTraced, validate_cases-IsTraced}
use ai_test.Agents.Llm.{AgentLlmError, Answer, complete_structured}
use ai_test.Agents.Llm.Repaired.{IsValidated, accepted, refused, complete_structured-IsValidated}
use ai_test.Agents.Tools.{DraftCase, rules_at, draft_case, draft_cases}
use ai_test.Agents.Generation.{
  Model, Generated, from_llm, unexpected, validate_input, load_api_definition,
  retrieve_code_context, analyze_business_rules, generate_test_scenarios, generate_structured_cases,
  validate_generated_cases, after, to_pending, generate, ToolCall,
}

some-injective : {A : Type 0} {a b : A} → some a ≡ some b → a ≡ b
some-injective h = cc

none-absurd : {A B : Type 0} (a : A) → none ≡ some a → B
none-absurd a h = cc

module _ {F : Type 0} where
  -- Each row is that of a draft, with the rules that its indexes name, and all have one status.
  pub data AreDrawn (status : TestCaseStatus) (run : ℕ) (rule_ids : List ℕ)
      : ℕ → List (StructuredCaseDraft F) → List (DraftCase F) → Type 0 where
    none_left : {id : ℕ} → AreDrawn status run rule_ids id [] []
    row :
        {id : ℕ} (draft : StructuredCaseDraft F) (rules : List ℕ) (c : DraftCase F)
        {drafts : List (StructuredCaseDraft F)} {rows : List (DraftCase F)}
        → rules_at rule_ids draft.rule_indexes ≡ some rules
        → c.id ≡ id
        → c.agent_run_id ≡ run
        → c.status ≡ status
        → c.source_rule_ids ≡ rules
        → c.api_definition_id ≡ draft.api_definition_id
        → c.request_template ≡ draft.request_template
        → AreDrawn status run rule_ids (suc id) drafts rows
        → AreDrawn status run rule_ids id (draft ∷ drafts) (c ∷ rows)

  pub draft_cases-AreDrawn :
      (run : ℕ) (rule_ids : List ℕ) (id : ℕ) (drafts : List (StructuredCaseDraft F))
      (rows : List (DraftCase F))
      → draft_cases id run rule_ids drafts ≡ some rows
      → AreDrawn TestCaseStatus.draft run rule_ids id drafts rows
  unfolding draft_cases
  draft_cases-AreDrawn run rule_ids id [] rows h =
      subst (AreDrawn TestCaseStatus.draft run rule_ids id []) (some-injective h) none_left
  draft_cases-AreDrawn run rule_ids id (draft ∷ drafts) rows h =
      elim (Option-cases (rules_at rule_ids draft.rule_indexes)) [
        | inl e ↦ none-absurd _ (rw (e, draft_cases) at h)
        | inr (rules, e) ↦ elim (Option-cases (draft_cases (suc id) run rule_ids drafts)) [
          | inl e' ↦ none-absurd _ (rw (e, e', draft_cases) at h)
          | inr (rest, e') ↦
              subst (AreDrawn TestCaseStatus.draft run rule_ids id (draft ∷ drafts))
                (some-injective (rw (e, e', draft_cases) at h))
                (row draft rules (draft_case id run rules draft) e refl refl refl refl refl refl
                  (draft_cases-AreDrawn run rule_ids (suc id) drafts rest e'))
        ]
      ]

  pub to_pending-AreDrawn :
      {status : TestCaseStatus} {run : ℕ} {rule_ids : List ℕ} {id : ℕ}
      {drafts : List (StructuredCaseDraft F)} {rows : List (DraftCase F)}
      → AreDrawn status run rule_ids id drafts rows
      → AreDrawn TestCaseStatus.pending_review run rule_ids id drafts (map to_pending rows)
  to_pending-AreDrawn none_left = none_left
  to_pending-AreDrawn (row draft rules c e i r s u a t rest) =
      row draft rules (to_pending c) e i r refl u a t (to_pending-AreDrawn rest)

  pub AreDrawn-All :
      {status : TestCaseStatus} {run : ℕ} {rule_ids : List ℕ} {id : ℕ}
      {drafts : List (StructuredCaseDraft F)} {rows : List (DraftCase F)}
      → AreDrawn status run rule_ids id drafts rows
      → All (λ c. c.status ≡ status) rows
  AreDrawn-All none_left = tt
  AreDrawn-All (row draft rules c e i r s u a t rest) = (s, AreDrawn-All rest)

  -- What the checks of the graph leave of a state that reaches `persist_drafts`.
  pub record IsChecked (ids : List ℕ) (g : Generated F) : Type 0 where
    pub covered : any (λ i. not (all (covers g.scenarios i) all_categories)) ids ≡ false
    pub traced : All (IsTraced g.api_definitions g.scenarios g.rules) g.cases

module _ {F C : Type 0} (model : Model F C) (scope : ToolCall → Result (Unit {0}))
    (apis : List KnownFields) (symbol_ids : List ℕ) where
  accepted-IsValid :
      {A : Type 0} {request : String → Answer} {read : String → Outcome String A}
      {validate : A → Outcome String (Unit {0})} {a : A} {r : Outcome AgentLlmError A}
      → IsValidated request read validate r
      → r ≡ done a
      → validate a ≡ done tt
  accepted-IsValid {validate = validate} (accepted prompt raw result e e1 v) h =
      subst (λ x. validate x ≡ done tt) (done-injective h) v
  accepted-IsValid (refused e m) h = cc

  asked-IsValid :
      {A : Type 0} (node : String) (validate : A → Outcome String (Unit {0}))
      (read : String → Outcome String A) (prompt : String) {a : A}
      → after node (map_error from_llm (complete_structured model.request read validate prompt))
        ≡ done a
      → validate a ≡ done tt
  asked-IsValid node validate read prompt h =
      accepted-IsValid (complete_structured-IsValidated model.request read validate prompt) (
        map_error-eq-done from_llm (complete_structured model.request read validate prompt) (
          map_error-eq-done _
            (map_error from_llm (complete_structured model.request read validate prompt)) h))

  generate_test_scenarios-covered :
      (ids : List ℕ) (definitions : List KnownFields) (rules : List (BusinessRuleDraft F))
      (scenarios : List (TestScenarioDraft F))
      → generate_test_scenarios model scope apis symbol_ids ids definitions rules ≡ done scenarios
      → any (λ i. not (all (covers scenarios i) all_categories)) ids ≡ false
  unfolding generate_test_scenarios validate_scenarios
  generate_test_scenarios-covered ids definitions rules scenarios h =
      let e =
        asked-IsValid "analyze_business_rules" (validate_scenarios ids (length rules))
          model.read_scenarios (model.scenarios_prompt definitions rules) h in
      let (u, e1, h1) = >>=-eq-done (validate_each_scenario ids (length rules) scenarios) _ e in
      fail_if-false (any (λ i. not (all (covers scenarios i) all_categories)) ids) _ h1

  validate_generated_cases-IsTraced :
      (definitions : List KnownFields) (rules : List (BusinessRuleDraft F))
      (scenarios : List (TestScenarioDraft F)) (cases : List (StructuredCaseDraft F))
      → validate_generated_cases model scope apis symbol_ids definitions rules scenarios cases
        ≡ done tt
      → All (IsTraced definitions scenarios rules) cases
  unfolding validate_generated_cases
  validate_generated_cases-IsTraced definitions rules scenarios cases h =
      validate_cases-IsTraced definitions scenarios rules cases (
        map_error-eq-done _ (validate_cases definitions scenarios rules cases) (
          map_error-eq-done _
            (map_error (λ message. unexpected) (validate_cases definitions scenarios rules cases))
            h))

  pub generate-IsChecked :
      (ids : List ℕ) (g : Generated F)
      → generate model scope apis symbol_ids ids ≡ done g
      → IsChecked ids g
  unfolding generate
  generate-IsChecked ids g h =
      let (u, e, h1) = >>=-eq-done (validate_input model scope apis symbol_ids ids) _ h in
      let (definitions, e1, h2) =
        >>=-eq-done (load_api_definition model scope apis symbol_ids ids) _ h1 in
      let (context, e2, h3) =
        >>=-eq-done (retrieve_code_context model scope apis symbol_ids ids) _ h2 in
      let (rules, e3, h4) =
        >>=-eq-done (analyze_business_rules model scope apis symbol_ids ids definitions context) _
          h3 in
      let (scenarios, e4, h5) =
        >>=-eq-done (generate_test_scenarios model scope apis symbol_ids ids definitions rules) _
          h4 in
      let (cases, e5, h6) =
        >>=-eq-done
          (generate_structured_cases model scope apis symbol_ids definitions rules scenarios) _
          h5 in
      let (v, e6, h7) =
        >>=-eq-done
          (validate_generated_cases model scope apis symbol_ids definitions rules scenarios cases) _
          h6 in
      subst (IsChecked ids) (done-injective h7) (record {
        covered = generate_test_scenarios-covered ids definitions rules scenarios e4;
        traced = validate_generated_cases-IsTraced definitions rules scenarios cases e6;
      })
