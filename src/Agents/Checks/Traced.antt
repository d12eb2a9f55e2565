-- ===== src/Agents/Checks/Traced.antt =====
-- An accepted case is traced to an interface, a scenario and rules, and has known fields only.
use ai_test.Base.{
  String, ◌≡◌, refl, ap, Bool, true, false, not, ◌||◌, ◌&&◌, Option, none, some, List, [], ◌∷◌,
  length, any, All, get_elem?, arith, ◌==◌,
}
use ai_test.Base.Dict
use ai_test.Base.Dict.{mem}
use ai_test.Base.Outcome.{◌>>=◌, done-injective, done, fail_if, >>=-eq-done, fail_if-eq-done}
use ai_test.Json.{Fields, entries, get_field}
use ai_test.Execution.Create.{by_id}
use ai_test.Agents.Drafts.{
  same_category, BusinessRuleDraft, TestScenarioDraft, StructuredCaseDraft, KnownFields,
}
use ai_test.Agents.Checks.{
  Check, is_index, sections, or_fail, or_empty, section_is_known, is_object, check_section,
  validate_request_fields, is_inferred_rule, validate_case, validate_cases,
}

or_fail-eq :
    {A : Type 0} (message : String) (o : Option A) {a : A} → or_fail message o ≡ done a → o ≡ some a
or_fail-eq message none h = cc
or_fail-eq message (some b) h = ap some (done-injective h)

pub fail_if-false : {E : Type 0} (test : Bool) (e : E) → fail_if test e ≡ done tt → test ≡ false
fail_if-false true e h = cc
fail_if-false false e h = refl

module _ {F : Type 0} where
  -- The template has no other section than the five, and each field of a section is known.
  pub record HasKnownFields (template : Fields F) (api : KnownFields) : Type 0 where
    pub only : any (λ k. not (mem k sections)) (Dict.keys (entries template)) ≡ false
    pub path : section_is_known api.known_path_fields (or_empty (get_field template "path")) ≡ true
    pub query :
        section_is_known api.known_query_fields (or_empty (get_field template "query")) ≡ true
    pub headers :
        section_is_known api.known_header_fields (or_empty (get_field template "headers")) ≡ true
    pub body : section_is_known api.known_body_fields (or_empty (get_field template "body")) ≡ true

  check_section-known :
      (template : Fields F) (section : String) (allowed : List String) (next : Check)
      → (check_section template section allowed >>= λ _. next) ≡ done tt
      → (section_is_known allowed (or_empty (get_field template section)) ≡ true) × (next ≡ done tt)
  check_section-known template section allowed next h =
      let (u, e, h1) = >>=-eq-done (check_section template section allowed) _ h in
      let values = or_empty (get_field template section) in
      let (o, e1) = fail_if-eq-done (not (is_object values)) _ _ e in
      (ground (arith, fail_if-false (not (section_is_known allowed values)) _ e1), h1)

  validate_request_fields-HasKnownFields :
      (template : Fields F) (api : KnownFields)
      → validate_request_fields template api ≡ done tt
      → HasKnownFields template api
  unfolding validate_request_fields
  validate_request_fields-HasKnownFields template api h =
      let (o, h1) =
        fail_if-eq-done (any (λ k. not (mem k sections)) (Dict.keys (entries template))) _ _ h in
      let (p, h2) = check_section-known template "path" api.known_path_fields _ h1 in
      let (q, h3) = check_section-known template "query" api.known_query_fields _ h2 in
      let (r, h4) = check_section-known template "headers" api.known_header_fields _ h3 in
      let (b, h5) = check_section-known template "body" api.known_body_fields _ h4 in
      record { only = o; path = p; query = q; headers = r; body = b }

  module _ (apis : List KnownFields) (scenarios : List (TestScenarioDraft F))
      (rules : List (BusinessRuleDraft F)) where
    pub record IsTraced (case : StructuredCaseDraft F) : Type 0 where
      pub api : KnownFields
      pub scenario : TestScenarioDraft F
      pub selected : by_id (λ a. a.id) case.api_definition_id apis ≡ some api
      pub planned : get_elem? scenarios case.scenario_index ≡ some scenario
      pub same_api : (scenario.api_definition_id == case.api_definition_id) ≡ true
      pub same_kind : same_category scenario.category case.category ≡ true
      pub indexes : any (λ i. not (is_index (length rules) i)) case.rule_indexes ≡ false
      pub marked : (any (is_inferred_rule rules) case.rule_indexes && not case.is_inferred) ≡ false
      pub fields : HasKnownFields case.request_template api

    validate_case-IsTraced :
        (case : StructuredCaseDraft F)
        → validate_case apis scenarios rules case ≡ done tt
        → IsTraced case
    unfolding validate_case
    validate_case-IsTraced case h =
        let (api, e, h1) =
          >>=-eq-done (or_fail "用例引用了未选择的接口" (by_id (λ a. a.id) case.api_definition_id apis)) _ h in
        let (scenario, e1, h2) =
          >>=-eq-done (or_fail "用例引用了不存在的测试场景" (get_elem? scenarios case.scenario_index)) _ h1 in
        let (s, h3) =
          fail_if-eq-done
            (not (scenario.api_definition_id == case.api_definition_id)
              || not (same_category scenario.category case.category))
            _ _ h2 in
        let (i, h4) =
          fail_if-eq-done (any (λ i. not (is_index (length rules) i)) case.rule_indexes) _ _ h3 in
        let (m, h5) =
          fail_if-eq-done (any (is_inferred_rule rules) case.rule_indexes && not case.is_inferred) _
            _ h4 in
        record {
          api = api;
          scenario = scenario;
          selected = or_fail-eq _ _ e;
          planned = or_fail-eq _ _ e1;
          same_api = ground (arith, s);
          same_kind = ground (arith, s);
          indexes = i;
          marked = m;
          fields = validate_request_fields-HasKnownFields case.request_template api h5;
        }

    -- Each case that is accepted is of a selected interface and an existing scenario of the same
    -- interface and category, names existing rules only, is marked as inferred if one of them is, and
    -- has no other sections than the five, with known fields only.
    pub validate_cases-IsTraced :
        (cases : List (StructuredCaseDraft F))
        → validate_cases apis scenarios rules cases ≡ done tt
        → All IsTraced cases
    unfolding validate_cases
    validate_cases-IsTraced [] h = tt
    validate_cases-IsTraced (case ∷ cases) h =
        let (u, e, h1) = >>=-eq-done (validate_case apis scenarios rules case) _ h in
        (validate_case-IsTraced case e, validate_cases-IsTraced cases h1)
