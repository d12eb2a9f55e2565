-- ===== src/TestCases/Response.antt =====
-- The view of test cases: `_serialize_cases` of backend/app/modules/testcases/service.py.
use ai_test.Base.{
  ℕ, String, ◌≡◌, Option, none, some, List, [], ◌∷◌, ◌++◌, ◌==◌, All, arith, Option-cases, inl, inr,
  if◌then◌else◌,
}
use mathlib.Core.List.{append-nil, append_assoc}
use ai_test.Json.{Value, Fields}
use ai_test.Execution.Models.{TestCaseStatus, ApiDefinition}
use ai_test.TestCases.{CaseRow, AssertionRow, assertions_of}

-- `TestCaseResponse` of backend/app/modules/agents/schemas.py, of the columns of `CaseRow`.
pub record TestCaseResponse (F : Type 0) : Type 0 where
  pub id : ℕ
  pub api_definition_id : ℕ
  pub api_method : String
  pub api_path : String
  pub name : String
  pub description : String
  pub priority : String
  pub status : TestCaseStatus
  pub version : ℕ
  pub preconditions : List (Value F)
  pub request_template : Fields F
  pub assertions : List (AssertionRow F)

module _ {F : Type 0} where
  -- `assertions_by_case`, a `defaultdict` as a function of its key.
  unfoldable pub group_assertions :
      List (AssertionRow F) → (ℕ → List (AssertionRow F)) → ℕ → List (AssertionRow F)
  group_assertions [] groups = groups
  group_assertions (a ∷ rest) groups =
      group_assertions rest λ i. if a.test_case_id == i then groups i ++ (a ∷ []) else groups i

  abbrev response_of : (ℕ → List (AssertionRow F)) → CaseRow F → ApiDefinition → TestCaseResponse F
  response_of groups c api = record {
    id = c.id;
    api_definition_id = c.api_definition_id;
    api_method = api.method;
    api_path = api.normalized_path;
    name = c.name;
    description = c.description;
    priority = c.priority;
    status = c.status;
    version = c.version;
    preconditions = c.preconditions;
    request_template = c.request_template;
    assertions = groups c.id;
  }

  -- The loop over the cases; one whose interface is missing is left out.
  unfoldable pub serialize_grouped :
      (ℕ → Option ApiDefinition)
      → (ℕ → List (AssertionRow F))
      → List (CaseRow F)
      → List (TestCaseResponse F)
  serialize_grouped find_api groups [] = []
  serialize_grouped find_api groups (c ∷ rest) =
      let others = serialize_grouped find_api groups rest in
      elim (find_api c.api_definition_id) [
        | none ↦ others
        | some api ↦ response_of groups c api ∷ others
      ]

  unfoldable pub serialize_cases :
      (ℕ → Option ApiDefinition)
      → List (CaseRow F)
      → List (AssertionRow F)
      → List (TestCaseResponse F)
  unfolding group_assertions
  serialize_cases find_api cases assertions =
      serialize_grouped find_api (group_assertions assertions (λ i. [])) cases

  group_assertions-assertions_of :
      (rows : List (AssertionRow F)) (groups : ℕ → List (AssertionRow F)) (i : ℕ)
      → group_assertions rows groups i ≡ groups i ++ assertions_of i rows
  unfolding group_assertions assertions_of
  group_assertions-assertions_of [] groups i = ground (arith, append-nil (groups i))
  group_assertions-assertions_of (a ∷ rest) groups i = ground (
    arith,
    group_assertions-assertions_of rest
        (λ j. if a.test_case_id == j then groups j ++ (a ∷ []) else groups j) i,
    append_assoc (groups i) (a ∷ []) (assertions_of i rest),
  )

  serialize_grouped-own :
      (find_api : ℕ → Option ApiDefinition) (groups : ℕ → List (AssertionRow F))
      (rows : List (AssertionRow F))
      → ((i : ℕ) → groups i ≡ assertions_of i rows)
      → (cases : List (CaseRow F))
      → All (λ r. r.assertions ≡ assertions_of r.id rows) (serialize_grouped find_api groups cases)
  unfolding serialize_grouped
  serialize_grouped-own find_api groups rows same [] = tt
  serialize_grouped-own find_api groups rows same (c ∷ rest) =
      elim (Option-cases (find_api c.api_definition_id)) [
        | inl e ↦ rw (e, serialize_grouped) (serialize_grouped-own find_api groups rows same rest)
        | inr (api, e) ↦
            rw (e, serialize_grouped)
              (same c.id, serialize_grouped-own find_api groups rows same rest)
      ]

  -- Each test case that is shown is shown with its own assertions, all of them, in their order.
  pub serialize_cases_own :
      (find_api : ℕ → Option ApiDefinition) (cases : List (CaseRow F))
      (rows : List (AssertionRow F))
      → All (λ r. r.assertions ≡ assertions_of r.id rows) (serialize_cases find_api cases rows)
  unfolding serialize_cases
  serialize_cases_own find_api cases rows =
      serialize_grouped-own find_api (group_assertions rows (λ i. [])) rows
        (λ i. group_assertions-assertions_of rows (λ j. []) i) cases
