-- ===== src/Tests/Editing.antt =====
-- An edit of one of two test cases.
use ai_test.Base.{ℕ, none, some, [], ◌∷◌}
use ai_test.Json.{end}
use ai_test.Execution.Models.{TestCaseStatus}
use ai_test.TestCases.{CaseRow, AssertionRow, TestCaseUpdateRequest, CaseStore, edited}
use ai_test.Base.{All, ◌≡◌}
use ai_test.TestCases.{assertions_of}
use ai_test.TestCases.Response.{serialize_cases, serialize_cases_own}
use ai_test.Tests.{catalogue}

abbrev draft : ℕ → CaseRow ⊥
draft id = record {
  id = id;
  api_definition_id = 3;
  name = "login";
  description = "";
  priority = "P1";
  status = TestCaseStatus.draft;
  version = 1;
  preconditions = [];
  request_template = end;
}

abbrev old_assertion : ℕ → AssertionRow ⊥
old_assertion id = record {
  test_case_id = id;
  position = 1;
  assertion_type = "status_code";
  config = end;
  description = "";
}

abbrev rename : TestCaseUpdateRequest ⊥
rename = record {
  name = some "log in";
  description = none;
  priority = none;
  preconditions = none;
  request_template = none;
  assertions =
      some ((record { assertion_type = "status_code"; config = end; description = "" }) ∷ []);
}

abbrev before : CaseStore ⊥
before = record {
  cases = draft 7 ∷ draft 8 ∷ [];
  assertions = old_assertion 7 ∷ old_assertion 8 ∷ [];
}

abbrev after : CaseStore ⊥
after = record {
  cases = edited rename (draft 7) ∷ draft 8 ∷ [];
  assertions = old_assertion 8 ∷ old_assertion 7 ∷ [];
}

serialize_cases_own_example :
    All
      (λ r. r.assertions ≡ assertions_of r.id before.assertions)
      (serialize_cases catalogue.find_api before.cases before.assertions)
serialize_cases_own_example = serialize_cases_own catalogue.find_api before.cases before.assertions
