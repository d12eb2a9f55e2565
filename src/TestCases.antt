-- ===== src/TestCases.antt =====
-- The editing of test cases: `update_test_case` of backend/app/modules/testcases/service.py. Columns
-- that it neither reads nor writes are left out.
pub mod Editing
pub mod Response
use ai_test.Base.{
  ℕ, ◌+◌, String, Bool, true, false, not, Option, none, some, List, [], ◌∷◌, ◌++◌, ◌==◌,
  if◌then◌else◌,
}
use ai_test.Base.Result.{Result, ok, err, raise, refuse_if, ◌>>=◌, ◌>>◌}
use ai_test.Json.{Value, Fields}
use ai_test.Execution.Models.{TestCaseStatus}

pub record CaseRow (F : Type 0) : Type 0 where
  pub id : ℕ
  pub api_definition_id : ℕ
  pub name : String
  pub description : String
  pub priority : String
  pub status : TestCaseStatus
  pub version : ℕ
  pub preconditions : List (Value F)
  pub request_template : Fields F

pub record AssertionRow (F : Type 0) : Type 0 where
  pub test_case_id : ℕ
  pub position : ℕ
  pub assertion_type : String
  pub config : Fields F
  pub description : String

-- `AssertionDraft` of backend/app/modules/agents/schemas.py
pub record AssertionInput (F : Type 0) : Type 0 where
  pub assertion_type : String
  pub config : Fields F
  pub description : String

-- `TestCaseUpdateRequest` of backend/app/modules/agents/schemas.py
pub record TestCaseUpdateRequest (F : Type 0) : Type 0 where
  pub name : Option String
  pub description : Option String
  pub priority : Option String
  pub preconditions : Option (List (Value F))
  pub request_template : Option (Fields F)
  pub assertions : Option (List (AssertionInput F))

-- The two tables, of one project.
pub record CaseStore (F : Type 0) : Type 0 where
  pub cases : List (CaseRow F)
  pub assertions : List (AssertionRow F)

abbrev pub or_keep : {A : Type 0} → Option A → A → A
or_keep none a = a
or_keep (some b) a = b

abbrev pub is_editable : TestCaseStatus → Bool
is_editable TestCaseStatus.draft = true
is_editable TestCaseStatus.pending_review = true
is_editable _ = false

module _ {F : Type 0} where
  -- `next((case for case in cases if case.id == case_id), None)`
  unfoldable pub find_row : ℕ → List (CaseRow F) → Option (CaseRow F)
  find_row case_id [] = none
  find_row case_id (c ∷ rest) = if c.id == case_id then some c else find_row case_id rest

  -- The row after the loop over the fields, with its next version.
  abbrev pub edited : TestCaseUpdateRequest F → CaseRow F → CaseRow F
  edited payload c = record c {
    name = or_keep payload.name c.name;
    description = or_keep payload.description c.description;
    priority = or_keep payload.priority c.priority;
    preconditions = or_keep payload.preconditions c.preconditions;
    request_template = or_keep payload.request_template c.request_template;
    version = c.version + 1;
  }

  unfoldable pub write_row : ℕ → (CaseRow F → CaseRow F) → List (CaseRow F) → List (CaseRow F)
  write_row case_id f [] = []
  write_row case_id f (c ∷ rest) =
      if c.id == case_id then f c ∷ rest else c ∷ write_row case_id f rest

  -- `list_assertions([case_id])`
  unfoldable pub assertions_of : ℕ → List (AssertionRow F) → List (AssertionRow F)
  assertions_of case_id [] = []
  assertions_of case_id (a ∷ rest) =
      let others = assertions_of case_id rest in
      if a.test_case_id == case_id then a ∷ others else others

  unfoldable pub delete_assertions : ℕ → List (AssertionRow F) → List (AssertionRow F)
  delete_assertions case_id [] = []
  delete_assertions case_id (a ∷ rest) =
      let others = delete_assertions case_id rest in
      if a.test_case_id == case_id then others else a ∷ others

  -- `enumerate(payload.assertions, start=position)`
  unfoldable pub new_assertions : ℕ → ℕ → List (AssertionInput F) → List (AssertionRow F)
  new_assertions case_id position [] = []
  new_assertions case_id position (a ∷ rest) =
      (record {
        test_case_id = case_id;
        position = position;
        assertion_type = a.assertion_type;
        config = a.config;
        description = a.description;
      })
      ∷ new_assertions case_id (position + 1) rest

  abbrev pub replaced :
      ℕ → Option (List (AssertionInput F)) → List (AssertionRow F) → List (AssertionRow F)
  replaced case_id none rows = rows
  replaced case_id (some inputs) rows =
      delete_assertions case_id rows ++ new_assertions case_id 1 inputs

  -- `update_test_case` up to its commit.
  unfoldable pub update_test_case : ℕ → TestCaseUpdateRequest F → CaseStore F → Result (CaseStore F)
  update_test_case case_id payload store = elim (find_row case_id store.cases) [
    | none ↦ raise "TEST_CASE_NOT_FOUND" "测试用例不存在" 404
    | some c ↦ do
      refuse_if (not (is_editable c.status)) "TEST_CASE_EDIT_NOT_AVAILABLE" "已审核或已禁用用例不能编辑" 409
      ok (record {
        cases = write_row case_id (edited payload) store.cases;
        assertions = replaced case_id payload.assertions store.assertions;
      })
  ]
