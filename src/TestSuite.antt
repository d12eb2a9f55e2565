-- ===== src/TestSuite.antt =====
-- The steps of a suite: `_replace_steps` of backend/app/modules/test_suites/service.py, which
-- `create_test_suite` and `update_test_suite` call. `_merge_template` is the same function as
-- `_merge_request_template`.
pub mod Producers
use ai_test.Base.{
  ℕ, ◌+◌, String, Bool, true, false, not, ◌&&◌, ◌||◌, Option, none, some, List, [], ◌∷◌, ◌++◌,
  length, any, map, ◌==◌, if◌then◌else◌,
}
use ai_test.Base.Dict
use ai_test.Base.Dict.{mem}
use ai_test.Base.Outcome.{Outcome, done, failed, ◌>>=◌, ◌>>◌, fail_if}
use ai_test.Json.{Fields, dict, entries}
use ai_test.Template.{find_runtime_variables}
use ai_test.Request.{has_invalid_section}
use ai_test.Runner.{Exn, app, Attempt}
use ai_test.Execution.Models.{TestCase}
use ai_test.Execution.Evidence.{Catalogue, merge_request_template}
use ai_test.Execution.Create.{
  VariableExtraction, TestSuiteStep, distinct, found, by_id, present_or_raise, is_approved,
}

-- `TestSuiteStepInput` of backend/app/modules/test_suites/schemas.py
pub record StepInput (F : Type 0) : Type 0 where
  pub test_case_id : ℕ
  pub request_override : Fields F
  pub variable_extractions : List VariableExtraction

-- `xs - ys` of two sets.
unfoldable pub minus : List String → List String → List String
minus [] ys = []
minus (x ∷ xs) ys = let rest = minus xs ys in if mem x ys then rest else x ∷ rest

-- `len(set(keys)) != len(keys)`
unfoldable pub has_duplicate : List String → Bool
has_duplicate [] = false
has_duplicate (k ∷ ks) = mem k ks || has_duplicate ks

-- Whether `set(keys) & produced` has a member.
unfoldable pub overlaps : List String → List String → Bool
overlaps [] produced = false
overlaps (k ∷ ks) produced = mem k produced || overlaps ks produced

abbrev pub is_any : List String → Bool
is_any [] = false
is_any (k ∷ ks) = true

abbrev pub keys_of : List VariableExtraction → List String
keys_of extractions = map (λ e. e.variable_key) extractions

module _ {F : Type 0} where
  -- The run variables that a test case reads under an override.
  abbrev pub reads : TestCase F → Fields F → List String
  reads c override =
      find_runtime_variables (dict (merge_request_template c.request_template override))

  -- The loop over the steps; `describe` is the text of the message on missing variables.
  unfoldable pub add_steps :
      (ℕ → List String → String)
      → List (TestCase F)
      → ℕ
      → List String
      → List (StepInput F)
      → Attempt (List (TestSuiteStep F))
  add_steps describe cases position produced [] = done []
  add_steps describe cases position produced (item ∷ rest) = do
    fail_if (has_invalid_section (Dict.keys (entries item.request_override))) (
        app (record {
          code = "TEST_SUITE_REQUEST_OVERRIDE_INVALID";
          message = "请求覆盖包含不支持的区段";
          status_code = 400;
        }))
    c ← present_or_raise (by_id (λ c. c.id) item.test_case_id cases)
    fail_if (is_any (minus (reads c item.request_override) produced)) (
        app (record {
          code = "TEST_SUITE_VARIABLE_PRODUCER_MISSING";
          message = describe position (minus (reads c item.request_override) produced);
          status_code = 400;
        }))
    fail_if
        (has_duplicate (keys_of item.variable_extractions)
          || overlaps (keys_of item.variable_extractions) produced)
        (app (record {
          code = "TEST_SUITE_VARIABLE_DUPLICATED";
          message = "运行变量只能由一个上游步骤生产";
          status_code = 400;
        }))
    steps ←
        add_steps describe cases (position + 1) (produced ++ keys_of item.variable_extractions) rest
    done (
        (record {
          test_case_id = item.test_case_id;
          position = position;
          request_override = item.request_override;
          variable_extractions = item.variable_extractions;
        })
        ∷ steps)

module _ {F : Type 0} (db : Catalogue F) where
  unfoldable pub replace_steps :
      (ℕ → List String → String) → List (StepInput F) → Attempt (List (TestSuiteStep F))
  replace_steps describe items = do
    let case_ids = distinct (map (λ item. item.test_case_id) items)
    let cases = found db.find_case case_ids
    fail_if (not (length cases == length case_ids))
        (app (record { code = "TEST_CASE_NOT_FOUND"; message = "测试用例不存在"; status_code = 404 }))
    fail_if (any (λ c. not (is_approved c.status)) cases) (
        app
          (record { code = "TEST_CASE_NOT_APPROVED"; message = "流程仅能引用已审核用例"; status_code = 409 }))
    add_steps describe cases 1 [] items
