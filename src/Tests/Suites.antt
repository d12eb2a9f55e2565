-- ===== src/Tests/Suites.antt =====
-- A suite whose second step reads what the first produces.
use ai_test.Base.{ℕ, String, ◌≡◌, refl, true, Option, none, some, arith, List, [], ◌∷◌}
use ai_test.Base.Dict.{mem}
use ai_test.Json.{str, Fields, end, field}
use ai_test.Extraction.{VariableExtractionSource}
use ai_test.Execution.Models.{TestCase}
use ai_test.Execution.Run.Accounting.Steps.{Ascending}
use ai_test.Execution.Create.{VariableExtraction, TestSuiteStep}
use ai_test.Execution.Create.Fresh.{IsKeyed}
use ai_test.Execution.Suite.{copied_steps}
use ai_test.TestSuite.{StepInput, replace_steps}
use ai_test.TestSuite.Producers.{replace_steps_producers, replace_steps-Ascending, all_keys}
use ai_test.Base.Outcome.{done}
use ai_test.Tests.{catalogue, status_case}

keyed : IsKeyed (λ (c : TestCase ⊥). c.id) catalogue.find_case
keyed i c e = ground (arith, e)

abbrev token : VariableExtraction
token = record {
  variable_key = "token";
  source = VariableExtractionSource.text;
  expression = some "(.*)";
}

abbrev with_token : Fields ⊥
with_token = field "body" (str "{{runtime.token}}") end

abbrev no_text : ℕ → List String → String
no_text position missing = ""

abbrev inputs : List (StepInput ⊥)
inputs =
    (record { test_case_id = 7; request_override = end; variable_extractions = token ∷ [] })
    ∷ (record { test_case_id = 7; request_override = with_token; variable_extractions = [] })
    ∷ []

abbrev first : TestSuiteStep ⊥
first = record {
  test_case_id = 7;
  position = 1;
  request_override = end;
  variable_extractions = token ∷ [];
}

abbrev second : TestSuiteStep ⊥
second = record {
  test_case_id = 7;
  position = 2;
  request_override = with_token;
  variable_extractions = [];
}

accepted : replace_steps catalogue no_text inputs ≡ done (first ∷ second ∷ [])
unfolding replace_steps ai_test.Execution.Create.found ai_test.Execution.Create.distinct
    ai_test.TestSuite.add_steps ai_test.Base.Dict.keys ai_test.Execution.Create.by_id
    ai_test.TestSuite.minus ai_test.Template.find_runtime_variables
    ai_test.Execution.Evidence.merge_request_template ai_test.TestSuite.has_duplicate
    ai_test.TestSuite.overlaps ai_test.Template.scan ai_test.Template.match_variable
    ai_test.Base.Text.length
accepted = refl

replace_steps_producers_example : mem "token" (all_keys (first ∷ [])) ≡ true
unfolding ai_test.Template.find_runtime_variables ai_test.Execution.Evidence.merge_request_template
    ai_test.Template.scan ai_test.Template.match_variable
replace_steps_producers_example =
    replace_steps_producers catalogue keyed no_text inputs (first ∷ []) [] second status_case
      "token" accepted refl refl

replace_steps-Ascending_example : Ascending (copied_steps (first ∷ second ∷ []))
replace_steps-Ascending_example =
    replace_steps-Ascending catalogue keyed no_text inputs (first ∷ second ∷ []) accepted
