-- ===== src/Tests/Assertions.antt =====
-- Assertions on a small response.
use ai_test.Base.{◌≡◌, refl, true, false, ◌⊎◌, ◌↔◌}
use ai_test.Base.Int.{ℤ}
use ai_test.Base.Dict
use ai_test.Base.Text
use ai_test.Base.Dict.{mem}
use ai_test.Base.Result.{raise}
use ai_test.Json.{str, int, dict, Fields, end, field}
use ai_test.Assertion.{evaluate_assertion, normalize_type}
use ai_test.Assertion.Path.{json_path_values, match_token}
use ai_test.Assertion.Path.Steps.{json_path_values-Within, Selected}
use ai_test.Assertion.Verdicts.{
  negated_assertions, number_range_bounds, Opposite, OneBetween, selected,
}
use ai_test.Assertion.Errors.{evaluate_assertion_errors, supported_types, FailsByConfig}
use ai_test.Tests.{J, no_floats, ascii_digit}

abbrev response : J
response = dict (field "n" (int (ℤ.pos 5)) end)

abbrev range : Fields ⊥
range = field "path" (str "$.n") (field "min" (int (ℤ.pos 1)) (field "max" (int (ℤ.pos 9)) end))

json_path_values-Within_example :
    Selected ascii_digit response (json_path_values ascii_digit response "$.n")
json_path_values-Within_example = json_path_values-Within ascii_digit response "$.n"

negated_assertions_example :
    Opposite no_floats ascii_digit
      (evaluate_assertion no_floats ascii_digit "json_path_exists" range 200 "five" response 3)
      (evaluate_assertion no_floats ascii_digit "json_path_not_exists" range 200 "five" response 3)
    × Opposite no_floats ascii_digit
        (evaluate_assertion no_floats ascii_digit "body_contains" range 200 "five" response 3)
        (evaluate_assertion no_floats ascii_digit "body_not_contains" range 200 "five" response 3)
negated_assertions_example = negated_assertions no_floats ascii_digit range 200 "five" response 3

number_range_bounds_example :
    (true ≡ true)
    ↔ OneBetween no_floats ascii_digit range 200 "five" response 3
        (ℤ.pos 1)
        (ℤ.pos 9)
        (selected no_floats ascii_digit range 200 "five" response 3)
unfolding evaluate_assertion Dict.get json_path_values match_token Text.length
number_range_bounds_example =
    number_range_bounds no_floats ascii_digit range 200 "five" response 3 (ℤ.pos 1) (ℤ.pos 9) refl
      refl refl

evaluate_assertion_errors_example :
    ((mem (normalize_type "status_code") supported_types ≡ true)
      × FailsByConfig
          (evaluate_assertion no_floats ascii_digit "status_code" range 200 "five" response 3))
    ⊎ ((mem (normalize_type "status_code") supported_types ≡ false)
        × (evaluate_assertion no_floats ascii_digit "status_code" range 200 "five" response 3
            ≡ raise "ASSERTION_TYPE_UNSUPPORTED" "断言类型不支持" 400))
evaluate_assertion_errors_example =
    evaluate_assertion_errors no_floats ascii_digit range 200 "five" response 3 "status_code"
