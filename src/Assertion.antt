-- ===== src/Assertion.antt =====
-- backend/app/modules/executions/assertion_engine.py: the verdict on one assertion.
pub mod Path
pub mod Parts
pub mod Verdicts
pub mod Errors
use ai_test.Base.{
  ℕ, suc, String, ◌<>◌, Char, Bool, true, false, not, ◌&&◌, ◌||◌, Option, none, some, List, [], ◌∷◌,
  length, ltb, ◌==◌, str_eq, if◌then◌else◌,
}
use ai_test.Base.Int.{ℤ, pos, leb_ℤ, ltb_ℤ}
use ai_test.Base.Text
use ai_test.Base.Result.{Result, ok, err, raise, ◌>>=◌}
use ai_test.Json.{
  Value, null, bool, int, float, str, list, dict, Items, nil, cons, Fields, end, field, of_list,
  get_field,
}
use ai_test.Json.Equality.{Floats, Number, number?, number_le, py_eq}
use Path.{json_path_values}
use Parts.{
  config_get, config_path, json_type, unwrap_single, single_or_null, is_nonempty, is_plain_number,
  under_limit, is_str, type_of_single, verdict_message,
}

pub record AssertionEvaluation (F : Type 0) : Type 0 where
  pub assertion_type : String
  pub path : Option String
  pub expected : Value F
  pub actual : Value F
  pub passed : Bool
  pub message : String

-- `_ALIASES.get(assertion_type, assertion_type)`
unfoldable pub normalize_type : String → String
normalize_type t =
    if str_eq t "status_code"
    then "status_code_equals"
    else if str_eq t "business_code"
    then "business_code_equals"
    else if str_eq t "text_contains"
    then "body_contains"
    else t

module _ {F : Type 0} (floats : Floats F) (digit_value : Char → Option ℕ) where
  abbrev le_number : Option (Number F) → Option (Number F) → Bool
  le_number (some a) (some b) = number_le floats a b
  le_number _ _ = false

  -- `minimum is None or isinstance(minimum, (int, float)) and actual >= minimum`
  unfoldable pub above : Value F → Value F → Bool
  above null actual = true
  above minimum actual = le_number (number? minimum) (number? actual)

  unfoldable pub below : Value F → Value F → Bool
  below null actual = true
  below maximum actual = le_number (number? actual) (number? maximum)

  -- `_equals`
  unfoldable pub equals :
      String → Option String → Value F → Value F → String → AssertionEvaluation F
  equals assertion_type path expected actual label =
      let resolved = unwrap_single actual in
      let passed = py_eq floats resolved expected in
      record {
        assertion_type = assertion_type;
        path = path;
        expected = expected;
        actual = resolved;
        passed = passed;
        message = verdict_message label passed;
      }

  -- One function for each branch of `evaluate_assertion`.
  unfoldable pub evaluate_path_equals :
      String → Option String → String → Fields F → Value F → Result (AssertionEvaluation F)
  unfolding config_path equals
  evaluate_path_equals kind default label config body = do
    path ← config_path config default
    values ← json_path_values digit_value body path
    ok (equals kind (some path) (config_get config "expected") (list (of_list values)) label)

  unfoldable pub evaluate_exists :
      String → Bool → Fields F → Value F → Result (AssertionEvaluation F)
  unfolding config_path
  evaluate_exists kind wanted config body = do
    path ← config_path config none
    values ← json_path_values digit_value body path
    let exists = is_nonempty values
    let passed = (if wanted then exists else not exists)
    ok (record {
      assertion_type = kind;
      path = some path;
      expected = bool exists;
      actual = bool exists;
      passed = passed;
      message = verdict_message "JSONPath 存在性" passed;
    })

  unfoldable pub evaluate_type : Fields F → Value F → Result (AssertionEvaluation F)
  unfolding config_path json_type
  evaluate_type config body = do
    path ← config_path config none
    values ← json_path_values digit_value body path
    let expected = config_get config "expected"
    let actual = type_of_single values
    let passed = is_str expected && length values == 1 && py_eq floats actual expected
    ok (record {
      assertion_type = "json_path_type";
      path = some path;
      expected = expected;
      actual = actual;
      passed = passed;
      message = verdict_message "JSON 类型" passed;
    })

  abbrev pub text_or_error : Value F → Result String
  text_or_error (str s) = ok s
  text_or_error _ = raise "ASSERTION_CONFIG_INVALID" "文本断言缺少 expected 字符串" 400

  unfoldable pub evaluate_contains :
      String → Bool → Fields F → String → Result (AssertionEvaluation F)
  unfolding Text.contains
  evaluate_contains kind wanted config body_text = do
    expected ← text_or_error (config_get config "expected")
    let contained = Text.contains expected body_text
    let passed = (if wanted then contained else not contained)
    ok (record {
      assertion_type = kind;
      path = none;
      expected = str expected;
      actual = bool contained;
      passed = passed;
      message = verdict_message "响应文本" passed;
    })

  unfoldable pub evaluate_range : Fields F → Value F → Result (AssertionEvaluation F)
  unfolding config_path above below
  evaluate_range config body = do
    path ← config_path config none
    values ← json_path_values digit_value body path
    let actual = single_or_null values
    let minimum = config_get config "min"
    let maximum = config_get config "max"
    let passed = is_plain_number actual && above minimum actual && below maximum actual
    ok (record {
      assertion_type = "number_range";
      path = some path;
      expected = dict (field "min" minimum (field "max" maximum end));
      actual = actual;
      passed = passed;
      message = verdict_message "数值范围" passed;
    })

  unfoldable pub evaluate_response_time : Fields F → ℕ → Result (AssertionEvaluation F)
  evaluate_response_time config duration_ms =
      let expected = config_get config "expected" in
      let passed = under_limit expected duration_ms in
      ok (record {
        assertion_type = "response_time_less_than";
        path = none;
        expected = expected;
        actual = int (pos duration_ms);
        passed = passed;
        message = if passed then "响应耗时符合预期" else "响应耗时超出限制";
      })

  -- `evaluate_assertion` behind the aliases.
  unfoldable pub evaluate_normalized :
      String → Fields F → ℕ → String → Value F → ℕ → Result (AssertionEvaluation F)
  evaluate_normalized kind config status_code body_text body_json duration_ms =
      if str_eq kind "status_code_equals"
      then ok (equals kind none (config_get config "expected") (int (pos status_code)) "状态码")
      else if str_eq kind "business_code_equals"
      then evaluate_path_equals kind (some "$.code") "业务码" config body_json
      else if str_eq kind "json_path_equals"
      then evaluate_path_equals kind none "JSONPath" config body_json
      else if str_eq kind "json_path_exists"
      then evaluate_exists kind true config body_json
      else if str_eq kind "json_path_not_exists"
      then evaluate_exists kind false config body_json
      else if str_eq kind "json_path_type"
      then evaluate_type config body_json
      else if str_eq kind "body_contains"
      then evaluate_contains kind true config body_text
      else if str_eq kind "body_not_contains"
      then evaluate_contains kind false config body_text
      else if str_eq kind "number_range"
      then evaluate_range config body_json
      else if str_eq kind "response_time_less_than"
      then evaluate_response_time config duration_ms
      else raise "ASSERTION_TYPE_UNSUPPORTED" "断言类型不支持" 400

  unfoldable pub evaluate_assertion :
      String → Fields F → ℕ → String → Value F → ℕ → Result (AssertionEvaluation F)
  unfolding normalize_type evaluate_normalized evaluate_path_equals evaluate_exists evaluate_type
      evaluate_contains evaluate_range evaluate_response_time equals
  evaluate_assertion assertion_type config status_code body_text body_json duration_ms =
      evaluate_normalized (normalize_type assertion_type) config status_code body_text body_json
        duration_ms
