-- ===== src/Extraction.antt =====
-- backend/app/modules/executions/extractions.py, and the rules of a step that it serves
-- (`_extract_step_variables` of service.py).
use ai_test.Base.{ℕ, String, ◌||◌, Option, none, some, List, [], ◌∷◌, ltb, str_eq, if◌then◌else◌}
use ai_test.Base.Int.{pos}
use ai_test.Base.Text
use ai_test.Base.Text.{is_empty}
use ai_test.Base.Dict
use ai_test.Base.Dict.{Dict}
use ai_test.Base.Result.{Result, ok, raise, refuse_if, ◌>>=◌, ◌>>◌}
use ai_test.Json.{Value, null, int, str, dict, Fields, get_field}
use ai_test.Assertion.Path.{json_path_values}
use ai_test.Runtime.{Runtime, SearchResult, bad_pattern, no_match, groups}

-- `VariableExtractionSource` of backend/app/modules/test_suites/models.py
pub data VariableExtractionSource : Type 0 where
  json_path response_header text status_code : VariableExtractionSource

-- `VariableExtractionSource(source)`; `none` for a `ValueError`
unfoldable pub source_of : String → Option VariableExtractionSource
source_of s =
    if str_eq s "json_path"
    then some json_path
    else if str_eq s "response_header"
    then some response_header
    else if str_eq s "text"
    then some text
    else if str_eq s "status_code"
    then some status_code
    else none

abbrev pub extraction_failed {ℓ} : {A : Type ℓ} → String → Result A
extraction_failed message = raise "VARIABLE_EXTRACTION_FAILED" message 409

abbrev max_pattern : ℕ
max_pattern = 512

abbrev max_text : ℕ
max_text = 1048576

-- `_required_expression`
unfoldable pub required_expression : Option String → Result String
required_expression none = extraction_failed "变量提取规则缺少 expression"
required_expression (some value) =
    if is_empty value then extraction_failed "变量提取规则缺少 expression" else ok value

module _ {F : Type 0} where
  -- `_single_value`
  unfoldable pub single_value : List (Value F) → Result (Value F)
  single_value (null ∷ []) = extraction_failed "变量提取结果必须唯一且非空"
  single_value (v ∷ []) = ok v
  single_value _ = extraction_failed "变量提取结果必须唯一且非空"

  abbrev found_header : Option String → Result (Value F)
  found_header none = extraction_failed "响应头中未找到配置的变量"
  found_header (some value) = ok (str value)

  abbrev one_group : List (Option String) → Result (Value F)
  one_group (some g ∷ []) = if is_empty g then extraction_failed "文本提取必须匹配唯一的非空捕获组" else ok (str g)
  -- a group that took no part is `None`, which the tests let pass
  one_group (none ∷ []) = ok null
  one_group _ = extraction_failed "文本提取必须匹配唯一的非空捕获组"

  abbrev found_text : SearchResult → Result (Value F)
  found_text bad_pattern = extraction_failed "文本提取表达式无效"
  found_text no_match = extraction_failed "文本提取必须匹配唯一的非空捕获组"
  found_text (groups gs) = one_group gs

  module _ (py : Runtime F) where
    -- The first header whose name, in lower case, is the expected one.
    unfoldable pub find_header : String → Dict String → Option String
    find_header expected [] = none
    find_header expected ((key, value) ∷ rest) =
        if str_eq (py.lower key) expected then some value else find_header expected rest

    unfoldable pub extract_runtime_value :
        VariableExtractionSource
        → Option String
        → Value F
        → String
        → Dict String
        → ℕ
        → Result (Value F)
    unfolding required_expression single_value find_header Text.length
    extract_runtime_value status_code expression body_json body_text headers code =
        ok (int (pos code))
    extract_runtime_value json_path expression body_json body_text headers code = do
      path ← required_expression expression
      values ← json_path_values py.digit_value body_json path
      single_value values
    extract_runtime_value response_header expression body_json body_text headers code = do
      name ← required_expression expression
      found_header (find_header (py.lower name) headers)
    extract_runtime_value text expression body_json body_text headers code = do
      pattern ← required_expression expression
      refuse_if (ltb max_pattern (Text.length pattern) || ltb max_text (Text.length body_text))
          "VARIABLE_EXTRACTION_FAILED" "文本提取范围超出限制" 409
      found_text (py.search pattern body_text)

    abbrev expression_of : Option (Value F) → Result (Option String)
    expression_of none = ok none
    expression_of (some null) = ok none
    expression_of (some (str e)) = ok (some e)
    expression_of (some _) = extraction_failed "变量提取规则无效"

    abbrev text_of : Option (Value F) → Result String
    text_of (some (str s)) = ok s
    text_of _ = extraction_failed "变量提取规则无效"

    abbrev known_source : Option VariableExtractionSource → Result VariableExtractionSource
    known_source none = extraction_failed "变量提取方式无效"
    known_source (some source) = ok source

    abbrev rule_fields : Value F → Result (Fields F)
    rule_fields (dict fs) = ok fs
    rule_fields _ = extraction_failed "变量提取规则无效"

    -- One turn of the loop of `_extract_step_variables`: the key and the value of a rule.
    unfoldable pub extract_rule :
        Value F → Value F → String → Dict String → ℕ → Result (String × Value F)
    unfolding extract_runtime_value source_of
    extract_rule rule body_json body_text headers code = do
      fs ← rule_fields rule
      key ← text_of (get_field fs "variableKey")
      name ← text_of (get_field fs "source")
      expression ← expression_of (get_field fs "expression")
      source ← known_source (source_of name)
      value ← extract_runtime_value source expression body_json body_text headers code
      ok (key, value)

    unfoldable pub extract_rules :
        Dict (Value F)
        → List (Value F)
        → Value F
        → String
        → Dict String
        → ℕ
        → Result (Dict (Value F))
    unfolding extract_rule Dict.put
    extract_rules values [] body_json body_text headers code = ok values
    extract_rules values (rule ∷ rules) body_json body_text headers code = do
      entry ← extract_rule rule body_json body_text headers code
      extract_rules (Dict.put values entry.0 entry.1) rules body_json body_text headers code

    -- `_extract_step_variables`
    unfoldable pub extract_step_variables :
        List (Value F) → Value F → String → Dict String → ℕ → Result (Dict (Value F))
    unfolding extract_rules
    extract_step_variables rules body_json body_text headers code =
        extract_rules [] rules body_json body_text headers code
