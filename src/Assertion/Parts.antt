-- ===== src/Assertion/Parts.antt =====
-- The helpers of the assertion engine on its configuration and on values: `_config_path`,
-- `_json_type`, and the tests of `evaluate_assertion`.
use ai_test.Base.{
  ℕ, String, ◌<>◌, Bool, true, false, ◌&&◌, Option, none, some, List, [], ◌∷◌, ltb, if◌then◌else◌,
}
use ai_test.Base.Int.{pos, leb_ℤ, ltb_ℤ}
use ai_test.Base.Result.{Result, ok, raise}
use ai_test.Json.{Value, null, bool, int, float, str, list, dict, nil, cons, Fields, get_field}

module _ {F : Type 0} where
  -- `config.get(key)`, where Python's `None` and JSON's `null` are one value.
  abbrev pub or_null : Option (Value F) → Value F
  or_null none = null
  or_null (some v) = v

  abbrev pub config_get : Fields F → String → Value F
  config_get config key = or_null (get_field config key)

  abbrev pub path_of : Option (Value F) → Option String → Result String
  path_of (some (str path)) default = ok path
  path_of none (some path) = ok path
  path_of _ _ = raise "ASSERTION_CONFIG_INVALID" "JSONPath 断言缺少 path" 400

  -- `_config_path`
  unfoldable pub config_path : Fields F → Option String → Result String
  config_path config default = path_of (get_field config "path") default

  -- `_json_type`
  unfoldable pub json_type : Value F → String
  json_type null = "null"
  json_type (bool b) = "boolean"
  json_type (str s) = "string"
  json_type (int n) = "number"
  json_type (float x) = "number"
  json_type (list vs) = "array"
  json_type (dict fs) = "object"

  -- `actual[0] if isinstance(actual, list) and len(actual) == 1 else actual`
  abbrev pub unwrap_single : Value F → Value F
  unwrap_single (list (cons v nil)) = v
  unwrap_single v = v

  -- `values[0] if len(values) == 1 else None`
  abbrev pub single_or_null : List (Value F) → Value F
  single_or_null (v ∷ []) = v
  single_or_null _ = null

  abbrev pub is_nonempty : List (Value F) → Bool
  is_nonempty [] = false
  is_nonempty (v ∷ vs) = true

  -- `isinstance(v, (int, float)) and not isinstance(v, bool)`
  abbrev pub is_plain_number : Value F → Bool
  is_plain_number (int n) = true
  is_plain_number (float x) = true
  is_plain_number _ = false

  -- `isinstance(expected, int) and expected >= 0 and duration_ms < expected`; a `bool` is an `int`.
  abbrev pub under_limit : Value F → ℕ → Bool
  under_limit (int n) duration = leb_ℤ (pos 0) n && ltb_ℤ (pos duration) n
  under_limit (bool true) duration = ltb duration 1
  under_limit _ duration = false

  abbrev pub is_str : Value F → Bool
  is_str (str s) = true
  is_str _ = false

  -- `_json_type(values[0]) if len(values) == 1 else None`
  abbrev pub type_of_single : List (Value F) → Value F
  type_of_single (v ∷ []) = str (json_type v)
  type_of_single _ = null

abbrev pub verdict_message : String → Bool → String
verdict_message label passed = if passed then label <> "符合预期" else label <> "不符合预期"
