-- ===== src/Execution/Evidence.antt =====
-- What a step reads and records: the variables of its environment, its request template, and the
-- redacted snapshots (backend/app/modules/executions/service.py).
use ai_test.Base.{ℕ, ◌+◌, String, Option, none, some, List, [], ◌∷◌, map, if◌then◌else◌}
use ai_test.Base.Int.{pos}
use ai_test.Base.Dict
use ai_test.Base.Dict.{Dict, mem}
use ai_test.Base.Result.{Result, ok, err, raise}
use ai_test.Base.Outcome.{done, failed}
use ai_test.Json.{Value, null, int, str, dict, Fields, end, field, entries, of_entries}
use ai_test.Runtime.{Runtime, HttpExecutionResult}
use ai_test.Template.{Namespaces}
use ai_test.Assertion.{AssertionEvaluation, evaluate_assertion}
use ai_test.Redaction.{redact_headers, redact_value}
use ai_test.Redaction.TextScan.{redact_text}
use ai_test.Request.{BuiltRequest}
use ai_test.Runner.{app, Attempt, TestEnvironment, EnvironmentVariable, unexpected}
use ai_test.Execution.Models.{AssertionResult, TestAssertion, TestCase, ApiDefinition}

-- The rows that a step reads, and the decryption of a secret, `none` where it fails.
pub record Catalogue (F : Type 0) : Type 0 where
  pub find_case : ℕ → Option (TestCase F)
  pub find_api : ℕ → Option ApiDefinition
  pub decrypt : String → Option String
  pub max_response_body_bytes : ℕ

abbrev pub from_result : {A : Type 0} → Result A → Attempt A
from_result (ok a) = done a
from_result (err e) = failed (app e)

-- The same, where `none` is another exception.
abbrev pub from_built : {A : Type 0} → Result (Option A) → Attempt A
from_built (ok none) = failed unexpected
from_built (ok (some a)) = done a
from_built (err e) = failed (app e)

module _ {F : Type 0} where
  abbrev text_dict : Dict String → Value F
  text_dict d = dict (of_entries (map (λ (k, v). (k, str v)) d))

  -- The override of one section: two objects are merged, any other value takes the section's place.
  abbrev merged_section : String → Option (Value F) → Value F → Value F
  merged_section section (some (dict fs)) (dict gs) =
      if mem section ("path" ∷ "query" ∷ "headers" ∷ "body" ∷ [])
      then dict (of_entries (Dict.merge (entries fs) (entries gs)))
      else dict gs
  merged_section section old new = new

  unfoldable pub merge_sections : Dict (Value F) → Dict (Value F) → Dict (Value F)
  unfolding Dict.put Dict.merge Dict.get
  merge_sections merged [] = merged
  merge_sections merged ((section, value) ∷ rest) =
      merge_sections
        (Dict.put merged section (merged_section section (Dict.get merged section) value)) rest

  -- `_merge_request_template`
  unfoldable pub merge_request_template : Fields F → Fields F → Fields F
  unfolding merge_sections
  merge_request_template template override =
      of_entries (merge_sections (entries template) (entries override))

module _ {F : Type 0} (py : Runtime F) (db : Catalogue F) where
  abbrev decrypted : Option String → Result String
  decrypted none = raise "ENVIRONMENT_SECRET_INVALID" "加密变量未配置" 409
  decrypted (some encrypted) = elim (db.decrypt encrypted) [
    | none ↦ raise "ENVIRONMENT_SECRET_INVALID" "加密变量无法读取" 500
    | some value ↦ ok value
  ]

  -- The loop of `load_variable_namespaces` over the variables.
  unfoldable pub load_variables :
      Dict (Value F)
      → Dict (Value F)
      → List EnvironmentVariable
      → Result (Dict (Value F) × Dict (Value F))
  unfolding Dict.put
  load_variables env secret [] = ok (env, secret)
  load_variables env secret (v ∷ rest) =
      if v.is_secret
      then elim (decrypted v.encrypted_value) [
        | err e ↦ err e
        | ok value ↦ load_variables env (Dict.put secret v.variable_key (str value)) rest
      ]
      else elim v.value [
        | none ↦ load_variables env secret rest
        | some value ↦ load_variables (Dict.put env v.variable_key (str value)) secret rest
      ]

  unfoldable pub load_variable_namespaces : TestEnvironment → Dict (Value F) → Result (Namespaces F)
  unfolding load_variables
  load_variable_namespaces environment runtime_variables =
      elim (load_variables (("baseUrl", str environment.base_url) ∷ []) [] environment.variables) [
        | err e ↦ err e
        | ok (env, secret) ↦
            ok (("env", env) ∷ ("secret", secret) ∷ ("runtime", runtime_variables) ∷ [])
      ]

  -- `request.text_body or ""`
  abbrev text_or_empty : Option String → String
  text_or_empty none = ""
  text_or_empty (some s) = s

  abbrev body_snapshot : Option (Value F) → Option String → Value F
  body_snapshot (some v) text = redact_value py.lower v none
  body_snapshot none text = str (redact_text (text_or_empty text))

  -- `_request_snapshot`
  unfoldable pub request_snapshot : BuiltRequest F → Value F
  unfolding redact_value redact_headers redact_text
  request_snapshot request = dict (
      field "method" (str request.method) (
        field "url" (str request.url) (
          field "query" (redact_value py.lower (text_dict request.query) none) (
            field "headers" (text_dict (redact_headers py.lower request.headers))
              (field "body" (body_snapshot request.json_body request.text_body) end)))))

  abbrev loaded : Option (Value F) → Value F
  loaded none = null
  loaded (some v) = v

  -- `parse_response_json`
  abbrev pub parse_response_json : String → Value F
  parse_response_json text = loaded (py.loads text)

  abbrev response_body : Value F → String → Value F
  response_body null text = str (redact_text text)
  response_body v text = redact_value py.lower v none

  unfoldable pub response_snapshot : HttpExecutionResult → Value F
  unfolding redact_value redact_headers redact_text
  response_snapshot response = dict (
      field "statusCode" (int (pos response.status_code)) (
        field "headers" (text_dict (redact_headers py.lower response.headers)) (
          field "body" (response_body (parse_response_json response.body_text) response.body_text)
            end)))

  -- The verdicts of all assertions, or the first error.
  unfoldable pub evaluate_all :
      List (TestAssertion F) → HttpExecutionResult → Result (List (AssertionEvaluation F))
  unfolding evaluate_assertion
  evaluate_all [] response = ok []
  evaluate_all (a ∷ rest) response =
      elim (evaluate_assertion py.floats py.digit_value a.assertion_type a.config
        response.status_code response.body_text (parse_response_json response.body_text)
        response.duration_ms) [
          | err e ↦ err e
          | ok evaluation ↦ elim (evaluate_all rest response) [
            | err e ↦ err e
            | ok evaluations ↦ ok (evaluation ∷ evaluations)
          ]
        ]

  unfoldable pub result_rows : ℕ → List (AssertionEvaluation F) → List (AssertionResult F)
  unfolding redact_value
  result_rows position [] = []
  result_rows position (e ∷ rest) =
      (record {
        position = position;
        assertion_type = e.assertion_type;
        path = e.path;
        expected = redact_value py.lower e.expected none;
        actual = redact_value py.lower e.actual none;
        passed = e.passed;
        message = e.message;
      })
      ∷ result_rows (position + 1) rest
