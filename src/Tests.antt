-- ===== src/Tests.antt =====
-- A small runtime, environment and catalogue, on which the properties are tried.
pub mod Templates
pub mod Assertions
pub mod Targets
pub mod Runs
pub mod Creation
pub mod Suites
pub mod Editing
pub mod Sources
pub mod Scans
pub mod Retrieval
pub mod Generations
use ai_test.Base.{
  ◌==◌, ℕ, zero, suc, ◌-◌, String, ◌<>◌, Char, code, Bool, true, false, Option, none, some, List,
  [], ◌∷◌, if◌then◌else◌, str_eq,
}
use ai_test.Base.Text
use ai_test.Base.Text.{is_digit}
use ai_test.Base.Int.{ℤ}
use ai_test.Base.Dict.{Dict}
use ai_test.Json.{Value, null, str, int, dict, Fields, end, field}
use ai_test.Json.Equality.{Floats}
use ai_test.Runtime.{Runtime, ParsedUrl, SearchResult, no_match, HttpExecutionResult}
use ai_test.Network.{Lookup}
use ai_test.Request.{BuiltRequest}
use ai_test.Runner.{TestEnvironment, EnvironmentType, staging, Network, Exchange, streamed}
use ai_test.Execution.Models.{
  BackgroundTask, ExecutionRun, ExecutionStep, ExecutionRunStatus, ExecutionStepStatus, TaskStatus,
  TestCase, TestAssertion, TestCaseStatus, ApiDefinition,
}
use ai_test.Execution.Evidence.{Catalogue}
use ai_test.Execution.Run.{World}

-- JSON without floating-point numbers.
abbrev pub J : Type 0
J = Value ⊥

abbrev pub no_floats : Floats ⊥
no_floats = record {
  eq_float = λ x y. false;
  eq_int = λ x n. false;
  le_float = λ x y. false;
  le_int_float = λ n x. false;
  le_float_int = λ x n. false;
}

abbrev pub same_text : String → String
same_text s = s

abbrev pub ascii_digit : Char → Option ℕ
ascii_digit c = if is_digit c then some (code c - 48) else none

abbrev pub api_url : ParsedUrl
api_url = record {
  scheme = "http";
  netloc = "api.test";
  hostname = some "api.test";
  port = some none;
  username = none;
  password = none;
}

abbrev pub parse_api : String → Option ParsedUrl
parse_api url = elim (Text.strip_prefix "http://api.test/" url) [
  | none ↦ none
  | some s ↦ some api_url
]

abbrev pub py : Runtime ⊥
py = record {
  floats = no_floats;
  lower = same_text;
  digit_value = ascii_digit;
  repr = λ v. "";
  loads = λ s. none;
  dumps = λ v. "";
  search = λ pattern text. no_match;
  urlparse = parse_api;
  urljoin = λ base path. some (base <> path);
  quote = same_text;
  urlencode = λ d. "";
  shell_quote = same_text;
  base64 = same_text;
  is_global = λ a. some true;
}

abbrev pub lookup : Lookup
lookup host = some ("93.184.216.34" ∷ [])

abbrev pub staging_environment : TestEnvironment
staging_environment = record {
  base_url = "http://api.test/";
  environment_type = staging;
  allow_write_requests = true;
  common_headers = [];
  host_allowlist = "api.test" ∷ [];
  variables = [];
}

abbrev pub answer : HttpExecutionResult
answer = record { status_code = 200; headers = []; body_text = "ok"; duration_ms = 5 }

abbrev pub network : Network ⊥
network = record {
  first_lookup = lookup;
  second_lookup = lookup;
  exchange = λ r. streamed ((111 ∷ 107 ∷ []) ∷ []) (λ body. answer);
}

abbrev pub status_case : TestCase ⊥
status_case = record {
  id = 7;
  api_definition_id = 3;
  status = TestCaseStatus.approved;
  request_template = end;
  assertions =
      (record { assertion_type = "status_code"; config = field "expected" (int (ℤ.pos 200)) end })
      ∷ [];
}

abbrev pub users_api : ApiDefinition
users_api = record { id = 3; method = "GET"; normalized_path = "/users" }

abbrev pub catalogue : Catalogue ⊥
catalogue = record {
  find_case = λ id. if 7 == id then some status_case else none;
  find_api = λ id. if 3 == id then some users_api else none;
  decrypt = λ s. some s;
  max_response_body_bytes = 100;
}

abbrev pub pending_step : ℕ → ExecutionStep ⊥
pending_step position = record {
  test_case_id = 7;
  position = position;
  status = ExecutionStepStatus.pending;
  method = none;
  target_url = none;
  request_snapshot = null;
  request_override = end;
  variable_extractions = [];
  extracted_variables = null;
  response_snapshot = null;
  redacted_curl = none;
  duration_ms = none;
  error_category = none;
  error_code = none;
  error_message = none;
  skip_reason = none;
  started = false;
  completed = false;
  results = [];
}

abbrev pub pending_task : BackgroundTask
pending_task = record {
  status = TaskStatus.pending;
  error_code = none;
  error_message = none;
  started = false;
  completed = false;
  write_confirmed = false;
  confirmed_host = none;
}

abbrev pub pending_run : ExecutionRun ⊥
pending_run = record {
  status = ExecutionRunStatus.pending;
  environment_id = 1;
  stop_on_failure = true;
  runtime_variables = [];
  total_count = 2;
  passed_count = 0;
  failed_count = 0;
  skipped_count = 0;
  error_code = none;
  error_message = none;
  started = false;
  completed = false;
}

abbrev pub two_steps : World ⊥
two_steps = record {
  task = pending_task;
  run = pending_run;
  steps = pending_step 1 ∷ pending_step 2 ∷ [];
}

abbrev pub find_environment : ℕ → Option TestEnvironment
find_environment id = some staging_environment
