-- ===== src/Runner.antt =====
-- backend/app/modules/executions/runner.py: the checks before a request, and the bounded read of its
-- response. The exchange itself is an argument: what `httpx` answers.
pub mod Guards
use ai_test.Base.{
  ℕ, ◌+◌, String, ◌<>◌, Bool, true, false, not, ◌||◌, Option, none, some, List, [], ◌∷◌, ◌++◌,
  length, ltb, str_eq, if◌then◌else◌,
}
use ai_test.Base.Text
use ai_test.Base.Dict.{Dict, mem}
use ai_test.Base.Result.{AppError}
use ai_test.Base.Outcome.{Outcome, done, failed, ◌>>=◌, ◌>>◌, fail_if, map_error}
use ai_test.Runtime.{Runtime, ParsedUrl, HttpExecutionResult}
use ai_test.Request.{BuiltRequest}
use ai_test.Network.{ApprovedHttpTarget, Lookup, approve_http_target, validate_stable_dns}

-- `ExecutionErrorCategory` of backend/app/modules/executions/models.py
pub data ExecutionErrorCategory : Type 0 where
  request_build security dns connection tls timeout response_too_large assertion :
      ExecutionErrorCategory
  precondition variable_extraction internal : ExecutionErrorCategory

pub record RunnerError : Type 0 where
  pub category : ExecutionErrorCategory
  pub code : String
  pub message : String

-- What the code of an execution step can raise.
pub data Exn : Type 0 where
  app : AppError → Exn
  runner : RunnerError → Exn
  unexpected : Exn

abbrev pub Attempt : Type 0 → Type 0
Attempt A = Outcome Exn A

abbrev pub runner_error : ExecutionErrorCategory → String → String → Exn
runner_error category code message =
    runner (record { category = category; code = code; message = message })

-- `EnvironmentType` of backend/app/modules/environments/models.py
pub data EnvironmentType : Type 0 where
  test staging production : EnvironmentType

abbrev pub is_production : EnvironmentType → Bool
is_production production = true
is_production _ = false

pub record EnvironmentVariable : Type 0 where
  pub variable_key : String
  pub value : Option String
  pub encrypted_value : Option String
  pub is_secret : Bool

-- `TestEnvironment`, with its variables.
pub record TestEnvironment : Type 0 where
  pub base_url : String
  pub environment_type : EnvironmentType
  pub allow_write_requests : Bool
  pub common_headers : Dict String
  pub host_allowlist : List String
  pub variables : List EnvironmentVariable

abbrev pub write_methods : List String
write_methods = "POST" ∷ "PUT" ∷ "PATCH" ∷ "DELETE" ∷ []

-- `_to_runner_error`
unfoldable pub to_runner_error : String → Exn
to_runner_error reason =
    if str_eq reason "host_not_allowed"
    then runner_error security "EXECUTION_HOST_NOT_ALLOWED" "目标 Host 不在白名单中"
    else if str_eq reason "private_address"
    then runner_error security "EXECUTION_PRIVATE_ADDRESS_FORBIDDEN" "目标地址不允许访问"
    else if str_eq reason "dns_rebinding"
    then runner_error security "EXECUTION_DNS_REBINDING_FORBIDDEN" "目标 DNS 解析结果发生变化"
    else if str_eq reason "dns_empty"
    then runner_error dns "EXECUTION_DNS_EMPTY" "目标 Host 没有可用地址"
    else if str_eq reason "dns_failed"
    then runner_error dns "EXECUTION_DNS_FAILED" "无法解析目标 Host"
    else if str_eq reason "dns_invalid"
    then runner_error dns "EXECUTION_DNS_INVALID" "目标 Host 解析结果无效"
    else runner_error security "EXECUTION_TARGET_INVALID" "执行目标无效"

-- `_display_host`
abbrev pub display_host : ParsedUrl → String
display_host parsed = parsed.scheme <> "://" <> parsed.netloc

-- `confirmed_host == host`, where `None` equals no text.
abbrev pub confirms : Option String → String → Bool
confirms none host = false
confirms (some confirmed) host = str_eq confirmed host

-- What `httpx` answers to a request: the chunks of the body, or one of its errors.
pub data Exchange : Type 0 where
  -- the chunks, as bytes, and the result that the whole body is decoded to
  streamed : List (List ℕ) → (List ℕ → HttpExecutionResult) → Exchange
  connect_timeout read_timeout : Exchange
  -- whether the text of the cause names `ssl` or `tls`
  connect_error : Bool → Exchange
  http_error : Exchange

-- What a step meets outside: the two name lookups, and the exchange.
pub record Network (F : Type 0) : Type 0 where
  pub first_lookup : Lookup
  pub second_lookup : Lookup
  pub exchange : BuiltRequest F → Exchange

-- The loop over the chunks: the body, as soon as it is complete within the limit.
unfoldable pub read_body : ℕ → List ℕ → List (List ℕ) → Attempt (List ℕ)
read_body limit content [] = done content
read_body limit content (chunk ∷ rest) =
    let more = read_body limit (content ++ chunk) rest in
    if ltb limit (length (content ++ chunk))
    then failed (runner_error response_too_large "EXECUTION_RESPONSE_TOO_LARGE" "响应体超过大小限制")
    else more

unfoldable pub receive : ℕ → Exchange → Attempt HttpExecutionResult
unfolding read_body
receive limit (streamed chunks decode) = do
  content ← read_body limit [] chunks
  done (decode content)
receive limit connect_timeout = failed (runner_error timeout "EXECUTION_CONNECT_TIMEOUT" "连接超时")
receive limit read_timeout = failed (runner_error timeout "EXECUTION_READ_TIMEOUT" "响应超时")
receive limit (connect_error true) = failed (runner_error tls "EXECUTION_TLS_ERROR" "TLS 连接失败")
receive limit (connect_error false) =
    failed (runner_error connection "EXECUTION_CONNECTION_ERROR" "连接目标服务失败")
receive limit http_error = failed (runner_error connection "EXECUTION_HTTP_ERROR" "HTTP 请求失败")

module _ {F : Type 0} (py : Runtime F) where
  -- The tests of a write request.
  unfoldable pub check_write :
      TestEnvironment → String → ParsedUrl → Bool → Option String → Attempt (Unit {0})
  check_write environment method parsed write_confirmed confirmed_host =
      if mem method write_methods
      then (do
        fail_if (not environment.allow_write_requests)
            (runner_error security "EXECUTION_WRITE_FORBIDDEN" "当前环境禁止写请求")
        fail_if (not write_confirmed || not (confirms confirmed_host (display_host parsed)))
            (runner_error security "EXECUTION_WRITE_CONFIRMATION_REQUIRED" "写请求需要确认当前目标 Host")
        done tt)
      else done tt

  abbrev parse_or_raise : String → Attempt ParsedUrl
  parse_or_raise url = elim (py.urlparse url) [ none ↦ failed unexpected | some u ↦ done u ]

  unfoldable pub validate_execution_target :
      Lookup → TestEnvironment → BuiltRequest F → Bool → Option String → Attempt ApprovedHttpTarget
  validate_execution_target lookup environment request write_confirmed confirmed_host = do
    parsed ← parse_or_raise request.url
    fail_if (is_production environment.environment_type)
        (runner_error security "EXECUTION_PRODUCTION_FORBIDDEN" "生产环境禁止执行")
    check_write environment request.method parsed write_confirmed confirmed_host
    map_error to_runner_error (approve_http_target py lookup request.url environment.host_allowlist)

  unfoldable pub send_request :
      Lookup
      → (BuiltRequest F → Exchange)
      → BuiltRequest F
      → ℕ
      → ApprovedHttpTarget
      → Attempt HttpExecutionResult
  send_request lookup exchange request max_response_body_bytes target = do
    map_error to_runner_error (validate_stable_dns py.is_global lookup target)
    receive max_response_body_bytes (exchange request)
