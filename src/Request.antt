-- ===== src/Request.antt =====
-- `build_request` of backend/app/modules/executions/variables.py: a request within the environment's
-- base URL.
pub mod Path
pub mod Target
use ai_test.Base.{
  ℕ, String, ◌<>◌, Bool, true, false, not, ◌&&◌, ◌||◌, Option, none, some, List, [], ◌∷◌, map, any,
  ◌==◌, str_eq, if◌then◌else◌, is_some, code,
}
use ai_test.Base.Text
use ai_test.Base.Dict
use ai_test.Base.Dict.{Dict, mem}
use ai_test.Base.Result.{Result, ok, err, raise, refuse_if, ◌>>=◌, ◌>>◌}
use ai_test.Json.{
  Value, null, bool, int, float, str, list, dict, Items, nil, cons, Fields, end, field, entries,
  get_field,
}
use ai_test.Runtime.{Runtime, ParsedUrl}
use ai_test.Template.{Namespaces, as_text, resolve_template}
use Path.{fill_path, has_parameter}

pub record BuiltRequest (F : Type 0) : Type 0 where
  pub method : String
  pub url : String
  pub headers : Dict String
  pub query : Dict String
  pub json_body : Option (Value F)
  pub text_body : Option String

abbrev pub request_sections : List String
request_sections = "path" ∷ "query" ∷ "headers" ∷ "body" ∷ "auth" ∷ []

-- Whether `set(template) - allowed_sections` is not empty.
abbrev pub has_invalid_section : List String → Bool
has_invalid_section keys = any (λ k. not (mem k request_sections)) keys

-- `_ensure_trailing_slash`
unfoldable pub ensure_trailing_slash : String → String
unfolding Text.ends_with
ensure_trailing_slash value = if Text.ends_with value "/" then value else value <> "/"

abbrev pub option_eq : Option String → Option String → Bool
option_eq none none = true
option_eq (some a) (some b) = str_eq a b
option_eq _ _ = false

abbrev pub port_eq : Option ℕ → Option ℕ → Bool
port_eq none none = true
port_eq (some a) (some b) = a == b
port_eq _ _ = false

-- The request target that reading `hostname` and `port` gives, or `none` for a `ValueError`.
abbrev pub with_port : ParsedUrl → Option (ParsedUrl × Option ℕ)
with_port u = elim u.port [ none ↦ none | some p ↦ some (u, p) ]

abbrev pub invalid_target {ℓ} : {A : Type ℓ} → Result A
invalid_target = raise "REQUEST_TARGET_INVALID" "请求目标无效" 400

abbrev pub is_http : String → Bool
is_http scheme = str_eq scheme "http" || str_eq scheme "https"

module _ {F : Type 0} (py : Runtime F) where
  -- `str(item)` of each entry
  abbrev text_entries : Fields F → Dict String
  text_entries fs = map (λ (k, v). (k, as_text py.repr v)) (entries fs)

  -- `_as_string_mapping(resolved.get(section, {}), section)`
  unfoldable pub string_section : Fields F → String → Result (Dict String)
  string_section resolved section = elim (get_field resolved section) [
    | none ↦ ok []
    | some v ↦ elim v [
      | dict fs ↦ ok (text_entries fs)
      | _ ↦ raise "REQUEST_TEMPLATE_INVALID" (section <> " 必须是对象") 400
    ]
  ]

  abbrev pub Parts : Type 0
  Parts = Dict String × Dict String

  abbrev invalid_auth : Result Parts
  invalid_auth = raise "REQUEST_AUTH_INVALID" "认证配置无效" 400

  abbrev bearer : Option (Value F) → Parts → Result Parts
  bearer (some (str token)) (headers, query) =
      ok (Dict.put headers "Authorization" ("Bearer " <> token), query)
  bearer _ parts = invalid_auth

  abbrev basic : Option (Value F) → Option (Value F) → Parts → Result Parts
  basic (some (str user)) (some (str password)) (headers, query) =
      ok (Dict.put headers "Authorization" ("Basic " <> py.base64 (user <> ":" <> password)), query)
  basic _ _ parts = invalid_auth

  abbrev in_query : Option (Value F) → Bool
  in_query (some (str place)) = str_eq place "query"
  in_query _ = false

  abbrev api_key : Option (Value F) → Option (Value F) → Option (Value F) → Parts → Result Parts
  api_key (some (str name)) (some (str value)) place (headers, query) =
      if in_query place
      then ok (headers, Dict.put query name value)
      else ok (Dict.put headers name value, query)
  api_key _ _ _ parts = invalid_auth

  abbrev auth_of_type : Fields F → Option (Value F) → Parts → Result Parts
  auth_of_type fs (some (str kind)) parts =
      if str_eq kind "bearer"
      then bearer (get_field fs "token") parts
      else if str_eq kind "basic"
      then basic (get_field fs "username") (get_field fs "password") parts
      else if str_eq kind "api_key"
      then api_key (get_field fs "name") (get_field fs "value") (get_field fs "in") parts
      else invalid_auth
  auth_of_type fs _ parts = invalid_auth

  -- `_apply_auth`, which changes the headers and the query.
  unfoldable pub apply_auth : Parts → Option (Value F) → Result Parts
  unfolding Dict.put
  apply_auth parts none = ok parts
  apply_auth parts (some null) = ok parts
  apply_auth parts (some (dict fs)) = auth_of_type fs (get_field fs "type") parts
  apply_auth parts (some _) = invalid_auth

  -- `urlparse(url)` with its `hostname` and `port`; a `ValueError` is an invalid target.
  unfoldable pub parse_target : String → Result (ParsedUrl × Option ℕ)
  parse_target url = elim (py.urlparse url) [
    | none ↦ invalid_target
    | some u ↦ elim (with_port u) [ none ↦ invalid_target | some t ↦ ok t ]
  ]

  abbrev has_credentials : ParsedUrl → Bool
  has_credentials u = is_some u.username || is_some u.password

  -- The checks of the joined URL; nothing catches the `ValueError` of `urljoin`.
  abbrev pub check_url : ParsedUrl × Option ℕ → Option String → Result (Option String)
  check_url base none = ok none
  check_url base (some url) = do
    target ← parse_target url
    refuse_if
        (not (str_eq target.0.scheme base.0.scheme)
          || not (option_eq target.0.hostname base.0.hostname)
          || not (port_eq target.1 base.1)
          || has_credentials target.0)
        "REQUEST_TARGET_INVALID" "请求目标无效" 400
    ok (some url)

  -- The URL of the request, from the base URL and the path; `none` is a `ValueError` that nothing
  -- catches.
  unfoldable pub build_url : String → String → Result (Option String)
  unfolding ensure_trailing_slash
  build_url base_url path = do
    base ← parse_target base_url
    refuse_if
        (not (is_http base.0.scheme) || not (is_some base.0.hostname) || has_credentials base.0)
        "REQUEST_TARGET_INVALID" "请求目标无效" 400
    check_url base
        (py.urljoin (ensure_trailing_slash base_url) (Text.strip_left (λ c. code c == b'/') path))

  -- The body as JSON or as text; Python's `None` is neither.
  abbrev pub json_body_of : Option (Value F) → Option (Value F)
  json_body_of none = none
  json_body_of (some null) = none
  json_body_of (some (str s)) = none
  json_body_of (some v) = some v

  abbrev pub text_body_of : Option (Value F) → Option String
  text_body_of (some (str s)) = some s
  text_body_of _ = none

  abbrev pub with_body : String → String → Parts → Option (Value F) → BuiltRequest F
  with_body method url parts body = record {
    method = method;
    url = url;
    headers = parts.0;
    query = parts.1;
    json_body = json_body_of body;
    text_body = text_body_of body;
  }

  abbrev as_object : Value F → Result (Fields F)
  as_object (dict fs) = ok fs
  as_object _ = raise "REQUEST_TEMPLATE_INVALID" "请求模板必须是对象" 400

  -- What follows the URL.
  abbrev pub complete_request :
      String
      → Dict String
      → Dict String
      → Fields F
      → Option String
      → Result (Option (BuiltRequest F))
  complete_request method headers query resolved none = ok none
  complete_request method headers query resolved (some url) = do
    parts ← apply_auth (headers, query) (get_field resolved "auth")
    ok (some (with_body method url parts (get_field resolved "body")))

  -- `build_request`; `none` is a `ValueError` that nothing catches
  unfoldable pub build_request :
      String
      → String
      → String
      → Dict String
      → Fields F
      → Namespaces F
      → Result (Option (BuiltRequest F))
  unfolding Dict.merge
  build_request method normalized_path base_url common_headers request_template namespaces = do
    refuse_if (has_invalid_section (Dict.keys (entries request_template)))
        "REQUEST_TEMPLATE_INVALID" "请求模板包含不支持的区段" 400
    value ← resolve_template py.repr namespaces (dict request_template)
    resolved ← as_object value
    path_values ← string_section resolved "path"
    query ← string_section resolved "query"
    own_headers ← string_section resolved "headers"
    let headers = Dict.merge common_headers own_headers
    let path = fill_path py.quote path_values normalized_path
    refuse_if (has_parameter path) "REQUEST_PATH_VARIABLE_MISSING" "路径变量缺失" 400
    url ← build_url base_url path
    complete_request method headers query resolved url
