-- ===== src/Runtime.antt =====
-- What the modelled code takes from the Python runtime and from libraries outside the repository:
-- Unicode tables, `urllib.parse`, `json`, `re`, `shlex`, `base64`, name resolution and `httpx`.
-- Nothing is assumed of them but what a theorem names.
use ai_test.Base.{ℕ, String, Char, Bool, Option, List}
use ai_test.Base.Dict.{Dict}
use ai_test.Json.{Value}
use ai_test.Json.Equality.{Floats}

-- A `ParseResult`; `port` is `none` where reading it raises `ValueError`.
pub record ParsedUrl : Type 0 where
  pub scheme : String
  pub netloc : String
  pub hostname : Option String
  pub port : Option (Option ℕ)
  pub username : Option String
  pub password : Option String

-- `re.search(pattern, text)` of a pattern from the configuration.
pub data SearchResult : Type 0 where
  bad_pattern : SearchResult
  no_match : SearchResult
  -- the match's groups, a group that took no part being `none`
  groups : List (Option String) → SearchResult

pub record HttpExecutionResult : Type 0 where
  pub status_code : ℕ
  pub headers : Dict String
  pub body_text : String
  pub duration_ms : ℕ

pub record Runtime (F : Type 0) : Type 0 where
  pub floats : Floats F
  pub lower : String → String
  pub digit_value : Char → Option ℕ
  -- `str(value)` of a value that is no text
  pub repr : Value F → String
  -- `json.loads`, with `none` for a `JSONDecodeError`, and `json.dumps`
  pub loads : String → Option (Value F)
  pub dumps : Value F → String
  pub search : String → String → SearchResult
  -- `urlparse`, with `none` for a `ValueError`
  pub urlparse : String → Option ParsedUrl
  -- `urljoin`, with `none` for a `ValueError`
  pub urljoin : String → String → Option String
  pub quote : String → String
  pub urlencode : Dict String → String
  pub shell_quote : String → String
  pub base64 : String → String
  -- `ipaddress.ip_address(a).is_global`, with `none` for a `ValueError`
  pub is_global : String → Option Bool
