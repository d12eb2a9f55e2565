-- ===== src/Redaction/Curl.antt =====
-- `build_redacted_curl`.
use ai_test.Base.{String, ◌<>◌, Option, none, some, List, [], ◌∷◌, ◌++◌}
use ai_test.Base.Dict.{Dict}
use ai_test.Json.{Value}
use ai_test.Runtime.{Runtime}
use ai_test.Request.{BuiltRequest}
use ai_test.Redaction.{redact_headers, redact_value}
use ai_test.Redaction.TextScan.{redact_text}

-- `" ".join(parts)`
unfoldable pub join_words : List String → String
join_words [] = ""
join_words (w ∷ []) = w
join_words (w ∷ v ∷ ws) = w <> " " <> join_words (v ∷ ws)

module _ {F : Type 0} (py : Runtime F) where
  abbrev header_parts : Dict String → List String
  header_parts [] = []
  header_parts ((key, value) ∷ rest) =
      "-H" ∷ py.shell_quote (key <> ": " <> value) ∷ header_parts rest

  abbrev body_parts : Option String → Option (Value F) → List String
  body_parts (some text) json = "--data-raw" ∷ py.shell_quote (redact_text text) ∷ []
  body_parts none (some v) =
      "--data-raw" ∷ py.shell_quote (py.dumps (redact_value py.lower v none)) ∷ []
  body_parts none none = []

  abbrev target_url : String → Dict String → String
  target_url url [] = url
  target_url url (q ∷ qs) = url <> "?" <> py.urlencode (redact_headers py.lower (q ∷ qs))

  unfoldable pub build_redacted_curl : BuiltRequest F → String
  unfolding join_words redact_headers
  build_redacted_curl request = join_words (
      "curl"
      ∷ "-X"
      ∷ request.method
      ∷ py.shell_quote (target_url request.url request.query)
      ∷ (header_parts (redact_headers py.lower request.headers)
          ++ body_parts request.text_body request.json_body))
