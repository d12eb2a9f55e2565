-- ===== src/Redaction.antt =====
-- backend/app/modules/executions/redaction.py: what an execution record keeps of a request and a
-- response. `str.lower` is a parameter, since its Unicode tables are the Python runtime's.
pub mod Values
pub mod TextScan
pub mod Curl
use ai_test.Base.{
  String, Bool, true, false, Option, none, some, List, [], ◌∷◌, map, any, if◌then◌else◌, Char,
}
use ai_test.Base.Text
use ai_test.Base.Dict.{Dict}
use ai_test.Json.{
  Value, null, bool, int, float, str, list, dict, Items, nil, cons, Fields, end, field,
}

abbrev pub mask : String
mask = "***"

pub sensitive_keywords : List String
sensitive_keywords =
    "authorization" ∷ "token" ∷ "cookie" ∷ "password" ∷ "passwd" ∷ "secret" ∷ "api-key" ∷ "apikey"
    ∷ "credential" ∷ "session" ∷ []

module _ (lower : String → String) where
  -- `_is_sensitive_key`
  unfoldable pub is_sensitive_key : String → Bool
  unfolding sensitive_keywords Text.contains Text.replace_char
  is_sensitive_key key =
      any (λ keyword. Text.contains keyword (Text.replace_char "_" "-" (lower key)))
        sensitive_keywords

  abbrev pub hides : Option String → Bool
  hides none = false
  hides (some key) = is_sensitive_key key

  unfoldable pub redact_headers : Dict String → Dict String
  redact_headers = map λ (key, value). (key, if is_sensitive_key key then mask else value)

  module _ {F : Type 0} where
    -- `redact_value` below the test of the value's own key.
    unfoldable mutual
      pub redact_inside : Value F → Value F
      redact_inside (dict fs) = dict (redact_fields fs)
      redact_inside (list vs) = list (redact_items vs)
      redact_inside null = null
      redact_inside (bool b) = bool b
      redact_inside (int n) = int n
      redact_inside (float x) = float x
      redact_inside (str s) = str s

      pub redact_items : Items F → Items F
      redact_items nil = nil
      redact_items (cons v vs) = cons (redact_inside v) (redact_items vs)

      pub redact_fields : Fields F → Fields F
      redact_fields end = end
      redact_fields (field k v fs) =
          field k (if is_sensitive_key k then str mask else redact_inside v) (redact_fields fs)

    unfoldable pub redact_value : Value F → Option String → Value F
    unfolding redact_inside
    redact_value v key = if hides key then str mask else redact_inside v
