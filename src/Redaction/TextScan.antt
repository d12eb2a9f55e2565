-- ===== src/Redaction/TextScan.antt =====
-- `redact_text`: the pattern `_SENSITIVE_TEXT_PATTERN`, matched without regard to case. The case
-- folding is the one of `re`, which also equates U+0130 and U+0131 with i, U+017F with s and U+212A
-- with k.
use ai_test.Base.{
  ℕ, zero, suc, ◌+◌, ◌-◌, String, ◌<>◌, Char, code, Bool, false, not, ◌&&◌, ◌||◌, Option, none,
  some, List, [], ◌∷◌, ◌==◌, leb, if◌then◌else◌,
}
use ai_test.Base.Text
use ai_test.Base.Text.{is_space}
use ai_test.Redaction.{mask}

abbrev fold_code : ℕ → ℕ
fold_code c =
    if leb b'A' c && leb c b'Z'
    then c + 32
    else if c == 0x130 || c == 0x131
    then b'i'
    else if c == 0x17f
    then b's'
    else if c == 0x212a
    then b'k'
    else c

-- The rest of the text behind a keyword, without regard to case.
unfoldable pub strip_keyword : String → String → Option String
strip_keyword String.[] s = some s
strip_keyword (String.◌∷◌ p ps) String.[] = none
strip_keyword (String.◌∷◌ p ps) (String.◌∷◌ c s) =
    let rest = strip_keyword ps s in if code p == fold_code (code c) then rest else none

-- `api[_-]?key` stands as its three texts.
abbrev text_keywords : List String
text_keywords =
    "authorization" ∷ "token" ∷ "cookie" ∷ "password" ∷ "passwd" ∷ "secret" ∷ "api_key" ∷ "api-key"
    ∷ "apikey" ∷ "credential" ∷ "session" ∷ []

unfoldable pub match_keyword : List String → String → Option String
unfolding strip_keyword
match_keyword [] s = none
match_keyword (k ∷ ks) s = elim (strip_keyword k s) [
  | some rest ↦ some rest
  | none ↦ match_keyword ks s
]

abbrev skip_spaces : String → String
skip_spaces s = Text.strip_left is_space s

-- `[:=]`
abbrev separator : String → Option String
separator String.[] = none
separator (String.◌∷◌ c s) = if code c == b':' || code c == b'=' then some s else none

-- `["']?`
abbrev optional_quote : String → String
optional_quote String.[] = ""
optional_quote (String.◌∷◌ c s) = if code c == 34 || code c == 39 then s else String.◌∷◌ c s

-- `[^\s",'&}]`
abbrev in_secret : Char → Bool
in_secret c = not (
    is_space c
    || code c == 34
    || code c == b','
    || code c == 39
    || code c == b'&'
    || code c == b'}')

abbrev starts_secret : String → Bool
starts_secret String.[] = false
starts_secret (String.◌∷◌ c s) = in_secret c

-- A match: the text behind group 1, and the text behind the match.
unfoldable pub match_secret : String → Option (String × String)
unfolding match_keyword Text.strip_left is_space
match_secret s = elim (match_keyword text_keywords s) [
  | none ↦ none
  | some s1 ↦ elim (separator (skip_spaces s1)) [
    | none ↦ none
    | some s2 ↦
        let s3 = optional_quote (skip_spaces s2) in
        if starts_secret s3 then some (s3, Text.strip_left in_secret s3) else none
  ]
]

-- `_SENSITIVE_TEXT_PATTERN.sub(r"\1***", value)`; `skip` characters belong to the last match.
unfoldable pub redact_from : ℕ → String → String
unfolding match_secret Text.length Text.take
redact_from skip String.[] = ""
redact_from (suc skip) (String.◌∷◌ c s) = redact_from skip s
redact_from zero (String.◌∷◌ c s) = elim (match_secret (String.◌∷◌ c s)) [
  | none ↦ String.◌∷◌ c (redact_from zero s)
  | some (behind, rest) ↦
      Text.take (suc (Text.length s) - Text.length behind) (String.◌∷◌ c s)
      <> mask
      <> redact_from (Text.length s - Text.length rest) s
]

unfoldable pub redact_text : String → String
unfolding redact_from
redact_text value = redact_from zero value
