-- ===== src/Assertion/Path.antt =====
-- The restricted JSONPath of the assertion engine: fields, indices and the wildcard. The decimal
-- digits of Unicode, which `\d` and `int` read, are a parameter.
pub mod Steps
use ai_test.Base.{
  ℕ, zero, suc, ◌+◌, ◌*◌, ◌-◌, String, Char, code, Bool, true, false, ◌||◌, Option, none, some,
  List, [], ◌∷◌, concat_map, get_elem?, ◌==◌, if◌then◌else◌,
}
use ai_test.Base.Text
use ai_test.Base.Text.{is_letter, is_digit}
use ai_test.Base.Result.{Result, ok, err, raise}
use ai_test.Json.{Value, null, bool, int, float, str, list, dict, Items, Fields, to_list, get_field}

-- The groups of `_JSON_PATH_TOKEN`: a key by groups 1 and 3, an index or `*` by group 2.
pub data Token : Type 0 where
  key : String → Token
  index : ℕ → Token
  wildcard : Token

abbrev starts_field : Char → Bool
starts_field c = is_letter c || code c == b'_'

abbrev continues_field : Char → Bool
continues_field c = is_letter c || is_digit c || code c == b'_' || code c == b'-'

abbrev pub is_quote : Char → Bool
is_quote c = code c == 39 || code c == 34

-- The longest run of characters that pass a test, and what follows it.
unfoldable pub run_of : (Char → Bool) → String → String × String
run_of p String.[] = ("", "")
run_of p (String.◌∷◌ c s) =
    let (name, rest) = run_of p s in if p c then (String.◌∷◌ c name, rest) else ("", String.◌∷◌ c s)

-- `([A-Za-z_][A-Za-z0-9_-]*)` behind a dot.
unfoldable pub match_field : String → Option (Token × String)
unfolding run_of
match_field String.[] = none
match_field (String.◌∷◌ c s) =
    let (name, rest) = run_of continues_field s in
    if starts_field c then some (key (String.◌∷◌ c name), rest) else none

-- `\]` behind a token.
abbrev close_bracket : Token → String → Option (Token × String)
close_bracket t String.[] = none
close_bracket t (String.◌∷◌ c s) = if code c == b']' then some (t, s) else none

-- The second quote, behind a key that is not empty.
abbrev close_quote : String → String → Option (Token × String)
close_quote String.[] s = none
close_quote k String.[] = none
close_quote k (String.◌∷◌ c s) = if is_quote c then close_bracket (key k) s else none

-- `['\"]([^'\"]+)['\"]\]`; either quote may end the key.
unfoldable pub match_quoted : String → Option (Token × String)
unfolding run_of
match_quoted String.[] = none
match_quoted (String.◌∷◌ c s) =
    let (k, rest) = run_of (λ d. if is_quote d then false else true) s in
    if is_quote c then close_quote k rest else none

module _ {F : Type 0} where
  abbrev pub optional : Option (Value F) → List (Value F)
  optional none = []
  optional (some v) = v ∷ []

  -- `value is None`
  abbrev pub is_null : Value F → Bool
  is_null null = true
  is_null _ = false

module _ (digit_value : Char → Option ℕ) where
  -- The rest of `\d+`, with `int` of the digits so far.
  unfoldable pub match_digits : ℕ → String → Option (Token × String)
  match_digits n String.[] = none
  match_digits n (String.◌∷◌ c s) = elim (digit_value c) [
    | some d ↦ match_digits (n * 10 + d) s
    | none ↦ close_bracket (index n) (String.◌∷◌ c s)
  ]

  -- `(\d+|\*)\]` behind an opening bracket.
  unfoldable pub match_index : String → Option (Token × String)
  unfolding match_digits
  match_index String.[] = none
  match_index (String.◌∷◌ c s) = elim (digit_value c) [
    | some d ↦ match_digits d s
    | none ↦ if code c == b'*' then close_bracket wildcard s else none
  ]

  -- `_JSON_PATH_TOKEN.match(path, offset)`, on the text from the offset.
  unfoldable pub match_token : String → Option (Token × String)
  unfolding match_field match_index match_quoted
  match_token String.[] = none
  match_token (String.◌∷◌ c s) =
      if code c == b'.'
      then match_field s
      else if code c == b'['
      then elim (match_index s) [ some m ↦ some m | none ↦ match_quoted s ]
      else none

  module _ {F : Type 0} where
    -- What one token selects in one value.
    unfoldable pub select : Token → Value F → List (Value F)
    select (key k) (dict fs) = optional (get_field fs k)
    select (index i) (list vs) = optional (get_elem? (to_list vs) i)
    select wildcard (list vs) = to_list vs
    select _ _ = []

    -- The loop over the path; `skip` characters belong to the last token.
    unfoldable pub walk : ℕ → List (Value F) → String → Result (List (Value F))
    unfolding select
    walk skip current String.[] = ok current
    walk (suc skip) current (String.◌∷◌ c s) = walk skip current s
    walk zero current (String.◌∷◌ c s) = elim (match_token (String.◌∷◌ c s)) [
      | none ↦ raise "ASSERTION_JSON_PATH_INVALID" "JSONPath 格式不支持" 400
      | some (t, rest) ↦ walk (Text.length s - Text.length rest) (concat_map (select t) current) s
    ]

    -- The early return, and the loop from offset 1.
    -- `_json_path_values`, and `extract_json_path_values`, which is the same.
    unfoldable pub json_path_values : Value F → String → Result (List (Value F))
    unfolding walk
    json_path_values value String.[] = ok []
    json_path_values value (String.◌∷◌ c s) =
        if is_null value then ok [] else if code c == b'$' then walk zero (value ∷ []) s else ok []
