-- ===== src/Request/Path.antt =====
-- The path parameters `{name}` of `build_request`.
use ai_test.Base.{ℕ, zero, suc, ◌-◌, String, ◌<>◌, Bool, true, false, Option, none, some}
use ai_test.Base.Text
use ai_test.Base.Dict
use ai_test.Base.Dict.{Dict}
use ai_test.Template.{match_name}

-- `_PATH_PARAMETER_PATTERN.match(s)`, with the text behind the match.
unfoldable pub match_parameter : String → Option (String × String)
unfolding match_name Text.strip_prefix
match_parameter s = elim (Text.strip_prefix "{" s) [
  | none ↦ none
  | some s1 ↦ elim (match_name s1) [
    | none ↦ none
    | some (name, s2) ↦ elim (Text.strip_prefix "}" s2) [
      | none ↦ none
      | some rest ↦ some (name, rest)
    ]
  ]
]

-- `_PATH_PARAMETER_PATTERN.search(path) is not None`
unfoldable pub has_parameter : String → Bool
unfolding match_parameter
has_parameter String.[] = false
has_parameter (String.◌∷◌ c s) = elim (match_parameter (String.◌∷◌ c s)) [
  | some m ↦ true
  | none ↦ has_parameter s
]

module _ (quote : String → String) (values : Dict String) where
  -- `_replace_path_parameter`
  abbrev replacement : String → String
  replacement name = elim (Dict.get values name) [ none ↦ "{" <> name <> "}" | some v ↦ quote v ]

  -- `_PATH_PARAMETER_PATTERN.sub(…, path)`; `skip` characters belong to the last match.
  unfoldable pub fill_from : ℕ → String → String
  unfolding match_parameter Dict.get
  fill_from skip String.[] = ""
  fill_from (suc skip) (String.◌∷◌ c s) = fill_from skip s
  fill_from zero (String.◌∷◌ c s) = elim (match_parameter (String.◌∷◌ c s)) [
    | none ↦ String.◌∷◌ c (fill_from zero s)
    | some (name, rest) ↦ replacement name <> fill_from (Text.length s - Text.length rest) s
  ]

  unfoldable pub fill_path : String → String
  unfolding fill_from
  fill_path path = fill_from zero path
