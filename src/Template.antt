-- ===== src/Template.antt =====
-- The variable templates of backend/app/modules/executions/variables.py: the pattern
-- `{{(env|secret|runtime).name}}`, its replacement in a request template, and the search for the
-- run variables that a template uses. `str(value)` of a value that is no text is a parameter.
pub mod Scan
pub mod Resolve
use ai_test.Base.{
  ℕ, zero, suc, ◌-◌, String, ◌<>◌, Char, code, Bool, true, false, ◌||◌, Option, none, some, List,
  [], ◌∷◌, ◌++◌, ◌==◌, str_eq, if◌then◌else◌,
}
use ai_test.Base.Text
use ai_test.Base.Text.{is_letter, is_digit}
use ai_test.Base.Dict
use ai_test.Base.Dict.{Dict}
use ai_test.Base.Result.{Result, ok, err, raise, ◌>>=◌}
use ai_test.Json.{
  Value, null, bool, int, float, str, list, dict, Items, nil, cons, Fields, end, field, entries,
}

-- A match of `_VARIABLE_PATTERN`: its two groups.
pub record Variable : Type 0 where
  pub namespace : String
  pub key : String

abbrev pub starts_name : Char → Bool
starts_name c = is_letter c || code c == b'_'

abbrev pub continues_name : Char → Bool
continues_name c = is_letter c || is_digit c || code c == b'_'

-- The longest run of name characters, and what follows it.
unfoldable pub name_run : String → String × String
name_run String.[] = ("", "")
name_run (String.◌∷◌ c s) =
    let (name, rest) = name_run s in
    if continues_name c then (String.◌∷◌ c name, rest) else ("", String.◌∷◌ c s)

-- `[A-Za-z_][A-Za-z0-9_]*`
unfoldable pub match_name : String → Option (String × String)
unfolding name_run
match_name String.[] = none
match_name (String.◌∷◌ c s) =
    let (name, rest) = name_run s in if starts_name c then some (String.◌∷◌ c name, rest) else none

-- `(env|secret|runtime)\.`
unfoldable pub match_namespace : String → Option (String × String)
unfolding Text.strip_prefix
match_namespace s = elim (Text.strip_prefix "env." s) [
  | some rest ↦ some ("env", rest)
  | none ↦ elim (Text.strip_prefix "secret." s) [
    | some rest ↦ some ("secret", rest)
    | none ↦ elim (Text.strip_prefix "runtime." s) [
      | some rest ↦ some ("runtime", rest)
      | none ↦ none
    ]
  ]
]

-- `_VARIABLE_PATTERN.match(s)`, with the text behind the match.
unfoldable pub match_variable : String → Option (Variable × String)
unfolding match_namespace match_name Text.strip_prefix
match_variable s = elim (Text.strip_prefix "{{" s) [
  | none ↦ none
  | some s1 ↦ elim (match_namespace s1) [
    | none ↦ none
    | some (namespace, s2) ↦ elim (match_name s2) [
      | none ↦ none
      | some (key, s3) ↦ elim (Text.strip_prefix "}}" s3) [
        | none ↦ none
        | some rest ↦ some (record { namespace = namespace; key = key }, rest)
      ]
    ]
  ]
]

-- `_VARIABLE_PATTERN.fullmatch(s)`
unfoldable pub full_match : String → Option Variable
full_match s = elim (match_variable s) [
  | none ↦ none
  | some (v, rest) ↦ if Text.is_empty rest then some v else none
]

-- A text as its matches, from left to right, and the characters between them.
pub data Segment : Type 0 where
  literal : Char → Segment
  variable : Variable → Segment

-- The scan of `sub` and `finditer`; `skip` characters belong to the last match.
unfoldable pub scan : ℕ → String → List Segment
scan skip String.[] = []
scan (suc skip) (String.◌∷◌ c s) = scan skip s
scan zero (String.◌∷◌ c s) = elim (match_variable (String.◌∷◌ c s)) [
  | none ↦ literal c ∷ scan zero s
  | some (v, rest) ↦ variable v ∷ scan (Text.length s - Text.length rest) s
]

abbrev pub runtime_keys : List Segment → List String
runtime_keys [] = []
runtime_keys (literal c ∷ rest) = runtime_keys rest
runtime_keys (variable v ∷ rest) =
    if str_eq v.namespace "runtime" then v.key ∷ runtime_keys rest else runtime_keys rest

abbrev pub Namespaces : Type 0 → Type 0
Namespaces F = Dict (Dict (Value F))

module _ {F : Type 0} where
  -- `namespaces.get(namespace, {}).get(key)`
  unfoldable pub find_variable : Namespaces F → Variable → Option (Value F)
  unfolding Dict.get
  find_variable ns v = elim (Dict.get ns v.namespace) [
    | none ↦ none
    | some values ↦ Dict.get values v.key
  ]

  abbrev pub present : Variable → Option (Value F) → Result (Value F)
  present v (some null) =
      raise "EXECUTION_VARIABLE_MISSING" ("变量 " <> v.namespace <> "." <> v.key <> " 未配置") 400
  present v (some w) = ok w
  present v none =
      raise "EXECUTION_VARIABLE_MISSING" ("变量 " <> v.namespace <> "." <> v.key <> " 未配置") 400

  -- `_get_variable`
  unfoldable pub get_variable : Namespaces F → Variable → Result (Value F)
  get_variable ns v = present v (find_variable ns v)

  module _ (repr : Value F → String) where
    -- `str(value)`
    abbrev pub as_text : Value F → String
    as_text (str s) = s
    as_text v = repr v

    -- `_VARIABLE_PATTERN.sub(replace, value)`
    unfoldable pub substitute : Namespaces F → List Segment → Result String
    unfolding get_variable
    substitute ns [] = ok ""
    substitute ns (literal c ∷ rest) = do tail ← substitute ns rest; ok (String.◌∷◌ c tail)
    substitute ns (variable v ∷ rest) = do
      w ← get_variable ns v
      tail ← substitute ns rest
      ok (as_text w <> tail)

    -- `resolve_template` of a text: a text that is one variable keeps the variable's type.
    unfoldable pub resolve_text : Namespaces F → String → Result (Value F)
    unfolding substitute
    resolve_text ns s = elim (full_match s) [
      | some v ↦ get_variable ns v
      | none ↦ do t ← substitute ns (scan zero s); ok (str t)
    ]

    unfoldable mutual
      pub resolve_template : Namespaces F → Value F → Result (Value F)
      resolve_template ns (list vs) = do ws ← resolve_items ns vs; ok (list ws)
      resolve_template ns (dict fs) = do gs ← resolve_fields ns fs; ok (dict gs)
      resolve_template ns (str s) = resolve_text ns s
      resolve_template ns null = ok null
      resolve_template ns (bool b) = ok (bool b)
      resolve_template ns (int n) = ok (int n)
      resolve_template ns (float x) = ok (float x)

      pub resolve_items : Namespaces F → Items F → Result (Items F)
      resolve_items ns nil = ok nil
      resolve_items ns (cons v vs) = do
        w ← resolve_template ns v
        ws ← resolve_items ns vs
        ok (cons w ws)

      pub resolve_fields : Namespaces F → Fields F → Result (Fields F)
      resolve_fields ns end = ok end
      resolve_fields ns (field k v fs) = do
        w ← resolve_template ns v
        gs ← resolve_fields ns fs
        ok (field k w gs)

  -- `find_runtime_variables`; the set is a list, of which only the members count.
  unfoldable mutual
    pub find_runtime_variables : Value F → List String
    find_runtime_variables (dict fs) = find_in_fields fs
    find_runtime_variables (list vs) = find_in_items vs
    find_runtime_variables (str s) = runtime_keys (scan zero s)
    find_runtime_variables null = []
    find_runtime_variables (bool b) = []
    find_runtime_variables (int n) = []
    find_runtime_variables (float x) = []

    pub find_in_items : Items F → List String
    find_in_items nil = []
    find_in_items (cons v vs) = find_runtime_variables v ++ find_in_items vs

    pub find_in_fields : Fields F → List String
    find_in_fields end = []
    find_in_fields (field k v fs) = find_runtime_variables v ++ find_in_fields fs
