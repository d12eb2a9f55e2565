-- ===== src/Assertion/Errors.antt =====
-- The errors of the assertion engine, by assertion type.
use ai_test.Base.{
  ℕ, zero, suc, ◌-◌, String, Char, ◌≡◌, refl, Bool, true, false, ◌||◌, Option, none, some, List, [],
  ◌∷◌, arith, inl, inr, ◌⊎◌, concat_map, str_eq, if◌then◌else◌, Option-cases, Bool-cases, ◌==◌,
  code,
}
use ai_test.Base.Text
use ai_test.Base.Dict.{mem}
use ai_test.Base.Result.{AppError, Result, ok, err, raise, ◌>>=◌}
use ai_test.Json.{Value, str, Fields, get_field}
use ai_test.Json.Equality.{Floats}
use ai_test.Assertion.{
  AssertionEvaluation, normalize_type, evaluate_exists, evaluate_contains, evaluate_range,
  text_or_error, evaluate_normalized, evaluate_assertion, evaluate_path_equals, evaluate_type,
  evaluate_response_time,
}
use ai_test.Assertion.Path.{match_token, select, walk, is_null, json_path_values}
use ai_test.Assertion.Parts.{config_path, config_get, path_of}

-- The assertion types behind the aliases.
abbrev pub supported_types : List String
supported_types =
    "status_code_equals" ∷ "business_code_equals" ∷ "json_path_equals" ∷ "json_path_exists"
    ∷ "json_path_not_exists" ∷ "json_path_type" ∷ "body_contains" ∷ "body_not_contains"
    ∷ "number_range" ∷ "response_time_less_than" ∷ []

-- The errors that a configuration can cause.
abbrev pub IsConfigError : AppError → Type 0
IsConfigError e =
    ((e.code ≡ "ASSERTION_CONFIG_INVALID") ⊎ (e.code ≡ "ASSERTION_JSON_PATH_INVALID"))
    × (e.status_code ≡ 400)

-- A value, or an error that a configuration can cause.
pub data FailsByConfig {A : Type 0} : Result A → Type 0 where
  gives : (a : A) → FailsByConfig (ok a)
  fails : (e : AppError) → IsConfigError e → FailsByConfig (err e)

FailsByConfig-bind :
    {A B : Type 0} {m : Result A} (f : A → Result B)
    → FailsByConfig m
    → ((a : A) → FailsByConfig (f a))
    → FailsByConfig (m >>= f)
FailsByConfig-bind f (gives a) g = g a
FailsByConfig-bind f (fails e h) g = fails e h

module _ {F : Type 0} where
  path_of_error :
      (o : Option (Value F)) (default : Option String) → FailsByConfig (path_of o default)
  path_of_error (some (str path)) default = gives _
  path_of_error none (some path) = gives _
  path_of_error _ _ = fails _ (inl refl, refl)

  config_path_error :
      (config : Fields F) (default : Option String) → FailsByConfig (config_path config default)
  unfolding config_path
  config_path_error config default = path_of_error (get_field config "path") default

  text_or_error_lem :
      (floats : Floats F) (digit_value : Char → Option ℕ) (v : Value F)
      → FailsByConfig (text_or_error floats digit_value v)
  text_or_error_lem floats digit_value (str s) = gives _
  text_or_error_lem floats digit_value _ = fails _ (inl refl, refl)

module _ {F : Type 0} (digit_value : Char → Option ℕ) where
  walk_error :
      (skip : ℕ) (current : List (Value F)) (path : String)
      → FailsByConfig (walk digit_value skip current path)
  unfolding walk
  walk_error skip current String.[] = gives _
  walk_error (suc skip) current (String.◌∷◌ c s) = walk_error skip current s
  walk_error zero current (String.◌∷◌ c s) =
      elim (Option-cases (match_token digit_value (String.◌∷◌ c s))) [
        | inl e ↦ rw (e, walk) (fails _ (inr refl, refl))
        | inr (m, e) ↦
            rw (e, walk)
              (walk_error (Text.length s - Text.length m.1)
                (concat_map (select digit_value m.0) current) s)
      ]

  path_error : (v : Value F) (path : String) → FailsByConfig (json_path_values digit_value v path)
  unfolding json_path_values
  path_error v String.[] = gives _
  path_error v (String.◌∷◌ c s) = elim (Bool-cases (is_null v)) [
    | inl e ↦ rw e (gives _)
    | inr e ↦ elim (Bool-cases (code c == b'$')) [
      | inl d ↦ rw (e, d) (walk_error zero (v ∷ []) s)
      | inr d ↦ rw (e, d) (gives _)
    ]
  ]

module _ {F : Type 0} (floats : Floats F) (digit_value : Char → Option ℕ) where
  -- Each branch that reads a path fails by its configuration only.
  by_path :
      {B : Type 0} (config : Fields F) (default : Option String) (body : Value F)
      (f : String → List (Value F) → B)
      → FailsByConfig (do
        path ← config_path config default
        values ← json_path_values digit_value body path
        ok (f path values))
  by_path config default body f =
      FailsByConfig-bind _ (config_path_error config default)
        λ path. FailsByConfig-bind _ (path_error digit_value body path) (λ values. gives _)

  module _ (config : Fields F) (body_text : String) (body_json : Value F) where
    path_equals_error :
        (kind : String) (default : Option String) (label : String)
        → FailsByConfig
            (evaluate_path_equals floats digit_value kind default label config body_json)
    unfolding evaluate_path_equals
    path_equals_error kind default label = by_path config default body_json _

    exists_error :
        (kind : String) (wanted : Bool)
        → FailsByConfig (evaluate_exists floats digit_value kind wanted config body_json)
    unfolding evaluate_exists
    exists_error kind wanted = by_path config none body_json _

    type_error : FailsByConfig (evaluate_type floats digit_value config body_json)
    unfolding evaluate_type
    type_error = by_path config none body_json _

    range_error : FailsByConfig (evaluate_range floats digit_value config body_json)
    unfolding evaluate_range
    range_error = by_path config none body_json _

    contains_error :
        (kind : String) (wanted : Bool)
        → FailsByConfig (evaluate_contains floats digit_value kind wanted config body_text)
    unfolding evaluate_contains
    contains_error kind wanted =
        FailsByConfig-bind _ (text_or_error_lem floats digit_value (config_get config "expected"))
          (λ t. gives _)

false-ne-true : {B : Type 0} → false ≡ true → B
false-ne-true h = cc

-- A property of both branches that are taken.
FailsByConfig-if :
    {A : Type 0} (b rest : Bool) (m n : Result A)
    → FailsByConfig m
    → (rest ≡ true → FailsByConfig n)
    → (b || rest) ≡ true
    → FailsByConfig (if b then m else n)
FailsByConfig-if true rest m n h k e = h
FailsByConfig-if false rest m n h k e = k e

module _ {F : Type 0} (floats : Floats F) (digit_value : Char → Option ℕ) where
  module _ (config : Fields F) (status_code : ℕ) (body_text : String) (body_json : Value F)
      (duration_ms : ℕ) where
    abbrev normalized : String → Result (AssertionEvaluation F)
    normalized kind =
        evaluate_normalized floats digit_value kind config status_code body_text body_json
          duration_ms

    abbrev verdict : String → Result (AssertionEvaluation F)
    verdict kind =
        evaluate_assertion floats digit_value kind config status_code body_text body_json
          duration_ms

    supported_error :
        (kind : String) → mem kind supported_types ≡ true → FailsByConfig (normalized kind)
    unfolding evaluate_normalized evaluate_response_time
    supported_error kind = FailsByConfig-if _ _ _ _ (gives _) (
        FailsByConfig-if _ _ _ _
          (path_equals_error floats digit_value config body_text body_json kind (some "$.code")
            "业务码")
          (FailsByConfig-if _ _ _ _
            (path_equals_error floats digit_value config body_text body_json kind none "JSONPath")
            (FailsByConfig-if _ _ _ _
              (exists_error floats digit_value config body_text body_json kind true)
              (FailsByConfig-if _ _ _ _
                (exists_error floats digit_value config body_text body_json kind false)
                (FailsByConfig-if _ _ _ _ (type_error floats digit_value config body_text body_json)
                  (FailsByConfig-if _ _ _ _
                    (contains_error floats digit_value config body_text body_json kind true)
                    (FailsByConfig-if _ _ _ _
                      (contains_error floats digit_value config body_text body_json kind false)
                      (FailsByConfig-if _ _ _ _
                        (range_error floats digit_value config body_text body_json)
                        (FailsByConfig-if (str_eq kind "response_time_less_than") false _ _
                          (gives _) false-ne-true)))))))))

    unsupported_error :
        (kind : String)
        → mem kind supported_types ≡ false
        → normalized kind ≡ raise "ASSERTION_TYPE_UNSUPPORTED" "断言类型不支持" 400
    unfolding evaluate_normalized
    unsupported_error kind h = ground arith

    -- An assertion type outside the ten supported ones, old names included, is refused with
    -- `ASSERTION_TYPE_UNSUPPORTED`; a supported one gives a verdict, or fails with status 400 and
    -- one of the two configuration errors.
    pub evaluate_assertion_errors :
        (kind : String)
        → ((mem (normalize_type kind) supported_types ≡ true) × FailsByConfig (verdict kind))
          ⊎ ((mem (normalize_type kind) supported_types ≡ false)
              × (verdict kind ≡ raise "ASSERTION_TYPE_UNSUPPORTED" "断言类型不支持" 400))
    unfolding evaluate_assertion
    evaluate_assertion_errors kind = elim (Bool-cases (mem (normalize_type kind) supported_types)) [
      | inl m ↦ inl (m, supported_error (normalize_type kind) m)
      | inr m ↦ inr (m, unsupported_error (normalize_type kind) m)
    ]
