-- ===== src/Assertion/Verdicts.antt =====
-- Laws of the verdicts: opposite assertions and numeric bounds.
use ai_test.Base.{
  ℕ, String, Char, ◌≡◌, ap, Bool, true, not, ◌&&◌, Option, none, some, List, [], ◌∷◌, arith, ◌↔◌,
}
use ai_test.Base.Int.{ℤ, leb_ℤ}
use ai_test.Base.Result.{Result, ok, err, ◌>>=◌, >>=-eq-ok}
use ai_test.Json.{Value, null, bool, int, float, str, list, dict, Fields, get_field}
use ai_test.Json.Equality.{Floats}
use ai_test.Assertion.{AssertionEvaluation, above, below, evaluate_range, evaluate_assertion}
use ai_test.Assertion.Path.{json_path_values}
use ai_test.Assertion.Parts.{or_null, config_get, config_path, single_or_null, is_plain_number}

module _ {F : Type 0} (floats : Floats F) (digit_value : Char → Option ℕ) where
  -- Both verdicts, of the same observation and with opposite results; or the same error.
  abbrev pub Opposite : Result (AssertionEvaluation F) → Result (AssertionEvaluation F) → Type 0
  Opposite (ok a) (ok b) = (a.actual ≡ b.actual) × (b.passed ≡ not a.passed)
  Opposite (err e) (err f) = e ≡ f
  Opposite _ _ = ⊥

  module _ (config : Fields F) (status_code : ℕ) (body_text : String) (body_json : Value F)
      (duration_ms : ℕ) where
    abbrev verdict : String → Result (AssertionEvaluation F)
    verdict kind =
        evaluate_assertion floats digit_value kind config status_code body_text body_json
          duration_ms

    Opposite-exists : Opposite (verdict "json_path_exists") (verdict "json_path_not_exists")
    unfolding evaluate_assertion
    Opposite-exists = ground arith

    Opposite-contains : Opposite (verdict "body_contains") (verdict "body_not_contains")
    unfolding evaluate_assertion
    Opposite-contains = ground arith

    -- On one response and configuration, `json_path_exists` and `json_path_not_exists` observe the
    -- same and have opposite results, or fail with the same error; so do `body_contains` and
    -- `body_not_contains`.
    pub negated_assertions :
        Opposite (verdict "json_path_exists") (verdict "json_path_not_exists")
        × Opposite (verdict "body_contains") (verdict "body_not_contains")
    negated_assertions = (Opposite-exists, Opposite-contains)

    -- A number between two integer bounds; a float is compared by the runtime.
    abbrev pub Between : ℤ → ℤ → Value F → Type 0
    Between a b (int n) = (leb_ℤ a n ≡ true) × (leb_ℤ n b ≡ true)
    Between a b (float x) = (floats.le_int_float a x ≡ true) × (floats.le_float_int x b ≡ true)
    Between a b _ = ⊥

    abbrev in_range : Value F → Value F → Value F → Bool
    in_range minimum maximum v =
        is_plain_number v
        && above floats digit_value minimum v
        && below floats digit_value maximum v

    in_range-Between : (a b : ℤ) (v : Value F) → (in_range (int a) (int b) v ≡ true) ↔ Between a b v
    unfolding above below
    in_range-Between a b null = ground arith
    in_range-Between a b (bool c) = ground arith
    in_range-Between a b (int n) = ground arith
    in_range-Between a b (float x) = ground arith
    in_range-Between a b (str t) = ground arith
    in_range-Between a b (list vs) = ground arith
    in_range-Between a b (dict fs) = ground arith

    -- The values that the configured path selects in the body.
    abbrev pub selected : Result (List (Value F))
    selected = do path ← config_path config none; json_path_values digit_value body_json path

    passed-range :
        (minimum maximum : Value F) {e : AssertionEvaluation F}
        → config_get config "min" ≡ minimum
        → config_get config "max" ≡ maximum
        → evaluate_range floats digit_value config body_json ≡ ok e
        → (values : List (Value F)) × (selected ≡ ok values)
          × (e.passed ≡ in_range minimum maximum (single_or_null values))
    unfolding evaluate_range
    passed-range minimum maximum lo hi h =
        let (path, p, h1) = >>=-eq-ok (config_path config none) _ h in
        let (values, q, h2) = >>=-eq-ok (json_path_values digit_value body_json path) _ h1 in
        (values, rw p q, ground (arith, h2))

    -- Exactly one value, which lies between the bounds.
    abbrev pub OneBetween : ℤ → ℤ → Result (List (Value F)) → Type 0
    OneBetween a b (ok (v ∷ [])) = Between a b v
    OneBetween a b _ = ⊥

    in_range-OneBetween :
        (a b : ℤ) (values : List (Value F))
        → (in_range (int a) (int b) (single_or_null values) ≡ true) ↔ OneBetween a b (ok values)
    in_range-OneBetween a b [] = in_range-Between a b null
    in_range-OneBetween a b (v ∷ []) = in_range-Between a b v
    in_range-OneBetween a b (v ∷ w ∷ rest) = in_range-Between a b null

    -- With integer bounds in the configuration, an evaluated `number_range` passes exactly if the path
    -- selects exactly one value and this is a number that lies between them; no Boolean passes.
    pub number_range_bounds :
        (a b : ℤ) {e : AssertionEvaluation F}
        → get_field config "min" ≡ some (int a)
        → get_field config "max" ≡ some (int b)
        → verdict "number_range" ≡ ok e
        → (e.passed ≡ true) ↔ OneBetween a b selected
    unfolding evaluate_assertion
    number_range_bounds a b {e} lo hi h =
        let (values, s, p) = passed-range (int a) (int b) (ap or_null lo) (ap or_null hi) h in
        rw (p, s) (in_range-OneBetween a b values)
