-- ===== src/Json/Equality.antt =====
-- Python's `==` on JSON values, and its order on numbers: `True == 1 == 1.0`, and the order of the
-- entries of a dict does not matter. Comparisons that involve a float are a parameter.
use ai_test.Base.{Bool, true, false, ◌&&◌, Option, none, some, ◌==◌, str_eq, if◌then◌else◌, length}
use ai_test.Base.Int.{ℤ, pos, eqb_ℤ, leb_ℤ}
use ai_test.Json.{
  Value, null, bool, int, float, str, list, dict, Items, nil, cons, Fields, end, field, entries,
  get_field,
}

-- The numbers that Python compares with one another.
pub data Number (F : Type 0) : Type 0 where
  whole : ℤ → Number F
  real : F → Number F

-- Comparisons of the Python runtime where one side is a float.
pub record Floats (F : Type 0) : Type 0 where
  pub eq_float : F → F → Bool
  pub eq_int : F → ℤ → Bool
  pub le_float : F → F → Bool
  pub le_int_float : ℤ → F → Bool
  pub le_float_int : F → ℤ → Bool

-- The number as which Python compares a value; a `bool` is an `int`.
abbrev pub number? : {F : Type 0} → Value F → Option (Number F)
number? (bool true) = some (whole (pos 1))
number? (bool false) = some (whole (pos 0))
number? (int n) = some (whole n)
number? (float x) = some (real x)
number? _ = none

module _ {F : Type 0} (floats : Floats F) where
  abbrev pub number_eq : Number F → Number F → Bool
  number_eq (whole a) (whole b) = eqb_ℤ a b
  number_eq (whole a) (real y) = floats.eq_int y a
  number_eq (real x) (whole b) = floats.eq_int x b
  number_eq (real x) (real y) = floats.eq_float x y

  abbrev pub number_le : Number F → Number F → Bool
  number_le (whole a) (whole b) = leb_ℤ a b
  number_le (whole a) (real y) = floats.le_int_float a y
  number_le (real x) (whole b) = floats.le_float_int x b
  number_le (real x) (real y) = floats.le_float x y

  abbrev eq_number : Number F → Option (Number F) → Bool
  eq_number m none = false
  eq_number m (some n) = number_eq m n

  -- `a == b`, by recursion on `a`.
  unfoldable mutual
    pub py_eq : Value F → Value F → Bool
    py_eq null null = true
    py_eq null w = false
    py_eq (bool b) w = eq_number (if b then whole (pos 1) else whole (pos 0)) (number? w)
    py_eq (int n) w = eq_number (whole n) (number? w)
    py_eq (float x) w = eq_number (real x) (number? w)
    py_eq (str s) (str t) = str_eq s t
    py_eq (str s) w = false
    py_eq (list vs) (list ws) = py_eq_items vs ws
    py_eq (list vs) w = false
    py_eq (dict fs) (dict gs) = length (entries fs) == length (entries gs) && py_eq_fields fs gs
    py_eq (dict fs) w = false

    pub py_eq_items : Items F → Items F → Bool
    py_eq_items nil nil = true
    py_eq_items nil (cons w ws) = false
    py_eq_items (cons v vs) nil = false
    py_eq_items (cons v vs) (cons w ws) = py_eq v w && py_eq_items vs ws

    -- Every entry of the left dict is in the right one, with an equal value.
    pub py_eq_fields : Fields F → Fields F → Bool
    py_eq_fields end gs = true
    py_eq_fields (field k v fs) gs = elim (get_field gs k) [
      | none ↦ false
      | some w ↦ py_eq v w && py_eq_fields fs gs
    ]
