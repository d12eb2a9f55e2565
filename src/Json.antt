-- ===== src/Json.antt =====
-- `JsonValue` of backend/app/modules/executions/variables.py: what `json.loads` and the JSONB columns
-- hold. Floating-point numbers are a parameter `F` of the type.
pub mod Equality
use ai_test.Base.{String, Bool, Option, none, some, List, [], ◌∷◌, ◌≡◌, refl, ap}
use ai_test.Base.Int.{ℤ}
use ai_test.Base.Dict
use ai_test.Base.Dict.{Dict}

mutual
  pub data Value (F : Type 0) : Type 0 where
    null : Value F
    bool : Bool → Value F
    int : ℤ → Value F
    float : F → Value F
    str : String → Value F
    list : Items F → Value F
    dict : Fields F → Value F

  pub data Items (F : Type 0) : Type 0 where
    nil : Items F
    cons : Value F → Items F → Items F

  pub data Fields (F : Type 0) : Type 0 where
    end : Fields F
    field : String → Value F → Fields F → Fields F

module _ {F : Type 0} where
  abbrev pub to_list : Items F → List (Value F)
  to_list nil = []
  to_list (cons v vs) = v ∷ to_list vs

  abbrev pub of_list : List (Value F) → Items F
  of_list [] = nil
  of_list (v ∷ vs) = cons v (of_list vs)

  abbrev pub entries : Fields F → Dict (Value F)
  entries end = []
  entries (field k v fs) = (k, v) ∷ entries fs

  abbrev pub of_entries : Dict (Value F) → Fields F
  of_entries [] = end
  of_entries ((k, v) ∷ d) = field k v (of_entries d)

  -- `value.get(key)` on a JSON object.
  abbrev pub get_field : Fields F → String → Option (Value F)
  get_field fs k = Dict.get (entries fs) k

  pub to_list-of_list : (vs : List (Value F)) → to_list (of_list vs) ≡ vs
  to_list-of_list [] = refl
  to_list-of_list (v ∷ vs) = ap (λ r. v ∷ r) (to_list-of_list vs)

  pub entries-of_entries : (d : Dict (Value F)) → entries (of_entries d) ≡ d
  entries-of_entries [] = refl
  entries-of_entries ((k, v) ∷ d) = ap (λ r. (k, v) ∷ r) (entries-of_entries d)
