-- ===== src/Assertion/Path/Steps.antt =====
-- What a path selects: parts of the document, and nothing else.
use ai_test.Base.{
  ℕ, zero, suc, String, Char, ◌≡◌, refl, Option, none, some, List, [], ◌∷◌, All, All-map,
  All-concat_map, concat_map, get_elem?, inl, inr, Option-cases, Bool-cases, ◌==◌, code, ◌-◌,
}
use ai_test.Base.Text
use ai_test.Base.Result.{Result, ok, err}
use ai_test.Json.{Value, list, dict, Items, Fields, to_list, get_field}
use ai_test.Assertion.Path.{
  Token, key, index, wildcard, optional, match_token, select, walk, json_path_values, is_null,
}

-- `v` stands in the document, at some depth.
pub data Within {F : Type 0} : Value F → Value F → Type 0 where
  here : (v : Value F) → Within v v
  in_field :
      {fs : Fields F} {v : Value F} (k : String) (w : Value F)
      → get_field fs k ≡ some w
      → Within w v
      → Within (dict fs) v
  in_item :
      {vs : Items F} {v : Value F} (i : ℕ) (w : Value F)
      → get_elem? (to_list vs) i ≡ some w
      → Within w v
      → Within (list vs) v

module _ {A : Type 0} where
  elements : (xs : List A) → All (λ a. (i : ℕ) × (get_elem? xs i ≡ some a)) xs
  elements [] = tt
  elements (x ∷ xs) = ((0, refl), All-map (λ a (i, e). (suc i, e)) xs (elements xs))

module _ {F : Type 0} where
  Within-trans : {u v w : Value F} → Within u v → Within v w → Within u w
  Within-trans (here v) k = k
  Within-trans (in_field j x e h) k = in_field j x e (Within-trans h k)
  Within-trans (in_item i x e h) k = in_item i x e (Within-trans h k)

  optional-All :
      (P : Value F → Type 0) (o : Option (Value F))
      → ((w : Value F) → o ≡ some w → P w)
      → All P (optional o)
  optional-All P none f = tt
  optional-All P (some w) f = (f w refl, tt)

module _ {F : Type 0} (digit_value : Char → Option ℕ) where
  select-Within : (t : Token) (v : Value F) → All (Within v) (select digit_value t v)
  unfolding select
  select-Within (key k) (dict fs) =
      optional-All (Within (dict fs)) (get_field fs k) λ w e. in_field k w e (here w)
  select-Within (index i) (list vs) =
      optional-All (Within (list vs)) (get_elem? (to_list vs) i) λ w e. in_item i w e (here w)
  select-Within wildcard (list vs) =
      All-map (λ w (i, e). in_item i w e (here w)) (to_list vs) (elements (to_list vs))
  select-Within _ _ = tt

  -- Each result of the loop lies within the document, if the values that it starts from do.
  abbrev pub Selected : Value F → Result (List (Value F)) → Type 0
  Selected doc (ok vs) = All (Within doc) vs
  Selected doc (err e) = Unit

  walk-Within :
      (doc : Value F) (skip : ℕ) (current : List (Value F)) (path : String)
      → All (Within doc) current
      → Selected doc (walk digit_value skip current path)
  unfolding walk
  walk-Within doc skip current String.[] h = h
  walk-Within doc (suc skip) current (String.◌∷◌ c s) h = walk-Within doc skip current s h
  walk-Within doc zero current (String.◌∷◌ c s) h =
      elim (Option-cases (match_token digit_value (String.◌∷◌ c s))) [
        | inl e ↦ rw (e, walk) tt
        | inr (m, e) ↦
            rw (e, walk)
              (walk-Within doc (Text.length s - Text.length m.1)
                (concat_map (select digit_value m.0) current) s
                (All-concat_map (Within doc) (select digit_value m.0)
                  (λ v d. All-map (λ w k. Within-trans d k) _ (select-Within m.0 v)) current h))
      ]

  -- Whatever the path, each value that `_json_path_values` returns stands in the response document.
  pub json_path_values-Within :
      (doc : Value F) (path : String) → Selected doc (json_path_values digit_value doc path)
  unfolding json_path_values
  json_path_values-Within doc String.[] = tt
  json_path_values-Within doc (String.◌∷◌ c s) = elim (Bool-cases (is_null doc)) [
    | inl e ↦ rw e tt
    | inr e ↦ elim (Bool-cases (code c == b'$')) [
      | inl d ↦ rw (e, d) (walk-Within doc zero (doc ∷ []) s (here doc, tt))
      | inr d ↦ rw (e, d) tt
    ]
  ]
