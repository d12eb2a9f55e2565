-- ===== src/Template/Resolve/RunVariables.antt =====
-- The run variables that `find_runtime_variables` reports.
use ai_test.Base.{
  zero, any, str_eq, Bool, ◌&&◌, String, ◌≡◌, refl, ◌||◌, List, [], ◌∷◌, ◌++◌, arith,
}
use ai_test.Base.Dict.{mem}
use ai_test.Json.{
  Value, null, bool, int, float, str, list, dict, Items, nil, cons, Fields, end, field,
}
use ai_test.Template.{
  Variable, Segment, literal, variable, scan, runtime_keys, find_runtime_variables, find_in_items,
  find_in_fields,
}
use ai_test.Template.Resolve.{
  variables_in, template_variables, variables_in_items, variables_in_fields,
}

module _ (k : String) where
  mem-append : (xs ys : List String) → mem k (xs ++ ys) ≡ (mem k xs || mem k ys)
  mem-append [] ys = refl
  mem-append (x ∷ xs) ys = ground (arith, mem-append xs ys)

-- The run variable of a name.
abbrev pub is_runtime : String → Variable → Bool
is_runtime k v = str_eq v.namespace "runtime" && str_eq k v.key

any-append :
    (p : Variable → Bool) (xs ys : List Variable) → any p (xs ++ ys) ≡ (any p xs || any p ys)
any-append p [] ys = refl
any-append p (x ∷ xs) ys = ground (arith, any-append p xs ys)

module _ (k : String) where
  runtime_keys-occurs :
      (segments : List Segment)
      → mem k (runtime_keys segments) ≡ any (is_runtime k) (variables_in segments)
  runtime_keys-occurs [] = refl
  runtime_keys-occurs (literal c ∷ rest) = runtime_keys-occurs rest
  runtime_keys-occurs (variable v ∷ rest) = ground (arith, runtime_keys-occurs rest)

module _ {F : Type 0} (k : String) where
  mutual
    unfolding find_runtime_variables template_variables

    found-occurs :
        (x : Value F) → mem k (find_runtime_variables x) ≡ any (is_runtime k) (template_variables x)
    found-occurs (dict fs) = found_in_fields-occurs fs
    found-occurs (list vs) = found_in_items-occurs vs
    found-occurs (str s) = runtime_keys-occurs k (scan zero s)
    found-occurs null = refl
    found-occurs (bool b) = refl
    found-occurs (int n) = refl
    found-occurs (float x) = refl

    found_in_items-occurs :
        (vs : Items F) → mem k (find_in_items vs) ≡ any (is_runtime k) (variables_in_items vs)
    found_in_items-occurs nil = refl
    found_in_items-occurs (cons v vs) = ground (
      arith,
      any-append (is_runtime k) (template_variables v) (variables_in_items vs),
      mem-append k (find_runtime_variables v) (find_in_items vs),
      found-occurs v,
      found_in_items-occurs vs,
    )

    found_in_fields-occurs :
        (fs : Fields F) → mem k (find_in_fields fs) ≡ any (is_runtime k) (variables_in_fields fs)
    found_in_fields-occurs end = refl
    found_in_fields-occurs (field j v fs) = ground (
      arith,
      any-append (is_runtime k) (template_variables v) (variables_in_fields fs),
      mem-append k (find_runtime_variables v) (find_in_fields fs),
      found-occurs v,
      found_in_fields-occurs fs,
    )

  -- A name is reported by `find_runtime_variables` exactly if the variable of the namespace `runtime`
  -- with this name occurs in the template, at any depth.
  pub find_runtime_variables-occurs :
      (x : Value F) → mem k (find_runtime_variables x) ≡ any (is_runtime k) (template_variables x)
  find_runtime_variables-occurs x = found-occurs x
