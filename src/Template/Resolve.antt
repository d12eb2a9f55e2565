-- ===== src/Template/Resolve.antt =====
-- What the replacement of variables needs, and what it does not depend on.
pub mod Uses
pub mod Errors
pub mod RunVariables
use ai_test.Base.{
  zero, String, ◌≡◌, refl, ◌∙◌, ap, Bool, true, false, ◌&&◌, Option, none, some, List, [], ◌∷◌,
  ◌++◌, all, arith, inl, inr, Option-cases,
}
use ai_test.Base.Dict
use ai_test.Base.Dict.{Dict}
use ai_test.Base.Result.{AppError, Result, ok, err, is_ok, ◌>>=◌}
use ai_test.Json.{
  Value, null, bool, int, float, str, list, dict, Items, nil, cons, Fields, end, field,
}
use ai_test.Template.{
  Variable, Segment, literal, variable, scan, full_match, Namespaces, get_variable, present,
  find_variable, substitute, as_text, resolve_text, resolve_template, resolve_items, resolve_fields,
}
use ai_test.Template.Scan.{scan-full_match}

abbrev pub variables_in : List Segment → List Variable
variables_in [] = []
variables_in (literal c ∷ rest) = variables_in rest
variables_in (variable v ∷ rest) = v ∷ variables_in rest

-- Every variable that occurs in a template, in the order of its texts.
unfoldable mutual
  pub template_variables : {F : Type 0} → Value F → List Variable
  template_variables (dict fs) = variables_in_fields fs
  template_variables (list vs) = variables_in_items vs
  template_variables (str s) = variables_in (scan zero s)
  template_variables null = []
  template_variables (bool b) = []
  template_variables (int n) = []
  template_variables (float x) = []

  pub variables_in_items : {F : Type 0} → Items F → List Variable
  variables_in_items nil = []
  variables_in_items (cons v vs) = template_variables v ++ variables_in_items vs

  pub variables_in_fields : {F : Type 0} → Fields F → List Variable
  variables_in_fields end = []
  variables_in_fields (field k v fs) = template_variables v ++ variables_in_fields fs

pub all-append :
    {A : Type 0} (p : A → Bool) (xs ys : List A) → all p (xs ++ ys) ≡ (all p xs && all p ys)
all-append p [] ys = refl
all-append p (x ∷ xs) ys = ground (arith, all-append p xs ys)

module _ {F : Type 0} (ns : Namespaces F) where
  abbrev pub not_null : Option (Value F) → Bool
  not_null none = false
  not_null (some null) = false
  not_null (some w) = true

  -- The variable has a value in its namespace that is not null.
  abbrev pub is_bound : Variable → Bool
  is_bound v = elim (Dict.get ns v.namespace) [
    | none ↦ false
    | some values ↦ not_null (Dict.get values v.key)
  ]

  is_ok-present : (v : Variable) (o : Option (Value F)) → is_ok (present v o) ≡ not_null o
  is_ok-present v none = refl
  is_ok-present v (some null) = refl
  is_ok-present v (some (bool b)) = refl
  is_ok-present v (some (int n)) = refl
  is_ok-present v (some (float x)) = refl
  is_ok-present v (some (str s)) = refl
  is_ok-present v (some (list vs)) = refl
  is_ok-present v (some (dict fs)) = refl

  is_ok-get_variable : (v : Variable) → is_ok (get_variable ns v) ≡ is_bound v
  unfolding get_variable find_variable
  is_ok-get_variable v = in_namespace (Dict.get ns v.namespace)
    where
      in_namespace :
          (o : Option (Dict (Value F)))
          → is_ok (
              present v (elim o as (λ _. Option (Value F)) [
                | none ↦ none
                | some values ↦ Dict.get values v.key
              ]))
            ≡ (elim o as (λ _. Bool) [
              | none ↦ false
              | some values ↦ not_null (Dict.get values v.key)
            ])
      in_namespace none = refl
      in_namespace (some values) = is_ok-present v (Dict.get values v.key)

module _ {F : Type 0} (repr : Value F → String) (ns : Namespaces F) where
  is_ok-substitute :
      (segments : List Segment)
      → is_ok (substitute repr ns segments) ≡ all (is_bound ns) (variables_in segments)
  unfolding substitute
  is_ok-substitute [] = refl
  is_ok-substitute (literal c ∷ rest) = ground (arith, is_ok-substitute rest)
  is_ok-substitute (variable v ∷ rest) =
      ground (arith, is_ok-get_variable ns v, is_ok-substitute rest)

  is_ok-resolve_text :
      (s : String) → is_ok (resolve_text repr ns s) ≡ all (is_bound ns) (variables_in (scan zero s))
  unfolding resolve_text
  is_ok-resolve_text s = elim (Option-cases (full_match s)) [
    | inl e ↦ ground (arith, is_ok-substitute (scan zero s))
    | inr (v, e) ↦ ground (arith, scan-full_match s v, is_ok-get_variable ns v)
  ]

  mutual
    unfolding resolve_template template_variables

    resolved_if_bound :
        (x : Value F)
        → is_ok (resolve_template repr ns x) ≡ all (is_bound ns) (template_variables x)
    resolved_if_bound (dict fs) = ground (arith, fields_if_bound fs)
    resolved_if_bound (list vs) = ground (arith, items_if_bound vs)
    resolved_if_bound (str s) = is_ok-resolve_text s
    resolved_if_bound null = refl
    resolved_if_bound (bool b) = refl
    resolved_if_bound (int n) = refl
    resolved_if_bound (float x) = refl

    items_if_bound :
        (vs : Items F)
        → is_ok (resolve_items repr ns vs) ≡ all (is_bound ns) (variables_in_items vs)
    items_if_bound nil = refl
    items_if_bound (cons v vs) = ground (
      arith,
      resolved_if_bound v,
      items_if_bound vs,
      all-append (is_bound ns) (template_variables v) (variables_in_items vs),
    )

    fields_if_bound :
        (fs : Fields F)
        → is_ok (resolve_fields repr ns fs) ≡ all (is_bound ns) (variables_in_fields fs)
    fields_if_bound end = refl
    fields_if_bound (field k v fs) = ground (
      arith,
      resolved_if_bound v,
      fields_if_bound fs,
      all-append (is_bound ns) (template_variables v) (variables_in_fields fs),
    )

  -- A template resolves exactly if each variable that occurs in it, at any depth, has a value in its
  -- namespace that is not null.
  pub is_ok-resolve_template :
      (x : Value F) → is_ok (resolve_template repr ns x) ≡ all (is_bound ns) (template_variables x)
  is_ok-resolve_template x = resolved_if_bound x
