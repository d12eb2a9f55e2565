-- ===== src/Template/Resolve/Errors.antt =====
-- The errors of a template's replacement.
use ai_test.Base.{
  zero, String, ◌≡◌, refl, Option, none, some, List, [], ◌∷◌, inl, inr, Option-cases,
}
use ai_test.Base.Result.{Result, ok, err, ◌>>=◌}
use ai_test.Json.{
  Value, null, bool, int, float, str, list, dict, Items, nil, cons, Fields, end, field,
}
use ai_test.Template.{
  Variable, Segment, literal, variable, scan, full_match, Namespaces, get_variable, present,
  find_variable, substitute, resolve_text, resolve_template, resolve_items, resolve_fields,
}

-- Every error of the replacement is the missing variable.
abbrev pub IsMissingVariable {ℓ} : {A : Type ℓ} → Result A → Type 0
IsMissingVariable (ok a) = Unit
IsMissingVariable (err e) = (e.code ≡ "EXECUTION_VARIABLE_MISSING") × (e.status_code ≡ 400)

IsMissingVariable-bind :
    {A B : Type 0} (m : Result A) (f : A → Result B)
    → IsMissingVariable m
    → ((a : A) → IsMissingVariable (f a))
    → IsMissingVariable (m >>= f)
IsMissingVariable-bind (ok a) f h g = g a
IsMissingVariable-bind (err e) f h g = h

module _ {F : Type 0} (repr : Value F → String) (ns : Namespaces F) where
  present_error : (v : Variable) (o : Option (Value F)) → IsMissingVariable (present v o)
  present_error v none = (refl, refl)
  present_error v (some null) = (refl, refl)
  present_error v (some _) = tt

  get_variable_error : (v : Variable) → IsMissingVariable (get_variable ns v)
  unfolding get_variable
  get_variable_error v = present_error v (find_variable ns v)

  substitute_error : (segments : List Segment) → IsMissingVariable (substitute repr ns segments)
  unfolding substitute
  substitute_error [] = tt
  substitute_error (literal c ∷ rest) =
      IsMissingVariable-bind (substitute repr ns rest) _ (substitute_error rest) (λ t. tt)
  substitute_error (variable v ∷ rest) =
      IsMissingVariable-bind (get_variable ns v) _ (get_variable_error v)
        λ w. IsMissingVariable-bind (substitute repr ns rest) _ (substitute_error rest) (λ t. tt)

  resolve_text_error : (s : String) → IsMissingVariable (resolve_text repr ns s)
  unfolding resolve_text
  resolve_text_error s = elim (Option-cases (full_match s)) [
    | inl e ↦
        rw (e, resolve_text)
          (IsMissingVariable-bind (substitute repr ns (scan zero s)) _
            (substitute_error (scan zero s)) (λ t. tt))
    | inr (v, e) ↦ rw (e, resolve_text) (get_variable_error v)
  ]

  mutual
    unfolding resolve_template

    template_error : (x : Value F) → IsMissingVariable (resolve_template repr ns x)
    template_error (dict fs) =
        IsMissingVariable-bind (resolve_fields repr ns fs) _ (fields_error fs) (λ gs. tt)
    template_error (list vs) =
        IsMissingVariable-bind (resolve_items repr ns vs) _ (items_error vs) (λ ws. tt)
    template_error (str s) = resolve_text_error s
    template_error null = tt
    template_error (bool b) = tt
    template_error (int n) = tt
    template_error (float x) = tt

    items_error : (vs : Items F) → IsMissingVariable (resolve_items repr ns vs)
    items_error nil = tt
    items_error (cons v vs) =
        IsMissingVariable-bind (resolve_template repr ns v) _ (template_error v)
          λ w. IsMissingVariable-bind (resolve_items repr ns vs) _ (items_error vs) (λ ws. tt)

    fields_error : (fs : Fields F) → IsMissingVariable (resolve_fields repr ns fs)
    fields_error end = tt
    fields_error (field k v fs) =
        IsMissingVariable-bind (resolve_template repr ns v) _ (template_error v)
          λ w. IsMissingVariable-bind (resolve_fields repr ns fs) _ (fields_error fs) (λ gs. tt)

  -- A template that does not resolve fails with `EXECUTION_VARIABLE_MISSING`, status 400, and with
  -- no other error.
  pub resolve_template_error : (x : Value F) → IsMissingVariable (resolve_template repr ns x)
  resolve_template_error x = template_error x
