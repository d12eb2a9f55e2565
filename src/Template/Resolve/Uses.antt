-- ===== src/Template/Resolve/Uses.antt =====
-- Which values a template's replacement depends on.
use ai_test.Base.{zero, String, ◌≡◌, refl, List, [], ◌∷◌, ◌++◌, All, inl, inr, Option-cases}
use ai_test.Json.{
  Value, null, bool, int, float, str, list, dict, Items, nil, cons, Fields, end, field,
}
use ai_test.Template.{
  Variable, Segment, literal, variable, scan, full_match, Namespaces, get_variable, find_variable,
  substitute, resolve_text, resolve_template, resolve_items, resolve_fields,
}
use ai_test.Template.Scan.{scan-full_match}
use ai_test.Template.Resolve.{
  variables_in, template_variables, variables_in_items, variables_in_fields,
}

module _ {A : Type 0} (P : A → Type 0) where
  All-left : (xs ys : List A) → All P (xs ++ ys) → All P xs
  All-left [] ys h = tt
  All-left (x ∷ xs) ys h = (h.0, All-left xs ys h.1)

  All-right : (xs ys : List A) → All P (xs ++ ys) → All P ys
  All-right [] ys h = h
  All-right (x ∷ xs) ys h = All-right xs ys h.1

module _ {F : Type 0} (repr : Value F → String) (ns ns' : Namespaces F) where
  abbrev pub Agrees : Variable → Type 0
  Agrees v = find_variable ns v ≡ find_variable ns' v

  substitute-agree :
      (segments : List Segment)
      → All Agrees (variables_in segments)
      → substitute repr ns segments ≡ substitute repr ns' segments
  unfolding substitute get_variable
  substitute-agree [] h = refl
  substitute-agree (literal c ∷ rest) h = rw (substitute-agree rest h) refl
  substitute-agree (variable v ∷ rest) h = rw (h.0, substitute-agree rest h.1) refl

  resolve_text-agree :
      (s : String)
      → All Agrees (variables_in (scan zero s))
      → resolve_text repr ns s ≡ resolve_text repr ns' s
  unfolding resolve_text get_variable
  resolve_text-agree s h = elim (Option-cases (full_match s)) [
    | inl e ↦ rw (e, resolve_text, substitute-agree (scan zero s) h) refl
    | inr (v, e) ↦
        let h' : All Agrees (variables_in (variable v ∷ [])) = rw (scan-full_match s v e) at h in
        rw (e, resolve_text, h'.0) refl
  ]

  mutual
    unfolding resolve_template template_variables

    resolve-agree :
        (x : Value F)
        → All Agrees (template_variables x)
        → resolve_template repr ns x ≡ resolve_template repr ns' x
    resolve-agree (dict fs) h = rw (fields-agree fs h) refl
    resolve-agree (list vs) h = rw (items-agree vs h) refl
    resolve-agree (str s) h = resolve_text-agree s h
    resolve-agree null h = refl
    resolve-agree (bool b) h = refl
    resolve-agree (int n) h = refl
    resolve-agree (float x) h = refl

    items-agree :
        (vs : Items F)
        → All Agrees (variables_in_items vs)
        → resolve_items repr ns vs ≡ resolve_items repr ns' vs
    items-agree nil h = refl
    items-agree (cons v vs) h =
        rw
          (
            resolve-agree v (All-left Agrees (template_variables v) (variables_in_items vs) h),
            items-agree vs (All-right Agrees (template_variables v) (variables_in_items vs) h),
          )
          refl

    fields-agree :
        (fs : Fields F)
        → All Agrees (variables_in_fields fs)
        → resolve_fields repr ns fs ≡ resolve_fields repr ns' fs
    fields-agree end h = refl
    fields-agree (field k v fs) h =
        rw
          (
            resolve-agree v (All-left Agrees (template_variables v) (variables_in_fields fs) h),
            fields-agree fs (All-right Agrees (template_variables v) (variables_in_fields fs) h),
          )
          refl

  -- Namespaces that have the same values for the variables of a template resolve it alike, to the
  -- same request or to the same error.
  pub resolve_template-agree :
      (x : Value F)
      → All Agrees (template_variables x)
      → resolve_template repr ns x ≡ resolve_template repr ns' x
  resolve_template-agree x h = resolve-agree x h
