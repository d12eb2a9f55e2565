-- ===== src/Tests/Templates.antt =====
-- Templates, assertions and redaction on small values.
use ai_test.Base.{String, ◌≡◌, refl, none, all, any, [], ◌∷◌}
use ai_test.Base.Dict
use ai_test.Base.Dict.{Dict, mem}
use ai_test.Base.Result.{is_ok}
use ai_test.Json.{str, dict, end, field, list, cons, nil}
use ai_test.Redaction.{redact_value, is_sensitive_key}
use ai_test.Redaction.Values.{
  redact_value-SameOutside, redact_value_idem, SameOutside, SameFields, IsMasked,
}
use ai_test.Template.{
  scan, Namespaces, match_variable, find_variable, resolve_template, find_runtime_variables,
}
use ai_test.Template.Resolve.{is_ok-resolve_template, template_variables, is_bound}
use ai_test.Template.Resolve.Uses.{resolve_template-agree}
use ai_test.Template.Resolve.RunVariables.{find_runtime_variables-occurs, is_runtime}
use ai_test.Base.Text
use ai_test.Tests.{J, same_text}

abbrev login : String → J
login secret = dict (field "user" (str "ann") (field "password" (str secret) end))

redact_value-SameOutside_example :
    redact_value same_text (login "one") none ≡ redact_value same_text (login "two") none
unfolding redact_value is_sensitive_key
redact_value-SameOutside_example =
    redact_value-SameOutside same_text (login "one") (login "two") none (
      SameOutside.same_dict (
        SameFields.same_field "user" (SameOutside.same_str "ann")
          (SameFields.secret_field "password" (str "one") (str "two") refl SameFields.same_end)))

redact_value_idem_example :
    IsMasked same_text (redact_value same_text (login "one") none)
    × (redact_value same_text (redact_value same_text (login "one") none) none
        ≡ redact_value same_text (login "one") none)
redact_value_idem_example = redact_value_idem same_text (login "one") none

abbrev namespaces : J → Namespaces ⊥
namespaces user = ("env", []) ∷ ("secret", []) ∷ ("runtime", ("user", user) ∷ []) ∷ []

abbrev template : J
template = dict (field "body" (list (cons (str "id={{runtime.user}}") nil)) end)

abbrev no_repr : J → String
no_repr v = ""

is_ok-resolve_template_example :
    is_ok (resolve_template no_repr (namespaces (str "ann")) template)
    ≡ all (is_bound (namespaces (str "ann"))) (template_variables template)
is_ok-resolve_template_example = is_ok-resolve_template no_repr (namespaces (str "ann")) template

resolve_template-agree_example :
    resolve_template no_repr (namespaces (str "ann")) template
    ≡ resolve_template no_repr (("other", []) ∷ namespaces (str "ann")) template
unfolding template_variables find_variable scan match_variable Text.length Dict.get
resolve_template-agree_example =
    resolve_template-agree no_repr (namespaces (str "ann")) (("other", []) ∷ namespaces (str "ann"))
      template (refl, tt)

find_runtime_variables-occurs_example :
    mem "user" (find_runtime_variables template)
    ≡ any (is_runtime "user") (template_variables template)
find_runtime_variables-occurs_example = find_runtime_variables-occurs "user" template
