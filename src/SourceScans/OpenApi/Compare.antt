-- ===== src/SourceScans/OpenApi/Compare.antt =====
-- `compare_request_definitions` of backend/app/modules/source_scans/openapi_parser.py.
use ai_test.Base.{
  String, code, Bool, true, false, not, ◌&&◌, ◌||◌, Option, none, some, List, [], ◌∷◌, ◌++◌, any,
  all, ltb, ◌==◌, str_eq, if◌then◌else◌,
}
use ai_test.Base.Outcome.{done, failed}
use ai_test.Json.{Value, bool, str, list, dict, Fields, end, field, to_list, of_list}
use ai_test.Runtime.{Runtime}
use ai_test.Template.{as_text}
use ai_test.SourceScans.OpenApi.{Scanning, unexpected, get_value, or_else, truthy}

-- `s <= t` for texts: by their code points
unfoldable pub text_leb : String → String → Bool
text_leb String.[] t = true
text_leb (String.◌∷◌ c s) String.[] = false
text_leb (String.◌∷◌ c s) (String.◌∷◌ d t) =
    let rest = text_leb s t in ltb (code c) (code d) || (code c == code d && rest)

abbrev Binding : Type 0
Binding = String × String

abbrev same_binding : Binding → Binding → Bool
same_binding a b = str_eq a.0 b.0 && str_eq a.1 b.1

abbrev binding_leb : Binding → Binding → Bool
binding_leb a b = if str_eq a.0 b.0 then text_leb a.1 b.1 else text_leb a.0 b.0

abbrev has_binding : Binding → List Binding → Bool
has_binding b bs = any (λ c. same_binding c b) bs

-- Into a sorted list, unless it is there.
unfoldable pub insert_binding : Binding → List Binding → List Binding
unfolding text_leb
insert_binding b [] = b ∷ []
insert_binding b (c ∷ bs) =
    let rest = insert_binding b bs in
    if same_binding b c then c ∷ bs else if binding_leb b c then b ∷ c ∷ bs else c ∷ rest

abbrev is_any_binding : List Binding → Bool
is_any_binding [] = false
is_any_binding (b ∷ bs) = true

abbrev pub same_bindings : List Binding → List Binding → Bool
same_bindings xs ys = all (λ b. has_binding b ys) xs && all (λ b. has_binding b xs) ys

module _ {F : Type 0} (py : Runtime F) where
  abbrev pub source_binding : Fields F → Binding
  source_binding p = (
    as_text py.repr (get_value p "source"),
    as_text py.repr (or_else py (get_value p "bindingName") (get_value p "name")),
  )

  abbrev pub openapi_binding : Fields F → Binding
  openapi_binding p = (as_text py.repr (get_value p "in"), as_text py.repr (get_value p "name"))

  -- A set of bindings, as its sorted members.
  unfoldable pub binding_set : (Fields F → Binding) → List (Value F) → List Binding
  unfolding insert_binding
  binding_set binding [] = []
  binding_set binding (dict p ∷ rest) = insert_binding (binding p) (binding_set binding rest)
  binding_set binding (v ∷ rest) = binding_set binding rest

  abbrev pub bindings_of : (Fields F → Binding) → Value F → List Binding
  bindings_of binding (list vs) = binding_set binding (to_list vs)
  bindings_of binding v = []

  abbrev binding_values : List Binding → List (Value F)
  binding_values [] = []
  binding_values ((a, b) ∷ bs) = list (of_list (str a ∷ str b ∷ [])) ∷ binding_values bs

  abbrev conflict : String → Value F → Value F → Fields F
  conflict name source openapi =
      field "field" (str name) (field "source" source (field "openapi" openapi end))

  unfoldable pub conflicts_of : List Binding → List Binding → Bool → List (Fields F)
  conflicts_of source openapi openapi_has_body =
      let source_has_body = any (λ b. str_eq b.0 "body") source in
      (if is_any_binding source && (is_any_binding openapi && not (same_bindings source openapi))
        then conflict "parameters" (list (of_list (binding_values source)))
            (list (of_list (binding_values openapi)))
          ∷ []
        else [])
      ++ (if (source_has_body && openapi_has_body) || (not source_has_body && not openapi_has_body)
          then []
          else conflict "requestBody" (bool source_has_body) (bool openapi_has_body) ∷ [])

  -- A definition that is `None` has no `get`.
  unfoldable pub compare_request_definitions :
      Option (Fields F) → Fields F → Scanning (List (Fields F))
  unfolding binding_set conflicts_of truthy
  compare_request_definitions none openapi = failed unexpected
  compare_request_definitions (some source) openapi = done (
      conflicts_of (bindings_of source_binding (get_value source "parameters"))
        (bindings_of openapi_binding (get_value openapi "parameters"))
        (truthy py (get_value openapi "requestBody")))
