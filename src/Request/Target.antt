-- ===== src/Request/Target.antt =====
-- Where a built request goes: to the environment's own scheme, host and port.
use ai_test.Base.{
  ℕ, String, ◌≡◌, refl, subst, Bool, true, false, ◌||◌, not, Option, none, some, arith, eq_iff,
  str_eq, is_some,
}
use ai_test.Base.Dict
use ai_test.Base.Dict.{Dict}
use ai_test.Base.Result.{
  ok, >>=-eq-ok, refuse_if-eq-ok, ok-injective, Returns-at, Returns-of, Returns-bind,
  Returns-bind_any, returns, refuse_if, Returns,
}
use ai_test.Json.{dict, Fields, entries, get_field}
use ai_test.Runtime.{Runtime, ParsedUrl}
use ai_test.Template.{Namespaces, resolve_template}
use ai_test.Request.Path.{fill_path, has_parameter}
use ai_test.Request.{
  BuiltRequest, option_eq, port_eq, is_http, parse_target, has_credentials, build_url,
  build_request, has_invalid_section, as_object, string_section, apply_auth, check_url,
  complete_request,
}

option_eq-eq : (a b : Option String) → option_eq a b ≡ true → a ≡ b
option_eq-eq none none h = refl
option_eq-eq none (some b) h = cc
option_eq-eq (some a) none h = cc
option_eq-eq (some a) (some b) h = ground (arith, eq_iff a b)

port_eq-eq : (a b : Option ℕ) → port_eq a b ≡ true → a ≡ b
port_eq-eq none none h = refl
port_eq-eq none (some b) h = cc
port_eq-eq (some a) none h = cc
port_eq-eq (some a) (some b) h = ground arith

some-injective : {A : Type 0} {a b : A} → some a ≡ some b → a ≡ b
some-injective h = cc

module _ {F : Type 0} (py : Runtime F) where
  -- `url` has the scheme, the host and the port of the base URL, which is an HTTP URL, and carries no
  -- user name or password.
  pub record IsInside (base_url url : String) : Type 0 where
    pub base : ParsedUrl × Option ℕ
    pub target : ParsedUrl × Option ℕ
    pub base_parsed : parse_target py base_url ≡ ok base
    pub url_parsed : parse_target py url ≡ ok target
    pub http : is_http base.0.scheme ≡ true
    pub same_scheme : target.0.scheme ≡ base.0.scheme
    pub same_host : target.0.hostname ≡ base.0.hostname
    pub same_port : target.1 ≡ base.1
    pub no_username : target.0.username ≡ none
    pub no_password : target.0.password ≡ none

  abbrev base_refused : ParsedUrl × Option ℕ → Bool
  base_refused base =
      not (is_http base.0.scheme) || not (is_some base.0.hostname) || has_credentials py base.0

  abbrev target_refused : ParsedUrl × Option ℕ → ParsedUrl × Option ℕ → Bool
  target_refused base target =
      not (str_eq target.0.scheme base.0.scheme)
      || not (option_eq target.0.hostname base.0.hostname)
      || not (port_eq target.1 base.1)
      || has_credentials py target.0

  checks-IsInside :
      (base_url url : String) (base target : ParsedUrl × Option ℕ)
      → parse_target py base_url ≡ ok base
      → base_refused base ≡ false
      → parse_target py url ≡ ok target
      → target_refused base target ≡ false
      → IsInside base_url url
  checks-IsInside base_url url base target pb gb pt gt = record {
    base = base;
    target = target;
    base_parsed = pb;
    url_parsed = pt;
    http = ground arith;
    same_scheme = ground (arith, eq_iff target.0.scheme base.0.scheme);
    same_host = option_eq-eq target.0.hostname base.0.hostname (ground arith);
    same_port = port_eq-eq target.1 base.1 (ground arith);
    no_username = ground arith;
    no_password = ground arith;
  }

  check_url-IsInside :
      (base_url : String) (base : ParsedUrl × Option ℕ) (joined : Option String) (url : String)
      → parse_target py base_url ≡ ok base
      → base_refused base ≡ false
      → check_url py base joined ≡ ok (some url)
      → IsInside base_url url
  check_url-IsInside base_url base none url pb gb h = cc
  check_url-IsInside base_url base (some joined) url pb gb h =
      let (target, pt, ht) = >>=-eq-ok (parse_target py joined) _ h in
      let (gt, ht') = refuse_if-eq-ok (target_refused base target) _ _ _ _ ht in
      subst (IsInside base_url) (some-injective (ok-injective ht'))
        (checks-IsInside base_url joined base target pb gb pt gt)

  build_url-IsInside :
      (base_url path url : String)
      → build_url py base_url path ≡ ok (some url)
      → IsInside base_url url
  unfolding build_url
  build_url-IsInside base_url path url h =
      let (base, pb, hb) = >>=-eq-ok (parse_target py base_url) _ h in
      let (gb, hb') = refuse_if-eq-ok (base_refused base) _ _ _ _ hb in
      check_url-IsInside base_url base _ url pb gb hb'

  -- If there is a URL, it is inside.
  abbrev InsideUrl : String → Option String → Type 0
  InsideUrl base_url none = Unit {0}
  InsideUrl base_url (some url) = IsInside base_url url

  abbrev InsideRequest : String → Option (BuiltRequest F) → Type 0
  InsideRequest base_url none = Unit {0}
  InsideRequest base_url (some r) = IsInside base_url r.url

  build_url-InsideUrl :
      (base_url path : String) (o : Option String)
      → build_url py base_url path ≡ ok o
      → InsideUrl base_url o
  build_url-InsideUrl base_url path none h = tt
  build_url-InsideUrl base_url path (some url) h = build_url-IsInside base_url path url h

  complete_request-InsideRequest :
      (base_url method : String) (headers query : Dict String) (resolved : Fields F)
      (o : Option String)
      → InsideUrl base_url o
      → Returns (InsideRequest base_url) (complete_request py method headers query resolved o)
  complete_request-InsideRequest base_url method headers query resolved none h = returns none tt
  complete_request-InsideRequest base_url method headers query resolved (some url) h =
      Returns-bind_any (apply_auth py (headers, query) (get_field resolved "auth")) _
        λ parts. returns _ h

  -- A request is built only within the environment: whatever the template, the variables and the path
  -- parameters, its URL has the scheme, the host and the port of the base URL, an HTTP URL, and
  -- carries no user name and no password.
  pub build_request-IsInside :
      (method path base_url : String) (headers : Dict String) (template : Fields F)
      (namespaces : Namespaces F) {r : BuiltRequest F}
      → build_request py method path base_url headers template namespaces ≡ ok (some r)
      → IsInside base_url r.url
  unfolding build_request
  build_request-IsInside method path base_url headers template namespaces =
      Returns-at {P = InsideRequest base_url} _ (
        Returns-bind_any
          (refuse_if (has_invalid_section (Dict.keys (entries template))) "REQUEST_TEMPLATE_INVALID"
            "请求模板包含不支持的区段" 400)
          _
          λ _. Returns-bind_any (resolve_template py.repr namespaces (dict template)) _ λ value.
            Returns-bind_any (as_object py value) _ λ resolved.
              Returns-bind_any (string_section py resolved "path") _ λ path_values.
                Returns-bind_any (string_section py resolved "query") _ λ query.
                  Returns-bind_any (string_section py resolved "headers") _ λ own_headers.
                    Returns-bind_any
                      (refuse_if (has_parameter (fill_path py.quote path_values path))
                        "REQUEST_PATH_VARIABLE_MISSING" "路径变量缺失" 400)
                      _
                      λ _.
                        Returns-bind (build_url py base_url (fill_path py.quote path_values path)) _
                          (Returns-of (InsideUrl base_url) _ (build_url-InsideUrl base_url _))
                          λ url inside.
                            complete_request-InsideRequest base_url method
                              (Dict.merge headers own_headers) query resolved url inside)
