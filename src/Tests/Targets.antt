-- ===== src/Tests/Targets.antt =====
-- Requests and targets of a small environment.
use ai_test.Base.{String, ◌≡◌, refl, true, none, some, List, [], ◌∷◌, ◌↔◌}
use ai_test.Base.Text
use ai_test.Base.Dict.{mem}
use ai_test.Json.{end}
use ai_test.Template.{resolve_template}
use ai_test.Request.Path.{fill_path, has_parameter}
use ai_test.Base.Dict
use ai_test.Request.{
  BuiltRequest, string_section, build_url, parse_target, apply_auth, build_request,
}
use ai_test.Request.Target.{build_request-IsInside, IsInside}
use ai_test.Network.{
  ApprovedHttpTarget, is_host_allowed, validate_stable_dns, approve_http_target,
  resolve_public_addresses, any_not_global,
}
use ai_test.Network.Targets.{
  validate_stable_dns-addresses, approve_http_target-IsApproved, IsApproved, AllGlobal,
}
use ai_test.Runner.{check_write, validate_execution_target, read_body}
use ai_test.Runner.Guards.{
  validate_execution_target-IsCleared, read_body_lem, IsCleared, bounded, whole,
}
use ai_test.Tests.{py, api_url, lookup, staging_environment}

abbrev write_request : BuiltRequest ⊥
write_request = record {
  method = "POST";
  url = "http://api.test/users";
  headers = [];
  query = [];
  json_body = none;
  text_body = none;
}

build_request-IsInside_example : IsInside py "http://api.test/" "http://api.test/users"
unfolding build_request Dict.keys resolve_template string_section Dict.get has_parameter fill_path
    build_url parse_target Text.strip_left apply_auth
build_request-IsInside_example =
    build_request-IsInside py "POST" "/users" "http://api.test/" [] end [] {r = write_request} refl

abbrev api_target : ApprovedHttpTarget
api_target = record {
  parsed = api_url;
  hostname = "api.test";
  resolved_addresses = "93.184.216.34" ∷ [];
}

validate_stable_dns-addresses_example :
    (addresses : List String) × (lookup "api.test" ≡ some addresses)
    × AllGlobal py.is_global addresses
    × ((a : String) → (mem a addresses ≡ true) ↔ (mem a api_target.resolved_addresses ≡ true))
unfolding validate_stable_dns resolve_public_addresses any_not_global
validate_stable_dns-addresses_example =
    validate_stable_dns-addresses py.is_global lookup api_target refl

approve_http_target-IsApproved_example :
    IsApproved py lookup "http://api.test/users" ("api.test" ∷ []) api_target
unfolding approve_http_target Text.strip_prefix is_host_allowed resolve_public_addresses
    any_not_global
approve_http_target-IsApproved_example =
    approve_http_target-IsApproved py lookup "http://api.test/users" ("api.test" ∷ []) api_target
      refl

validate_execution_target-IsCleared_example :
    IsCleared py lookup staging_environment write_request true (some "http://api.test") api_target
unfolding validate_execution_target Text.strip_prefix check_write approve_http_target
    is_host_allowed resolve_public_addresses any_not_global
validate_execution_target-IsCleared_example =
    validate_execution_target-IsCleared py lookup staging_environment write_request true
      (some "http://api.test") api_target refl

read_body_lem_example :
    read_body 3 [] ((111 ∷ 107 ∷ []) ∷ (33 ∷ []) ∷ [])
    ≡ bounded 3 (whole ((111 ∷ 107 ∷ []) ∷ (33 ∷ []) ∷ []))
read_body_lem_example = read_body_lem 3 ((111 ∷ 107 ∷ []) ∷ (33 ∷ []) ∷ [])
