-- ===== src/Runner/Guards.antt =====
-- What the checks of the runner let through.
use ai_test.Base.{
  ℕ, ◌≤◌, String, ◌≡◌, ap, Bool, true, false, Option, none, some, List, [], ◌∷◌, ◌++◌, length,
  arith, length-append, concat_map, eq_iff, ltb, if◌then◌else◌, inl, inr, Bool-cases, Option-cases,
}
use mathlib.Core.List.{append-nil, append_assoc}
use ai_test.Base.Dict.{mem}
use ai_test.Base.Outcome.{done, failed, >>=-eq-done, fail_if-eq-done, map_error-eq-done}
use ai_test.Runtime.{Runtime, ParsedUrl}
use ai_test.Request.{BuiltRequest}
use ai_test.Network.{ApprovedHttpTarget, Lookup}
use ai_test.Network.Targets.{IsApproved, approve_http_target-IsApproved}
use ai_test.Runner.{
  Attempt, TestEnvironment, is_production, write_methods, display_host, confirms, check_write,
  parse_or_raise, to_runner_error, validate_execution_target, read_body, Exn, runner_error,
  response_too_large,
}

confirms-eq : (o : Option String) (host : String) → confirms o host ≡ true → o ≡ some host
confirms-eq none host h = cc
confirms-eq (some c) host h = ap some ((eq_iff c host).0 h)

module _ {F : Type 0} (py : Runtime F) where
  -- A request only reads; or the environment allows writes, the user has confirmed them, and the
  -- host that was confirmed is the scheme and network location of the request's own URL.
  pub data MayWrite (environment : TestEnvironment) (request : BuiltRequest F)
      (write_confirmed : Bool) (confirmed_host : Option String) : Type 0 where
    reads :
        mem request.method write_methods ≡ false
        → MayWrite environment request write_confirmed confirmed_host
    writes :
        (u : ParsedUrl)
        → environment.allow_write_requests ≡ true
        → write_confirmed ≡ true
        → py.urlparse request.url ≡ some u
        → confirmed_host ≡ some (display_host u)
        → MayWrite environment request write_confirmed confirmed_host

  -- What lets a request of an execution step through.
  pub record IsCleared (lookup : Lookup) (environment : TestEnvironment) (request : BuiltRequest F)
      (write_confirmed : Bool) (confirmed_host : Option String) (target : ApprovedHttpTarget)
      : Type 0 where
    pub not_production : is_production environment.environment_type ≡ false
    pub may_write : MayWrite environment request write_confirmed confirmed_host
    pub approved : IsApproved py lookup request.url environment.host_allowlist target

  parse_or_raise-eq :
      (url : String) (u : ParsedUrl) → parse_or_raise py url ≡ done u → py.urlparse url ≡ some u
  parse_or_raise-eq url u h = elim (Option-cases (py.urlparse url)) [
    | inl e ↦ ground (arith, h)
    | inr (v, e) ↦ ground (arith, h)
  ]

  check_write-MayWrite :
      (environment : TestEnvironment) (request : BuiltRequest F) (u : ParsedUrl)
      (write_confirmed : Bool) (confirmed_host : Option String)
      → py.urlparse request.url ≡ some u
      → check_write py environment request.method u write_confirmed confirmed_host ≡ done tt
      → MayWrite environment request write_confirmed confirmed_host
  unfolding check_write
  check_write-MayWrite environment request u write_confirmed confirmed_host p h =
      elim (Bool-cases (mem request.method write_methods)) [
        | inl m ↦
            writes u (ground arith) (ground arith) p
              (confirms-eq confirmed_host (display_host u) (ground arith))
        | inr m ↦ reads m
      ]

  -- A request goes out only outside production, and to a target that was approved for its own URL with
  -- the environment's allow list; one that writes also needs the environment to allow writes, the user's confirmation, and a
  -- confirmed host that is the scheme and network location of its own URL.
  pub validate_execution_target-IsCleared :
      (lookup : Lookup) (environment : TestEnvironment) (request : BuiltRequest F)
      (write_confirmed : Bool) (confirmed_host : Option String) (target : ApprovedHttpTarget)
      → validate_execution_target py lookup environment request write_confirmed confirmed_host
        ≡ done target
      → IsCleared lookup environment request write_confirmed confirmed_host target
  unfolding validate_execution_target
  validate_execution_target-IsCleared lookup environment request write_confirmed confirmed_host
        target h =
      let (u, p, h1) = >>=-eq-done (parse_or_raise py request.url) _ h in
      let (g, h2) = fail_if-eq-done (is_production environment.environment_type) _ _ h1 in
      let (x, w, h3) =
        >>=-eq-done (check_write py environment request.method u write_confirmed confirmed_host) _
          h2 in
      let approved =
        approve_http_target-IsApproved py lookup request.url environment.host_allowlist target
          (map_error-eq-done to_runner_error _ h3) in
      record {
        not_production = g;
        may_write =
            check_write-MayWrite environment request u write_confirmed confirmed_host
              (parse_or_raise-eq request.url u p) w;
        approved = approved;
      }

-- All the bytes of the chunks.
abbrev pub whole : List (List ℕ) → List ℕ
whole chunks = concat_map (λ chunk. chunk) chunks

abbrev too_large : Exn
too_large = runner_error response_too_large "EXECUTION_RESPONSE_TOO_LARGE" "响应体超过大小限制"

module _ (limit : ℕ) where
  abbrev pub bounded : List ℕ → Attempt (List ℕ)
  bounded body = if ltb limit (length body) then failed too_large else done body

  read_body-bounded :
      (content : List ℕ) (chunks : List (List ℕ))
      → length content ≤ limit
      → read_body limit content chunks ≡ bounded (content ++ whole chunks)
  unfolding read_body
  read_body-bounded content [] small = rw append-nil (ground arith)
  read_body-bounded content (chunk ∷ rest) small =
      elim (Bool-cases (ltb limit (length (content ++ chunk)))) [
        | inl over ↦
            rw (over, ← append_assoc)
              (ground (arith, length-append (content ++ chunk) (whole rest)))
        | inr fits ↦
            rw (fits, ← append_assoc) (read_body-bounded (content ++ chunk) rest (ground arith))
      ]

  -- A response body is read whole or refused: it is refused with `EXECUTION_RESPONSE_TOO_LARGE`
  -- exactly if all its chunks together are longer than the limit, however they are cut.
  pub read_body_lem : (chunks : List (List ℕ)) → read_body limit [] chunks ≡ bounded (whole chunks)
  read_body_lem chunks = read_body-bounded [] chunks (omega arith)
