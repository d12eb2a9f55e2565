-- ===== src/Execution/Create/Fresh.antt =====
-- A run that is created, and what its execution relies on.
use ai_test.Base.{
  ℕ, ◌+◌, ◌<◌, ◌≡◌, refl, sym, ap, subst, Bool, not, Option, none, some, List, [], ◌∷◌, map, length,
  All, arith, inl, inr, Bool-cases, Option-cases, ◌==◌,
}
use ai_test.Base.Outcome.{done, >>=-eq-done, fail_if-eq-done, done-injective}
use ai_test.Json.{Fields}
use ai_test.Runtime.{Runtime}
use ai_test.Template.{Namespaces}
use ai_test.Runner.{Network, TestEnvironment}
use ai_test.Execution.Models.{TestCase, ApiDefinition}
use ai_test.Request.{build_request}
use ai_test.Execution.Evidence.{Catalogue, from_result, load_variable_namespaces, from_built}
use ai_test.Execution.Step.Verdict.{HasRows}
use ai_test.Execution.Run.{World, process_execution_task}
use ai_test.Execution.Run.Accounting.Steps.{Ascending, AllPending}
use ai_test.Execution.Run.Accounting.Task.{IsFresh, IsBalanced, process_execution_task-IsBalanced}
use ai_test.Execution.Create.{
  ExecutionStartRequest, distinct, found, by_id, present_or_raise, ordered, numbered, precheck,
  cases_of_request, apis_of_cases, validate_write_confirmation, create_execution_run,
  environment_or_raise,
}

-- The rows have the keys that they are found by.
abbrev pub IsKeyed : {A : Type 0} → (A → ℕ) → (ℕ → Option A) → Type 0
IsKeyed {A} id_of find = (i : ℕ) (a : A) → find i ≡ some a → id_of a ≡ i

pub by_id-found :
    {A : Type 0} (id_of : A → ℕ) (find : ℕ → Option A)
    → IsKeyed id_of find
    → (i : ℕ) (ids : List ℕ) (a : A) → by_id id_of i (found find ids) ≡ some a
    → find i ≡ some a
unfolding by_id found
by_id-found id_of find keyed i [] a h = cc
by_id-found id_of find keyed i (j ∷ ids) a h = elim (Option-cases (find j)) [
  | inl e ↦ by_id-found id_of find keyed i ids a (ground arith)
  | inr (b, e) ↦ elim (Bool-cases (id_of b == i)) [
    | inl k ↦ ground (arith, keyed j b e)
    | inr k ↦ by_id-found id_of find keyed i ids a (ground arith)
  ]
]

pub present_or_raise-eq :
    {A : Type 0} (o : Option A) (a : A) → present_or_raise o ≡ done a → o ≡ some a
present_or_raise-eq none a h = cc
present_or_raise-eq (some b) a h = ap some (done-injective h)

module _ {F : Type 0} where
  numbered-after :
      (n position : ℕ) (cases : List (TestCase F))
      → n < position
      → All (λ step. n < step.position) (numbered position cases)
  unfolding numbered
  numbered-after n position [] h = tt
  numbered-after n position (c ∷ cases) h =
      (h, numbered-after n (position + 1) cases (omega (arith, h)))

  numbered-Ascending :
      (position : ℕ) (cases : List (TestCase F)) → Ascending (numbered position cases)
  unfolding numbered
  numbered-Ascending position [] = tt
  numbered-Ascending position (c ∷ cases) = (
    numbered-after position (position + 1) cases (omega arith),
    numbered-Ascending (position + 1) cases,
  )

  numbered-AllPending :
      (position : ℕ) (cases : List (TestCase F)) → AllPending (numbered position cases)
  unfolding numbered
  numbered-AllPending position [] = tt
  numbered-AllPending position (c ∷ cases) = (refl, numbered-AllPending (position + 1) cases)

module _ {F : Type 0} (py : Runtime F) (db : Catalogue F)
    (cases_keyed : IsKeyed (λ c. c.id) db.find_case)
    (apis_keyed : IsKeyed (λ a. a.id) db.find_api) where
  abbrev pub HasCase : TestCase F → Type 0
  HasCase c = db.find_case c.id ≡ some c

  abbrev pub HasApi : TestCase F → Type 0
  HasApi c = (a : ApiDefinition) × (db.find_api c.api_definition_id ≡ some a)

  ordered-found :
      (rows ids : List ℕ) (cases : List (TestCase F))
      → ordered (found db.find_case rows) ids ≡ done cases
      → All HasCase cases
  unfolding ordered
  ordered-found rows [] cases h = subst (All HasCase) (done-injective h) tt
  ordered-found rows (i ∷ ids) cases h =
      let (c, e, h1) =
        >>=-eq-done (present_or_raise (by_id (λ c. c.id) i (found db.find_case rows))) _ h in
      let (rest, e2, h2) = >>=-eq-done (ordered (found db.find_case rows) ids) _ h1 in
      let f =
        by_id-found (λ c. c.id) db.find_case cases_keyed i rows c (present_or_raise-eq _ c e) in
      let g = cases_keyed i c f in
      subst (All HasCase) (done-injective h2) (rw g f, ordered-found rows ids rest e2)

  pub precheck-HasApi :
      (environment : TestEnvironment) (namespaces : Namespaces F) (ids : List ℕ)
      (requests : List (TestCase F × Fields F)) {write_required : Bool}
      → precheck py db environment namespaces (found db.find_api ids) requests ≡ done write_required
      → All (λ (r : TestCase F × Fields F). HasApi r.0) requests
  unfolding precheck
  precheck-HasApi environment namespaces ids [] h = tt
  precheck-HasApi environment namespaces ids ((c, template) ∷ requests) h =
      let (api, e, h1) = >>=-eq-done _ _ h in
      let (request, e1, h2) =
        >>=-eq-done
          (from_built (
            build_request py api.method api.normalized_path environment.base_url
              environment.common_headers template namespaces))
          _ h1 in
      let (rest, e2, h3) =
        >>=-eq-done (precheck py db environment namespaces (found db.find_api ids) requests) _ h2 in
      (
        (
          api,
          by_id-found (λ a. a.id) db.find_api apis_keyed _ ids api (present_or_raise-eq _ api e),
        ),
        precheck-HasApi environment namespaces ids requests e2,
      )

  HasApi-map :
      (cases : List (TestCase F))
      → All (λ (r : TestCase F × Fields F). HasApi r.0) (map (λ c. (c, c.request_template)) cases)
      → All HasApi cases
  HasApi-map [] h = tt
  HasApi-map (c ∷ cases) h = (h.0, HasApi-map cases h.1)

  numbered-AllRows :
      (position : ℕ) (cases : List (TestCase F))
      → All HasCase cases
      → All HasApi cases
      → All (HasRows py db) (numbered position cases)
  unfolding numbered
  numbered-AllRows position [] h k = tt
  numbered-AllRows position (c ∷ cases) h k =
      ((c, k.0.0, h.0, k.0.1), numbered-AllRows (position + 1) cases h.1 k.1)

  cases_of_request-HasCase :
      (ids : List ℕ) (cases : List (TestCase F))
      → cases_of_request py db ids ≡ done cases
      → All HasCase cases
  unfolding cases_of_request
  cases_of_request-HasCase ids cases h =
      let (d, h1) = fail_if-eq-done (not (length (distinct ids) == length ids)) _ _ h in
      let rows = found db.find_case (distinct ids) in
      let (n, h2) = fail_if-eq-done (not (length rows == length ids)) _ _ h1 in
      let (a, h3) = fail_if-eq-done _ _ (ordered rows ids) h2 in
      ordered-found (distinct ids) ids cases h3

  pub apis_of_cases-HasApi :
      (cases : List (TestCase F)) (apis : List ApiDefinition)
      → apis_of_cases py db cases ≡ done apis
      → (environment : TestEnvironment) (namespaces : Namespaces F)
        (requests : List (TestCase F × Fields F)) (write_required : Bool)
      → precheck py db environment namespaces apis requests ≡ done write_required
      → All (λ (r : TestCase F × Fields F). HasApi r.0) requests
  unfolding apis_of_cases
  apis_of_cases-HasApi cases apis h environment namespaces requests write_required k =
      let ids = distinct (map (λ c. c.api_definition_id) cases) in
      let (n, h1) =
        fail_if-eq-done (not (length (found db.find_api ids) == length ids)) _
          (done (found db.find_api ids)) h in
      precheck-HasApi environment namespaces ids requests (
        subst (λ rows. precheck py db environment namespaces rows requests ≡ done write_required)
          (sym (done-injective h1)) k)

  -- What a created run brings with it for its execution.
  pub record IsQueued (find_environment : ℕ → Option TestEnvironment) (w : World F) : Type 0 where
    pub environment : TestEnvironment
    pub environment_found : find_environment w.run.environment_id ≡ some environment
    pub fresh : IsFresh w
    pub rows : All (HasRows py db) w.steps
    pub total : w.run.total_count ≡ length w.steps

  pub environment_or_raise-eq :
      (o : Option TestEnvironment) (e : TestEnvironment)
      → environment_or_raise py db o ≡ done e
      → o ≡ some e
  environment_or_raise-eq none e h = cc
  environment_or_raise-eq (some d) e h = ap some (done-injective h)

  -- A run that `create_execution_run` accepts has its environment, its test cases and their
  -- interfaces, nothing counted, all steps pending in the order of their positions, and as many
  -- steps in its total.
  pub create_execution_run-IsQueued :
      (find_environment : ℕ → Option TestEnvironment) (payload : ExecutionStartRequest)
      (w : World F)
      → create_execution_run py db find_environment payload ≡ done w
      → IsQueued find_environment w
  unfolding create_execution_run
  create_execution_run-IsQueued find_environment payload w h =
      let (environment, e, h1) =
        >>=-eq-done (environment_or_raise py db (find_environment payload.environment_id)) _ h in
      let (cases, e1, h2) = >>=-eq-done (cases_of_request py db payload.test_case_ids) _ h1 in
      let (apis, e2, h3) = >>=-eq-done (apis_of_cases py db cases) _ h2 in
      let (namespaces, e3, h4) =
        >>=-eq-done (from_result (load_variable_namespaces py db environment [])) _ h3 in
      let (write_required, e4, h5) =
        >>=-eq-done
          (precheck py db environment namespaces apis (map (λ c. (c, c.request_template)) cases)) _
          h4 in
      let (x, e5, h6) =
        >>=-eq-done
          (validate_write_confirmation py db environment write_required payload.write_confirmed
            payload.confirmed_host)
          _ h5 in
      subst (IsQueued find_environment) (done-injective h6) (record {
        environment = environment;
        environment_found = environment_or_raise-eq _ environment e;
        fresh = record {
          passed = refl;
          failed = refl;
          skipped = refl;
          pending = numbered-AllPending 1 cases;
          ascending = numbered-Ascending 1 cases;
        };
        rows = numbered-AllRows 1 cases (cases_of_request-HasCase payload.test_case_ids cases e1) (
            HasApi-map cases
              (apis_of_cases-HasApi cases apis e2 environment namespaces _ write_required e4));
        total = refl;
      })

  -- A run that is created and then executed, with the rows and the environments as they were, ends
  -- without an exception and with its counters balanced, whatever the network answers and whenever a
  -- stop is requested.
  pub create_execution_run-IsBalanced :
      (network : ℕ → Network F) (find_environment : ℕ → Option TestEnvironment)
      (payload : ExecutionStartRequest) (stops : List Bool) (last : Bool) (w : World F)
      → create_execution_run py db find_environment payload ≡ done w
      → IsBalanced
          (length w.steps)
          (process_execution_task py db network find_environment stops last w)
  create_execution_run-IsBalanced network find_environment payload stops last w h =
      let q = create_execution_run-IsQueued find_environment payload w h in
      process_execution_task-IsBalanced py db network find_environment stops last w q.environment
        q.environment_found q.fresh q.rows
