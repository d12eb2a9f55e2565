-- ===== src/Worker/Interfaces/Routes.antt =====
-- The routes of the interfaces that a scan stores.
use ai_test.Base.{
  ◌≡◌, refl, ap, sym, subst, ◌∙◌, Bool, true, false, ◌||◌, none, List, [], ◌∷◌, map, All, All-map,
  eq_iff, arith, inl, inr, Bool-cases, Option-cases,
}
use ai_test.Base.Outcome.{Outcome, done, failed, >>=-eq-done, done-injective}
use ai_test.Json.{Fields}
use ai_test.Runtime.{Runtime}
use ai_test.SourceScans.Models.{CodeSymbol, ScannedApi, ParsedApiDefinition}
use ai_test.SourceScans.OpenApi.{Scanning, OpenApiOperation}
use ai_test.Worker.Interfaces.{
  Route, same_route, has_route, source_route, api_route, operation_route, symbol_id, source_apis,
  merged, merge_compared, merge_api, merge_operation, merge_operations, api_definitions,
}

-- No two routes are the same, as the table's constraint wants it.
abbrev pub HasUniqueRoutes : List Route → Type 0
HasUniqueRoutes [] = Unit
HasUniqueRoutes (r ∷ rs) = (has_route rs r ≡ false) × HasUniqueRoutes rs

same_route_comm : (r s : Route) → same_route r s ≡ same_route s r
same_route_comm r s = ground (arith, eq_iff r.0 s.0, eq_iff s.0 r.0, eq_iff r.1 s.1, eq_iff s.1 r.1)

same_route_trans : (r s t : Route) → same_route r s ≡ true → same_route s t ≡ same_route r t
same_route_trans r s t h = ground (
  arith,
  eq_iff r.0 s.0,
  eq_iff r.1 s.1,
  eq_iff r.0 t.0,
  eq_iff r.1 t.1,
  eq_iff s.0 t.0,
  eq_iff s.1 t.1,
)

same_route_refl : (r : Route) → same_route r r ≡ true
same_route_refl r = ground (arith, eq_iff r.0 r.0, eq_iff r.1 r.1)

-- Membership does not tell equal routes apart.
has_route-same :
    (routes : List Route) (r s : Route)
    → same_route r s ≡ true
    → has_route routes s ≡ has_route routes r
has_route-same [] r s h = refl
has_route-same (t ∷ routes) r s h =
    ground (arith, same_route_trans r s t h, has_route-same routes r s h)

failed-done : {E A : Type 0} {e : E} {a : A} → ◌≡◌ {A = Outcome E A} (failed e) (done a) → ⊥
failed-done h = cc

module _ {F : Type 0} (py : Runtime F) where
  merged-route :
      (a b : ScannedApi F) (request : Fields F) (o : OpenApiOperation F)
      (conflicts : List (Fields F))
      → ◌≡◌ {A = Scanning (ScannedApi F)} (done (merged a request o conflicts)) (done b)
      → api_route a ≡ api_route b
  merged-route a b request o conflicts h = ap api_route (done-injective h)

  merge_api-route :
      (a b : ScannedApi F) (o : OpenApiOperation F)
      → merge_api py a o ≡ done b
      → api_route a ≡ api_route b
  unfolding merge_api
  merge_api-route a b o h = elim (Option-cases a.request_definition) [
    | inl e ↦ let n : merge_compared py a none o ≡ done b = rw e at h in cc
    | inr (request, e) ↦ merged-route a b request o _ (rw e at h)
  ]

  merge_operation-routes :
      (apis more : List (ScannedApi F)) (o : OpenApiOperation F)
      → merge_operation py apis o ≡ done more
      → (map api_route apis ≡ map api_route more)
        × (has_route (map api_route apis) (operation_route o) ≡ true)
  unfolding merge_operation merge_api
  merge_operation-routes [] more o h = absurd (failed-done h)
  merge_operation-routes (a ∷ apis) more o h =
      elim (Bool-cases (same_route (operation_route o) (api_route a))) [
        | inl e ↦
            let (b, m, h1) = >>=-eq-done (merge_api py a o) _ (rw (e, merge_operation) at h) in
            (
              subst (λ more. map api_route (a ∷ apis) ≡ map api_route more) (done-injective h1)
                  (ap (λ r. r ∷ map api_route apis) (merge_api-route a b o m)),
              ground (arith, e),
            )
        | inr e ↦
            let (others, m, h1) =
              >>=-eq-done (merge_operation py apis o) _ (rw (e, merge_operation) at h) in
            let (r, k) = merge_operation-routes apis others o m in
            (
              subst (λ more. map api_route (a ∷ apis) ≡ map api_route more) (done-injective h1)
                  (ap (λ rs. api_route a ∷ rs) r),
              ground (arith, e, k),
            )
      ]

  merge_operations-routes :
      (apis more : List (ScannedApi F)) (operations : List (OpenApiOperation F))
      → merge_operations py apis operations ≡ done more
      → (map api_route apis ≡ map api_route more)
        × All (λ o. has_route (map api_route apis) (operation_route o) ≡ true) operations
  unfolding merge_operations
  merge_operations-routes apis more [] h = (ap (map api_route) (done-injective h), tt)
  merge_operations-routes apis more (o ∷ rest) h =
      let (next, m, h1) = >>=-eq-done (merge_operation py apis o) _ h in
      let (r, k) = merge_operation-routes apis next o m in
      let (r1, k1) = merge_operations-routes next more rest h1 in
      (
        r ∙ r1,
        (k, subst (λ rs. All (λ o. has_route rs (operation_route o) ≡ true) rest) (sym r) k1),
      )

module _ {F : Type 0} where
  -- The routes of the interfaces are new, unique, and those of the source.
  record KeepsRoutes (seen : List Route) (parsed : List (ParsedApiDefinition F))
      (routes : List Route) : Type 0 where
    pub unique : HasUniqueRoutes routes
    pub fresh : (r : Route) → has_route routes r ≡ true → has_route seen r ≡ false
    pub sound :
        (r : Route) → has_route routes r ≡ true → has_route (map source_route parsed) r ≡ true
    pub complete :
        (r : Route)
        → has_route (map source_route parsed) r ≡ true
        → (has_route seen r || has_route routes r) ≡ true

  kept-KeepsRoutes :
      (seen : List Route) (d : ParsedApiDefinition F) (rest : List (ParsedApiDefinition F))
      (routes : List Route)
      → has_route seen (source_route d) ≡ true
      → KeepsRoutes seen rest routes
      → KeepsRoutes seen (d ∷ rest) routes
  kept-KeepsRoutes seen d rest routes e k = record {
    unique = k.unique;
    fresh = k.fresh;
    sound = λ r h. ground (arith, k.sound r h);
    complete = λ r h. ground (arith, k.complete r, has_route-same seen r (source_route d));
  }

  added-KeepsRoutes :
      (seen : List Route) (d : ParsedApiDefinition F) (rest : List (ParsedApiDefinition F))
      (routes : List Route)
      → has_route seen (source_route d) ≡ false
      → KeepsRoutes (source_route d ∷ seen) rest routes
      → KeepsRoutes seen (d ∷ rest) (source_route d ∷ routes)
  added-KeepsRoutes seen d rest routes e k = record {
    unique = (ground (arith, k.fresh (source_route d), same_route_refl (source_route d)), k.unique);
    fresh = λ r h. ground (arith, k.fresh r, has_route-same seen r (source_route d));
    sound = λ r h. ground (arith, k.sound r);
    complete = λ r h. ground (arith, k.complete r);
  }

  source_apis-KeepsRoutes :
      (symbols : List (CodeSymbol F)) (parsed : List (ParsedApiDefinition F)) (seen : List Route)
      (apis : List (ScannedApi F))
      → source_apis symbols seen parsed ≡ done apis
      → KeepsRoutes seen parsed (map api_route apis)
  unfolding source_apis
  source_apis-KeepsRoutes symbols [] seen apis h =
      subst (λ apis. KeepsRoutes seen [] (map api_route apis)) (done-injective h)
        (record { unique = tt; fresh = λ r k. cc; sound = λ r k. cc; complete = λ r k. cc })
  source_apis-KeepsRoutes symbols (d ∷ rest) seen apis h =
      elim (Bool-cases (has_route seen (source_route d))) [
        | inl e ↦
            kept-KeepsRoutes seen d rest _ e
              (source_apis-KeepsRoutes symbols rest seen apis (rw (e, source_apis) at h))
        | inr e ↦
            let (controller, c, h1) =
              >>=-eq-done (symbol_id symbols d.controller_qualified_name) _
                (rw (e, source_apis) at h) in
            let (method, m, h2) = >>=-eq-done (symbol_id symbols d.method_qualified_name) _ h1 in
            let (others, o, h3) =
              >>=-eq-done (source_apis symbols (source_route d ∷ seen) rest) _ h2 in
            subst (λ apis. KeepsRoutes seen (d ∷ rest) (map api_route apis)) (done-injective h3)
              (added-KeepsRoutes seen d rest (map api_route others) e
                (source_apis-KeepsRoutes symbols rest (source_route d ∷ seen) others o))
      ]

module _ {F : Type 0} (py : Runtime F) where
  -- What an interface list has that a scan stores.
  pub record HasRoutes (parsed : List (ParsedApiDefinition F))
      (operations : List (OpenApiOperation F)) (apis : List (ScannedApi F)) : Type 0 where
    pub unique : HasUniqueRoutes (map api_route apis)
    pub same :
        (r : Route) → has_route (map api_route apis) r ≡ has_route (map source_route parsed) r
    pub operations_known :
        All (λ o. has_route (map source_route parsed) (operation_route o) ≡ true) operations

  eq-from : (p q : Bool) → (p ≡ true → q ≡ true) → (q ≡ true → p ≡ true) → p ≡ q
  eq-from true q h k = sym (h refl)
  eq-from false true h k = k refl
  eq-from false false h k = refl

  -- The interfaces that a scan stores have different routes, exactly those of the source; each
  -- operation of the OpenAPI document has one of them.
  pub api_definitions-HasRoutes :
      (symbols : List (CodeSymbol F)) (parsed : List (ParsedApiDefinition F))
      (operations : List (OpenApiOperation F)) (apis : List (ScannedApi F))
      → api_definitions py symbols parsed operations ≡ done apis
      → HasRoutes parsed operations apis
  unfolding api_definitions
  api_definitions-HasRoutes symbols parsed operations apis h =
      let (found, e, h1) = >>=-eq-done (source_apis symbols [] parsed) _ h in
      let k = source_apis-KeepsRoutes symbols parsed [] found e in
      let (r, known) = merge_operations-routes py found apis operations h1 in
      record {
        unique = subst HasUniqueRoutes r k.unique;
        same = λ s.
            subst (λ rs. has_route rs s ≡ has_route (map source_route parsed) s) r
              (eq-from _ _ (k.sound s) (k.complete s));
        operations_known = All-map (λ o. k.sound (operation_route o)) operations known;
      }
