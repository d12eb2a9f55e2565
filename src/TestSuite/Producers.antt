-- ===== src/TestSuite/Producers.antt =====
-- Each run variable of a suite is produced before it is read.
use ai_test.Base.{
  ℕ, ◌+◌, ◌<◌, String, ◌≡◌, refl, sym, subst, ◌∙◌, true, false, not, any, ◌==◌, ◌||◌, Option, some,
  List, [], ◌∷◌, ◌++◌, map, length, All, arith, eq_iff,
}
use ai_test.Base.Dict
use ai_test.Execution.Create.{is_approved}
use ai_test.Base.Dict.{mem}
use ai_test.Base.Outcome.{done, >>=-eq-done, fail_if-eq-done, done-injective}
use ai_test.Json.{entries}
use ai_test.Request.{has_invalid_section}
use ai_test.Execution.Models.{TestCase}
use ai_test.Execution.Evidence.{Catalogue}
use ai_test.Execution.Create.{TestSuiteStep, distinct, found, by_id, present_or_raise}
use ai_test.Execution.Create.Fresh.{IsKeyed, by_id-found, present_or_raise-eq}
use ai_test.Execution.Suite.{copied_steps}
use ai_test.Execution.Run.Accounting.Steps.{Ascending}
use ai_test.TestSuite.{
  StepInput, minus, has_duplicate, overlaps, is_any, keys_of, reads, add_steps, replace_steps,
}

mem-append : (k : String) (xs ys : List String) → mem k (xs ++ ys) ≡ (mem k xs || mem k ys)
mem-append k [] ys = refl
mem-append k (x ∷ xs) ys = ground (arith, mem-append k xs ys)

mem-minus :
    (k : String) (xs ys : List String)
    → is_any (minus xs ys) ≡ false
    → mem k xs ≡ true
    → mem k ys ≡ true
unfolding minus
mem-minus k [] ys h m = cc
mem-minus k (x ∷ xs) ys h m = ground (arith, eq_iff k x, mem-minus k xs ys)

some-injective : {A : Type 0} {a b : A} → some a ≡ some b → a ≡ b
some-injective h = cc

module _ {F : Type 0} where
  -- The keys that a list of steps produces.
  abbrev pub all_keys : List (TestSuiteStep F) → List String
  all_keys [] = []
  all_keys (step ∷ rest) = keys_of step.variable_extractions ++ all_keys rest

  -- Each step with its test case reads only what is produced, or what an earlier step produces.
  abbrev pub ReadsProduced :
      (ℕ → Option (TestCase F)) → List String → List (TestSuiteStep F) → Type 0
  ReadsProduced find produced [] = Unit
  ReadsProduced find produced (step ∷ rest) =
      ((c : TestCase F) × (find step.test_case_id ≡ some c)
        × ((k : String) → mem k (reads c step.request_override) ≡ true → mem k produced ≡ true))
      × ReadsProduced find (produced ++ keys_of step.variable_extractions) rest

  add_steps-ReadsProduced :
      (describe : ℕ → List String → String) (find : ℕ → Option (TestCase F))
      → IsKeyed (λ c. c.id) find
      → (ids : List ℕ) (position : ℕ) (produced : List String) (items : List (StepInput F))
        (steps : List (TestSuiteStep F))
      → add_steps describe (found find ids) position produced items ≡ done steps
      → ReadsProduced find produced steps
  unfolding add_steps
  add_steps-ReadsProduced describe find keyed ids position produced [] steps h =
      subst (ReadsProduced find produced) (done-injective h) tt
  add_steps-ReadsProduced describe find keyed ids position produced (item ∷ rest) steps h =
      let (i, h1) =
        fail_if-eq-done (has_invalid_section (Dict.keys (entries item.request_override))) _ _ h in
      let (c, e, h2) =
        >>=-eq-done (present_or_raise (by_id (λ c. c.id) item.test_case_id (found find ids))) _
          h1 in
      let (m, h3) =
        fail_if-eq-done (is_any (minus (reads c item.request_override) produced)) _ _ h2 in
      let (d, h4) =
        fail_if-eq-done
          (has_duplicate (keys_of item.variable_extractions)
            || overlaps (keys_of item.variable_extractions) produced)
          _ _ h3 in
      let (others, e5, h5) =
        >>=-eq-done
          (add_steps describe (found find ids) (position + 1)
            (produced ++ keys_of item.variable_extractions) rest)
          _ h4 in
      subst (ReadsProduced find produced) (done-injective h5) (
        (
          c,
          by_id-found (λ c. c.id) find keyed _ ids c (present_or_raise-eq _ c e),
          λ k. mem-minus k _ produced m,
        ),
        add_steps-ReadsProduced describe find keyed ids (position + 1) _ rest others e5,
      )

  ReadsProduced-split :
      (find : ℕ → Option (TestCase F)) (produced : List String)
      (before after : List (TestSuiteStep F)) (step : TestSuiteStep F) (c : TestCase F) (k : String)
      → ReadsProduced find produced (before ++ (step ∷ after))
      → find step.test_case_id ≡ some c
      → mem k (reads c step.request_override) ≡ true
      → (mem k produced || mem k (all_keys before)) ≡ true
  ReadsProduced-split find produced [] after step c k h e m =
      let (d, f, g) = h.0 in
      let same = some-injective (sym f ∙ e) in let r = g k (rw same m) in ground (arith, r)
  ReadsProduced-split find produced (s ∷ before) after step c k h e m = ground (
    arith,
    ReadsProduced-split find (produced ++ keys_of s.variable_extractions) before after step c k h.1
        e m,
    mem-append k produced (keys_of s.variable_extractions),
    mem-append k (keys_of s.variable_extractions) (all_keys before),
  )

  add_steps-positions :
      (describe : ℕ → List String → String) (cases : List (TestCase F)) (n position : ℕ)
      (produced : List String) (items : List (StepInput F)) (steps : List (TestSuiteStep F))
      → add_steps describe cases position produced items ≡ done steps
      → n < position
      → All (λ step. n < step.position) (copied_steps steps) × Ascending (copied_steps steps)
  unfolding add_steps copied_steps
  add_steps-positions describe cases n position produced [] steps h lt =
      subst
        (λ steps.
          All (λ step. n < step.position) (copied_steps steps) × Ascending (copied_steps steps))
        (done-injective h) (tt, tt)
  add_steps-positions describe cases n position produced (item ∷ rest) steps h lt =
      let (i, h1) =
        fail_if-eq-done (has_invalid_section (Dict.keys (entries item.request_override))) _ _ h in
      let (c, e, h2) =
        >>=-eq-done (present_or_raise (by_id (λ c. c.id) item.test_case_id cases)) _ h1 in
      let (m, h3) =
        fail_if-eq-done (is_any (minus (reads c item.request_override) produced)) _ _ h2 in
      let (d, h4) =
        fail_if-eq-done
          (has_duplicate (keys_of item.variable_extractions)
            || overlaps (keys_of item.variable_extractions) produced)
          _ _ h3 in
      let (others, e5, h5) =
        >>=-eq-done
          (add_steps describe cases (position + 1) (produced ++ keys_of item.variable_extractions)
            rest)
          _ h4 in
      let (far, _) =
        add_steps-positions describe cases n (position + 1) _ rest others e5 (omega (arith, lt)) in
      let (near, up) =
        add_steps-positions describe cases position (position + 1) _ rest others e5 (omega arith) in
      subst
        (λ steps.
          All (λ step. n < step.position) (copied_steps steps) × Ascending (copied_steps steps))
        (done-injective h5) ((lt, far), (near, up))

module _ {F : Type 0} (db : Catalogue F) (keyed : IsKeyed (λ c. c.id) db.find_case) where
  replace_steps-add_steps :
      (describe : ℕ → List String → String) (items : List (StepInput F))
      (steps : List (TestSuiteStep F))
      → replace_steps db describe items ≡ done steps
      → add_steps describe
          (found db.find_case (distinct (map (λ item. item.test_case_id) items)))
          1
          []
          items
        ≡ done steps
  unfolding replace_steps
  replace_steps-add_steps describe items steps h =
      let ids = distinct (map (λ item. item.test_case_id) items) in
      let cases = found db.find_case ids in
      let (n, h1) = fail_if-eq-done (not (length cases == length ids)) _ _ h in
      let (a, h2) = fail_if-eq-done (any (λ c. not (is_approved c.status)) cases) _ _ h1 in h2

  -- In a suite that is accepted, each run variable that a step reads, its override included, is
  -- produced by an extraction of an earlier step.
  pub replace_steps_producers :
      (describe : ℕ → List String → String) (items : List (StepInput F))
      (before after : List (TestSuiteStep F)) (step : TestSuiteStep F) (c : TestCase F) (k : String)
      → replace_steps db describe items ≡ done (before ++ (step ∷ after))
      → db.find_case step.test_case_id ≡ some c
      → mem k (reads c step.request_override) ≡ true
      → mem k (all_keys before) ≡ true
  replace_steps_producers describe items before after step c k h e m =
      ReadsProduced-split db.find_case [] before after step c k
        (add_steps-ReadsProduced describe db.find_case keyed _ 1 [] items _
          (replace_steps-add_steps describe items _ h))
        e m

  -- The steps of a suite that is accepted are in the order of their positions, so that its run can be
  -- created from them.
  pub replace_steps-Ascending :
      (describe : ℕ → List String → String) (items : List (StepInput F))
      (steps : List (TestSuiteStep F))
      → replace_steps db describe items ≡ done steps
      → Ascending (copied_steps steps)
  replace_steps-Ascending describe items steps h =
      (add_steps-positions describe _ 0 1 [] items steps
        (replace_steps-add_steps describe items steps h) (omega arith)).1
