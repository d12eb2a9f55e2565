-- ===== src/Knowledge/Search/Hits.antt =====
-- The hits of a search are few, and in files below the root.
use ai_test.Base.{
  ℕ, zero, suc, ◌≤◌, ◌≡◌, refl, subst, String, Option, none, some, List, [], ◌∷◌, length, All,
  if◌then◌else◌, arith, inl, inr, Option-cases,
}
use ai_test.Base.Int.{ℤ}
use ai_test.Base.Outcome.{done, >>=-eq-done, done-injective}
use ai_test.Json.{Fields, get_field}
use ai_test.Runtime.{Runtime}
use ai_test.SourceScans.Reader.{FileSystem, relative_to, as_posix}
use ai_test.Knowledge.Search.{
  KeywordSearchHit, when_some, nested_text, line_number, data_of, is_match, hit_at, hit_of,
  payload_of, parse_ripgrep_matches,
}

when_some-eq :
    {A B : Type 0} (o : Option A) (f : A → Option B) {b : B}
    → when_some o f ≡ some b
    → (a : A) × (o ≡ some a) × (f a ≡ some b)
when_some-eq none f h = cc
when_some-eq (some a) f h = (a, refl, h)

some-injective : {A : Type 0} {a b : A} → some a ≡ some b → a ≡ b
some-injective h = cc

module _ {F B : Type 0} (py : Runtime F) (fs : FileSystem B) where
  -- A hit in a file that is resolved to a path below the root.
  pub record IsBelow (root : List String) (hit : KeywordSearchHit) : Type 0 where
    pub named : String
    pub resolved : List String
    pub relative : List String
    pub found : fs.resolve (fs.parts named) ≡ some resolved
    pub below : relative_to root resolved ≡ some relative
    pub path : hit.relative_path ≡ as_posix relative

  hit_at-IsBelow :
      (root : List String) (path : String) (number : ℤ) (content : String) (hit : KeywordSearchHit)
      → hit_at py fs root path number content ≡ some hit
      → IsBelow root hit
  unfolding hit_at
  hit_at-IsBelow root path number content hit h =
      let (resolved, e, h1) = when_some-eq (fs.resolve (fs.parts path)) _ h in
      let (relative, b, h2) = when_some-eq (relative_to root resolved) _ h1 in
      subst (IsBelow root) (some-injective h2) (record {
        named = path;
        resolved = resolved;
        relative = relative;
        found = e;
        below = b;
        path = refl;
      })

  hit_of-IsBelow :
      (root : List String) (payload : Fields F) (hit : KeywordSearchHit)
      → hit_of py fs root payload ≡ some hit
      → IsBelow root hit
  unfolding hit_of
  hit_of-IsBelow root payload hit h =
      let (u, e, h1) =
        when_some-eq (if is_match py fs (get_field payload "type") then some (tt {0}) else none) _
          h in
      let (d, e1, h2) = when_some-eq (data_of py fs (get_field payload "data")) _ h1 in
      let (path, e2, h3) = when_some-eq (nested_text py fs (get_field d "path")) _ h2 in
      let (content, e3, h4) = when_some-eq (nested_text py fs (get_field d "lines")) _ h3 in
      let (number, e4, h5) = when_some-eq (line_number py fs (get_field d "line_number")) _ h4 in
      hit_at-IsBelow root path number content hit h5

  abbrev pub Found : ℕ → List String → List KeywordSearchHit → Type 0
  Found n root hits = (length hits ≤ n) × All (IsBelow root) hits

  -- The loop over the lines of the process gives at most as many hits as it may, each of them in a file
  -- whose resolved path is below the root, and named by its path from there.
  pub parse_ripgrep_matches-Found :
      (n : ℕ) (root lines : List String) (hits : List KeywordSearchHit)
      → parse_ripgrep_matches py fs n root lines ≡ done hits
      → Found n root hits
  unfolding parse_ripgrep_matches
  parse_ripgrep_matches-Found zero root lines hits h =
      subst (Found zero root) (done-injective h) (omega arith, tt)
  parse_ripgrep_matches-Found (suc n) root [] hits h =
      subst (Found (suc n) root) (done-injective h) (omega arith, tt)
  parse_ripgrep_matches-Found (suc n) root (line ∷ lines) hits h =
      elim (Option-cases (py.loads line)) [
        | inl e ↦
            parse_ripgrep_matches-Found (suc n) root lines hits (rw (e, parse_ripgrep_matches) at h)
        | inr (v, e) ↦
            let (payload, p, h1) =
              >>=-eq-done (payload_of py fs v) _ (rw (e, parse_ripgrep_matches) at h) in
            elim (Option-cases (hit_of py fs root payload)) [
              | inl k ↦
                  parse_ripgrep_matches-Found (suc n) root lines hits
                    (rw (k, parse_ripgrep_matches) at h1)
              | inr (hit, k) ↦
                  let (rest, q, h2) =
                    >>=-eq-done (parse_ripgrep_matches py fs n root lines) _
                      (rw (k, parse_ripgrep_matches) at h1) in
                  let (few, below) = parse_ripgrep_matches-Found n root lines rest q in
                  subst (Found (suc n) root) (done-injective h2)
                    (omega (arith, few), (hit_of-IsBelow root payload hit k, below))
            ]
      ]
