-- ===== src/Knowledge/Exact/Hops.antt =====
-- What `_expand_symbol_ids` reaches.
use ai_test.Base.{
  ℕ, zero, suc, ◌+◌, ◌≡◌, refl, subst, ◌↔◌, ◌⊎◌, Bool, true, false, ◌&&◌, ◌||◌, List, [], ◌∷◌, ◌++◌,
  any, ◌==◌, arith, inl, inr, Bool-cases,
}
use ai_test.Execution.Create.{among}
use ai_test.SourceScans.Models.{CodeSymbol, SymbolRelation}
use ai_test.Knowledge.Exact.{parents, next_frontier, expand, expand_symbol_ids, max_relation_depth}

among-append : (v : ℕ) (xs ys : List ℕ) → among v (xs ++ ys) ≡ (among v xs || among v ys)
among-append v [] ys = refl
among-append v (x ∷ xs) ys = ground (arith, among-append v xs ys)

List-cases : {A : Type 0} (xs : List A) → (xs ≡ []) ⊎ ((x : A) × (rest : List A) × (xs ≡ x ∷ rest))
List-cases [] = inl refl
List-cases (x ∷ xs) = inr (x, xs, refl)

module _ {F : Type 0} where
  -- A relation between the two, in either direction.
  abbrev pub linked : List (SymbolRelation F) → ℕ → ℕ → Bool
  linked relations u v =
      any
        (λ r.
          (r.source_symbol_id == u && r.target_symbol_id == v)
          || (r.target_symbol_id == u && r.source_symbol_id == v))
        relations

  -- At most `n` relations away from one of `start`.
  pub data WithinHops (relations : List (SymbolRelation F)) (start : List ℕ) : ℕ → ℕ → Type 0 where
    at : (n v : ℕ) → among v start ≡ true → WithinHops relations start n v
    hop :
        {n u : ℕ} (v : ℕ)
        → WithinHops relations start n u
        → linked relations u v ≡ true
        → WithinHops relations start (suc n) v

  next_frontier-linked :
      (frontier selected : List ℕ) (relations : List (SymbolRelation F)) (v : ℕ)
      → among v (next_frontier frontier selected relations) ≡ true
      → (u : ℕ) × (among u frontier ≡ true) × (linked relations u v ≡ true)
  unfolding next_frontier
  next_frontier-linked frontier selected [] v h = cc
  next_frontier-linked frontier selected (r ∷ relations) v h =
      elim (Bool-cases (among r.source_symbol_id frontier && r.target_symbol_id == v)) [
        | inl e ↦ (r.source_symbol_id, ground (arith, e), ground (arith, e))
        | inr e ↦ elim (Bool-cases (among r.target_symbol_id frontier && r.source_symbol_id == v)) [
          | inl k ↦ (r.target_symbol_id, ground (arith, k), ground (arith, k))
          | inr k ↦
              let (u, a, l) =
                next_frontier-linked frontier selected relations v (ground (arith, h, e, k)) in
              (u, a, ground (arith, l))
        ]
      ]

  next_frontier_complete :
      (frontier selected : List ℕ) (relations : List (SymbolRelation F)) (u v : ℕ)
      → among u frontier ≡ true
      → linked relations u v ≡ true
      → (among v selected || among v (next_frontier frontier selected relations)) ≡ true
  unfolding next_frontier
  next_frontier_complete frontier selected [] u v h l = cc
  next_frontier_complete frontier selected (r ∷ relations) u v h l =
      ground (arith, next_frontier_complete frontier selected relations u v)

  -- What the members outside the frontier lead to is selected.
  abbrev IsClosed : List (SymbolRelation F) → List ℕ → List ℕ → Type 0
  IsClosed relations frontier selected =
      (u v : ℕ)
      → among u selected ≡ true
      → among u frontier ≡ false
      → linked relations u v ≡ true
      → among v selected ≡ true

  WithinHops-more :
      (relations : List (SymbolRelation F)) (start : List ℕ) (n v : ℕ)
      → WithinHops relations start n v
      → WithinHops relations start (suc n) v
  WithinHops-more relations start n v (at _ _ h) = at (suc n) v h
  WithinHops-more relations start (suc n) v (hop {u = u} _ h l) =
      hop v (WithinHops-more relations start n u h) l

  WithinHops-further :
      (relations : List (SymbolRelation F)) (start : List ℕ) (d k n v : ℕ)
      → k + d ≡ n
      → WithinHops relations start k v
      → WithinHops relations start n v
  WithinHops-further relations start zero k n v e h =
      let same : k ≡ n = omega (arith, e) in subst (λ m. WithinHops relations start m v) same h
  WithinHops-further relations start (suc d) k n v e h =
      WithinHops-further relations start d (suc k) n v (omega (arith, e))
        (WithinHops-more relations start k v h)

  at_once :
      (relations : List (SymbolRelation F)) (start : List ℕ) (v : ℕ)
      → WithinHops relations start 0 v
      → among v start ≡ true
  at_once relations start v (at _ _ h) = h

  -- One round later the selection is one hop nearer.
  WithinHops-round :
      (relations : List (SymbolRelation F)) (frontier selected : List ℕ)
      → IsClosed relations frontier selected
      → (n v : ℕ) → WithinHops relations selected (suc n) v
      → WithinHops relations (selected ++ next_frontier frontier selected relations) n v
  WithinHops-round relations frontier selected c n v (at _ _ h) =
      at n v
        (ground (arith, h, among-append v selected (next_frontier frontier selected relations)))
  WithinHops-round relations frontier selected c zero v (hop {u = u} _ h l) = at 0 v (
      ground (
        arith,
        c u v (at_once relations selected u h),
        next_frontier_complete frontier selected relations u v,
        l,
        among-append v selected (next_frontier frontier selected relations),
      ))
  WithinHops-round relations frontier selected c (suc n) v (hop {u = u} _ h l) =
      hop v (WithinHops-round relations frontier selected c n u h) l

  IsClosed-round :
      (relations : List (SymbolRelation F)) (frontier selected : List ℕ)
      → IsClosed relations frontier selected
      → IsClosed relations
          (next_frontier frontier selected relations)
          (selected ++ next_frontier frontier selected relations)
  IsClosed-round relations frontier selected c u v a b l = ground (
    arith,
    a,
    b,
    c u v,
    next_frontier_complete frontier selected relations u v,
    l,
    among-append u selected (next_frontier frontier selected relations),
    among-append v selected (next_frontier frontier selected relations),
  )

  either-hops :
      (relations : List (SymbolRelation F)) (start : List ℕ) (k w : ℕ) (selected ids : List ℕ)
      → (among w selected ≡ true → WithinHops relations start k w)
      → (among w ids ≡ true → WithinHops relations start (suc k) w)
      → among w (selected ++ ids) ≡ true
      → WithinHops relations start (suc k) w
  either-hops relations start k w selected ids a b h = elim (Bool-cases (among w selected)) [
    | inl e ↦ WithinHops-more relations start k w (a e)
    | inr e ↦ b (ground (arith, e, h, among-append w selected ids))
  ]

  expand_sound :
      (relations : List (SymbolRelation F)) (start : List ℕ) (n k m : ℕ)
      (frontier selected : List ℕ)
      → k + n ≡ m
      → ((v : ℕ) → among v selected ≡ true → WithinHops relations start k v)
      → ((v : ℕ) → among v frontier ≡ true → WithinHops relations start k v)
      → (v : ℕ) → among v (expand n relations frontier selected) ≡ true
      → WithinHops relations start m v
  unfolding expand
  expand_sound relations start zero k m frontier selected e a b v h =
      WithinHops-further relations start zero k m v e (a v h)
  expand_sound relations start (suc n) k m frontier selected e a b v h =
      let next = next_frontier frontier selected relations in
      let found : (v : ℕ) → among v next ≡ true → WithinHops relations start (suc k) v = λ v q.
        let (u, f, l) = next_frontier-linked frontier selected relations v q in hop v (b u f) l in
      elim (List-cases next) [
        | inl c ↦ WithinHops-further relations start (suc n) k m v e (a v (rw (c, expand) at h))
        | inr (i, ids, c) ↦
            expand_sound relations start n (suc k) m (i ∷ ids) (selected ++ (i ∷ ids))
              (omega (arith, e))
              (λ w q. either-hops relations start k w selected (i ∷ ids) (a w) (rw c at found w) q)
              (rw c at found) v (rw (c, expand) at h)
      ]

  -- Without a frontier nothing is left to reach.
  closed_whole :
      (relations : List (SymbolRelation F)) (selected : List ℕ)
      → IsClosed relations [] selected
      → (n v : ℕ) → WithinHops relations selected n v
      → among v selected ≡ true
  closed_whole relations selected c n v (at _ _ h) = h
  closed_whole relations selected c (suc n) v (hop {u = u} _ h l) =
      c u v (closed_whole relations selected c n u h) refl l

  expand_complete :
      (relations : List (SymbolRelation F)) (n : ℕ) (frontier selected : List ℕ)
      → IsClosed relations frontier selected
      → (v : ℕ) → WithinHops relations selected n v
      → among v (expand n relations frontier selected) ≡ true
  unfolding expand
  expand_complete relations zero frontier selected c v h = at_once relations selected v h
  expand_complete relations (suc n) frontier selected c v h =
      let next = next_frontier frontier selected relations in
      let closer = WithinHops-round relations frontier selected c n v h in
      let closed = IsClosed-round relations frontier selected c in
      elim (List-cases next) [
        | inl e ↦
            let all =
              closed_whole relations (selected ++ []) (rw e at closed) n v (rw e at closer) in
            rw (e, expand) (ground (arith, all, among-append v selected []))
        | inr (i, ids, e) ↦
            rw (e, expand)
              (expand_complete relations n (i ∷ ids) (selected ++ (i ∷ ids)) (rw e at closed) v
                (rw e at closer))
      ]

  -- The symbols that are selected are those at most two relations, in either direction, away from a
  -- seed or from the parent of a seed.
  pub expand_symbol_ids-WithinHops :
      (seeds : List ℕ) (symbols : List (CodeSymbol F)) (relations : List (SymbolRelation F)) (v : ℕ)
      → (among v (expand_symbol_ids seeds symbols relations) ≡ true)
        ↔ WithinHops relations (seeds ++ parents symbols seeds) max_relation_depth v
  unfolding expand_symbol_ids
  expand_symbol_ids-WithinHops seeds symbols relations v =
      let start = seeds ++ parents symbols seeds in
      (
        expand_sound relations start 2 0 2 start start refl (λ w h. at 0 w h) (λ w h. at 0 w h) v,
        expand_complete relations 2 start start (λ u w a b l. ground (arith, a, b)) v,
      )
