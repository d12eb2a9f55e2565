-- ===== src/Knowledge/Embedding/Vectors.antt =====
-- The vectors of a response belong to the texts.
use ai_test.Base.{
  ℕ, suc, ◌≡◌, refl, ap, ◌∙◌, subst, true, false, not, ◌||◌, List, [], ◌∷◌, map, length, any, ◌==◌,
  leb, arith, inl, inr, Bool-cases, All, All-map,
}
use mathlib.Core.List.{Memᴰ}
use mathlib.Core.List.Memᴰ.{head, tail}
use ai_test.Base.Outcome.{done, fail_if-eq-done, done-injective}
use ai_test.Knowledge.Embedding.{EmbeddingData, insert_data, by_index, is_range, vectors_of}

module _ {F : Type 0} where
  -- The vectors are those that the response has under the indices from `i` on.
  abbrev pub Answers : ℕ → List (EmbeddingData F) → ℕ → List (List F) → Type 0
  Answers dimensions items i [] = Unit
  Answers dimensions items i (v ∷ vectors) =
      ((d : EmbeddingData F) × Memᴰ d items
        × (d.index ≡ i)
        × (d.embedding ≡ v)
        × (length v ≡ dimensions))
      × Answers dimensions items (suc i) vectors

  insert_data-All :
      (P : EmbeddingData F → Type 0) (d : EmbeddingData F) (ds : List (EmbeddingData F))
      → P d
      → All P ds
      → All P (insert_data d ds)
  unfolding insert_data
  insert_data-All P d [] p h = (p, tt)
  insert_data-All P d (e ∷ ds) p h = elim (Bool-cases (leb d.index e.index)) [
    | inl k ↦ rw (k, All, insert_data) (p, h)
    | inr k ↦ rw (k, All, insert_data) (h.0, insert_data-All P d ds p h.1)
  ]

  by_index-stored :
      (items ds : List (EmbeddingData F))
      → All (λ d. Memᴰ d items) ds
      → All (λ d. Memᴰ d items) (by_index ds)
  unfolding by_index
  by_index-stored items [] h = tt
  by_index-stored items (d ∷ ds) h =
      insert_data-All (λ d. Memᴰ d items) d (by_index ds) h.0 (by_index-stored items ds h.1)

  own_members : (ds : List (EmbeddingData F)) → All (λ d. Memᴰ d ds) ds
  own_members [] = tt
  own_members (d ∷ ds) = (head refl, All-map (λ e m. tail m) ds (own_members ds))

  is_range-Answers :
      (dimensions : ℕ) (items ds : List (EmbeddingData F)) (i : ℕ)
      → All (λ d. Memᴰ d items) ds
      → is_range i ds ≡ true
      → any (λ d. not (length d.embedding == dimensions)) ds ≡ false
      → Answers dimensions items i (map (λ d. d.embedding) ds)
  unfolding is_range
  is_range-Answers dimensions items [] i h k l = tt
  is_range-Answers dimensions items (d ∷ ds) i h k l = (
    (d, h.0, ground (arith, k), refl, ground (arith, l)),
    is_range-Answers dimensions items ds (suc i) h.1 (ground (arith, k)) (ground (arith, l)),
  )

  length-map : (ds : List (EmbeddingData F)) → length (map (λ d. d.embedding) ds) ≡ length ds
  length-map [] = refl
  length-map (d ∷ ds) = ap suc (length-map ds)

  -- If a response is accepted, there is one vector for each text, that of the response's item with the
  -- index of the text, and of the configured dimension, in whatever order the items come.
  pub vectors_of-Answers :
      (dimensions texts : ℕ) (items : List (EmbeddingData F)) (vectors : List (List F))
      → vectors_of dimensions texts items ≡ done vectors
      → (length vectors ≡ texts) × Answers dimensions items 0 vectors
  unfolding vectors_of
  vectors_of-Answers dimensions texts items vectors h =
      let ordered = by_index items in
      let (r, h1) =
        fail_if-eq-done (not (length ordered == texts) || not (is_range 0 ordered)) _ _ h in
      let (d, h2) =
        fail_if-eq-done (any (λ d. not (length d.embedding == dimensions)) ordered) _ _ h1 in
      let e : length ordered ≡ texts = ground (arith, r) in
      subst (λ vectors. (length vectors ≡ texts) × Answers dimensions items 0 vectors)
        (done-injective h2)
        (
          length-map ordered ∙ e,
          is_range-Answers dimensions items ordered 0
              (by_index-stored items items (own_members items)) (ground (arith, r)) d,
        )
