-- ===== src/Knowledge/Hybrid/Budget.antt =====
-- The context that is returned keeps to its budget.
use ai_test.Base.{
  ℕ, zero, suc, ◌+◌, ◌-◌, ◌≤◌, ◌≡◌, refl, ap, sym, subst, String, true, false, ◌||◌, List, [], ◌∷◌,
  length, ltb, ◌==◌, if◌then◌else◌, arith, inl, inr, Bool-cases,
}
use ai_test.Base.Text
use ai_test.Base.Text.{is_empty, take}
use ai_test.SourceScans.Models.{CodeSymbol, SourceFile}
use ai_test.Knowledge.Hybrid.{
  FloatOps, Entry, KnowledgeContextChunk, context_chunk, apply_context_budget,
}

module _ {F : Type 0} where
  -- The characters of some chunks.
  abbrev pub characters : List (KnowledgeContextChunk F) → ℕ
  characters [] = 0
  characters (c ∷ chunks) = Text.length c.content + characters chunks

  -- The values are those of the first entries: each is whole, or it is the last one, and cut off where
  -- the budget ends.
  pub data Fills : ℕ → List (Entry F) → List (KnowledgeContextChunk F) → Type 0 where
    nothing : (budget : ℕ) (entries : List (Entry F)) → Fills budget entries []
    whole :
        (budget : ℕ) (e : Entry F) (entries : List (Entry F)) (c : KnowledgeContextChunk F)
        (chunks : List (KnowledgeContextChunk F))
        → c.id ≡ e.chunk.id
        → c.content ≡ e.chunk.content
        → c.truncated ≡ false
        → Text.length e.chunk.content ≤ budget
        → Fills (budget - Text.length e.chunk.content) entries chunks
        → Fills budget (e ∷ entries) (c ∷ chunks)
    cut :
        (budget : ℕ) (e : Entry F) (entries : List (Entry F)) (c : KnowledgeContextChunk F)
        → c.id ≡ e.chunk.id
        → c.content ≡ take budget e.chunk.content
        → c.truncated ≡ true
        → suc budget ≤ Text.length e.chunk.content
        → Fills budget (e ∷ entries) (c ∷ [])

length-take : (n : ℕ) (s : String) → n ≤ Text.length s → Text.length (take n s) ≡ n
unfolding Text.length take
length-take zero s h = refl
length-take (suc n) String.[] h = absurd (omega (arith, h))
length-take (suc n) (String.◌∷◌ c s) h = ap suc (length-take n s (omega (arith, h)))

module _ {F : Type 0} where
  Fills-characters :
      (budget : ℕ) (entries : List (Entry F)) (chunks : List (KnowledgeContextChunk F))
      → Fills budget entries chunks
      → characters chunks ≤ budget
  Fills-characters budget entries chunks (nothing _ _) = omega arith
  Fills-characters budget entries chunks (whole _ e rest c cs _ same _ fits more) =
      omega (arith, ap Text.length same, fits, Fills-characters _ rest cs more)
  Fills-characters budget entries chunks (cut _ e rest c _ same _ long) =
      omega (arith, ap Text.length same, length-take budget e.chunk.content (omega (arith, long)))

module _ {F : Type 0} (floats : FloatOps F) (files : List SourceFile)
    (symbols : List (CodeSymbol F)) (version : ℕ) where
  apply_context_budget-zero :
      (limit : ℕ) (entries : List (Entry F))
      → apply_context_budget floats files symbols version limit 0 entries ≡ []
  unfolding apply_context_budget
  apply_context_budget-zero limit [] = refl
  apply_context_budget-zero zero (e ∷ entries) = refl
  apply_context_budget-zero (suc limit) (e ∷ entries) = refl

  cut-Fills :
      (limit budget : ℕ) (e : Entry F) (entries : List (Entry F))
      → ltb budget (Text.length e.chunk.content) ≡ true
      → Fills budget (e ∷ entries) (
          context_chunk floats files symbols version e (take budget e.chunk.content) true
          ∷ apply_context_budget floats files symbols version limit
              (budget - Text.length (take budget e.chunk.content))
              entries)
  cut-Fills limit budget e entries t =
      let long : suc budget ≤ Text.length e.chunk.content = ground (arith, t) in
      let none_left : 0 ≡ budget - Text.length (take budget e.chunk.content) =
        omega (arith, length-take budget e.chunk.content (omega (arith, long))) in
      let chunk = context_chunk floats files symbols version e (take budget e.chunk.content) true in
      subst
        (λ n.
          Fills budget (e ∷ entries)
            (chunk ∷ apply_context_budget floats files symbols version limit n entries))
        none_left
        (subst (λ rest. Fills budget (e ∷ entries) (chunk ∷ rest))
          (sym (apply_context_budget-zero limit entries))
          (cut budget e entries chunk refl refl refl long))

  apply_context_budget-Fills :
      (limit budget : ℕ) (entries : List (Entry F))
      → Fills budget entries
          (apply_context_budget floats files symbols version limit budget entries)
  unfolding apply_context_budget
  apply_context_budget-Fills limit budget [] = nothing budget []
  apply_context_budget-Fills zero budget (e ∷ entries) = nothing budget (e ∷ entries)
  apply_context_budget-Fills (suc limit) budget (e ∷ entries) =
      elim (Bool-cases (ltb budget (Text.length e.chunk.content))) [
        | inl t ↦ elim (Bool-cases (budget == 0 || is_empty (take budget e.chunk.content))) [
          | inl z ↦ rw (t, z, apply_context_budget) (nothing budget (e ∷ entries))
          | inr z ↦ rw (t, z, apply_context_budget) (cut-Fills limit budget e entries t)
        ]
        | inr t ↦ elim (Bool-cases (budget == 0 || is_empty e.chunk.content)) [
          | inl z ↦ rw (t, z, apply_context_budget) (nothing budget (e ∷ entries))
          | inr z ↦
              rw (t, z, apply_context_budget)
                (whole budget e entries _ _ refl refl refl (ground (arith, t))
                  (apply_context_budget-Fills limit _ entries))
        ]
      ]

  apply_context_budget-count :
      (limit budget : ℕ) (entries : List (Entry F))
      → length (apply_context_budget floats files symbols version limit budget entries) ≤ limit
  unfolding apply_context_budget
  apply_context_budget-count limit budget [] = omega arith
  apply_context_budget-count zero budget (e ∷ entries) = omega arith
  apply_context_budget-count (suc limit) budget (e ∷ entries) = ground (
    arith,
    apply_context_budget-count limit
        (budget
          - Text.length (
              if ltb budget (Text.length e.chunk.content)
              then take budget e.chunk.content
              else e.chunk.content))
        entries,
  )

  -- The values are those of the first entries of the ranking, at most as many as the limit, with at
  -- most the budget's number of characters in total; each is whole, or it is the last one and takes
  -- what is left of the budget.
  pub apply_context_budget_lem :
      (limit budget : ℕ) (entries : List (Entry F))
      → let chunks = apply_context_budget floats files symbols version limit budget entries in
        Fills budget entries chunks × (length chunks ≤ limit) × (characters chunks ≤ budget)
  apply_context_budget_lem limit budget entries =
      let fills = apply_context_budget-Fills limit budget entries in
      (
        fills,
        apply_context_budget-count limit budget entries,
        Fills-characters budget entries _ fills,
      )
