-- ===== src/Worker/Symbols/Graph.antt =====
-- The relations of a scan form a graph on its symbols.
use ai_test.Base.{
  String, ◌≡◌, ◌≢◌, refl, sym, ◌∙◌, subst, true, false, not, ◌&&◌, ◌||◌, Option, none, some, List,
  [], ◌∷◌, All, ◌==◌, str_eq, arith, inl, inr, Bool-cases, Option-cases,
}
use mathlib.Core.List.{Memᴰ}
use mathlib.Core.List.Memᴰ.{head, tail}
use ai_test.SourceScans.Models.{CodeSymbol, SymbolRelation, ParsedSymbolRelation}
use ai_test.Worker.Symbols.{
  by_qualified_name, by_name, is_member, admits, has_relation, recorded, symbol_relations,
}

some-injective : {A : Type 0} {a b : A} → some a ≡ some b → a ≡ b
some-injective h = cc

none-some : {A : Type 0} {a : A} → none ≡ some a → ⊥
none-some h = cc

cons-injective : {A : Type 0} {a b : A} {xs ys : List A} → a ∷ xs ≡ b ∷ ys → a ≡ b
cons-injective h = cc

module _ {F : Type 0} where
  -- A relation between two different symbols, whose target has a type that it admits.
  pub record IsEdge (symbols : List (CodeSymbol F)) (r : SymbolRelation F) : Type 0 where
    pub source : CodeSymbol F
    pub target : CodeSymbol F
    pub source_stored : Memᴰ source symbols
    pub target_stored : Memᴰ target symbols
    pub source_id : r.source_symbol_id ≡ source.id
    pub target_id : r.target_symbol_id ≡ target.id
    pub apart : r.source_symbol_id ≢ r.target_symbol_id
    pub admitted : admits r.relation_type target.symbol_type ≡ true

  -- No two relations have the same ends and the same type, as the table's constraint wants it.
  abbrev pub HasUniqueKeys : List (SymbolRelation F) → Type 0
  HasUniqueKeys [] = Unit
  HasUniqueKeys (r ∷ rs) =
      (has_relation rs r.source_symbol_id r.target_symbol_id r.relation_type ≡ false)
      × HasUniqueKeys rs

  -- A relation that is not among those.
  abbrev IsNew : List (SymbolRelation F) → SymbolRelation F → Type 0
  IsNew seen r = has_relation seen r.source_symbol_id r.target_symbol_id r.relation_type ≡ false

  by_qualified_name-stored :
      (symbols : List (CodeSymbol F)) (name : String) (s : CodeSymbol F)
      → by_qualified_name symbols name ≡ some s
      → Memᴰ s symbols
  unfolding by_qualified_name
  by_qualified_name-stored [] name s h = cc
  by_qualified_name-stored (t ∷ symbols) name s h =
      elim (Option-cases (by_qualified_name symbols name)) [
        | inl e ↦ elim (Bool-cases (str_eq t.qualified_name name)) [
          | inl k ↦ head (sym (some-injective (rw (e, k, by_qualified_name) at h)))
          | inr k ↦ absurd (none-some (rw (e, k, by_qualified_name) at h))
        ]
        | inr (u, e) ↦
            tail (by_qualified_name-stored symbols name s (e ∙ (rw (e, by_qualified_name) at h)))
      ]

  by_name-stored :
      (symbols : List (CodeSymbol F)) (name : String) (s : CodeSymbol F)
      (rest : List (CodeSymbol F))
      → by_name symbols name ≡ s ∷ rest
      → Memᴰ s symbols
  unfolding by_name
  by_name-stored [] name s rest h = cc
  by_name-stored (t ∷ symbols) name s rest h =
      elim (Bool-cases (not (is_member t.symbol_type) && str_eq t.name name)) [
        | inl k ↦ head (sym (cons-injective (rw (k, by_name) at h)))
        | inr k ↦ tail (by_name-stored symbols name s rest (rw (k, by_name) at h))
      ]

  recorded-IsEdge :
      (symbols : List (CodeSymbol F)) (r : ParsedSymbolRelation F) (seen : List (SymbolRelation F))
      (new : SymbolRelation F) (source : Option (CodeSymbol F)) (candidates : List (CodeSymbol F))
      → ((s : CodeSymbol F) → source ≡ some s → Memᴰ s symbols)
      → ((s : CodeSymbol F) (rest : List (CodeSymbol F)) → candidates ≡ s ∷ rest → Memᴰ s symbols)
      → recorded source candidates r seen ≡ some new
      → IsEdge symbols new × IsNew seen new
  recorded-IsEdge symbols r seen new none candidates a b h = cc
  recorded-IsEdge symbols r seen new (some s) [] a b h = cc
  recorded-IsEdge symbols r seen new (some s) (t ∷ []) a b h =
      elim (Bool-cases (
        not (admits r.relation_type t.symbol_type)
        || (s.id == t.id || has_relation seen s.id t.id r.relation_type))) [
          | inl k ↦ absurd (none-some (rw (k, recorded) at h))
          | inr k ↦
              subst (λ new. IsEdge symbols new × IsNew seen new)
                (some-injective (rw (k, recorded) at h))
                (
                  record {
                    source = s;
                    target = t;
                    source_stored = a s refl;
                    target_stored = b t [] refl;
                    source_id = refl;
                    target_id = refl;
                    apart = λ e. ground (arith, k, e);
                    admitted = ground (arith, k);
                  },
                  ground (arith, k),
                )
        ]
  recorded-IsEdge symbols r seen new (some s) (t ∷ u ∷ rest) a b h = cc

  -- A relation that is recorded later has other ends or another type than one recorded before.
  IsNew-front :
      (new r : SymbolRelation F) (seen : List (SymbolRelation F))
      → IsNew (new ∷ seen) r
      → IsNew seen r × IsNew (r ∷ []) new
  IsNew-front new r seen h = (ground (arith, h), ground (arith, h))

  IsNew-All :
      (new : SymbolRelation F) (rs seen : List (SymbolRelation F))
      → All (IsNew (new ∷ seen)) rs
      → All (IsNew seen) rs × IsNew rs new
  IsNew-All new [] seen h = (tt, refl)
  IsNew-All new (r ∷ rs) seen h =
      let (a, b) = IsNew-front new r seen h.0 in
      let (c, d) = IsNew-All new rs seen h.1 in ((a, c), ground (arith, b, d))

  abbrev IsGraph : List (CodeSymbol F) → List (SymbolRelation F) → List (SymbolRelation F) → Type 0
  IsGraph symbols seen rs = All (IsEdge symbols) rs × HasUniqueKeys rs × All (IsNew seen) rs

  symbol_relations-skip :
      (symbols : List (CodeSymbol F)) (r : ParsedSymbolRelation F)
      (parsed : List (ParsedSymbolRelation F)) (seen : List (SymbolRelation F))
      → recorded
          (by_qualified_name symbols r.source_qualified_name)
          (by_name symbols r.target_name)
          r
          seen
        ≡ none
      → symbol_relations symbols parsed seen ≡ symbol_relations symbols (r ∷ parsed) seen
  unfolding symbol_relations
  symbol_relations-skip symbols r parsed seen e = rw (e, symbol_relations) refl

  symbol_relations-add :
      (symbols : List (CodeSymbol F)) (r : ParsedSymbolRelation F)
      (parsed : List (ParsedSymbolRelation F)) (seen : List (SymbolRelation F))
      (new : SymbolRelation F)
      → recorded
          (by_qualified_name symbols r.source_qualified_name)
          (by_name symbols r.target_name)
          r
          seen
        ≡ some new
      → new ∷ symbol_relations symbols parsed (new ∷ seen)
        ≡ symbol_relations symbols (r ∷ parsed) seen
  unfolding symbol_relations
  symbol_relations-add symbols r parsed seen new e = rw (e, symbol_relations) refl

  symbol_relations-IsGraph :
      (symbols : List (CodeSymbol F)) (parsed : List (ParsedSymbolRelation F))
      (seen : List (SymbolRelation F))
      → IsGraph symbols seen (symbol_relations symbols parsed seen)
  unfolding symbol_relations
  symbol_relations-IsGraph symbols [] seen = (tt, tt, tt)
  symbol_relations-IsGraph symbols (r ∷ parsed) seen =
      elim (Option-cases (
        recorded (by_qualified_name symbols r.source_qualified_name) (by_name symbols r.target_name)
          r seen)) [
            | inl e ↦
                subst (IsGraph symbols seen) (symbol_relations-skip symbols r parsed seen e)
                  (symbol_relations-IsGraph symbols parsed seen)
            | inr (new, e) ↦
                let (edge, fresh) =
                  recorded-IsEdge symbols r seen new _ _
                    (by_qualified_name-stored symbols r.source_qualified_name)
                    (by_name-stored symbols r.target_name) e in
                let (edges, keys, news) = symbol_relations-IsGraph symbols parsed (new ∷ seen) in
                let (older, unique) = IsNew-All new _ seen news in
                subst (IsGraph symbols seen) (symbol_relations-add symbols r parsed seen new e)
                  ((edge, edges), (unique, keys), (fresh, older))
          ]

  -- Each relation that a scan records leads from a stored symbol to another one, whose type it
  -- admits, and no two of them have the same ends and the same type.
  pub symbol_relations_lem :
      (symbols : List (CodeSymbol F)) (parsed : List (ParsedSymbolRelation F))
      → All (IsEdge symbols) (symbol_relations symbols parsed [])
        × HasUniqueKeys (symbol_relations symbols parsed [])
  symbol_relations_lem symbols parsed =
      let (edges, keys, news) = symbol_relations-IsGraph symbols parsed [] in (edges, keys)
