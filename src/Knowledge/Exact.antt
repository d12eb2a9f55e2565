-- ===== src/Knowledge/Exact.antt =====
-- backend/app/modules/knowledge/exact_retrieval.py: the symbols around an interface, with their
-- chunks. A set of identifiers is a list of its members.
pub mod Hops
use ai_test.Base.{
  ℕ, zero, suc, String, Bool, true, false, not, ◌&&◌, ◌||◌, Option, none, some, List, [], ◌∷◌, ◌++◌,
  any, ◌==◌, str_eq, if◌then◌else◌,
}
use ai_test.Base.Int.{eqb_ℤ}
use ai_test.Base.Outcome.{Outcome, done, failed, ◌>>=◌, ◌>>◌}
use ai_test.Execution.Create.{among, by_id}
use ai_test.SourceScans.Models.{CodeSymbol, SymbolRelation, ScannedApi}
use ai_test.SourceScans.Reader.{SourceArtifact}
use ai_test.Knowledge.Models.{KnowledgeChunk}
use ai_test.Knowledge.Search.{KeywordSearchHit}

pub record ExactRetrievalResult (F : Type 0) : Type 0 where
  pub api_definition : ScannedApi F
  pub symbols : List (CodeSymbol F)
  pub chunks : List (KnowledgeChunk F)
  pub keyword_hits : List KeywordSearchHit

-- `(path, line) in unique_hits`
abbrev pub has_hit : List KeywordSearchHit → KeywordSearchHit → Bool
has_hit hits h =
    any (λ g. str_eq g.relative_path h.relative_path && eqb_ℤ g.line_number h.line_number) hits

-- `_deduplicate_keyword_hits`, behind the hits that are there already
unfoldable pub new_hits : List KeywordSearchHit → List KeywordSearchHit → List KeywordSearchHit
new_hits seen [] = []
new_hits seen (h ∷ hits) =
    if has_hit seen h then new_hits seen hits else h ∷ new_hits (h ∷ seen) hits

abbrev seeds_of : Option ℕ → List ℕ
seeds_of none = []
seeds_of (some i) = i ∷ []

abbrev pub max_relation_depth : ℕ
max_relation_depth = 2

-- The rows of one scan. `chunks_of` is the query of the chunks of some symbols, and `search` the
-- search in the scan's artifact.
pub record ScanRows (F E : Type 0) : Type 0 where
  pub symbols : List (CodeSymbol F)
  pub relations : List (SymbolRelation F)
  pub chunks_of : List ℕ → List (KnowledgeChunk F)
  pub search : String → Outcome E (List KeywordSearchHit)

module _ {F : Type 0} where
  -- The parents of the seeds.
  unfoldable pub parents : List (CodeSymbol F) → List ℕ → List ℕ
  unfolding by_id
  parents symbols [] = []
  parents symbols (i ∷ ids) =
      let rest = parents symbols ids in
      elim (by_id (λ s. s.id) i symbols) [
        | none ↦ rest
        | some s ↦ elim s.parent_symbol_id [ none ↦ rest | some p ↦ p ∷ rest ]
      ]

  -- One round: what the relations lead to from the frontier, in both directions.
  unfoldable pub next_frontier : List ℕ → List ℕ → List (SymbolRelation F) → List ℕ
  next_frontier frontier selected [] = []
  next_frontier frontier selected (r ∷ relations) =
      let rest = next_frontier frontier selected relations in
      let back =
        if among r.target_symbol_id frontier && not (among r.source_symbol_id selected)
        then r.source_symbol_id ∷ rest
        else rest in
      if among r.source_symbol_id frontier && not (among r.target_symbol_id selected)
      then r.target_symbol_id ∷ back
      else back

  -- The rounds that are left; an empty frontier ends the loop.
  unfoldable pub expand : ℕ → List (SymbolRelation F) → List ℕ → List ℕ → List ℕ
  unfolding next_frontier
  expand zero relations frontier selected = selected
  expand (suc n) relations frontier selected = elim (next_frontier frontier selected relations) [
    | [] ↦ selected
    | i ∷ ids ↦ expand n relations (i ∷ ids) (selected ++ (i ∷ ids))
  ]

  -- `_expand_symbol_ids`
  unfoldable pub expand_symbol_ids : List ℕ → List (CodeSymbol F) → List (SymbolRelation F) → List ℕ
  unfolding parents expand
  expand_symbol_ids seeds symbols relations =
      let selected = seeds ++ parents symbols seeds in
      expand max_relation_depth relations selected selected

  -- The symbols that are selected.
  unfoldable pub selected_symbols : List ℕ → List (CodeSymbol F) → List (CodeSymbol F)
  selected_symbols ids [] = []
  selected_symbols ids (s ∷ symbols) =
      let rest = selected_symbols ids symbols in if among s.id ids then s ∷ rest else rest

  module _ {E : Type 0} (rows : ScanRows F E) where
    abbrev hits_of : Option ℕ → Outcome E (List KeywordSearchHit)
    hits_of none = done []
    hits_of (some i) = elim (by_id (λ s. s.id) i rows.symbols) [
      | none ↦ done []
      | some s ↦ rows.search s.name
    ]

    abbrev chunks_of_symbols : List ℕ → List (KnowledgeChunk F)
    chunks_of_symbols [] = []
    chunks_of_symbols (i ∷ ids) = rows.chunks_of (i ∷ ids)

    -- `retrieve_exact_context` of an interface that is found
    unfoldable pub retrieve_exact_context : ScannedApi F → Outcome E (ExactRetrievalResult F)
    unfolding expand_symbol_ids selected_symbols new_hits by_id
    retrieve_exact_context api = do
      let seeds = seeds_of api.controller_symbol_id ++ seeds_of api.method_symbol_id
      let ids = expand_symbol_ids seeds rows.symbols rows.relations
      method_hits ← hits_of api.method_symbol_id
      controller_hits ← hits_of api.controller_symbol_id
      done (record {
        api_definition = api;
        symbols = selected_symbols ids rows.symbols;
        chunks = chunks_of_symbols ids;
        keyword_hits = new_hits [] (method_hits ++ controller_hits);
      })
