-- ===== src/Worker/Symbols.antt =====
-- The symbols and relations that a scan stores (`process_next` of backend/app/workers/task_worker.py).
-- The identifiers of new rows are consecutive numbers from a first one on.
pub mod Graph
use ai_test.Base.{
  ℕ, zero, suc, String, Bool, true, false, not, ◌&&◌, ◌||◌, Option, none, some, List, [], ◌∷◌, any,
  ◌==◌, str_eq, if◌then◌else◌,
}
use ai_test.SourceScans.Models.{
  SymbolType, RelationType, same_relation_type, CodeSymbol, SymbolRelation, ParsedCodeSymbol,
  ParsedSymbolRelation,
}

abbrev pub is_member : SymbolType → Bool
is_member SymbolType.field = true
is_member SymbolType.method = true
is_member _ = false

-- The types of targets that a relation admits.
unfoldable pub admits : RelationType → SymbolType → Bool
admits RelationType.uses_dto SymbolType.dto = true
admits RelationType.uses_dto _ = false
admits RelationType.throws SymbolType.exception = true
admits RelationType.throws _ = false
admits RelationType.calls _ = true
admits RelationType.references _ = true

module _ {F : Type 0} where
  unfoldable pub code_symbols : ℕ → List (ParsedCodeSymbol F) → List (CodeSymbol F)
  code_symbols id [] = []
  code_symbols id (s ∷ parsed) =
      record {
        id = id;
        source_file_id = s.source_file_id;
        parent_symbol_id = none;
        symbol_type = s.symbol_type;
        name = s.name;
        qualified_name = s.qualified_name;
        signature = s.signature;
        start_line = s.start_line;
        end_line = s.end_line;
        annotations = s.annotations;
        metadata = s.metadata;
      }
      ∷ code_symbols (suc id) parsed

  -- `symbols_by_qualified_name.get(name)`: the last symbol of a name
  unfoldable pub by_qualified_name : List (CodeSymbol F) → String → Option (CodeSymbol F)
  by_qualified_name [] name = none
  by_qualified_name (s ∷ symbols) name = elim (by_qualified_name symbols name) [
    | some t ↦ some t
    | none ↦ if str_eq s.qualified_name name then some s else none
  ]

  abbrev with_parent : CodeSymbol F → Option (CodeSymbol F) → CodeSymbol F
  with_parent s none = s
  with_parent s (some parent) = record {
    id = s.id;
    source_file_id = s.source_file_id;
    parent_symbol_id = some parent.id;
    symbol_type = s.symbol_type;
    name = s.name;
    qualified_name = s.qualified_name;
    signature = s.signature;
    start_line = s.start_line;
    end_line = s.end_line;
    annotations = s.annotations;
    metadata = s.metadata;
  }

  abbrev parent_of : List (CodeSymbol F) → Option String → Option (CodeSymbol F)
  parent_of all_symbols none = none
  parent_of all_symbols (some name) = by_qualified_name all_symbols name

  -- The loop over parsed and stored symbols that links each symbol to its parent.
  unfoldable pub link_parents :
      List (CodeSymbol F) → List (ParsedCodeSymbol F) → List (CodeSymbol F) → List (CodeSymbol F)
  unfolding by_qualified_name
  link_parents all_symbols (p ∷ parsed) (s ∷ symbols) =
      with_parent s (parent_of all_symbols p.parent_qualified_name)
      ∷ link_parents all_symbols parsed symbols
  link_parents all_symbols _ symbols = symbols

  -- `symbols_by_name.get(name, [])`: fields and methods are no candidates
  unfoldable pub by_name : List (CodeSymbol F) → String → List (CodeSymbol F)
  by_name [] name = []
  by_name (s ∷ symbols) name =
      let rest = by_name symbols name in
      if not (is_member s.symbol_type) && str_eq s.name name then s ∷ rest else rest

  -- `relation_key in relation_keys`, the keys being those of the relations so far
  abbrev pub has_relation : List (SymbolRelation F) → ℕ → ℕ → RelationType → Bool
  has_relation relations source target relation_type =
      any
        (λ r.
          r.source_symbol_id == source
          && (r.target_symbol_id == target && same_relation_type r.relation_type relation_type))
        relations

  abbrev pub new_relation : CodeSymbol F → CodeSymbol F → ParsedSymbolRelation F → SymbolRelation F
  new_relation source target r = record {
    source_symbol_id = source.id;
    target_symbol_id = target.id;
    relation_type = r.relation_type;
    metadata = r.metadata;
  }

  -- A relation is recorded between a known symbol and the only candidate for its target.
  abbrev pub recorded :
      Option (CodeSymbol F)
      → List (CodeSymbol F)
      → ParsedSymbolRelation F
      → List (SymbolRelation F)
      → Option (SymbolRelation F)
  recorded (some source) (target ∷ []) r seen =
      if not (admits r.relation_type target.symbol_type)
        || (source.id == target.id || has_relation seen source.id target.id r.relation_type)
      then none
      else some (new_relation source target r)
  recorded _ _ r seen = none

  -- The loop over the parsed relations; `seen` holds those that are recorded already.
  unfoldable pub symbol_relations :
      List (CodeSymbol F)
      → List (ParsedSymbolRelation F)
      → List (SymbolRelation F)
      → List (SymbolRelation F)
  unfolding by_qualified_name by_name admits
  symbol_relations symbols [] seen = []
  symbol_relations symbols (r ∷ rest) seen =
      elim (recorded (by_qualified_name symbols r.source_qualified_name)
        (by_name symbols r.target_name) r seen) [
          | none ↦ symbol_relations symbols rest seen
          | some new ↦ new ∷ symbol_relations symbols rest (new ∷ seen)
        ]
