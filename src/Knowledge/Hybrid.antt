-- ===== src/Knowledge/Hybrid.antt =====
-- backend/app/modules/knowledge/hybrid_retrieval.py: exact and similar chunks in one ranking, and the
-- part of it that fits the budget. `F` stands for `float`. The three tables of the code have the same
-- keys at any time, so that they are one list of entries.
pub mod Budget
use ai_test.Base.{
  ℕ, zero, suc, ◌+◌, ◌-◌, min, String, ◌<>◌, Bool, true, false, not, ◌&&◌, ◌||◌, Option, none, some,
  List, [], ◌∷◌, ◌++◌, map, length, ltb, leb, ◌==◌, if◌then◌else◌, is_some,
}
use ai_test.Base.Text
use ai_test.Base.Text.{is_empty, strip, take}
use ai_test.Base.Result.{Result, ok, raise}
use ai_test.Execution.Create.{by_id}
use ai_test.SourceScans.Models.{CodeSymbol, SourceFile, ScannedApi}
use ai_test.Knowledge.Models.{KnowledgeChunk, chunk_type_value}
use ai_test.Knowledge.Search.{KeywordSearchHit}
use ai_test.Knowledge.Exact.{ExactRetrievalResult}

-- Python's operations on `float`.
pub record FloatOps (F : Type 0) : Type 0 where
  pub literal : String → F
  pub minus : F → F → F
  pub times : F → F → F
  pub negate : F → F
  pub maximum : F → F → F
  pub less : F → F → Bool
  pub same : F → F → Bool
  pub round4 : F → F

-- What the tables hold of a chunk.
pub record Entry (F : Type 0) : Type 0 where
  pub chunk : KnowledgeChunk F
  pub score : F
  pub exact : Bool
  pub vector : Bool

pub record KnowledgeContextChunk (F : Type 0) : Type 0 where
  pub id : ℕ
  pub chunk_type : String
  pub source_file_path : String
  pub code_symbol : Option String
  pub start_line : ℕ
  pub end_line : ℕ
  pub content : String
  pub original_characters : ℕ
  pub truncated : Bool
  pub score : F
  pub retrieval_sources : List String
  pub scan_version : ℕ

-- `KnowledgeContextResponse`, less the identifier of the interface
pub record KnowledgeContext (F : Type 0) : Type 0 where
  pub scan_version : ℕ
  pub chunks : List (KnowledgeContextChunk F)
  pub keyword_hits : List KeywordSearchHit
  pub embedding_available : Bool

abbrev same_id : Option ℕ → Option ℕ → Bool
same_id none none = true
same_id (some i) (some j) = i == j
same_id _ _ = false

-- `_embedding_query`
unfoldable pub embedding_query : String → String → Option String → String
unfolding strip
embedding_query method path none = method <> " " <> path
embedding_query method path (some query) =
    if is_empty (strip query)
    then method <> " " <> path
    else method <> " " <> path <> " " <> strip query

module _ {F : Type 0} (floats : FloatOps F) where
  -- The scores of `_add_exact_chunks`.
  abbrev exact_score : ScannedApi F → KnowledgeChunk F → F
  exact_score api chunk =
      if same_id chunk.code_symbol_id api.method_symbol_id
      then floats.literal "1.0"
      else if same_id chunk.code_symbol_id api.controller_symbol_id
      then floats.literal "0.95"
      else floats.literal "0.85"

  abbrev exact_entry : KnowledgeChunk F → F → Bool → Entry F
  exact_entry chunk score vector = record {
    chunk = chunk;
    score = score;
    exact = true;
    vector = vector;
  }

  unfoldable pub put_exact : ScannedApi F → List (Entry F) → KnowledgeChunk F → List (Entry F)
  put_exact api [] chunk = exact_entry chunk (exact_score api chunk) false ∷ []
  put_exact api (e ∷ entries) chunk =
      let rest = put_exact api entries chunk in
      if e.chunk.id == chunk.id
      then exact_entry chunk (exact_score api chunk) e.vector ∷ entries
      else e ∷ rest

  -- `_add_exact_chunks`
  unfoldable pub add_exact_chunks :
      ScannedApi F → List (Entry F) → List (KnowledgeChunk F) → List (Entry F)
  unfolding put_exact
  add_exact_chunks api entries [] = entries
  add_exact_chunks api entries (chunk ∷ chunks) =
      add_exact_chunks api (put_exact api entries chunk) chunks

  -- `max(0.0, 1.0 - distance) * 0.8`
  abbrev vector_score : F → F
  vector_score distance =
      floats.times
        (floats.maximum (floats.literal "0.0") (floats.minus (floats.literal "1.0") distance))
        (floats.literal "0.8")

  abbrev vector_entry : KnowledgeChunk F → F → Bool → Entry F
  vector_entry chunk score exact = record {
    chunk = chunk;
    score = score;
    exact = exact;
    vector = true;
  }

  unfoldable pub put_vector : List (Entry F) → KnowledgeChunk F → F → List (Entry F)
  put_vector [] chunk distance =
      vector_entry chunk (floats.maximum (floats.literal "0.0") (vector_score distance)) false ∷ []
  put_vector (e ∷ entries) chunk distance =
      let rest = put_vector entries chunk distance in
      if e.chunk.id == chunk.id
      then vector_entry chunk (floats.maximum e.score (vector_score distance)) e.exact ∷ entries
      else e ∷ rest

  -- The loop of `_add_vector_chunks`.
  unfoldable pub add_vector_chunks : List (Entry F) → List (KnowledgeChunk F × F) → List (Entry F)
  unfolding put_vector
  add_vector_chunks entries [] = entries
  add_vector_chunks entries ((chunk, distance) ∷ rest) =
      add_vector_chunks (put_vector entries chunk distance) rest

  -- The order of the keys `(-score, start_line, str(id))`.
  unfoldable pub precedes : Entry F → Entry F → Bool
  precedes d e =
      if floats.same (floats.negate d.score) (floats.negate e.score)
      then (if d.chunk.start_line == e.chunk.start_line
          then ltb d.chunk.id e.chunk.id
          else ltb d.chunk.start_line e.chunk.start_line)
      else floats.less (floats.negate d.score) (floats.negate e.score)

  unfoldable insert : Entry F → List (Entry F) → List (Entry F)
  unfolding precedes
  insert e [] = e ∷ []
  insert e (d ∷ entries) =
      let rest = insert e entries in if precedes d e then d ∷ rest else e ∷ d ∷ entries

  -- `sorted(…)`, which keeps the order of equal keys
  unfoldable pub ranked : List (Entry F) → List (Entry F)
  unfolding insert
  ranked [] = []
  ranked (e ∷ entries) = insert e (ranked entries)

  abbrev sources_of : Entry F → List String
  sources_of e = (if e.exact then "exact" ∷ [] else []) ++ (if e.vector then "vector" ∷ [] else [])

  abbrev path_of : Option SourceFile → String
  path_of none = ""
  path_of (some f) = f.relative_path

  abbrev symbol_name : List (CodeSymbol F) → Option ℕ → Option String
  symbol_name symbols none = none
  symbol_name symbols (some i) = elim (by_id (λ s. s.id) i symbols) [
    | none ↦ none
    | some s ↦ some s.qualified_name
  ]

  module _ (files : List SourceFile) (symbols : List (CodeSymbol F)) (scan_version : ℕ) where
    abbrev pub context_chunk : Entry F → String → Bool → KnowledgeContextChunk F
    context_chunk e content truncated = record {
      id = e.chunk.id;
      chunk_type = chunk_type_value e.chunk.chunk_type;
      source_file_path = path_of (by_id (λ f. f.id) e.chunk.source_file_id files);
      code_symbol = symbol_name symbols e.chunk.code_symbol_id;
      start_line = e.chunk.start_line;
      end_line = e.chunk.end_line;
      content = content;
      original_characters = Text.length e.chunk.content;
      truncated = truncated;
      score = floats.round4 e.score;
      retrieval_sources = sources_of e;
      scan_version = scan_version;
    }

    -- The loop of `_apply_context_budget`, with the number of values that may still be appended.
    unfoldable pub apply_context_budget : ℕ → ℕ → List (Entry F) → List (KnowledgeContextChunk F)
    unfolding by_id Text.length take
    apply_context_budget limit remaining [] = []
    apply_context_budget zero remaining (e ∷ entries) = []
    apply_context_budget (suc limit) remaining (e ∷ entries) =
        let truncated = ltb remaining (Text.length e.chunk.content) in
        let content = if truncated then take remaining e.chunk.content else e.chunk.content in
        let rest = apply_context_budget limit (remaining - Text.length content) entries in
        if remaining == 0 || is_empty content then [] else context_chunk e content truncated ∷ rest

  -- `min(max_results or maximum, maximum)`
  unfoldable pub result_limit : Option ℕ → ℕ → ℕ
  result_limit none maximum = maximum
  result_limit (some zero) maximum = maximum
  result_limit (some (suc n)) maximum = min (suc n) maximum

  -- `retrieve_hybrid_context`, with what its queries give: the exact result, the scan's version, the
  -- similar chunks unless there is no embedding of the query, and the rows of the scan.
  unfoldable pub retrieve_hybrid_context :
      ℕ
      → ℕ
      → Option ℕ
      → Option (ExactRetrievalResult F)
      → Option ℕ
      → (ExactRetrievalResult F → Option (List (KnowledgeChunk F × F)))
      → List SourceFile
      → List (CodeSymbol F)
      → Result (KnowledgeContext F)
  unfolding add_exact_chunks add_vector_chunks ranked apply_context_budget result_limit
  retrieve_hybrid_context maximum budget max_results none version similar files symbols =
      raise "API_DEFINITION_NOT_FOUND" "接口定义不存在" 404
  retrieve_hybrid_context maximum budget max_results (some exact) none similar files symbols =
      raise "SOURCE_SCAN_NOT_FOUND" "扫描任务不存在" 404
  retrieve_hybrid_context maximum budget max_results (some exact) (some version) similar files
        symbols =
      let entries = add_exact_chunks exact.api_definition [] exact.chunks in
      ok (record {
        scan_version = version;
        chunks =
            apply_context_budget files symbols version (result_limit max_results maximum) budget (
              ranked (elim (similar exact) [
                | none ↦ entries
                | some candidates ↦ add_vector_chunks entries candidates
              ]));
        keyword_hits = exact.keyword_hits;
        embedding_available = is_some (similar exact);
      })
