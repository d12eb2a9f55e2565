-- ===== src/Tests/Retrieval.antt =====
-- A small graph of symbols, the context of an interface, and the embedding of its chunks.
use ai_test.Base.{
  ℕ, zero, suc, String, Bool, true, false, Option, none, some, List, [], ◌∷◌, ◌≡◌, ◌↔◌, ◌≤◌, refl,
  arith, length, ltb, ◌==◌,
}
use ai_test.Base.Int.{pos}
use ai_test.Base.Dict.{Dict}
use ai_test.Json.{int, str, dict, Fields, end, field}
use ai_test.Runtime.{Runtime}
use ai_test.Execution.Create.{among}
use ai_test.Execution.Models.{TaskStatus}
use ai_test.SourceScans.Models.{RelationType, SymbolRelation}
use ai_test.Knowledge.Models.{KnowledgeChunk, KnowledgeChunkType, EmbeddingStatus}
use ai_test.Knowledge.Exact.{expand_symbol_ids, parents}
use ai_test.Knowledge.Exact.Hops.{WithinHops, expand_symbol_ids-WithinHops}
use ai_test.Knowledge.Search.{KeywordSearchHit, parse_ripgrep_matches}
use ai_test.Knowledge.Search.Hits.{Found, parse_ripgrep_matches-Found}
use ai_test.Knowledge.Hybrid.{FloatOps, Entry, apply_context_budget}
use ai_test.Knowledge.Hybrid.Budget.{Fills, characters, apply_context_budget_lem}
use ai_test.Knowledge.Embedding.{
  EmbeddingData, EmbeddingState, Reply, response, vectors_of, process_embedding_task,
  catch_embedding,
}
use ai_test.Knowledge.Embedding.Vectors.{Answers, vectors_of-Answers}
use ai_test.Knowledge.Embedding.Rounds.{IsFinished, IsOver, process_embedding_task-ends}
use ai_test.Tests.{py}
use ai_test.Tests.Sources.{file_system}

abbrev call : ℕ → ℕ → SymbolRelation ⊥
call source target = record {
  source_symbol_id = source;
  target_symbol_id = target;
  relation_type = RelationType.calls;
  metadata = end;
}

abbrev chain : List (SymbolRelation ⊥)
chain = call 1 2 ∷ call 3 2 ∷ call 3 4 ∷ []

expand_symbol_ids-WithinHops_example :
    (among 3 (expand_symbol_ids (1 ∷ []) [] chain) ≡ true) ↔ WithinHops chain (1 ∷ []) 2 3
unfolding parents
expand_symbol_ids-WithinHops_example = expand_symbol_ids-WithinHops (1 ∷ []) [] chain 3

abbrev chunk : ℕ → String → KnowledgeChunk ⊥
chunk id content = record {
  id = id;
  source_file_id = 1;
  code_symbol_id = none;
  chunk_type = KnowledgeChunkType.method;
  content = content;
  content_sha256 = "";
  start_line = 1;
  end_line = 1;
  metadata = [];
  embedding = none;
  embedding_status = EmbeddingStatus.pending;
  embedding_attempts = 0;
  embedding_error = none;
}

-- Scores that are numbers.
abbrev scores : FloatOps ℕ
scores = record {
  literal = λ s. 1;
  minus = λ a b. a;
  times = λ a b. a;
  negate = λ a. a;
  maximum = λ a b. a;
  less = ltb;
  same = λ a b. a == b;
  round4 = λ a. a;
}

abbrev entry : ℕ → String → Entry ℕ
entry id content = record {
  chunk = record {
    id = id;
    source_file_id = 1;
    code_symbol_id = none;
    chunk_type = KnowledgeChunkType.method;
    content = content;
    content_sha256 = "";
    start_line = 1;
    end_line = 1;
    metadata = [];
    embedding = none;
    embedding_status = EmbeddingStatus.pending;
    embedding_attempts = 0;
    embedding_error = none;
  };
  score = 1;
  exact = true;
  vector = false;
}

abbrev entries : List (Entry ℕ)
entries = entry 1 "abc" ∷ entry 2 "defg" ∷ entry 3 "h" ∷ []

apply_context_budget_lem_example :
    let chunks = apply_context_budget scores [] [] 1 3 5 entries in
    Fills 5 entries chunks × (length chunks ≤ 3) × (characters chunks ≤ 5)
apply_context_budget_lem_example = apply_context_budget_lem scores [] [] 1 3 5 entries

abbrev vector : ℕ → ℕ → EmbeddingData ℕ
vector index x = record { index = index; embedding = x ∷ [] }

abbrev answers : List (List ℕ)
answers = (10 ∷ []) ∷ (20 ∷ []) ∷ []

vectors_of-Answers_example :
    (length answers ≡ 2) × Answers 1 (vector 1 20 ∷ vector 0 10 ∷ []) 0 answers
unfolding vectors_of
vectors_of-Answers_example = vectors_of-Answers 1 2 (vector 1 20 ∷ vector 0 10 ∷ []) answers refl

abbrev two_chunks : EmbeddingState ⊥
two_chunks = record {
  task = record {
    status = TaskStatus.pending;
    phase = "";
    processed = 0;
    error_code = none;
    error_message = none;
    completed = false;
  };
  chunks = chunk 1 "a" ∷ chunk 2 "b" ∷ [];
}

-- A provider of empty vectors, for one text at a time.
abbrev provider : ℕ → Option (List String → Reply ⊥)
provider round = some (λ texts. response (record { index = 0; embedding = [] } ∷ []))

process_embedding_task-ends_example :
    (end : EmbeddingState ⊥ × Bool) × (process_embedding_task 1 3 0 provider 3 two_chunks
      ≡ some end)
    × IsOver 1 3 0 provider (omega arith) end
    × IsFinished 1 3 0 provider (omega arith) (catch_embedding end)
process_embedding_task-ends_example =
    process_embedding_task-ends 1 3 0 provider (omega arith) two_chunks

-- One line of the search, read as a message about a file below the root.
abbrev message : Fields ⊥
message = field "type" (str "match") (
    field "data"
      (dict (
        field "path" (dict (field "text" (str "A.java") end)) (
          field "lines" (dict (field "text" (str "class A") end))
            (field "line_number" (int (pos 1)) end))))
      end)

abbrev reader : Runtime ⊥
reader = record py { loads = λ line. some (dict message) }

abbrev hit : KeywordSearchHit
hit = record { relative_path = "A.java"; line_number = pos 1; line_content = "class A" }

parse_ripgrep_matches-Found_example : Found reader file_system 1 [] (hit ∷ [])
unfolding parse_ripgrep_matches ai_test.Base.Dict.get
parse_ripgrep_matches-Found_example =
    parse_ripgrep_matches-Found reader file_system 1 [] ("{…}" ∷ "{…}" ∷ []) (hit ∷ []) refl
