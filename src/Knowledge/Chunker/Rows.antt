-- ===== src/Knowledge/Chunker/Rows.antt =====
-- The rows that `build_knowledge_chunks` gives.
use ai_test.Base.{
  ℕ, zero, suc, ◌+◌, ◌<◌, ◌≤◌, ◌≡◌, refl, String, Bool, true, false, some, List, [], ◌∷◌, any, All,
  All-append, All-concat_map, All-map, concat_map, ◌==◌, arith, inl, inr, Bool-cases, Option-cases,
}
use ai_test.Base.Text
use ai_test.Base.Text.{is_empty, strip}
use ai_test.Execution.Create.{by_id}
use ai_test.SourceScans.Models.{CodeSymbol, SourceFile}
use ai_test.Knowledge.Models.{KnowledgeChunk, EmbeddingStatus}
use ai_test.Knowledge.Chunker.{
  SourceChunk, symbol_chunk_type, line_range, symbol_chunk, annotation_end, sql_chunk,
  sql_annotation, sql_chunks_from, sql_chunks, chunk_rows, build_knowledge_chunks,
}

-- `x.id in {f.id for f in files}`
abbrev has_file : List SourceFile → ℕ → Bool
has_file files id = any (λ f. f.id == id) files

-- A chunk with a text, of one of the files, and with a range of lines as the table's check wants it.
record IsChunk (files : List SourceFile) (chunk : SourceChunk) : Type 0 where
  pub text : is_empty chunk.content ≡ false
  pub file : has_file files chunk.source_file_id ≡ true
  pub first : 0 < chunk.start_line
  pub range : chunk.start_line ≤ chunk.end_line

pub record IsStorable {F : Type 0} (files : List SourceFile) (sha256 : String → String)
    (row : KnowledgeChunk F) : Type 0 where
  pub text : is_empty row.content ≡ false
  pub digest : row.content_sha256 ≡ sha256 row.content
  pub file : has_file files row.source_file_id ≡ true
  pub first : 0 < row.start_line
  pub range : row.start_line ≤ row.end_line
  pub status : row.embedding_status ≡ EmbeddingStatus.pending
  pub attempts : row.embedding_attempts ≡ 0

by_id-has_file :
    (i : ℕ) (files : List SourceFile) (file : SourceFile)
    → by_id (λ f. f.id) i files ≡ some file
    → has_file files file.id ≡ true
unfolding by_id
by_id-has_file i [] file h = cc
by_id-has_file i (f ∷ files) file h = elim (Bool-cases (f.id == i)) [
  | inl e ↦ ground arith
  | inr e ↦ let r = by_id-has_file i files file (rw e at h) in ground (arith, r)
]

module _ {F : Type 0} (files : List SourceFile) where
  symbol_chunk-IsChunk :
      (symbol : CodeSymbol F)
      → (0 < symbol.start_line) × (symbol.start_line ≤ symbol.end_line)
      → All (IsChunk files) (symbol_chunk files symbol)
  unfolding symbol_chunk
  symbol_chunk-IsChunk symbol (first, range) =
      elim (Option-cases (by_id (λ f. f.id) symbol.source_file_id files)) [
        | inl e ↦ rw (e, All, symbol_chunk) tt
        | inr (file, e) ↦ elim (Option-cases (symbol_chunk_type symbol.symbol_type)) [
          | inl t ↦ rw (e, t, All, symbol_chunk) tt
          | inr (chunk_type, t) ↦
              elim (Bool-cases
                (is_empty (line_range file.content symbol.start_line symbol.end_line))) [
                  | inl b ↦ rw (e, t, b, All, symbol_chunk) tt
                  | inr b ↦
                      rw (e, t, b, All, symbol_chunk)
                        (
                          record {
                            text = b;
                            file = by_id-has_file _ files file e;
                            first = first;
                            range = range;
                          },
                          tt,
                        )
                ]
        ]
      ]

module _ (files : List SourceFile) (id : ℕ) (known : has_file files id ≡ true) where
  sql_chunk-IsChunk :
      (line : ℕ) (s name : String) (offset : ℕ)
      → 0 < line
      → All (IsChunk files) (sql_chunk id line s name offset)
  unfolding sql_chunk
  sql_chunk-IsChunk line s name offset first =
      elim (Option-cases (annotation_end (Text.drop offset s))) [
        | inl e ↦ rw (e, All, sql_chunk) tt
        | inr (n, e) ↦ elim (Bool-cases (is_empty (strip (Text.take (offset + n) s)))) [
          | inl b ↦ rw (e, b, All, sql_chunk) tt
          | inr b ↦
              rw (e, b, All, sql_chunk)
                (record { text = b; file = known; first = first; range = omega arith }, tt)
        ]
      ]

  sql_chunks_from-IsChunk :
      (s : String) (line skip : ℕ) → 0 < line → All (IsChunk files) (sql_chunks_from id line skip s)
  unfolding sql_chunks_from
  sql_chunks_from-IsChunk String.[] line skip first = tt
  sql_chunks_from-IsChunk (String.◌∷◌ c s) line (suc skip) first =
      sql_chunks_from-IsChunk s _ skip (ground (arith, first))
  sql_chunks_from-IsChunk (String.◌∷◌ c s) line zero first =
      elim (Option-cases (sql_annotation (String.◌∷◌ c s))) [
        | inl e ↦
            rw (e, All, sql_chunks_from) (sql_chunks_from-IsChunk s _ zero (ground (arith, first)))
        | inr ((name, offset), e) ↦
            rw (e, All, sql_chunks_from)
              (All-append (IsChunk files) (sql_chunk id line (String.◌∷◌ c s) name offset) _
                (sql_chunk-IsChunk line _ name offset first)
                (sql_chunks_from-IsChunk s line offset first))
      ]

chunk_rows-IsStorable :
    (F : Type 0) (files : List SourceFile) (sha256 : String → String) (id : ℕ)
    (chunks : List SourceChunk)
    → All (IsChunk files) chunks
    → All (IsStorable {F = F} files sha256) (chunk_rows sha256 id chunks)
chunk_rows-IsStorable F files sha256 id [] h = tt
chunk_rows-IsStorable F files sha256 id (chunk ∷ chunks) h = (
  record {
    text = h.0.text;
    digest = refl;
    file = h.0.file;
    first = h.0.first;
    range = h.0.range;
    status = refl;
    attempts = refl;
  },
  chunk_rows-IsStorable F files sha256 (suc id) chunks h.1,
)

sql_chunks-IsChunk :
    (all_files files : List SourceFile)
    → All (λ f. has_file all_files f.id ≡ true) files
    → All (IsChunk all_files) (concat_map sql_chunks files)
unfolding sql_chunks
sql_chunks-IsChunk all_files files h =
    All-concat_map (IsChunk all_files) sql_chunks
      (λ f k. sql_chunks_from-IsChunk all_files f.id k f.content 1 0 (omega arith)) files h

All-has_file : (files : List SourceFile) → All (λ f. has_file files f.id ≡ true) files
All-has_file [] = tt
All-has_file (f ∷ files) =
    (ground arith, All-map (λ g h. ground (arith, h)) files (All-has_file files))

-- If the symbols have ranges of lines, then each row that is built has a text with its digest, belongs
-- to one of the files, satisfies the table's check on the range of lines, and waits for its embedding
-- with no attempt.
pub build_knowledge_chunks-IsStorable :
    {F : Type 0} (sha256 : String → String) (first_id : ℕ) (files : List SourceFile)
    (symbols : List (CodeSymbol F))
    → All (λ s. (0 < s.start_line) × (s.start_line ≤ s.end_line)) symbols
    → All (IsStorable {F = F} files sha256) (build_knowledge_chunks sha256 first_id files symbols)
unfolding build_knowledge_chunks
build_knowledge_chunks-IsStorable sha256 first_id files symbols h =
    chunk_rows-IsStorable _ files sha256 first_id _ (
      All-append (IsChunk files) (concat_map (symbol_chunk files) symbols) _
        (All-concat_map (IsChunk files) (symbol_chunk files) (symbol_chunk-IsChunk files) symbols h)
        (sql_chunks-IsChunk files files (All-has_file files)))
