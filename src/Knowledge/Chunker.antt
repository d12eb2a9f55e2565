-- ===== src/Knowledge/Chunker.antt =====
-- backend/app/modules/knowledge/chunker.py: source text is cut at symbols and at SQL annotations.
pub mod Annotations
pub mod Rows
use ai_test.Base.{
  ℕ, zero, suc, ◌+◌, ◌-◌, String, ◌<>◌, Char, code, Bool, true, false, not, ◌&&◌, ◌||◌, Option,
  none, some, List, [], ◌∷◌, ◌++◌, length, map, concat_map, ◌==◌, if◌then◌else◌,
}
use ai_test.Base.Text
use ai_test.Base.Text.{is_empty, is_space, strip, strip_prefix, join}
use ai_test.Base.Dict.{Dict}
use ai_test.Execution.Create.{by_id}
use ai_test.SourceScans.Models.{CodeSymbol, SourceFile, SymbolType, symbol_type_value}
use ai_test.Knowledge.Models.{KnowledgeChunk, KnowledgeChunkType, EmbeddingStatus}

pub record SourceChunk : Type 0 where
  pub source_file_id : ℕ
  pub code_symbol_id : Option ℕ
  pub chunk_type : KnowledgeChunkType
  pub content : String
  pub start_line : ℕ
  pub end_line : ℕ
  pub metadata : Dict String

-- `_symbol_chunk_type`
unfoldable pub symbol_chunk_type : SymbolType → Option KnowledgeChunkType
symbol_chunk_type SymbolType.method = some KnowledgeChunkType.method
symbol_chunk_type SymbolType.dto = some KnowledgeChunkType.dto
symbol_chunk_type SymbolType.exception = some KnowledgeChunkType.exception
symbol_chunk_type SymbolType.class = some KnowledgeChunkType.class
symbol_chunk_type SymbolType.interface = some KnowledgeChunkType.class
symbol_chunk_type SymbolType.enum = some KnowledgeChunkType.class
symbol_chunk_type SymbolType.repository = some KnowledgeChunkType.class
symbol_chunk_type SymbolType.mapper = some KnowledgeChunkType.class
symbol_chunk_type SymbolType.field = none

-- A line boundary of `str.splitlines`; a carriage return also takes the line feed behind it.
unfoldable pub is_line_end : Char → Bool
is_line_end ch =
    let c = code ch in
    c == 10
    || c == 11
    || c == 12
    || c == 13
    || c == 28
    || c == 29
    || c == 30
    || c == 0x85
    || c == 0x2028
    || c == 0x2029

abbrev begin_line : Char → List String → List String
begin_line c [] = String.◌∷◌ c "" ∷ []
begin_line c (line ∷ lines) = String.◌∷◌ c line ∷ lines

abbrev is_crlf : Char → String → Bool
is_crlf c String.[] = false
is_crlf c (String.◌∷◌ d s) = code c == 13 && code d == 10

-- `s.splitlines()`
unfoldable split_lines : String → List String
unfolding is_line_end
split_lines String.[] = []
split_lines (String.◌∷◌ c s) =
    let rest = split_lines s in
    if is_crlf c s then rest else if is_line_end c then "" ∷ rest else begin_line c rest

abbrev take_lines : ℕ → List String → List String
take_lines zero lines = []
take_lines (suc n) [] = []
take_lines (suc n) (line ∷ lines) = line ∷ take_lines n lines

abbrev drop_lines : ℕ → List String → List String
drop_lines zero lines = lines
drop_lines (suc n) [] = []
drop_lines (suc n) (line ∷ lines) = drop_lines n lines

-- `lines[start_line - 1 : end_line]`; the index -1 is the last line.
unfoldable line_slice : ℕ → ℕ → List String → List String
line_slice zero end_line lines = drop_lines (length lines - 1) (take_lines end_line lines)
line_slice (suc start) end_line lines = drop_lines start (take_lines end_line lines)

-- `_line_range`
unfoldable pub line_range : String → ℕ → ℕ → String
unfolding split_lines line_slice join strip
line_range content start_line end_line =
    strip (join "\n" (line_slice start_line end_line (split_lines content)))

-- Where the loop of `_annotation_end` is.
pub record Position : Type 0 where
  pub depth : ℕ
  pub in_string : Bool
  pub escaped : Bool

abbrev is_quote : Char → Bool
is_quote c = code c == b'"'

abbrev is_backslash : Char → Bool
is_backslash c = code c == 92

abbrev is_closing : Char → Bool
is_closing c = code c == b')'

-- One character. The first one is an opening parenthesis, so that the depth is positive afterwards
-- until the loop ends.
unfoldable pub advance : Position → Char → Position
advance p c =
    if p.in_string
    then record {
      depth = p.depth;
      in_string = not (is_quote c && not p.escaped);
      escaped = is_backslash c && not p.escaped;
    }
    else if is_quote c
    then record { depth = p.depth; in_string = true; escaped = p.escaped }
    else if code c == b'('
    then record { depth = suc p.depth; in_string = false; escaped = p.escaped }
    else if is_closing c
    then record { depth = p.depth - 1; in_string = false; escaped = p.escaped }
    else p

-- A closing parenthesis that leads to depth 0.
unfoldable pub closes : Position → Char → Bool
closes p c = not p.in_string && (is_closing c && p.depth == 1)

-- `_annotation_end` from a position on: the number of characters up to the closing parenthesis.
unfoldable pub annotation_length : Position → String → Option ℕ
unfolding advance closes
annotation_length p String.[] = none
annotation_length p (String.◌∷◌ c s) =
    let rest = annotation_length (advance p c) s in
    if closes p c then some 1 else elim rest [ none ↦ none | some n ↦ some (suc n) ]

abbrev pub opening : Position
opening = record { depth = 0; in_string = false; escaped = false }

-- `_annotation_end` on the text from the opening parenthesis on.
unfoldable pub annotation_end : String → Option ℕ
unfolding annotation_length
annotation_end s = annotation_length opening s

-- `\s*\(`: the number of spaces before an opening parenthesis.
unfoldable spaces_to_parenthesis : String → Option ℕ
unfolding is_space
spaces_to_parenthesis String.[] = none
spaces_to_parenthesis (String.◌∷◌ c s) =
    let rest = spaces_to_parenthesis s in
    if code c == b'('
    then some 0
    else if is_space c
    then elim rest [ none ↦ none | some n ↦ some (suc n) ]
    else none

abbrev annotation_names : List String
annotation_names = "Select" ∷ "Insert" ∷ "Update" ∷ "Delete" ∷ []

-- The name of an annotation behind the `@`, and the offset of its parenthesis from the `@`.
unfoldable annotation_name : List String → String → Option (String × ℕ)
unfolding spaces_to_parenthesis
annotation_name [] s = none
annotation_name (name ∷ names) s =
    let others = annotation_name names s in
    elim (strip_prefix name s) [
      | none ↦ others
      | some rest ↦ elim (spaces_to_parenthesis rest) [
        | none ↦ others
        | some n ↦ some (name, suc (Text.length name + n))
      ]
    ]

-- `SQL_ANNOTATION_PATTERN` at the beginning of a text.
unfoldable sql_annotation : String → Option (String × ℕ)
unfolding annotation_name
sql_annotation String.[] = none
sql_annotation (String.◌∷◌ c s) =
    if code c == b'@' then annotation_name annotation_names s else none

-- `s.count("\n")`
unfoldable pub count_newlines : String → ℕ
count_newlines String.[] = 0
count_newlines (String.◌∷◌ c s) = let n = count_newlines s in if code c == 10 then suc n else n

-- The chunk of a match at `s`, in line `line`, if its parenthesis is closed.
unfoldable pub sql_chunk : ℕ → ℕ → String → String → ℕ → List SourceChunk
unfolding annotation_end strip count_newlines
sql_chunk file_id line s name offset = elim (annotation_end (Text.drop offset s)) [
  | none ↦ []
  | some n ↦
      let piece = Text.take (offset + n) s in
      if is_empty (strip piece)
      then []
      else record {
        source_file_id = file_id;
        code_symbol_id = none;
        chunk_type = KnowledgeChunkType.sql;
        content = strip piece;
        start_line = line;
        end_line = line + count_newlines piece;
        metadata = ("annotation", name) ∷ [];
      }
        ∷ []
]

-- The matches from the left; `skip` counts the characters left of the match before.
unfoldable sql_chunks_from : ℕ → ℕ → ℕ → String → List SourceChunk
unfolding sql_chunk sql_annotation
sql_chunks_from file_id line skip String.[] = []
sql_chunks_from file_id line (suc skip) (String.◌∷◌ c s) =
    sql_chunks_from file_id (if code c == 10 then suc line else line) skip s
sql_chunks_from file_id line zero (String.◌∷◌ c s) = elim (sql_annotation (String.◌∷◌ c s)) [
  | none ↦ sql_chunks_from file_id (if code c == 10 then suc line else line) zero s
  | some (name, offset) ↦
      sql_chunk file_id line (String.◌∷◌ c s) name offset ++ sql_chunks_from file_id line offset s
]

-- `_sql_chunks`
unfoldable pub sql_chunks : SourceFile → List SourceChunk
unfolding sql_chunks_from
sql_chunks file = sql_chunks_from file.id 1 0 file.content

module _ {F : Type 0} where
  -- One round of the loop over the symbols.
  unfoldable pub symbol_chunk : List SourceFile → CodeSymbol F → List SourceChunk
  unfolding symbol_chunk_type line_range symbol_type_value
  symbol_chunk files symbol = elim (by_id (λ f. f.id) symbol.source_file_id files) [
    | none ↦ []
    | some file ↦ elim (symbol_chunk_type symbol.symbol_type) [
      | none ↦ []
      | some chunk_type ↦
          let content = line_range file.content symbol.start_line symbol.end_line in
          if is_empty content
          then []
          else record {
            source_file_id = file.id;
            code_symbol_id = some symbol.id;
            chunk_type = chunk_type;
            content = content;
            start_line = symbol.start_line;
            end_line = symbol.end_line;
            metadata =
                ("qualifiedName", symbol.qualified_name)
                ∷ ("symbolType", symbol_type_value symbol.symbol_type)
                ∷ [];
          }
            ∷ []
    ]
  ]

  -- A new row, with the defaults of its columns; its identifier is given when it is stored.
  abbrev pub new_chunk : (String → String) → SourceChunk → ℕ → KnowledgeChunk F
  new_chunk sha256 chunk id = record {
    id = id;
    source_file_id = chunk.source_file_id;
    code_symbol_id = chunk.code_symbol_id;
    chunk_type = chunk.chunk_type;
    content = chunk.content;
    content_sha256 = sha256 chunk.content;
    start_line = chunk.start_line;
    end_line = chunk.end_line;
    metadata = chunk.metadata;
    embedding = none;
    embedding_status = EmbeddingStatus.pending;
    embedding_attempts = 0;
    embedding_error = none;
  }

  -- The rows, with the identifiers from `id` on.
  abbrev pub chunk_rows : (String → String) → ℕ → List SourceChunk → List (KnowledgeChunk F)
  chunk_rows sha256 id [] = []
  chunk_rows sha256 id (chunk ∷ chunks) =
      new_chunk sha256 chunk id ∷ chunk_rows sha256 (suc id) chunks

  -- `build_knowledge_chunks`
  unfoldable pub build_knowledge_chunks :
      (String → String) → ℕ → List SourceFile → List (CodeSymbol F) → List (KnowledgeChunk F)
  unfolding symbol_chunk sql_chunks
  build_knowledge_chunks sha256 first_id files symbols =
      chunk_rows sha256 first_id
        (concat_map (symbol_chunk files) symbols ++ concat_map sql_chunks files)
