-- ===== src/Knowledge/Models.antt =====
-- backend/app/modules/knowledge/models.py: a chunk of source text with its embedding.
use ai_test.Base.{ℕ, String, Option, List}
use ai_test.Base.Dict.{Dict}

pub data KnowledgeChunkType : Type 0 where
  class method dto sql exception : KnowledgeChunkType

pub data EmbeddingStatus : Type 0 where
  pending processing succeeded failed : EmbeddingStatus

pub record KnowledgeChunk (F : Type 0) : Type 0 where
  pub id : ℕ
  pub source_file_id : ℕ
  pub code_symbol_id : Option ℕ
  pub chunk_type : KnowledgeChunkType
  pub content : String
  pub content_sha256 : String
  pub start_line : ℕ
  pub end_line : ℕ
  pub metadata : Dict String
  pub embedding : Option (List F)
  pub embedding_status : EmbeddingStatus
  pub embedding_attempts : ℕ
  pub embedding_error : Option String

-- The `value` of a chunk type.
unfoldable pub chunk_type_value : KnowledgeChunkType → String
chunk_type_value KnowledgeChunkType.class = "class"
chunk_type_value KnowledgeChunkType.method = "method"
chunk_type_value KnowledgeChunkType.dto = "dto"
chunk_type_value KnowledgeChunkType.sql = "sql"
chunk_type_value KnowledgeChunkType.exception = "exception"
