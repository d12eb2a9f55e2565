-- ===== src/Knowledge/Embedding.antt =====
-- backend/app/modules/knowledge/embedding.py: the vectors of the chunks of a scan, in batches. The rows
-- are in the order of their creation, and no other worker holds one of them.
pub mod Vectors
pub mod Rounds
use ai_test.Base.{
  ℕ, zero, suc, ◌+◌, String, Bool, true, false, not, ◌&&◌, ◌||◌, Option, none, some, List, [], ◌∷◌,
  ◌++◌, map, length, any, ltb, leb, ◌==◌, if◌then◌else◌,
}
use ai_test.Base.Outcome.{Outcome, done, failed, ◌>>=◌, ◌>>◌, fail_if, map_error}
use ai_test.Execution.Models.{TaskStatus}
use ai_test.Knowledge.Models.{KnowledgeChunk, EmbeddingStatus}

pub record EmbeddingError : Type 0 where
  pub code : String
  pub message : String

pub record EmbeddingData (F : Type 0) : Type 0 where
  pub index : ℕ
  pub embedding : List F

-- What the provider answers: its key cannot be decrypted; the call fails with an `httpx.HTTPError` or
-- an invalid structure; any other exception, as for a body that is not JSON; or a checked response.
pub data Reply (F : Type 0) : Type 0 where
  config_invalid : Reply F
  call_failed : Reply F
  other_error : Reply F
  response : List (EmbeddingData F) → Reply F

-- What `embed` raises: an `EmbeddingError`, or an exception that it does not convert.
pub data EmbedFailure : Type 0 where
  converted : EmbeddingError → EmbedFailure
  escaping : EmbedFailure

abbrev error : {A : Type 0} → String → String → Outcome EmbedFailure A
error code message = failed (converted (record { code = code; message = message }))

-- Whether the loop goes on, returns, or is left by an exception.
pub data Turn : Type 0 where
  again over escaped : Turn

-- What the code reads and writes of a task of the kind KNOWLEDGE_EMBEDDING.
pub record EmbeddingTask : Type 0 where
  pub status : TaskStatus
  pub phase : String
  pub processed : ℕ
  pub error_code : Option String
  pub error_message : Option String
  pub completed : Bool

pub record EmbeddingState (F : Type 0) : Type 0 where
  pub task : EmbeddingTask
  pub chunks : List (KnowledgeChunk F)

abbrev waits : EmbeddingStatus → Bool
waits EmbeddingStatus.pending = true
waits EmbeddingStatus.failed = true
waits _ = false

module _ {F : Type 0} where
  unfoldable pub insert_data : EmbeddingData F → List (EmbeddingData F) → List (EmbeddingData F)
  insert_data d [] = d ∷ []
  insert_data d (e ∷ es) =
      let rest = insert_data d es in if leb d.index e.index then d ∷ e ∷ es else e ∷ rest

  -- `sorted(data, key=lambda item: item.index)`
  unfoldable pub by_index : List (EmbeddingData F) → List (EmbeddingData F)
  unfolding insert_data
  by_index [] = []
  by_index (d ∷ ds) = insert_data d (by_index ds)

  -- `[item.index for item in ordered] == list(range(i, …))`
  unfoldable pub is_range : ℕ → List (EmbeddingData F) → Bool
  is_range i [] = true
  is_range i (d ∷ ds) = d.index == i && is_range (suc i) ds

  -- The checks of a response for so many texts.
  unfoldable pub vectors_of :
      ℕ → ℕ → List (EmbeddingData F) → Outcome EmbeddingError (List (List F))
  unfolding by_index is_range
  vectors_of dimensions texts items = do
    let ordered = by_index items
    fail_if (not (length ordered == texts) || not (is_range 0 ordered))
        (record { code = "EMBEDDING_RESPONSE_INVALID"; message = "Embedding Provider 返回数量或顺序无效" })
    fail_if (any (λ d. not (length d.embedding == dimensions)) ordered)
        (record { code = "EMBEDDING_DIMENSION_MISMATCH"; message = "Embedding 向量维度不匹配" })
    done (map (λ d. d.embedding) ordered)

  -- What `embed` makes of the answer for so many texts.
  abbrev pub read_reply : ℕ → ℕ → Reply F → Outcome EmbedFailure (List (List F))
  read_reply dimensions texts config_invalid = error "EMBEDDING_CONFIG_INVALID" "Embedding 配置不可用"
  read_reply dimensions texts call_failed =
      error "EMBEDDING_PROVIDER_FAILED" "Embedding Provider 调用失败"
  read_reply dimensions texts other_error = failed escaping
  read_reply dimensions texts (response items) =
      map_error converted (vectors_of dimensions texts items)

  -- `embed`, with the provider as a function of the texts
  unfoldable pub embed :
      ℕ → (List String → Reply F) → List String → Outcome EmbedFailure (List (List F))
  unfolding vectors_of
  embed dimensions provider [] = done []
  embed dimensions provider (text ∷ texts) =
      read_reply dimensions (length (text ∷ texts)) (provider (text ∷ texts))

  abbrev pub is_claimable : ℕ → KnowledgeChunk F → Bool
  is_claimable max_attempts c = waits c.embedding_status && ltb c.embedding_attempts max_attempts

  abbrev with_status :
      EmbeddingStatus → ℕ → Option String → Option (List F) → KnowledgeChunk F → KnowledgeChunk F
  with_status status attempts e vector c = record {
    id = c.id;
    source_file_id = c.source_file_id;
    code_symbol_id = c.code_symbol_id;
    chunk_type = c.chunk_type;
    content = c.content;
    content_sha256 = c.content_sha256;
    start_line = c.start_line;
    end_line = c.end_line;
    metadata = c.metadata;
    embedding = vector;
    embedding_status = status;
    embedding_attempts = attempts;
    embedding_error = e;
  }

  abbrev pub claimed_row : KnowledgeChunk F → KnowledgeChunk F
  claimed_row c =
      with_status EmbeddingStatus.processing (c.embedding_attempts + 1) none c.embedding c

  -- `claim_embedding_chunks`: the rows that are claimed, and all rows afterwards
  unfoldable pub claim_embedding_chunks :
      ℕ → ℕ → List (KnowledgeChunk F) → List (KnowledgeChunk F) × List (KnowledgeChunk F)
  claim_embedding_chunks zero max_attempts chunks = ([], chunks)
  claim_embedding_chunks (suc n) max_attempts [] = ([], [])
  claim_embedding_chunks (suc n) max_attempts (c ∷ chunks) = elim (is_claimable max_attempts c) [
    | true ↦
        let (claimed, rest) = claim_embedding_chunks n max_attempts chunks in
        (claimed_row c ∷ claimed, claimed_row c ∷ rest)
    | false ↦
        let (claimed, rest) = claim_embedding_chunks (suc n) max_attempts chunks in
        (claimed, c ∷ rest)
  ]

  abbrev same_chunk : KnowledgeChunk F → KnowledgeChunk F → Bool
  same_chunk c d = c.id == d.id

  -- The rows, one of which has its vector.
  abbrev pub with_vector : KnowledgeChunk F → List F → KnowledgeChunk F → KnowledgeChunk F
  with_vector claimed v c =
      if same_chunk claimed c
      then with_status EmbeddingStatus.succeeded c.embedding_attempts none (some v) c
      else c

  -- `zip(chunks, vectors, strict=True)`: another length raises, behind what is written
  unfoldable pub store_vectors :
      List (KnowledgeChunk F) → List (List F) → List (KnowledgeChunk F) → List (KnowledgeChunk F)
  store_vectors (c ∷ claimed) (v ∷ vectors) rows =
      store_vectors claimed vectors (map (with_vector c v) rows)
  store_vectors _ _ rows = rows

  abbrev failed_row : List (KnowledgeChunk F) → String → KnowledgeChunk F → KnowledgeChunk F
  failed_row claimed code c =
      if any (λ d. same_chunk d c) claimed
      then with_status EmbeddingStatus.failed c.embedding_attempts (some code) c.embedding c
      else c

  -- `_mark_embedding_failed`
  unfoldable pub mark_embedding_failed :
      List (KnowledgeChunk F) → EmbeddingError → EmbeddingState F → EmbeddingState F
  mark_embedding_failed claimed e s = record {
    task = record {
      status = TaskStatus.failed;
      phase = "failed";
      processed = 0;
      error_code = some e.code;
      error_message = some e.message;
      completed = true;
    };
    chunks = map (failed_row claimed e.code) s.chunks;
  }

  abbrev pub with_progress :
      TaskStatus → String → ℕ → Bool → List (KnowledgeChunk F) → EmbeddingState F → EmbeddingState F
  with_progress status phase processed completed chunks s = record {
    task = record {
      status = status;
      phase = phase;
      processed = processed;
      error_code = s.task.error_code;
      error_message = s.task.error_message;
      completed = completed;
    };
    chunks = chunks;
  }

  -- The last `except` clause of `process_next` in task_worker.py, for a task of this kind.
  unfoldable pub catch_embedding : EmbeddingState F × Bool → EmbeddingState F
  catch_embedding (s, false) = s
  catch_embedding (s, true) = record s {
    task = record s.task {
      status = TaskStatus.failed;
      error_code = some "KNOWLEDGE_EMBEDDING_TASK_FAILED";
      error_message = some "知识向量任务执行失败";
      completed = true;
    };
  }

  module _ (batch_size max_attempts dimensions : ℕ)
      (providers : ℕ → Option (List String → Reply F)) where
    -- What follows the answer for a batch: the next state, and whether the loop goes on.
    abbrev pub after_batch :
        List (KnowledgeChunk F)
        → EmbeddingState F
        → ℕ
        → Outcome EmbedFailure (List (List F))
        → EmbeddingState F × Turn
    after_batch claimed s processed (failed (converted e)) =
        (mark_embedding_failed claimed e s, over)
    after_batch claimed s processed (failed escaping) = (s, escaped)
    after_batch claimed s processed (done vectors) = (
      with_progress TaskStatus.running "embedding" (processed + length claimed) s.task.completed
          (store_vectors claimed vectors s.chunks) s,
      again,
    )

    abbrev pub answer :
        Option (List String → Reply F)
        → List (KnowledgeChunk F)
        → Outcome EmbedFailure (List (List F))
    answer none claimed = error "EMBEDDING_CONFIG_NOT_FOUND" "未配置启用的默认 Embedding Provider"
    answer (some provider) claimed = embed dimensions provider (map (λ c. c.content) claimed)

    -- What follows the claim of a batch.
    abbrev pub after_claim :
        ℕ
        → EmbeddingState F
        → List (KnowledgeChunk F)
        → List (KnowledgeChunk F)
        → EmbeddingState F × Turn
    after_claim n s [] chunks =
        (with_progress TaskStatus.succeeded "completed" s.task.processed true chunks s, over)
    after_claim n s (c ∷ cs) chunks =
        after_batch (c ∷ cs) (record { task = s.task; chunks = chunks }) s.task.processed
          (answer (providers n) (c ∷ cs))

    -- One round of the loop, with the number of the round.
    unfoldable pub embedding_round : ℕ → EmbeddingState F → EmbeddingState F × Turn
    unfolding claim_embedding_chunks embed store_vectors mark_embedding_failed
    embedding_round n s =
        let (claimed, chunks) = claim_embedding_chunks batch_size max_attempts s.chunks in
        after_claim n s claimed chunks

    -- `while True`, for at most so many rounds; `none` if it has not ended by then, else the state at
    -- the end, and whether an exception has left the loop.
    unfoldable pub embedding_rounds : ℕ → ℕ → EmbeddingState F → Option (EmbeddingState F × Bool)
    unfolding embedding_round
    embedding_rounds zero n s = none
    embedding_rounds (suc fuel) n s =
        let (next, turn) = embedding_round n s in
        elim turn [
          | again ↦ embedding_rounds fuel (suc n) next
          | over ↦ some (next, false)
          | escaped ↦ some (next, true)
        ]

    -- `process_embedding_task` of a task whose payload names a scan
    unfoldable pub process_embedding_task : ℕ → EmbeddingState F → Option (EmbeddingState F × Bool)
    unfolding embedding_rounds
    process_embedding_task fuel s =
        embedding_rounds fuel 0
          (with_progress TaskStatus.running "embedding" 0 s.task.completed s.chunks s)
