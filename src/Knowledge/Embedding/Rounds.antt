-- ===== src/Knowledge/Embedding/Rounds.antt =====
-- The loop over the batches ends.
use ai_test.Base.{
  ℕ, zero, suc, ◌+◌, ◌≤◌, ◌<◌, ◌≡◌, refl, Bool, true, false, Option, some, List, [], ◌∷◌, map,
  length, String, if◌then◌else◌, arith, none,
}
use ai_test.Base.Outcome.{map_error, Outcome, done, failed}
use ai_test.Execution.Models.{TaskStatus}
use ai_test.Knowledge.Models.{KnowledgeChunk}
use ai_test.Knowledge.Embedding.{
  EmbedFailure, converted, escaping, Turn, again, over, escaped, EmbeddingState, Reply, other_error,
  response, config_invalid, call_failed, embed, vectors_of, catch_embedding, is_claimable,
  claim_embedding_chunks, with_vector, store_vectors, mark_embedding_failed, with_progress,
  after_batch, after_claim, answer, embedding_round, embedding_rounds, process_embedding_task,
  EmbeddingError, read_reply,
}

module _ {F : Type 0} (max_attempts : ℕ) where
  -- The rows that can be claimed.
  abbrev pub waiting : List (KnowledgeChunk F) → ℕ
  waiting [] = 0
  waiting (c ∷ chunks) =
      if is_claimable max_attempts c then suc (waiting chunks) else waiting chunks

  claim-waiting :
      (n : ℕ) (chunks : List (KnowledgeChunk F))
      → let (claimed, rest) = claim_embedding_chunks n max_attempts chunks in
        waiting rest + length claimed ≡ waiting chunks
  unfolding claim_embedding_chunks
  claim-waiting zero chunks = omega arith
  claim-waiting (suc n) [] = omega arith
  claim-waiting (suc n) (c ∷ chunks) =
      ground (arith, claim-waiting n chunks, claim-waiting (suc n) chunks)

  claim-none :
      (n : ℕ) (chunks : List (KnowledgeChunk F))
      → 0 < n
      → (claim_embedding_chunks n max_attempts chunks).0 ≡ []
      → waiting (claim_embedding_chunks n max_attempts chunks).1 ≡ 0
  unfolding claim_embedding_chunks
  claim-none zero chunks l h = absurd (omega (arith, l))
  claim-none (suc n) [] l h = refl
  claim-none (suc n) (c ∷ chunks) l h = ground (arith, h, claim-none (suc n) chunks)

  with_vector-waiting :
      (claimed : KnowledgeChunk F) (v : List F) (chunks : List (KnowledgeChunk F))
      → waiting (map (with_vector claimed v) chunks) ≤ waiting chunks
  with_vector-waiting claimed v [] = omega arith
  with_vector-waiting claimed v (c ∷ chunks) = ground (arith, with_vector-waiting claimed v chunks)

  store_vectors-waiting :
      (claimed : List (KnowledgeChunk F)) (vectors : List (List F)) (rows : List (KnowledgeChunk F))
      → waiting (store_vectors claimed vectors rows) ≤ waiting rows
  unfolding store_vectors
  store_vectors-waiting [] vectors rows = omega arith
  store_vectors-waiting (c ∷ claimed) [] rows = omega arith
  store_vectors-waiting (c ∷ claimed) (v ∷ vectors) rows = omega (
    arith,
    store_vectors-waiting claimed vectors (map (with_vector c v) rows),
    with_vector-waiting c v rows,
  )

map_error-converted :
    {A : Type 0} (m : Outcome EmbeddingError A) → map_error converted m ≡ failed escaping → ⊥
map_error-converted (done a) h = cc
map_error-converted (failed e) h = cc

module _ {F : Type 0} (batch_size max_attempts dimensions : ℕ)
    (providers : ℕ → Option (List String → Reply F)) (some_batch : 0 < batch_size) where
  -- The task has succeeded and no row is left to claim, or it has failed with an error.
  pub data IsFinished (s : EmbeddingState F) : Type 0 where
    has_succeeded :
        s.task.status ≡ TaskStatus.succeeded
        → s.task.completed ≡ true
        → waiting max_attempts s.chunks ≡ 0
        → IsFinished s
    has_failed :
        s.task.status ≡ TaskStatus.failed
        → s.task.completed ≡ true
        → (code : String) → s.task.error_code ≡ some code
        → IsFinished s

  -- The loop has returned, or it is left by an exception to a call of a provider.
  pub data IsOver : EmbeddingState F × Bool → Type 0 where
    has_returned : (s : EmbeddingState F) → IsFinished s → IsOver (s, false)
    is_left :
        (s : EmbeddingState F) (round : ℕ) (provider : List String → Reply F) (texts : List String)
        → providers round ≡ some provider
        → provider texts ≡ other_error
        → IsOver (s, true)

  -- A round leaves fewer rows to claim than there were, or it ends the task.
  data Round (before : ℕ) : EmbeddingState F × Turn → Type 0 where
    goes_on :
        (s : EmbeddingState F) → waiting max_attempts s.chunks < before → Round before (s, again)
    ends : (s : EmbeddingState F) → IsFinished s → Round before (s, over)
    raises : (s : EmbeddingState F) → IsOver (s, true) → Round before (s, escaped)

  read_reply-escaping :
      (texts : ℕ) (reply : Reply F)
      → read_reply dimensions texts reply ≡ failed escaping
      → reply ≡ other_error
  read_reply-escaping texts config_invalid h = cc
  read_reply-escaping texts call_failed h = cc
  read_reply-escaping texts other_error h = refl
  read_reply-escaping texts (response items) h =
      absurd (map_error-converted (vectors_of dimensions texts items) h)

  embed-escaping :
      (n : ℕ) (s : EmbeddingState F) (provider : List String → Reply F) (texts : List String)
      → providers n ≡ some provider
      → embed dimensions provider texts ≡ failed escaping
      → IsOver (s, true)
  unfolding embed
  embed-escaping n s provider [] p h = cc
  embed-escaping n s provider (text ∷ texts) p h =
      is_left s n provider (text ∷ texts) p (read_reply-escaping _ _ h)

  answer-escaping :
      (n : ℕ) (s : EmbeddingState F) (claimed : List (KnowledgeChunk F))
      (o : Option (List String → Reply F))
      → providers n ≡ o
      → answer batch_size max_attempts dimensions providers o claimed ≡ failed escaping
      → IsOver (s, true)
  answer-escaping n s claimed none p h = cc
  answer-escaping n s claimed (some provider) p h =
      embed-escaping n s provider (map (λ c. c.content) claimed) p h

  after_batch-Round :
      (before : ℕ) (c : KnowledgeChunk F) (cs : List (KnowledgeChunk F)) (s : EmbeddingState F)
      (processed : ℕ) (r : Outcome EmbedFailure (List (List F)))
      → waiting max_attempts s.chunks + length (c ∷ cs) ≡ before
      → (r ≡ failed escaping → IsOver (s, true))
      → Round before
          (after_batch batch_size max_attempts dimensions providers (c ∷ cs) s processed r)
  unfolding mark_embedding_failed
  after_batch-Round before c cs s processed (failed (converted e)) h k =
      ends _ (has_failed refl refl e.code refl)
  after_batch-Round before c cs s processed (failed escaping) h k = raises s (k refl)
  after_batch-Round before c cs s processed (done vectors) h k =
      goes_on _ (omega (arith, h, store_vectors-waiting max_attempts (c ∷ cs) vectors s.chunks))

  after_claim-Round :
      (before n : ℕ) (s : EmbeddingState F) (claimed chunks : List (KnowledgeChunk F))
      → waiting max_attempts chunks + length claimed ≡ before
      → (claimed ≡ [] → waiting max_attempts chunks ≡ 0)
      → Round before (after_claim batch_size max_attempts dimensions providers n s claimed chunks)
  after_claim-Round before n s [] chunks h k = ends _ (has_succeeded refl refl (k refl))
  after_claim-Round before n s (c ∷ cs) chunks h k =
      after_batch-Round before c cs (record { task = s.task; chunks = chunks }) s.task.processed
        (answer batch_size max_attempts dimensions providers (providers n) (c ∷ cs)) h
        (answer-escaping n (record { task = s.task; chunks = chunks }) (c ∷ cs) (providers n) refl)

  embedding_round-Round :
      (n : ℕ) (s : EmbeddingState F)
      → Round
          (waiting max_attempts s.chunks)
          (embedding_round batch_size max_attempts dimensions providers n s)
  unfolding embedding_round
  embedding_round-Round n s =
      after_claim-Round _ n s _ _ (claim-waiting max_attempts batch_size s.chunks)
        (claim-none max_attempts batch_size s.chunks some_batch)

  abbrev Ends : Option (EmbeddingState F × Bool) → Type 0
  Ends o = (end : EmbeddingState F × Bool) × (o ≡ some end) × IsOver end

  continue-Ends :
      (fuel n before : ℕ) (r : EmbeddingState F × Turn)
      → Round before r
      → ((s : EmbeddingState F)
          → waiting max_attempts s.chunks < before
          → Ends (embedding_rounds batch_size max_attempts dimensions providers fuel (suc n) s))
      → Ends (elim r.1 [
        | again ↦ embedding_rounds batch_size max_attempts dimensions providers fuel (suc n) r.0
        | over ↦ some (r.0, false)
        | escaped ↦ some (r.0, true)
      ])
  continue-Ends fuel n before r (goes_on s h) k = k s h
  continue-Ends fuel n before r (ends s h) k = ((s, false), refl, has_returned s h)
  continue-Ends fuel n before r (raises s h) k = ((s, true), refl, h)

  embedding_rounds-Ends :
      (fuel n : ℕ) (s : EmbeddingState F)
      → waiting max_attempts s.chunks < fuel
      → Ends (embedding_rounds batch_size max_attempts dimensions providers fuel n s)
  unfolding embedding_rounds
  embedding_rounds-Ends zero n s h = absurd (omega (arith, h))
  embedding_rounds-Ends (suc fuel) n s h =
      continue-Ends fuel n (waiting max_attempts s.chunks)
        (embedding_round batch_size max_attempts dimensions providers n s)
        (embedding_round-Round n s)
        (λ next l. embedding_rounds-Ends fuel (suc n) next (omega (arith, l, h)))

  catch_embedding-IsFinished :
      (end : EmbeddingState F × Bool) → IsOver end → IsFinished (catch_embedding end)
  unfolding catch_embedding
  catch_embedding-IsFinished end (has_returned s h) = h
  catch_embedding-IsFinished end (is_left s round provider texts p h) =
      has_failed refl refl "KNOWLEDGE_EMBEDDING_TASK_FAILED" refl

  -- With batches of at least one row, whatever the configuration and the provider answer in each round,
  -- the loop ends within one round more than there are rows that can be claimed. It returns, or it is
  -- left by an exception that a provider has raised; either way, behind the worker's `except` clause
  -- the task has succeeded and no row can be claimed any more, or it has failed with an error code.
  pub process_embedding_task-ends :
      (s : EmbeddingState F)
      → (end : EmbeddingState F × Bool) × (process_embedding_task batch_size max_attempts dimensions
            providers
            (suc (waiting max_attempts s.chunks))
            s
          ≡ some end)
        × IsOver end
        × IsFinished (catch_embedding end)
  unfolding process_embedding_task
  process_embedding_task-ends s =
      let (end, e, h) =
        embedding_rounds-Ends (suc (waiting max_attempts s.chunks)) 0
          (with_progress TaskStatus.running "embedding" 0 s.task.completed s.chunks s)
          (omega arith) in
      (end, e, h, catch_embedding-IsFinished end h)
