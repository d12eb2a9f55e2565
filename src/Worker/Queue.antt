-- ===== src/Worker/Queue.antt =====
-- `process_next` of backend/app/workers/task_worker.py for a source scan. A transaction that raises
-- writes nothing and, as every rollback of a SQLAlchemy session, expires the task: the `except` clauses
-- read `task.id` before they await anything, which raises in its turn, so that such an error leaves
-- `process_next` before the scan is marked as failed.
pub mod Settled
use ai_test.Base.{
  ℕ, zero, suc, ◌+◌, String, Bool, true, false, not, ◌&&◌, Option, none, some, List, [], ◌∷◌, ◌++◌,
  map, length, ◌==◌, if◌then◌else◌,
}
use ai_test.Base.Outcome.{Outcome, done, failed, ◌>>=◌, ◌>>◌, map_error}
use ai_test.Runtime.{Runtime}
use ai_test.Execution.Models.{TaskStatus}
use ai_test.SourceScans.Models.{SourceFile, CodeSymbol, SymbolRelation, ScannedApi, JavaParseResult}
use ai_test.SourceScans.Reader.{
  SourceArtifact, ReadError, source_error, ReadSettings, FileSystem, DiscoveredSourceFile,
  SourceDiscoveryResult,
}
use ai_test.SourceScans.Reader.Discover.{discover_java_files}
use ai_test.SourceScans.OpenApi.{
  ScanError, reported, unexpected, Scanning, OpenApiSourceType, OpenApiSettings, OpenApiOperation,
  Sources, load_openapi_operations,
}
use ai_test.Knowledge.Models.{KnowledgeChunk}
use ai_test.Knowledge.Chunker.{build_knowledge_chunks}
use ai_test.Worker.Rows.{
  QueuedTask, Summary, SourceScan, ScanContents, ScanWorld, mark_scan_running, mark_scan_succeeded,
  mark_scan_failed,
}
use ai_test.Worker.Symbols.{code_symbols, link_parents, symbol_relations}
use ai_test.Worker.Interfaces.{api_definitions}

-- The rows of the files, with the identifiers from `id` on.
unfoldable pub source_files : ℕ → List DiscoveredSourceFile → List SourceFile
source_files id [] = []
source_files id (f ∷ files) =
    record {
      id = id;
      relative_path = f.relative_path;
      content = f.content;
      content_sha256 = f.content_sha256;
      size_bytes = f.size_bytes;
    }
    ∷ source_files (suc id) files

module _ {F : Type 0} where
  -- The `except` clauses, for an error outside of a transaction: one for each kind of error with a code,
  -- and the last one.
  abbrev pub fail_scan : ScanError → ScanWorld F → ScanWorld F
  fail_scan (reported code message) w = mark_scan_failed code message w
  fail_scan unexpected w = mark_scan_failed "SOURCE_SCAN_TASK_FAILED" "源码扫描任务执行失败" w

abbrev pub read_error : ReadError → ScanError
read_error (source_error code message) = reported code message
read_error e = unexpected

-- What a scan uses: the artifact and the OpenAPI source of its project, `none` where a row is missing.
pub record ScanInputs (F : Type 0) : Type 0 where
  pub artifact : Option SourceArtifact
  pub project : Option (Option OpenApiSourceType × Option String)
  pub read_settings : ReadSettings
  pub openapi_settings : OpenApiSettings
  pub sources : Sources F
  pub parse_java : List (ℕ × String) → Scanning (JavaParseResult F)
  pub sha256 : String → String
  pub first_id : ℕ

abbrev row_or_raise : {A : Type 0} → String → String → Option A → Scanning A
row_or_raise code message none = failed (reported code message)
row_or_raise code message (some a) = done a

module _ {F : Type 0} (py : Runtime F) (inputs : ScanInputs F) where
  -- The first transaction.
  unfoldable pub read_project :
      Scanning (SourceArtifact × (Option OpenApiSourceType × Option String))
  read_project = do
    artifact ← row_or_raise "SOURCE_ARTIFACT_NOT_FOUND" "扫描来源不存在" inputs.artifact
    project ← row_or_raise "PROJECT_NOT_FOUND" "项目不存在" inputs.project
    done (artifact, project)

  -- The reading of the sources, outside of a transaction.
  unfoldable pub read_sources : SourceArtifact → Scanning SourceDiscoveryResult
  unfolding discover_java_files
  read_sources artifact =
      map_error read_error (discover_java_files inputs.sources.files inputs.read_settings artifact)

  -- The rows that are built in the last transaction.
  unfoldable pub build_rows :
      List SourceFile
      → JavaParseResult F
      → List (OpenApiOperation F)
      → Scanning (ScanContents F × ℕ)
  unfolding code_symbols link_parents symbol_relations api_definitions build_knowledge_chunks
  build_rows files parsed operations = do
    let stored = code_symbols inputs.first_id parsed.code_symbols
    let symbols = link_parents stored parsed.code_symbols stored
    apis ← api_definitions py symbols parsed.api_definitions operations
    done (
      record {
        symbols = symbols;
        relations = symbol_relations symbols parsed.symbol_relations [];
        apis = apis;
        chunks = build_knowledge_chunks inputs.sha256 inputs.first_id files symbols;
      },
      length operations,
    )

  -- The parsing, outside of a transaction.
  unfoldable pub parse_contents :
      List SourceFile
      → Option OpenApiSourceType
      → Option String
      → Scanning (JavaParseResult F × List (OpenApiOperation F))
  unfolding load_openapi_operations
  parse_contents files source_type location = do
    parsed ← inputs.parse_java (map (λ f. (f.id, f.content)) files)
    operations ←
        load_openapi_operations py inputs.sources inputs.openapi_settings source_type location
    done (parsed, operations)

  abbrev summary_of : SourceDiscoveryResult → ScanContents F → ℕ → Summary
  summary_of discovery c operations = record {
    source_files = length discovery.files;
    ignored_files = discovery.ignored_file_count;
    total_bytes = discovery.total_bytes;
    api_definition_count = length c.apis;
    openapi_definition_count = operations;
    code_symbol_count = length c.symbols;
    symbol_relation_count = length c.relations;
    knowledge_chunk_count = length c.chunks;
  }

  -- The last transaction; the files are stored already.
  abbrev pub store_contents :
      SourceDiscoveryResult → Scanning (ScanContents F × ℕ) → ScanWorld F → ScanWorld F × Bool
  store_contents discovery (failed e) w = (w, true)
  store_contents discovery (done (c, operations)) w = (
    mark_scan_succeeded (summary_of discovery c operations) (record w { contents = some c }),
    false,
  )

  abbrev pub conclude_scan :
      SourceDiscoveryResult
      → List SourceFile
      → Scanning (JavaParseResult F × List (OpenApiOperation F))
      → ScanWorld F
      → ScanWorld F × Bool
  conclude_scan discovery files (failed e) w = (fail_scan e w, false)
  conclude_scan discovery files (done (parsed, operations)) w =
      store_contents discovery (build_rows files parsed operations) w

  abbrev pub continue_scan :
      Option OpenApiSourceType
      → Option String
      → Scanning SourceDiscoveryResult
      → ScanWorld F
      → ScanWorld F × Bool
  continue_scan source_type location (failed e) w = (fail_scan e w, false)
  continue_scan source_type location (done discovery) w =
      let files = source_files inputs.first_id discovery.files in
      conclude_scan discovery files (parse_contents files source_type location)
        (record w { files = files })

  abbrev pub start_scan :
      Scanning (SourceArtifact × (Option OpenApiSourceType × Option String))
      → ScanWorld F
      → ScanWorld F × Bool
  start_scan (failed e) w = (w, true)
  start_scan (done (artifact, (source_type, location))) w =
      continue_scan source_type location (read_sources artifact) w

  -- `process_next` for a claimed scan task whose scan is found, and stays: the rows at the end, and
  -- whether an exception leaves it.
  unfoldable pub process_source_scan : ScanWorld F → ScanWorld F × Bool
  unfolding mark_scan_running mark_scan_succeeded mark_scan_failed source_files read_project
      read_sources parse_contents build_rows
  process_source_scan w = start_scan read_project (mark_scan_running w)
