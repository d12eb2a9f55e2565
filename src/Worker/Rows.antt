-- ===== src/Worker/Rows.antt =====
-- The queue of background tasks and the row of a scan: `claim_next_task` of
-- backend/app/modules/source_scans/repository.py and the transitions of source_scans/service.py.
use ai_test.Base.{ℕ, String, Bool, true, false, Option, none, some, List, [], ◌∷◌, if◌then◌else◌}
use ai_test.Execution.Models.{TaskStatus}
use ai_test.SourceScans.Models.{SourceFile, CodeSymbol, SymbolRelation, ScannedApi}
use ai_test.Knowledge.Models.{KnowledgeChunk}

pub data TaskType : Type 0 where
  source_scan knowledge_embedding execution : TaskType

pub data ScanStatus : Type 0 where
  pending running succeeded failed cancelled : ScanStatus

pub record QueuedTask : Type 0 where
  pub id : ℕ
  pub task_type : TaskType
  pub status : TaskStatus
  pub phase : String
  pub error_code : Option String
  pub error_message : Option String
  pub started : Bool
  pub completed : Bool

-- The counts of a scan's summary.
pub record Summary : Type 0 where
  pub source_files : ℕ
  pub ignored_files : ℕ
  pub total_bytes : ℕ
  pub api_definition_count : ℕ
  pub openapi_definition_count : ℕ
  pub code_symbol_count : ℕ
  pub symbol_relation_count : ℕ
  pub knowledge_chunk_count : ℕ

pub record SourceScan : Type 0 where
  pub status : ScanStatus
  pub summary : Option Summary
  pub error_code : Option String
  pub error_message : Option String
  pub started : Bool
  pub completed : Bool

-- What a scan stores.
pub record ScanContents (F : Type 0) : Type 0 where
  pub symbols : List (CodeSymbol F)
  pub relations : List (SymbolRelation F)
  pub apis : List (ScannedApi F)
  pub chunks : List (KnowledgeChunk F)

-- The task of a scan, its row, its files and its contents.
pub record ScanWorld (F : Type 0) : Type 0 where
  pub task : QueuedTask
  pub scan : SourceScan
  pub files : List SourceFile
  pub contents : Option (ScanContents F)

abbrev pub is_waiting : QueuedTask → Bool
is_waiting t = waits t.status
  where
    waits : TaskStatus → Bool
    waits TaskStatus.pending = true
    waits _ = false

-- `claim_next_task`, on the tasks in the order of their creation that no other worker has locked
unfoldable pub claim_next_task : List QueuedTask → Option QueuedTask
claim_next_task [] = none
claim_next_task (t ∷ tasks) =
    let rest = claim_next_task tasks in if is_waiting t then some t else rest

module _ {F : Type 0} where
  -- `mark_scan_running`, with the time stamps behind it
  unfoldable pub mark_scan_running : ScanWorld F → ScanWorld F
  mark_scan_running w = record w {
    task = record w.task { status = TaskStatus.running; phase = "queued"; started = true };
    scan = record w.scan { status = ScanStatus.running; started = true };
  }

  -- `mark_scan_succeeded`, with the time stamps behind it
  unfoldable pub mark_scan_succeeded : Summary → ScanWorld F → ScanWorld F
  mark_scan_succeeded summary w = record w {
    task = record w.task { status = TaskStatus.succeeded; phase = "completed"; completed = true };
    scan = record w.scan {
      status = ScanStatus.succeeded;
      summary = some summary;
      completed = true;
    };
  }

  -- `mark_scan_failed`, with the time stamps behind it
  unfoldable pub mark_scan_failed : String → String → ScanWorld F → ScanWorld F
  mark_scan_failed code message w = record w {
    task = record w.task {
      status = TaskStatus.failed;
      error_code = some code;
      error_message = some message;
      completed = true;
    };
    scan = record w.scan {
      status = ScanStatus.failed;
      error_code = some code;
      error_message = some message;
      completed = true;
    };
  }
