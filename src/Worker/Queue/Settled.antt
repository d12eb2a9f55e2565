-- ===== src/Worker/Queue/Settled.antt =====
-- A scan that is processed ends, one way or the other.
use ai_test.Base.{String, ◌≡◌, true, some, List, map, All, none, Bool, false}
use ai_test.Base.Outcome.{failed}
use ai_test.Runtime.{Runtime}
use ai_test.Execution.Models.{TaskStatus}
use ai_test.SourceScans.Models.{SourceFile, JavaParseResult}
use ai_test.SourceScans.OpenApi.{ScanError, OpenApiOperation}
use ai_test.Worker.Rows.{ScanStatus, ScanContents, ScanWorld}
use ai_test.Worker.Symbols.Graph.{IsEdge, HasUniqueKeys}
use ai_test.Worker.Interfaces.{api_route}
use ai_test.Worker.Interfaces.Routes.{HasUniqueRoutes}
use ai_test.Worker.Queue.{ScanInputs, build_rows}

module _ {F : Type 0} where
  -- The relations are a graph on the symbols, and the routes are unique.
  pub record IsSound (c : ScanContents F) : Type 0 where
    pub edges : All (IsEdge c.symbols) c.relations
    pub keys : HasUniqueKeys c.relations
    pub routes : HasUniqueRoutes (map api_route c.apis)

module _ {F : Type 0} (py : Runtime F) (inputs : ScanInputs F) where
  -- Why a transaction raises: the row of the artifact or of the project is missing, or the rows cannot
  -- be built.
  pub data Unstorable : Type 0 where
    no_artifact : inputs.artifact ≡ none → Unstorable
    no_project : inputs.project ≡ none → Unstorable
    not_built :
        (files : List SourceFile) (parsed : JavaParseResult F)
        (operations : List (OpenApiOperation F)) (e : ScanError)
        → build_rows py inputs files parsed operations ≡ failed e
        → Unstorable

  -- The task and the scan of `after` have both succeeded, with sound contents; or both failed, with the
  -- same error and the contents of `before`; or an exception has left both running.
  pub data IsSettled (before after : ScanWorld F) : Bool → Type 0 where
    has_succeeded :
        after.task.status ≡ TaskStatus.succeeded
        → after.scan.status ≡ ScanStatus.succeeded
        → after.task.completed ≡ true
        → after.scan.completed ≡ true
        → (c : ScanContents F) → after.contents ≡ some c
        → IsSound c
        → IsSettled before after false
    has_failed :
        after.task.status ≡ TaskStatus.failed
        → after.scan.status ≡ ScanStatus.failed
        → after.task.completed ≡ true
        → after.scan.completed ≡ true
        → (code : String) → after.task.error_code ≡ some code
        → after.scan.error_code ≡ some code
        → after.contents ≡ before.contents
        → IsSettled before after false
    stays_running :
        Unstorable
        → after.task.status ≡ TaskStatus.running
        → after.scan.status ≡ ScanStatus.running
        → after.contents ≡ before.contents
        → IsSettled before after true

  -- A state between the transactions.
  record IsRunning (before w : ScanWorld F) : Type 0 where
    task : w.task.status ≡ TaskStatus.running
    scan : w.scan.status ≡ ScanStatus.running
    contents : w.contents ≡ before.contents

  abbrev Settles : ScanWorld F → ScanWorld F × Bool → Type 0
  Settles before end = IsSettled before end.0 end.1
