-- ===== src/Execution/Models.antt =====
-- backend/app/modules/executions/models.py, and the rows of other modules that an execution reads.
-- An identifier is a number, and of a time stamp only its presence is kept.
use ai_test.Base.{ℕ, String, Bool, true, false, Option, List}
use ai_test.Base.Dict.{Dict}
use ai_test.Json.{Value, Fields}
use ai_test.Runner.{ExecutionErrorCategory}

pub data ExecutionRunStatus : Type 0 where
  pending running completed failed stopped : ExecutionRunStatus

pub data ExecutionStepStatus : Type 0 where
  pending running passed failed error skipped stopped : ExecutionStepStatus

-- `TaskStatus` of backend/app/modules/source_scans/models.py
pub data TaskStatus : Type 0 where
  pending running succeeded failed cancelled : TaskStatus

-- The row of `background_tasks`, with its payload.
pub record BackgroundTask : Type 0 where
  pub status : TaskStatus
  pub error_code : Option String
  pub error_message : Option String
  pub started : Bool
  pub completed : Bool
  pub write_confirmed : Bool
  pub confirmed_host : Option String

pub record ExecutionRun (F : Type 0) : Type 0 where
  pub status : ExecutionRunStatus
  pub environment_id : ℕ
  pub stop_on_failure : Bool
  pub runtime_variables : Dict (Value F)
  pub total_count : ℕ
  pub passed_count : ℕ
  pub failed_count : ℕ
  pub skipped_count : ℕ
  pub error_code : Option String
  pub error_message : Option String
  pub started : Bool
  pub completed : Bool

pub record AssertionResult (F : Type 0) : Type 0 where
  pub position : ℕ
  pub assertion_type : String
  pub path : Option String
  pub expected : Value F
  pub actual : Value F
  pub passed : Bool
  pub message : String

-- A step, with its assertion results.
pub record ExecutionStep (F : Type 0) : Type 0 where
  pub test_case_id : ℕ
  pub position : ℕ
  pub status : ExecutionStepStatus
  pub method : Option String
  pub target_url : Option String
  pub request_snapshot : Value F
  pub request_override : Fields F
  pub variable_extractions : List (Value F)
  pub extracted_variables : Value F
  pub response_snapshot : Value F
  pub redacted_curl : Option String
  pub duration_ms : Option ℕ
  pub error_category : Option ExecutionErrorCategory
  pub error_code : Option String
  pub error_message : Option String
  pub skip_reason : Option String
  pub started : Bool
  pub completed : Bool
  pub results : List (AssertionResult F)

-- `TestCaseStatus` of backend/app/modules/testcases/models.py
pub data TestCaseStatus : Type 0 where
  draft pending_review approved disabled : TestCaseStatus

pub record TestAssertion (F : Type 0) : Type 0 where
  pub assertion_type : String
  pub config : Fields F

-- A test case, with its assertions in the order of their positions.
pub record TestCase (F : Type 0) : Type 0 where
  pub id : ℕ
  pub api_definition_id : ℕ
  pub status : TestCaseStatus
  pub request_template : Fields F
  pub assertions : List (TestAssertion F)

pub record ApiDefinition : Type 0 where
  pub id : ℕ
  pub method : String
  pub normalized_path : String

abbrev pub is_pending : ExecutionStepStatus → Bool
is_pending ExecutionStepStatus.pending = true
is_pending _ = false

-- `step.status in {FAILED, ERROR}`
abbrev pub is_failure : ExecutionStepStatus → Bool
is_failure ExecutionStepStatus.failed = true
is_failure ExecutionStepStatus.error = true
is_failure _ = false

abbrev pub is_cancelled : TaskStatus → Bool
is_cancelled TaskStatus.cancelled = true
is_cancelled _ = false
