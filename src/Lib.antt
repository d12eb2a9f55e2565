-- ===== src/Lib.antt =====
-- The backend of an API test platform (backend/app). It reads the source of a service, keeps what it
-- finds as knowledge, lets a language model draft test cases from it, and, once a person has approved
-- them, executes them against a test environment.
--
-- A scan reads Java files and an OpenAPI document, and stores symbols, relations, interfaces and chunks
-- of text. A generation retrieves chunks for some interfaces, asks the model for rules, scenarios and
-- cases, checks each answer, and stores drafts that wait for a review. An execution runs approved test
-- cases one after the other: it resolves the request template, checks the target, sends the request,
-- evaluates the assertions, extracts run variables, and stores redacted evidence. The files:
--
--   Base        lists, texts, dicts, integers, results (`AppError`, backend/app/common/errors.py),
--               outcomes, and `Exec`, a state and exception monad for code that changes rows
--   Json        JSON values and Python's `==` on them
--   Redaction   backend/app/modules/executions/redaction.py
--   Template    the variables of backend/app/modules/executions/variables.py: `resolve_template` and
--               `find_runtime_variables`
--   Request     `build_request` of the same file
--   Assertion   backend/app/modules/executions/assertion_engine.py
--   Extraction  backend/app/modules/executions/extractions.py and `_extract_step_variables`
--   Network     backend/app/common/network.py
--   Runner      backend/app/modules/executions/runner.py
--   Execution   backend/app/modules/executions/models.py and service.py: Evidence is what a step reads
--               and records, Step is `_process_step`, Run is `process_execution_task` with the stop
--               request, Create and Suite are the creation of runs
--   TestSuite   `_replace_steps` of backend/app/modules/test_suites/service.py
--   TestCases   `update_test_case` and `_serialize_cases` of
--               backend/app/modules/testcases/service.py
--   SourceScans backend/app/modules/source_scans: Models is the rows, Reader is reader.py, and OpenApi
--               is openapi_parser.py with the comparison of requests
--   Knowledge   backend/app/modules/knowledge: Chunker, Search, Exact, Hybrid and Embedding are
--               chunker.py, search.py, exact_retrieval.py, hybrid_retrieval.py and embedding.py with the
--               claim of repository.py
--   Worker      the scan task of backend/app/workers/task_worker.py: Symbols and Interfaces are the
--               symbols, relations and interfaces that it stores, Rows is all that it stores, and Queue
--               is the task with the transitions of source_scans/service.py
--   Agents      backend/app/modules/agents: Drafts is schemas.py, Checks is the checks of graph.py, Llm
--               is `AgentLlmClient`, Tools is what tools.py reads and stores, Generation is the nodes of
--               graph.py up to the review and the run of service.py, and Review is the review
--   Runtime     what all of them take from the Python runtime and from libraries
--   Tests       small values, on which the theorems are applied
--
-- State. `World` is a run with its task and its steps; `StepState` is the run and one step. A handler
-- is a function on them, in the order of the code's statements; a flush or a commit has no effect of
-- its own, unless the code depends on one that fails. A stop request comes from another session, so it
-- is an event where the code refreshes the task: `process_execution_task` takes the list of these
-- events. The scan task is a function from the rows of task and scan to the rows at its end, with what
-- it stores, and the embedding task goes in rounds over the chunks; both also give whether an exception
-- leaves them. An error inside a transaction of the scan leaves it before the scan is marked as failed,
-- since a rollback expires the task that the `except` clauses read. A generation ends with the run, the
-- rows that it has stored and the error that it raises, and keeps the name of the node whose checkpoint
-- was the last; each tool checks the scope anew, and a rule that names an unknown symbol fails the flush.
--
-- Parameters. `Runtime` holds Unicode lower case and digits, `str` and `json` on values, `re.search`,
-- `urllib.parse`, `shlex.quote`, `base64` and `ipaddress`; the name lookups and the HTTP exchange
-- (`Network`) and the rows of the database (`Catalogue`) are arguments of the code that uses them, and so
-- are the file system and archives (`FileSystem`), the YAML reader, the process of ripgrep, the provider
-- of embeddings, the vector search, the result of the Java parser, and the language model with its
-- prompts and the reading of its answers (`Model`). Floating-point numbers are a type parameter with the
-- comparisons of `Floats`. A column that is not set before its row is stored reads as None. Of the
-- refusals of the database only that of a rule's symbol is kept.
--
-- Bounds. Recursion is structural, but for the loop of the embedding task, which runs on fuel: one round
-- more than there are chunks to claim is enough. A scan over a text counts the characters that a match
-- has consumed. Numbers are unbounded, as Python's are; its limit on the number of digits that `int`
-- reads is not modelled. Identifiers are numbers, and of a time stamp only its presence is kept.
--
-- Not modelled: routes, schemas and SQL, traceability snapshots, users and projects, reports, the walk
-- of the Java parser over its syntax tree, the polling loop of the worker and its dispatch by the kind of
-- task, the LangGraph library, and the frontend.
pub mod Base
pub mod Json
pub mod Redaction
pub mod Template
pub mod Assertion
pub mod Runtime
pub mod Request
pub mod Network
pub mod Runner
pub mod SourceScans
pub mod Knowledge
pub mod Extraction
pub mod Execution
pub mod TestSuite
pub mod TestCases
pub mod Worker
pub mod Agents
pub mod Tests
