-- ===== src/Execution.antt =====
-- The execution of test cases: backend/app/modules/executions/models.py and service.py.
pub mod Models
pub mod Evidence
pub mod Step
pub mod Run
pub mod Create
pub mod Suite
pub mod Response
