-- ===== src/Worker.antt =====
-- The worker of the background tasks: backend/app/workers/task_worker.py.
pub mod Symbols
pub mod Interfaces
pub mod Rows
pub mod Queue
