-- ===== src/SourceScans.antt =====
-- The scan of a project's Java sources: backend/app/modules/source_scans.
pub mod Models
pub mod Reader
pub mod OpenApi
