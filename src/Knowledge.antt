-- ===== src/Knowledge.antt =====
-- The knowledge base of a scan: backend/app/modules/knowledge.
pub mod Models
pub mod Chunker
pub mod Search
pub mod Exact
pub mod Hybrid
pub mod Embedding
