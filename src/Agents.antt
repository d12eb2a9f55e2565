-- ===== src/Agents.antt =====
-- The generation of test cases by a language model: backend/app/modules/agents.
pub mod Drafts
pub mod Checks
pub mod Llm
pub mod Review
pub mod Tools
pub mod Generation
