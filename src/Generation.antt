-- ===== src/Generation.antt =====
-- The generation of curricula and study items: src/note_rag/generation with its jobs.
pub mod Jobs
pub mod Worker
pub mod Enqueue
mod Examples
