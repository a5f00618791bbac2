-- ===== src/Context.antt =====
-- context/: the context that a question is answered from.
pub mod Models
pub mod Scoring
pub mod Dedup
pub mod Budget
pub mod Service
pub mod Examples
