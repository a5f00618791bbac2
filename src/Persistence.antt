-- ===== src/Persistence.antt =====
-- persistence/: the rows, the database, and the repositories over it.
pub mod Models
pub mod Jobs
pub mod Documents
pub mod Chunks
pub mod Topics
mod Examples
