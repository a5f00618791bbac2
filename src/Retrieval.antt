-- ===== src/Retrieval.antt =====
-- retrieval/: the search for chunks, and its caches.
pub mod Models
pub mod Cache
pub mod Fusion
pub mod Service
pub mod Examples
