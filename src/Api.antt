-- ===== src/Api.antt =====
-- The web API: src/note_rag/api.
pub mod RateLimiter
pub mod Middleware
mod Examples
