-- ===== src/Chunking.antt =====
-- chunking/: tokens, the window chunker and the recursive chunker.
pub mod Tokens
pub mod Models
pub mod Cover
pub mod Build
pub mod Contract
pub mod Windows
pub mod Separators
pub mod Recursive
mod Examples
