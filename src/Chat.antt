-- ===== src/Chat.antt =====
-- The chat over the notes: src/note_rag/chat.
pub mod Models
pub mod Citations
pub mod History
pub mod Messages
pub mod Service
pub mod Stream
mod Examples
