-- ===== src/Embeddings.antt =====
-- embeddings/: the vectors of a document's chunks.
pub mod Indexing
