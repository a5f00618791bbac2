-- ===== src/Retrieval/Models.antt =====
-- retrieval/models.py.
use note_rag.Base.{ℕ, Option, List, String}
use note_rag.Chunking.Tokens.{Text}
use note_rag.Persistence.Models.{Float, Metadata}

pub data SearchMode : Type 0 where
  vector keyword hybrid : SearchMode

pub record SearchFilters : Type 0 where
  pub document_ids : List ℕ
  pub filenames : List Text
  pub media_types : List Text
  pub source_metadata : Metadata

pub record RetrievalHit : Type 0 where
  pub chunk_id : ℕ
  pub document_id : ℕ
  pub filename : Text
  pub media_type : Text
  pub position : ℕ
  pub text : Text
  pub token_count : ℕ
  pub token_start : ℕ
  pub token_end : ℕ
  pub char_start : ℕ
  pub char_end : ℕ
  pub source_metadata : Metadata
  pub score : Float
  pub vector_score : Option Float
  pub keyword_score : Option Float

pub record RetrievalResult : Type 0 where
  pub query : Text
  pub mode : SearchMode
  pub hits : List RetrievalHit
  pub embedding_cache_status : String
  pub retrieval_cache_status : String
  pub corpus_version : ℕ
