-- ===== src/Context/Models.antt =====
-- context/models.py.
use note_rag.Base.{ℕ, Bool, Option, List}
use note_rag.Base.Int.{ℤ}
use note_rag.Chunking.Tokens.{Text}
use note_rag.Persistence.Models.{Float, Metadata}
pub use note_rag.Retrieval.Models.{SearchMode, RetrievalHit, RetrievalResult}

-- `_ScoredHit`
pub record ScoredHit : Type 0 where
  pub hit : RetrievalHit
  pub rerank_score : Option Float
  pub score : Float
  pub original_rank : ℕ

pub record ContextChunk : Type 0 where
  pub citation_id : ℕ
  pub chunk_id : ℕ
  pub document_id : ℕ
  pub filename : Text
  pub media_type : Text
  pub position : ℕ
  pub text : Text
  pub token_count : ℕ
  pub source_metadata : Metadata
  pub retrieval_score : Float
  pub rerank_score : Option Float
  pub score : Float
  pub truncated : Bool

pub record ContextPackage : Type 0 where
  pub query : Text
  pub mode : SearchMode
  pub context : Text
  pub chunks : List ContextChunk
  pub token_count : ℕ
  pub token_budget : ℕ
  pub candidates_considered : ℕ
  pub duplicates_removed : ℕ
  pub truncated : Bool
  pub reranker_model : Option Text

-- The arguments of `build`; `Filters` is the type of the retriever's filters.
pub record Request (Filters : Type 0) : Type 0 where
  pub query : Text
  pub mode : SearchMode
  pub candidate_k : ℤ
  pub max_chunks : ℤ
  pub max_context_tokens : ℤ
  pub vector_weight : Float
  pub rerank : Bool
  pub rerank_weight : Float
  pub filters : Option Filters
