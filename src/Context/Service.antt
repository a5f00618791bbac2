-- ===== src/Context/Service.antt =====
-- context/service.py: `ContextBuilder.build`.
pub mod Built
use note_rag.Base.{
  ℕ, ◌+◌, Bool, true, false, not, ◌&&◌, ◌||◌, Option, none, some, List, [], ◌∷◌, length, ltb,
  if◌then◌else◌,
}
use note_rag.Base.Int.{ℤ, pos, pos_part, leb_ℤ}
use note_rag.Base.Result.{Result, ok, raise_if, ◌>>=◌, ◌>>◌}
use note_rag.Chunking.Tokens.{Text, CharClass, count}
use note_rag.Chunking.Models.{Error, value_error}
use note_rag.Persistence.Models.{Float, Metadata}
use note_rag.Context.Models.{
  ScoredHit, ContextChunk, SearchMode, RetrievalResult, ContextPackage, Request,
}
use note_rag.Base.Float.{FloatOps}
use note_rag.Context.Scoring.{Reranker, in_unit, rerank}
use note_rag.Context.Dedup.{deduplicate}
use note_rag.Context.Budget.{fit_budget}

-- `ContextBuilder` with its collaborators, and what the standard library does for it.
pub record ContextBuilder (Filters : Type 0) : Type 0 where
  pub search : Text → SearchMode → ℕ → Float → Option Filters → Result Error RetrievalResult
  pub reranker : Option Reranker
  pub chars : CharClass
  pub fold : ℕ → Text
  pub dumps : Metadata → Text
  pub ops : FloatOps
  pub str_before : ℕ → ℕ → Bool

abbrev pub any_truncated : List ContextChunk → Bool
any_truncated [] = false
any_truncated (c ∷ cs) = c.truncated || any_truncated cs

abbrev pub name_of : Option Reranker → Option Text
name_of none = none
name_of (some r) = some r.model_name

module _ {Filters : Type 0} (b : ContextBuilder Filters) (r : Request Filters) where
  unfoldable pub check : Result Error (Unit {0})
  unfolding in_unit
  check = do
    raise_if (leb_ℤ r.candidate_k (pos 0)) (value_error "candidate_k must be greater than zero")
    raise_if (leb_ℤ r.max_chunks (pos 0)) (value_error "max_chunks must be greater than zero")
    raise_if (leb_ℤ r.max_context_tokens (pos 0))
        (value_error "max_context_tokens must be greater than zero")
    raise_if (not (in_unit b.ops r.rerank_weight))
        (value_error "rerank_weight must be between zero and one")
    ok tt

  unfoldable pub to_package :
      RetrievalResult → List ScoredHit × ℕ → List ContextChunk × Text → ContextPackage
  to_package result (unique, duplicates_removed) (chunks, context) = record {
    query = result.query;
    mode = result.mode;
    context = context;
    chunks = chunks;
    token_count = count b.chars context;
    token_budget = pos_part r.max_context_tokens;
    candidates_considered = length result.hits;
    duplicates_removed = duplicates_removed;
    truncated = ltb (length chunks) (length unique) || any_truncated chunks;
    reranker_model = if r.rerank then name_of b.reranker else none;
  }

  -- From the retriever's result on.
  unfoldable pub assemble : RetrievalResult → Result Error ContextPackage
  unfolding to_package
  assemble result = do
    scored ← rerank b.ops b.str_before b.reranker r.query result.hits r.rerank r.rerank_weight
    let unique = deduplicate b.chars b.fold scored
    fitted ←
        fit_budget b.chars b.dumps (pos_part r.max_chunks) (pos_part r.max_context_tokens) unique.0
    ok (to_package result unique fitted)

  unfoldable pub build : Result Error ContextPackage
  unfolding check assemble
  build =
      check
      >> (b.search r.query r.mode (pos_part r.candidate_k) r.vector_weight r.filters >>= assemble)
