-- ===== src/Retrieval/Service.antt =====
-- retrieval/service.py: `RetrievalService.search` and `_embed_query`. The embedding model and the SQL
-- of the repository are arguments. An exception leaves the caches as they are by then, so the parts
-- return them beside it.
pub mod Kept
pub mod Repeated
use note_rag.Base.{
  ℕ, ◌+◌, ◌*◌, Bool, true, false, not, ◌&&◌, ◌||◌, Option, none, some, List, [], ◌∷◌, map, take,
  length, String, ◌==◌, if◌then◌else◌,
}
use note_rag.Base.Float.{Float, FloatOps}
use note_rag.Base.Int.{ℤ, pos, pos_part, leb_ℤ, ltb_ℤ}
use note_rag.Base.Result.{Result, ok, raise, raise_if, ◌>>=◌, ◌>>◌}
use note_rag.Chunking.Tokens.{Text}
use note_rag.Persistence.Models.{Exception}
use note_rag.Embeddings.Indexing.{all_finite}
use note_rag.Context.Dedup.{lstrip, rstrip}
use note_rag.Retrieval.Models.{SearchMode, SearchFilters, RetrievalHit, RetrievalResult}
use note_rag.Retrieval.Cache.{
  CacheDb, RetrievalCache, Codec, corpus_version, get_embedding, put_embedding,
  record_provider_call,
}
use note_rag.Retrieval.Cache.Results.{SearchKey, Cached, get_retrieval, put_retrieval}
use note_rag.Retrieval.Fusion.{RankedChunk, to_hit, fuse}

-- The service with its collaborators.
pub record RetrievalService : Type 0 where
  pub candidate_multiplier : ℕ
  pub rrf_k : ℕ
  pub cache : Option RetrievalCache
  pub codec : Codec
  pub ops : FloatOps
  pub model_name : String
  pub dimension : ℕ
  pub embed_query : Text → Result Exception (List Float)
  pub vector_search : List Float → ℕ → SearchFilters → List RankedChunk
  pub keyword_search : Text → ℕ → SearchFilters → List RankedChunk

-- The arguments of `search`
pub record Query : Type 0 where
  pub query : Text
  pub mode : SearchMode
  pub top_k : ℤ
  pub vector_weight : Float
  pub filters : Option SearchFilters

-- What the clock gives at the accesses to the caches.
pub record Times : Type 0 where
  pub result_read : ℕ
  pub vector_read : ℕ
  pub vector_stored : ℕ
  pub result_stored : ℕ

unfoldable pub value_error : String → Exception
value_error m = record { message = m; class_name = "ValueError" }

unfoldable pub checked_settings : ℤ → ℤ → Result Exception (ℕ × ℕ)
unfolding value_error
checked_settings candidate_multiplier rrf_k = do
  raise_if (leb_ℤ candidate_multiplier (pos 0))
      (value_error "candidate_multiplier must be greater than zero")
  raise_if (ltb_ℤ rrf_k (pos 0)) (value_error "rrf_k cannot be negative")
  ok (pos_part candidate_multiplier, pos_part rrf_k)

-- What a call gives, and the caches after it.
abbrev pub Run : Type 0 → Type 0
Run A = Result Exception A × CacheDb

abbrev pub after_run : {A B : Type 0} → Run A → (A → CacheDb → Run B) → Run B
after_run (ok a, db) f = f a db
after_run (raise e, db) f = (raise e, db)

abbrev pub if_cache :
    Option RetrievalCache → (RetrievalCache → CacheDb → CacheDb) → CacheDb → CacheDb
if_cache none f db = db
if_cache (some c) f db = f c db

no_filters : SearchFilters
no_filters = record { document_ids = []; filenames = []; media_types = []; source_metadata = [] }

unfoldable pub or_no_filters : Option SearchFilters → SearchFilters
unfolding no_filters
or_no_filters none = no_filters
or_no_filters (some f) = f

unfoldable pub needs_vector : FloatOps → SearchMode → Float → Bool
needs_vector ops SearchMode.vector weight = true
needs_vector ops SearchMode.keyword weight = false
needs_vector ops SearchMode.hybrid weight = ops.less ops.zero_point weight

unfoldable pub needs_keyword : FloatOps → SearchMode → Float → Bool
needs_keyword ops SearchMode.vector weight = false
needs_keyword ops SearchMode.keyword weight = true
needs_keyword ops SearchMode.hybrid weight = ops.less weight ops.one_point

module _ (s : RetrievalService) (t : Times) where
  -- What the provider gave: `embed_query` from the `except` on.
  unfoldable pub after_provider :
      Text → String → Result Exception (List Float) → CacheDb → Run (List Float × String)
  unfolding value_error record_provider_call put_embedding
  after_provider query status (raise e) db =
      (raise e, if_cache s.cache (λ c. record_provider_call c "error") db)
  after_provider query status (ok vector) db =
      let db' = if_cache s.cache (λ c. record_provider_call c "success") db in
      if not (length vector == s.dimension)
      then (raise (value_error "embedding provider returned the wrong dimension"), db')
      else if not (all_finite vector)
      then (raise (value_error "embedding vector contains a non-finite value"), db')
      else (
        ok (vector, status),
        if_cache s.cache
            (λ c. put_embedding c s.model_name s.dimension query vector t.vector_stored) db',
      )

  unfoldable pub after_embedding_cache :
      Text → (Option (List Float) × String) × CacheDb → Run (List Float × String)
  unfolding after_provider
  after_embedding_cache query ((some vector, status), db) = (ok (vector, status), db)
  after_embedding_cache query ((none, status), db) =
      after_provider query status (s.embed_query query) db

  unfoldable pub read_embedding_cache :
      Text → Option RetrievalCache → CacheDb → (Option (List Float) × String) × CacheDb
  unfolding get_embedding
  read_embedding_cache query none db = ((none, "disabled"), db)
  read_embedding_cache query (some c) db =
      get_embedding c s.model_name s.dimension query t.vector_read db

  -- `_embed_query`
  unfoldable pub embed_query : Text → CacheDb → Run (List Float × String)
  unfolding after_embedding_cache read_embedding_cache
  embed_query query db = after_embedding_cache query (read_embedding_cache query s.cache db)

  -- The vector where it is needed, and the status of its cache.
  unfoldable pub query_vector : Text → Bool → CacheDb → Run (Option (List Float) × String)
  unfolding embed_query
  query_vector query needed db =
      let embedded = after_run (embed_query query db) (λ v db'. (ok (some v.0, v.1), db')) in
      if needed then embedded else (ok (none, "not_used"), db)

  unfoldable pub ranked_hits :
      SearchMode → List RankedChunk → List RankedChunk → Float → List RetrievalHit
  unfolding to_hit fuse
  ranked_hits SearchMode.vector vector_hits keyword_hits weight =
      map (λ (c : RankedChunk). to_hit c c.score (some c.score) none) vector_hits
  ranked_hits SearchMode.keyword vector_hits keyword_hits weight =
      map (λ (c : RankedChunk). to_hit c c.score none (some c.score)) keyword_hits
  ranked_hits SearchMode.hybrid vector_hits keyword_hits weight =
      fuse s.ops s.rrf_k s.codec.uuid_str vector_hits keyword_hits weight

  unfoldable pub vector_hits_of : Option (List Float) → ℕ → SearchFilters → List RankedChunk
  vector_hits_of none limit filters = []
  vector_hits_of (some v) limit filters = s.vector_search v limit filters

  -- From the vector on; `status`, `version` and `key` are what the cache of results gave.
  unfoldable pub find_hits :
      SearchKey → String → ℕ → ℕ → Option (List Float) × String → CacheDb → Run RetrievalResult
  unfolding needs_keyword ranked_hits vector_hits_of put_retrieval
  find_hits k status version key (vector, vector_status) db =
      let limit = k.top_k * s.candidate_multiplier in
      let vector_hits = vector_hits_of vector limit k.filters in
      let keyword_hits =
        if needs_keyword s.ops k.mode k.vector_weight
        then s.keyword_search k.query limit k.filters
        else [] in
      let result : RetrievalResult = record {
        query = k.query;
        mode = k.mode;
        hits = take k.top_k (ranked_hits k.mode vector_hits keyword_hits k.vector_weight);
        embedding_cache_status = vector_status;
        retrieval_cache_status = status;
        corpus_version = version;
      } in
      (ok result, if_cache s.cache (λ c. put_retrieval c key result version t.result_stored) db)

  -- The result of the cache is returned, where there is one.
  unfoldable pub served_or_found :
      SearchKey → Cached → Option RetrievalResult → CacheDb → Run RetrievalResult
  unfolding query_vector needs_vector find_hits
  served_or_found k cached (some r) db = (ok r, db)
  served_or_found k cached none db =
      after_run (query_vector k.query (needs_vector s.ops k.mode k.vector_weight) db)
        (find_hits k cached.status cached.version cached.key)

  unfoldable pub after_result_cache : SearchKey → Cached → CacheDb → Run RetrievalResult
  unfolding served_or_found
  after_result_cache k cached db = served_or_found k cached cached.result db

  unfoldable pub lift_read : Result String (Cached × CacheDb) → CacheDb → Run Cached
  unfolding value_error
  lift_read (raise m) db = (raise (value_error m), db)
  lift_read (ok (cached, db')) db = (ok cached, db')

  unfoldable pub read_result_cache : SearchKey → Option RetrievalCache → CacheDb → Run Cached
  unfolding lift_read get_retrieval corpus_version
  read_result_cache k none db =
      (ok (record { result = none; status = "disabled"; version = 0; key = 0 }), db)
  read_result_cache k (some c) db =
      lift_read (get_retrieval c k t.result_read db) (corpus_version c db).1

  unfoldable pub search_key : Query → SearchKey
  unfolding lstrip rstrip or_no_filters
  search_key q = record {
    query = rstrip s.codec.chars (lstrip s.codec.chars q.query);
    mode = q.mode;
    top_k = pos_part q.top_k;
    vector_weight = q.vector_weight;
    filters = or_no_filters q.filters;
    model_name = s.model_name;
    candidate_multiplier = s.candidate_multiplier;
    rrf_k = s.rrf_k;
  }

  unfoldable pub check_query : Query → Result Exception (Unit {0})
  unfolding value_error lstrip rstrip
  check_query q = do
    raise_if (length (rstrip s.codec.chars (lstrip s.codec.chars q.query)) == 0)
        (value_error "query cannot be empty")
    raise_if (leb_ℤ q.top_k (pos 0)) (value_error "top_k must be greater than zero")
    raise_if
        (not (
          s.ops.less_eq s.ops.zero_point q.vector_weight
          && s.ops.less_eq q.vector_weight s.ops.one_point))
        (value_error "vector_weight must be between zero and one")
    ok tt

  unfoldable pub search : Query → CacheDb → Run RetrievalResult
  unfolding check_query search_key read_result_cache after_result_cache
  search q db =
      after_run (check_query q, db)
        λ _ db0.
          after_run (read_result_cache (search_key q) s.cache db0)
            (after_result_cache (search_key q))
