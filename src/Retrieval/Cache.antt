-- ===== src/Retrieval/Cache.antt =====
-- retrieval/cache.py: `PersistentRetrievalCache` over its three tables. What the standard library
-- does for it is in `Codec`: the digest of a canonical JSON text, and the texts of ids.
pub mod Results
pub mod RoundTrip
pub mod Words
pub mod Keys
pub mod Upserts
pub mod Reads
pub mod Stored
pub mod Served
pub mod Versions
pub mod Examples
use note_rag.Base.{
  ℕ, ◌+◌, ◌<◌, ◌≡◌, Bool, true, false, not, ◌&&◌, ◌||◌, Option, none, some, List, [], ◌∷◌, ◌++◌,
  map, length, String, leb, ◌==◌, if◌then◌else◌, Bool-cases,
}
use note_rag.Base.Int.{ℤ, pos, pos_part, leb_ℤ}
use note_rag.Base.Result.{Result, ok, raise, raise_if, ◌>>=◌, ◌>>◌}
use note_rag.Base.Sorting.{sort_by}
use note_rag.Base.Table.{find, update}
use note_rag.Chunking.Tokens.{Text, CharClass}
use note_rag.Persistence.Models.{Float, is_finite, Metadata}
use note_rag.Embeddings.Indexing.{all_finite}
use note_rag.Retrieval.Models.{SearchMode, SearchFilters, RetrievalHit, RetrievalResult}
use note_rag.Context.Dedup.{collapse, lstrip, rstrip}

-- One row of `QueryEmbeddingCache`
pub record EmbeddingRow : Type 0 where
  pub key_hash : ℕ
  pub model_name : String
  pub normalized_query : Text
  pub dimension : ℕ
  pub vector : List Float
  pub expires_at : ℕ

-- One hit in the payload: ids are texts.
pub record PayloadHit : Type 0 where
  pub chunk_id : Text
  pub document_id : Text
  pub filename : Text
  pub media_type : Text
  pub position : ℕ
  pub text : Text
  pub token_count : ℕ
  pub token_start : ℕ
  pub token_end : ℕ
  pub char_start : ℕ
  pub char_end : ℕ
  pub source_metadata : Metadata
  pub score : Float
  pub vector_score : Option Float
  pub keyword_score : Option Float

pub record Payload : Type 0 where
  pub query : Text
  pub mode : String
  pub hits : List PayloadHit

-- One row of `RetrievalResultCache`
pub record ResultRow : Type 0 where
  pub key_hash : ℕ
  pub corpus_version : ℕ
  pub payload : Payload
  pub expires_at : ℕ

pub record RetrievalKey : Type 0 where
  pub query : Text
  pub mode : String
  pub top_k : ℕ
  pub vector_weight : Float
  pub document_ids : List Text
  pub filenames : List Text
  pub media_types : List Text
  pub source_metadata : Metadata
  pub model : String
  pub candidate_multiplier : ℕ
  pub rrf_k : ℕ
  pub corpus_version : ℕ

-- The dictionaries that are hashed.
pub data KeyParts : Type 0 where
  embedding_parts : (version : ℕ) (model : String) (dimension : ℕ) (query : Text) → KeyParts
  retrieval_parts : (version : ℕ) → RetrievalKey → KeyParts

-- `_hash`, `str(uuid)`, `uuid.UUID(text)` and white space.
pub record Codec : Type 0 where
  pub digest : KeyParts → ℕ
  pub uuid_str : ℕ → Text
  pub uuid_parse : Text → Option ℕ
  pub chars : CharClass

-- The calls of `CacheMetrics`
pub data Metric : Type 0 where
  cache_request : String → String → Metric
  provider_call : String → Metric
  invalidation : String → Metric
  version_set : ℕ → Metric

-- The tables, with `CacheState` under the key of the corpus version, and the metrics recorded.
pub record CacheDb : Type 0 where
  pub embeddings : List EmbeddingRow
  pub results : List ResultRow
  pub version : Option ℕ
  pub metrics : List Metric

pub record RetrievalCache : Type 0 where
  pub embedding_enabled : Bool
  pub retrieval_enabled : Bool
  pub embedding_ttl : ℕ
  pub retrieval_ttl : ℕ
  pub has_metrics : Bool
  pub codec : Codec

unfoldable pub make_cache : Bool → Bool → Bool → ℤ → ℤ → Bool → Codec → Result String RetrievalCache
make_cache enabled embedding retrieval embedding_ttl retrieval_ttl has_metrics codec = do
  raise_if (leb_ℤ embedding_ttl (pos 0) || leb_ℤ retrieval_ttl (pos 0))
      "cache TTL values must be greater than zero"
  ok (record {
    embedding_enabled = enabled && embedding;
    retrieval_enabled = enabled && retrieval;
    embedding_ttl = pos_part embedding_ttl;
    retrieval_ttl = pos_part retrieval_ttl;
    has_metrics = has_metrics;
    codec = codec;
  })

unfoldable pub normalize_query : CharClass → Text → Text
unfolding collapse lstrip rstrip
normalize_query k query = collapse k false (rstrip k (lstrip k query))

-- `_cache_metric` and the other calls of the metrics
unfoldable pub record_metric : RetrievalCache → Metric → CacheDb → CacheDb
record_metric c m db = if c.has_metrics then record db { metrics = db.metrics ++ m ∷ [] } else db

unfoldable pub is_expired : ℕ → ℕ → Bool
is_expired expires_at now = leb expires_at now

-- `session.delete(entry)`
unfoldable pub delete_by {ℓ} : {A : Type ℓ} → (A → ℕ) → ℕ → List A → List A
delete_by key k [] = []
delete_by key k (r ∷ rs) = if key r == k then delete_by key k rs else r ∷ delete_by key k rs

-- `on_conflict_do_update`, by what is there
unfoldable pub insert_or_change : {A : Type 0} → (A → ℕ) → A → (A → A) → Option A → List A → List A
unfolding update
insert_or_change key row change none rows = rows ++ row ∷ []
insert_or_change key row change (some _) rows = update key (key row) change rows

-- `_upsert`: the columns of `change` where the key is there, else a new row.
unfoldable pub upsert : {A : Type 0} → (A → ℕ) → A → (A → A) → List A → List A
unfolding find insert_or_change
upsert key row change rows = insert_or_change key row change (find key (key row) rows) rows

abbrev pub embedding_hash : EmbeddingRow → ℕ
embedding_hash r = r.key_hash

abbrev pub result_hash : ResultRow → ℕ
result_hash r = r.key_hash

module _ (c : RetrievalCache) where
  unfoldable pub embedding_key : String → ℕ → Text → ℕ
  unfolding normalize_query
  embedding_key model dimension query =
      c.codec.digest (embedding_parts 1 model dimension (normalize_query c.codec.chars query))

  -- What a row that is there gives.
  unfoldable pub read_embedding :
      ℕ → ℕ → EmbeddingRow → CacheDb → (Option (List Float) × String) × CacheDb
  unfolding is_expired record_metric delete_by all_finite
  read_embedding dimension now entry db =
      let gone = record db { embeddings = delete_by embedding_hash entry.key_hash db.embeddings } in
      if is_expired entry.expires_at now
      then ((none, "expired"), record_metric c (cache_request "embedding" "expired") gone)
      else if not (length entry.vector == dimension) || not (all_finite entry.vector)
      then ((none, "invalid"), record_metric c (cache_request "embedding" "invalid") db)
      else ((some entry.vector, "hit"), record_metric c (cache_request "embedding" "hit") db)

  after_find_embedding :
      ℕ → ℕ → Option EmbeddingRow → CacheDb → (Option (List Float) × String) × CacheDb
  unfolding read_embedding record_metric
  after_find_embedding dimension now none db =
      ((none, "miss"), record_metric c (cache_request "embedding" "miss") db)
  after_find_embedding dimension now (some entry) db = read_embedding dimension now entry db

  unfoldable pub get_embedding :
      String → ℕ → Text → ℕ → CacheDb → (Option (List Float) × String) × CacheDb
  unfolding after_find_embedding embedding_key find
  get_embedding model dimension query now db =
      if not c.embedding_enabled
      then ((none, "disabled"), db)
      else after_find_embedding dimension now
          (find embedding_hash (embedding_key model dimension query) db.embeddings) db

  unfoldable pub put_embedding : String → ℕ → Text → List Float → ℕ → CacheDb → CacheDb
  unfolding embedding_key upsert
  put_embedding model dimension query vector now db =
      let row : EmbeddingRow = record {
        key_hash = embedding_key model dimension query;
        model_name = model;
        normalized_query = normalize_query c.codec.chars query;
        dimension = dimension;
        vector = vector;
        expires_at = now + c.embedding_ttl;
      } in
      if not c.embedding_enabled then db else record db {
        embeddings =
            upsert embedding_hash row
              (λ (r : EmbeddingRow). record r {
                vector = vector;
                expires_at = now + c.embedding_ttl;
              })
              db.embeddings;
      }

  -- `corpus_version`: the version, before the metric is recorded
  unfoldable pub stored_version : CacheDb → ℕ
  stored_version db = elim db.version [ none ↦ 1 | some v ↦ v ]

  unfoldable pub corpus_version : CacheDb → ℕ × CacheDb
  unfolding stored_version record_metric
  corpus_version db =
      if not c.retrieval_enabled
      then (0, db)
      else (stored_version db, record_metric c (version_set (stored_version db)) db)

  -- `_invalidate`
  unfoldable pub bump : CacheDb → ℕ × CacheDb
  bump db =
      let v : ℕ = elim db.version [ none ↦ 2 | some v ↦ v + 1 ] in
      (v, record db { version = some v; results = [] })

  unfoldable pub invalidate_retrieval : String → CacheDb → ℕ × CacheDb
  unfolding bump record_metric
  invalidate_retrieval reason db =
      let (v, db') = bump db in
      if not c.retrieval_enabled
      then (0, db)
      else (v, record_metric c (version_set v) (record_metric c (invalidation reason) db'))

  unfoldable pub record_provider_call : String → CacheDb → CacheDb
  unfolding record_metric
  record_provider_call result db = record_metric c (provider_call result) db
