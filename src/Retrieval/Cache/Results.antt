-- ===== src/Retrieval/Cache/Results.antt =====
-- retrieval/cache.py: the cache of results, with its keys and payloads.
use note_rag.Base.{
  ℕ, ◌+◌, Bool, true, false, not, ◌&&◌, ◌||◌, Option, none, some, List, [], ◌∷◌, map, String, ltb,
  ◌==◌, if◌then◌else◌,
}
use note_rag.Base.Result.{Result, ok, raise, ◌>>=◌}
use note_rag.Base.Sorting.{sort_by}
use note_rag.Base.Table.{find}
use text.Mathlib.Text.{◌==◌ as str_eq}
use note_rag.Chunking.Tokens.{Text}
use note_rag.Persistence.Models.{Float}
use note_rag.Retrieval.Models.{SearchMode, SearchFilters, RetrievalHit, RetrievalResult}
use note_rag.Retrieval.Cache.{
  PayloadHit, Payload, ResultRow, RetrievalKey, retrieval_parts, Codec, cache_request, CacheDb,
  RetrievalCache, normalize_query, record_metric, is_expired, delete_by, upsert, result_hash,
  corpus_version,
}
use note_rag.Context.Dedup.{lstrip, rstrip}

-- `<` of texts
unfoldable pub text_before : Text → Text → Bool
text_before a [] = false
text_before [] (d ∷ b) = true
text_before (c ∷ a) (d ∷ b) = ltb c d || (c == d && text_before a b)

unfoldable pub mode_value : SearchMode → String
mode_value SearchMode.vector = "vector"
mode_value SearchMode.keyword = "keyword"
mode_value SearchMode.hybrid = "hybrid"

-- `SearchMode(text)`
unfoldable pub mode_of : String → Result String SearchMode
mode_of s =
    if str_eq s "vector"
    then ok SearchMode.vector
    else if str_eq s "keyword"
    then ok SearchMode.keyword
    else if str_eq s "hybrid"
    then ok SearchMode.hybrid
    else raise "not a valid SearchMode"

-- The arguments that the result depends on.
pub record SearchKey : Type 0 where
  pub query : Text
  pub mode : SearchMode
  pub top_k : ℕ
  pub vector_weight : Float
  pub filters : SearchFilters
  pub model_name : String
  pub candidate_multiplier : ℕ
  pub rrf_k : ℕ

unfoldable pub key_parts : Codec → SearchKey → ℕ → RetrievalKey
unfolding normalize_query mode_value sort_by text_before
key_parts codec s version = record {
  query = normalize_query codec.chars s.query;
  mode = mode_value s.mode;
  top_k = s.top_k;
  vector_weight = s.vector_weight;
  document_ids = sort_by text_before (map codec.uuid_str s.filters.document_ids);
  filenames = sort_by text_before s.filters.filenames;
  media_types = sort_by text_before s.filters.media_types;
  source_metadata = s.filters.source_metadata;
  model = s.model_name;
  candidate_multiplier = s.candidate_multiplier;
  rrf_k = s.rrf_k;
  corpus_version = version;
}

unfoldable pub retrieval_key : Codec → SearchKey → ℕ → ℕ
unfolding key_parts
retrieval_key codec s version = codec.digest (retrieval_parts 1 (key_parts codec s version))

unfoldable pub serialize_hit : Codec → RetrievalHit → PayloadHit
serialize_hit codec h = record {
  chunk_id = codec.uuid_str h.chunk_id;
  document_id = codec.uuid_str h.document_id;
  filename = h.filename;
  media_type = h.media_type;
  position = h.position;
  text = h.text;
  token_count = h.token_count;
  token_start = h.token_start;
  token_end = h.token_end;
  char_start = h.char_start;
  char_end = h.char_end;
  source_metadata = h.source_metadata;
  score = h.score;
  vector_score = h.vector_score;
  keyword_score = h.keyword_score;
}

unfoldable pub serialize_result : Codec → RetrievalResult → Payload
unfolding mode_value serialize_hit
serialize_result codec r = record {
  query = r.query;
  mode = mode_value r.mode;
  hits = map (serialize_hit codec) r.hits;
}

unfoldable pub or_invalid_uuid : Option ℕ → Result String ℕ
or_invalid_uuid none = raise "badly formed hexadecimal UUID string"
or_invalid_uuid (some id) = ok id

unfoldable pub deserialize_hit : Codec → PayloadHit → Result String RetrievalHit
unfolding or_invalid_uuid
deserialize_hit codec p = do
  chunk_id ← or_invalid_uuid (codec.uuid_parse p.chunk_id)
  document_id ← or_invalid_uuid (codec.uuid_parse p.document_id)
  ok (record {
    chunk_id = chunk_id;
    document_id = document_id;
    filename = p.filename;
    media_type = p.media_type;
    position = p.position;
    text = p.text;
    token_count = p.token_count;
    token_start = p.token_start;
    token_end = p.token_end;
    char_start = p.char_start;
    char_end = p.char_end;
    source_metadata = p.source_metadata;
    score = p.score;
    vector_score = p.vector_score;
    keyword_score = p.keyword_score;
  })

unfoldable pub deserialize_hits : Codec → List PayloadHit → Result String (List RetrievalHit)
unfolding deserialize_hit
deserialize_hits codec [] = ok []
deserialize_hits codec (p ∷ ps) = do
  h ← deserialize_hit codec p
  hs ← deserialize_hits codec ps
  ok (h ∷ hs)

-- The other fields of the result have their defaults.
unfoldable pub deserialize_result : Codec → Payload → Result String RetrievalResult
unfolding mode_of deserialize_hits
deserialize_result codec p = do
  mode ← mode_of p.mode
  hits ← deserialize_hits codec p.hits
  ok (record {
    query = p.query;
    mode = mode;
    hits = hits;
    embedding_cache_status = "disabled";
    retrieval_cache_status = "disabled";
    corpus_version = 0;
  })

-- The result where there is one, its status, the version and the key.
pub record Cached : Type 0 where
  pub result : Option RetrievalResult
  pub status : String
  pub version : ℕ
  pub key : ℕ

module _ (c : RetrievalCache) where
  unfoldable pub hit_of : SearchKey → ℕ → ℕ → RetrievalResult → Cached
  unfolding lstrip rstrip
  hit_of s version key r = record {
    result = some (record {
      query = rstrip c.codec.chars (lstrip c.codec.chars s.query);
      mode = r.mode;
      hits = r.hits;
      embedding_cache_status = "skipped";
      retrieval_cache_status = "hit";
      corpus_version = version;
    });
    status = "hit";
    version = version;
    key = key;
  }

  unfoldable pub no_hit : String → ℕ → ℕ → Cached
  no_hit status version key = record {
    result = none;
    status = status;
    version = version;
    key = key;
  }

  unfoldable pub after_find_result :
      SearchKey → ℕ → ℕ → ℕ → Option ResultRow → CacheDb → Result String (Cached × CacheDb)
  unfolding is_expired record_metric delete_by deserialize_result hit_of no_hit
  after_find_result s version key now none db =
      ok (no_hit "miss" version key, record_metric c (cache_request "retrieval" "miss") db)
  after_find_result s version key now (some entry) db =
      let gone = record db { results = delete_by result_hash entry.key_hash db.results } in
      let hit = deserialize_result c.codec entry.payload >>= λ r.
      ok (hit_of s version key r, record_metric c (cache_request "retrieval" "hit") db) in
      if is_expired entry.expires_at now
      then ok
          (no_hit "expired" version key, record_metric c (cache_request "retrieval" "expired") gone)
      else hit

  unfoldable pub get_retrieval : SearchKey → ℕ → CacheDb → Result String (Cached × CacheDb)
  unfolding corpus_version retrieval_key after_find_result no_hit find
  get_retrieval s now db =
      let (version, db') = corpus_version c db in
      let key = retrieval_key c.codec s version in
      if not c.retrieval_enabled
      then ok (no_hit "disabled" version key, db')
      else after_find_result s version key now (find result_hash key db'.results) db'

  unfoldable pub put_retrieval : ℕ → RetrievalResult → ℕ → ℕ → CacheDb → CacheDb
  unfolding serialize_result upsert
  put_retrieval key r version now db =
      let payload = serialize_result c.codec r in
      let row : ResultRow = record {
        key_hash = key;
        corpus_version = version;
        payload = payload;
        expires_at = now + c.retrieval_ttl;
      } in
      if not c.retrieval_enabled then db else record db {
        results =
            upsert result_hash row
              (λ (e : ResultRow). record e {
                corpus_version = version;
                payload = payload;
                expires_at = now + c.retrieval_ttl;
              })
              db.results;
      }
