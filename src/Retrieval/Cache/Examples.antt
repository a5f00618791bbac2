-- ===== src/Retrieval/Cache/Examples.antt =====
-- A cache with two searches that differ in white space and in the order of their filters.
use mathlib.Core.List.{Permᴰ}
use note_rag.Base.{
  ℕ, ◌+◌, ◌≡◌, refl, sym, true, Option, none, some, [], ◌∷◌, leb, ◌==◌, if◌then◌else◌,
}
use note_rag.Base.Result.{ok}
use note_rag.Chunking.Tokens.{Text}
use note_rag.Persistence.Models.{is_finite}
use note_rag.Embeddings.Indexing.{all_finite}
use note_rag.Retrieval.Models.{SearchMode, SearchFilters, RetrievalHit, RetrievalResult}
use note_rag.Context.Dedup.{lstrip, rstrip}
use note_rag.Retrieval.Cache.{
  embedding_parts, retrieval_parts, KeyParts, Codec, CacheDb, RetrievalCache, normalize_query,
  get_embedding, put_embedding, invalidate_retrieval, stored_version,
}
use note_rag.Retrieval.Cache.Results.{
  SearchKey, retrieval_key, serialize_result, deserialize_result, get_retrieval, put_retrieval,
}
use note_rag.Retrieval.Cache.RoundTrip.{deserialize-serialize}
use note_rag.Retrieval.Cache.Words.{words}
use note_rag.Retrieval.Cache.Keys.{retrieval_key-eq_of_perm}
use note_rag.Retrieval.Cache.Reads.{get_embedding-put_embedding}
use note_rag.Retrieval.Cache.Served.{
  get_retrieval-put_retrieval, write_all, get_retrieval-invalidate,
}

abbrev parse_one : Text → Option ℕ
parse_one [] = none
parse_one (c ∷ cs) = some c

-- Only versions are told apart by this digest.
abbrev digest_of : KeyParts → ℕ
digest_of (embedding_parts _ _ dimension _) = dimension
digest_of (retrieval_parts _ k) = k.corpus_version

abbrev pub codec : Codec
codec = record {
  digest = digest_of;
  uuid_str = λ id. id ∷ [];
  uuid_parse = parse_one;
  chars = record { is_word = λ c. leb 97 c; is_space = λ c. c == 32 };
}

abbrev pub cache : RetrievalCache
cache = record {
  embedding_enabled = true;
  retrieval_enabled = true;
  embedding_ttl = 100;
  retrieval_ttl = 10;
  has_metrics = true;
  codec = codec;
}

abbrev pub no_rows : CacheDb
no_rows = record { embeddings = []; results = []; version = none; metrics = [] }

abbrev hit : RetrievalHit
hit = record {
  chunk_id = 5;
  document_id = 6;
  filename = 97 ∷ [];
  media_type = 98 ∷ [];
  position = 0;
  text = 99 ∷ [];
  token_count = 1;
  token_start = 0;
  token_end = 1;
  char_start = 0;
  char_end = 1;
  source_metadata = [];
  score = 7;
  vector_score = some 7;
  keyword_score = none;
}

abbrev result : RetrievalResult
result = record {
  query = 97 ∷ [];
  mode = SearchMode.hybrid;
  hits = hit ∷ [];
  embedding_cache_status = "miss";
  retrieval_cache_status = "miss";
  corpus_version = 1;
}

abbrev filters : SearchFilters
filters = record {
  document_ids = 1 ∷ 2 ∷ [];
  filenames = [];
  media_types = [];
  source_metadata = [];
}

abbrev reversed : SearchFilters
reversed = record {
  document_ids = 2 ∷ 1 ∷ [];
  filenames = [];
  media_types = [];
  source_metadata = [];
}

-- `"a  b"`, and `" a b"`
abbrev wide : Text
wide = 97 ∷ 32 ∷ 32 ∷ 98 ∷ []

abbrev narrow : Text
narrow = 32 ∷ 97 ∷ 32 ∷ 98 ∷ 32 ∷ []

abbrev looked_for : SearchKey
looked_for = record {
  query = wide;
  mode = SearchMode.hybrid;
  top_k = 3;
  vector_weight = 7;
  filters = filters;
  model_name = "m";
  candidate_multiplier = 4;
  rrf_k = 60;
}

same_normalized : normalize_query codec.chars wide ≡ normalize_query codec.chars narrow
unfolding normalize_query
same_normalized = refl

words_same : words codec.chars wide ≡ words codec.chars narrow
unfolding words
words_same = refl

retrieval_key-eq_of_perm_example :
    retrieval_key codec looked_for 1
    ≡ retrieval_key codec (record looked_for { query = narrow; filters = reversed }) 1
retrieval_key-eq_of_perm_example =
    retrieval_key-eq_of_perm codec looked_for narrow reversed 1 words_same (Permᴰ.swap refl refl)
      Permᴰ.nil Permᴰ.nil refl

deserialize-serialize_example :
    deserialize_result codec (serialize_result codec result)
    ≡ ok (record result {
      embedding_cache_status = "disabled";
      retrieval_cache_status = "disabled";
      corpus_version = 0;
    })
deserialize-serialize_example = deserialize-serialize codec (λ id. refl) result

vector_finite : all_finite (3 ∷ 4 ∷ []) ≡ true
unfolding all_finite is_finite
vector_finite = refl

get_embedding-put_embedding_example :
    (get_embedding cache "m" 2 narrow 150
      (put_embedding cache "m" 2 wide (3 ∷ 4 ∷ []) 50 no_rows)).0
    ≡ (if leb (50 + 100) 150 then (none, "expired") else (some (3 ∷ 4 ∷ []), "hit"))
get_embedding-put_embedding_example =
    get_embedding-put_embedding cache "m" 2 wide narrow (3 ∷ 4 ∷ []) 50 150 no_rows refl
      (sym same_normalized) refl vector_finite

get_retrieval-put_retrieval_example :
    (db' : CacheDb) × (get_retrieval cache looked_for 55 (
        put_retrieval cache
          (retrieval_key codec looked_for (stored_version cache no_rows))
          result
          (stored_version cache no_rows)
          50
          no_rows)
      ≡ ok (
        record {
          result = some (record {
            query = rstrip codec.chars (lstrip codec.chars wide);
            mode = SearchMode.hybrid;
            hits = hit ∷ [];
            embedding_cache_status = "skipped";
            retrieval_cache_status = "hit";
            corpus_version = stored_version cache no_rows;
          });
          status = "hit";
          version = stored_version cache no_rows;
          key = retrieval_key codec looked_for (stored_version cache no_rows);
        },
        db',
      ))
get_retrieval-put_retrieval_example =
    get_retrieval-put_retrieval cache looked_for looked_for result 50 55 no_rows (λ id. refl) refl
      refl refl

-- The search that read version 1 writes its result after the invalidation.
get_retrieval-invalidate_example :
    let db1 =
      write_all cache
        (stored_version cache no_rows)
        ((looked_for, result, 50) ∷ [])
        (invalidate_retrieval cache "indexed" no_rows).1 in
    let version = stored_version cache no_rows + 1 in
    (db' : CacheDb) × (get_retrieval cache looked_for 51 db1
      ≡ ok (
        record {
          result = none;
          status = "miss";
          version = version;
          key = retrieval_key codec looked_for version;
        },
        db',
      ))
get_retrieval-invalidate_example =
    get_retrieval-invalidate cache looked_for "indexed" no_rows ((looked_for, result, 50) ∷ []) 51
      (λ p q e. e) refl
