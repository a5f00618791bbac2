-- ===== src/Retrieval/Examples.antt =====
-- Two lists of candidates that share one, and a search that is repeated over an empty database.
use mathlib.Core.List.{Permᴰ}
use note_rag.Base.{
  ℕ, ◌+◌, ◌*◌, ◌-◌, ◌/◌, ◌≡◌, refl, none, List, [], ◌∷◌, map, String, leb, ltb, ◌==◌, arith,
}
use note_rag.Base.Float.{Float, FloatOps}
use note_rag.Base.Int.{pos}
use note_rag.Base.Result.{Result, ok, raise}
use note_rag.Base.Table.{find, Unique}
use note_rag.Persistence.Models.{Exception, is_finite}
use note_rag.Retrieval.Models.{SearchMode, RetrievalHit, RetrievalResult}
use note_rag.Retrieval.Cache.{CacheDb}
use note_rag.Retrieval.Cache.Results.{Cached, get_retrieval}
use note_rag.Retrieval.Cache.Examples.{codec, cache, no_rows}
use note_rag.Retrieval.Fusion.{RankedChunk, FusionEntry, entry_id, fuse}
use note_rag.Retrieval.Fusion.Fused.{candidate_id, expected, fused_hit, fuse_lem}
use note_rag.Retrieval.Service.{RetrievalService, Query, Times, search_key, search}
use note_rag.Retrieval.Service.Repeated.{cached_by, over_other, search-again}

-- Whole numbers in thousandths stand for the scores.
abbrev ops : FloatOps
ops = record {
  zero_point = 0;
  one_point = 1000;
  less = ltb;
  less_eq = leb;
  same = ◌==◌;
  plus = ◌+◌;
  minus = ◌-◌;
  times = λ a b. a * b / 1000;
  over = λ a b. a * 1000 / b;
  negate = λ a. 10000 - a;
  of_int = λ n. n * 1000;
  finite = is_finite;
  is_close = ◌==◌;
}

abbrev candidate : ℕ → Float → RankedChunk
candidate id score = record {
  chunk_id = id;
  chunk = record {
    document_id = 1;
    position = id;
    text = 97 ∷ [];
    token_count = 1;
    token_start = 0;
    token_end = 1;
    char_start = 0;
    char_end = 1;
    source_metadata = [];
    embedding = none;
    embedding_model = none;
    embedded_at = none;
  };
  filename = 98 ∷ [];
  media_type = 99 ∷ [];
  score = score;
}

abbrev by_vector : List RankedChunk
by_vector = candidate 1 900 ∷ candidate 2 800 ∷ []

abbrev by_keyword : List RankedChunk
by_keyword = candidate 3 700 ∷ candidate 2 600 ∷ []

abbrev ids_of : List RetrievalHit → List ℕ
ids_of hs = map (λ (h : RetrievalHit). h.chunk_id) hs

-- The chunk that both signals found comes first.
shared_first : ids_of (fuse ops 60 codec.uuid_str by_vector by_keyword 500) ≡ 2 ∷ 1 ∷ 3 ∷ []
unfolding fuse
shared_first = refl

apart_vector : Unique candidate_id by_vector
apart_vector = (((λ e. absurd (omega (arith, e))), tt), (tt, tt))

apart_keyword : Unique candidate_id by_keyword
apart_keyword = (((λ e. absurd (omega (arith, e))), tt), (tt, tt))

fuse_lem_example :
    (es : List FusionEntry) × Permᴰ
      (fuse ops 60 codec.uuid_str by_vector by_keyword 500)
      (map (fused_hit ops 60) es)
    × Unique entry_id es
    × ((id : ℕ) → find entry_id id es ≡ expected ops 60 id by_vector by_keyword 500)
fuse_lem_example =
    fuse_lem ops 60 codec.uuid_str by_vector by_keyword 500 apart_vector apart_keyword

abbrev service : RetrievalService
service = record {
  candidate_multiplier = 4;
  rrf_k = 60;
  cache = none;
  codec = codec;
  ops = ops;
  model_name = "m";
  dimension = 1;
  embed_query = λ _. ok (5 ∷ []);
  vector_search = λ _ _ _. by_vector;
  keyword_search = λ _ _ _. by_keyword;
}

abbrev asked : Query
asked = record {
  query = 97 ∷ 32 ∷ 98 ∷ [];
  mode = SearchMode.hybrid;
  top_k = pos 2;
  vector_weight = 500;
  filters = none;
}

abbrev first_times : Times
first_times = record { result_read = 1; vector_read = 2; vector_stored = 3; result_stored = 4 }

abbrev later_times : Times
later_times = record { result_read = 10; vector_read = 11; vector_stored = 12; result_stored = 13 }

abbrev no_result : Exception
no_result = record { message = ""; class_name = "Exception" }

abbrev value_of : Result Exception RetrievalResult → RetrievalResult
value_of (ok r) = r
value_of (raise e) = record {
  query = [];
  mode = SearchMode.hybrid;
  hits = [];
  embedding_cache_status = "";
  retrieval_cache_status = "";
  corpus_version = 0;
}

abbrev cached_of : Result String (Cached × CacheDb) → Cached × CacheDb
cached_of (ok p) = p
cached_of (raise e) = (record { result = none; status = ""; version = 0; key = 0 }, no_rows)

abbrev run : Result Exception RetrievalResult × CacheDb
run = search (cached_by cache service) first_times asked no_rows

abbrev read : Result String (Cached × CacheDb)
read = get_retrieval cache (search_key service first_times asked) 1 no_rows

read_ok : read ≡ ok (cached_of read)
unfolding get_retrieval search_key
read_ok = refl

read_missed : (cached_of read).0.result ≡ none
unfolding get_retrieval search_key
read_missed = refl

run_ok : run ≡ (ok (value_of run.0), run.1)
unfolding search is_finite
run_ok = refl

-- The second search finds the first one's hits, though the database is empty by then.
search-again_example :
    (r' : RetrievalResult) × (db2 : CacheDb) × (search
        (cached_by cache (over_other (λ _. raise no_result) (λ _ _ _. []) (λ _ _ _. []) service))
        later_times
        asked
        run.1
      ≡ (ok r', db2))
    × (r'.hits ≡ (value_of run.0).hits)
    × (r'.mode ≡ (value_of run.0).mode)
    × (r'.corpus_version ≡ (value_of run.0).corpus_version)
search-again_example =
    search-again cache service asked first_times later_times no_rows (λ _. raise no_result)
      (λ _ _ _. []) (λ _ _ _. []) (cached_of read).0 (cached_of read).1 (value_of run.0) run.1
      (λ id. refl) refl read_ok read_missed run_ok refl
