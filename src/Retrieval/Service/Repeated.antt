-- ===== src/Retrieval/Service/Repeated.antt =====
-- retrieval/service.py: a search that is repeated.
use note_rag.Base.{
  ℕ, ◌+◌, ◌≡◌, refl, sym, ap, ◌∙◌, subst, true, false, Option, none, some, List, String, leb,
}
use note_rag.Base.Result.{Result, ok, raise}
use note_rag.Base.Float.{Float}
use note_rag.Chunking.Tokens.{Text}
use note_rag.Persistence.Models.{Exception}
use note_rag.Context.Dedup.{lstrip, rstrip}
use note_rag.Retrieval.Models.{SearchFilters, RetrievalResult}
use note_rag.Retrieval.Cache.{CacheDb, RetrievalCache, stored_version, corpus_version}
use note_rag.Retrieval.Cache.Results.{
  SearchKey, Cached, retrieval_key, hit_of, get_retrieval, put_retrieval,
}
use note_rag.Retrieval.Cache.RoundTrip.{ReadsIds}
use note_rag.Retrieval.Cache.Stored.{stored_version_eq}
use note_rag.Retrieval.Cache.Served.{get_retrieval-put_retrieval}
use note_rag.Retrieval.Cache.Versions.{Keeps, get_retrieval-Keeps}
use note_rag.Retrieval.Fusion.{RankedChunk}
use note_rag.Retrieval.Service.{
  RetrievalService, Query, Times, Run, after_run, query_vector, find_hits, served_or_found,
  after_result_cache, lift_read, read_result_cache, search_key, check_query, search, needs_vector,
}
use note_rag.Retrieval.Service.Kept.{KeepsVersion, query_vector-KeepsVersion}

-- A run that gives a value is a value, and then what follows.
after_run-ok :
    {A B : Type 0} (m : Run A) (f : A → CacheDb → Run B) {b : B} {db : CacheDb}
    → after_run m f ≡ (ok b, db)
    → (a : A) × (db' : CacheDb) × (m ≡ (ok a, db')) × (f a db' ≡ (ok b, db))
after_run-ok (ok a, db') f e = (a, db', refl, e)
after_run-ok (raise x, db') f e = absurd (not_ok (ap (λ p. p.0) e))
  where
    not_ok : {A : Type 0} {x : Exception} {b : A} → raise x ≡ ok b → ⊥
    not_ok e = cc

pair_ok :
    {A : Type 0} {a b : A} {d d' : CacheDb}
    → ◌≡◌ {A = Run A} (ok a, d) (ok b, d')
    → (a ≡ b) × (d ≡ d')
pair_ok {A} {a} e = (ap (λ (m : Run A). value_or a m.0) e, ap (λ (m : Run A). m.1) e)
  where
    value_or : {A : Type 0} → A → Result Exception A → A
    value_or b (ok a) = a
    value_or b (raise x) = b

-- The service with this cache.
abbrev pub cached_by : RetrievalCache → RetrievalService → RetrievalService
cached_by c s = record s { cache = some c }

-- A service with the same settings, over another database and another model.
abbrev pub over_other :
    (Text → Result Exception (List Float))
    → (List Float → ℕ → SearchFilters → List RankedChunk)
    → (Text → ℕ → SearchFilters → List RankedChunk)
    → RetrievalService
    → RetrievalService
over_other embed vectors keywords s = record s {
  embed_query = embed;
  vector_search = vectors;
  keyword_search = keywords;
}

module _ (c : RetrievalCache) (s : RetrievalService) (q : Query) where
  read_on :
      (t : Times) (db : CacheDb) {x : Cached} {db0 : CacheDb}
      → get_retrieval c (search_key s t q) t.result_read db ≡ ok (x, db0)
      → search (cached_by c s) t q db
        ≡ after_run
            (check_query s t q, db)
            (λ _ _. after_result_cache (cached_by c s) t (search_key s t q) x db0)
  unfolding search read_result_cache
  read_on t db {x} {db0} e = go (check_query s t q)
    where
      go :
          (m : Result Exception (Unit {0}))
          → after_run {A = Unit {0}} {B = RetrievalResult}
              (m, db)
              (λ _ d.
                after_run
                  (read_result_cache (cached_by c s) t (search_key s t q) (some c) d)
                  (after_result_cache (cached_by c s) t (search_key s t q)))
            ≡ after_run {A = Unit {0}} {B = RetrievalResult}
                (m, db)
                (λ _ _. after_result_cache (cached_by c s) t (search_key s t q) x db0)
      go (ok u) =
          ap
            (λ r.
              after_run (lift_read (cached_by c s) t r (corpus_version c db).1)
                (after_result_cache (cached_by c s) t (search_key s t q)))
            e
      go (raise m) = refl

  found :
      (t : Times) (db : CacheDb) (k : SearchKey) (x : Cached) {r : RetrievalResult} {db1 : CacheDb}
      → x.result ≡ none
      → after_result_cache (cached_by c s) t k x db ≡ (ok r, db1)
      → (v : Option (List Float) × String) × (db' : CacheDb) × (db'.version ≡ db.version)
        × (find_hits (cached_by c s) t k x.status x.version x.key v db' ≡ (ok r, db1))
  unfolding after_result_cache served_or_found
  found t db k x {r} {db1} missing e =
      let m =
        query_vector (cached_by c s) t k.query (needs_vector s.ops k.mode k.vector_weight) db in
      let (v, db', vector, rest) =
        after_run-ok m (find_hits (cached_by c s) t k x.status x.version x.key)
          (subst (λ o. served_or_found (cached_by c s) t k x o db ≡ (ok r, db1)) missing e) in
      (
        v,
        db',
        subst (KeepsVersion db.version) vector (
            query_vector-KeepsVersion (cached_by c s) t k.query
              (needs_vector s.ops k.mode k.vector_weight) db),
        rest,
      )

  -- What `find_hits` returns is what it stores.
  stored :
      (t : Times) (k : SearchKey) (status : String) (version key : ℕ)
      (v : Option (List Float) × String) (db : CacheDb) {r : RetrievalResult} {db1 : CacheDb}
      → find_hits (cached_by c s) t k status version key v db ≡ (ok r, db1)
      → (db1 ≡ put_retrieval c key r version t.result_stored db) × (r.corpus_version ≡ version)
  unfolding find_hits
  stored t k status version key v db {r} {db1} e =
      let (same, state) = pair_ok e in
      (
        sym state ∙ ap (λ x. put_retrieval c key x version t.result_stored db) same,
        sym (ap (λ (x : RetrievalResult). x.corpus_version) same),
      )

-- If a search is not served by the cache of results, which is on, and returns a result, then the same
-- search, before that result's time is over, returns its hits, its mode and its version, whatever the
-- database and the model would give by then. (`uuid.UUID` reads what `str` wrote.)
pub search-again :
    (c : RetrievalCache) (s : RetrievalService) (q : Query) (t t' : Times) (db : CacheDb)
    (embed : Text → Result Exception (List Float))
    (vectors : List Float → ℕ → SearchFilters → List RankedChunk)
    (keywords : Text → ℕ → SearchFilters → List RankedChunk) (x : Cached) (db0 : CacheDb)
    (r : RetrievalResult) (db1 : CacheDb)
    → ReadsIds c.codec
    → c.retrieval_enabled ≡ true
    → get_retrieval c (search_key s t q) t.result_read db ≡ ok (x, db0)
    → x.result ≡ none
    → search (cached_by c s) t q db ≡ (ok r, db1)
    → leb (t.result_stored + c.retrieval_ttl) t'.result_read ≡ false
    → (r' : RetrievalResult) × (db2 : CacheDb) × (search
          (cached_by c (over_other embed vectors keywords s))
          t'
          q
          db1
        ≡ (ok r', db2))
      × (r'.hits ≡ r.hits)
      × (r'.mode ≡ r.mode)
      × (r'.corpus_version ≡ r.corpus_version)
unfolding check_query search_key hit_of after_result_cache served_or_found
search-again c s q t t' db embed vectors keywords x db0 r db1 reads on missed missing ran live =
    let k = search_key s t q in
    let s' = over_other embed vectors keywords s in
    let (u, _, checked, after) =
      after_run-ok (check_query s t q, db) _ (sym (read_on c s q t db missed) ∙ ran) in
    let (v, dbq, same, hits) = found c s q t db0 k x missing after in
    let (state, version) = stored c s q t k x.status x.version x.key v dbq hits in
    let (xv, xk, dv) : Keeps c (stored_version c db) (retrieval_key c.codec k (stored_version c db))
        db.version (ok (x, db0)) =
      subst
        (Keeps c (stored_version c db) (retrieval_key c.codec k (stored_version c db)) db.version)
        missed (get_retrieval-Keeps c k t.result_read db on) in
    let current : stored_version c dbq ≡ stored_version c db =
      stored_version_eq c dbq db (same ∙ dv) in
    let key : x.key ≡ retrieval_key c.codec k (stored_version c dbq) =
      xk ∙ ap (retrieval_key c.codec k) (sym current) in
    let number : x.version ≡ stored_version c dbq = xv ∙ sym current in
    let put : db1
        ≡ put_retrieval c (retrieval_key c.codec k (stored_version c dbq)) r (stored_version c dbq)
            t.result_stored dbq =
      state
      ∙ ap (λ y. put_retrieval c y r x.version t.result_stored dbq) key
      ∙ ap
          (λ y.
            put_retrieval c (retrieval_key c.codec k (stored_version c dbq)) r y t.result_stored
              dbq)
          number in
    let (db2, hit) =
      get_retrieval-put_retrieval c k k r t.result_stored t'.result_read dbq reads on refl live in
    let again = ap (get_retrieval c k t'.result_read) put ∙ hit in
    let served : RetrievalResult = record r {
      query = rstrip c.codec.chars (lstrip c.codec.chars k.query);
      embedding_cache_status = "skipped";
      retrieval_cache_status = "hit";
      corpus_version = stored_version c dbq;
    } in
    let found_again =
      hit_of c k (stored_version c dbq) (retrieval_key c.codec k (stored_version c dbq)) r in
    (
      served,
      db2,
      read_on c s' q t' db1 again
          ∙ ap
              (λ m.
                after_run {A = Unit {0}} {B = RetrievalResult} (m, db1)
                  (λ _ _.
                    after_result_cache (cached_by c s') t' (search_key s' t' q) found_again db2))
              (ap (λ m. m.0) checked),
      refl,
      refl,
      sym number ∙ sym version,
    )
