-- ===== src/Retrieval/Cache/Served.antt =====
-- retrieval/cache.py: which results are served.
use note_rag.Base.{
  ℕ, ◌+◌, ◌≡◌, ◌≢◌, refl, sym, ap, ◌∙◌, subst, true, false, none, some, List, [], ◌∷◌, String, leb,
  All, All-map, arith,
}
use note_rag.Base.Result.{ok}
use note_rag.Base.Table.{find}
use note_rag.Context.Dedup.{lstrip, rstrip}
use note_rag.Retrieval.Models.{RetrievalResult}
use note_rag.Retrieval.Cache.{
  ResultRow, CacheDb, RetrievalCache, version_set, record_metric, result_hash, stored_version, bump,
  invalidate_retrieval,
}
use note_rag.Retrieval.Cache.Results.{
  SearchKey, retrieval_key, key_parts, hit_of, no_hit, after_find_result, get_retrieval,
  put_retrieval, serialize_result, deserialize_result,
}
use note_rag.Retrieval.Cache.RoundTrip.{ReadsIds, deserialize-serialize}
use note_rag.Retrieval.Cache.Upserts.{find-absent, All-upsert}
use note_rag.Retrieval.Cache.Stored.{
  TellsVersions, get_retrieval_on, after_find_result-miss, after_find_result-hit, put_retrieval_on,
  put_retrieval-version, stored_version_eq, stored_result,
}

module _ (c : RetrievalCache) where
  -- If the cache of results is on and `uuid.UUID` reads what `str` wrote, then a result that is stored
  -- under the current version is served, before its time is over, to each search with the same key:
  -- with the mode and the hits of the result and the query of the search.
  pub get_retrieval-put_retrieval :
      (s s' : SearchKey) (r : RetrievalResult) (now later : ℕ) (db : CacheDb)
      → ReadsIds c.codec
      → c.retrieval_enabled ≡ true
      → retrieval_key c.codec s' (stored_version c db)
        ≡ retrieval_key c.codec s (stored_version c db)
      → leb (now + c.retrieval_ttl) later ≡ false
      → (db' : CacheDb) × (get_retrieval c s' later (
            put_retrieval c
              (retrieval_key c.codec s (stored_version c db))
              r
              (stored_version c db)
              now
              db)
          ≡ ok (
            record {
              result = some (record {
                query = rstrip c.codec.chars (lstrip c.codec.chars s'.query);
                mode = r.mode;
                hits = r.hits;
                embedding_cache_status = "skipped";
                retrieval_cache_status = "hit";
                corpus_version = stored_version c db;
              });
              status = "hit";
              version = stored_version c db;
              key = retrieval_key c.codec s (stored_version c db);
            },
            db',
          ))
  unfolding hit_of
  get_retrieval-put_retrieval s s' r now later db reads on same live =
      let v = stored_version c db in
      let k = retrieval_key c.codec s v in
      let db1 = put_retrieval c k r v now db in
      let current = stored_version_eq c db1 db (put_retrieval-version c k r v now db) in
      let (e, there, payload, time) = stored_result c k r v now db on in
      let w = record_metric c (version_set v) db1 in
      let (db', hit) =
        after_find_result-hit c s' v k later e
          (record r {
            embedding_cache_status = "disabled";
            retrieval_cache_status = "disabled";
            corpus_version = 0;
          })
          w (ap (deserialize_result c.codec) payload ∙ deserialize-serialize c.codec reads r)
          (ap (λ t. leb t later) time ∙ live) in
      (
        db',
        get_retrieval_on c s' later db1 on
            ∙ ap
                (λ x.
                  after_find_result c s' x (retrieval_key c.codec s' x) later
                    (find result_hash (retrieval_key c.codec s' x) db1.results)
                    (record_metric c (version_set x) db1))
                current
            ∙ ap (λ x. after_find_result c s' v x later (find result_hash x db1.results) w) same
            ∙ ap (λ o. after_find_result c s' v k later o w) there
            ∙ hit,
      )

  -- Results written, each under the key for version `v`.
  abbrev pub write_all : ℕ → List (SearchKey × RetrievalResult × ℕ) → CacheDb → CacheDb
  write_all v [] db = db
  write_all v ((s, r, now) ∷ ws) db =
      write_all v ws (put_retrieval c (retrieval_key c.codec s v) r v now db)

  -- The rows are all of version `v`.
  abbrev AreOf : ℕ → List ResultRow → Type 0
  AreOf v rows =
      All (λ (e : ResultRow). (s : SearchKey) × (e.key_hash ≡ retrieval_key c.codec s v)) rows

  write_all-AreOf :
      (v : ℕ) (ws : List (SearchKey × RetrievalResult × ℕ)) (db : CacheDb)
      → c.retrieval_enabled ≡ true
      → AreOf v db.results
      → AreOf v (write_all v ws db).results × ((write_all v ws db).version ≡ db.version)
  write_all-AreOf v [] db on all = (all, refl)
  write_all-AreOf v ((s, r, now) ∷ ws) db on all =
      let k = retrieval_key c.codec s v in
      let db1 = put_retrieval c k r v now db in
      let stored =
        All-upsert result_hash
          (λ (e : ResultRow). (s : SearchKey) × (e.key_hash ≡ retrieval_key c.codec s v))
          (record {
            key_hash = k;
            corpus_version = v;
            payload = serialize_result c.codec r;
            expires_at = now + c.retrieval_ttl;
          })
          (λ (e : ResultRow). record e {
            corpus_version = v;
            payload = serialize_result c.codec r;
            expires_at = now + c.retrieval_ttl;
          })
          db.results (s, refl) (λ _ p. p) all in
      let (later, same) =
        write_all-AreOf v ws db1 on
          (subst (AreOf v) (sym (put_retrieval_on c k r v now db on)) stored) in
      (later, same ∙ put_retrieval-version c k r v now db)

  retrieval_key-ne :
      (s s' : SearchKey) (v v' : ℕ)
      → TellsVersions c.codec
      → v ≢ v'
      → retrieval_key c.codec s v ≢ retrieval_key c.codec s' v'
  unfolding retrieval_key key_parts
  retrieval_key-ne s s' v v' free ne e =
      ne (free (key_parts c.codec s v) (key_parts c.codec s' v') e)

  invalidate_on :
      (reason : String) (db : CacheDb)
      → c.retrieval_enabled ≡ true
      → ((invalidate_retrieval c reason db).1.results ≡ [])
        × (stored_version c (invalidate_retrieval c reason db).1 ≡ stored_version c db + 1)
  unfolding invalidate_retrieval bump stored_version record_metric
  invalidate_on reason db on = ground arith

  -- If the digests of keys with different versions differ and the cache of results is on, then after an invalidation no search is
  -- served, whatever is written afterwards by searches that read the version before it.
  pub get_retrieval-invalidate :
      (s : SearchKey) (reason : String) (db : CacheDb)
      (late : List (SearchKey × RetrievalResult × ℕ)) (now : ℕ)
      → TellsVersions c.codec
      → c.retrieval_enabled ≡ true
      → let db1 = write_all (stored_version c db) late (invalidate_retrieval c reason db).1 in
        let version = stored_version c db + 1 in
        (db' : CacheDb) × (get_retrieval c s now db1
          ≡ ok (
            record {
              result = none;
              status = "miss";
              version = version;
              key = retrieval_key c.codec s version;
            },
            db',
          ))
  unfolding no_hit
  get_retrieval-invalidate s reason db late now free on =
      let v = stored_version c db in
      let db0 = (invalidate_retrieval c reason db).1 in
      let (empty, next) = invalidate_on reason db on in
      let db1 = write_all v late db0 in
      let (old, same) = write_all-AreOf v late db0 on (subst (AreOf v) (sym empty) tt) in
      let current : stored_version c db1 ≡ v + 1 = stored_version_eq c db1 db0 same ∙ next in
      let k = retrieval_key c.codec s (v + 1) in
      let absent = find-absent result_hash k db1.results (
        All-map db1.results
          (λ e (t, p) q.
            retrieval_key-ne t s v (v + 1) free (λ z. absurd (omega (arith, z))) (sym p ∙ q))
          old) in
      let (db', miss) =
        after_find_result-miss c s (v + 1) k now (record_metric c (version_set (v + 1)) db1) in
      (
        db',
        get_retrieval_on c s now db1 on
            ∙ ap
                (λ x.
                  after_find_result c s x (retrieval_key c.codec s x) now
                    (find result_hash (retrieval_key c.codec s x) db1.results)
                    (record_metric c (version_set x) db1))
                current
            ∙ ap
                (λ o.
                  after_find_result c s (v + 1) k now o (record_metric c (version_set (v + 1)) db1))
                absent
            ∙ miss,
      )
