-- ===== src/Retrieval/Cache/Stored.antt =====
-- retrieval/cache.py: the calls of the result cache while it is on.
use note_rag.Base.{
  ℕ, ◌+◌, ◌≡◌, inl, inr, refl, ap, ◌∙◌, true, false, not, none, some, leb, if◌then◌else◌, arith,
}
use note_rag.Base.Result.{ok}
use note_rag.Base.Table.{find}
use note_rag.Retrieval.Models.{RetrievalResult}
use note_rag.Retrieval.Cache.{
  ResultRow, RetrievalKey, retrieval_parts, CacheDb, RetrievalCache, Codec, Metric, version_set,
  cache_request, record_metric, is_expired, upsert, result_hash, stored_version, corpus_version,
}
use note_rag.Retrieval.Cache.Results.{
  SearchKey, retrieval_key, hit_of, no_hit, after_find_result, get_retrieval, put_retrieval,
  serialize_result, deserialize_result,
}
use note_rag.Retrieval.Cache.Upserts.{find-upsert_self}

-- The digests of keys with different versions differ.
abbrev pub TellsVersions : Codec → Type 0
TellsVersions codec =
    (p q : RetrievalKey)
    → codec.digest (retrieval_parts 1 p) ≡ codec.digest (retrieval_parts 1 q)
    → p.corpus_version ≡ q.corpus_version

module _ (c : RetrievalCache) where
  record_metric-results : (m : Metric) (db : CacheDb) → (record_metric c m db).results ≡ db.results
  unfolding record_metric
  record_metric-results m db = ground arith

  pub record_metric-version :
      (m : Metric) (db : CacheDb) → (record_metric c m db).version ≡ db.version
  unfolding record_metric
  record_metric-version m db = ground arith

  -- What a read does with the cache on.
  pub get_retrieval_on :
      (s : SearchKey) (now : ℕ) (db : CacheDb)
      → c.retrieval_enabled ≡ true
      → get_retrieval c s now db
        ≡ after_find_result c s
            (stored_version c db)
            (retrieval_key c.codec s (stored_version c db))
            now
            (find result_hash (retrieval_key c.codec s (stored_version c db)) db.results)
            (record_metric c (version_set (stored_version c db)) db)
  unfolding get_retrieval corpus_version
  get_retrieval_on s now db on =
      let v = stored_version c db in
      let k = retrieval_key c.codec s v in
      let db' = record_metric c (version_set v) db in
      ap
        (λ b.
          let p : ℕ × CacheDb = if not b then (0, db) else (v, db') in
          if not b
          then ok (no_hit c "disabled" p.0 (retrieval_key c.codec s p.0), p.1)
          else after_find_result c s p.0 (retrieval_key c.codec s p.0) now
              (find result_hash (retrieval_key c.codec s p.0) p.1.results) p.1)
        on
      ∙ ap (λ rows. after_find_result c s v k now (find result_hash k rows) db')
          (record_metric-results (version_set v) db)

  pub after_find_result-miss :
      (s : SearchKey) (v k now : ℕ) (db : CacheDb)
      → (db' : CacheDb) × (after_find_result c s v k now none db ≡ ok (no_hit c "miss" v k, db'))
  unfolding after_find_result
  after_find_result-miss s v k now db =
      (record_metric c (cache_request "retrieval" "miss") db, refl)

  pub after_find_result-hit :
      (s : SearchKey) (v k now : ℕ) (e : ResultRow) (r : RetrievalResult) (db : CacheDb)
      → deserialize_result c.codec e.payload ≡ ok r
      → leb e.expires_at now ≡ false
      → (db' : CacheDb) × (after_find_result c s v k now (some e) db ≡ ok (hit_of c s v k r, db'))
  unfolding after_find_result is_expired
  after_find_result-hit s v k now e r db reads live =
      (record_metric c (cache_request "retrieval" "hit") db, rw (live, reads) refl)

  pub put_retrieval_on :
      (k : ℕ) (r : RetrievalResult) (v now : ℕ) (db : CacheDb)
      → c.retrieval_enabled ≡ true
      → (put_retrieval c k r v now db).results
        ≡ upsert result_hash
            (record {
              key_hash = k;
              corpus_version = v;
              payload = serialize_result c.codec r;
              expires_at = now + c.retrieval_ttl;
            })
            (λ (e : ResultRow). record e {
              corpus_version = v;
              payload = serialize_result c.codec r;
              expires_at = now + c.retrieval_ttl;
            })
            db.results
  unfolding put_retrieval
  put_retrieval_on k r v now db on = simp on refl

  pub put_retrieval-version :
      (k : ℕ) (r : RetrievalResult) (v now : ℕ) (db : CacheDb)
      → (put_retrieval c k r v now db).version ≡ db.version
  unfolding put_retrieval
  put_retrieval-version k r v now db = ground arith

  pub stored_version_eq :
      (db db' : CacheDb) → db.version ≡ db'.version → stored_version c db ≡ stored_version c db'
  unfolding stored_version
  stored_version_eq db db' e = cc e

  pub stored_result :
      (k : ℕ) (r : RetrievalResult) (v now : ℕ) (db : CacheDb)
      → c.retrieval_enabled ≡ true
      → (e : ResultRow) × (find result_hash k (put_retrieval c k r v now db).results ≡ some e)
        × (e.payload ≡ serialize_result c.codec r)
        × (e.expires_at ≡ now + c.retrieval_ttl)
  stored_result k r v now db on =
      let payload = serialize_result c.codec r in
      let row : ResultRow = record {
        key_hash = k;
        corpus_version = v;
        payload = payload;
        expires_at = now + c.retrieval_ttl;
      } in
      let change = λ (e : ResultRow). record e {
        corpus_version = v;
        payload = payload;
        expires_at = now + c.retrieval_ttl;
      } in
      let (e, there, which) = find-upsert_self result_hash row change db.results (λ _. refl) in
      let found = ap (find result_hash k) (put_retrieval_on k r v now db on) ∙ there in
      elim which [
        | inl new ↦ (
          e,
          found,
          ap (λ (e : ResultRow). e.payload) new,
          ap (λ (e : ResultRow). e.expires_at) new,
        )
        | inr (o, old) ↦ (
          e,
          found,
          ap (λ (e : ResultRow). e.payload) old,
          ap (λ (e : ResultRow). e.expires_at) old,
        )
      ]
