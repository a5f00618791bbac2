-- ===== src/Retrieval/Cache/Versions.antt =====
-- retrieval/cache.py: which operations keep the corpus version, and the version that a read gives.
use note_rag.Base.{
  ℕ, ◌≡◌, refl, sym, ◌∙◌, subst, true, Option, none, some, List, String, Bool-cases, inl, inr,
  arith,
}
use note_rag.Base.Result.{Result, ok, raise, ◌>>=◌}
use note_rag.Base.Table.{find}
use note_rag.Chunking.Tokens.{Text}
use note_rag.Persistence.Models.{Float}
use note_rag.Retrieval.Models.{RetrievalResult}
use note_rag.Retrieval.Cache.{
  EmbeddingRow, ResultRow, CacheDb, RetrievalCache, version_set, cache_request, record_metric,
  is_expired, read_embedding, after_find_embedding, get_embedding, put_embedding, stored_version,
  record_provider_call, result_hash,
}
use note_rag.Retrieval.Cache.Results.{
  SearchKey, Cached, retrieval_key, hit_of, no_hit, after_find_result, get_retrieval,
  deserialize_result,
}
use note_rag.Retrieval.Cache.Stored.{get_retrieval_on, record_metric-version}

module _ (c : RetrievalCache) where
  read_embedding-version :
      (dimension now : ℕ) (e : EmbeddingRow) (db : CacheDb)
      → (read_embedding c dimension now e db).1.version ≡ db.version
  unfolding read_embedding record_metric
  read_embedding-version dimension now e db = ground arith

  after_find_embedding-version :
      (dimension now : ℕ) (o : Option EmbeddingRow) (db : CacheDb)
      → (after_find_embedding c dimension now o db).1.version ≡ db.version
  unfolding after_find_embedding
  after_find_embedding-version dimension now none db = record_metric-version c _ db
  after_find_embedding-version dimension now (some e) db = read_embedding-version dimension now e db

  pub get_embedding-version :
      (model : String) (dimension : ℕ) (query : Text) (now : ℕ) (db : CacheDb)
      → (get_embedding c model dimension query now db).1.version ≡ db.version
  unfolding get_embedding
  get_embedding-version model dimension query now db =
      ground (arith, after_find_embedding-version dimension now)

  pub put_embedding-version :
      (model : String) (dimension : ℕ) (query : Text) (v : List Float) (now : ℕ) (db : CacheDb)
      → (put_embedding c model dimension query v now db).version ≡ db.version
  unfolding put_embedding
  put_embedding-version model dimension query v now db = ground arith

  pub record_provider_call-version :
      (result : String) (db : CacheDb) → (record_provider_call c result db).version ≡ db.version
  unfolding record_provider_call
  record_provider_call-version result db = record_metric-version c _ db

  -- A read that returns gives this version and key, and leaves the tables at that version.
  abbrev pub Keeps : ℕ → ℕ → Option ℕ → Result String (Cached × CacheDb) → Type 0
  Keeps v k version (raise e) = Unit
  Keeps v k version (ok (x, db)) = (x.version ≡ v) × (x.key ≡ k) × (db.version ≡ version)

  hit-Keeps :
      (s : SearchKey) (v k : ℕ) (r : Result String RetrievalResult) (db : CacheDb)
      {version : Option ℕ}
      → db.version ≡ version
      → Keeps v k version
          (r >>= λ x. ok (hit_of c s v k x, record_metric c (cache_request "retrieval" "hit") db))
  unfolding hit_of
  hit-Keeps s v k (raise e) db same = tt
  hit-Keeps s v k (ok r) db same = (refl, refl, record_metric-version c _ db ∙ same)

  after_find_result-Keeps :
      (s : SearchKey) (v k now : ℕ) (o : Option ResultRow) (db : CacheDb)
      → Keeps v k db.version (after_find_result c s v k now o db)
  unfolding after_find_result no_hit
  after_find_result-Keeps s v k now none db = (refl, refl, record_metric-version c _ db)
  after_find_result-Keeps s v k now (some e) db = elim (Bool-cases (is_expired e.expires_at now)) [
    | inl over ↦ rw over (refl, refl, record_metric-version c _ _)
    | inr live ↦ rw live (hit-Keeps s v k (deserialize_result c.codec e.payload) db refl)
  ]

  pub get_retrieval-Keeps :
      (s : SearchKey) (now : ℕ) (db : CacheDb)
      → c.retrieval_enabled ≡ true
      → Keeps
          (stored_version c db)
          (retrieval_key c.codec s (stored_version c db))
          db.version
          (get_retrieval c s now db)
  get_retrieval-Keeps s now db on =
      let v = stored_version c db in
      let k = retrieval_key c.codec s v in
      let w = record_metric c (version_set v) db in
      subst (Keeps v k db.version) (sym (get_retrieval_on c s now db on)) (
        subst (λ x. Keeps v k x (after_find_result c s v k now (find result_hash k db.results) w))
          (record_metric-version c (version_set v) db)
          (after_find_result-Keeps s v k now (find result_hash k db.results) w))
