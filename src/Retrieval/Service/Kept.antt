-- ===== src/Retrieval/Service/Kept.antt =====
-- retrieval/service.py: the embedding of the query leaves the corpus version as it is.
use note_rag.Base.{
  ℕ, ◌≡◌, inl, inr, refl, ◌∙◌, subst, Bool, true, false, Option, none, some, List, String, length,
  ◌==◌, Bool-cases,
}
use note_rag.Base.Result.{Result, ok, raise}
use note_rag.Base.Float.{Float}
use note_rag.Chunking.Tokens.{Text}
use note_rag.Persistence.Models.{Exception}
use note_rag.Embeddings.Indexing.{all_finite}
use note_rag.Retrieval.Cache.{CacheDb, RetrievalCache, put_embedding, record_provider_call}
use note_rag.Retrieval.Cache.Versions.{
  get_embedding-version, put_embedding-version, record_provider_call-version,
}
use note_rag.Retrieval.Service.{
  RetrievalService, Times, Run, after_run, if_cache, after_provider, after_embedding_cache,
  read_embedding_cache, embed_query, query_vector,
}

-- A run that leaves the corpus version as it is, if it gives a value.
abbrev pub KeepsVersion : {A : Type 0} → Option ℕ → Run A → Type 0
KeepsVersion version (ok a, db) = db.version ≡ version
KeepsVersion version (raise e, db) = Unit

module _ (s : RetrievalService) (t : Times) where
  if_cache-version :
      (o : Option RetrievalCache) (f : RetrievalCache → CacheDb → CacheDb) (db : CacheDb)
      → ((c : RetrievalCache) (d : CacheDb) → (f c d).version ≡ d.version)
      → (if_cache o f db).version ≡ db.version
  if_cache-version none f db keeps = refl
  if_cache-version (some c) f db keeps = keeps c db

  after_provider-KeepsVersion :
      (query : Text) (status : String) (r : Result Exception (List Float)) (db : CacheDb)
      → KeepsVersion db.version (after_provider s t query status r db)
  unfolding after_provider
  after_provider-KeepsVersion query status (raise e) db = tt
  after_provider-KeepsVersion query status (ok v) db = elim (Bool-cases (length v == s.dimension)) [
    | inr wrong ↦ rw wrong tt
    | inl right ↦ elim (Bool-cases (all_finite v)) [
      | inr wrong ↦ rw (right, wrong) tt
      | inl finite ↦
          rw (right, finite)
            (if_cache-version s.cache
                (λ c. put_embedding c s.model_name s.dimension query v t.vector_stored) _
                (λ c d. put_embedding-version c s.model_name s.dimension query v t.vector_stored d)
              ∙ if_cache-version s.cache (λ c. record_provider_call c "success") db
                  (λ c d. record_provider_call-version c "success" d))
    ]
  ]

  after_embedding_cache-KeepsVersion :
      (query : Text) (r : (Option (List Float) × String) × CacheDb)
      → KeepsVersion r.1.version (after_embedding_cache s t query r)
  unfolding after_embedding_cache
  after_embedding_cache-KeepsVersion query ((some v, status), db) = refl
  after_embedding_cache-KeepsVersion query ((none, status), db) =
      after_provider-KeepsVersion query status (s.embed_query query) db

  read_embedding_cache-version :
      (query : Text) (o : Option RetrievalCache) (db : CacheDb)
      → (read_embedding_cache s t query o db).1.version ≡ db.version
  unfolding read_embedding_cache
  read_embedding_cache-version query none db = refl
  read_embedding_cache-version query (some c) db =
      get_embedding-version c s.model_name s.dimension query t.vector_read db

  embed_query-KeepsVersion :
      (query : Text) (db : CacheDb) → KeepsVersion db.version (embed_query s t query db)
  unfolding embed_query
  embed_query-KeepsVersion query db =
      subst
        (λ v.
          KeepsVersion v
            (after_embedding_cache s t query (read_embedding_cache s t query s.cache db)))
        (read_embedding_cache-version query s.cache db)
        (after_embedding_cache-KeepsVersion query (read_embedding_cache s t query s.cache db))

  pub query_vector-KeepsVersion :
      (query : Text) (needed : Bool) (db : CacheDb)
      → KeepsVersion db.version (query_vector s t query needed db)
  unfolding query_vector
  query_vector-KeepsVersion query false db = refl
  query_vector-KeepsVersion query true db =
      kept (embed_query s t query db) (embed_query-KeepsVersion query db)
    where
      kept :
          (m : Run (List Float × String))
          → KeepsVersion db.version m
          → KeepsVersion {A = Option (List Float) × String} db.version
              (after_run m (λ v db'. (ok (some v.0, v.1), db')))
      kept (ok v, db') k = k
      kept (raise e, db') k = tt
