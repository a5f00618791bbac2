-- ===== src/Retrieval/Cache/Reads.antt =====
-- retrieval/cache.py: what a read gives after a write, and after an invalidation.
use note_rag.Base.{
  ℕ, ◌+◌, ◌≡◌, inl, inr, refl, ap, ◌∙◌, true, not, none, some, List, length, String, leb, ==_iff,
  if◌then◌else◌, Bool-cases,
}
use note_rag.Base.Table.{find}
use note_rag.Chunking.Tokens.{Text}
use note_rag.Persistence.Models.{Float}
use note_rag.Embeddings.Indexing.{all_finite}
use note_rag.Retrieval.Cache.{
  EmbeddingRow, embedding_parts, CacheDb, RetrievalCache, normalize_query, is_expired,
  embedding_hash, embedding_key, read_embedding, after_find_embedding, get_embedding, put_embedding,
}
use note_rag.Retrieval.Cache.Upserts.{find-upsert_self}

module _ (c : RetrievalCache) where
  stored_embedding :
      (model : String) (dimension : ℕ) (query : Text) (vector : List Float) (now : ℕ) (db : CacheDb)
      → c.embedding_enabled ≡ true
      → (e : EmbeddingRow) × (find embedding_hash
            (embedding_key c model dimension query)
            (put_embedding c model dimension query vector now db).embeddings
          ≡ some e)
        × (e.vector ≡ vector)
        × (e.expires_at ≡ now + c.embedding_ttl)
  unfolding put_embedding
  stored_embedding model dimension query vector now db on =
      let row : EmbeddingRow = record {
        key_hash = embedding_key c model dimension query;
        model_name = model;
        normalized_query = normalize_query c.codec.chars query;
        dimension = dimension;
        vector = vector;
        expires_at = now + c.embedding_ttl;
      } in
      let change =
        λ (r : EmbeddingRow). record r { vector = vector; expires_at = now + c.embedding_ttl } in
      let (e, there, which) =
        find-upsert_self embedding_hash row change db.embeddings (λ r. refl) in
      elim which [
        | inl new ↦ (
          e,
          rw on there,
          ap (λ (r : EmbeddingRow). r.vector) new,
          ap (λ (r : EmbeddingRow). r.expires_at) new,
        )
        | inr (r, old) ↦ (
          e,
          rw on there,
          ap (λ (r : EmbeddingRow). r.vector) old,
          ap (λ (r : EmbeddingRow). r.expires_at) old,
        )
      ]

  read_embedding_lem :
      (dimension now : ℕ) (e : EmbeddingRow) (db : CacheDb)
      → length e.vector ≡ dimension
      → all_finite e.vector ≡ true
      → (read_embedding c dimension now e db).0
        ≡ (if leb e.expires_at now then (none, "expired") else (some e.vector, "hit"))
  unfolding read_embedding is_expired
  read_embedding_lem dimension now e db sized finite =
      let same = (==_iff (length e.vector) dimension).1 sized in
      elim (Bool-cases (leb e.expires_at now)) [
        | inl over ↦ rw over refl
        | inr live ↦ rw (live, same, finite) refl
      ]

  get_embedding_on :
      (model : String) (dimension : ℕ) (query : Text) (now : ℕ) (db : CacheDb)
      → c.embedding_enabled ≡ true
      → get_embedding c model dimension query now db
        ≡ after_find_embedding c dimension now
            (find embedding_hash (embedding_key c model dimension query) db.embeddings)
            db
  unfolding get_embedding
  get_embedding_on model dimension query now db on =
      ap
        (λ b.
          if not b
          then ((none, "disabled"), db)
          else after_find_embedding c dimension now
              (find embedding_hash (embedding_key c model dimension query) db.embeddings) db)
        on

  read_found :
      (dimension now : ℕ) (e : EmbeddingRow) (db : CacheDb)
      → (after_find_embedding c dimension now (some e) db).0
        ≡ (read_embedding c dimension now e db).0
  unfolding after_find_embedding
  read_found dimension now e db = refl

  same_key :
      (model : String) (dimension : ℕ) (query query' : Text)
      → normalize_query c.codec.chars query ≡ normalize_query c.codec.chars query'
      → embedding_key c model dimension query ≡ embedding_key c model dimension query'
  unfolding embedding_key
  same_key model dimension query query' words =
      ap (λ w. c.codec.digest (embedding_parts 1 model dimension w)) words

  -- If the cache of embeddings is on, a vector of the right dimension with finite entries that is
  -- stored for a query is read for each query with the same words, until its time is over.
  pub get_embedding-put_embedding :
      (model : String) (dimension : ℕ) (query query' : Text) (vector : List Float) (now later : ℕ)
      (db : CacheDb)
      → c.embedding_enabled ≡ true
      → normalize_query c.codec.chars query' ≡ normalize_query c.codec.chars query
      → length vector ≡ dimension
      → all_finite vector ≡ true
      → (get_embedding c model dimension query' later
          (put_embedding c model dimension query vector now db)).0
        ≡ (if leb (now + c.embedding_ttl) later then (none, "expired") else (some vector, "hit"))
  get_embedding-put_embedding model dimension query query' vector now later db on words sized
        finite =
      let (e, there, vec, time) = stored_embedding model dimension query vector now db on in
      let after = put_embedding c model dimension query vector now db in
      ap (λ p. p.0) (get_embedding_on model dimension query' later after on)
      ∙ ap
          (λ k.
            (after_find_embedding c dimension later (find embedding_hash k after.embeddings)
              after).0)
          (same_key model dimension query' query words)
      ∙ ap (λ o. (after_find_embedding c dimension later o after).0) there
      ∙ read_found dimension later e after
      ∙ read_embedding_lem dimension later e after (ap length vec ∙ sized)
          (ap all_finite vec ∙ finite)
      ∙ rw (vec, time) refl
