-- ===== src/Retrieval/Cache/RoundTrip.antt =====
-- retrieval/cache.py: `_deserialize_result` after `_serialize_result`.
use note_rag.Base.{ℕ, ◌≡◌, refl, some, List, [], ◌∷◌, map}
use note_rag.Base.Result.{ok}
use note_rag.Retrieval.Models.{SearchMode, RetrievalHit, RetrievalResult}
use note_rag.Retrieval.Cache.{Codec}
use note_rag.Retrieval.Cache.Results.{
  mode_value, mode_of, serialize_hit, serialize_result, or_invalid_uuid, deserialize_hit,
  deserialize_hits, deserialize_result,
}

-- `uuid.UUID` reads what `str` wrote.
abbrev pub ReadsIds : Codec → Type 0
ReadsIds codec = (id : ℕ) → codec.uuid_parse (codec.uuid_str id) ≡ some id

mode_of-mode_value : (m : SearchMode) → mode_of (mode_value m) ≡ ok m
unfolding mode_of mode_value
mode_of-mode_value SearchMode.vector = refl
mode_of-mode_value SearchMode.keyword = refl
mode_of-mode_value SearchMode.hybrid = refl

module _ (codec : Codec) (reads : ReadsIds codec) where
  deserialize-serialize_hit :
      (h : RetrievalHit) → deserialize_hit codec (serialize_hit codec h) ≡ ok h
  unfolding deserialize_hit serialize_hit or_invalid_uuid
  deserialize-serialize_hit h = rw (reads h.chunk_id, reads h.document_id) refl

  deserialize-serialize_hits :
      (hs : List RetrievalHit) → deserialize_hits codec (map (serialize_hit codec) hs) ≡ ok hs
  unfolding deserialize_hits
  deserialize-serialize_hits [] = refl
  deserialize-serialize_hits (h ∷ hs) =
      rw (deserialize-serialize_hit h, deserialize-serialize_hits hs) refl

  -- If `uuid.UUID` reads what `str` wrote, a result that is stored and read again has its query, its
  -- mode and all its hits; the statuses and the version are the defaults.
  pub deserialize-serialize :
      (r : RetrievalResult)
      → deserialize_result codec (serialize_result codec r)
        ≡ ok (record r {
          embedding_cache_status = "disabled";
          retrieval_cache_status = "disabled";
          corpus_version = 0;
        })
  unfolding deserialize_result serialize_result
  deserialize-serialize r = rw (mode_of-mode_value r.mode, deserialize-serialize_hits r.hits) refl
