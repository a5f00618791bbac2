-- ===== src/Retrieval/Cache/Keys.antt =====
-- retrieval/cache.py: which searches share a key.
use mathlib.Core.List.{Permᴰ}
use mathlib.Core.List.Permᴰ
use note_rag.Base.{ℕ, ◌≡◌, refl, sym, ap, ◌∙◌, drop, true, false, List, [], ◌∷◌, arith}
use note_rag.Base.Sorting.{IsOrder, sort_by, sort_by-eq_of_perm}
use note_rag.Chunking.Tokens.{Text}
use note_rag.Retrieval.Models.{SearchFilters}
use note_rag.Retrieval.Cache.{Codec, normalize_query}
use note_rag.Retrieval.Cache.Words.{words, spaced, normalize_query-words}
use note_rag.Retrieval.Cache.Results.{text_before, SearchKey, key_parts, retrieval_key}

text_before-asym : (a b : Text) → text_before a b ≡ true → text_before b a ≡ false
unfolding text_before
text_before-asym a [] h = cc
text_before-asym [] (d ∷ b) h = refl
text_before-asym (c ∷ a) (d ∷ b) h = ground (arith, text_before-asym a b)

text_before-below :
    (a x b : Text) → text_before x a ≡ true → text_before x b ≡ false → text_before b a ≡ true
unfolding text_before
text_before-below [] x b h k = cc
text_before-below (c ∷ a) [] [] h k = refl
text_before-below (c ∷ a) [] (d ∷ b) h k = cc
text_before-below (c ∷ a) (e ∷ x) [] h k = refl
text_before-below (c ∷ a) (e ∷ x) (d ∷ b) h k = ground (arith, text_before-below a x b)

text_before-tie : (a b : Text) → text_before a b ≡ false → text_before b a ≡ false → a ≡ b
unfolding text_before
text_before-tie [] [] h k = refl
text_before-tie [] (d ∷ b) h k = cc
text_before-tie (c ∷ a) [] h k = cc
text_before-tie (c ∷ a) (d ∷ b) h k = ground (arith, text_before-tie a b)

text_before-IsOrder : IsOrder text_before
text_before-IsOrder = record { asym = text_before-asym; below = text_before-below }

sorted_eq : {xs ys : List Text} → Permᴰ xs ys → sort_by text_before xs ≡ sort_by text_before ys
sorted_eq d = sort_by-eq_of_perm text_before text_before-IsOrder d (λ a b m n. text_before-tie a b)

-- Two searches whose queries have the same words between white space, and which differ besides in the order
-- in which the filters are given and in nothing else, have one key.
pub retrieval_key-eq_of_perm :
    (codec : Codec) (s : SearchKey) (query : Text) (filters : SearchFilters) (version : ℕ)
    → words codec.chars s.query ≡ words codec.chars query
    → Permᴰ s.filters.document_ids filters.document_ids
    → Permᴰ s.filters.filenames filters.filenames
    → Permᴰ s.filters.media_types filters.media_types
    → s.filters.source_metadata ≡ filters.source_metadata
    → retrieval_key codec s version
      ≡ retrieval_key codec (record s { query = query; filters = filters }) version
unfolding retrieval_key key_parts
retrieval_key-eq_of_perm codec s query filters version queries ids names types data' =
    let queries' : normalize_query codec.chars s.query ≡ normalize_query codec.chars query =
      normalize_query-words codec.chars s.query
      ∙ ap (λ ws. drop 1 (spaced codec.chars ws)) queries
      ∙ sym (normalize_query-words codec.chars query) in
    cc (queries', sorted_eq (Permᴰ.map codec.uuid_str ids), sorted_eq names, sorted_eq types, data')
