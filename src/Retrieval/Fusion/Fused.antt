-- ===== src/Retrieval/Fusion/Fused.antt =====
-- retrieval/service.py: what `_fuse` makes of the two lists of candidates.
use mathlib.Core.List.{Permᴰ}
use note_rag.Base.{
  ℕ, ◌+◌, ◌≡◌, ◌≢◌, refl, sym, ap, ◌∙◌, subst, false, Option, none, some, List, [], ◌∷◌, map, ◌==◌,
  ==_iff, if◌then◌else◌, All, Bool-cases, inl, inr, arith,
}
use note_rag.Base.Float.{Float, FloatOps}
use note_rag.Base.Sorting.{sort_by-perm}
use note_rag.Base.Table.{find, Unique}
use note_rag.Chunking.Tokens.{Text}
use note_rag.Retrieval.Models.{RetrievalHit}
use note_rag.Retrieval.Cache.{insert_or_change, upsert}
use note_rag.Retrieval.Cache.Upserts.{find-insert_self, find-insert_ne, Unique-insert}
use note_rag.Retrieval.Fusion.{
  RankedChunk, FusionEntry, Signal, vector_signal, keyword_signal, entry_id, set_signal, new_entry,
  credit, add_candidate, add_candidates, entries, to_hit, entry_hit, hit_before, fuse,
}

abbrev pub candidate_id : RankedChunk → ℕ
candidate_id c = c.chunk_id

-- The candidate with the id, and its rank, counted from `rank`.
abbrev pub ranked : ℕ → ℕ → List RankedChunk → Option (RankedChunk × ℕ)
ranked id rank [] = none
ranked id rank (c ∷ cs) = if c.chunk_id == id then some (c, rank) else ranked id (rank + 1) cs

module _ (ops : FloatOps) (rrf_k : ℕ) where
  -- What one signal does to the entry of an id that may be there.
  abbrev pub credited :
      Signal → Float → Option (RankedChunk × ℕ) → Option FusionEntry → Option FusionEntry
  credited signal weight none e = e
  credited signal weight (some (c, rank)) none =
      some (credit ops rrf_k signal weight rank c (new_entry ops rrf_k c))
  credited signal weight (some (c, rank)) (some e) = some (credit ops rrf_k signal weight rank c e)

  credit-id :
      (signal : Signal) (weight : Float) (rank : ℕ) (c : RankedChunk) (e : FusionEntry)
      → entry_id (credit ops rrf_k signal weight rank c e) ≡ entry_id e
  unfolding credit set_signal
  credit-id vector_signal weight rank c e = refl
  credit-id keyword_signal weight rank c e = refl

  new_entry-id : (c : RankedChunk) → entry_id (new_entry ops rrf_k c) ≡ c.chunk_id
  unfolding new_entry
  new_entry-id c = refl

  row_id :
      (signal : Signal) (weight : Float) (rank : ℕ) (c : RankedChunk)
      → entry_id (credit ops rrf_k signal weight rank c (new_entry ops rrf_k c)) ≡ c.chunk_id
  row_id signal weight rank c =
      credit-id signal weight rank c (new_entry ops rrf_k c) ∙ new_entry-id c

  add_candidate-upsert :
      (signal : Signal) (weight : Float) (rank : ℕ) (c : RankedChunk) (es : List FusionEntry)
      → add_candidate ops rrf_k signal weight rank c es
        ≡ upsert entry_id
            (credit ops rrf_k signal weight rank c (new_entry ops rrf_k c))
            (credit ops rrf_k signal weight rank c)
            es
  unfolding add_candidate upsert
  add_candidate-upsert signal weight rank c es =
      ap
        (λ k.
          insert_or_change entry_id (credit ops rrf_k signal weight rank c (new_entry ops rrf_k c))
            (credit ops rrf_k signal weight rank c) (find entry_id k es) es)
        (sym (row_id signal weight rank c))

  -- Adding one candidate changes the entry of its id alone.
  find-add_candidate :
      (signal : Signal) (weight : Float) (rank id : ℕ) (c : RankedChunk) (es : List FusionEntry)
      → find entry_id id (add_candidate ops rrf_k signal weight rank c es)
        ≡ credited signal weight
            (if c.chunk_id == id then some (c, rank) else none)
            (find entry_id id es)
  find-add_candidate signal weight rank id c es =
      let row = credit ops rrf_k signal weight rank c (new_entry ops rrf_k c) in
      let change = credit ops rrf_k signal weight rank c in
      let keeps = credit-id signal weight rank c in
      elim (Bool-cases (c.chunk_id == id)) [
        | inl same ↦
            let e : entry_id row ≡ id =
              row_id signal weight rank c ∙ (==_iff c.chunk_id id).0 same in
            ap (find entry_id id) (add_candidate-upsert signal weight rank c es)
            ∙ subst
                (λ k.
                  find entry_id k (upsert entry_id row change es)
                  ≡ credited signal weight (some (c, rank)) (find entry_id k es))
                e
                (find-insert_self entry_id row change keeps es
                  ∙ by_entry (find entry_id (entry_id row) es))
            ∙ rw same refl
        | inr other ↦
            let ne : id ≢ entry_id row =
              λ e. absurd (differ (e ∙ row_id signal weight rank c) other) in
            ap (find entry_id id) (add_candidate-upsert signal weight rank c es)
            ∙ find-insert_ne entry_id row change keeps id es ne
            ∙ rw other refl
      ]
    where
      by_entry :
          (o : Option FusionEntry)
          → (elim o [
            | none ↦ some (credit ops rrf_k signal weight rank c (new_entry ops rrf_k c))
            | some r ↦ some (credit ops rrf_k signal weight rank c r)
          ])
            ≡ credited signal weight (some (c, rank)) o
      by_entry none = refl
      by_entry (some e) = refl

      differ : id ≡ c.chunk_id → (c.chunk_id == id) ≡ false → ⊥
      differ e other = ground arith

  Unique-add_candidate :
      (signal : Signal) (weight : Float) (rank : ℕ) (c : RankedChunk) (es : List FusionEntry)
      → Unique entry_id es
      → Unique entry_id (add_candidate ops rrf_k signal weight rank c es)
  Unique-add_candidate signal weight rank c es u =
      subst (Unique entry_id) (sym (add_candidate-upsert signal weight rank c es)) (
        Unique-insert entry_id (credit ops rrf_k signal weight rank c (new_entry ops rrf_k c))
          (credit ops rrf_k signal weight rank c) (credit-id signal weight rank c) es u)

  Unique-add_candidates :
      (signal : Signal) (weight : Float) (rank : ℕ) (cs : List RankedChunk) (es : List FusionEntry)
      → Unique entry_id es
      → Unique entry_id (add_candidates ops rrf_k signal weight rank cs es)
  unfolding add_candidates
  Unique-add_candidates signal weight rank [] es u = u
  Unique-add_candidates signal weight rank (c ∷ cs) es u =
      Unique-add_candidates signal weight (rank + 1) cs _
        (Unique-add_candidate signal weight rank c es u)

  ranked-none :
      (id rank : ℕ) (cs : List RankedChunk)
      → All (λ q. candidate_id q ≢ id) cs
      → ranked id rank cs ≡ none
  ranked-none id rank [] h = refl
  ranked-none id rank (c ∷ cs) (ne, h) = ground (arith, ranked-none id (rank + 1) cs h)

  -- The loop over candidates with different ids.
  find-add_candidates :
      (signal : Signal) (weight : Float) (rank id : ℕ) (cs : List RankedChunk)
      (es : List FusionEntry)
      → Unique candidate_id cs
      → find entry_id id (add_candidates ops rrf_k signal weight rank cs es)
        ≡ credited signal weight (ranked id rank cs) (find entry_id id es)
  unfolding add_candidates
  find-add_candidates signal weight rank id [] es u = refl
  find-add_candidates signal weight rank id (c ∷ cs) es (apart, u) =
      let es' = add_candidate ops rrf_k signal weight rank c es in
      let one = find-add_candidate signal weight rank id c es in
      let later = find-add_candidates signal weight (rank + 1) id cs es' u in
      elim (Bool-cases (c.chunk_id == id)) [
        | inl same ↦
            let e : c.chunk_id ≡ id = (==_iff c.chunk_id id).0 same in
            let absent =
              ranked-none id (rank + 1) cs
                (subst (λ k. All (λ q. candidate_id q ≢ k) cs) e apart) in
            later
            ∙ ap (λ o. credited signal weight o (find entry_id id es')) absent
            ∙ rw same at one
            ∙ rw same refl
        | inr other ↦
            later
            ∙ ap (credited signal weight (ranked id (rank + 1) cs)) (rw other at one)
            ∙ rw other refl
      ]

  -- What a signal adds to the score of a candidate at this rank: reciprocal rank fusion.
  abbrev pub share : Float → ℕ → Float
  share weight rank = ops.over weight (ops.of_int (rrf_k + rank))

  -- The entry of an id, by its candidate and rank in each of the lists.
  abbrev pub fused :
      Float → Option (RankedChunk × ℕ) → Option (RankedChunk × ℕ) → Option FusionEntry
  fused vector_weight none none = none
  fused vector_weight (some (c, rank)) none = some (record {
    candidate = c;
    score = ops.plus ops.zero_point (share vector_weight rank);
    vector_score = some c.score;
    keyword_score = none;
  })
  fused vector_weight none (some (d, rank)) = some (record {
    candidate = d;
    score = ops.plus ops.zero_point (share (ops.minus ops.one_point vector_weight) rank);
    vector_score = none;
    keyword_score = some d.score;
  })
  fused vector_weight (some (c, rank)) (some (d, rank')) = some (record {
    candidate = c;
    score =
        ops.plus (ops.plus ops.zero_point (share vector_weight rank))
          (share (ops.minus ops.one_point vector_weight) rank');
    vector_score = some c.score;
    keyword_score = some d.score;
  })

  abbrev pub expected : ℕ → List RankedChunk → List RankedChunk → Float → Option FusionEntry
  expected id vector_hits keyword_hits vector_weight =
      fused vector_weight (ranked id 1 vector_hits) (ranked id 1 keyword_hits)

  credited-fused :
      (vector_weight : Float) (v w : Option (RankedChunk × ℕ))
      → credited keyword_signal
          (ops.minus ops.one_point vector_weight)
          w
          (credited vector_signal vector_weight v none)
        ≡ fused vector_weight v w
  unfolding credit set_signal new_entry
  credited-fused vector_weight none none = refl
  credited-fused vector_weight none (some (d, rank)) = refl
  credited-fused vector_weight (some (c, rank)) none = refl
  credited-fused vector_weight (some (c, rank)) (some (d, rank')) = refl

  -- The hit of an entry: its chunk, its signals, and its score over the best that a candidate can have.
  abbrev pub fused_hit : FusionEntry → RetrievalHit
  fused_hit e = record {
    chunk_id = e.candidate.chunk_id;
    document_id = e.candidate.chunk.document_id;
    filename = e.candidate.filename;
    media_type = e.candidate.media_type;
    position = e.candidate.chunk.position;
    text = e.candidate.chunk.text;
    token_count = e.candidate.chunk.token_count;
    token_start = e.candidate.chunk.token_start;
    token_end = e.candidate.chunk.token_end;
    char_start = e.candidate.chunk.char_start;
    char_end = e.candidate.chunk.char_end;
    source_metadata = e.candidate.chunk.source_metadata;
    score = ops.over e.score (share ops.one_point 1);
    vector_score = e.vector_score;
    keyword_score = e.keyword_score;
  }

  entry_hit-fused_hit : (es : List FusionEntry) → map (entry_hit ops rrf_k) es ≡ map fused_hit es
  unfolding entry_hit to_hit
  entry_hit-fused_hit [] = refl
  entry_hit-fused_hit (e ∷ es) = ap (◌∷◌ (fused_hit e)) (entry_hit-fused_hit es)

  -- If neither list of candidates has an id twice, the hits of `_fuse` are, in some order, those of
  -- entries with different ids, and the entry of an id is there exactly if it is among the candidates.
  -- It has the chunk that the vector search found, or else that of the keyword search, the score of each
  -- of the two signals that found it, and the sum, over those, of the weight over `rrf_k` plus the
  -- rank from 1 on. The score of the hit is that sum over 1 over `rrf_k + 1`.
  pub fuse_lem :
      (str_of : ℕ → Text) (vector_hits keyword_hits : List RankedChunk) (vector_weight : Float)
      → Unique candidate_id vector_hits
      → Unique candidate_id keyword_hits
      → (es : List FusionEntry) × Permᴰ
          (fuse ops rrf_k str_of vector_hits keyword_hits vector_weight)
          (map fused_hit es)
        × Unique entry_id es
        × ((id : ℕ) → find entry_id id es ≡ expected id vector_hits keyword_hits vector_weight)
  unfolding fuse entries
  fuse_lem str_of vector_hits keyword_hits vector_weight u v =
      let first = add_candidates ops rrf_k vector_signal vector_weight 1 vector_hits [] in
      let es = entries ops rrf_k vector_hits keyword_hits vector_weight in
      (
        es,
        subst (Permᴰ (fuse ops rrf_k str_of vector_hits keyword_hits vector_weight))
            (entry_hit-fused_hit es)
            (sort_by-perm (hit_before ops rrf_k str_of) (map (entry_hit ops rrf_k) es)),
        Unique-add_candidates keyword_signal (ops.minus ops.one_point vector_weight) 1 keyword_hits
            first (Unique-add_candidates vector_signal vector_weight 1 vector_hits [] tt),
        λ id.
            find-add_candidates keyword_signal (ops.minus ops.one_point vector_weight) 1 id
              keyword_hits first v
            ∙ ap
                (credited keyword_signal (ops.minus ops.one_point vector_weight)
                  (ranked id 1 keyword_hits))
                (find-add_candidates vector_signal vector_weight 1 id vector_hits [] u)
            ∙ credited-fused vector_weight (ranked id 1 vector_hits) (ranked id 1 keyword_hits),
      )
