-- ===== src/Retrieval/Fusion.antt =====
-- retrieval/service.py: `_fuse` and `_hit`.
pub mod Fused
use note_rag.Base.{
  ℕ, ◌+◌, Bool, true, false, Option, none, some, List, [], ◌∷◌, ◌++◌, map, ◌==◌, if◌then◌else◌,
}
use note_rag.Base.Float.{Float, FloatOps}
use note_rag.Base.Sorting.{sort_by}
use note_rag.Base.Table.{find, update}
use note_rag.Chunking.Tokens.{Text}
use note_rag.Persistence.Models.{ChunkRecord}
use note_rag.Retrieval.Models.{RetrievalHit}
use note_rag.Retrieval.Cache.{insert_or_change}
use note_rag.Retrieval.Cache.Results.{text_before}

-- `RankedChunk`, with the id of its chunk
pub record RankedChunk : Type 0 where
  pub chunk_id : ℕ
  pub chunk : ChunkRecord
  pub filename : Text
  pub media_type : Text
  pub score : Float

-- `_FusionEntry`
pub record FusionEntry : Type 0 where
  pub candidate : RankedChunk
  pub score : Float
  pub vector_score : Option Float
  pub keyword_score : Option Float

pub data Signal : Type 0 where
  vector_signal : Signal
  keyword_signal : Signal

abbrev pub entry_id : FusionEntry → ℕ
entry_id e = e.candidate.chunk_id

unfoldable pub to_hit : RankedChunk → Float → Option Float → Option Float → RetrievalHit
to_hit c score vector_score keyword_score = record {
  chunk_id = c.chunk_id;
  document_id = c.chunk.document_id;
  filename = c.filename;
  media_type = c.media_type;
  position = c.chunk.position;
  text = c.chunk.text;
  token_count = c.chunk.token_count;
  token_start = c.chunk.token_start;
  token_end = c.chunk.token_end;
  char_start = c.chunk.char_start;
  char_end = c.chunk.char_end;
  source_metadata = c.chunk.source_metadata;
  score = score;
  vector_score = vector_score;
  keyword_score = keyword_score;
}

-- The last lines of the inner loop
unfoldable pub set_signal : Signal → Float → FusionEntry → FusionEntry
set_signal vector_signal score e = record e { vector_score = some score }
set_signal keyword_signal score e = record e { keyword_score = some score }

module _ (ops : FloatOps) (rrf_k : ℕ) where
  unfoldable pub new_entry : RankedChunk → FusionEntry
  new_entry c = record {
    candidate = c;
    score = ops.zero_point;
    vector_score = none;
    keyword_score = none;
  }

  unfoldable pub credit : Signal → Float → ℕ → RankedChunk → FusionEntry → FusionEntry
  unfolding set_signal
  credit signal weight rank c e =
      set_signal signal c.score
        (record e { score = ops.plus e.score (ops.over weight (ops.of_int (rrf_k + rank))) })

  -- `setdefault`, and the entry that it gives is changed.
  unfoldable pub add_candidate :
      Signal → Float → ℕ → RankedChunk → List FusionEntry → List FusionEntry
  unfolding new_entry credit insert_or_change find
  add_candidate signal weight rank c es =
      insert_or_change entry_id (credit signal weight rank c (new_entry c))
        (credit signal weight rank c) (find entry_id c.chunk_id es) es

  -- The inner loop, `enumerate` from `rank`
  unfoldable pub add_candidates :
      Signal → Float → ℕ → List RankedChunk → List FusionEntry → List FusionEntry
  unfolding add_candidate
  add_candidates signal weight rank [] es = es
  add_candidates signal weight rank (c ∷ cs) es =
      add_candidates signal weight (rank + 1) cs (add_candidate signal weight rank c es)

  unfoldable pub entries : List RankedChunk → List RankedChunk → Float → List FusionEntry
  unfolding add_candidates
  entries vector_hits keyword_hits vector_weight =
      add_candidates keyword_signal (ops.minus ops.one_point vector_weight) 1 keyword_hits
        (add_candidates vector_signal vector_weight 1 vector_hits [])

  unfoldable pub entry_hit : FusionEntry → RetrievalHit
  unfolding to_hit
  entry_hit e =
      to_hit e.candidate (ops.over e.score (ops.over ops.one_point (ops.of_int (rrf_k + 1))))
        e.vector_score e.keyword_score

  -- `<` of the sort keys; `str_of` is `str` of an id.
  unfoldable pub hit_before : (ℕ → Text) → RetrievalHit → RetrievalHit → Bool
  unfolding text_before
  hit_before str_of a b =
      if ops.same (ops.negate a.score) (ops.negate b.score)
      then text_before (str_of a.chunk_id) (str_of b.chunk_id)
      else ops.less (ops.negate a.score) (ops.negate b.score)

  unfoldable pub fuse : (ℕ → Text) → List RankedChunk → List RankedChunk → Float → List RetrievalHit
  unfolding entries entry_hit hit_before sort_by
  fuse str_of vector_hits keyword_hits vector_weight =
      sort_by (hit_before str_of) (map entry_hit (entries vector_hits keyword_hits vector_weight))
