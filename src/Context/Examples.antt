-- ===== src/Context/Examples.antt =====
-- A context of three candidates, two of which have the same words.
use note_rag.Base.{
  ℕ, ◌+◌, ◌-◌, ◌*◌, ◌/◌, ◌≡◌, refl, true, false, ◌&&◌, ◌||◌, none, some, List, [], ◌∷◌, map, length,
  All, leb, ltb, ◌==◌, slice,
}
use note_rag.Base.Int.{pos}
use note_rag.Base.Result.{Result, ok, raise}
use note_rag.Chunking.Tokens.{Text, CharClass, count}
use note_rag.Chunking.Models.{Error}
use note_rag.Persistence.Models.{Float, Metadata, is_finite}
use note_rag.Context.Models.{
  RetrievalHit, ScoredHit, ContextChunk, SearchMode, RetrievalResult, ContextPackage, Request,
}
use note_rag.Base.Float.{FloatOps}
use note_rag.Context.Scoring.{Reranker, rerank, unranked, in_unit}
use note_rag.Context.Scoring.Accepted.{accepts}
use note_rag.Context.Dedup.{deduplicate, contains_id, contains_text, normalized}
use note_rag.Context.Dedup.Unique.{Sublist, Distinct, IsCovered, deduplicate-Distinct}
use note_rag.Context.Budget.{codes, fit_budget, header, truncate, to_chunk}
use note_rag.Context.Budget.Fits.{IsFit, fit_budget-IsFit}
use note_rag.Context.Service.{ContextBuilder, check, build}
use note_rag.Context.Service.Built.{IsPackage, build-IsPackage}

abbrev chars : CharClass
chars = record {
  is_word = λ c. leb 48 c && leb c 57 || leb 65 c && leb c 90 || c == 95 || leb 97 c && leb c 122;
  is_space = λ c. c == 32 || leb 9 c && leb c 13;
}

abbrev lower : ℕ → Text
lower c = elim (leb 65 c && leb c 90) [ true ↦ (c + 32) ∷ [] | false ↦ c ∷ [] ]

abbrev dumps : Metadata → Text
dumps m = codes "{}"

abbrev hit : ℕ → Text → Float → RetrievalHit
hit chunk_id text score = record {
  chunk_id = chunk_id;
  document_id = 1;
  filename = codes "a.md";
  media_type = codes "text";
  position = chunk_id;
  text = text;
  token_count = 3;
  token_start = 0;
  token_end = 3;
  char_start = 0;
  char_end = 5;
  source_metadata = [];
  score = score;
  vector_score = none;
  keyword_score = none;
}

abbrev candidates : List RetrievalHit
candidates = hit 7 (codes "x y z") 5 ∷ hit 8 (codes " X  y\nZ ") 4 ∷ hit 9 (codes "u v w") 3 ∷ []

abbrev scored_ids : Result Error (List ScoredHit) → List ℕ
scored_ids (ok hs) = map (λ (h : ScoredHit). h.hit.chunk_id) hs
scored_ids (raise e) = []

kept_ids :
    map (λ (h : ScoredHit). h.hit.chunk_id) (deduplicate chars lower (unranked 0 candidates)).0
    ≡ 7 ∷ 9 ∷ []
unfolding deduplicate unranked contains_id contains_text normalized
kept_ids = refl

deduplicate-Distinct_example :
    let (unique, removed) = deduplicate chars lower (unranked 0 candidates) in
    Sublist unique (unranked 0 candidates)
    × Distinct chars lower unique
    × All (IsCovered chars lower unique) (unranked 0 candidates)
    × (length unique + removed ≡ length (unranked 0 candidates))
deduplicate-Distinct_example = deduplicate-Distinct chars lower (unranked 0 candidates)

abbrev fit_texts : Result Error (List ContextChunk × Text) → List (Text × ℕ)
fit_texts (ok (cs, t)) = map (λ (c : ContextChunk). (c.text, c.token_count)) cs
fit_texts (raise e) = []

-- A prefix takes 21 tokens; room for two tokens of the second text is left.
second_cut :
    fit_texts (fit_budget chars dumps 3 47 (unranked 0 candidates))
    ≡ (codes "x y z", 3) ∷ (codes " X  y", 2) ∷ []
unfolding fit_budget header truncate to_chunk unranked count slice
second_cut = refl

fit_budget-IsFit_example :
    IsFit chars dumps 3 47 0 []
      (unranked 0 candidates)
      (fit_budget chars dumps 3 47 (unranked 0 candidates))
fit_budget-IsFit_example = fit_budget-IsFit chars dumps 3 47 (unranked 0 candidates)

-- A stand-in for the arithmetic: scores are whole numbers up to 10.
abbrev ops : FloatOps
ops = record {
  zero_point = 0;
  one_point = 10;
  less = ltb;
  less_eq = leb;
  same = ◌==◌;
  plus = ◌+◌;
  minus = ◌-◌;
  times = λ a b. a * b / 10;
  over = λ a b. a * 10 / b;
  negate = λ a. 1000 - a;
  of_int = λ n. n * 10;
  finite = is_finite;
  is_close = ◌==◌;
}

abbrev by_length : Reranker
by_length = record {
  model_name = codes "by-length";
  score = λ query documents. ok (map (λ d. length d) documents);
}

abbrev builder : ContextBuilder Unit
builder = record {
  search = λ query mode top_k weight filters. ok (record {
    query = query;
    mode = mode;
    hits = candidates;
    embedding_cache_status = "disabled";
    retrieval_cache_status = "disabled";
    corpus_version = 0;
  });
  reranker = some by_length;
  chars = chars;
  fold = lower;
  dumps = dumps;
  ops = ops;
  str_before = ltb;
}

abbrev request : Request Unit
request = record {
  query = codes "x";
  mode = SearchMode.hybrid;
  candidate_k = pos 20;
  max_chunks = pos 8;
  max_context_tokens = pos 60;
  vector_weight = 7;
  rerank = true;
  rerank_weight = 9;
  filters = none;
}

abbrev found : RetrievalResult
found = record {
  query = codes "x";
  mode = SearchMode.hybrid;
  hits = candidates;
  embedding_cache_status = "disabled";
  retrieval_cache_status = "disabled";
  corpus_version = 0;
}

-- The longest text comes first.
longest_first :
    scored_ids (rerank ops ltb (some by_length) (codes "x") candidates true 9) ≡ 8 ∷ 7 ∷ 9 ∷ []
unfolding rerank is_finite
longest_first = refl

request_accepted : check builder request ≡ ok tt
unfolding check
request_accepted = refl

scores_accepted : accepts ops (some by_length) (codes "x") candidates ≡ true
unfolding is_finite in_unit
scores_accepted = refl

build-IsPackage_example :
    (p : ContextPackage) × (build builder request ≡ ok p) × IsPackage builder request found p
build-IsPackage_example =
    build-IsPackage builder request found request_accepted refl scores_accepted
