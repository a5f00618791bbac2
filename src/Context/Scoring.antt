-- ===== src/Context/Scoring.antt =====
-- context/service.py: `_rerank` and `_normalize`. Arithmetic on floats is a parameter.
pub mod Accepted
use note_rag.Base.{
  ℕ, ◌+◌, Bool, true, false, not, ◌&&◌, ◌||◌, Option, none, some, List, [], ◌∷◌, map, length, ltb,
  ◌==◌, if◌then◌else◌,
}
use note_rag.Base.Result.{Result, ok, raise_if, ◌>>=◌, ◌>>◌}
use note_rag.Chunking.Tokens.{Text}
use note_rag.Chunking.Models.{Error, value_error}
use note_rag.Base.Float.{Float, FloatOps}
use note_rag.Context.Models.{RetrievalHit, ScoredHit}

-- `Reranker`
pub record Reranker : Type 0 where
  pub model_name : Text
  pub score : Text → List Text → Result Error (List Float)

module _ (ops : FloatOps) where
  abbrev pub all_of : (Float → Bool) → List Float → Bool
  all_of test [] = true
  all_of test (x ∷ xs) = test x && all_of test xs

  unfoldable pub lowest : Float → List Float → Float
  lowest low [] = low
  lowest low (x ∷ xs) = lowest (if ops.less x low then x else low) xs

  unfoldable pub highest : Float → List Float → Float
  highest high [] = high
  highest high (x ∷ xs) = highest (if ops.less high x then x else high) xs

  unfoldable pub normalize : List Float → List Float
  unfolding lowest highest
  normalize [] = []
  normalize (s ∷ ss) =
      let low = lowest s ss in
      let high = highest s ss in
      if ops.is_close low high
      then map (λ _. ops.one_point) (s ∷ ss)
      else map (λ x. ops.over (ops.minus x low) (ops.minus high low)) (s ∷ ss)

  unfoldable pub in_unit : Float → Bool
  in_unit x = ops.less_eq ops.zero_point x && ops.less_eq x ops.one_point

  -- The list of scored hits before the sort; the three lists are as long as each other.
  unfoldable pub weigh : Float → ℕ → List RetrievalHit → List Float → List Float → List ScoredHit
  weigh weight rank [] ns ss = []
  weigh weight rank (h ∷ hs) [] ss = []
  weigh weight rank (h ∷ hs) (n ∷ ns) [] = []
  weigh weight rank (h ∷ hs) (n ∷ ns) (s ∷ ss) =
      record {
        hit = h;
        rerank_score = some s;
        score = ops.plus (ops.times weight s) (ops.times (ops.minus ops.one_point weight) n);
        original_rank = rank;
      }
      ∷ weigh weight (rank + 1) hs ns ss

  -- `<` of the sort keys, as tuples compare; `str_before` is the order of `str` on the ids.
  unfoldable pub key_before : (ℕ → ℕ → Bool) → ScoredHit → ScoredHit → Bool
  key_before str_before a b =
      if ops.same (ops.negate a.score) (ops.negate b.score)
      then (if a.original_rank == b.original_rank
          then str_before a.hit.chunk_id b.hit.chunk_id
          else ltb a.original_rank b.original_rank)
      else ops.less (ops.negate a.score) (ops.negate b.score)

  unfoldable pub insert : (ℕ → ℕ → Bool) → ScoredHit → List ScoredHit → List ScoredHit
  unfolding key_before
  insert str_before a [] = a ∷ []
  insert str_before a (b ∷ bs) =
      let later = b ∷ insert str_before a bs in
      if key_before str_before b a then later else a ∷ b ∷ bs

  -- `scored.sort`, which is stable.
  unfoldable pub sort : (ℕ → ℕ → Bool) → List ScoredHit → List ScoredHit
  unfolding insert
  sort str_before [] = []
  sort str_before (a ∷ as') = insert str_before a (sort str_before as')

  unfoldable pub reranked :
      (ℕ → ℕ → Bool) → Float → List RetrievalHit → List Float → Result Error (List ScoredHit)
  unfolding normalize in_unit weigh sort
  reranked str_before weight hits scores = do
    raise_if (not (length scores == length hits))
        (value_error "reranker returned the wrong score count")
    raise_if (not (all_of ops.finite scores)) (value_error "reranker returned a non-finite score")
    raise_if (not (all_of in_unit scores))
        (value_error "reranker score must be between zero and one")
    let retrieval_scores = normalize (map (λ (h : RetrievalHit). h.score) hits)
    ok (sort str_before (weigh weight 0 hits retrieval_scores scores))

-- The hits in the order of the retriever.
unfoldable pub unranked : ℕ → List RetrievalHit → List ScoredHit
unranked rank [] = []
unranked rank (h ∷ hs) =
    record { hit = h; rerank_score = none; score = h.score; original_rank = rank }
    ∷ unranked (rank + 1) hs

unfoldable pub rerank :
    FloatOps
    → (ℕ → ℕ → Bool)
    → Option Reranker
    → Text
    → List RetrievalHit
    → Bool
    → Float
    → Result Error (List ScoredHit)
unfolding reranked unranked
rerank ops str_before none query hits enabled weight = ok (unranked 0 hits)
rerank ops str_before (some r) query hits enabled weight =
    let scored =
      r.score query (map (λ (h : RetrievalHit). h.text) hits)
      >>= reranked ops str_before weight hits in
    if not enabled || length hits == 0 then ok (unranked 0 hits) else scored
