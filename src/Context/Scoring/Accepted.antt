-- ===== src/Context/Scoring/Accepted.antt =====
-- context/service.py: where `_rerank` returns, and how many hits.
use note_rag.Base.{
  ℕ, ◌+◌, ◌≡◌, ◌∙◌, refl, ap, suc, Bool, true, false, not, ◌&&◌, ◌||◌, Option, none, some, List, [],
  ◌∷◌, map, length, ◌==◌, All, All-map, ◌⊎◌, arith, Bool-cases, inl, inr, length-map, ==_iff,
}
use note_rag.Base.Result.{Result, ok, raise, ◌>>=◌}
use note_rag.Chunking.Tokens.{Text}
use note_rag.Chunking.Models.{Error}
use note_rag.Persistence.Models.{Float}
use note_rag.Context.Models.{RetrievalHit, ScoredHit}
use note_rag.Base.Float.{FloatOps}
use note_rag.Context.Scoring.{
  Reranker, all_of, lowest, highest, normalize, in_unit, weigh, key_before, insert, sort, reranked,
  unranked, rerank,
}

-- The reranker answers with one score for each hit, all finite and from 0 to 1.
abbrev pub are_scores : FloatOps → List RetrievalHit → Result Error (List Float) → Bool
are_scores ops hits (raise e) = false
are_scores ops hits (ok scores) =
    length scores == length hits
    && (all_of ops ops.finite scores && all_of ops (in_unit ops) scores)

abbrev pub accepts : FloatOps → Option Reranker → Text → List RetrievalHit → Bool
accepts ops none query hits = true
accepts ops (some r) query hits =
    are_scores ops hits (r.score query (map (λ (h : RetrievalHit). h.text) hits))

-- The hit is one of the list.
abbrev pub IsAmong : RetrievalHit → List RetrievalHit → Type 0
IsAmong h [] = ⊥
IsAmong h (x ∷ xs) = (h ≡ x) ⊎ IsAmong h xs

All-IsAmong : (hits : List RetrievalHit) → All (λ h. IsAmong h hits) hits
All-IsAmong [] = tt
All-IsAmong (x ∷ xs) = (inl refl, All-map xs (λ h m. inr m) (All-IsAmong xs))

-- What holds of each hit holds of each scored hit's.
module _ (P : RetrievalHit → Type 0) where
  abbrev AllHits : List ScoredHit → Type 0
  AllHits scored = All (λ (s : ScoredHit). P s.hit) scored

  unranked-AllHits :
      (rank : ℕ) (hits : List RetrievalHit) → All P hits → AllHits (unranked rank hits)
  unfolding unranked
  unranked-AllHits rank [] all = tt
  unranked-AllHits rank (h ∷ hits) all = (all.0, unranked-AllHits (rank + 1) hits all.1)

  weigh-AllHits :
      (ops : FloatOps) (weight : Float) (rank : ℕ) (hs : List RetrievalHit) (ns ss : List Float)
      → All P hs
      → AllHits (weigh ops weight rank hs ns ss)
  unfolding weigh
  weigh-AllHits ops weight rank [] ns ss all = tt
  weigh-AllHits ops weight rank (h ∷ hs) [] ss all = tt
  weigh-AllHits ops weight rank (h ∷ hs) (n ∷ ns) [] all = tt
  weigh-AllHits ops weight rank (h ∷ hs) (n ∷ ns) (s ∷ ss) all =
      (all.0, weigh-AllHits ops weight (rank + 1) hs ns ss all.1)

  insert-AllHits :
      (ops : FloatOps) (str_before : ℕ → ℕ → Bool) (a : ScoredHit) (bs : List ScoredHit)
      → P a.hit
      → AllHits bs
      → AllHits (insert ops str_before a bs)
  unfolding insert
  insert-AllHits ops str_before a [] one all = (one, tt)
  insert-AllHits ops str_before a (b ∷ bs) one all =
      elim (Bool-cases (key_before ops str_before b a)) [
        | inl after ↦ rw after (all.0, insert-AllHits ops str_before a bs one all.1)
        | inr here ↦ rw here (one, all)
      ]

  sort-AllHits :
      (ops : FloatOps) (str_before : ℕ → ℕ → Bool) (as' : List ScoredHit)
      → AllHits as'
      → AllHits (sort ops str_before as')
  unfolding sort
  sort-AllHits ops str_before [] all = tt
  sort-AllHits ops str_before (a ∷ as') all =
      insert-AllHits ops str_before a (sort ops str_before as') all.0
        (sort-AllHits ops str_before as' all.1)

length-unranked : (rank : ℕ) (hits : List RetrievalHit) → length (unranked rank hits) ≡ length hits
unfolding unranked
length-unranked rank [] = refl
length-unranked rank (h ∷ hits) = ap suc (length-unranked (rank + 1) hits)

module _ (ops : FloatOps) where
  length-normalize : (scores : List Float) → length (normalize ops scores) ≡ length scores
  unfolding normalize
  length-normalize [] = refl
  length-normalize (s ∷ ss) =
      elim (Bool-cases (ops.is_close (lowest ops s ss) (highest ops s ss))) [
        | inl near ↦ rw near (ap suc (length-map ss (λ _. ops.one_point)))
        | inr far ↦ rw far (
            ap suc (
              length-map ss (λ x.
                ops.over (ops.minus x (lowest ops s ss))
                  (ops.minus (highest ops s ss) (lowest ops s ss)))))
      ]

  length-weigh :
      (weight : Float) (rank : ℕ) (hs : List RetrievalHit) (ns ss : List Float)
      → length ns ≡ length hs
      → length ss ≡ length hs
      → length (weigh ops weight rank hs ns ss) ≡ length hs
  unfolding weigh
  length-weigh weight rank [] ns ss e d = refl
  length-weigh weight rank (h ∷ hs) [] ss e d = absurd (omega arith)
  length-weigh weight rank (h ∷ hs) (n ∷ ns) [] e d = absurd (omega arith)
  length-weigh weight rank (h ∷ hs) (n ∷ ns) (s ∷ ss) e d =
      ap suc (length-weigh weight (rank + 1) hs ns ss (omega arith) (omega arith))

  length-insert :
      (str_before : ℕ → ℕ → Bool) (a : ScoredHit) (bs : List ScoredHit)
      → length (insert ops str_before a bs) ≡ suc (length bs)
  unfolding insert
  length-insert str_before a [] = refl
  length-insert str_before a (b ∷ bs) = elim (Bool-cases (key_before ops str_before b a)) [
    | inl after ↦ rw after (ap suc (length-insert str_before a bs))
    | inr here ↦ rw here refl
  ]

  length-sort :
      (str_before : ℕ → ℕ → Bool) (as' : List ScoredHit)
      → length (sort ops str_before as') ≡ length as'
  unfolding sort
  length-sort str_before [] = refl
  length-sort str_before (a ∷ as') =
      length-insert str_before a (sort ops str_before as') ∙ ap suc (length-sort str_before as')

-- What is returned are as many scored hits as hits, each of one of them.
abbrev pub Scores : List RetrievalHit → Result Error (List ScoredHit) → Type 0
Scores hits r =
    (scored : List ScoredHit) × (r ≡ ok scored)
    × (length scored ≡ length hits)
    × All (λ (s : ScoredHit). IsAmong s.hit hits) scored

unranked-Scores : (hits : List RetrievalHit) → Scores hits (ok (unranked 0 hits))
unranked-Scores hits = (
  unranked 0 hits,
  refl,
  length-unranked 0 hits,
  unranked-AllHits (λ h. IsAmong h hits) 0 hits (All-IsAmong hits),
)

and-true : (a b : Bool) → (a && b) ≡ true → (a ≡ true) × (b ≡ true)
and-true true b h = (refl, h)
and-true false b h = cc

reranked-Scores :
    (ops : FloatOps) (str_before : ℕ → ℕ → Bool) (weight : Float) (hits : List RetrievalHit)
    (answer : Result Error (List Float))
    → are_scores ops hits answer ≡ true
    → Scores hits (answer >>= reranked ops str_before weight hits)
unfolding reranked
reranked-Scores ops str_before weight hits (raise e) h = cc
reranked-Scores ops str_before weight hits (ok scores) h =
    let (counted, sound) =
      and-true (length scores == length hits)
        (all_of ops ops.finite scores && all_of ops (in_unit ops) scores) h in
    let (finite, bounded) =
      and-true (all_of ops ops.finite scores) (all_of ops (in_unit ops) scores) sound in
    let as_long = (==_iff (length scores) (length hits)).0 counted in
    let points = map (λ (h : RetrievalHit). h.score) hits in
    let weighed = weigh ops weight 0 hits (normalize ops points) scores in
    (
      sort ops str_before weighed,
      rw (counted, finite, bounded) refl,
      length-sort ops str_before weighed
          ∙ length-weigh ops weight 0 hits (normalize ops points) scores
              (length-normalize ops points ∙ length-map hits (λ (h : RetrievalHit). h.score))
              as_long,
      sort-AllHits (λ h. IsAmong h hits) ops str_before weighed
          (weigh-AllHits (λ h. IsAmong h hits) ops weight 0 hits (normalize ops points) scores
            (All-IsAmong hits)),
    )

pub rerank-Scores :
    (ops : FloatOps) (str_before : ℕ → ℕ → Bool) (reranker : Option Reranker) (query : Text)
    (hits : List RetrievalHit) (enabled : Bool) (weight : Float)
    → (not enabled || accepts ops reranker query hits) ≡ true
    → Scores hits (rerank ops str_before reranker query hits enabled weight)
unfolding rerank
rerank-Scores ops str_before none query hits enabled weight h = unranked-Scores hits
rerank-Scores ops str_before (some r) query hits false weight h = unranked-Scores hits
rerank-Scores ops str_before (some r) query hits true weight h =
    elim (Bool-cases (length hits == 0)) [
      | inl empty ↦ rw empty (unranked-Scores hits)
      | inr some_hits ↦ rw some_hits (
          reranked-Scores ops str_before weight hits
            (r.score query (map (λ (h : RetrievalHit). h.text) hits)) h)
    ]
