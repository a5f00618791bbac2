-- ===== src/Context/Service/Built.antt =====
-- context/service.py: what `build` returns.
use note_rag.Base.{
  ℕ, ◌+◌, ◌≤◌, ◌≡◌, ◌∙◌, ◌⊎◌, inl, inr, refl, true, false, not, ◌||◌, List, [], ◌∷◌, length, All,
  ltb, ltb→le, arith, Bool-cases,
}
use note_rag.Base.Int.{pos_part}
use note_rag.Base.Result.{Result, ok, raise, ◌>>=◌}
use note_rag.Chunking.Tokens.{Text, count}
use note_rag.Chunking.Models.{Error}
use note_rag.Context.Models.{ScoredHit, ContextChunk, RetrievalResult, ContextPackage, Request}
use note_rag.Context.Scoring.Accepted.{IsAmong, accepts, rerank-Scores}
use note_rag.Context.Dedup.{deduplicate}
use note_rag.Context.Dedup.Unique.{Distinct, All-Sublist, deduplicate-Distinct}
use note_rag.Context.Budget.{fit_budget}
use note_rag.Context.Budget.Fits.{Cites, written, IsFit, fit_budget-IsFit}
use note_rag.Context.Service.{ContextBuilder, any_truncated, check, to_package, assemble, build}

module _ {Filters : Type 0} (b : ContextBuilder Filters) (r : Request Filters) where
  -- The package keeps to the limits of the request, shows what it cites, cites no hit twice, and is marked as
  -- truncated unless it cites every candidate that is no duplicate, in full.
  abbrev pub IsPackage : RetrievalResult → ContextPackage → Type 0
  IsPackage result p =
      (p.token_count ≡ count b.chars p.context)
      × (p.token_count ≤ pos_part r.max_context_tokens)
      × (length p.chunks ≤ pos_part r.max_chunks)
      × ((unique : List ScoredHit) × Distinct b.chars b.fold unique
          × All (λ (u : ScoredHit). IsAmong u.hit result.hits) unique
          × Cites b.chars 0 p.chunks unique
          × (p.context ≡ written b.dumps 0 p.chunks unique))
      × ((p.truncated ≡ true)
          ⊎ ((length p.chunks + p.duplicates_removed ≡ length result.hits)
              × All (λ c. c.truncated ≡ false) p.chunks))

  whole :
      (chunks : List ContextChunk)
      → any_truncated chunks ≡ false
      → All (λ c. c.truncated ≡ false) chunks
  whole [] h = tt
  whole (c ∷ cs) h = elim (Bool-cases c.truncated) [
    | inl cut ↦ cc (rw cut at h)
    | inr full ↦ (full, whole cs (rw full at h))
  ]

  length-Cites :
      (n : ℕ) (chunks : List ContextChunk) (hits : List ScoredHit)
      → Cites b.chars n chunks hits
      → length chunks ≤ length hits
  length-Cites n [] hits h = omega arith
  length-Cites n (c ∷ cs) [] h = elim h [ ]
  length-Cites n (c ∷ cs) (x ∷ hits) (one, last, all) =
      omega (arith, length-Cites (n + 1) cs hits all)

  to_package-IsPackage :
      (result : RetrievalResult) (unique : List ScoredHit) (removed : ℕ)
      (chunks : List ContextChunk) (context : Text)
      → Distinct b.chars b.fold unique
      → All (λ (u : ScoredHit). IsAmong u.hit result.hits) unique
      → length unique + removed ≡ length result.hits
      → IsFit b.chars b.dumps
          (pos_part r.max_chunks)
          (pos_part r.max_context_tokens)
          0
          []
          unique
          (ok (chunks, context))
      → IsPackage result (to_package b r result (unique, removed) (chunks, context))
  unfolding to_package
  to_package-IsPackage result unique removed chunks context distinct among total
        (few, small, cites, shown) =
      (
        refl,
        small,
        omega arith,
        (unique, distinct, among, cites, shown),
        elim (Bool-cases (ltb (length chunks) (length unique))) [
          | inl less ↦ inl (rw less refl)
          | inr all ↦ elim (Bool-cases (any_truncated chunks)) [
            | inl cut ↦ inl (rw (all, cut) refl)
            | inr full ↦ inr (
              omega (
                arith,
                length-Cites 0 chunks unique cites,
                ltb→le (length chunks) (length unique) all,
              ),
              whole chunks full,
            )
          ]
        ],
      )

  abbrev Built : RetrievalResult → Result Error ContextPackage → Type 0
  Built result c = (p : ContextPackage) × (c ≡ ok p) × IsPackage result p

  fitted-Built :
      (result : RetrievalResult) (unique : List ScoredHit) (removed : ℕ)
      (f : Result Error (List ContextChunk × Text))
      → Distinct b.chars b.fold unique
      → All (λ (u : ScoredHit). IsAmong u.hit result.hits) unique
      → length unique + removed ≡ length result.hits
      → IsFit b.chars b.dumps (pos_part r.max_chunks) (pos_part r.max_context_tokens) 0 [] unique f
      → Built result (f >>= λ fitted. ok (to_package b r result (unique, removed) fitted))
  fitted-Built result unique removed (raise e) distinct among total fit = elim fit [ ]
  fitted-Built result unique removed (ok (chunks, context)) distinct among total fit = (
    to_package b r result (unique, removed) (chunks, context),
    refl,
    to_package-IsPackage result unique removed chunks context distinct among total fit,
  )

  assemble-Built :
      (result : RetrievalResult)
      → (not r.rerank || accepts b.ops b.reranker r.query result.hits) ≡ true
      → Built result (assemble b r result)
  unfolding assemble
  assemble-Built result h =
      let (scored, e, as_long, all) =
        rerank-Scores b.ops b.str_before b.reranker r.query result.hits r.rerank r.rerank_weight
          h in
      let (part, distinct, covered, total) = deduplicate-Distinct b.chars b.fold scored in
      let (unique, removed) = deduplicate b.chars b.fold scored in
      rw e (
        fitted-Built result unique removed
          (fit_budget b.chars b.dumps (pos_part r.max_chunks) (pos_part r.max_context_tokens)
            unique)
          distinct (All-Sublist (λ (u : ScoredHit). IsAmong u.hit result.hits) part all)
          (total ∙ as_long)
          (fit_budget-IsFit b.chars b.dumps (pos_part r.max_chunks) (pos_part r.max_context_tokens)
            unique))

-- If the checks of the arguments pass, the retriever returns, and the reranker, where it is asked,
-- gives one finite score from 0 to 1 for each hit, then `build` returns a package: its text has at
-- most `max_context_tokens` tokens, which is the count it states, it has at most `max_chunks`
-- chunks, its text is what those cite, which are hits of the retriever, no two with one id or one
-- normalised text, and it is marked as truncated unless its chunks and the duplicates removed make
-- up all candidates and each chunk is whole.
pub build-IsPackage :
    {Filters : Type 0} (b : ContextBuilder Filters) (r : Request Filters) (result : RetrievalResult)
    → check b r ≡ ok tt
    → b.search r.query r.mode (pos_part r.candidate_k) r.vector_weight r.filters ≡ ok result
    → (not r.rerank || accepts b.ops b.reranker r.query result.hits) ≡ true
    → (p : ContextPackage) × (build b r ≡ ok p) × IsPackage b r result p
unfolding build
build-IsPackage b r result checked found accepted =
    let (p, e, is) = assemble-Built b r result accepted in (p, rw (checked, found) e, is)
