-- ===== src/Context/Budget.antt =====
-- context/service.py: `_truncate`, `_header` and `_fit_budget`.
pub mod Counting
pub mod Prefix
pub mod Fits
use Prim.Native.Char.{code}
use Prim.Native.String.{String}
use note_rag.Base.{
  ℕ, zero, suc, ◌+◌, ◌-◌, ◌/◌, ◌%◌, Bool, true, false, Option, none, some, List, [], ◌∷◌, ◌++◌,
  length, slice, get_elem?, leb, ltb, ◌==◌, ◌||◌, if◌then◌else◌,
}
use note_rag.Base.Result.{Result, ok, raise, ◌>>=◌}
use note_rag.Chunking.Tokens.{Text, CharClass, tokenize, count}
use note_rag.Chunking.Models.{Error}
use note_rag.Chunking.Build.{or_index_error}
use note_rag.Persistence.Models.{Metadata}
use note_rag.Context.Models.{RetrievalHit, ScoredHit, ContextChunk}

-- The code points of a literal.
abbrev pub codes : String → Text
codes String.[] = []
codes (String.◌∷◌ c s) = code c ∷ codes s

-- `str(n)` on fuel; a number has fewer digits than its successor.
unfoldable pub decimal_from : ℕ → ℕ → Text
decimal_from zero n = []
decimal_from (suc fuel) n =
    let front = decimal_from fuel (n / 10) in
    if ltb n 10 then (48 + n) ∷ [] else front ++ (48 + n % 10) ∷ []

unfoldable pub decimal : ℕ → Text
unfolding decimal_from
decimal n = decimal_from (n + 1) n

-- `_header`; `dumps` is `json.dumps` with its options.
unfoldable pub header : (Metadata → Text) → ℕ → RetrievalHit → Text
unfolding decimal
header dumps citation_id hit =
    codes "["
    ++ decimal citation_id
    ++ codes "] Source: "
    ++ hit.filename
    ++ codes "; media_type="
    ++ hit.media_type
    ++ codes "; position="
    ++ decimal hit.position
    ++ codes "; metadata="
    ++ dumps hit.source_metadata

-- The text, the count of its tokens, and whether it was cut.
unfoldable pub truncate : CharClass → Text → ℕ → Result Error (Text × ℕ × Bool)
unfolding or_index_error
truncate k text budget =
    let tokens = tokenize k text in
    let cut = or_index_error (get_elem? tokens (budget - 1)) >>= λ last.
    ok (slice text 0 last.end, budget, true) in
    if leb (length tokens) budget
    then ok (text, length tokens, false)
    else if budget == 0
    then ok ([], 0, true)
    else cut

unfoldable pub to_chunk : ScoredHit → ℕ → Text → ℕ → Bool → ContextChunk
to_chunk item citation_id text token_count truncated = record {
  citation_id = citation_id;
  chunk_id = item.hit.chunk_id;
  document_id = item.hit.document_id;
  filename = item.hit.filename;
  media_type = item.hit.media_type;
  position = item.hit.position;
  text = text;
  token_count = token_count;
  source_metadata = item.hit.source_metadata;
  retrieval_score = item.hit.score;
  rerank_score = item.rerank_score;
  score = item.score;
  truncated = truncated;
}

unfoldable pub prefix : (Metadata → Text) → ℕ → RetrievalHit → Text
unfolding header
prefix dumps n hit = (if n == 0 then [] else codes "\n\n") ++ header dumps (n + 1) hit ++ codes "\n"

-- The loop body from the truncation on; `next` is the rest of the loop.
unfoldable pub append_hit :
    ℕ
    → Text
    → Text
    → ScoredHit
    → (Text → Result Error (List ContextChunk × Text))
    → Text × ℕ × Bool
    → Result Error (List ContextChunk × Text)
unfolding to_chunk
append_hit n rendered before item next ([], text_tokens, was_truncated) = ok ([], rendered)
append_hit n rendered before item next (c ∷ cs, text_tokens, was_truncated) =
    let chunk = to_chunk item (n + 1) (c ∷ cs) text_tokens was_truncated in
    let rendered' = rendered ++ before ++ c ∷ cs in
    if was_truncated
    then ok (chunk ∷ [], rendered')
    else next rendered' >>= λ later. ok (chunk ∷ later.0, later.1)

module _ (k : CharClass) (dumps : Metadata → Text) (max_chunks max_context_tokens : ℕ) where
  unfoldable pub available : ℕ → Text → RetrievalHit → ℕ
  unfolding prefix
  available n rendered hit = max_context_tokens - count k rendered - count k (prefix dumps n hit)

  -- The loop with `n` chunks made: the chunks that follow and the text in the end.
  unfoldable pub fit_from : ℕ → Text → List ScoredHit → Result Error (List ContextChunk × Text)
  unfolding available truncate prefix append_hit
  fit_from n rendered [] = ok ([], rendered)
  fit_from n rendered (item ∷ items) =
      let room = available n rendered item.hit in
      let body =
        truncate k item.hit.text room
        >>= append_hit n rendered (prefix dumps n item.hit) item
            (λ rendered'. fit_from (n + 1) rendered' items) in
      if leb max_chunks n || room == 0 then ok ([], rendered) else body

  unfoldable pub fit_budget : List ScoredHit → Result Error (List ContextChunk × Text)
  unfolding fit_from
  fit_budget hits = fit_from 0 [] hits
