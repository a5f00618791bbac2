-- ===== src/Chunking/Windows.antt =====
-- chunking/service.py: `TokenChunker`.
pub mod Sound
use note_rag.Base.{
  ℕ, zero, suc, ◌+◌, ◌-◌, min, Option, List, [], ◌∷◌, length, ltb, ◌==◌, if◌then◌else◌,
}
use note_rag.Base.Result.{Result, ok}
use note_rag.Chunking.Tokens.{Text, CharClass, Token, tokenize}
use note_rag.Chunking.Models.{Error, Chunk, Settings}
use note_rag.Chunking.Cover.{Range}
use note_rag.Chunking.Build.{build}

-- The ranges of `for ... in enumerate(range(0, len(tokens), step))` up to its `break`. The fuel
-- is the count of tokens: a round adds a token at least.
unfoldable pub windows : ℕ → ℕ → ℕ → ℕ → ℕ → List Range
windows zero size step n start = []
windows (suc fuel) size step n start =
    let rest = windows fuel size step n (start + step) in
    let token_end = min (start + size) n in
    if ltb start n then (start, token_end) ∷ (if token_end == n then [] else rest) else []

unfoldable pub chunk_tokens : Settings → Text → List Token → Option Text → Result Error (List Chunk)
chunk_tokens s text [] source_id = ok []
chunk_tokens s text (t ∷ ts) source_id =
    let tokens = t ∷ ts in
    let step = s.chunk_size - s.chunk_overlap in
    build text tokens source_id 0 (windows (length tokens) s.chunk_size step (length tokens) 0)

unfoldable pub chunk : CharClass → Settings → Text → Option Text → Result Error (List Chunk)
unfolding chunk_tokens
chunk k s text source_id = chunk_tokens s text (tokenize k text) source_id
