-- ===== src/Chunking/Recursive/Sound.antt =====
-- chunking/recursive.py: `RecursiveChunker.chunk` meets the contract.
use note_rag.Base.{ℕ, ◌-◌, ◌≡◌, refl, Option, List, [], ◌∷◌, All, length, arith}
use note_rag.Base.Int.{ℤ}
use note_rag.Base.Result.{ok}
use note_rag.Chunking.Tokens.{Text, CharClass, Token, Ordered, tokenize}
use note_rag.Chunking.Tokens.Spans.{tokenize-Ordered}
use note_rag.Chunking.Models.{Settings, settings}
use note_rag.Chunking.Contract.{IsAllowed, settings-IsAllowed, Chunks, build-Chunks}
use note_rag.Chunking.Separators.{structural_separators}
use note_rag.Chunking.Recursive.{split_range, boundary_levels, chunk_tokens, chunk}
use note_rag.Chunking.Recursive.Units.{Increasing, split_range-Chain, boundary_levels-Increasing}
use note_rag.Chunking.Recursive.Packing.{pack-Covers}

chunk_tokens-Chunks :
    (levels : List (List ℕ)) (s : Settings) (text : Text) (tokens : List Token)
    (source_id : Option Text)
    → IsAllowed s
    → All (Increasing 0) levels
    → Ordered 0 (length text) tokens
    → Chunks s text tokens source_id (chunk_tokens levels s text tokens source_id)
unfolding chunk_tokens
chunk_tokens-Chunks levels s text [] source_id a i o =
    ([], refl, record { covers = refl; numbered = tt; slices = tt })
chunk_tokens-Chunks levels s text (t ∷ ts) source_id a i o =
    let n = length (t ∷ ts) in
    let budget = s.chunk_size - s.chunk_overlap in
    let (ranges, packed, covers) =
      pack-Covers s.chunk_size s.chunk_overlap n a (split_range budget levels 0 n) (omega arith)
        (split_range-Chain budget (omega arith) levels 0 n i (omega arith)) in
    rw packed (build-Chunks s text (t ∷ ts) source_id ranges o covers)

-- With settings that `RecursiveChunker.__init__` accepts, `chunk` never raises, its assertion that
-- the units are contiguous included, and its chunks meet the contract of `TokenChunker`, wherever
-- the separators of the text lie.
pub recursive-Chunks :
    (k : CharClass) (size overlap : ℤ) (s : Settings) (text : Text) (source_id : Option Text)
    → settings size overlap ≡ ok s
    → Chunks s text (tokenize k text) source_id (chunk k s text source_id)
unfolding chunk
recursive-Chunks k size overlap s text source_id a =
    let tokens = tokenize k text in
    chunk_tokens-Chunks (boundary_levels text tokens (structural_separators k)) s text tokens
      source_id (settings-IsAllowed size overlap s a)
      (boundary_levels-Increasing text tokens (structural_separators k)) (tokenize-Ordered k text)
