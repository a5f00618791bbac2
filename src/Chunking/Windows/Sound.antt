-- ===== src/Chunking/Windows/Sound.antt =====
-- chunking/service.py: `TokenChunker.chunk` meets the contract.
use note_rag.Base.{
  ℕ, zero, suc, ◌+◌, ◌-◌, ◌≤◌, ◌<◌, ◌≡◌, refl, Option, List, [], ◌∷◌, length, arith,
}
use note_rag.Base.Int.{ℤ}
use note_rag.Base.Result.{ok}
use note_rag.Chunking.Tokens.{Text, CharClass, Token, Ordered, tokenize}
use note_rag.Chunking.Tokens.Spans.{tokenize-Ordered}
use note_rag.Chunking.Models.{Settings, settings}
use note_rag.Chunking.Cover.{Covers}
use note_rag.Chunking.Contract.{IsAllowed, settings-IsAllowed, Chunks, build-Chunks}
use note_rag.Chunking.Windows.{windows, chunk_tokens, chunk}

module _ (size overlap n : ℕ) (allowed : overlap < size) where
  windows-Covers :
      (fuel e start : ℕ)
      → start ≡ e - overlap
      → e < n
      → n ≤ e + fuel
      → Covers size overlap n e (windows fuel size (size - overlap) n start)
  unfolding windows
  windows-Covers zero e start p h f = absurd (omega arith)
  windows-Covers (suc fuel) e start p h f =
      ground (arith, windows-Covers fuel (start + size) (start + (size - overlap)))

chunk_tokens-Chunks :
    (s : Settings) (text : Text) (tokens : List Token) (source_id : Option Text)
    → IsAllowed s
    → Ordered 0 (length text) tokens
    → Chunks s text tokens source_id (chunk_tokens s text tokens source_id)
unfolding chunk_tokens
chunk_tokens-Chunks s text [] source_id a o =
    ([], refl, record { covers = refl; numbered = tt; slices = tt })
chunk_tokens-Chunks s text (t ∷ ts) source_id a o = build-Chunks s text (t ∷ ts) source_id _ o (
    windows-Covers s.chunk_size s.chunk_overlap (length (t ∷ ts)) a (length (t ∷ ts)) 0 0
      (omega arith) (omega arith) (omega arith))

-- With settings that `TokenChunker.__init__` accepts, `chunk` never raises. Its chunks run over all
-- tokens of the text: each starts `chunk_overlap` tokens before the end of the one before it (the
-- first at 0), adds a token, and has at most `chunk_size` tokens. The indices count up from 0, and
-- each chunk is the non-empty slice of the text from its first token to its last.
pub chunk-Chunks :
    (k : CharClass) (size overlap : ℤ) (s : Settings) (text : Text) (source_id : Option Text)
    → settings size overlap ≡ ok s
    → Chunks s text (tokenize k text) source_id (chunk k s text source_id)
unfolding chunk
chunk-Chunks k size overlap s text source_id a =
    chunk_tokens-Chunks s text (tokenize k text) source_id (settings-IsAllowed size overlap s a)
      (tokenize-Ordered k text)
