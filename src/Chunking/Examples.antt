-- ===== src/Chunking/Examples.antt =====
-- The chunkers on a small text.
use note_rag.Base.{ℕ, ◌≡◌, refl, ◌&&◌, ◌||◌, none, List, [], ◌∷◌, map, leb, ◌==◌, slice, arith}
use note_rag.Base.Int.{pos, negsuc}
use note_rag.Base.Result.{Result, ok, raise}
use note_rag.Chunking.Tokens.{Text, CharClass, Token, tokenize, Ordered}
use note_rag.Chunking.Tokens.Spans.{tokenize-Ordered}
use note_rag.Chunking.Tokens.Content.{joined, visible, joined-tokenize}
use note_rag.Chunking.Models.{Error, value_error, Chunk, Settings, settings, validate}
use note_rag.Chunking.Build.{build}
use note_rag.Chunking.Build.Sound.{token_range}
use note_rag.Chunking.Contract.{Chunks}
use note_rag.Chunking.Separators.{heading, paragraph, sentence, line, finditer}
use note_rag.Chunking.Windows
use note_rag.Chunking.Windows.Sound.{chunk-Chunks}
use note_rag.Chunking.Recursive
use note_rag.Chunking.Recursive.Sound.{recursive-Chunks}

abbrev ascii : CharClass
ascii = record {
  is_word = λ c. leb 48 c && leb c 57 || leb 65 c && leb c 90 || c == 95 || leb 97 c && leb c 122;
  is_space = λ c. c == 32 || leb 9 c && leb c 13;
}

-- `"ab c.\n\nd ef"`
abbrev sample : Text
sample = 97 ∷ 98 ∷ 32 ∷ 99 ∷ 46 ∷ 10 ∷ 10 ∷ 100 ∷ 32 ∷ 101 ∷ 102 ∷ []

abbrev three_one : Settings
three_one = record { chunk_size = 3; chunk_overlap = 1 }

spans_of : List Token → List (ℕ × ℕ)
spans_of ts = map (λ t. (t.start, t.end)) ts

sample_tokens : spans_of (tokenize ascii sample) ≡ (0, 2) ∷ (3, 4) ∷ (4, 5) ∷ (7, 8) ∷ (9, 11) ∷ []
unfolding spans_of tokenize
sample_tokens = refl

ranges_of : Result Error (List Chunk) → List (ℕ × ℕ)
ranges_of (ok cs) = map token_range cs
ranges_of (raise e) = []

sample_windows : ranges_of (Windows.chunk ascii three_one sample none) ≡ (0, 3) ∷ (2, 5) ∷ []
unfolding ranges_of Windows.chunk Windows.windows tokenize slice validate build
sample_windows = refl

-- The paragraph break behind the third token is kept as a boundary of the units.
sample_recursive : ranges_of (Recursive.chunk ascii three_one sample none) ≡ (0, 3) ∷ (2, 5) ∷ []
unfolding ranges_of Recursive.chunk tokenize slice validate build finditer heading paragraph
    sentence line
sample_recursive = refl

settings_rejects :
    (settings (pos 3) (negsuc 0) ≡ raise (value_error "chunk_overlap must not be negative"))
    × (settings (pos 3) (pos 3)
        ≡ raise (value_error "chunk_overlap must be smaller than chunk_size"))
unfolding settings
settings_rejects = (refl, refl)

tokenize-Ordered_example : Ordered 0 11 (tokenize ascii sample)
tokenize-Ordered_example = tokenize-Ordered ascii sample

joined-tokenize_example : joined (tokenize ascii sample) ≡ visible ascii sample
joined-tokenize_example = joined-tokenize ascii sample (λ c h. ground arith)

chunk-Chunks_example :
    Chunks three_one sample (tokenize ascii sample) none (Windows.chunk ascii three_one sample none)
unfolding settings
chunk-Chunks_example = chunk-Chunks ascii (pos 3) (pos 1) three_one sample none refl

recursive-Chunks_example :
    Chunks three_one sample
      (tokenize ascii sample)
      none
      (Recursive.chunk ascii three_one sample none)
unfolding settings
recursive-Chunks_example = recursive-Chunks ascii (pos 3) (pos 1) three_one sample none refl
