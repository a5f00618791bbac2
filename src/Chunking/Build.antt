-- ===== src/Chunking/Build.antt =====
-- The body of the `for` loop of both chunkers (chunking/service.py and chunking/recursive.py).
use note_rag.Base.{
  ℕ, zero, suc, ◌+◌, ◌-◌, ◌≤◌, ◌<◌, ◌≡◌, refl, Option, none, some, List, [], ◌∷◌, map, length,
  slice, head?, get_last?, get_elem?, All, arith,
}
use note_rag.Base.Result.{Result, ok, raise, ◌>>=◌}
use note_rag.Chunking.Tokens.{Text, Token}
use note_rag.Chunking.Models.{Error, index_error, ChunkMetadata, Chunk, validate}
use note_rag.Chunking.Cover.{Range}
pub mod Sound

-- `window[0]` and `window[-1]` raise on an empty list.
unfoldable pub or_index_error {ℓ} : {A : Type ℓ} → Option A → Result Error A
or_index_error none = raise index_error
or_index_error (some a) = ok a

module _ (text : Text) (tokens : List Token) (source_id : Option Text) where
  unfoldable pub make_chunk : ℕ → Range → Result Error Chunk
  unfolding or_index_error
  make_chunk index (token_start, token_end) = do
    let window = slice tokens token_start token_end
    first ← or_index_error (head? window)
    last ← or_index_error (get_last? window)
    validate (record {
      text = slice text first.start last.end;
      metadata = record {
        index = index;
        token_start = token_start;
        token_end = token_end;
        token_count = length window;
        char_start = first.start;
        char_end = last.end;
        source_id = source_id;
      };
    })

  -- `for index, (token_start, token_end) in enumerate(ranges): ... chunks.append(...)`
  unfoldable pub build : ℕ → List Range → Result Error (List Chunk)
  unfolding make_chunk
  build index [] = ok []
  build index (r ∷ rs) = do c ← make_chunk index r; cs ← build (index + 1) rs; ok (c ∷ cs)
